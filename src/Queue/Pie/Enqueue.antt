-- ===== src/Queue/Pie/Enqueue.antt =====
-- pie_packet_queue.cc, enqueue: which packets are accepted.
use mpshell_ext.Prelude.{
  ℕ, suc, ◌+◌, ◌*◌, ◌/◌, ◌<◌, ◌^◌, ◌≡◌, refl, sym, ap, subst, ◌∙◌, ◌⊎◌, inl, inr, Bool, true, ◌&&◌,
  false, arith, ltb, if◌then◌else◌, length, Bool-cases,
}
use mpshell_ext.Prelude.Result.{Result, ok, Returns, Returns->>=, ◌>>=◌, ◌>>◌, assert}
use mpshell_ext.Prelude.Stream.{now}
use mpshell_ext.Words.{u32}
use mpshell_ext.Packet.{QueuedPacket, size, total}
use mpshell_ext.Queue.{HasRoom}
use mpshell_ext.Queue.Dropping
use mpshell_ext.Queue.Dropping.{Dropping, accept, popped, good_with}
use mpshell_ext.Queue.Dropping.Laws.{
  IsValid, fits, size_bytes_lem, size_packets_lem, good_of_IsValid, accept-IsValid,
}
use mpshell_ext.Queue.Pie.{
  Doubles, Pie, packet_size, calculate_drop_prob, drop_early, accept_or_drop, enqueue,
}
use mpshell_ext.Queue.Pie.Update.{IsUpdated, calculate_drop_prob-Returns}

module _ (F : Doubles) where
  -- What `drop_early` leaves: the packets, and a packet is kept while there are few bytes.
  record IsJudged (q : Pie F) (r : Bool × Pie F) : Type 0 where
    base : r.1.base ≡ q.base
    spared : total q.base.internal_queue < 2 * packet_size → r.0 ≡ false

  drop_early-IsJudged : (q : Pie F) → IsValid q.base → Returns (drop_early F q) (IsJudged q)
  unfolding drop_early
  drop_early-IsJudged q v = elim (Bool-cases (ltb 0 q.burst_allowance)) [
    | inl e ↦ simp e ((false, q), refl, record { base = refl; spared = λ h. refl })
    | inr e ↦
        elim (Bool-cases
          (ltb q.qdelay_old (q.qdelay_ref / 2) && F.less q.drop_prob (F.literal 2 10))) [
            | inl f ↦ simp (e, f) ((false, q), refl, record { base = refl; spared = λ h. refl })
            | inr f ↦ elim (Bool-cases (ltb (total q.base.internal_queue) (2 * packet_size))) [
              | inl g ↦
                  simp (e, f, size_bytes_lem v.counted, g)
                    ((false, q), refl, record { base = refl; spared = λ h. refl })
              | inr g ↦
                  simp (e, f, size_bytes_lem v.counted, g)
                    (
                      (F.less (q.draws 0) q.drop_prob, record q { draws = λ n. q.draws (suc n) }),
                      refl,
                      record { base = refl; spared = λ h. absurd (ground arith) },
                    )
            ]
          ]
  ]

  -- The packets after `enqueue`: a packet that does not fit is dropped, another may be dropped early,
  -- but not while there are few bytes.
  pub record IsEnqueued (p : QueuedPacket) (d : Dropping) (q : Pie F) : Type 0 where
    pub valid : IsValid q.base
    pub queued : (q.base ≡ d) ⊎ ((q.base ≡ accept p d) × (fits p d ≡ true))
    pub spared : fits p d ≡ true → total d.internal_queue < 2 * packet_size → q.base ≡ accept p d

  passed :
      (q : Pie F) (base : Dropping)
      → IsValid base
      → (do g ← Dropping.good base; assert g; ok (record q { base = base }))
        ≡ ok (record q { base = base })
  passed q base v = rw (good_of_IsValid v) refl

  accept_or_drop-IsEnqueued :
      (p : QueuedPacket) (q : Pie F)
      → IsValid q.base
      → HasRoom p q.base.internal_queue
      → fits p q.base ≡ true
      → Returns (accept_or_drop F p q) (IsEnqueued p q.base)
  unfolding accept_or_drop
  accept_or_drop-IsEnqueued p q v room f =
      Returns->>= (IsJudged q) (IsEnqueued p q.base) (drop_early F q) _ (drop_early-IsJudged q v)
        (λ r j. by_drop r.0 r.1 j.base j.spared)
    where
      by_drop :
          (dropped : Bool) (q' : Pie F)
          → q'.base ≡ q.base
          → (total q.base.internal_queue < 2 * packet_size → dropped ≡ false)
          → Returns
              (do
                let base = if dropped then q'.base else accept p q'.base
                g ← Dropping.good base
                assert g
                ok (record q' { base = base }))
              (IsEnqueued p q.base)
      by_drop true q' e spared = (
        record q' { base = q'.base },
        passed q' q'.base (subst IsValid (sym e) v),
        record {
          valid = subst IsValid (sym e) v;
          queued = inl e;
          spared = λ g h. absurd (ground (arith, spared h));
        },
      )
      by_drop false q' e spared =
          let same = ap (accept p) e in
          let valid = accept-IsValid p v room.in_bytes room.in_packets f in
          (
            record q' { base = accept p q'.base },
            passed q' (accept p q'.base) (subst IsValid (sym same) valid),
            record {
              valid = subst IsValid (sym same) valid;
              queued = inr (same, f);
              spared = λ g h. same;
            },
          )

  abbrev room_or_drop : QueuedPacket → Pie F → Result (Pie F)
  room_or_drop p q = do
    b ← Dropping.size_bytes q.base
    n ← Dropping.size_packets q.base
    if good_with q.base (u32 (b + size p)) (u32 (n + 1)) then accept_or_drop F p q else ok q

  small_sums :
      (p : QueuedPacket) (q : Pie F) (b n : ℕ)
      → b + size p < 2 ^ 31
      → n + 1 < 2 ^ 31
      → good_with q.base (u32 (b + size p)) (u32 (n + 1)) ≡ good_with q.base (b + size p) (n + 1)
  small_sums p q b n h k =
      let in_bytes : u32 (b + size p) ≡ b + size p = omega arith in
      let in_packets : u32 (n + 1) ≡ n + 1 = omega arith in
      ap (λ x. good_with q.base x (u32 (n + 1))) in_bytes
      ∙ ap (λ x. good_with q.base (b + size p) x) in_packets

  room_tested :
      (p : QueuedPacket) (q : Pie F)
      → IsValid q.base
      → HasRoom p q.base.internal_queue
      → room_or_drop p q ≡ (if fits p q.base then accept_or_drop F p q else ok q)
  room_tested p q v room =
      simp (size_bytes_lem v.counted, size_packets_lem v.counted)
        (ap (λ b. if b then accept_or_drop F p q else ok q)
          (small_sums p q (total q.base.internal_queue) (length q.base.internal_queue) room.in_bytes
            room.in_packets))

  room_or_drop-IsEnqueued :
      (p : QueuedPacket) (q : Pie F)
      → IsValid q.base
      → HasRoom p q.base.internal_queue
      → Returns (room_or_drop p q) (IsEnqueued p q.base)
  room_or_drop-IsEnqueued p q v room =
      subst (λ m. Returns m (IsEnqueued p q.base)) (sym (room_tested p q v room))
        (by_room (fits p q.base) refl)
    where
      by_room :
          (b : Bool)
          → fits p q.base ≡ b
          → Returns (if b then accept_or_drop F p q else ok q) (IsEnqueued p q.base)
      by_room true f = accept_or_drop-IsEnqueued p q v room f
      by_room false f =
          (q, refl, record { valid = v; queued = inl refl; spared = λ g h. absurd (ground arith) })

  -- `enqueue` returns whatever the arithmetic on `double` computes: the loop ends and no assertion
  -- fails. A packet that does not fit is dropped, and one that fits is put at the back, unless it is
  -- dropped early; no packet is while fewer than two packets' bytes are queued.
  pub enqueue_pie :
      (p : QueuedPacket) (q : Pie F)
      → IsValid q.base
      → HasRoom p q.base.internal_queue
      → Returns (enqueue F p q) (IsEnqueued p q.base)
  unfolding enqueue
  enqueue_pie p q v room =
      Returns->>= (IsUpdated F q.base (now q.clock)) (IsEnqueued p q.base) (calculate_drop_prob F q)
        _ (calculate_drop_prob-Returns F q v)
        (λ q' u.
          subst (λ d. Returns (room_or_drop p q') (IsEnqueued p d)) u.base
            (room_or_drop-IsEnqueued p q' (subst IsValid (sym u.base) v)
              (subst (λ d. HasRoom p d.internal_queue) (sym u.base) room)))
