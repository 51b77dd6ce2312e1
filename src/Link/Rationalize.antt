-- ===== src/Link/Rationalize.antt =====
-- link_queue.cc: theorems on `rationalize`, over a queue that keeps the contract.
use mpshell_ext.Prelude.{
  ℕ, zero, suc, ◌+◌, ◌*◌, ◌≤◌, ◌<◌, ◌^◌, ◌≡◌, ◌⊎◌, inl, inr, refl, sym, ap, subst, ◌∙◌, true, false,
  arith, All-imp, Kept, Kept-refl, Kept-trans, Bool-cases, leb, leb→le, is_nil,
}
use mpshell_ext.Prelude.Result.{ok, Returns}
use mpshell_ext.Queue.{PacketQueue, Contract}
use mpshell_ext.Link.{
  LinkQueue, packet_size, advance, use_a_delivery_opportunity, load_transit, deliver,
  rationalize_loop, rationalize, fuel_for,
}
use mpshell_ext.Link.Trace.{back}
use mpshell_ext.Link.Clock.{
  due, IsClocked, next_delivery_time_lem, rounds, advance-IsClocked, due-advance, rounds-advance,
}
use mpshell_ext.Link.Flow.{Sendable, SameClock, SameClock-trans, progress, IsLoaded, flow, IsIdle}
use mpshell_ext.Link.Delivery.{Delivered, deliver_lem}
use mpshell_ext.Link.Opportunities.{
  opportunities_in, opportunities, rounds-lt-fuel_for, Advanced, use-Advanced, IsClocked-SameClock,
  due-SameClock, rounds-SameClock, opportunities_in-SameClock,
}

module _ {pq : PacketQueue} (c : Contract pq) where
  -- `l'` is `l` after all the deliveries up to `now`, of which there are `n`.
  pub record Served (now n : ℕ) (l l' : LinkQueue pq.State) : Type 0 where
    pub clocked : IsClocked l'
    pub same_schedule : l'.schedule ≡ l.schedule
    pub ahead : now < due l'
    pub loaded : IsLoaded c (due l') l'
    pub order : Kept (flow c l') (flow c l)
    pub within : progress l' ≤ progress l + packet_size * n
    pub used : (progress l' ≡ progress l + packet_size * n) ⊎ IsIdle c l'

  IsLoaded-later : (t u : ℕ) (l : LinkQueue pq.State) → t ≤ u → IsLoaded c t l → IsLoaded c u l
  IsLoaded-later t u l h v = record {
    queue_valid = v.queue_valid;
    queued =
        All-imp (Sendable t) (Sendable u)
          (λ p s. record { arrived = omega arith; not_empty = s.not_empty; small = s.small })
          (c.contents l.packet_queue) v.queued;
    transit = elim v.transit [
      | inl e ↦ inl e
      | inr x ↦ inr (record { arrived = omega arith; left = x.left; small = x.small })
    ];
  }

  IsLoaded-Advanced :
      (t : ℕ) (l l' : LinkQueue pq.State) → Advanced l l' → IsLoaded c t l → IsLoaded c t l'
  IsLoaded-Advanced t l l' a v = record {
    queue_valid = rw a.packet_queue v.queue_valid;
    queued = rw a.packet_queue v.queued;
    transit = elim v.transit [
      | inl e ↦ inl (a.bytes_left ∙ e)
      | inr x ↦ inr (record {
        arrived = rw a.packet_in_transit x.arrived;
        left = rw (a.packet_in_transit, a.bytes_left) x.left;
        small = rw a.packet_in_transit x.small;
      })
    ];
  }

  flow-Advanced : (l l' : LinkQueue pq.State) → Advanced l l' → flow c l' ≡ flow c l
  flow-Advanced l l' a = rw (a.output_queue, a.bytes_left, a.packet_in_transit, a.packet_queue)

  progress-Advanced : (l l' : LinkQueue pq.State) → Advanced l l' → progress l' ≡ progress l
  progress-Advanced l l' a = rw (a.output_queue, a.bytes_left, a.packet_in_transit)

  IsIdle-Advanced : (l l' : LinkQueue pq.State) → Advanced l l' → IsIdle c l → IsIdle c l'
  IsIdle-Advanced l l' a i = (a.bytes_left ∙ i.0, ap c.contents a.packet_queue ∙ i.1)

  -- An opportunity that finds the link idle is lost.
  deliver-idle :
      (fuel time budget : ℕ) (l : LinkQueue pq.State)
      → c.IsValid l.packet_queue
      → IsIdle c l
      → deliver pq (suc fuel) time budget l ≡ ok l
  unfolding deliver load_transit
  deliver-idle fuel time budget l v i = ground (arith, c.empty_lem l.packet_queue v ∙ ap is_nil i.1)

  loop-end :
      (fuel now : ℕ) (l : LinkQueue pq.State)
      → IsClocked l
      → leb (due l) now ≡ false
      → rationalize_loop pq (suc fuel) now l ≡ ok l
  unfolding rationalize_loop
  loop-end fuel now l v e = ground (arith, next_delivery_time_lem l v)

  loop-round :
      (fuel now : ℕ) (l m k : LinkQueue pq.State)
      → IsClocked l
      → leb (due l) now ≡ true
      → use_a_delivery_opportunity l ≡ ok m
      → deliver pq (suc packet_size) (due l) packet_size m ≡ ok k
      → rationalize_loop pq (suc fuel) now l ≡ rationalize_loop pq fuel now k
  unfolding rationalize_loop
  loop-round fuel now l m k v e u d = ground (arith, next_delivery_time_lem l v)

  Served-end :
      (fuel now : ℕ) (l : LinkQueue pq.State)
      → IsClocked l
      → IsLoaded c (due l) l
      → leb (due l) now ≡ false
      → Served now (opportunities_in (suc fuel) now l) l l
  unfolding opportunities_in
  Served-end fuel now l v w e =
      rw (e, opportunities_in)
        (record {
          clocked = v;
          same_schedule = refl;
          ahead = ground (arith, e);
          loaded = w;
          order = Kept-refl (flow c l);
          within = omega arith;
          used = inl (omega arith);
        })

  Served-round :
      (now n : ℕ) (l m k l' : LinkQueue pq.State)
      → Advanced l m
      → (IsIdle c k → IsIdle c l')
      → Delivered c (due l) packet_size m k
      → Served now n k l'
      → k.schedule ≡ l.schedule
      → Served now (suc n) l l'
  Served-round now n l m k l' a stays d w e = record {
    clocked = w.clocked;
    same_schedule = w.same_schedule ∙ e;
    ahead = w.ahead;
    loaded = w.loaded;
    order = Kept-trans w.order (subst (Kept (flow c k)) (flow-Advanced l m a) d.order);
    within = omega (arith, progress-Advanced l m a, d.within, w.within);
    used = elim d.used [
      | inr idle ↦ inr (stays idle)
      | inl x ↦ elim w.used [
        | inr idle ↦ inr idle
        | inl y ↦ inl (omega (arith, progress-Advanced l m a))
      ]
    ];
  }

  ok-injective : {k m : LinkQueue pq.State} → ok k ≡ ok m → k ≡ m
  ok-injective e = cc

  schedule-advance : (l : LinkQueue pq.State) → (advance l).schedule ≡ l.schedule
  unfolding advance
  schedule-advance l = ground arith

  opportunities_in-round :
      (fuel now : ℕ) (l k : LinkQueue pq.State)
      → leb (due l) now ≡ true
      → SameClock (advance l) k
      → opportunities_in (suc fuel) now l ≡ suc (opportunities_in fuel now k)
  unfolding opportunities_in
  opportunities_in-round fuel now l k e s =
      rw (e, opportunities_in) (ap suc (sym (opportunities_in-SameClock fuel now s)))

  -- The loop ends within `rounds` rounds, and fails no assertion.
  pub rationalize_loop_lem :
      (fuel now : ℕ) (l : LinkQueue pq.State)
      → rounds now l < fuel
      → IsClocked l
      → IsLoaded c (due l) l
      → now + back l.schedule < 2 ^ 64
      → Returns
          (rationalize_loop pq fuel now l)
          (λ l'. Served now (opportunities_in fuel now l) l l' × (IsIdle c l → IsIdle c l'))
  rationalize_loop_lem zero now l h v w b = absurd (omega arith)
  rationalize_loop_lem (suc fuel) now l h v w b = elim (Bool-cases (leb (due l) now)) [
    | inr e ↦ (l, loop-end fuel now l v e, (Served-end fuel now l v w e, λ i. i))
    | inl e ↦
        let passed = leb→le (due l) now e in
        let (m, u, a) = use-Advanced l v in
        let (k, d, D) =
          deliver_lem c (suc packet_size) (due l) packet_size m (omega arith)
            (IsLoaded-Advanced (due l) l m a w) in
        let s = SameClock-trans a.clock D.clock in
        let same : k.schedule ≡ l.schedule = s.schedule ∙ schedule-advance l in
        let later : due l ≤ due k = omega (arith, due-advance now l v passed b, due-SameClock s) in
        let idle : IsIdle c m → IsIdle c k = λ i.
          let e' = ok-injective (
            sym d
            ∙ deliver-idle packet_size (due l) packet_size m
                (IsLoaded-Advanced (due l) l m a w).queue_valid i) in
          subst (IsIdle c) (sym e') i in
        let (l', r, S) =
          rationalize_loop_lem fuel now k
            (omega (arith, rounds-advance now l v passed b, rounds-SameClock s now))
            (IsClocked-SameClock s (advance-IsClocked now l v passed b))
            (IsLoaded-later (due l) (due k) k later D.loaded) (rw same b) in
        (
          l',
          loop-round fuel now l m k v e u d ∙ r,
          (
            subst (λ n. Served now n l l') (sym (opportunities_in-round fuel now l k e s))
                (Served-round now (opportunities_in fuel now k) l m k l' a S.1 D S.0 same),
            λ i. S.1 (idle (IsIdle-Advanced l m a i)),
          ),
        )
  ]

  pub record IsValid (l : LinkQueue pq.State) : Type 0 where
    pub clocked : IsClocked l
    pub loaded : IsLoaded c (due l) l

  -- From a valid link `rationalize` returns: no assertion fails and the loop ends. Afterwards the
  -- next delivery is later than `now`, the packets are in the order that they had, and the bytes
  -- sent are those of the opportunities of the trace, or fewer only if nothing is left to send.
  pub rationalize-Served :
      (now : ℕ) (l : LinkQueue pq.State)
      → IsValid l
      → now + back l.schedule < 2 ^ 64
      → Returns (rationalize pq now l) (Served now (opportunities now l) l)
  unfolding rationalize opportunities
  rationalize-Served now l v b =
      let (l', e, s) =
        rationalize_loop_lem (fuel_for now l) now l (rounds-lt-fuel_for now l) v.clocked v.loaded
          b in
      (l', e, s.0)

  pub Served-IsValid : (now n : ℕ) (l l' : LinkQueue pq.State) → Served now n l l' → IsValid l'
  Served-IsValid now n l l' s = record { clocked = s.clocked; loaded = s.loaded }
