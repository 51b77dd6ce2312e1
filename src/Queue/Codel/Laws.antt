-- ===== src/Queue/Codel/Laws.antt =====
-- codel_packet_queue.cc: theorems on `dequeue`, and the contract.
use mpshell_ext.Prelude.{
  ℕ, suc, ◌<◌, ◌≡◌, inl, inr, refl, sym, ap, subst, ◌∙◌, List, [], ◌∷◌, ◌++◌, arith, Kept,
  Kept-drop, length, List-cases, true, false, Bool-cases,
}
use mpshell_ext.Prelude.Result.{ok, Returns}
use mpshell_ext.Prelude.Stream.{now, later}
use mpshell_ext.Words.{sub64}
use mpshell_ext.Packet.{QueuedPacket}
use mpshell_ext.Queue.{Contract, HasRoom}
use mpshell_ext.Queue.Dropping.{Dropping, popped}
use mpshell_ext.Queue.Dropping.Laws.{
  IsValid, empty_lem, size_bytes_lem, size_packets_lem, popped-IsValid, accept_if_good-Returns,
}
use mpshell_ext.Queue.Codel.{
  Codel, Dequeued, enqueue, drop_loop, started, start_dropping, settle, act, dequeue, codel,
}
use mpshell_ext.Queue.Codel.Dodequeue.{queue, dodequeue-Judged}
use mpshell_ext.Queue.Codel.Loop.{Suffix, base-settle, dropping-settle, drop_loop_lem}

module _ (control_delta : ℕ → ℕ → ℕ) where
  abbrev KeepsValid : Codel → Codel → Type 0
  KeepsValid c c' = IsValid c'.base × Suffix (queue c') (queue c)

  base-started : (time : ℕ) (c : Codel) → (started control_delta time c).base ≡ c.base
  unfolding started
  base-started time c = refl

  start_dropping_lem :
      (time : ℕ) (p : QueuedPacket) (rest : List QueuedPacket) (c : Codel)
      → IsValid c.base
      → queue c ≡ p ∷ rest
      → Returns (start_dropping control_delta time c) (KeepsValid c)
  start_dropping_lem time p rest c v q =
      let (r, d, j) = dodequeue-Judged time p rest c v q in
      let b : (started control_delta time r.1).base ≡ popped p rest c.base =
        base-started time r.1 ∙ j.base_left in
      let left : queue (started control_delta time r.1) ≡ rest =
        ap (λ (x : Dropping). x.internal_queue) b in
      (
        started control_delta time r.1,
        unfold start_dropping in rw d,
        (rw b (popped-IsValid p rest v q), (p ∷ [], q ∙ ap (λ l. p ∷ l) (sym left))),
      )

  act-loop :
      (time : ℕ) (r : Dequeued) (c : Codel)
      → c.dropping ≡ true
      → act control_delta time r c
        ≡ drop_loop control_delta (suc (length (queue c))) time (settle r c)
  unfolding act
  act-loop time r c e = rw e

  act-start :
      (time : ℕ) (r : Dequeued) (c : Codel)
      → c.dropping ≡ false
      → r.ok_to_drop ≡ true
      → act control_delta time r c ≡ start_dropping control_delta time c
  unfolding act
  act-start time r c e f = rw (e, f)

  act-rest :
      (time : ℕ) (r : Dequeued) (c : Codel)
      → c.dropping ≡ false
      → r.ok_to_drop ≡ false
      → act control_delta time r c ≡ ok c
  unfolding act
  act-rest time r c e f = rw (e, f)

  act_loop_lem :
      (time : ℕ) (r : Dequeued) (c : Codel)
      → c.dropping ≡ true
      → IsValid c.base
      → (r.ok_to_drop ≡ true → 0 < length (queue c))
      → Returns (act control_delta time r c) (KeepsValid c)
  act_loop_lem time r c e v n =
      let b = base-settle r c in
      let same : queue (settle r c) ≡ queue c = ap (λ (x : Dropping). x.internal_queue) b in
      let (c', d, w) =
        drop_loop_lem control_delta (suc (length (queue c))) time (settle r c)
          (omega (arith, ap length same)) (rw b v)
          (λ t. omega (arith, ap length same, n (dropping-settle r c t))) in
      (c', act-loop time r c e ∙ d, (w.0, subst (λ l. Suffix (queue c') l) same w.1))

  act_lem :
      (time : ℕ) (r : Dequeued) (c : Codel)
      → IsValid c.base
      → (r.ok_to_drop ≡ true → 0 < length (queue c))
      → Returns (act control_delta time r c) (KeepsValid c)
  act_lem time r c v n = elim (Bool-cases c.dropping) [
    | inl e ↦ act_loop_lem time r c e v n
    | inr e ↦ elim (Bool-cases r.ok_to_drop) [
      | inr f ↦ (c, act-rest time r c e f, (v, ([], refl)))
      | inl f ↦ elim (List-cases (queue c)) [
        | inl q ↦ absurd (omega (arith, n f, ap length q))
        | inr (p, rest, q) ↦
            let (c', d, w) = start_dropping_lem time p rest c v q in
            (c', act-start time r c e f ∙ d, w)
      ]
    ]
  ]

  -- A queue that holds a packet `p` returns `p`, ends, and fails no assertion; it drops nothing but
  -- the packets next behind `p`.
  pub dequeue_codel :
      (c : Codel) (p : QueuedPacket) (rest : List QueuedPacket)
      → IsValid c.base
      → queue c ≡ p ∷ rest
      → Returns
          (dequeue control_delta c)
          (λ r. (r.0 ≡ p) × IsValid r.1.base × Suffix (queue r.1) rest)
  dequeue_codel c p rest v q =
      let c0 : Codel = record c { clock = later c.clock } in
      let (r, d, j) = dodequeue-Judged (now c.clock) p rest c0 v q in
      let left : queue r.1 ≡ rest = ap (λ (x : Dropping). x.internal_queue) j.base_left in
      let (c', a, w) =
        act_lem (now c.clock) r.0 r.1 (rw j.base_left (popped-IsValid p rest v q))
          (λ t. omega (arith, ap length left, j.not_last t)) in
      (
        (r.0.p, c'),
        unfold dequeue in rw d (rw a),
        (j.same_packet, w.0, subst (λ l. Suffix (queue c') l) left w.1),
      )

  act_keeping :
      (time : ℕ) (r : Dequeued) (c : Codel)
      → r.ok_to_drop ≡ false
      → act control_delta time r c ≡ ok (record c { dropping = false })
  unfolding act drop_loop settle
  act_keeping time r c e = ground arith

  -- A head that has waited for less than the target is returned, and nothing is dropped; the
  -- dropping state is left.
  pub dequeue_below_target :
      (c : Codel) (p : QueuedPacket) (rest : List QueuedPacket)
      → IsValid c.base
      → queue c ≡ p ∷ rest
      → sub64 (now c.clock) p.arrival_time < c.target
      → Returns
          (dequeue control_delta c)
          (λ r. (r.0 ≡ p) × (queue r.1 ≡ rest) × (r.1.dropping ≡ false))
  dequeue_below_target c p rest v q h =
      let c0 : Codel = record c { clock = later c.clock } in
      let (r, d, j) = dodequeue-Judged (now c.clock) p rest c0 v q in
      let kept : r.0.ok_to_drop ≡ false = elim (Bool-cases r.0.ok_to_drop) [
        | inl t ↦ absurd (omega (arith, j.waited t))
        | inr f ↦ f
      ] in
      (
        (r.0.p, record r.1 { dropping = false }),
        unfold dequeue in rw d (rw (act_keeping (now c.clock) r.0 r.1 kept)),
        (j.same_packet, ap (λ (x : Dropping). x.internal_queue) j.base_left, refl),
      )

pub codel_enqueue-Returns :
    (p : QueuedPacket) (c : Codel)
    → IsValid c.base
    → HasRoom p (queue c)
    → Returns (enqueue p c) (λ c'. IsValid c'.base × Kept (queue c') (queue c ++ p ∷ []))
codel_enqueue-Returns p c v room =
    let (d, e, w) = accept_if_good-Returns p v room.in_bytes room.in_packets in
    (record c { base = d }, unfold enqueue in rw e, w)

pub codel_dequeue-Returns :
    (control_delta : ℕ → ℕ → ℕ) (c : Codel) (p : QueuedPacket) (ps : List QueuedPacket)
    → IsValid c.base
    → queue c ≡ p ∷ ps
    → Returns (dequeue control_delta c) (λ r. (r.0 ≡ p) × IsValid r.1.base × Kept (queue r.1) ps)
codel_dequeue-Returns control_delta c p ps v e =
    let (r, d, w) = dequeue_codel control_delta c p ps v e in
    (r, d, (w.0, w.1, subst (λ l. Kept (queue r.1) l) (sym w.2.1) (Kept-drop w.2.0 (queue r.1))))

-- The contract, for CoDel with any control law.
abbrev pub codel_contract : (control_delta : ℕ → ℕ → ℕ) → Contract (codel control_delta)
codel_contract control_delta = record {
  IsValid = λ c. IsValid c.base;
  contents = queue;
  empty_lem = λ c v. empty_lem c.base;
  size_bytes_lem = λ c v. size_bytes_lem v.counted;
  size_packets_lem = λ c v. size_packets_lem v.counted;
  enqueue_lem = codel_enqueue-Returns;
  dequeue_lem = λ c p ps v e. codel_dequeue-Returns control_delta c p ps v e;
}
