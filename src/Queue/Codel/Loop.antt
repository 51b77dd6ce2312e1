-- ===== src/Queue/Codel/Loop.antt =====
-- codel_packet_queue.cc: lemmas on the loop that drops packets.
use mpshell_ext.Prelude.{
  ℕ, zero, suc, ◌<◌, ◌≡◌, inl, inr, refl, ap, subst, ◌∙◌, List, [], ◌∷◌, ◌++◌, arith, length,
  List-cases, true, false, Bool-cases, leb, ◌&&◌,
}
use mpshell_ext.Prelude.Result.{ok, Returns}
use mpshell_ext.Packet.{QueuedPacket}
use mpshell_ext.Queue.Dropping.{Dropping, popped}
use mpshell_ext.Queue.Dropping.Laws.{IsValid, popped-IsValid}
use mpshell_ext.Queue.Codel.{Codel, Dequeued, dodequeue, after_drop, drop_loop, settle}
use mpshell_ext.Queue.Codel.Dodequeue.{queue, dodequeue-Judged}

-- `xs` is `ys` with its first entries dropped.
abbrev pub Suffix : List QueuedPacket → List QueuedPacket → Type 0
Suffix xs ys = (ds : List QueuedPacket) × (ys ≡ ds ++ xs)

pub Suffix-cons :
    (p : QueuedPacket) {xs ys zs : List QueuedPacket} → ys ≡ p ∷ zs → Suffix xs zs → Suffix xs ys
Suffix-cons p e (ds, h) = (p ∷ ds, e ∙ ap (λ l. p ∷ l) h)

pub base-settle : (r : Dequeued) (c : Codel) → (settle r c).base ≡ c.base
unfolding settle
base-settle r c = ground arith

pub dropping-settle :
    (r : Dequeued) (c : Codel) → (settle r c).dropping ≡ true → r.ok_to_drop ≡ true
unfolding settle
dropping-settle r c = ground arith

module _ (control_delta : ℕ → ℕ → ℕ) where
  base-after_drop : (r : Dequeued) (c : Codel) → (after_drop control_delta r c).base ≡ c.base
  unfolding after_drop
  base-after_drop r c = ground arith

  dropping-after_drop :
      (r : Dequeued) (c : Codel)
      → (after_drop control_delta r c).dropping ≡ true
      → r.ok_to_drop ≡ true
  unfolding after_drop
  dropping-after_drop r c = ground arith

  drop_loop-round :
      (fuel time : ℕ) (c : Codel) {r : Dequeued × Codel}
      → (leb c.drop_next time && c.dropping) ≡ true
      → dodequeue time c ≡ ok r
      → drop_loop control_delta (suc fuel) time c
        ≡ drop_loop control_delta fuel time (after_drop control_delta r.0 r.1)
  unfolding drop_loop
  drop_loop-round fuel time c e d = rw (e, drop_loop) (rw d)

  drop_loop-end :
      (fuel time : ℕ) (c : Codel)
      → (leb c.drop_next time && c.dropping) ≡ false
      → drop_loop control_delta (suc fuel) time c ≡ ok c
  unfolding drop_loop
  drop_loop-end fuel time c e = rw (e, drop_loop)

  dropping_of_test :
      (time : ℕ) (c : Codel) → (leb c.drop_next time && c.dropping) ≡ true → c.dropping ≡ true
  dropping_of_test time c e = ground arith

  -- The loop ends within one round for each packet, and no call of `dodequeue` finds the queue empty.
  pub drop_loop_lem :
      (fuel time : ℕ) (c : Codel)
      → length (queue c) < fuel
      → IsValid c.base
      → (c.dropping ≡ true → 0 < length (queue c))
      → Returns
          (drop_loop control_delta fuel time c)
          (λ c'. IsValid c'.base × Suffix (queue c') (queue c))
  drop_loop_lem zero time c h v n = absurd (omega arith)
  drop_loop_lem (suc fuel) time c h v n = elim (Bool-cases (leb c.drop_next time && c.dropping)) [
    | inr e ↦ (c, drop_loop-end fuel time c e, (v, ([], refl)))
    | inl e ↦ elim (List-cases (queue c)) [
      | inl q ↦ absurd (omega (arith, ap length q, n (dropping_of_test time c e)))
      | inr (p, rest, q) ↦
          let (r, d, j) = dodequeue-Judged time p rest c v q in
          let c2 = after_drop control_delta r.0 r.1 in
          let b : c2.base ≡ popped p rest c.base = base-after_drop r.0 r.1 ∙ j.base_left in
          let left : queue c2 ≡ rest = ap (λ (x : Dropping). x.internal_queue) b in
          let (c', d', w) =
            drop_loop_lem fuel time c2 (omega (arith, ap length left, ap length q))
              (rw b (popped-IsValid p rest v q))
              (λ t. omega (arith, ap length left, j.not_last (dropping-after_drop r.0 r.1 t))) in
          (
            c',
            drop_loop-round fuel time c e d ∙ d',
            (w.0, Suffix-cons p q (subst (λ l. Suffix (queue c') l) left w.1)),
          )
    ]
  ]
