-- ===== src/Queue/Pie/Laws.antt =====
-- pie_packet_queue.cc: theorems on `dequeue`, and the contract.
use mpshell_ext.Prelude.{
  ℕ, ◌≡◌, refl, sym, subst, ◌∙◌, ◌⊎◌, inl, inr, true, List, [], ◌∷◌, ◌++◌, arith, Kept, Kept-refl,
  Kept-without_last,
}
use mpshell_ext.Prelude.Result.{Returns, Returns->>=}
use mpshell_ext.Prelude.Stream.{now, later}
use mpshell_ext.Words.{u32}
use mpshell_ext.Packet.{QueuedPacket, size, total}
use mpshell_ext.Queue.{Contract}
use mpshell_ext.Queue.Dropping.{accept, popped}
use mpshell_ext.Queue.Dropping.Laws.{
  IsValid, fits, empty_lem, size_bytes_lem, size_packets_lem, dequeue_dropping, popped-IsValid,
}
use mpshell_ext.Queue.Pie.{
  Doubles, Pie, calculate_drop_prob, enqueue, start_measuring, measure, sampled, dequeue, pie,
}
use mpshell_ext.Queue.Pie.Update.{calculate_drop_prob-Returns}
use mpshell_ext.Queue.Pie.Enqueue.{IsEnqueued, enqueue_pie}

module _ (F : Doubles) where
  start_measuring-base :
      (time bytes : ℕ) (q : Pie F) → (start_measuring F time bytes q).base ≡ q.base
  unfolding start_measuring
  start_measuring-base time bytes q = ground arith

  measure-base : (time bytes n : ℕ) (q : Pie F) → (measure F time bytes n q).base ≡ q.base
  unfolding measure sampled
  measure-base time bytes n q = ground arith

  measured :
      (time bytes n : ℕ) (t : Pie F)
      → IsValid t.base
      → Returns
          (calculate_drop_prob F (measure F time bytes n (start_measuring F time bytes t)))
          (λ q'. q'.base ≡ t.base)
  measured time bytes n t v =
      let s = measure F time bytes n (start_measuring F time bytes t) in
      let same =
        measure-base time bytes n (start_measuring F time bytes t)
        ∙ start_measuring-base time bytes t in
      let (q', returned, u) = calculate_drop_prob-Returns F s (subst IsValid (sym same) v) in
      (q', returned, u.base ∙ same)

  -- `dequeue` takes the head alone, and nothing else of the queue changes.
  pub dequeue_pie :
      (q : Pie F) (p : QueuedPacket) (rest : List QueuedPacket)
      → IsValid q.base
      → q.base.internal_queue ≡ p ∷ rest
      → Returns (dequeue F q) (λ r. (r.0 ≡ p) × (r.1.base ≡ popped p rest q.base))
  unfolding dequeue
  dequeue_pie q p rest v e =
      let left = popped-IsValid p rest v e in
      let d = popped p rest q.base in
      simp (dequeue_dropping p rest v e, size_bytes_lem left.counted)
        (Returns->>= (λ q'. q'.base ≡ d) (λ r. (r.0 ≡ p) × (r.1.base ≡ d)) _ _
          (measured (u32 (now q.clock)) (total rest) (size p)
            (record q { base = d; clock = later q.clock }) left)
          (λ q' same. ((p, q'), refl, (refl, same))))

  pub enqueued :
      (p : QueuedPacket) (q : Pie F)
      → Returns (enqueue F p q) (IsEnqueued F p q.base)
      → Returns
          (enqueue F p q)
          (λ q'. IsValid q'.base × Kept q'.base.internal_queue (q.base.internal_queue ++ p ∷ []))
  unfolding accept
  enqueued p q (q', returned, h) = (q', returned, (h.valid, kept h.queued))
    where
      kept :
          (q'.base ≡ q.base) ⊎ ((q'.base ≡ accept p q.base) × (fits p q.base ≡ true))
          → Kept q'.base.internal_queue (q.base.internal_queue ++ p ∷ [])
      kept (inl e) = rw e (Kept-without_last q.base.internal_queue (p ∷ []))
      kept (inr (e, f)) = rw e (Kept-refl (q.base.internal_queue ++ p ∷ []))

  pub dequeued :
      (q : Pie F) (p : QueuedPacket) (ps : List QueuedPacket)
      → IsValid q.base
      → q.base.internal_queue ≡ p ∷ ps
      → Returns (dequeue F q) (λ r. (r.0 ≡ p) × (r.1.base ≡ popped p ps q.base))
      → Returns (dequeue F q) (λ r. (r.0 ≡ p) × IsValid r.1.base × Kept r.1.base.internal_queue ps)
  dequeued q p ps v e (r, returned, h) =
      (r, returned, (h.0, subst IsValid (sym h.1) (popped-IsValid p ps v e), rw h.1 (Kept-refl ps)))

  -- The contract, for PIE with any arithmetic.
  abbrev pub pie_contract : Contract (pie F)
  pie_contract = record {
    IsValid = λ q. IsValid q.base;
    contents = λ q. q.base.internal_queue;
    empty_lem = λ q v. empty_lem q.base;
    size_bytes_lem = λ q v. size_bytes_lem v.counted;
    size_packets_lem = λ q v. size_packets_lem v.counted;
    enqueue_lem = λ p q v room. enqueued p q (enqueue_pie F p q v room);
    dequeue_lem = λ q p ps v e. dequeued q p ps v e (dequeue_pie q p ps v e);
  }
