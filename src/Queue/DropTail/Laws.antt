-- ===== src/Queue/DropTail/Laws.antt =====
-- drop_tail_packet_queue.hh: theorems on `enqueue`, and the contract.
use mpshell_ext.Prelude.{
  ◌≡◌, refl, ◌⊎◌, inl, inr, ◌+◌, false, length, arith, Bool-cases, List, [], ◌∷◌, ◌++◌,
  if◌then◌else◌, Kept, Kept-refl,
}
use mpshell_ext.Prelude.Result.{Returns}
use mpshell_ext.Packet.{QueuedPacket, size, total}
use mpshell_ext.Queue.{PacketQueue, Contract, HasRoom}
use mpshell_ext.Queue.Dropping.{Dropping, accept, popped, empty, good_with, within}
use mpshell_ext.Queue.Dropping.Laws.{
  IsValid, fits, empty_lem, size_bytes_lem, size_packets_lem, dequeue_dropping, popped-IsValid,
  accept_if_good_lem, accept_if_good-Returns, accept_if_good-IsValid, Within, good_with_of_Within,
  Within-of_good_with,
}
use mpshell_ext.Queue.DropTail.{enqueue, drop_tail}

module _ (p : QueuedPacket) {d : Dropping} (v : IsValid d) (room : HasRoom p d.internal_queue) where
  -- The packet would meet both limits, of which 0 is none.
  abbrev pub Fits : Type 0
  Fits =
      Within d.byte_limit (total d.internal_queue + size p)
      × Within d.packet_limit (length d.internal_queue + 1)

  -- What `d'` is after the packet has come: the packet stands behind the others if it fits, and
  -- nothing has changed if it does not.
  abbrev pub IsTailed : Dropping → Type 0
  IsTailed d' =
      (Fits
        × (d'.internal_queue ≡ d.internal_queue ++ p ∷ [])
        × (d'.byte_limit ≡ d.byte_limit)
        × (d'.packet_limit ≡ d.packet_limit))
      ⊎ (¬ Fits × (d' ≡ d))

  does_not_fit : fits p d ≡ false → ¬ Fits
  does_not_fit e f =
      let g =
        good_with_of_Within d (total d.internal_queue + size p) (length d.internal_queue + 1) f.0
          f.1 in
      absurd (ground (arith, e, g))

  -- Of a queue that is within its limits and whose counters have room, enqueue returns a queue that
  -- is within its limits too: with the packet behind the others if it meets the limits, and as it was
  -- if not. No assertion fails.
  pub enqueue_drop_tail : Returns (enqueue p d) (λ d'. IsValid d' × IsTailed d')
  unfolding enqueue accept
  enqueue_drop_tail = (
    (if fits p d then accept p d else d),
    accept_if_good_lem p v room.in_bytes room.in_packets,
    (
      accept_if_good-IsValid p v room.in_bytes room.in_packets,
      elim (Bool-cases (fits p d)) [
        | inl e ↦ rw e (
            inl (
              Within-of_good_with d (total d.internal_queue + size p) (length d.internal_queue + 1)
                  e,
              refl,
              refl,
              refl,
            ))
        | inr e ↦ rw e (inr (λ f. does_not_fit e f, refl))
      ],
    ),
  )

  pub enqueue-Returns :
      Returns (enqueue p d) (λ d'. IsValid d' × Kept d'.internal_queue (d.internal_queue ++ p ∷ []))
  unfolding enqueue
  enqueue-Returns = accept_if_good-Returns p v room.in_bytes room.in_packets

-- Of a queue that meets its limits, `dequeue` takes the head alone.
pub dequeue-Returns :
    (d : Dropping) (p : QueuedPacket) (ps : List QueuedPacket)
    → IsValid d
    → d.internal_queue ≡ p ∷ ps
    → Returns
        (mpshell_ext.Queue.Dropping.dequeue d)
        (λ r. (r.0 ≡ p) × IsValid r.1 × Kept r.1.internal_queue ps)
dequeue-Returns d p ps v e =
    ((p, popped p ps d), dequeue_dropping p ps v e, (refl, popped-IsValid p ps v e, Kept-refl ps))

-- The contract, for the drop-tail queue.
abbrev pub drop_tail_contract : Contract drop_tail
drop_tail_contract = record {
  IsValid = IsValid;
  contents = λ d. d.internal_queue;
  empty_lem = λ d v. empty_lem d;
  size_bytes_lem = λ d v. size_bytes_lem v.counted;
  size_packets_lem = λ d v. size_packets_lem v.counted;
  enqueue_lem = λ p d v room. enqueue-Returns p v room;
  dequeue_lem = dequeue-Returns;
}
