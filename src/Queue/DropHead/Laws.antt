-- ===== src/Queue/DropHead/Laws.antt =====
-- drop_head_packet_queue.hh: theorems on `enqueue`, and the contract.
use mpshell_ext.Prelude.{
  ◌≡◌, refl, ap, List, [], ◌∷◌, ◌++◌, arith, if◌then◌else◌, Kept, Kept-refl, Bool-cases, inl, inr,
  length, true, length-append, skip,
}
use mpshell_ext.Prelude.Result.{ok, err, assertion_failed, Returns}
use mpshell_ext.Packet.{QueuedPacket, total, total-append}
use mpshell_ext.Queue.{Contract, HasRoom}
use mpshell_ext.Queue.Dropping.{Dropping, accept, popped, good, good_with, dequeue}
use mpshell_ext.Queue.Dropping.Laws.{
  IsValid, IsCounted, accept-IsValid, empty_lem, dequeue_dropping, popped-IsValid, dequeue_counted,
  fits, size_bytes_lem, size_packets_lem, popped-IsCounted, good_lem, accept-IsCounted,
  good_with_of_Within, Within-of_good_with,
}
use mpshell_ext.Queue.DropHead.{enqueue, drop_head}

good-accept :
    (p : QueuedPacket) {d : Dropping}
    → IsCounted d
    → HasRoom p d.internal_queue
    → good (accept p d) ≡ ok (fits p d)
unfolding accept good_with
good-accept p {d} v room = ground (
  arith,
  good_lem (accept-IsCounted p v room.in_bytes room.in_packets),
  total-append d.internal_queue (p ∷ []),
  length-append d.internal_queue (p ∷ []),
)

module _ (p head : QueuedPacket) (rest : List QueuedPacket) {d : Dropping} (v : IsCounted d)
    (room : HasRoom p d.internal_queue) (e : d.internal_queue ++ p ∷ [] ≡ head ∷ rest) where
  accept-IsCounted' : IsCounted (accept p d)
  accept-IsCounted' = accept-IsCounted p v room.in_bytes room.in_packets

  queue-accept : (accept p d).internal_queue ≡ head ∷ rest
  unfolding accept
  queue-accept = e

  dequeue-accept : dequeue (accept p d) ≡ (
      if good_with d (total rest) (length rest)
      then ok (head, popped head rest (accept p d))
      else err assertion_failed)
  unfolding accept good_with
  dequeue-accept = dequeue_counted head rest accept-IsCounted' queue-accept

  good-popped : good (popped head rest (accept p d)) ≡ ok (good_with d (total rest) (length rest))
  unfolding accept good_with
  good-popped = good_lem (popped-IsCounted head rest accept-IsCounted' queue-accept)

  -- `enqueue` on each branch: the packet fits; it fits when the head is dropped; or it does not,
  -- and the assertion of `dequeue` fails where the loop had more to drop.
  pub enqueue_drop_head : enqueue p d ≡ (
      if fits p d
      then ok (accept p d)
      else if good_with d (total rest) (length rest)
      then ok (popped head rest (accept p d))
      else err assertion_failed)
  unfolding enqueue
  enqueue_drop_head =
      ground (arith, good-accept p v room, ap length queue-accept, dequeue-accept, good-popped)

-- A queue that is limited by packets alone: there `enqueue` drops one packet at most.
pub record IsPacketLimited (d : Dropping) : Type 0 where
  pub valid : IsValid d
  pub no_byte_limit : d.byte_limit ≡ 0

abbrev pub after : QueuedPacket → QueuedPacket → List QueuedPacket → Dropping → Dropping
after p head rest d = if fits p d then accept p d else popped head rest (accept p d)

module _ (p head : QueuedPacket) (rest : List QueuedPacket) {d : Dropping} (v : IsPacketLimited d)
    (room : HasRoom p d.internal_queue) (e : d.internal_queue ++ p ∷ [] ≡ head ∷ rest) where
  rest-fits : good_with d (total rest) (length rest) ≡ true
  rest-fits = good_with_of_Within d (total rest) (length rest) (inl v.no_byte_limit) (
      omega (arith, ap length e, length-append d.internal_queue (p ∷ []), v.valid.packet_limit_met))

  -- Limited by packets alone, `enqueue` keeps the new packet and drops at most the oldest one, and
  -- only when the queue is full.
  pub enqueue_packet_limited : enqueue p d ≡ ok (after p head rest d)
  enqueue_packet_limited =
      ground (arith, enqueue_drop_head p head rest v.valid.counted room e, rest-fits)

  after-IsPacketLimited : IsPacketLimited (after p head rest d)
  after-IsPacketLimited = elim (Bool-cases (fits p d)) [
    | inl fit ↦ rw fit (record {
      valid = accept-IsValid p v.valid room.in_bytes room.in_packets fit;
      no_byte_limit = unfold accept in v.no_byte_limit;
    })
    | inr full ↦ rw full (record {
      valid = record {
        counted =
            popped-IsCounted head rest (accept-IsCounted' p head rest v.valid.counted room e)
              (queue-accept p head rest v.valid.counted room e);
        byte_limit_met = inl (unfold accept in v.no_byte_limit);
        packet_limit_met =
            unfold accept in (Within-of_good_with d (total rest) (length rest) rest-fits).1;
      };
      no_byte_limit = unfold accept in v.no_byte_limit;
    })
  ]

  after-Kept : Kept (after p head rest d).internal_queue (d.internal_queue ++ p ∷ [])
  unfolding accept
  after-Kept = elim (Bool-cases (fits p d)) [
    | inl fit ↦ rw fit (Kept-refl (d.internal_queue ++ p ∷ []))
    | inr full ↦ rw (full, e) (skip head (Kept-refl rest))
  ]

pub enqueue-Returns :
    (p : QueuedPacket) (d : Dropping)
    → IsPacketLimited d
    → HasRoom p d.internal_queue
    → Returns
        (enqueue p d)
        (λ d'. IsPacketLimited d' × Kept d'.internal_queue (d.internal_queue ++ p ∷ []))
enqueue-Returns p d v room =
    let (head, rest, e) = nonempty d.internal_queue in
    (
      after p head rest d,
      enqueue_packet_limited p head rest v room e,
      (after-IsPacketLimited p head rest v room e, after-Kept p head rest v room e),
    )
  where
    nonempty :
        (qs : List QueuedPacket)
        → (head : QueuedPacket) × (rest : List QueuedPacket) × (qs ++ p ∷ [] ≡ head ∷ rest)
    nonempty [] = (p, [], refl)
    nonempty (q ∷ qs) = (q, qs ++ p ∷ [], refl)

pub dequeue-Returns :
    (d : Dropping) (p : QueuedPacket) (ps : List QueuedPacket)
    → IsPacketLimited d
    → d.internal_queue ≡ p ∷ ps
    → Returns (dequeue d) (λ r. (r.0 ≡ p) × IsPacketLimited r.1 × Kept r.1.internal_queue ps)
dequeue-Returns d p ps v e = (
  (p, popped p ps d),
  dequeue_dropping p ps v.valid e,
  (
    refl,
    record { valid = popped-IsValid p ps v.valid e; no_byte_limit = v.no_byte_limit },
    Kept-refl ps,
  ),
)

-- The contract, for the drop-head queue with a packet limit alone.
abbrev pub drop_head_contract : Contract drop_head
drop_head_contract = record {
  IsValid = IsPacketLimited;
  contents = λ d. d.internal_queue;
  empty_lem = λ d v. empty_lem d;
  size_bytes_lem = λ d v. size_bytes_lem v.valid.counted;
  size_packets_lem = λ d v. size_packets_lem v.valid.counted;
  enqueue_lem = enqueue-Returns;
  dequeue_lem = dequeue-Returns;
}
