-- ===== src/Queue/Infinite/Laws.antt =====
-- infinite_packet_queue.hh: theorems on its operations, and the contract.
use mpshell_ext.Prelude.{
  ◌<◌, ◌^◌, ◌≡◌, refl, ap, List, [], ◌∷◌, ◌++◌, arith, Kept, Kept-refl, length, length-append,
  is_nil,
}
use mpshell_ext.Prelude.Result.{ok, Returns}
use mpshell_ext.Packet.{QueuedPacket, total, total-append}
use mpshell_ext.Queue.{Contract, HasRoom}
use mpshell_ext.Queue.Infinite.{
  Infinite, popped, enqueue, dequeue, empty, size_bytes, size_packets, infinite,
}

pub record IsValid (q : Infinite) : Type 0 where
  pub bytes : q.queue_size_in_bytes ≡ total q.internal_queue
  pub packets : q.queue_size_in_packets ≡ length q.internal_queue
  pub bytes_small : total q.internal_queue < 2 ^ 31
  pub packets_small : length q.internal_queue < 2 ^ 31

-- `enqueue` puts the packet at the back, and drops none.
pub enqueue_infinite :
    (p : QueuedPacket) {q : Infinite}
    → IsValid q
    → HasRoom p q.internal_queue
    → Returns (enqueue p q) (λ q'. IsValid q' × (q'.internal_queue ≡ q.internal_queue ++ p ∷ []))
unfolding enqueue
enqueue_infinite p {q} v room = (
  _,
  refl,
  (
    omega (
      arith,
      total-append q.internal_queue (p ∷ []),
      length-append q.internal_queue (p ∷ []),
      v.bytes,
      v.packets,
      room.in_bytes,
      room.in_packets,
    ),
    refl,
  ),
)

-- `dequeue` takes the head, and drops none.
pub dequeue_infinite :
    (p : QueuedPacket) (ps : List QueuedPacket) {q : Infinite}
    → IsValid q
    → q.internal_queue ≡ p ∷ ps
    → Returns (dequeue q) (λ r. (r.0 ≡ p) × IsValid r.1 × (r.1.internal_queue ≡ ps))
unfolding dequeue
dequeue_infinite p ps {q} v e = (
  (p, popped p ps q),
  rw (e, dequeue),
  (refl, omega (arith, ap total e, ap length e, v.bytes, v.packets), refl),
)

pub infinite_empty : (q : Infinite) → empty q ≡ is_nil q.internal_queue
unfolding empty
infinite_empty q = refl

pub infinite_size_bytes : (q : Infinite) → IsValid q → size_bytes q ≡ ok (total q.internal_queue)
unfolding size_bytes
infinite_size_bytes q v = ground arith

pub infinite_size_packets :
    (q : Infinite) → IsValid q → size_packets q ≡ ok (length q.internal_queue)
unfolding size_packets
infinite_size_packets q v = ground arith

pub Kept-of_eq : {qs ps : List QueuedPacket} → qs ≡ ps → Kept qs ps
Kept-of_eq {qs} e = rw (← e) (Kept-refl qs)

-- The contract, for the infinite queue.
abbrev pub infinite_contract : Contract infinite
infinite_contract = record {
  IsValid = IsValid;
  contents = λ q. q.internal_queue;
  empty_lem = λ q v. infinite_empty q;
  size_bytes_lem = infinite_size_bytes;
  size_packets_lem = infinite_size_packets;
  enqueue_lem = λ p q v room.
      let (q', e, rest) = enqueue_infinite p v room in (q', e, (rest.0, Kept-of_eq rest.1));
  dequeue_lem = λ q p ps v e.
      let (r, e', rest) = dequeue_infinite p ps v e in (r, e', (rest.0, rest.1, Kept-of_eq rest.2));
}
