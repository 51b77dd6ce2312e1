-- ===== src/Queue.antt =====
-- abstract_packet_queue.hh: what a link asks of its packet queue, as the operations of a class and
-- the contract that the link relies on. The classes are the modules below.
pub mod Dropping
pub mod DropTail
pub mod DropHead
pub mod Infinite
pub mod Codel
pub mod Pie
use mpshell_ext.Prelude.{
  ℕ, suc, ◌+◌, ◌<◌, ◌^◌, ◌≡◌, Bool, List, [], ◌∷◌, ◌++◌, length, is_nil, Kept,
}
use mpshell_ext.Prelude.Result.{Result, ok, Returns}
use mpshell_ext.Packet.{QueuedPacket, size, total}

-- `AbstractPacketQueue`, over the state of a class that derives from it.
pub record PacketQueue : Type 1 where
  pub State : Type 0
  pub enqueue : QueuedPacket → State → Result State
  pub dequeue : State → Result (QueuedPacket × State)
  pub empty : State → Bool
  pub size_bytes : State → Result ℕ
  pub size_packets : State → Result ℕ
  pub can_accept_one : ℕ → State → Result Bool

-- There is room for `p` in the `int` counters of a queue that holds `ps`.
pub record HasRoom (p : QueuedPacket) (ps : List QueuedPacket) : Type 0 where
  pub in_bytes : total ps + size p < 2 ^ 31
  pub in_packets : length ps + 1 < 2 ^ 31

-- The contract: a queue holds a list of packets, oldest first. `enqueue` adds at the back and
-- `dequeue` takes the head; each may drop others; no assertion fails.
pub record Contract (pq : PacketQueue) : Type 1 where
  pub IsValid : pq.State → Type 0
  pub contents : pq.State → List QueuedPacket
  pub empty_lem : (q : pq.State) → IsValid q → pq.empty q ≡ is_nil (contents q)
  pub size_bytes_lem : (q : pq.State) → IsValid q → pq.size_bytes q ≡ ok (total (contents q))
  pub size_packets_lem : (q : pq.State) → IsValid q → pq.size_packets q ≡ ok (length (contents q))
  pub enqueue_lem :
      (p : QueuedPacket) (q : pq.State)
      → IsValid q
      → HasRoom p (contents q)
      → Returns (pq.enqueue p q) (λ q'. IsValid q' × Kept (contents q') (contents q ++ p ∷ []))
  pub dequeue_lem :
      (q : pq.State) (p : QueuedPacket) (ps : List QueuedPacket)
      → IsValid q
      → contents q ≡ p ∷ ps
      → Returns (pq.dequeue q) (λ r. (r.0 ≡ p) × IsValid r.1 × Kept (contents r.1) ps)
