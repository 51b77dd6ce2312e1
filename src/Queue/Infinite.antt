-- ===== src/Queue/Infinite.antt =====
-- infinite_packet_queue.hh: a queue with no limit.
pub mod Laws
use mpshell_ext.Prelude.{ℕ, ◌+◌, Bool, true, List, [], ◌∷◌, ◌++◌, leb, is_nil}
use mpshell_ext.Prelude.Result.{
  Result, ok, err, assertion_failed, runtime_error, ◌>>=◌, ◌>>◌, assert, require,
}
use mpshell_ext.Words.{u32, sub32, nonnegative}
use mpshell_ext.Packet.{QueuedPacket, size}
use mpshell_ext.Queue.{PacketQueue}

pub record Infinite : Type 0 where
  pub internal_queue : List QueuedPacket
  pub queue_size_in_bytes : ℕ
  pub queue_size_in_packets : ℕ

-- The number of arguments, `type` included, may be 1 at most.
unfoldable pub init : ℕ → Result Infinite
init args_size = do
  require (leb args_size 1) runtime_error
  ok (record { internal_queue = []; queue_size_in_bytes = 0; queue_size_in_packets = 0 })

unfoldable pub enqueue : QueuedPacket → Infinite → Result Infinite
enqueue p q = ok (record {
  internal_queue = q.internal_queue ++ p ∷ [];
  queue_size_in_bytes = u32 (q.queue_size_in_bytes + size p);
  queue_size_in_packets = u32 (q.queue_size_in_packets + 1);
})

abbrev popped : QueuedPacket → List QueuedPacket → Infinite → Infinite
popped p rest q = record {
  internal_queue = rest;
  queue_size_in_bytes = sub32 q.queue_size_in_bytes (size p);
  queue_size_in_packets = sub32 q.queue_size_in_packets 1;
}

unfoldable pub dequeue : Infinite → Result (QueuedPacket × Infinite)
dequeue q = elim q.internal_queue [ [] ↦ err assertion_failed | p ∷ rest ↦ ok (p, popped p rest q) ]

unfoldable pub empty : Infinite → Bool
empty q = is_nil q.internal_queue

unfoldable pub size_bytes : Infinite → Result ℕ
size_bytes q = do assert (nonnegative q.queue_size_in_bytes); ok q.queue_size_in_bytes

unfoldable pub size_packets : Infinite → Result ℕ
size_packets q = do assert (nonnegative q.queue_size_in_packets); ok q.queue_size_in_packets

unfoldable pub can_accept_one : ℕ → Infinite → Result Bool
can_accept_one pkt_size q = ok true

abbrev pub infinite : PacketQueue
infinite = record {
  State = Infinite;
  enqueue = enqueue;
  dequeue = dequeue;
  empty = empty;
  size_bytes = size_bytes;
  size_packets = size_packets;
  can_accept_one = can_accept_one;
}
