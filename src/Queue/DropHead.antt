-- ===== src/Queue/DropHead.antt =====
-- drop_head_packet_queue.hh: a packet is always put at the back, and then the oldest ones are
-- dropped until the limits are met.
pub mod Laws
use mpshell_ext.Prelude.{ℕ, zero, suc, Bool, true, false, length}
use mpshell_ext.Prelude.Result.{Result, ok, err, out_of_fuel, ◌>>=◌}
use mpshell_ext.Packet.{QueuedPacket}
use mpshell_ext.Queue.{PacketQueue}
use mpshell_ext.Queue.Dropping.{Dropping, good, accept, dequeue}
use mpshell_ext.Queue.Dropping

-- `while ( not good() ) { dequeue(); }`
unfoldable pub drop_until_good : ℕ → Dropping → Result Dropping
drop_until_good zero d = err out_of_fuel
drop_until_good (suc fuel) d = do
  g ← good d
  elim g [ true ↦ ok d | false ↦ do r ← dequeue d; drop_until_good fuel r.1 ]

-- One round for each packet held, and one for the last test.
unfoldable pub enqueue : QueuedPacket → Dropping → Result Dropping
unfolding accept drop_until_good
enqueue p d = drop_until_good (suc (length (accept p d).internal_queue)) (accept p d)

abbrev pub drop_head : PacketQueue
drop_head = record {
  State = Dropping;
  enqueue = enqueue;
  dequeue = Dropping.dequeue;
  empty = Dropping.empty;
  size_bytes = Dropping.size_bytes;
  size_packets = Dropping.size_packets;
  can_accept_one = Dropping.can_accept_one;
}
