-- ===== src/Queue/DropTail.antt =====
-- drop_tail_packet_queue.hh: a packet that does not fit is dropped.
pub mod Laws
use mpshell_ext.Prelude.Result.{Result}
use mpshell_ext.Packet.{QueuedPacket}
use mpshell_ext.Queue.{PacketQueue}
use mpshell_ext.Queue.Dropping.{Dropping, accept_if_good}
use mpshell_ext.Queue.Dropping

unfoldable pub enqueue : QueuedPacket → Dropping → Result Dropping
enqueue p d = accept_if_good p d

abbrev pub drop_tail : PacketQueue
drop_tail = record {
  State = Dropping;
  enqueue = enqueue;
  dequeue = Dropping.dequeue;
  empty = Dropping.empty;
  size_bytes = Dropping.size_bytes;
  size_packets = Dropping.size_packets;
  can_accept_one = Dropping.can_accept_one;
}
