-- ===== src/Tests/Queues.antt =====
-- The packet queues on a few packets.
use mpshell_ext.Prelude.{ℕ, ◌+◌, ◌≡◌, refl, false, [], ◌∷◌, none, arith, inl, inr}
use mpshell_ext.Prelude.Result.{ok, err, assertion_failed, runtime_error, Returns}
use mpshell_ext.Packet.{QueuedPacket, Bytes}
use mpshell_ext.Queue.{HasRoom}
use mpshell_ext.Queue.Dropping.{Dropping, Args, accept, popped, good_with}
use mpshell_ext.Queue.Dropping
use mpshell_ext.Queue.Dropping.Laws.{IsValid, IsCounted}
use mpshell_ext.Queue.DropTail
use mpshell_ext.Queue.DropHead
use mpshell_ext.Queue.DropHead.Laws.{IsPacketLimited, after}
use mpshell_ext.Queue.Codel
use mpshell_ext.Queue.Codel.{Codel}
use mpshell_ext.Queue.Codel.Dodequeue.{queue}
use mpshell_ext.Queue.Codel.Loop.{Suffix}

abbrev packet : ℕ → Bytes → QueuedPacket
packet time contents = record { arrival_time = time; contents = contents }

abbrev small : QueuedPacket
small = packet 10 (1 ∷ 2 ∷ [])

abbrev large : QueuedPacket
large = packet 20 (1 ∷ 2 ∷ 3 ∷ 4 ∷ 5 ∷ [])

-- Two small packets in a queue of at most `packets` packets and `bytes` bytes.
abbrev two_small : ℕ → ℕ → Dropping
two_small packets bytes = record {
  queue_size_in_bytes = 4;
  queue_size_in_packets = 2;
  internal_queue = small ∷ small ∷ [];
  packet_limit = packets;
  byte_limit = bytes;
}

two_small-IsCounted : (packets bytes : ℕ) → IsCounted (two_small packets bytes)
two_small-IsCounted packets bytes = omega arith

room : HasRoom large (small ∷ small ∷ [])
room = omega arith

full-IsValid : IsValid (two_small 2 0)
full-IsValid = record {
  counted = two_small-IsCounted 2 0;
  byte_limit_met = inl refl;
  packet_limit_met = inr (omega arith);
}

full-IsPacketLimited : IsPacketLimited (two_small 2 0)
full-IsPacketLimited = record { valid = full-IsValid; no_byte_limit = refl }

init_without_limit : Dropping.init (record { packets = none; bytes = none }) ≡ err runtime_error
unfolding Dropping.init
init_without_limit = refl

-- The queue is full, so the packet is dropped.
enqueue_drop_tail_example :
    Returns
      (DropTail.enqueue large (two_small 2 0))
      (λ d'. IsValid d' × DropTail.Laws.IsTailed large full-IsValid room d')
enqueue_drop_tail_example = DropTail.Laws.enqueue_drop_tail large full-IsValid room

-- A packet of five bytes where two small ones fill the limit of four: the assertion fails.
enqueue_drop_head_example : DropHead.enqueue large (two_small 0 4) ≡ err assertion_failed
unfolding good_with
enqueue_drop_head_example =
    DropHead.Laws.enqueue_drop_head large small (small ∷ large ∷ []) (two_small-IsCounted 0 4) room
      refl

enqueue_packet_limited_example :
    DropHead.enqueue large (two_small 2 0)
    ≡ ok (after large small (small ∷ large ∷ []) (two_small 2 0))
enqueue_packet_limited_example =
    DropHead.Laws.enqueue_packet_limited large small (small ∷ large ∷ []) full-IsPacketLimited room
      refl

-- What `control_law` adds, for a test.
abbrev delta : ℕ → ℕ → ℕ
delta interval count = interval

abbrev waiting : Codel
waiting = record {
  base = two_small 2 0;
  target = 5;
  interval = 100;
  first_above_time = 0;
  drop_next = 0;
  count = 0;
  lastcount = 0;
  dropping = false;
  clock = λ n. 12 + n;
}

dequeue_codel_example :
    Returns
      (Codel.dequeue delta waiting)
      (λ r. (r.0 ≡ small) × IsValid r.1.base × Suffix (queue r.1) (small ∷ []))
dequeue_codel_example = Codel.Laws.dequeue_codel delta waiting small (small ∷ []) full-IsValid refl

dequeue_below_target_example :
    Returns
      (Codel.dequeue delta waiting)
      (λ r. (r.0 ≡ small) × (queue r.1 ≡ small ∷ []) × (r.1.dropping ≡ false))
dequeue_below_target_example =
    Codel.Laws.dequeue_below_target delta waiting small (small ∷ []) full-IsValid refl (omega arith)
