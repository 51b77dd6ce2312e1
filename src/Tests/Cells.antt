-- ===== src/Tests/Cells.antt =====
-- The cell queue and the PIE queue on a few packets.
use mpshell_ext.Prelude.{ℕ, ◌+◌, ◌≡◌, refl, [], ◌∷◌, arith, inl, inr, ltb, ◌==◌}
use mpshell_ext.Prelude.Result.{ok, err, out_of_fuel, Returns}
use mpshell_ext.Packet.{Bytes, QueuedPacket}
use mpshell_ext.Queue.Dropping.Laws.{IsValid}
use mpshell_ext.Queue.Pie.{Doubles, Pie}
use mpshell_ext.Queue.Pie
use mpshell_ext.Queue.Pie.Enqueue.{IsEnqueued, enqueue_pie}
use mpshell_ext.CellQueue.{CellPacket, CellQueue, deliver, write_loop, write_packets}
use mpshell_ext.CellQueue.Clock.{IsClocked}
use mpshell_ext.CellQueue.Laws.{IsWritten, IsStuck, write_packets-IsWritten, write_loop-stuck}

abbrev cell : ℕ → Bytes → CellPacket
cell n contents = record { bytes_to_transmit = n; contents = contents }

-- A packet of two bytes, and one of which 2000 bytes are to be sent.
abbrev cells : CellQueue
cells = record {
  next_delivery = 0;
  schedule = 2 ∷ 5 ∷ [];
  base_timestamp = 100;
  packet_queue = cell 2 (1 ∷ 2 ∷ []) ∷ cell 2000 (3 ∷ []) ∷ [];
}

cells-IsClocked : IsClocked cells
cells-IsClocked = record {
  in_range = omega arith;
  few = omega arith;
  rising = (omega arith, tt);
  lasting = omega arith;
  no_wrap = omega arith;
  small = (omega arith, (omega arith, tt));
}

write_packets-IsWritten_example : Returns (write_packets 103 cells) (IsWritten 103 cells [])
write_packets-IsWritten_example = write_packets-IsWritten 103 cells cells-IsClocked (omega arith)

-- One delivery sends the first packet and most of the second.
deliver-cells :
    deliver 4 1504 cells.packet_queue [] ≡ ok (cell 498 (3 ∷ []) ∷ [], (1 ∷ 2 ∷ []) ∷ [])
unfolding deliver
deliver-cells = refl

abbrev stuck : CellQueue
stuck = record cells { schedule = 0 ∷ [] }

stuck-IsStuck : IsStuck 103 stuck
stuck-IsStuck = record {
  in_range = omega arith;
  few = omega arith;
  rising = tt;
  no_time = refl;
  started = omega arith;
  in_time = omega arith;
  small = (omega arith, (omega arith, tt));
}

write_loop-stuck_example : write_loop 1000 103 stuck [] ≡ err out_of_fuel
write_loop-stuck_example = write_loop-stuck 1000 103 stuck [] stuck-IsStuck

-- Whole numbers in place of `double`.
abbrev whole : Doubles
whole = record {
  Double = ℕ;
  literal = λ a b. a;
  of_int = λ n. n;
  add = λ a b. a + b;
  multiply = λ a b. a;
  divide = λ a b. a;
  less = ltb;
  equal = λ a b. a == b;
}

abbrev small : QueuedPacket
small = record { arrival_time = 10; contents = 1 ∷ 2 ∷ [] }

-- A packet of two bytes in a queue of at most two packets, and periods to be made up for.
abbrev one_small : Pie whole
one_small = record {
  base = record {
    queue_size_in_bytes = 2;
    queue_size_in_packets = 1;
    internal_queue = small ∷ [];
    packet_limit = 2;
    byte_limit = 0;
  };
  qdelay_ref = 15;
  max_burst = 100;
  drop_prob = 0;
  burst_allowance = 0;
  qdelay_old = 0;
  current_qdelay = 0;
  dq_count = 5;
  dq_tstamp = 0;
  avg_dq_rate = 1;
  last_update = 100;
  clock = λ n. 200 + n;
  draws = λ n. n;
}

one_small-IsValid : IsValid one_small.base
one_small-IsValid = record {
  counted = omega arith;
  byte_limit_met = inl refl;
  packet_limit_met = inr (omega arith);
}

enqueue_pie_example :
    Returns (Pie.enqueue whole small one_small) (IsEnqueued whole small one_small.base)
enqueue_pie_example = enqueue_pie whole small one_small one_small-IsValid (omega arith)
