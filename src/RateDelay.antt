-- ===== src/RateDelay.antt =====
-- rate_delay_queue.hh and .cc: a delay queue followed by a link.
pub mod Move
pub mod Laws
pub mod History
use mpshell_ext.Prelude.{
  ℕ, zero, suc, ◌+◌, Bool, true, false, List, [], ◌∷◌, ◌++◌, ltb, if◌then◌else◌, length, is_nil,
}
use mpshell_ext.Prelude.Result.{Result, ok, err, out_of_fuel, ◌>>=◌}
use mpshell_ext.Prelude.Stream.{Stream, now, later}
use mpshell_ext.Packet.{Bytes}
use mpshell_ext.Queue.{PacketQueue}
use mpshell_ext.Delay
use mpshell_ext.Delay.{DelayQueue}
use mpshell_ext.Link
use mpshell_ext.Link.{LinkQueue}

pub record RateDelayQueue (Q : Type 0) : Type 0 where
  pub delay_queue : DelayQueue
  pub link_queue : LinkQueue Q

unfoldable pub read_packet : {Q : Type 0} → ℕ → Bytes → RateDelayQueue Q → RateDelayQueue Q
read_packet time contents r = record r {
  delay_queue = Delay.read_packet time contents r.delay_queue;
}

abbrev pub sooner : ℕ → ℕ → ℕ
sooner a b = if ltb a b then a else b

module _ (pq : PacketQueue) where
  -- `while ( not next_packet.empty() )`. The clock is read for the delay queue, and for the link.
  unfoldable pub move_packets :
      ℕ → Stream → RateDelayQueue pq.State → Result (RateDelayQueue pq.State)
  move_packets zero clock r = err out_of_fuel
  move_packets (suc fuel) clock r =
      let (next_packet, d) = Delay.get_next (now clock) r.delay_queue in
      elim (is_nil next_packet) [
        | true ↦ ok (record r { delay_queue = d })
        | false ↦ do
          l ← Link.read_packet pq (now (later clock)) next_packet r.link_queue
          move_packets fuel (later (later clock)) (record { delay_queue = d; link_queue = l })
      ]

  unfoldable pub write_packets :
      Stream → RateDelayQueue pq.State → Result (List Bytes × RateDelayQueue pq.State)
  write_packets clock r = do
    r' ← move_packets (suc (length r.delay_queue.packet_queue)) clock r
    let (written, l) = Link.write_packets r'.link_queue
    ok (written, record r' { link_queue = l })

  -- std::min of the two `unsigned int`s, at the two readings of the clock; then an `int`.
  unfoldable pub wait_time : ℕ → ℕ → RateDelayQueue pq.State → Result (ℕ × RateDelayQueue pq.State)
  wait_time time time' r = do
    w ← Link.wait_time pq time' r.link_queue
    let d = Delay.wait_time time r.delay_queue
    ok (sooner w.0 d, record r { link_queue = w.1 })
