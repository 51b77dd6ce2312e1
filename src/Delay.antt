-- ===== src/Delay.antt =====
-- delay_queue.hh and .cc: packets that wait for a fixed time.
pub mod Laws
use mpshell_ext.Prelude.{ℕ, ◌+◌, ◌-◌, List, [], ◌∷◌, ◌++◌, leb, if◌then◌else◌}
use mpshell_ext.Prelude.Stream.{Stream, now, later}
use mpshell_ext.Words.{u32, u64}
use mpshell_ext.Packet.{Bytes}

-- A release time and the contents.
pub record Delayed : Type 0 where
  pub release : ℕ
  pub contents : Bytes

pub record DelayQueue : Type 0 where
  pub delay_ms : ℕ
  pub packet_queue : List Delayed

-- At the time `time`.
unfoldable pub read_packet : ℕ → Bytes → DelayQueue → DelayQueue
read_packet time contents d = record d {
  packet_queue =
      d.packet_queue ++ record { release = u64 (time + d.delay_ms); contents = contents } ∷ [];
}

-- The clock is read for each packet that is looked at.
unfoldable pub release_ready : Stream → List Delayed → List Bytes × List Delayed
release_ready clock [] = ([], [])
release_ready clock (p ∷ ps) =
    let (written, rest) = release_ready (later clock) ps in
    if leb p.release (now clock) then (p.contents ∷ written, rest) else ([], p ∷ ps)

unfoldable pub write_packets : Stream → DelayQueue → List Bytes × DelayQueue
unfolding release_ready
write_packets clock d =
    let (written, rest) = release_ready clock d.packet_queue in
    (written, record d { packet_queue = rest })

-- The empty string stands for "no packet yet".
unfoldable pub get_next : ℕ → DelayQueue → Bytes × DelayQueue
get_next time d = elim d.packet_queue [
  | [] ↦ ([], d)
  | p ∷ ps ↦ if leb p.release time then (p.contents, record d { packet_queue = ps }) else ([], d)
]

unfoldable pub wait_time : ℕ → DelayQueue → ℕ
wait_time time d = elim d.packet_queue [
  | [] ↦ 65535
  | p ∷ ps ↦ if leb p.release time then 0 else u32 (p.release - time)
]
