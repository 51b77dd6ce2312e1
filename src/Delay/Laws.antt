-- ===== src/Delay/Laws.antt =====
-- delay_queue.cc: theorems on the release of packets.
use mpshell_ext.Prelude.{
  ℕ, ◌+◌, ◌≤◌, ◌<◌, ◌^◌, ◌≡◌, ◌⊎◌, inl, inr, refl, List, [], ◌∷◌, map, arith, leb, leb→le,
  Bool-cases, List-cases, if◌then◌else◌,
}
use mpshell_ext.Prelude.Stream.{Stream, now, later}
use mpshell_ext.Packet.{Bytes}
use mpshell_ext.Delay.{Delayed, DelayQueue, read_packet, release_ready, write_packets, get_next}

abbrev pub contents_of : List Delayed → List Bytes
contents_of ps = map (λ p. p.contents) ps

-- The packets `ps` are taken one a reading of the clock, each at its release time or later, and
-- `rest` is left, whose head is not due at the next reading.
abbrev pub Released : Stream → List Delayed → List Bytes → List Delayed → Type 0
Released clock [] written rest = (written ≡ []) × (rest ≡ [])
Released clock (p ∷ ps) [] rest = (rest ≡ p ∷ ps) × (now clock < p.release)
Released clock (p ∷ ps) (w ∷ written) rest =
    (w ≡ p.contents) × (p.release ≤ now clock) × Released (later clock) ps written rest

release_ready-Released :
    (clock : Stream) (ps : List Delayed)
    → Released clock ps (release_ready clock ps).0 (release_ready clock ps).1
unfolding release_ready
release_ready-Released clock [] = (refl, refl)
release_ready-Released clock (p ∷ ps) = elim (Bool-cases (leb p.release (now clock))) [
  | inl e ↦ rw e (refl, leb→le p.release (now clock) e, release_ready-Released (later clock) ps)
  | inr e ↦ rw e (refl, ground arith)
]

-- `write_packets` writes the longest prefix of packets whose release times have come.
pub write_packets-Released :
    (clock : Stream) (d : DelayQueue)
    → Released clock d.packet_queue (write_packets clock d).0 (write_packets clock d).1.packet_queue
unfolding write_packets
write_packets-Released clock d = release_ready-Released clock d.packet_queue

-- A packet that arrives at `time` in an empty queue is not released before `time + delay_ms`, and
-- is from then on.
pub get_next-read_packet :
    (time later_time : ℕ) (contents : Bytes) (d : DelayQueue)
    → d.packet_queue ≡ []
    → time + d.delay_ms < 2 ^ 64
    → get_next later_time (read_packet time contents d) ≡ (
        if leb (time + d.delay_ms) later_time
        then (contents, d)
        else ([], read_packet time contents d))
unfolding get_next read_packet
get_next-read_packet time later_time contents d e h = ground arith

-- Whether `get_next` finds a packet or not, what it gives and what it leaves are what there was.
pub get_next-cases :
    (time : ℕ) (d : DelayQueue)
    → ((get_next time d ≡ ([], d)))
      ⊎ ((p : Delayed) × (ps : List Delayed) × (d.packet_queue ≡ p ∷ ps)
          × (p.release ≤ time)
          × (get_next time d ≡ (p.contents, record d { packet_queue = ps })))
unfolding get_next
get_next-cases time d = elim (List-cases d.packet_queue) [
  | inl e ↦ inl (ground arith)
  | inr (p, ps, e) ↦ elim (Bool-cases (leb p.release time)) [
    | inl t ↦ inr (p, ps, e, leb→le p.release time t, ground arith)
    | inr t ↦ inl (ground arith)
  ]
]
