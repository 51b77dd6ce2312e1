-- ===== src/Link/Enqueue.antt =====
-- link_queue.cc: theorems on `enqueue_packet`, the part of `read_packet` after `rationalize`.
use mpshell_ext.Prelude.{
  ℕ, ◌+◌, ◌-◌, ◌≤◌, ◌<◌, ◌^◌, ◌≡◌, refl, List, [], ◌∷◌, ◌++◌, map, ◌||◌, arith, length,
  length-append, length-Kept, Kept, done, keep, skip, if◌then◌else◌, ltb,
}
use mpshell_ext.Prelude.Result.{ok, Returns}
use mpshell_ext.Packet.{Bytes, QueuedPacket, total, total-append, total-Kept}
use mpshell_ext.Queue.{PacketQueue, Contract, HasRoom}
use mpshell_ext.Link.{LinkQueue, record_drop, enqueue_packet}
use mpshell_ext.Link.Flow.{bytes_of}

abbrev pub packet : ℕ → Bytes → QueuedPacket
packet now contents = record { arrival_time = now; contents = contents }

-- The queue of a link is replaced, and what is missing from it is logged.
abbrev pub with_queue : {Q : Type 0} → Q → LinkQueue Q → LinkQueue Q
with_queue q l = record l { packet_queue = q }

pub bytes_of-Kept : {bs cs : List Bytes} → Kept bs cs → bytes_of bs ≤ bytes_of cs
bytes_of-Kept done = omega arith
bytes_of-Kept (keep b k) = omega (arith, bytes_of-Kept k)
bytes_of-Kept (skip b k) = omega (arith, bytes_of-Kept k)

pub bytes_of-map : (ps : List QueuedPacket) → bytes_of (map (λ p. p.contents) ps) ≡ total ps
bytes_of-map [] = refl
bytes_of-map (p ∷ ps) = omega (arith, bytes_of-map ps)

pub length-map :
    (ps : List QueuedPacket) → length (map (λ (p : QueuedPacket). p.contents) ps) ≡ length ps
length-map [] = refl
length-map (p ∷ ps) = omega (arith, length-map ps)

module _ {pq : PacketQueue} (c : Contract pq) where
  -- A loss of packets or bytes is logged.
  abbrev pub booked : ℕ → ℕ → ℕ → LinkQueue pq.State → LinkQueue pq.State
  booked now packets bytes l =
      if ltb 0 packets || ltb 0 bytes then record_drop now packets bytes l else l

  enqueue_packet-booked :
      (now b n b' n' : ℕ) (contents : Bytes) (l : LinkQueue pq.State) (q : pq.State)
      → pq.size_bytes l.packet_queue ≡ ok b
      → pq.size_packets l.packet_queue ≡ ok n
      → pq.enqueue (packet now contents) l.packet_queue ≡ ok q
      → pq.size_packets q ≡ ok n'
      → pq.size_bytes q ≡ ok b'
      → n' ≤ n + 1
      → b' ≤ b + length contents
      → n + 1 < 2 ^ 31
      → b + length contents < 2 ^ 31
      → enqueue_packet pq now contents l
        ≡ ok (booked now (n + 1 - n') (b + length contents - b') (with_queue q l))
  unfolding enqueue_packet
  enqueue_packet-booked now b n b' n' contents l q e1 e2 e3 e4 e5 h1 h2 h3 h4 = ground arith

  -- The packet is given to the queue, and exactly what is lost, of it and of what was queued, is
  -- logged.
  pub record Enqueued (now : ℕ) (contents : Bytes) (l l' : LinkQueue pq.State) : Type 0 where
    pub queue : pq.State
    pub queue_valid : c.IsValid queue
    pub kept : Kept (c.contents queue) (c.contents l.packet_queue ++ packet now contents ∷ [])
    pub logged :
        l'
        ≡ booked now
            (length (c.contents l.packet_queue) + 1 - length (c.contents queue))
            (total (c.contents l.packet_queue) + length contents - total (c.contents queue))
            (with_queue queue l)

  pub enqueue_packet-Enqueued :
      (now : ℕ) (contents : Bytes) (l : LinkQueue pq.State)
      → c.IsValid l.packet_queue
      → HasRoom (packet now contents) (c.contents l.packet_queue)
      → Returns (enqueue_packet pq now contents l) (Enqueued now contents l)
  enqueue_packet-Enqueued now contents l v room =
      let (q, e, w) = c.enqueue_lem (packet now contents) l.packet_queue v room in
      (
        _,
        enqueue_packet-booked now (total (c.contents l.packet_queue))
            (length (c.contents l.packet_queue)) (total (c.contents q)) (length (c.contents q))
            contents l q (c.size_bytes_lem l.packet_queue v) (c.size_packets_lem l.packet_queue v) e
            (c.size_packets_lem q w.0) (c.size_bytes_lem q w.0)
            (omega (
              arith,
              length-Kept w.1,
              length-append (c.contents l.packet_queue) (packet now contents ∷ []),
            ))
            (omega (
              arith,
              total-Kept w.1,
              total-append (c.contents l.packet_queue) (packet now contents ∷ []),
            ))
            room.in_packets room.in_bytes,
        record { queue = q; queue_valid = w.0; kept = w.1; logged = refl },
      )
