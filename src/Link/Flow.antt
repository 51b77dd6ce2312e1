-- ===== src/Link/Flow.antt =====
-- What a link holds, from its output back to its queue: the packets in order, and the bytes that
-- are sent. The invariant says that all of it may be sent at a given time.
use mpshell_ext.Prelude.{
  ℕ, ◌+◌, ◌-◌, ◌≤◌, ◌<◌, ◌≡◌, ◌⊎◌, refl, ◌∙◌, List, [], ◌∷◌, ◌++◌, map, arith, length, All,
  if◌then◌else◌, ◌==◌,
}
use mpshell_ext.Packet.{Bytes, QueuedPacket, size}
use mpshell_ext.Queue.{PacketQueue, Contract}
use mpshell_ext.Link.{LinkQueue, packet_size}

-- A packet that may be sent at the time `time`.
pub record Sendable (time : ℕ) (p : QueuedPacket) : Type 0 where
  pub arrived : p.arrival_time ≤ time
  pub not_empty : 0 < size p
  pub small : size p ≤ packet_size

abbrev pub bytes_of : List Bytes → ℕ
bytes_of [] = 0
bytes_of (b ∷ bs) = length b + bytes_of bs

pub bytes_of-append : (bs cs : List Bytes) → bytes_of (bs ++ cs) ≡ bytes_of bs + bytes_of cs
bytes_of-append [] cs = omega arith
bytes_of-append (b ∷ bs) cs = omega (arith, bytes_of-append bs cs)

module _ {Q : Type 0} where
  -- The fields that say when the next delivery is.
  pub record SameClock (l l' : LinkQueue Q) : Type 0 where
    pub next_delivery : l'.next_delivery ≡ l.next_delivery
    pub schedule : l'.schedule ≡ l.schedule
    pub base_timestamp : l'.base_timestamp ≡ l.base_timestamp
    pub repeats : l'.repeats ≡ l.repeats
    pub finished : l'.finished ≡ l.finished

  pub SameClock-refl : (l : LinkQueue Q) → SameClock l l
  SameClock-refl l = record {
    next_delivery = refl;
    schedule = refl;
    base_timestamp = refl;
    repeats = refl;
    finished = refl;
  }

  pub SameClock-trans : {l m n : LinkQueue Q} → SameClock l m → SameClock m n → SameClock l n
  SameClock-trans h k = record {
    next_delivery = k.next_delivery ∙ h.next_delivery;
    schedule = k.schedule ∙ h.schedule;
    base_timestamp = k.base_timestamp ∙ h.base_timestamp;
    repeats = k.repeats ∙ h.repeats;
    finished = k.finished ∙ h.finished;
  }

  -- What is left of the packet in transit may be sent.
  pub record Transit (time : ℕ) (l : LinkQueue Q) : Type 0 where
    pub arrived : l.packet_in_transit.arrival_time ≤ time
    pub left : l.packet_in_transit_bytes_left ≤ size l.packet_in_transit
    pub small : size l.packet_in_transit ≤ packet_size

  -- The packet in transit, if there is one, and how much of it is sent.
  abbrev pub in_transit : LinkQueue Q → List Bytes
  in_transit l =
      if l.packet_in_transit_bytes_left == 0 then [] else l.packet_in_transit.contents ∷ []

  abbrev pub part_sent : LinkQueue Q → ℕ
  part_sent l =
      if l.packet_in_transit_bytes_left == 0
      then 0
      else size l.packet_in_transit - l.packet_in_transit_bytes_left

  -- The bytes that are sent and not yet written out.
  abbrev pub progress : LinkQueue Q → ℕ
  progress l = bytes_of l.output_queue + part_sent l

module _ {pq : PacketQueue} (c : Contract pq) where
  -- The queue is valid, and what it holds and the packet in transit may be sent at `time`.
  pub record IsLoaded (time : ℕ) (l : LinkQueue pq.State) : Type 0 where
    pub queue_valid : c.IsValid l.packet_queue
    pub queued : All (Sendable time) (c.contents l.packet_queue)
    pub transit : (l.packet_in_transit_bytes_left ≡ 0) ⊎ Transit time l

  -- The packets from the output back to the queue, in order.
  abbrev pub flow : LinkQueue pq.State → List Bytes
  flow l = l.output_queue ++ (in_transit l ++ map (λ p. p.contents) (c.contents l.packet_queue))

  abbrev pub IsIdle : LinkQueue pq.State → Type 0
  IsIdle l = (l.packet_in_transit_bytes_left ≡ 0) × (c.contents l.packet_queue ≡ [])
