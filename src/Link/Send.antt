-- ===== src/Link/Send.antt =====
-- link_queue.cc: lemmas on `send`, by which bytes of the packet in transit go out.
use mathlib.Core.List.{append_assoc}
use mpshell_ext.Prelude.{
  ℕ, ◌+◌, ◌-◌, ◌≤◌, ◌<◌, ◌≡◌, inl, inr, refl, [], ◌∷◌, ◌++◌, map, true, false, arith, ◌==◌,
  Bool-cases,
}
use mpshell_ext.Words.{sub64}
use mpshell_ext.Packet.{size}
use mpshell_ext.Queue.{PacketQueue, Contract}
use mpshell_ext.Link.{LinkQueue, departure, logged, send}
use mpshell_ext.Link.Flow.{
  SameClock, Transit, in_transit, progress, bytes_of-append, IsLoaded, flow,
}

module _ {pq : PacketQueue} (c : Contract pq) where
  -- `l'` is `l` after `amount` bytes are sent.
  pub record Sent (time amount : ℕ) (l l' : LinkQueue pq.State) : Type 0 where
    pub loaded : IsLoaded c time l'
    pub clock : SameClock l l'
    pub order : flow c l' ≡ flow c l
    pub sent : progress l' ≡ progress l + amount

  module _ (time amount : ℕ) (l : LinkQueue pq.State) (v : IsLoaded c time l) (t : Transit time l)
      (some_sent : 0 < amount) (enough : amount ≤ l.packet_in_transit_bytes_left) where
    abbrev part_out : LinkQueue pq.State
    part_out = record l { packet_in_transit_bytes_left = l.packet_in_transit_bytes_left - amount }

    abbrev all_out : LinkQueue pq.State
    all_out = record l {
      packet_in_transit_bytes_left = l.packet_in_transit_bytes_left - amount;
      output_queue = l.output_queue ++ l.packet_in_transit.contents ∷ [];
      log =
          logged
            (departure time (size l.packet_in_transit)
              (sub64 time l.packet_in_transit.arrival_time))
            l.log;
    }

    part_out-Sent :
        (l.packet_in_transit_bytes_left - amount == 0) ≡ false → Sent time amount l part_out
    part_out-Sent h =
        let before : in_transit l ≡ l.packet_in_transit.contents ∷ [] = ground arith in
        let after : in_transit part_out ≡ l.packet_in_transit.contents ∷ [] = ground arith in
        record {
          loaded = record {
            queue_valid = v.queue_valid;
            queued = v.queued;
            transit =
                inr (record { arrived = t.arrived; left = omega (arith, t.left); small = t.small });
          };
          clock = record {
            next_delivery = refl;
            schedule = refl;
            base_timestamp = refl;
            repeats = refl;
            finished = refl;
          };
          order = rw (before, after) refl;
          sent = ground (arith, t.left);
        }

    all_out-Sent :
        (l.packet_in_transit_bytes_left - amount == 0) ≡ true → Sent time amount l all_out
    all_out-Sent h =
        let before : in_transit l ≡ l.packet_in_transit.contents ∷ [] = ground arith in
        let after : in_transit all_out ≡ [] = ground arith in
        record {
          loaded = record {
            queue_valid = v.queue_valid;
            queued = v.queued;
            transit = inl (ground arith);
          };
          clock = record {
            next_delivery = refl;
            schedule = refl;
            base_timestamp = refl;
            repeats = refl;
            finished = refl;
          };
          order =
              rw (before, after)
                (append_assoc l.output_queue (l.packet_in_transit.contents ∷ [])
                  (map (λ p. p.contents) (c.contents l.packet_queue)));
          sent =
              ground
                (arith, t.left, bytes_of-append l.output_queue (l.packet_in_transit.contents ∷ []));
        }

    pub send-Sent : Sent time amount l (send time amount l)
    unfolding send
    send-Sent = elim (Bool-cases (l.packet_in_transit_bytes_left - amount == 0)) [
      | inl h ↦ rw h (all_out-Sent h)
      | inr h ↦ rw h (part_out-Sent h)
    ]
