-- ===== src/Link/Arrival.antt =====
-- link_queue.cc: theorems on `read_packet` and `wait_time`.
use mathlib.Core.List.{append_assoc, map-append}
use mpshell_ext.Prelude.{
  ℕ, ◌+◌, ◌-◌, ◌≤◌, ◌<◌, ◌^◌, ◌≡◌, inl, inr, refl, sym, subst, ◌∙◌, List, [], ◌∷◌, ◌++◌, map,
  Option, ◌||◌, arith, length, length-append, length-Kept, All, All-Kept, All-append, Kept,
  Kept-trans, Kept-map, Kept-prepend, Kept-append, le→leb, Bool-cases, ltb,
}
use mpshell_ext.Prelude.Result.{err, runtime_error, Returns}
use mpshell_ext.Words.{u32}
use mpshell_ext.Packet.{Bytes, QueuedPacket, total}
use mpshell_ext.Queue.{PacketQueue, Contract, HasRoom}
use mpshell_ext.Link.{
  LinkQueue, LogLine, arrival, logged, packet_size, record_arrival, record_drop, enqueue_packet,
  read_packet, wait_time,
}
use mpshell_ext.Link.Trace.{back}
use mpshell_ext.Link.Clock.{due, next_delivery_time_lem}
use mpshell_ext.Link.Flow.{Sendable, in_transit, bytes_of, bytes_of-append, flow}
use mpshell_ext.Link.Rationalize.{IsValid, rationalize-Served}
use mpshell_ext.Link.Enqueue.{
  packet, with_queue, bytes_of-Kept, bytes_of-map, length-map, booked, enqueue_packet-Enqueued,
}

module _ {pq : PacketQueue} (c : Contract pq) where
  -- There is room for one more packet, even if all that the link holds were in its queue.
  pub record LinkHasRoom (contents : Bytes) (l : LinkQueue pq.State) : Type 0 where
    pub in_bytes : bytes_of (flow c l) + length contents < 2 ^ 31
    pub in_packets : length (flow c l) + 1 < 2 ^ 31

  HasRoom-of_LinkHasRoom :
      (now : ℕ) (contents : Bytes) (l l' : LinkQueue pq.State)
      → Kept (flow c l') (flow c l)
      → LinkHasRoom contents l
      → HasRoom (packet now contents) (c.contents l'.packet_queue)
  HasRoom-of_LinkHasRoom now contents l l' k room =
      let queued = map (λ (p : QueuedPacket). p.contents) (c.contents l'.packet_queue) in
      record {
        in_bytes = omega (
          arith,
          bytes_of-Kept k,
          bytes_of-append l'.output_queue (in_transit l' ++ queued),
          bytes_of-append (in_transit l') queued,
          bytes_of-map (c.contents l'.packet_queue),
          room.in_bytes,
        );
        in_packets = omega (
          arith,
          length-Kept k,
          length-append l'.output_queue (in_transit l' ++ queued),
          length-append (in_transit l') queued,
          length-map (c.contents l'.packet_queue),
          room.in_packets,
        );
      }

  IsValid-log :
      (l : LinkQueue pq.State) (log : Option (List LogLine))
      → IsValid c l
      → IsValid c (record l { log = log })
  IsValid-log l log v = record {
    clocked = record {
      in_range = v.clocked.in_range;
      few = v.clocked.few;
      rising = v.clocked.rising;
      lasting = v.clocked.lasting;
      no_wrap = v.clocked.no_wrap;
    };
    loaded = record {
      queue_valid = v.loaded.queue_valid;
      queued = v.loaded.queued;
      transit = elim v.loaded.transit [
        | inl e ↦ inl e
        | inr t ↦ inr (record { arrived = t.arrived; left = t.left; small = t.small })
      ];
    };
  }

  IsValid-with_queue :
      (q : pq.State) (l : LinkQueue pq.State)
      → IsValid c l
      → c.IsValid q
      → All (Sendable (due l)) (c.contents q)
      → IsValid c (with_queue q l)
  IsValid-with_queue q l v w a = record {
    clocked = record {
      in_range = v.clocked.in_range;
      few = v.clocked.few;
      rising = v.clocked.rising;
      lasting = v.clocked.lasting;
      no_wrap = v.clocked.no_wrap;
    };
    loaded = record {
      queue_valid = w;
      queued = a;
      transit = elim v.loaded.transit [
        | inl e ↦ inl e
        | inr t ↦ inr (record { arrived = t.arrived; left = t.left; small = t.small })
      ];
    };
  }

  -- A packet that comes before the next delivery waits in the queue, or is dropped.
  pub record Arrived (now : ℕ) (contents : Bytes) (l l' : LinkQueue pq.State) : Type 0 where
    pub valid : IsValid c l'
    pub order : Kept (flow c l') (flow c l ++ contents ∷ [])
    pub ahead : now < due l'
    pub same_schedule : l'.schedule ≡ l.schedule

  booked-Arrived :
      (now n b : ℕ) (contents : Bytes) (l l' : LinkQueue pq.State)
      → Arrived now contents l l'
      → Arrived now contents l (booked c now n b l')
  unfolding record_drop
  booked-Arrived now n b contents l l' a = elim (Bool-cases (ltb 0 n || ltb 0 b)) [
    | inl e ↦ rw e (record {
      valid = IsValid-log l' _ a.valid;
      order = a.order;
      ahead = a.ahead;
      same_schedule = a.same_schedule;
    })
    | inr e ↦ rw e a
  ]

  flow-grows :
      (now : ℕ) (contents : Bytes) (l : LinkQueue pq.State) (q : pq.State)
      → Kept
          (map (λ p. p.contents) (c.contents q))
          (map (λ p. p.contents) (c.contents l.packet_queue ++ packet now contents ∷ []))
      → Kept (flow c (with_queue q l)) (flow c l ++ contents ∷ [])
  flow-grows now contents l q k =
      simp append_assoc
        (Kept-prepend l.output_queue (Kept-prepend (in_transit l) (simp map-append at k)))

  with_queue-Arrived :
      (now : ℕ) (contents : Bytes) (l : LinkQueue pq.State) (q : pq.State)
      → IsValid c l
      → now < due l
      → 0 < length contents
      → length contents ≤ packet_size
      → c.IsValid q
      → Kept (c.contents q) (c.contents l.packet_queue ++ packet now contents ∷ [])
      → Arrived now contents l (with_queue q l)
  with_queue-Arrived now contents l q v ahead more small w k = record {
    valid = IsValid-with_queue q l v w (
        All-Kept (Sendable (due l)) k (
          All-append (Sendable (due l)) (c.contents l.packet_queue) (packet now contents ∷ [])
            v.loaded.queued
            (record { arrived = omega arith; not_empty = more; small = small }, tt)));
    order = flow-grows now contents l q (Kept-map (λ p. p.contents) k);
    ahead = ahead;
    same_schedule = refl;
  }

  enqueue_packet-Arrived :
      (now : ℕ) (contents : Bytes) (l : LinkQueue pq.State)
      → IsValid c l
      → now < due l
      → 0 < length contents
      → length contents ≤ packet_size
      → HasRoom (packet now contents) (c.contents l.packet_queue)
      → Returns (enqueue_packet pq now contents l) (Arrived now contents l)
  enqueue_packet-Arrived now contents l v ahead more small room =
      let (l', e, w) = enqueue_packet-Enqueued c now contents l v.loaded.queue_valid room in
      (
        l',
        e,
        subst (Arrived now contents l) (sym w.logged) (
            booked-Arrived now
              (length (c.contents l.packet_queue) + 1 - length (c.contents w.queue))
              (total (c.contents l.packet_queue) + length contents - total (c.contents w.queue))
              contents l (with_queue w.queue l)
              (with_queue-Arrived now contents l w.queue v ahead more small w.queue_valid w.kept)),
      )

  arrival_lem :
      (now : ℕ) (contents : Bytes) (l : LinkQueue pq.State)
      → IsValid c l
      → now < due l
      → 0 < length contents
      → length contents ≤ packet_size
      → HasRoom (packet now contents) (c.contents l.packet_queue)
      → Returns
          (enqueue_packet pq now contents (record_arrival now (length contents) l))
          (Arrived now contents l)
  unfolding record_arrival
  arrival_lem now contents l v ahead more small room =
      let lines = logged (arrival now (length contents)) l.log in
      let (l', e, w) =
        enqueue_packet-Arrived now contents (record l { log = lines }) (IsValid-log l lines v) ahead
          more small room in
      (
        l',
        e,
        record {
          valid = w.valid;
          order = w.order;
          ahead = w.ahead;
          same_schedule = w.same_schedule;
        },
      )

  -- `read_packet` of a packet that is not empty, on a valid link with room, returns: no assertion
  -- fails. The packets are those that there were, in order, with the new one at the end or dropped,
  -- and the next delivery is later than `now`.
  pub read_packet_lem :
      (now : ℕ) (contents : Bytes) (l : LinkQueue pq.State)
      → IsValid c l
      → now + back l.schedule < 2 ^ 64
      → 0 < length contents
      → length contents ≤ packet_size
      → LinkHasRoom contents l
      → Returns (read_packet pq now contents l) (Arrived now contents l)
  unfolding read_packet
  read_packet_lem now contents l v b more small room =
      let (m, e, s) = rationalize-Served c now l v b in
      let valid : IsValid c m = record { clocked = s.clocked; loaded = s.loaded } in
      let (l', d, w) =
        arrival_lem now contents m valid s.ahead more small
          (HasRoom-of_LinkHasRoom now contents l m s.order room) in
      (
        l',
        rw (le→leb _ _ small) (rw e d),
        record {
          valid = w.valid;
          order = Kept-trans w.order (Kept-append s.order (contents ∷ []));
          ahead = w.ahead;
          same_schedule = w.same_schedule ∙ s.same_schedule;
        },
      )

  -- A packet that is too large is refused before anything else is done.
  pub read_packet_too_large :
      (now : ℕ) (contents : Bytes) (l : LinkQueue pq.State)
      → packet_size < length contents
      → read_packet pq now contents l ≡ err runtime_error
  unfolding read_packet
  read_packet_too_large now contents l h = ground arith

  -- `wait_time` of a valid link serves it up to `now`, and returns the time to its next delivery,
  -- which is not 0.
  pub wait_time_lem :
      (now : ℕ) (l : LinkQueue pq.State)
      → IsValid c l
      → now + back l.schedule < 2 ^ 64
      → Returns (wait_time pq now l) (λ r.
        (r.0 ≡ u32 (due r.1 - now))
        × (now < due r.1)
        × IsValid c r.1
        × Kept (flow c r.1) (flow c l)
        × (r.1.schedule ≡ l.schedule))
  unfolding wait_time
  wait_time_lem now l v b =
      let (m, e, s) = rationalize-Served c now l v b in
      (
        (u32 (due m - now), m),
        ground (arith, next_delivery_time_lem m s.clocked, s.ahead),
        (
          refl,
          s.ahead,
          record { clocked = s.clocked; loaded = s.loaded },
          s.order,
          s.same_schedule,
        ),
      )
