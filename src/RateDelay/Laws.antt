-- ===== src/RateDelay/Laws.antt =====
-- rate_delay_queue.hh and .cc: theorems on its operations.
use mathlib.Core.List.{append_assoc, map-append}
use mpshell_ext.Prelude.{
  ℕ, suc, ◌+◌, ◌≤◌, ◌<◌, ◌^◌, ◌≡◌, inl, inr, refl, sym, ap, subst, List, [], ◌∷◌, ◌++◌, arith,
  length, length-append, length-Kept, All-append, Kept, Kept-append,
}
use mpshell_ext.Prelude.Result.{Returns}
use mpshell_ext.Prelude.Stream.{Stream}
use mpshell_ext.Packet.{Bytes}
use mpshell_ext.Queue.{PacketQueue, Contract}
use mpshell_ext.Delay.{Delayed, DelayQueue}
use mpshell_ext.Delay
use mpshell_ext.Delay.Laws.{contents_of}
use mpshell_ext.Link.{LinkQueue, packet_size}
use mpshell_ext.Link
use mpshell_ext.Link.Trace.{back}
use mpshell_ext.Link.Flow.{bytes_of, bytes_of-append, flow}
use mpshell_ext.Link.Rationalize.{IsValid}
use mpshell_ext.Link.Arrival
use mpshell_ext.Link.Enqueue.{bytes_of-Kept}
use mpshell_ext.Link.Arrival.{LinkHasRoom, read_packet_lem}
use mpshell_ext.RateDelay.{RateDelayQueue, read_packet, write_packets, sooner, wait_time}
use mpshell_ext.RateDelay.Move.{Carried, line, IsReady, InTime, Moved, move_packets_lem}

module _ {pq : PacketQueue} (c : Contract pq) where
  IsValid-written :
      (l : LinkQueue pq.State) → IsValid c l → IsValid c (record l { output_queue = [] })
  IsValid-written l v = record {
    clocked = record {
      in_range = v.clocked.in_range;
      few = v.clocked.few;
      rising = v.clocked.rising;
      lasting = v.clocked.lasting;
      no_wrap = v.clocked.no_wrap;
    };
    loaded = record {
      queue_valid = v.loaded.queue_valid;
      queued = v.loaded.queued;
      transit = elim v.loaded.transit [
        | inl e ↦ inl e
        | inr t ↦ inr (record { arrived = t.arrived; left = t.left; small = t.small })
      ];
    };
  }

  abbrev written : RateDelayQueue pq.State → RateDelayQueue pq.State
  written r = record r { link_queue = record r.link_queue { output_queue = [] } }

  line-written :
      (r : RateDelayQueue pq.State) → r.link_queue.output_queue ++ line c (written r) ≡ line c r
  line-written r =
      sym (append_assoc r.link_queue.output_queue _ (contents_of r.delay_queue.packet_queue))

  written-IsReady : (r : RateDelayQueue pq.State) → IsReady c r → IsReady c (written r)
  written-IsReady r v = record {
    link_valid = IsValid-written r.link_queue v.link_valid;
    carried = v.carried;
    in_bytes = omega (
      arith,
      v.in_bytes,
      ap bytes_of (line-written r),
      bytes_of-append r.link_queue.output_queue (line c (written r)),
    );
    in_packets = omega (
      arith,
      v.in_packets,
      ap length (line-written r),
      length-append r.link_queue.output_queue (line c (written r)),
    );
  }

  -- What `write_packets` writes, and what is left behind it.
  pub record Written (r : RateDelayQueue pq.State) (out : List Bytes) (r' : RateDelayQueue pq.State)
      : Type 0 where
    pub ready : IsReady c r'
    pub order : Kept (out ++ line c r') (line c r)
    pub same_schedule : r'.link_queue.schedule ≡ r.link_queue.schedule

  -- `write_packets` returns, and writes packets from the front: what is written and what is left
  -- are what there was, in order, but for the packets that the queue of the link drops.
  pub write_packets-Written :
      (clock : Stream) (r : RateDelayQueue pq.State)
      → IsReady c r
      → InTime c clock r
      → Returns (write_packets pq clock r) (λ x. Written r x.0 x.1)
  unfolding write_packets Link.write_packets
  write_packets-Written clock r v b =
      let (m, e, w) =
        move_packets_lem c (suc (length r.delay_queue.packet_queue)) clock r (omega arith) v b in
      (
        (m.link_queue.output_queue, written m),
        rw e,
        record {
          ready = written-IsReady m w.0;
          order = subst (λ x. Kept x (line c r)) (sym (line-written m)) w.1;
          same_schedule = w.2;
        },
      )

  -- `wait_time` of queues that are ready fails no assertion, and keeps them ready, their packets in
  -- order and their trace.
  pub wait_time-Moved :
      (time time' : ℕ) (r : RateDelayQueue pq.State)
      → IsReady c r
      → time' + back r.link_queue.schedule < 2 ^ 64
      → Returns (wait_time pq time time' r) (λ x. Moved c r x.1)
  unfolding wait_time
  wait_time-Moved time time' r v b =
      let (w, e, s) = Arrival.wait_time_lem c time' r.link_queue v.link_valid b in
      let k = Kept-append s.3 (contents_of r.delay_queue.packet_queue) in
      (
        (sooner w.0 (Delay.wait_time time r.delay_queue), record r { link_queue = w.1 }),
        rw e,
        (
          record {
            link_valid = s.2;
            carried = v.carried;
            in_bytes = omega (arith, bytes_of-Kept k, v.in_bytes);
            in_packets = omega (arith, length-Kept k, v.in_packets);
          },
          k,
          s.4,
        ),
      )

  pub line-read_packet :
      (time : ℕ) (contents : Bytes) (r : RateDelayQueue pq.State)
      → line c (read_packet time contents r) ≡ line c r ++ contents ∷ []
  unfolding read_packet Delay.read_packet
  line-read_packet time contents r = rw map-append (
      sym (
        append_assoc (flow c r.link_queue) (contents_of r.delay_queue.packet_queue)
          (contents ∷ [])))

  pub read_packet-IsReady :
      (time : ℕ) (contents : Bytes) (r : RateDelayQueue pq.State)
      → IsReady c r
      → length contents ≤ packet_size
      → bytes_of (line c r) + length contents < 2 ^ 31
      → length (line c r) + 1 < 2 ^ 31
      → IsReady c (read_packet time contents r)
  read_packet-IsReady time contents r v small h k = record {
    link_valid = unfold read_packet in v.link_valid;
    carried =
        unfold read_packet Delay.read_packet in
        All-append Carried r.delay_queue.packet_queue _ v.carried (record { small = small }, tt);
    in_bytes = omega (
      arith,
      ap bytes_of (line-read_packet time contents r),
      bytes_of-append (line c r) (contents ∷ []),
    );
    in_packets = omega (
      arith,
      ap length (line-read_packet time contents r),
      length-append (line c r) (contents ∷ []),
    );
  }

  pub schedule-read_packet :
      (time : ℕ) (contents : Bytes) (r : RateDelayQueue pq.State)
      → (read_packet time contents r).link_queue.schedule ≡ r.link_queue.schedule
  unfolding read_packet
  schedule-read_packet time contents r = refl
