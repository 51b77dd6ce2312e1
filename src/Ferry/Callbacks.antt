-- ===== src/Ferry/Callbacks.antt =====
-- ferry.cc: what each callback of the loop, wait_time and write_packets do to the packets on the way.
use mathlib.Core.List.{append_assoc}
use mpshell_ext.Prelude.{
  ℕ, ◌+◌, ◌≤◌, ◌<◌, ◌^◌, ◌≡◌, refl, sym, ap, subst, ◌∙◌, List, [], ◌∷◌, ◌++◌, arith, length,
  length-append, length-Kept, All, Kept, Kept-trans, Kept-prepend, Kept-append,
}
use mpshell_ext.Prelude.Result.{Returns}
use mpshell_ext.Prelude.Ends.{Meets, Meets->>=, Meets-Ends, Always}
use mpshell_ext.Prelude.Stream.{Stream, now}
use mpshell_ext.Packet.{Bytes}
use mpshell_ext.Queue.{PacketQueue, Contract}
use mpshell_ext.Link.{packet_size}
use mpshell_ext.Link.Trace.{back}
use mpshell_ext.Link.Flow.{bytes_of, bytes_of-append}
use mpshell_ext.Link.Enqueue.{bytes_of-Kept}
use mpshell_ext.RateDelay
use mpshell_ext.RateDelay.{RateDelayQueue}
use mpshell_ext.RateDelay.Move.{IsReady, line}
use mpshell_ext.RateDelay.Laws.{
  wait_time-Moved, write_packets-Written, line-read_packet, read_packet-IsReady,
  schedule-read_packet,
}
use mpshell_ext.ChildProcess.{handle_signal}
use mpshell_ext.ChildProcess.Ending.{Ends-handle_signal}
use mpshell_ext.Ferry.{
  Device, Signal, Ferry, Round, read, write, read_signal, from_tun, from_sibling, on_signal,
  write_packets,
}

-- A packet that fits in a delivery.
abbrev pub IsSmall : Bytes → Type 0
IsSmall b = length b ≤ packet_size

-- Nothing near the end of 64 bits is read from the clock.
pub record IsInTime (last : ℕ) (round : Round) : Type 0 where
  pub waiting : round.time' + last < 2 ^ 64
  pub writing : (n : ℕ) → round.clock n + last < 2 ^ 64

-- What a read takes is the first of what will arrive.
record IsRead (d : Device) (r : Bytes × Device) : Type 0 where
  arriving : d.arriving ≡ r.0 ∷ r.1.arriving
  written : r.1.written ≡ d.written

Meets-read_from :
    (buffers : List Bytes) (d : Device)
    → Meets (read (record d { arriving = buffers })) (IsRead (record d { arriving = buffers }))
unfolding read
Meets-read_from [] d = refl
Meets-read_from (b ∷ buffers) d = record { arriving = refl; written = refl }

Meets-read : (d : Device) → Meets (read d) (IsRead d)
Meets-read d = Meets-read_from d.arriving d

-- What is written goes behind what was.
behind_written :
    (written out held rest : List Bytes)
    → written ++ ((out ++ held) ++ rest) ≡ (written ++ out) ++ (held ++ rest)
behind_written written out held rest =
    ap (λ l. written ++ l) (append_assoc out held rest)
    ∙ sym (append_assoc written out (held ++ rest))

Meets-read_signal : (signals : List Signal) → Meets (read_signal signals) Always
unfolding read_signal
Meets-read_signal [] = refl
Meets-read_signal (s ∷ signals) = refl

module _ {pq : PacketQueue} (c : Contract pq) (outbound inbound : List Bytes)
    (schedule : List ℕ) where
  -- What left, what is held and what will arrive is `outbound`, less what was dropped; what came
  -- back and what will come is `inbound`.
  pub record IsCarrying (w : Ferry pq.State) : Type 0 where
    pub ready : IsReady c w.queues
    pub out_order : Kept (w.sibling_fd.written ++ (line c w.queues ++ w.tun.arriving)) outbound
    pub in_order : w.tun.written ++ w.sibling_fd.arriving ≡ inbound
    pub small : All IsSmall w.tun.arriving
    pub same_schedule : w.queues.link_queue.schedule ≡ schedule

module _ {pq : PacketQueue} (c : Contract pq) (outbound inbound : List Bytes) (schedule : List ℕ)
    (in_bytes : bytes_of outbound < 2 ^ 31) (in_packets : length outbound < 2 ^ 31) where
  abbrev Carrying : Ferry pq.State → Type 0
  Carrying w = IsCarrying c outbound inbound schedule w

  -- There is room for the next packet.
  room :
      (w : Ferry pq.State) (b : Bytes) (rest : List Bytes)
      → Carrying w
      → w.tun.arriving ≡ b ∷ rest
      → (bytes_of (line c w.queues) + length b < 2 ^ 31) × (length (line c w.queues) + 1 < 2 ^ 31)
  room w b rest v e =
      let kept : Kept (w.sibling_fd.written ++ (line c w.queues ++ b ∷ rest)) outbound =
        subst (λ l. Kept (w.sibling_fd.written ++ (line c w.queues ++ l)) outbound) e v.out_order in
      (
        omega (
          arith,
          bytes_of-Kept kept,
          bytes_of-append w.sibling_fd.written (line c w.queues ++ b ∷ rest),
          bytes_of-append (line c w.queues) (b ∷ rest),
          in_bytes,
        ),
        omega (
          arith,
          length-Kept kept,
          length-append w.sibling_fd.written (line c w.queues ++ b ∷ rest),
          length-append (line c w.queues) (b ∷ rest),
          in_packets,
        ),
      )

  pub Meets-from_tun : (w : Ferry pq.State) → Carrying w → Meets (from_tun w) (λ r. Carrying r.1)
  unfolding from_tun
  Meets-from_tun w v =
      Meets->>= (IsRead w.tun) (λ r. Carrying r.1) (read w.tun) _ (Meets-read w.tun)
        (λ r k.
          let held : line c (RateDelay.read_packet (now w.clock) r.0 w.queues) ++ r.1.arriving
              ≡ line c w.queues ++ w.tun.arriving =
            ap (λ l. l ++ r.1.arriving) (line-read_packet c (now w.clock) r.0 w.queues)
            ∙ append_assoc (line c w.queues) (r.0 ∷ []) r.1.arriving
            ∙ ap (λ l. line c w.queues ++ l) (sym k.arriving) in
          let free = room w r.0 r.1.arriving v k.arriving in
          let small = subst (All IsSmall) k.arriving v.small in
          record {
            ready = read_packet-IsReady c (now w.clock) r.0 w.queues v.ready small.0 free.0 free.1;
            out_order =
                subst (λ l. Kept (w.sibling_fd.written ++ l) outbound) (sym held) v.out_order;
            in_order = ap (λ l. l ++ w.sibling_fd.arriving) k.written ∙ v.in_order;
            small = small.1;
            same_schedule = schedule-read_packet c (now w.clock) r.0 w.queues ∙ v.same_schedule;
          })

  pub Meets-from_sibling :
      (w : Ferry pq.State) → Carrying w → Meets (from_sibling w) (λ r. Carrying r.1)
  unfolding from_sibling write
  Meets-from_sibling w v =
      Meets->>= (IsRead w.sibling_fd) (λ r. Carrying r.1) (read w.sibling_fd) _
        (Meets-read w.sibling_fd)
        (λ r k. record {
          ready = v.ready;
          out_order =
              subst (λ l. Kept (l ++ (line c w.queues ++ w.tun.arriving)) outbound) (sym k.written)
                v.out_order;
          in_order =
              append_assoc w.tun.written (r.0 ∷ []) r.1.arriving
              ∙ ap (λ l. w.tun.written ++ l) (sym k.arriving)
              ∙ v.in_order;
          small = v.small;
          same_schedule = v.same_schedule;
        })

  pub Meets-on_signal : (w : Ferry pq.State) → Carrying w → Meets (on_signal w) (λ r. Carrying r.1)
  unfolding on_signal
  Meets-on_signal w v =
      Meets->>= Always (λ r. Carrying r.1) (read_signal w.signals) _ (Meets-read_signal w.signals)
        (λ s u.
          let handled =
            handle_signal s.0.kill s.0.waitid s.0.signo s.0.pid w.child_processes w.sent w.stops in
          Meets->>= Always (λ r. Carrying r.1) handled _
            (Meets-Ends handled (
              Ends-handle_signal s.0.kill s.0.waitid s.0.signo s.0.pid w.child_processes w.sent
                w.stops))
            (λ h k. record {
              ready = v.ready;
              out_order = v.out_order;
              in_order = v.in_order;
              small = v.small;
              same_schedule = v.same_schedule;
            }))

  pub waited-IsCarrying :
      (time time' : ℕ) (w : Ferry pq.State)
      → Carrying w
      → time' + back schedule < 2 ^ 64
      → Returns
          (RateDelay.wait_time pq time time' w.queues)
          (λ x. Carrying (record w { queues = x.1 }))
  waited-IsCarrying time time' w v b =
      let (x, e, m) =
        wait_time-Moved c time time' w.queues v.ready
          (subst (λ s. time' + back s < 2 ^ 64) (sym v.same_schedule) b) in
      (
        x,
        e,
        record {
          ready = m.0;
          out_order =
              Kept-trans (Kept-prepend w.sibling_fd.written (Kept-append m.1 w.tun.arriving))
                v.out_order;
          in_order = v.in_order;
          small = v.small;
          same_schedule = m.2 ∙ v.same_schedule;
        },
      )

  pub written-IsCarrying :
      (clock : Stream) (w : Ferry pq.State)
      → Carrying w
      → ((n : ℕ) → clock n + back schedule < 2 ^ 64)
      → Returns (write_packets pq clock w) Carrying
  unfolding write_packets write
  written-IsCarrying clock w v b =
      let (x, e, m) =
        write_packets-Written c clock w.queues v.ready
          (λ n. subst (λ s. clock n + back s < 2 ^ 64) (sym v.same_schedule) (b n)) in
      (
        record w {
          queues = x.1;
          sibling_fd = record w.sibling_fd { written = w.sibling_fd.written ++ x.0 };
        },
        rw e refl,
        record {
          ready = m.ready;
          out_order =
              subst (λ l. Kept l outbound)
                (behind_written w.sibling_fd.written x.0 (line c x.1) w.tun.arriving)
                (Kept-trans (Kept-prepend w.sibling_fd.written (Kept-append m.order w.tun.arriving))
                  v.out_order);
          in_order = v.in_order;
          small = v.small;
          same_schedule = m.same_schedule ∙ v.same_schedule;
        },
      )
