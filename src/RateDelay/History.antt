-- ===== src/RateDelay/History.antt =====
-- What a `packet_ferry` makes of a delay queue and a link: any sequence of packets that arrive from
-- the tun device, of calls of `wait_time` before a poll, and of `write_packets` after it (ferry.cc).
use mathlib.Core.List.{append_assoc, append-nil}
use mpshell_ext.Prelude.{
  ℕ, ◌+◌, ◌≤◌, ◌<◌, ◌^◌, ◌≡◌, refl, sym, ap, subst, subst₂, ◌∙◌, List, [], ◌∷◌, ◌++◌, arith, length,
  length-append, length-Kept, All, Kept, Kept-refl, Kept-trans, Kept-prepend, Kept-append,
}
use mpshell_ext.Prelude.Result.{Result, ok, Returns, ◌>>=◌}
use mpshell_ext.Prelude.Stream.{Stream}
use mpshell_ext.Packet.{Bytes}
use mpshell_ext.Queue.{PacketQueue, Contract}
use mpshell_ext.Link.{packet_size}
use mpshell_ext.Link.Trace.{back}
use mpshell_ext.Link.Flow.{bytes_of, bytes_of-append}
use mpshell_ext.Link.Enqueue.{bytes_of-Kept}
use mpshell_ext.RateDelay.{RateDelayQueue, read_packet, write_packets, wait_time}
use mpshell_ext.RateDelay.Move.{IsReady, line}
use mpshell_ext.RateDelay.Laws.{
  wait_time-Moved, write_packets-Written, line-read_packet, read_packet-IsReady,
  schedule-read_packet,
}

pub data Event : Type 0 where
  arrives : ℕ → Bytes → Event
  waits : ℕ → ℕ → Event
  writes : Stream → Event

module _ (pq : PacketQueue) where
  -- What the event writes to the sibling, and the state after it.
  unfoldable pub step :
      Event → RateDelayQueue pq.State → Result (List Bytes × RateDelayQueue pq.State)
  step (arrives time contents) r = ok ([], read_packet time contents r)
  step (waits time time') r = do x ← wait_time pq time time' r; ok ([], x.1)
  step (writes clock) r = write_packets pq clock r

  unfoldable pub run :
      List Event → RateDelayQueue pq.State → Result (List Bytes × RateDelayQueue pq.State)
  run [] r = ok ([], r)
  run (e ∷ es) r = do x ← step e r; y ← run es x.1; ok (x.0 ++ y.0, y.1)

abbrev pub arrivals : List Event → List Bytes
arrivals [] = []
arrivals (arrives time contents ∷ es) = contents ∷ arrivals es
arrivals (waits time time' ∷ es) = arrivals es
arrivals (writes clock ∷ es) = arrivals es

-- No time is within `last` of the end of 64 bits, and a packet is one that a link can carry.
abbrev pub IsFine : ℕ → Event → Type 0
IsFine last (arrives time contents) = length contents ≤ packet_size
IsFine last (waits time time') = time' + last < 2 ^ 64
IsFine last (writes clock) = (n : ℕ) → clock n + last < 2 ^ 64

after_event :
    (out left before es all : List Bytes)
    → all ≡ before ++ es
    → Kept (out ++ left) before
    → Kept (out ++ (left ++ es)) all
after_event out left before es all e k =
    subst₂ Kept (append_assoc out left es) (sym e) (Kept-append k es)

join :
    (out out' left left' all : List Bytes)
    → Kept (out ++ left) all
    → Kept (out' ++ left') left
    → Kept ((out ++ out') ++ left') all
join out out' left left' all h k =
    subst (λ l. Kept l all) (sym (append_assoc out out' left')) (Kept-trans (Kept-prepend out k) h)

module _ {pq : PacketQueue} (c : Contract pq) where
  abbrev arrived : Event → List Bytes
  arrived e = arrivals (e ∷ [])

  -- One event: what is written and what is left are what there was and what arrived.
  record Stepped (e : Event) (r : RateDelayQueue pq.State) (out : List Bytes)
      (r' : RateDelayQueue pq.State) : Type 0 where
    ready : IsReady c r'
    order : Kept (out ++ line c r') (line c r ++ arrived e)
    same_schedule : r'.link_queue.schedule ≡ r.link_queue.schedule

  step-Stepped :
      (e : Event) (r : RateDelayQueue pq.State)
      → IsReady c r
      → IsFine (back r.link_queue.schedule) e
      → bytes_of (line c r ++ arrived e) < 2 ^ 31
      → length (line c r ++ arrived e) < 2 ^ 31
      → Returns (step pq e r) (λ x. Stepped e r x.0 x.1)
  unfolding step
  step-Stepped (arrives time contents) r v f h k = (
    ([], read_packet time contents r),
    refl,
    record {
      ready =
          read_packet-IsReady c time contents r v f
            (omega (arith, h, bytes_of-append (line c r) (contents ∷ [])))
            (omega (arith, k, length-append (line c r) (contents ∷ [])));
      order =
          subst (λ x. Kept x (line c r ++ contents ∷ [])) (sym (line-read_packet c time contents r))
            (Kept-refl (line c r ++ contents ∷ []));
      same_schedule = schedule-read_packet c time contents r;
    },
  )
  step-Stepped (waits time time') r v f h k =
      let (x, e, w) = wait_time-Moved c time time' r v f in
      (([], x.1), rw e, record { ready = w.0; order = rw append-nil w.1; same_schedule = w.2 })
  step-Stepped (writes clock) r v f h k =
      let (x, e, w) = write_packets-Written c clock r v f in
      (
        x,
        e,
        record { ready = w.ready; order = rw append-nil w.order; same_schedule = w.same_schedule },
      )

  arrivals-cons : (e : Event) (es : List Event) → arrivals (e ∷ es) ≡ arrived e ++ arrivals es
  arrivals-cons (arrives time contents) es = refl
  arrivals-cons (waits time time') es = refl
  arrivals-cons (writes clock) es = refl

  -- From queues that are ready, for packets that fit in a delivery and in the counters and times that
  -- are no nearer to the end of 64 bits than the length of the trace, whatever happens in whatever
  -- order: no assertion fails, the queues are ready again, and each packet comes out at most once,
  -- unchanged, in the order of arrival.
  pub run-IsReady :
      (es : List Event) (r : RateDelayQueue pq.State)
      → IsReady c r
      → All (IsFine (back r.link_queue.schedule)) es
      → bytes_of (line c r ++ arrivals es) < 2 ^ 31
      → length (line c r ++ arrivals es) < 2 ^ 31
      → Returns
          (run pq es r)
          (λ x. IsReady c x.1 × Kept (x.0 ++ line c x.1) (line c r ++ arrivals es))
  unfolding run
  run-IsReady [] r v f h k = (([], r), refl, (v, rw append-nil (Kept-refl (line c r))))
  run-IsReady (e ∷ es) r v f h k =
      let split : line c r ++ arrivals (e ∷ es) ≡ (line c r ++ arrived e) ++ arrivals es =
        ap (λ a. line c r ++ a) (arrivals-cons e es)
        ∙ sym (append_assoc (line c r) (arrived e) (arrivals es)) in
      let (x, d, w) =
        step-Stepped e r v f.0
          (omega
            (arith, h, ap bytes_of split, bytes_of-append (line c r ++ arrived e) (arrivals es)))
          (omega
            (arith, k, ap length split, length-append (line c r ++ arrived e) (arrivals es))) in
      let before : Kept (x.0 ++ (line c x.1 ++ arrivals es)) (line c r ++ arrivals (e ∷ es)) =
        after_event x.0 (line c x.1) (line c r ++ arrived e) (arrivals es)
          (line c r ++ arrivals (e ∷ es)) split w.order in
      let (y, d', w') =
        run-IsReady es x.1 w.ready (rw w.same_schedule f.1)
          (omega (arith, h, bytes_of-Kept before, bytes_of-append x.0 (line c x.1 ++ arrivals es)))
          (omega (arith, k, length-Kept before, length-append x.0 (line c x.1 ++ arrivals es))) in
      (
        (x.0 ++ y.0, y.1),
        rw d (rw d'),
        (
          w'.0,
          join x.0 y.0 (line c x.1 ++ arrivals es) (line c y.1) (line c r ++ arrivals (e ∷ es))
              before w'.1,
        ),
      )
