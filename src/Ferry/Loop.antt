-- ===== src/Ferry/Loop.antt =====
-- ferry.cc: what holds of the loop whatever poll, the clock and the signals do.
use mpshell_ext.Prelude.{
  ℕ, ◌<◌, ◌^◌, ◌≡◌, refl, sym, ap, subst, Bool, true, List, [], ◌∷◌, ◌++◌, Option, some, length,
  All, Kept, Kept-refl,
}
use mpshell_ext.Prelude.Result.{Result, ok, Returns, ◌>>=◌}
use mpshell_ext.Prelude.Ends.{Meets, Meets->>=, Meets-imp}
use mpshell_ext.Packet.{Bytes}
use mpshell_ext.Queue.{PacketQueue, Contract}
use mpshell_ext.Poller
use mpshell_ext.Poller.{
  PollDirection, Poller, PollResult, success, timeout, exited, poll, Action, ActionResult,
}
use mpshell_ext.Poller.Laws.{IsSound, IsPolled, Meets-poll, IsSound-Deactivated}
use mpshell_ext.Link.Trace.{back}
use mpshell_ext.Link.Flow.{bytes_of}
use mpshell_ext.RateDelay
use mpshell_ext.RateDelay.Move.{IsReady, line}
use mpshell_ext.Ferry.{
  Ferry, Round, from_tun, from_sibling, on_signal, ferry_poller, write_packets, packet_ferry,
}
use mpshell_ext.Ferry.Callbacks.{
  IsSmall, IsInTime, IsCarrying, Meets-from_tun, Meets-from_sibling, Meets-on_signal,
  waited-IsCarrying, written-IsCarrying,
}

Meets-of_Returns : {A : Type 0} (P : A → Type 0) (m : Result A) → Returns m P → Meets m P
Meets-of_Returns P m (a, e, h) = subst (λ x. Meets x P) (sym e) h

-- The callbacks rely on nothing but the invariant.
abbrev NeedsNothing : {W : Type 0} → PollDirection → (W → Bool) → W → Type 0
NeedsNothing d f w = Unit

needs_nothing :
    {W : Type 0} (d : PollDirection) (f : W → Bool) (w : W) → f w ≡ true → NeedsNothing d f w
needs_nothing d f w e = tt

module _ {pq : PacketQueue} (c : Contract pq) (outbound inbound : List Bytes) (schedule : List ℕ)
    (in_bytes : bytes_of outbound < 2 ^ 31) (in_packets : length outbound < 2 ^ 31) where
  abbrev Carrying : Ferry pq.State → Type 0
  Carrying w = IsCarrying c outbound inbound schedule w

  abbrev Sound : List (Action (Ferry pq.State)) → Type 0
  Sound actions = IsSound Carrying NeedsNothing needs_nothing actions

  abbrev CarryingAfter : ActionResult × Ferry pq.State → Type 0
  CarryingAfter r = Carrying r.1

  Sound-ferry_poller : (w : Ferry pq.State) → Sound (ferry_poller w).actions_
  unfolding ferry_poller Poller.add_action
  Sound-ferry_poller w = (
    λ v i u.
        Meets-imp CarryingAfter _ (from_tun v) (λ r h. (h, ((λ n. n), ((λ n. n), tt))))
          (Meets-from_tun c outbound inbound schedule in_bytes in_packets v i),
    (
      λ v i u.
          Meets-imp CarryingAfter _ (from_sibling v) (λ r h. (h, ((λ n. n), tt)))
            (Meets-from_sibling c outbound inbound schedule in_bytes in_packets v i),
      (
        λ v i u.
            Meets-imp CarryingAfter _ (on_signal v) (λ r h. (h, tt))
              (Meets-on_signal c outbound inbound schedule in_bytes in_packets v i),
        tt,
      ),
    ),
  )

  abbrev Ferried : Option ℕ × Poller (Ferry pq.State) × Ferry pq.State → Type 0
  Ferried r = Carrying r.2

  Meets-rounds :
      (rounds : List Round) (p : Poller (Ferry pq.State)) (w : Ferry pq.State)
      → All (IsInTime (back schedule)) rounds
      → Sound p.actions_
      → Carrying w
      → Meets (packet_ferry pq rounds p w) Ferried
  unfolding packet_ferry
  Meets-rounds [] p w t s v = v
  Meets-rounds (round ∷ rounds) p w t s v =
      Meets->>= (λ x. Carrying (record w { queues = x.1 })) Ferried
        (RateDelay.wait_time pq round.time round.time' w.queues) _
        (Meets-of_Returns _ (RateDelay.wait_time pq round.time round.time' w.queues) (
          waited-IsCarrying c outbound inbound schedule in_bytes in_packets round.time round.time' w
            v t.0.waiting))
        (λ x u.
          let w' = record w { queues = x.1 } in
          Meets->>= (IsPolled Carrying NeedsNothing needs_nothing p.actions_) Ferried
            (poll (round.os_poll x.0) p w') _
            (Meets-poll Carrying NeedsNothing needs_nothing (round.os_poll x.0) p w' s u)
            (λ r k. polled r.0 r.1 r.2 k.invariant (
              Meets->>= Carrying Ferried (write_packets pq round.clock r.2) _
                (Meets-of_Returns Carrying (write_packets pq round.clock r.2) (
                  written-IsCarrying c outbound inbound schedule in_bytes in_packets round.clock r.2
                    k.invariant t.0.writing))
                (λ w'' h.
                  Meets-rounds rounds r.1 w'' t.1
                    (IsSound-Deactivated Carrying NeedsNothing needs_nothing k.same_actions s) h))))
    where
      polled :
          (result : PollResult) (p' : Poller (Ferry pq.State)) (w' : Ferry pq.State)
          → Carrying w'
          → Meets (do w'' ← write_packets pq round.clock w'; packet_ferry pq rounds p' w'') Ferried
          → Meets
              (elim result [
                | exited status ↦ ok (some status, p', w')
                | _ ↦ do w'' ← write_packets pq round.clock w'; packet_ferry pq rounds p' w''
              ])
              Ferried
      polled success p' w' v' h = h
      polled timeout p' w' v' h = h
      polled (exited status) p' w' v' h = v'

-- From queues that are ready, with nothing written to a descriptor, packets to come that fit in a
-- delivery, room in the counters for all packets and no time near the end of 64 bits: whatever poll
-- and the signals do, each round of the loop ends, and as long as no exception is raised, the packets
-- that left, those that are held and those to come are the packets that there were and came, in
-- order, less what was dropped, and the packets from the other side are all passed on, in order.
pub Meets-packet_ferry :
    {pq : PacketQueue} (c : Contract pq) (rounds : List Round) (w : Ferry pq.State)
    → IsReady c w.queues
    → w.sibling_fd.written ≡ []
    → w.tun.written ≡ []
    → All IsSmall w.tun.arriving
    → bytes_of (line c w.queues ++ w.tun.arriving) < 2 ^ 31
    → length (line c w.queues ++ w.tun.arriving) < 2 ^ 31
    → All (IsInTime (back w.queues.link_queue.schedule)) rounds
    → Meets (packet_ferry pq rounds (ferry_poller w) w) (λ r.
      IsCarrying c
        (line c w.queues ++ w.tun.arriving)
        w.sibling_fd.arriving
        w.queues.link_queue.schedule
        r.2)
Meets-packet_ferry c rounds w v e f small in_bytes in_packets t =
    let outbound = line c w.queues ++ w.tun.arriving in
    Meets-rounds c outbound w.sibling_fd.arriving w.queues.link_queue.schedule in_bytes in_packets
      rounds (ferry_poller w) w t
      (Sound-ferry_poller c outbound w.sibling_fd.arriving w.queues.link_queue.schedule in_bytes
        in_packets w)
      (record {
        ready = v;
        out_order = subst (λ l. Kept (l ++ outbound) outbound) (sym e) (Kept-refl outbound);
        in_order = ap (λ l. l ++ w.sibling_fd.arriving) f;
        small = small;
        same_schedule = refl;
      })
