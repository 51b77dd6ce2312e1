-- ===== src/Tests/Links.antt =====
-- A link and a delay queue on a short history.
use mpshell_ext.Prelude.{
  ◌≡◌, refl, true, List, [], ◌∷◌, ◌++◌, some, arith, inl, inr, Kept, ◌-◌, ◌<◌, ℕ, none, false,
}
use mpshell_ext.Prelude.Result.{ok, Returns}
use mpshell_ext.Queue.Dropping.{Dropping}
use mpshell_ext.Queue.Dropping.Laws as Dropping_Laws
use mpshell_ext.Queue.DropTail.{drop_tail}
use mpshell_ext.Queue.DropTail.Laws.{drop_tail_contract}
use mpshell_ext.Ezio.{myatoi}
use mpshell_ext.Link
use mpshell_ext.Link.{LinkQueue, fresh, rationalize, deliver}
use mpshell_ext.Link.Trace.{get_lines, load_lines, load_schedule}
use mpshell_ext.Link.Opportunities.{opportunities}
use mpshell_ext.Link.Rationalize.{Served, IsValid, rationalize-Served}
use mpshell_ext.Link.Arrival.{Arrived, read_packet_lem, wait_time_lem}
use mpshell_ext.Link.Start.{init-IsValid, fresh-IsValid}
use mpshell_ext.RateDelay.{RateDelayQueue}
use mpshell_ext.RateDelay.Move.{IsReady, line}
use mpshell_ext.RateDelay.History.{Event, arrives, waits, writes, run, run-IsReady}
use mpshell_ext.Words.{u32}
use mpshell_ext.Prelude.Ends.{Meets}
use mpshell_ext.Poller.{PollFd, PollReturn, ready, timed_out}
use mpshell_ext.Ferry.{Ferry, Round, ferry_poller, packet_ferry}
use mpshell_ext.Ferry.Callbacks.{IsCarrying}
use mpshell_ext.Ferry.Loop.{Meets-packet_ferry}
use mpshell_ext.Link.Clock.{due}
use mpshell_ext.Link.Flow.{IsLoaded, IsIdle, flow}
use mpshell_ext.Link.Drain.{rationalize-IsIdle}
use mpshell_ext.Link.Delivery.{Delivered, deliver_lem}
use mpshell_ext.RateDelay
use mpshell_ext.RateDelay.Laws.{Written, write_packets-Written}
use mpshell_ext.Delay
use mpshell_ext.Delay.{DelayQueue}
use mpshell_ext.Delay.Laws.{Released, write_packets-Released}

abbrev empty_queue : Dropping
empty_queue = record {
  queue_size_in_bytes = 0;
  queue_size_in_packets = 0;
  internal_queue = [];
  packet_limit = 3;
  byte_limit = 0;
}

-- A trace with deliveries after 1 and 5 milliseconds, from the time 1000 on.
abbrev link : LinkQueue Dropping
link = fresh (1 ∷ 5 ∷ []) 1000 true true empty_queue

empty_queue-IsValid : Dropping_Laws.IsValid empty_queue
empty_queue-IsValid = record {
  counted = omega arith;
  byte_limit_met = inl refl;
  packet_limit_met = inr (omega arith);
}

trace :
    Link.init false (some (b'1' ∷ 10 ∷ b'5' ∷ 10 ∷ [])) 1000 (some true) true empty_queue ≡ ok link
unfolding Link.init load_schedule load_lines get_lines myatoi
trace = refl

link-IsValid : IsValid drop_tail_contract link
link-IsValid =
    fresh-IsValid drop_tail_contract (1 ∷ 5 ∷ []) 1000 true true empty_queue (omega arith)
      empty_queue-IsValid refl (omega arith) (omega arith)

init-IsValid_example : IsValid drop_tail_contract link
init-IsValid_example =
    init-IsValid drop_tail_contract false (b'1' ∷ 10 ∷ b'5' ∷ 10 ∷ []) 1000 (some true) true
      empty_queue link trace empty_queue-IsValid refl (omega arith) (omega arith)

rationalize-Served_example :
    Returns
      (rationalize drop_tail 1003 link)
      (Served drop_tail_contract 1003 (opportunities 1003 link) link)
rationalize-Served_example =
    rationalize-Served drop_tail_contract 1003 link link-IsValid (omega arith)

read_packet_lem_example :
    Returns
      (Link.read_packet drop_tail 1003 (7 ∷ []) link)
      (Arrived drop_tail_contract 1003 (7 ∷ []) link)
read_packet_lem_example =
    read_packet_lem drop_tail_contract 1003 (7 ∷ []) link link-IsValid (omega arith) (omega arith)
      (omega arith) (omega arith)

abbrev queues : RateDelayQueue Dropping
queues = record { delay_queue = record { delay_ms = 2; packet_queue = [] }; link_queue = link }

queues-IsReady : IsReady drop_tail_contract queues
queues-IsReady = record {
  link_valid = link-IsValid;
  carried = tt;
  in_bytes = omega arith;
  in_packets = omega arith;
}

-- Two packets come, and the clock shows 1003 and then 1006 when the queues are written out.
abbrev history : List Event
history =
    arrives 1000 (7 ∷ 8 ∷ [])
    ∷ arrives 1001 (9 ∷ [])
    ∷ waits 1002 1002
    ∷ writes (λ n. 1003)
    ∷ waits 1006 1006
    ∷ writes (λ n. 1006)
    ∷ []

run-IsReady_example : Returns (run drop_tail history queues) (λ x.
    IsReady drop_tail_contract x.1
    × Kept (x.0 ++ line drop_tail_contract x.1) ((7 ∷ 8 ∷ []) ∷ (9 ∷ []) ∷ []))
run-IsReady_example =
    run-IsReady drop_tail_contract history queues queues-IsReady (omega arith) (omega arith)
      (omega arith)

-- The link with two packets in its queue, which came at the time 1000.
abbrev loaded_link : LinkQueue Dropping
loaded_link = record link {
  packet_queue = record empty_queue {
    queue_size_in_bytes = 3;
    queue_size_in_packets = 2;
    internal_queue =
        record { arrival_time = 1000; contents = 7 ∷ 8 ∷ [] }
        ∷ record { arrival_time = 1000; contents = 9 ∷ [] }
        ∷ [];
  };
}

loaded_link-IsLoaded : IsLoaded drop_tail_contract 1001 loaded_link
loaded_link-IsLoaded = record {
  queue_valid = record {
    counted = omega arith;
    byte_limit_met = inl refl;
    packet_limit_met = inr (omega arith);
  };
  queued = (
    record { arrived = omega arith; not_empty = omega arith; small = omega arith },
    (record { arrived = omega arith; not_empty = omega arith; small = omega arith }, tt),
  );
  transit = inl refl;
}

-- One of two opportunities would be enough.
rationalize-IsIdle_example : Returns (rationalize drop_tail 1006 loaded_link) (λ l'.
    IsIdle drop_tail_contract l' × Kept l'.output_queue (flow drop_tail_contract loaded_link))
rationalize-IsIdle_example =
    rationalize-IsIdle drop_tail_contract 1006 1 loaded_link
      (record {
        clocked = record {
          in_range = omega arith;
          few = omega arith;
          rising = omega arith;
          lasting = omega arith;
          no_wrap = omega arith;
        };
        loaded = loaded_link-IsLoaded;
      })
      (record { repeating = refl; unfinished = refl }) (omega arith) (omega arith) (omega arith)

-- Two of the three bytes are sent.
deliver_lem_example :
    Returns
      (deliver drop_tail 5 1001 2 loaded_link)
      (Delivered drop_tail_contract 1001 2 loaded_link)
deliver_lem_example =
    deliver_lem drop_tail_contract 5 1001 2 loaded_link (omega arith) loaded_link-IsLoaded

wait_time_lem_example : Returns (Link.wait_time drop_tail 1003 link) (λ r.
    (r.0 ≡ u32 (due r.1 - 1003))
    × (1003 < due r.1)
    × IsValid drop_tail_contract r.1
    × Kept (flow drop_tail_contract r.1) (flow drop_tail_contract link)
    × (r.1.schedule ≡ link.schedule))
wait_time_lem_example = wait_time_lem drop_tail_contract 1003 link link-IsValid (omega arith)

write_packets-Written_example :
    Returns
      (RateDelay.write_packets drop_tail (λ n. 1003) queues)
      (λ x. Written drop_tail_contract queues x.0 x.1)
write_packets-Written_example =
    write_packets-Written drop_tail_contract (λ n. 1003) queues queues-IsReady (λ n. omega arith)

abbrev delay : DelayQueue
delay = record {
  delay_ms = 2;
  packet_queue =
      record { release = 1002; contents = 7 ∷ [] }
      ∷ record { release = 1004; contents = 8 ∷ [] }
      ∷ [];
}

-- One packet is due at 1003.
write_packets-Released_example :
    Released
      (λ n. 1003)
      delay.packet_queue
      (Delay.write_packets (λ n. 1003) delay).0
      (Delay.write_packets (λ n. 1003) delay).1.packet_queue
write_packets-Released_example = write_packets-Released (λ n. 1003) delay

-- Each descriptor has something to read.
abbrev all_ready : ℕ → List PollFd → PollReturn
all_ready timeout fds = ready (λ i. record {
  pollin = true;
  pollout = false;
  pollerr = false;
  pollhup = false;
  pollnval = false;
})

abbrev none_ready : ℕ → List PollFd → PollReturn
none_ready timeout fds = timed_out

-- The clock shows the same time for a whole round.
abbrev round_at : ℕ → (ℕ → List PollFd → PollReturn) → Round
round_at time os_poll = record { time = time; time' = time; os_poll = os_poll; clock = λ n. time }

abbrev rounds : List Round
rounds = round_at 1000 all_ready ∷ round_at 1003 none_ready ∷ round_at 1006 none_ready ∷ []

-- A packet comes from the tun device, one from the other side, and SIGCONT.
abbrev ferry : Ferry Dropping
ferry = record {
  queues = queues;
  tun = record { fd = record { num = 3; eof = false }; arriving = (7 ∷ 8 ∷ []) ∷ []; written = [] };
  sibling_fd = record {
    fd = record { num = 4; eof = false };
    arriving = (5 ∷ []) ∷ [];
    written = [];
  };
  signal_fd = record { num = 5; eof = false };
  signals = record { signo = 18; pid = 0; kill = λ pid sig. true; waitid = λ pid. none } ∷ [];
  child_processes = [];
  sent = [];
  stops = 0;
  clock = λ n. 1000;
}

Meets-packet_ferry_example :
    Meets
      (packet_ferry drop_tail rounds (ferry_poller ferry) ferry)
      (λ r. IsCarrying drop_tail_contract ((7 ∷ 8 ∷ []) ∷ []) ((5 ∷ []) ∷ []) (1 ∷ 5 ∷ []) r.2)
Meets-packet_ferry_example =
    Meets-packet_ferry drop_tail_contract rounds ferry queues-IsReady refl refl (omega arith, tt)
      (omega arith) (omega arith)
      (
        record { waiting = omega arith; writing = λ n. omega arith },
        (
          record { waiting = omega arith; writing = λ n. omega arith },
          (record { waiting = omega arith; writing = λ n. omega arith }, tt),
        ),
      )
