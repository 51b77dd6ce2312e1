-- ===== src/Ferry.antt =====
-- ferry.cc: the loop between a tun device and the process on the other side of the link. The queues
-- are a delay queue and a link; what reading a descriptor will return is kept as a list.
pub mod Callbacks
pub mod Loop
use mpshell_ext.Prelude.{ℕ, Bool, true, ◌||◌, List, [], ◌∷◌, ◌++◌, Option, none, some, is_nil}
use mpshell_ext.Prelude.Result.{Result, ok, err, exception, ◌>>=◌}
use mpshell_ext.Prelude.Stream.{Stream, now, later}
use mpshell_ext.Packet.{Bytes}
use mpshell_ext.Queue.{PacketQueue}
use mpshell_ext.Poller
use mpshell_ext.Poller.{
  FileDescriptor, PollFd, PollReturn, Action, ActionResult, continue_, direction_in, Poller, exited,
}
use mpshell_ext.ChildProcess.{ChildProcess, SigInfo, Sent, handle_signal}
use mpshell_ext.RateDelay
use mpshell_ext.RateDelay.{RateDelayQueue}

-- A descriptor, what read() will return until it fails, and what has been written.
pub record Device : Type 0 where
  pub fd : FileDescriptor
  pub arriving : List Bytes
  pub written : List Bytes

-- A signal that is read, and what the system calls made for it return.
pub record Signal : Type 0 where
  pub signo : ℕ
  pub pid : ℕ
  pub kill : ℕ → ℕ → Bool
  pub waitid : ℕ → Option SigInfo

-- What packet_ferry is given and what it makes. `clock` has the readings for packets that arrive.
pub record Ferry (Q : Type 0) : Type 0 where
  pub queues : RateDelayQueue Q
  pub tun : Device
  pub sibling_fd : Device
  pub signal_fd : FileDescriptor
  pub signals : List Signal
  pub child_processes : List ChildProcess
  pub sent : Sent
  pub stops : ℕ
  pub clock : Stream

unfoldable pub read : Device → Result (Bytes × Device)
read d = elim d.arriving [
  | [] ↦ err exception
  | buffer ∷ rest ↦
      ok
        (buffer, record d { fd = record d.fd { eof = is_nil buffer || d.fd.eof }; arriving = rest })
]

unfoldable pub write : List Bytes → Device → Device
write buffers d = record d { written = d.written ++ buffers }

unfoldable pub read_signal : List Signal → Result (Signal × List Signal)
read_signal [] = err exception
read_signal (s ∷ signals) = ok (s, signals)

module _ {Q : Type 0} where
  -- tun device gets datagram -> read it -> give to ferry
  unfoldable pub from_tun : Ferry Q → Result (ActionResult × Ferry Q)
  from_tun w = do
    r ← read w.tun
    ok (
      continue_,
      record w {
        tun = r.1;
        queues = RateDelay.read_packet (now w.clock) r.0 w.queues;
        clock = later w.clock;
      },
    )

  -- we get datagram from sibling process -> write it to tun device
  unfoldable pub from_sibling : Ferry Q → Result (ActionResult × Ferry Q)
  from_sibling w = do
    r ← read w.sibling_fd
    ok (continue_, record w { sibling_fd = r.1; tun = write (r.0 ∷ []) w.tun })

  -- we get signal -> main screen turn on -> handle signal
  unfoldable pub on_signal : Ferry Q → Result (ActionResult × Ferry Q)
  on_signal w = do
    r ← read_signal w.signals
    h ← handle_signal r.0.kill r.0.waitid r.0.signo r.0.pid w.child_processes w.sent w.stops
    ok (
      h.result,
      record w { signals = r.1; child_processes = h.children; sent = h.sent; stops = h.stops },
    )

  abbrev pub input :
      (Ferry Q → FileDescriptor) → (Ferry Q → Result (ActionResult × Ferry Q)) → Action (Ferry Q)
  input fd callback = record {
    fd = fd;
    direction = direction_in;
    callback = callback;
    when_interested = λ w. true;
    active = true;
  }

  -- The poller with the three actions, where there is no DNS proxy.
  unfoldable pub ferry_poller : Ferry Q → Poller (Ferry Q)
  ferry_poller w = Poller.add_action (input (λ v. v.signal_fd) on_signal) w (
      Poller.add_action (input (λ v. v.sibling_fd.fd) from_sibling) w
        (Poller.add_action (input (λ v. v.tun.fd) from_tun) w Poller.empty))

-- What one round reads: the clock in wait_time, poll with a timeout, and the clock in
-- write_packets.
pub record Round : Type 0 where
  pub time : ℕ
  pub time' : ℕ
  pub os_poll : ℕ → List PollFd → PollReturn
  pub clock : Stream

module _ (pq : PacketQueue) where
  -- packets FROM tail of ferry go to sibling
  unfoldable pub write_packets : Stream → Ferry pq.State → Result (Ferry pq.State)
  write_packets clock w = do
    out ← RateDelay.write_packets pq clock w.queues
    ok (record w { queues = out.1; sibling_fd = write out.0 w.sibling_fd })

  -- The loop of packet_ferry, for as many rounds as are given, and the exit status if it returns.
  unfoldable pub packet_ferry :
      List Round
      → Poller (Ferry pq.State)
      → Ferry pq.State
      → Result (Option ℕ × Poller (Ferry pq.State) × Ferry pq.State)
  packet_ferry [] p w = ok (none, p, w)
  packet_ferry (round ∷ rounds) p w = do
    waited ← RateDelay.wait_time pq round.time round.time' w.queues
    r ← Poller.poll (round.os_poll waited.0) p (record w { queues = waited.1 })
    elim r.0 [
      | exited status ↦ ok (some status, r.1, r.2)
      | _ ↦ do w' ← write_packets round.clock r.2; packet_ferry rounds r.1 w'
    ]
