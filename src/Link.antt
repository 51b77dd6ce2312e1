-- ===== src/Link.antt =====
-- link_queue.hh and .cc: a link that delivers `PACKET_SIZE` bytes at each time of its trace, and
-- holds what waits in a packet queue. The definitions of the link are here, those of its trace in
-- `Trace`, and the theorems in the other modules below.
pub mod Trace
pub mod Clock
pub mod Flow
pub mod Load
pub mod Send
pub mod Delivery
pub mod Opportunities
pub mod Rationalize
pub mod Enqueue
pub mod Drain
pub mod Arrival
pub mod Start
use mpshell_ext.Prelude.{
  ℕ, zero, suc, ◌+◌, ◌-◌, ◌*◌, ◌%◌, ◌<◌, ◌≤◌, min, Bool, true, false, ◌||◌, List, [], ◌∷◌, ◌++◌,
  Option, none, some, ltb, leb, ◌==◌, if◌then◌else◌, length, get_elem?, is_nil, not,
}
use mpshell_ext.Prelude.Result.{
  Result, ok, err, runtime_error, exception, out_of_range, out_of_fuel, ◌>>=◌, ◌>>◌, assert,
  require,
}
use mpshell_ext.Words.{u32, u64, sub32, sub64, max64}
use mpshell_ext.Packet.{Bytes, QueuedPacket, size}
use mpshell_ext.Queue.{PacketQueue}
use Trace.{back, load_schedule}

abbrev pub packet_size : ℕ
packet_size = 1504

-- The lines of the log file after its header.
pub data LogLine : Type 0 where
  -- time, bytes
  arrival : ℕ → ℕ → LogLine
  -- time, packets, bytes
  dropped : ℕ → ℕ → ℕ → LogLine
  -- time, bytes
  opportunity : ℕ → ℕ → LogLine
  -- time, bytes, delay
  departure : ℕ → ℕ → ℕ → LogLine

-- A line is written if a log file is.
unfoldable pub logged : LogLine → Option (List LogLine) → Option (List LogLine)
logged line none = none
logged line (some lines) = some (lines ++ line ∷ [])

-- The log file, if one is called for: whether it can be opened.
abbrev pub log_opens : Option Bool → Bool
log_opens none = true
log_opens (some good) = good

abbrev pub is_logged : Option Bool → Bool
is_logged none = false
is_logged (some good) = true

-- `Q` is the state of the packet queue. `log` is `none` if no log file is written.
pub record LinkQueue (Q : Type 0) : Type 0 where
  pub next_delivery : ℕ
  pub schedule : List ℕ
  pub base_timestamp : ℕ
  pub packet_queue : Q
  pub packet_in_transit : QueuedPacket
  pub packet_in_transit_bytes_left : ℕ
  pub output_queue : List Bytes
  pub log : Option (List LogLine)
  pub repeats : Bool
  pub finished : Bool

module _ {Q : Type 0} where
  abbrev pub fresh : List ℕ → ℕ → Bool → Bool → Q → LinkQueue Q
  fresh schedule base_timestamp logs repeats q = record {
    next_delivery = 0;
    schedule = schedule;
    base_timestamp = base_timestamp;
    packet_queue = q;
    packet_in_transit = record { arrival_time = 0; contents = [] };
    packet_in_transit_bytes_left = 0;
    output_queue = [];
    log = if logs then some [] else none;
    repeats = repeats;
    finished = false;
  }

  -- The constructor, at the time `base_timestamp`, and whether the process is root; `file` is `none`
  -- if the trace cannot be opened.
  unfoldable pub init : Bool → Option Bytes → ℕ → Option Bool → Bool → Q → Result (LinkQueue Q)
  init root none base_timestamp log_file repeats q = do
    require (not root) exception
    err runtime_error
  init root (some file) base_timestamp log_file repeats q = do
    require (not root) exception
    schedule ← load_schedule file
    require (log_opens log_file) runtime_error
    ok (fresh schedule base_timestamp (is_logged log_file) repeats q)

  unfoldable pub record_line : LogLine → LinkQueue Q → LinkQueue Q
  unfolding logged
  record_line line l = record l { log = logged line l.log }

  unfoldable pub record_arrival : ℕ → ℕ → LinkQueue Q → LinkQueue Q
  unfolding record_line
  record_arrival arrival_time pkt_size l = record_line (arrival arrival_time pkt_size) l

  unfoldable pub record_drop : ℕ → ℕ → ℕ → LinkQueue Q → LinkQueue Q
  unfolding record_line
  record_drop time pkts_dropped bytes_dropped l =
      record_line (dropped time pkts_dropped bytes_dropped) l

  unfoldable pub record_departure : ℕ → QueuedPacket → LinkQueue Q → LinkQueue Q
  unfolding record_line
  record_departure departure_time packet l =
      record_line
        (departure departure_time (size packet) (sub64 departure_time packet.arrival_time)) l

  -- `schedule_.at( next_delivery_ )` throws out of range.
  unfoldable pub next_delivery_time : LinkQueue Q → Result ℕ
  next_delivery_time l =
      if l.finished then ok max64 else elim (get_elem? l.schedule l.next_delivery) [
        | none ↦ err out_of_range
        | some t ↦ ok (u64 (t + l.base_timestamp))
      ]

  unfoldable pub record_departure_opportunity : LinkQueue Q → Result (LinkQueue Q)
  unfolding next_delivery_time record_line
  record_departure_opportunity l = elim l.log [
    | none ↦ ok l
    | some lines ↦ do t ← next_delivery_time l; ok (record_line (opportunity t packet_size) l)
  ]

  -- The index goes on by one, and the trace starts again, or the link is finished, at its end.
  unfoldable pub advance : LinkQueue Q → LinkQueue Q
  advance l =
      let next = u32 (l.next_delivery + 1) % length l.schedule in
      if next == 0
      then (if l.repeats
          then record l {
            next_delivery = next;
            base_timestamp = u64 (l.base_timestamp + back l.schedule);
          }
          else record l { next_delivery = next; finished = true })
      else record l { next_delivery = next }

  unfoldable pub use_a_delivery_opportunity : LinkQueue Q → Result (LinkQueue Q)
  use_a_delivery_opportunity l = do l' ← record_departure_opportunity l; ok (advance l')

  -- The bytes go out, and the packet too when none of it is left.
  unfoldable pub send : ℕ → ℕ → LinkQueue Q → LinkQueue Q
  unfolding record_departure
  send time amount_to_send l =
      let left = l.packet_in_transit_bytes_left - amount_to_send in
      let l' = record l { packet_in_transit_bytes_left = left } in
      if left == 0
      then (let l'' = record_departure time l.packet_in_transit l' in
          record l'' { output_queue = l''.output_queue ++ l.packet_in_transit.contents ∷ [] })
      else l'

  -- The assertions about the packet in transit, before some of it is sent.
  unfoldable pub check_transit : ℕ → LinkQueue Q → Result (Unit {0})
  check_transit time l = do
    assert (leb l.packet_in_transit.arrival_time time)
    assert (leb l.packet_in_transit_bytes_left packet_size)
    assert (ltb 0 l.packet_in_transit_bytes_left)
    assert (leb l.packet_in_transit_bytes_left (size l.packet_in_transit))

  unfoldable pub write_packets : LinkQueue Q → List Bytes × LinkQueue Q
  write_packets l = (l.output_queue, record l { output_queue = [] })

  unfoldable pending_output : LinkQueue Q → Bool
  pending_output l = not (is_nil l.output_queue)

  -- One round for each entry of the trace in each millisecond up to `now`, at most.
  abbrev pub fuel_for : ℕ → LinkQueue Q → ℕ
  fuel_for now l = suc (suc (now + 1) * length l.schedule)

module _ (pq : PacketQueue) where
  -- A packet is in transit: the one that was, or the next of the queue; `none` is the `break`.
  unfoldable pub load_transit : LinkQueue pq.State → Result (Option (LinkQueue pq.State))
  load_transit l =
      if l.packet_in_transit_bytes_left == 0
      then (if pq.empty l.packet_queue then ok none else do
        r ← pq.dequeue l.packet_queue
        ok (
            some (record l {
              packet_queue = r.1;
              packet_in_transit = r.0;
              packet_in_transit_bytes_left = u32 (size r.0);
            })))
      else ok (some l)

  -- `while ( bytes_left_in_this_delivery > 0 )`
  unfoldable pub deliver : ℕ → ℕ → ℕ → LinkQueue pq.State → Result (LinkQueue pq.State)
  deliver zero time bytes_left l = err out_of_fuel
  deliver (suc fuel) time bytes_left l = elim (bytes_left == 0) [
    | true ↦ ok l
    | false ↦ do
      o ← load_transit l
      elim o [
        | none ↦ ok l
        | some l' ↦ do
          check_transit time l'
          deliver fuel time (bytes_left - min bytes_left l'.packet_in_transit_bytes_left)
              (send time (min bytes_left l'.packet_in_transit_bytes_left) l')
      ]
  ]

  -- `while ( next_delivery_time() <= now )`. A delivery takes `packet_size` rounds at most.
  unfoldable pub rationalize_loop : ℕ → ℕ → LinkQueue pq.State → Result (LinkQueue pq.State)
  rationalize_loop zero now l = err out_of_fuel
  rationalize_loop (suc fuel) now l = do
    time ← next_delivery_time l
    elim (leb time now) [
      | false ↦ ok l
      | true ↦ do
        l' ← use_a_delivery_opportunity l
        l'' ← deliver (suc packet_size) time packet_size l'
        rationalize_loop fuel now l''
    ]

  unfoldable pub rationalize : ℕ → LinkQueue pq.State → Result (LinkQueue pq.State)
  rationalize now l = rationalize_loop (fuel_for now l) now l

  -- The packet is given to the queue, and what the queue holds less than before with it is logged.
  unfoldable pub enqueue_packet : ℕ → Bytes → LinkQueue pq.State → Result (LinkQueue pq.State)
  enqueue_packet now contents l = do
    bytes_before ← pq.size_bytes l.packet_queue
    packets_before ← pq.size_packets l.packet_queue
    q ← pq.enqueue (record { arrival_time = now; contents = contents }) l.packet_queue
    packets ← pq.size_packets q
    bytes ← pq.size_bytes q
    assert (leb packets (u32 (packets_before + 1)))
    assert (leb bytes (bytes_before + length contents))
    let missing_packets = sub32 (u32 (packets_before + 1)) packets
    let missing_bytes = u32 (bytes_before + length contents - bytes)
    let l' = record l { packet_queue = q }
    ok (
        if ltb 0 missing_packets || ltb 0 missing_bytes
        then record_drop now missing_packets missing_bytes l'
        else l')

  unfoldable pub read_packet : ℕ → Bytes → LinkQueue pq.State → Result (LinkQueue pq.State)
  read_packet now contents l = do
    require (leb (length contents) packet_size) runtime_error
    l' ← rationalize now l
    enqueue_packet now contents (record_arrival now (length contents) l')

  -- The difference is returned as an `unsigned int`.
  unfoldable pub wait_time : ℕ → LinkQueue pq.State → Result (ℕ × LinkQueue pq.State)
  wait_time now l = do
    l' ← rationalize now l
    t ← next_delivery_time l'
    ok (if leb t now then 0 else u32 (t - now), l')

  unfoldable can_accept_one : ℕ → LinkQueue pq.State → Result Bool
  can_accept_one pkt_size l = pq.can_accept_one pkt_size l.packet_queue
