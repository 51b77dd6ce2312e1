-- ===== src/CellQueue.antt =====
-- cell_queue.hh and .cc: the link of cellshell, without a packet queue of its own. What is written
-- is kept as a list, and the numbers that fscanf reads are an argument.
pub mod Delivery
pub mod Clock
pub mod Laws
use mpshell_ext.Prelude.{
  ℕ, zero, suc, ◌+◌, ◌-◌, ◌*◌, ◌%◌, Bool, true, false, ◌&&◌, ◌||◌, not, List, [], ◌∷◌, ◌++◌, none,
  some, ltb, leb, ◌==◌, if◌then◌else◌, length, is_nil, get_elem?,
}
use mpshell_ext.Prelude.Result.{
  Result, ok, err, exception, out_of_range, out_of_fuel, ◌>>=◌, ◌>>◌, require,
}
use mpshell_ext.Words.{u32, u64, sub32, sub64, nonnegative}
use mpshell_ext.Packet.{Bytes}
use mpshell_ext.Link.Trace.{back}

abbrev pub packet_size : ℕ
packet_size = 1504

-- CellQueue::QueuedPacket, whose `int` is kept as its pattern.
pub record CellPacket : Type 0 where
  pub bytes_to_transmit : ℕ
  pub contents : Bytes

pub record CellQueue : Type 0 where
  pub next_delivery : ℕ
  pub schedule : List ℕ
  pub base_timestamp : ℕ
  pub packet_queue : List CellPacket

-- The times that are read, one after the other, must not fall.
unfoldable pub load_times : List ℕ → List ℕ → Result (List ℕ)
load_times schedule [] = ok schedule
load_times schedule (ms ∷ rest) = do
  require (is_nil schedule || leb (back schedule) ms) exception
  load_times (schedule ++ ms ∷ []) rest

unfoldable pub init : List ℕ → ℕ → Result CellQueue
init times base_timestamp = do
  schedule ← load_times [] times
  require (not (is_nil schedule)) exception
  ok (record {
    next_delivery = 0;
    schedule = schedule;
    base_timestamp = base_timestamp;
    packet_queue = [];
  })

unfoldable pub read_packet : Bytes → CellQueue → CellQueue
read_packet contents q = record q {
  packet_queue =
      q.packet_queue
      ++ record { bytes_to_transmit = u32 (length contents); contents = contents } ∷ [];
}

unfoldable pub next_delivery_time : CellQueue → Result ℕ
next_delivery_time q = elim (get_elem? q.schedule q.next_delivery) [
  | none ↦ err out_of_range
  | some t ↦ ok (u64 (t + q.base_timestamp))
]

unfoldable pub use_a_delivery_opportunity : CellQueue → CellQueue
use_a_delivery_opportunity q =
    let next = u32 (q.next_delivery + 1) % length q.schedule in
    record q {
      next_delivery = next;
      base_timestamp =
          if next == 0 then u64 (q.base_timestamp + back q.schedule) else q.base_timestamp;
    }

-- `x <= 0` for the pattern of an `int`.
abbrev pub not_positive : ℕ → Bool
not_positive x = x == 0 || not (nonnegative x)

-- The loop of one delivery: the bytes that are left of it, the packets and what was written.
unfoldable pub deliver :
    ℕ → ℕ → List CellPacket → List Bytes → Result (List CellPacket × List Bytes)
deliver zero bytes_left packets written = err out_of_fuel
deliver (suc fuel) bytes_left [] written = ok ([], written)
deliver (suc fuel) bytes_left (p ∷ ps) written =
    let left = sub32 p.bytes_to_transmit bytes_left in
    let goes_on = deliver fuel 0 (record p { bytes_to_transmit = left } ∷ ps) written in
    let sent = deliver fuel (sub32 0 left) ps (written ++ p.contents ∷ []) in
    if bytes_left == 0 then ok (p ∷ ps, written) else if not_positive left then sent else goes_on

-- Each round but the last two takes a packet.
unfoldable pub deliver_once : CellQueue → List Bytes → Result (CellQueue × List Bytes)
deliver_once q written = do
  let used = use_a_delivery_opportunity q
  r ← deliver (length q.packet_queue + 2) packet_size q.packet_queue written
  ok (record used { packet_queue = r.0 }, r.1)

-- `while ( next_delivery_time() <= now )`
unfoldable pub write_loop : ℕ → ℕ → CellQueue → List Bytes → Result (CellQueue × List Bytes)
write_loop zero now q written = err out_of_fuel
write_loop (suc fuel) now q written = do
  time ← next_delivery_time q
  if leb time now
      then (do r ← deliver_once q written; write_loop fuel now r.0 r.1)
      else ok (q, written)

-- A round for each entry of the schedule in each millisecond up to `now`, and one for the last test.
abbrev pub fuel_for : ℕ → CellQueue → ℕ
fuel_for now q = suc (suc (now + 1) * length q.schedule)

unfoldable pub write_packets : ℕ → CellQueue → Result (CellQueue × List Bytes)
write_packets now q = write_loop (fuel_for now q) now q []

-- The result is an `int`.
unfoldable pub wait_time : ℕ → CellQueue → Result ℕ
wait_time now q =
    if is_nil q.packet_queue
    then ok 65535
    else (do time ← next_delivery_time q; ok (u32 (sub64 time now)))
