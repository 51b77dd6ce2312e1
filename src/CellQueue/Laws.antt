-- ===== src/CellQueue/Laws.antt =====
-- cell_queue.cc: theorems on write_packets.
use mpshell_ext.Prelude.{
  ℕ, zero, suc, ◌+◌, ◌-◌, ◌*◌, ◌^◌, ◌≤◌, ◌<◌, ◌≡◌, refl, sym, ap, subst, ◌∙◌, inl, inr, List, [],
  ◌++◌, arith, leb, leb→le, le→leb, length, get_elem?-eq-get_or, All, Bool-cases,
}
use mpshell_ext.Prelude.Result.{ok, err, out_of_fuel, Returns, Returns->>=}
use mpshell_ext.Packet.{Bytes}
use mpshell_ext.Link.Trace.{back}
use mpshell_ext.Link.Clock.{Rising, get_or-le-back, next_index, wrapped_index}
use mpshell_ext.CellQueue.{
  CellPacket, CellQueue, packet_size, next_delivery_time, use_a_delivery_opportunity, deliver,
  deliver_once, write_loop, fuel_for, write_packets,
}
use mpshell_ext.CellQueue.Delivery.{IsSmall, contents_of, IsInOrder, deliver_lem}
use mpshell_ext.CellQueue.Clock.{
  due, IsClocked, next_delivery_time_lem, rounds, use-IsClocked, rounds-use, schedule-use,
}

-- One opportunity: the clock goes on, and packets are sent in order.
record IsOnce (q : CellQueue) (written : List Bytes) (r : CellQueue × List Bytes) : Type 0 where
  order : r.1 ++ contents_of r.0.packet_queue ≡ written ++ contents_of q.packet_queue
  small : All IsSmall r.0.packet_queue
  clock : r.0 ≡ record (use_a_delivery_opportunity q) { packet_queue = r.0.packet_queue }

deliver_once-IsOnce :
    (q : CellQueue) (written : List Bytes)
    → All IsSmall q.packet_queue
    → Returns (deliver_once q written) (IsOnce q written)
unfolding deliver_once
deliver_once-IsOnce q written s =
    Returns->>= (IsInOrder q.packet_queue written) (IsOnce q written)
      (deliver (length q.packet_queue + 2) packet_size q.packet_queue written) _
      (deliver_lem (length q.packet_queue + 2) packet_size q.packet_queue written (omega arith) s
        (omega arith))
      (λ r o. (
        (record (use_a_delivery_opportunity q) { packet_queue = r.0 }, r.1),
        refl,
        record { order = o.order; small = o.small; clock = refl },
      ))

-- The same clock with other packets.
IsClocked-packets :
    (q : CellQueue) (packets : List CellPacket)
    → IsClocked q
    → All IsSmall packets
    → IsClocked (record q { packet_queue = packets })
IsClocked-packets q packets v s = record {
  in_range = v.in_range;
  few = v.few;
  rising = v.rising;
  lasting = v.lasting;
  no_wrap = v.no_wrap;
  small = s;
}

-- What write_packets leaves at `now`.
pub record IsWritten (now : ℕ) (q : CellQueue) (written : List Bytes) (r : CellQueue × List Bytes)
    : Type 0 where
  pub order : r.1 ++ contents_of r.0.packet_queue ≡ written ++ contents_of q.packet_queue
  pub clocked : IsClocked r.0
  pub schedule : r.0.schedule ≡ q.schedule
  pub later : now < due r.0

write_loop-IsWritten :
    (fuel now : ℕ) (q : CellQueue) (written : List Bytes)
    → IsClocked q
    → now + back q.schedule < 2 ^ 64
    → rounds now q < fuel
    → Returns (write_loop fuel now q written) (IsWritten now q written)
unfolding write_loop
write_loop-IsWritten zero now q written v t h = absurd (omega arith)
write_loop-IsWritten (suc fuel) now q written v t h = elim (Bool-cases (leb (due q) now)) [
  | inr e ↦
      simp (next_delivery_time_lem q v, e)
        (
          (q, written),
          refl,
          record { order = refl; clocked = v; schedule = refl; later = ground arith },
        )
  | inl e ↦
      let passed = leb→le (due q) now e in
      let used = use_a_delivery_opportunity q in
      simp (next_delivery_time_lem q v, e)
        (Returns->>= (IsOnce q written) (IsWritten now q written) (deliver_once q written) _
          (deliver_once-IsOnce q written v.small)
          (λ r o.
            let clocked =
              IsClocked-packets used r.0.packet_queue (use-IsClocked now q v passed t) o.small in
            let schedule_kept = ap (λ x. x.schedule) o.clock ∙ schedule-use now q v passed t in
            let (x, returned, w) =
              write_loop-IsWritten fuel now r.0 r.1 (subst IsClocked (sym o.clock) clocked)
                (omega (arith, ap back schedule_kept, t))
                (omega (arith, ap (rounds now) o.clock, rounds-use now q v passed t, h)) in
            (
              x,
              returned,
              record {
                order = w.order ∙ o.order;
                clocked = w.clocked;
                schedule = w.schedule ∙ schedule_kept;
                later = w.later;
              },
            )))
]

-- At a time no nearer to the end of 64 bits than the length of the schedule, write_packets of a queue
-- whose schedule ends later than 0 returns: what is written and then what is left are the packets in
-- their order, and the next delivery is later than that time.
pub write_packets-IsWritten :
    (now : ℕ) (q : CellQueue)
    → IsClocked q
    → now + back q.schedule < 2 ^ 64
    → Returns (write_packets now q) (IsWritten now q [])
unfolding write_packets
write_packets-IsWritten now q v t = write_loop-IsWritten (fuel_for now q) now q [] v t (
    omega
      (arith, fuel_enough (now + 1 - q.base_timestamp) (now + 1) (length q.schedule) (omega arith)))
  where
    fuel_enough : (a b len : ℕ) → a ≤ b → a * len + len ≤ suc b * len
    fuel_enough a b len h = grind arith

-- All the times of the schedule are 0, which the constructor lets pass; it has fewer than 2 ^ 32
-- entries, of which one is next, `now` is not before the base timestamp, and the sizes of the packets
-- fit in an int.
pub record IsStuck (now : ℕ) (q : CellQueue) : Type 0 where
  pub in_range : q.next_delivery < length q.schedule
  pub few : length q.schedule < 2 ^ 32
  pub rising : Rising q.schedule
  pub no_time : back q.schedule ≡ 0
  pub started : q.base_timestamp ≤ now
  pub in_time : now < 2 ^ 64
  pub small : All IsSmall q.packet_queue

due-stuck : (now : ℕ) (q : CellQueue) → IsStuck now q → next_delivery_time q ≡ ok q.base_timestamp
unfolding next_delivery_time
due-stuck now q v = ground (
  arith,
  get_elem?-eq-get_or q.schedule q.next_delivery 0 v.in_range,
  get_or-le-back q.schedule q.next_delivery v.rising v.in_range,
  v.no_time,
  v.started,
  v.in_time,
)

IsStuck-use :
    (now : ℕ) (q : CellQueue) (packets : List CellPacket)
    → IsStuck now q
    → All IsSmall packets
    → IsStuck now (record (use_a_delivery_opportunity q) { packet_queue = packets })
unfolding use_a_delivery_opportunity
IsStuck-use now q packets v s = record {
  in_range = ground (
    arith,
    next_index q.next_delivery (length q.schedule),
    wrapped_index q.next_delivery (length q.schedule),
    v.in_range,
    v.few,
  );
  few = v.few;
  rising = v.rising;
  no_time = v.no_time;
  started = ground (arith, v.no_time, v.started, v.in_time);
  in_time = v.in_time;
  small = s;
}

-- If all the times of a schedule of 1 to 2 ^ 32 - 1 entries are 0, one of them is next, the base
-- timestamp is not after the time of the call and the packets have less than 2 ^ 31 bytes each, the
-- loop of write_packets does not end: no number of rounds is enough.
pub write_loop-stuck :
    (fuel now : ℕ) (q : CellQueue) (written : List Bytes)
    → IsStuck now q
    → write_loop fuel now q written ≡ err out_of_fuel
unfolding write_loop
write_loop-stuck zero now q written v = refl
write_loop-stuck (suc fuel) now q written v =
    let (r, returned, o) = deliver_once-IsOnce q written v.small in
    let stuck = IsStuck-use now q r.0.packet_queue v o.small in
    simp (due-stuck now q v, le→leb q.base_timestamp now v.started, returned)
      (write_loop-stuck fuel now r.0 r.1 (subst (IsStuck now) (sym o.clock) stuck))
