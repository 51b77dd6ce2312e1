-- ===== src/Queue/Codel/Dodequeue.antt =====
-- codel_packet_queue.cc: lemmas on `dodequeue`.
use mpshell_ext.Prelude.{
  ℕ, ◌+◌, ◌≤◌, ◌<◌, ◌≡◌, List, [], ◌∷◌, arith, length, true, false, ltb, leb, ◌==◌, if◌then◌else◌,
  ◌||◌,
}
use mpshell_ext.Prelude.Result.{ok, Returns}
use mpshell_ext.Words.{sub64, u64}
use mpshell_ext.Packet.{QueuedPacket, total}
use mpshell_ext.Queue.Dropping.{popped}
use mpshell_ext.Queue.Dropping.Laws.{
  IsValid, empty_lem, size_bytes_lem, dequeue_dropping, popped-IsValid,
}
use mpshell_ext.Queue.Codel.{Codel, Dequeued, packet_size, judge, dodequeue}

abbrev pub queue : Codel → List QueuedPacket
queue c = c.base.internal_queue

-- What `dodequeue` may say of the packet `p`, with `rest` behind it, at the time `time`.
pub record Judged (time : ℕ) (p : QueuedPacket) (rest : List QueuedPacket) (c : Codel)
    (r : Dequeued × Codel) : Type 0 where
  pub same_packet : r.0.p ≡ p
  pub base_left : r.1.base ≡ popped p rest c.base
  pub dropping_kept : r.1.dropping ≡ c.dropping
  pub target_kept : r.1.target ≡ c.target
  pub not_last : r.0.ok_to_drop ≡ true → 0 < length rest
  pub much_left : r.0.ok_to_drop ≡ true → packet_size < total rest
  pub waited : r.0.ok_to_drop ≡ true → c.target ≤ sub64 time p.arrival_time

-- What `judge` answers, with the bytes counted from the packets.
abbrev verdict : ℕ → QueuedPacket → List QueuedPacket → Codel → Dequeued × Codel
verdict time p rest c =
    if ltb (sub64 time p.arrival_time) c.target || leb (total rest) packet_size
    then (
      record { p = p; ok_to_drop = false },
      record c { base = popped p rest c.base; first_above_time = 0 },
    )
    else if c.first_above_time == 0
    then (
      record { p = p; ok_to_drop = false },
      record c { base = popped p rest c.base; first_above_time = u64 (time + c.interval) },
    )
    else (
      record { p = p; ok_to_drop = leb c.first_above_time time },
      record c { base = popped p rest c.base },
    )

judge-verdict :
    (time : ℕ) (p : QueuedPacket) (rest : List QueuedPacket) (c : Codel)
    → IsValid (popped p rest c.base)
    → judge time p (record c { base = popped p rest c.base }) ≡ ok (verdict time p rest c)
unfolding judge
judge-verdict time p rest c v = ground (arith, size_bytes_lem v.counted)

verdict-Judged :
    (time : ℕ) (p : QueuedPacket) (rest : List QueuedPacket) (c : Codel)
    → 0 < length rest
    → Judged time p rest c (verdict time p rest c)
verdict-Judged time p rest c h = ground arith

last-Judged :
    (time : ℕ) (p : QueuedPacket) (c : Codel)
    → Judged time p [] c (
      record { p = p; ok_to_drop = false },
      record c { base = popped p [] c.base; first_above_time = 0 },
    )
last-Judged time p c = ground arith

-- `dodequeue` takes the head, and says that it may be dropped only if it has waited for the target
-- at least and others stay.
pub dodequeue-Judged :
    (time : ℕ) (p : QueuedPacket) (rest : List QueuedPacket) (c : Codel)
    → IsValid c.base
    → queue c ≡ p ∷ rest
    → Returns (dodequeue time c) (Judged time p rest c)
unfolding dodequeue
dodequeue-Judged time p [] c v e = (
  _,
  ground (arith, dequeue_dropping p [] v e, empty_lem (popped p [] c.base)),
  last-Judged time p c,
)
dodequeue-Judged time p (q ∷ rest) c v e = (
  verdict time p (q ∷ rest) c,
  ground (
    arith,
    dequeue_dropping p (q ∷ rest) v e,
    empty_lem (popped p (q ∷ rest) c.base),
    judge-verdict time p (q ∷ rest) c (popped-IsValid p (q ∷ rest) v e),
  ),
  verdict-Judged time p (q ∷ rest) c (omega arith),
)
