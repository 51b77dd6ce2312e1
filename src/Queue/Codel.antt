-- ===== src/Queue/Codel.antt =====
-- codel_packet_queue.hh and .cc: packets are dropped at `dequeue`, when the head has waited too
-- long. `control_delta interval count` stands for `(uint64_t)( interval / sqrt( count ) )`, whose
-- value in floating point is left open.
pub mod Dodequeue
pub mod Loop
pub mod Laws
use mpshell_ext.Prelude.{
  ℕ, zero, suc, ◌+◌, ◌*◌, ◌≡◌, Bool, true, false, ◌&&◌, ◌||◌, not, Option, none, some, ltb, leb,
  ◌==◌, if◌then◌else◌, length,
}
use mpshell_ext.Prelude.Result.{
  Result, ok, err, out_of_fuel, runtime_error, out_of_range, ◌>>=◌, ◌>>◌, require,
}
use mpshell_ext.Prelude.Stream.{Stream, now, later}
use mpshell_ext.Words.{u32, u64, sub32, sub64}
use mpshell_ext.Packet.{QueuedPacket}
use mpshell_ext.Queue.{PacketQueue}
use mpshell_ext.Queue.Dropping.{Dropping, Args, accept_if_good}
use mpshell_ext.Queue.Dropping

abbrev pub packet_size : ℕ
packet_size = 1504

-- `clock` holds the readings of `timestamp()` to come.
pub record Codel : Type 0 where
  pub base : Dropping
  pub open base use *
  pub target : ℕ
  pub interval : ℕ
  pub first_above_time : ℕ
  pub drop_next : ℕ
  pub count : ℕ
  pub lastcount : ℕ
  pub dropping : Bool
  pub clock : Stream

unfoldable pub init : Args → ℕ → ℕ → Stream → Result Codel
init args target interval clock = do
  base ← Dropping.init args
  require (not (u32 target == 0 || u32 interval == 0)) runtime_error
  ok (record {
    base = base;
    target = u32 target;
    interval = u32 interval;
    first_above_time = 0;
    drop_next = 0;
    count = 0;
    lastcount = 0;
    dropping = false;
    clock = clock;
  })

-- `dodequeue_result`
pub record Dequeued : Type 0 where
  pub p : QueuedPacket
  pub ok_to_drop : Bool

-- What is decided of a packet that is not the last: it waited below the target or little is queued;
-- or it is the first above it; or it is so for an interval at least, and may be dropped.
unfoldable pub judge : ℕ → QueuedPacket → Codel → Result (Dequeued × Codel)
judge time p c =
    let sojourn_time = sub64 time p.arrival_time in
    do
      below ←
          if ltb sojourn_time c.target
          then ok true
          else (do b ← Dropping.size_bytes c.base; ok (leb b packet_size))
      if below
          then ok (record { p = p; ok_to_drop = false }, record c { first_above_time = 0 })
          else if c.first_above_time == 0
          then ok (
            record { p = p; ok_to_drop = false },
            record c { first_above_time = u64 (time + c.interval) },
          )
          else ok (record { p = p; ok_to_drop = leb c.first_above_time time }, c)

unfoldable pub dodequeue : ℕ → Codel → Result (Dequeued × Codel)
dodequeue time c = do
  r ← Dropping.dequeue c.base
  if Dropping.empty r.1
      then ok
          (record { p = r.0; ok_to_drop = false }, record c { base = r.1; first_above_time = 0 })
      else judge time r.0 (record c { base = r.1 })

unfoldable pub enqueue : QueuedPacket → Codel → Result Codel
enqueue p c = do base ← accept_if_good p c.base; ok (record c { base = base })

-- `if ( !r.ok_to_drop ) { dropping_ = false; }`
unfoldable pub settle : Dequeued → Codel → Codel
settle r c = if r.ok_to_drop then c else record c { dropping = false }

module _ (control_delta : ℕ → ℕ → ℕ) where
  unfoldable pub control_law : ℕ → ℕ → ℕ → ℕ
  control_law interval t count = u64 (t + control_delta interval count)

  -- The end of a round of the dropping loop. The `r` of the round hides that of the function.
  unfoldable pub after_drop : Dequeued → Codel → Codel
  unfolding control_law
  after_drop r c =
      if r.ok_to_drop
      then record c {
        count = u32 (c.count + 1);
        drop_next = control_law c.interval c.drop_next (u32 (c.count + 1));
      }
      else record c { count = u32 (c.count + 1); dropping = false }

  -- `while ( now >= drop_next_ && dropping_ )`
  unfoldable pub drop_loop : ℕ → ℕ → Codel → Result Codel
  unfolding after_drop
  drop_loop zero time c = err out_of_fuel
  drop_loop (suc fuel) time c = elim (leb c.drop_next time && c.dropping) [
    | true ↦ do r ← dodequeue time c; drop_loop fuel time (after_drop r.0 r.1)
    | false ↦ ok c
  ]

  -- The state once a first packet has been dropped.
  unfoldable pub started : ℕ → Codel → Codel
  unfolding control_law
  started time c =
      let delta = sub32 c.count c.lastcount in
      let recent = ltb 1 delta && ltb (sub64 time c.drop_next) (u32 (16 * c.interval)) in
      let count = if recent then delta else 1 in
      record c {
        dropping = true;
        count = count;
        drop_next = control_law c.interval time count;
        lastcount = count;
      }

  -- The first drop after a time with none.
  unfoldable pub start_dropping : ℕ → Codel → Result Codel
  unfolding started
  start_dropping time c = do r ← dodequeue time c; ok (started time r.1)

  -- One round of the loop for each packet, and one for the last test.
  unfoldable pub act : ℕ → Dequeued → Codel → Result Codel
  act time r c =
      if c.dropping
      then drop_loop (suc (length c.base.internal_queue)) time (settle r c)
      else if r.ok_to_drop
      then start_dropping time c
      else ok c

  -- The packet that is returned is the first one taken.
  unfoldable pub dequeue : Codel → Result (QueuedPacket × Codel)
  dequeue c = do
    r ← dodequeue (now c.clock) (record c { clock = later c.clock })
    c' ← act (now c.clock) r.0 r.1
    ok (r.0.p, c')

  abbrev pub codel : PacketQueue
  codel = record {
    State = Codel;
    enqueue = enqueue;
    dequeue = dequeue;
    empty = λ c. Dropping.empty c.base;
    size_bytes = λ c. Dropping.size_bytes c.base;
    size_packets = λ c. Dropping.size_packets c.base;
    can_accept_one = λ n c. Dropping.can_accept_one n c.base;
  }
