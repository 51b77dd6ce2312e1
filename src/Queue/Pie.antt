-- ===== src/Queue/Pie.antt =====
-- pie_packet_queue.hh and .cc: packets are dropped at `enqueue`, with a probability that is computed
-- from the delay. Its arithmetic on `double` is left open: `Doubles` has the operations it uses.
pub mod Update
pub mod Enqueue
pub mod Laws
use mpshell_ext.Prelude.{
  ℕ, zero, suc, ◌+◌, ◌*◌, ◌-◌, ◌/◌, Bool, true, false, ◌&&◌, ◌||◌, not, ltb, leb, ◌==◌,
  if◌then◌else◌, ◌^◌,
}
use mpshell_ext.Prelude.Result.{
  Result, ok, err, out_of_fuel, runtime_error, ◌>>=◌, ◌>>◌, assert, require,
}
use mpshell_ext.Prelude.Stream.{Stream, now, later}
use mpshell_ext.Words.{u32, u64, sub32, sub64, nonnegative}
use mpshell_ext.Packet.{QueuedPacket, size}
use mpshell_ext.Queue.{PacketQueue}
use mpshell_ext.Queue.Dropping.{Dropping, Args, good_with, accept}
use mpshell_ext.Queue.Dropping

-- `literal a b` is the constant a / b, and `of_int` converts an `int` from its pattern.
pub record Doubles : Type 1 where
  pub Double : Type 0
  pub literal : ℕ → ℕ → Double
  pub of_int : ℕ → Double
  pub add : Double → Double → Double
  pub multiply : Double → Double → Double
  pub divide : Double → Double → Double
  pub less : Double → Double → Bool
  pub equal : Double → Double → Bool

abbrev pub packet_size : ℕ
packet_size = 1504

abbrev pub dq_count_invalid : ℕ
dq_count_invalid = 2 ^ 32 - 1

abbrev pub t_update : ℕ
t_update = 30

abbrev pub dq_threshold : ℕ
dq_threshold = 16384

module _ (F : Doubles) where
  -- `clock` has the readings of timestamp() to come, and `draws` what uniform_generator_ will give.
  pub record Pie : Type 0 where
    pub base : Dropping
    pub qdelay_ref : ℕ
    pub max_burst : ℕ
    pub drop_prob : F.Double
    pub burst_allowance : ℕ
    pub qdelay_old : ℕ
    pub current_qdelay : ℕ
    pub dq_count : ℕ
    pub dq_tstamp : ℕ
    pub avg_dq_rate : ℕ
    pub last_update : ℕ
    pub clock : Stream
    pub draws : ℕ → F.Double

  unfoldable pub init : Args → ℕ → ℕ → Stream → (ℕ → F.Double) → Result Pie
  init args qdelay_ref max_burst clock draws = do
    base ← Dropping.init args
    require (not (u32 qdelay_ref == 0 || u32 max_burst == 0)) runtime_error
    ok (record {
      base = base;
      qdelay_ref = u32 qdelay_ref;
      max_burst = u32 max_burst;
      drop_prob = F.literal 0 1;
      burst_allowance = 0;
      qdelay_old = 0;
      current_qdelay = 0;
      dq_count = dq_count_invalid;
      dq_tstamp = 0;
      avg_dq_rate = 0;
      last_update = now clock;
      clock = later clock;
      draws = draws;
    })

  -- The change of the probability, which is smaller while the probability is.
  unfoldable pub change : ℕ → Pie → F.Double
  change current_qdelay q =
      let p =
        F.add (F.multiply (F.literal 125 1000) (F.of_int (sub32 current_qdelay q.qdelay_ref)))
          (F.multiply (F.literal 125 100) (F.of_int (sub32 current_qdelay q.current_qdelay))) in
      if F.less q.drop_prob (F.literal 1 100)
      then F.divide p (F.literal 128 1)
      else if F.less q.drop_prob (F.literal 1 10)
      then F.divide p (F.literal 32 1)
      else F.divide p (F.literal 16 1)

  -- The probability after a change, kept between 0 and 1, and decayed if there is no delay.
  unfoldable pub next_prob : Bool → Bool → F.Double → F.Double
  next_prob update_prob no_delay prob =
      let kept = if no_delay && update_prob then F.multiply prob (F.literal 98 100) else prob in
      let lowest = F.literal 0 1 in
      let decayed =
        if no_delay && update_prob then F.multiply lowest (F.literal 98 100) else lowest in
      if F.less prob (F.literal 0 1)
      then decayed
      else if F.less (F.literal 1 1) prob
      then F.literal 1 1
      else kept

  -- `max( 0, (int) burst_allowance_ - (int) t_update_ )`
  unfoldable pub less_burst : ℕ → ℕ
  less_burst burst_allowance =
      let left = sub32 burst_allowance t_update in if nonnegative left then left else 0

  -- Whether the queue is calm, and a new burst is allowed.
  unfoldable pub calm : Pie → Bool
  calm q =
      F.equal q.drop_prob (F.literal 0 1)
      && (ltb q.current_qdelay (q.qdelay_ref / 2)
          && (ltb q.qdelay_old (q.qdelay_ref / 2) && ltb 0 q.avg_dq_rate))

  unfoldable pub reset_if_calm : Pie → Pie
  reset_if_calm q =
      if calm q
      then record q { dq_count = dq_count_invalid; avg_dq_rate = 0; burst_allowance = q.max_burst }
      else q

  -- One period of t_update_, for the bytes that are queued.
  unfoldable pub period : ℕ → Pie → Pie
  period bytes q =
      let current_qdelay = if ltb 0 q.avg_dq_rate then bytes / q.avg_dq_rate else 0 in
      let update_prob = not (current_qdelay == 0 && not (bytes == 0)) in
      let prob = F.add q.drop_prob (change current_qdelay q) in
      reset_if_calm (record q {
        qdelay_old = q.current_qdelay;
        current_qdelay = current_qdelay;
        drop_prob = next_prob update_prob (current_qdelay == 0 && q.current_qdelay == 0) prob;
        burst_allowance = less_burst q.burst_allowance;
        last_update = u64 (q.last_update + t_update);
      })

  -- `while (now - last_update_ > t_update_)`
  unfoldable pub update_loop : ℕ → ℕ → Pie → Result Pie
  update_loop zero time q = err out_of_fuel
  update_loop (suc fuel) time q =
      if ltb t_update (sub64 time q.last_update)
      then (do bytes ← Dropping.size_bytes q.base; update_loop fuel time (period bytes q))
      else ok q

  -- A round for each period that has passed, and one for the last test.
  unfoldable pub calculate_drop_prob : Pie → Result Pie
  calculate_drop_prob q =
      let time = now q.clock in
      update_loop (suc (sub64 time q.last_update / t_update)) time
        (record q { clock = later q.clock })

  -- returns true if packet should be dropped, and the generator afterwards.
  unfoldable pub drop_early : Pie → Result (Bool × Pie)
  drop_early q =
      if ltb 0 q.burst_allowance
      then ok (false, q)
      else if ltb q.qdelay_old (q.qdelay_ref / 2) && F.less q.drop_prob (F.literal 2 10)
      then ok (false, q)
      else (do
        bytes ← Dropping.size_bytes q.base
        if ltb bytes (2 * packet_size)
            then ok (false, q)
            else ok (F.less (q.draws 0) q.drop_prob, record q { draws = λ n. q.draws (suc n) }))

  -- `if (!drop_early() ) { accept( p ); } assert( good() );`
  unfoldable pub accept_or_drop : QueuedPacket → Pie → Result Pie
  accept_or_drop p q = do
    dropped ← drop_early q
    let base = if dropped.0 then dropped.1.base else accept p dropped.1.base
    g ← Dropping.good base
    assert g
    ok (record dropped.1 { base = base })

  unfoldable pub enqueue : QueuedPacket → Pie → Result Pie
  enqueue p q = do
    q' ← calculate_drop_prob q
    b ← Dropping.size_bytes q'.base
    n ← Dropping.size_packets q'.base
    if good_with q'.base (u32 (b + size p)) (u32 (n + 1)) then accept_or_drop p q' else ok q'

  -- The rate is measured over the bytes that have left since `dq_tstamp`.
  unfoldable pub start_measuring : ℕ → ℕ → Pie → Pie
  start_measuring time bytes q =
      if leb dq_threshold bytes && q.dq_count == dq_count_invalid
      then record q { dq_tstamp = time; dq_count = 0 }
      else q

  abbrev pub next_rate : ℕ → ℕ → ℕ
  next_rate avg_dq_rate rate_sample =
      if avg_dq_rate == 0
      then rate_sample
      else u32 (sub32 avg_dq_rate (avg_dq_rate / 8) + rate_sample / 8)

  abbrev pub after_burst : ℕ → ℕ → ℕ
  after_burst burst_allowance dtime =
      if ltb 0 burst_allowance
      then (if ltb dtime burst_allowance then burst_allowance - dtime else 0)
      else burst_allowance

  -- The end of a measurement that took `dtime`.
  unfoldable pub sampled : ℕ → ℕ → ℕ → Pie → Pie
  sampled time dtime bytes q = record q {
    avg_dq_rate = next_rate q.avg_dq_rate (q.dq_count / dtime);
    dq_count = if ltb bytes dq_threshold then dq_count_invalid else 0;
    dq_tstamp = if ltb bytes dq_threshold then q.dq_tstamp else time;
    burst_allowance = after_burst q.burst_allowance dtime;
  }

  unfoldable pub measure : ℕ → ℕ → ℕ → Pie → Pie
  measure time bytes taken q =
      if q.dq_count == dq_count_invalid
      then q
      else (let counted = record q { dq_count = u32 (q.dq_count + taken) } in
          let dtime = sub32 time q.dq_tstamp in
          if ltb dq_threshold counted.dq_count && ltb 0 dtime
          then sampled time dtime bytes counted
          else counted)

  -- The first reading of the clock is kept in 32 bits.
  unfoldable pub dequeue : Pie → Result (QueuedPacket × Pie)
  dequeue q = do
    r ← Dropping.dequeue q.base
    bytes ← Dropping.size_bytes r.1
    let time = u32 (now q.clock)
    let taken = record q { base = r.1; clock = later q.clock }
    q' ← calculate_drop_prob (measure time bytes (size r.0) (start_measuring time bytes taken))
    ok (r.0, q')

  abbrev pub pie : PacketQueue
  pie = record {
    State = Pie;
    enqueue = enqueue;
    dequeue = dequeue;
    empty = λ q. Dropping.empty q.base;
    size_bytes = λ q. Dropping.size_bytes q.base;
    size_packets = λ q. Dropping.size_packets q.base;
    can_accept_one = λ n q. Dropping.can_accept_one n q.base;
  }
