-- ===== src/CellQueue/Clock.antt =====
-- cell_queue.cc: the times of the deliveries.
use mpshell_ext.Prelude.{
  ℕ, suc, ◌+◌, ◌-◌, ◌*◌, ◌^◌, ◌≤◌, ◌<◌, ◌≡◌, refl, ◌⊎◌, inl, inr, arith, length, get_or,
  get_elem?-eq-get_or, All,
}
use mpshell_ext.Prelude.Result.{ok}
use mpshell_ext.Link.Trace.{back}
use mpshell_ext.Link.Clock.{Rising, get_or-le-back, get_or-last, next_index, wrapped_index, shorter}
use mpshell_ext.CellQueue.{CellQueue, next_delivery_time, use_a_delivery_opportunity}
use mpshell_ext.CellQueue.Delivery.{IsSmall}

-- The time of the next delivery, with no wrap.
abbrev pub due : CellQueue → ℕ
due q = get_or q.schedule q.next_delivery 0 + q.base_timestamp

pub record IsClocked (q : CellQueue) : Type 0 where
  pub in_range : q.next_delivery < length q.schedule
  pub few : length q.schedule < 2 ^ 32
  pub rising : Rising q.schedule
  pub lasting : 0 < back q.schedule
  pub no_wrap : q.base_timestamp + back q.schedule < 2 ^ 64
  pub small : All IsSmall q.packet_queue

pub next_delivery_time_lem : (q : CellQueue) → IsClocked q → next_delivery_time q ≡ ok (due q)
unfolding next_delivery_time
next_delivery_time_lem q v = ground (
  arith,
  get_elem?-eq-get_or q.schedule q.next_delivery 0 v.in_range,
  get_or-le-back q.schedule q.next_delivery v.rising v.in_range,
)

abbrev pub rounds : ℕ → CellQueue → ℕ
rounds now q =
    (now + 1 - q.base_timestamp) * length q.schedule + (length q.schedule - q.next_delivery)

module _ (now : ℕ) (q : CellQueue) (v : IsClocked q) (passed : due q ≤ now)
    (in_time : now + back q.schedule < 2 ^ 64) where
  use-cases :
      ((suc q.next_delivery < length q.schedule)
        × (use_a_delivery_opportunity q ≡ record q { next_delivery = suc q.next_delivery }))
      ⊎ ((suc q.next_delivery ≡ length q.schedule)
          × (use_a_delivery_opportunity q ≡ record q {
            next_delivery = 0;
            base_timestamp = q.base_timestamp + back q.schedule;
          }))
  unfolding use_a_delivery_opportunity
  use-cases = ground (
    arith,
    next_index q.next_delivery (length q.schedule),
    wrapped_index q.next_delivery (length q.schedule),
    v.in_range,
    v.few,
    v.no_wrap,
  )

  last_passed : suc q.next_delivery ≡ length q.schedule → q.base_timestamp + back q.schedule ≤ now
  last_passed e = omega (arith, get_or-last q.schedule q.next_delivery e, passed)

  pub use-IsClocked : IsClocked (use_a_delivery_opportunity q)
  use-IsClocked = elim use-cases [
    | inl c ↦ rw c.1 (record {
      in_range = c.0;
      few = v.few;
      rising = v.rising;
      lasting = v.lasting;
      no_wrap = v.no_wrap;
      small = v.small;
    })
    | inr c ↦ rw c.1 (record {
      in_range = omega (arith, v.in_range);
      few = v.few;
      rising = v.rising;
      lasting = v.lasting;
      no_wrap = omega (arith, last_passed c.0);
      small = v.small;
    })
  ]

  pub rounds-use : rounds now (use_a_delivery_opportunity q) < rounds now q
  rounds-use = elim use-cases [
    | inl c ↦ rw c.1 (omega (arith, c.0))
    | inr c ↦ rw c.1 (
        shorter now q.base_timestamp (q.base_timestamp + back q.schedule) (length q.schedule)
          q.next_delivery (omega (arith, v.lasting)) (last_passed c.0) v.in_range)
  ]

  pub schedule-use : (use_a_delivery_opportunity q).schedule ≡ q.schedule
  unfolding use_a_delivery_opportunity
  schedule-use = refl

  queue-use : (use_a_delivery_opportunity q).packet_queue ≡ q.packet_queue
  unfolding use_a_delivery_opportunity
  queue-use = refl
