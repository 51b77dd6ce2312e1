-- ===== src/Link/Opportunities.antt =====
-- link_queue.cc: the delivery opportunities of a link, and what using one changes.
use mpshell_ext.Prelude.{
  ℕ, zero, suc, ◌+◌, ◌-◌, ◌*◌, ◌≤◌, ◌<◌, ◌≡◌, refl, true, false, arith, length, leb,
}
use mpshell_ext.Prelude.Result.{ok, Returns}
use mpshell_ext.Link.{
  LinkQueue, packet_size, logged, opportunity, record_line, record_departure_opportunity, advance,
  use_a_delivery_opportunity, fuel_for,
}
use mpshell_ext.Link.Clock.{due, IsClocked, next_delivery_time_lem, rounds}
use mpshell_ext.Link.Flow.{SameClock}

mul_mono : (a b n : ℕ) → a ≤ b → a * n ≤ b * n
mul_mono a b n h = grind arith

module _ {Q : Type 0} where
  -- The delivery opportunities up to `now`, by the trace alone.
  unfoldable pub opportunities_in : ℕ → ℕ → LinkQueue Q → ℕ
  opportunities_in zero now l = 0
  opportunities_in (suc fuel) now l = elim (leb (due l) now) [
    | true ↦ suc (opportunities_in fuel now (advance l))
    | false ↦ 0
  ]

  unfoldable pub opportunities : ℕ → LinkQueue Q → ℕ
  opportunities now l = opportunities_in (fuel_for now l) now l

  pub rounds-lt-fuel_for : (now : ℕ) (l : LinkQueue Q) → rounds now l < fuel_for now l
  rounds-lt-fuel_for now l =
      ground (arith, mul_mono (now + 1 - l.base_timestamp) (now + 1) (length l.schedule))

  -- The clock of a link that has used an opportunity is advanced, and the rest is as it was.
  pub record Advanced (l l' : LinkQueue Q) : Type 0 where
    pub clock : SameClock (advance l) l'
    pub packet_queue : l'.packet_queue ≡ l.packet_queue
    pub packet_in_transit : l'.packet_in_transit ≡ l.packet_in_transit
    pub bytes_left : l'.packet_in_transit_bytes_left ≡ l.packet_in_transit_bytes_left
    pub output_queue : l'.output_queue ≡ l.output_queue

  abbrev with_line : LinkQueue Q → LinkQueue Q
  with_line l = record l { log = logged (opportunity (due l) packet_size) l.log }

  record_departure_opportunity_lem :
      (l : LinkQueue Q) → IsClocked l → record_departure_opportunity l ≡ ok (with_line l)
  unfolding record_departure_opportunity record_line
  record_departure_opportunity_lem l v = ground (arith, next_delivery_time_lem l v)

  advance-Advanced : (l : LinkQueue Q) → Advanced l (advance (with_line l))
  unfolding advance
  advance-Advanced l = ground arith

  pub use-Advanced :
      (l : LinkQueue Q) → IsClocked l → Returns (use_a_delivery_opportunity l) (Advanced l)
  use-Advanced l v = (
    advance (with_line l),
    unfold use_a_delivery_opportunity in rw (record_departure_opportunity_lem l v),
    advance-Advanced l,
  )

  module _ {l l' : LinkQueue Q} (s : SameClock l l') where
    pub IsClocked-SameClock : IsClocked l → IsClocked l'
    IsClocked-SameClock v = record {
      in_range = rw (s.next_delivery, s.schedule) v.in_range;
      few = rw s.schedule v.few;
      rising = rw s.schedule v.rising;
      lasting = rw s.schedule v.lasting;
      no_wrap = rw (s.schedule, s.base_timestamp) v.no_wrap;
    }

    pub due-SameClock : due l' ≡ due l
    due-SameClock = rw (s.finished, s.schedule, s.next_delivery, s.base_timestamp)

    pub rounds-SameClock : (now : ℕ) → rounds now l' ≡ rounds now l
    rounds-SameClock now = rw (s.finished, s.schedule, s.next_delivery, s.base_timestamp)

    pub SameClock-advance : SameClock (advance l) (advance l')
    unfolding advance
    SameClock-advance = ground arith

  pub opportunities_in-SameClock :
      (fuel now : ℕ) {l l' : LinkQueue Q}
      → SameClock l l'
      → opportunities_in fuel now l' ≡ opportunities_in fuel now l
  unfolding opportunities_in
  opportunities_in-SameClock zero now s = refl
  opportunities_in-SameClock (suc fuel) now {l} {l'} s =
      ground (arith, due-SameClock s, opportunities_in-SameClock fuel now (SameClock-advance s))
