-- ===== src/Link/Clock.antt =====
-- link_queue.cc: lemmas on the delivery times of a link, by its trace.
use mpshell_ext.Prelude.{
  ℕ, zero, suc, ◌+◌, ◌-◌, ◌*◌, ◌%◌, ◌^◌, ◌≤◌, ◌<◌, ◌≡◌, refl, List, [], ◌∷◌, true, false, arith,
  length, get_or, get_elem?-eq-get_or, if◌then◌else◌, ◌⊎◌, inl, inr,
}
use native.Mathlib.Nat.{mod-eq_of_lt, mod_self}
use mpshell_ext.Prelude.Result.{ok}
use mpshell_ext.Words.{u32, max64}
use mpshell_ext.Link.{LinkQueue, next_delivery_time, advance}
use mpshell_ext.Link.Trace.{back}

-- The times of a trace do not fall.
abbrev pub Rising : List ℕ → Type 0
Rising [] = Unit
Rising (t ∷ []) = Unit
Rising (t ∷ u ∷ ts) = (t ≤ u) × Rising (u ∷ ts)

head-le-back : (t : ℕ) (ts : List ℕ) → Rising (t ∷ ts) → t ≤ back (t ∷ ts)
head-le-back t [] r = omega arith
head-le-back t (u ∷ ts) r = omega (arith, head-le-back u ts r.1)

pub get_or-le-back : (ts : List ℕ) (i : ℕ) → Rising ts → i < length ts → get_or ts i 0 ≤ back ts
get_or-le-back [] i r h = absurd (omega arith)
get_or-le-back (t ∷ []) zero r h = omega arith
get_or-le-back (t ∷ []) (suc i) r h = absurd (omega arith)
get_or-le-back (t ∷ u ∷ ts) zero r h = omega (arith, head-le-back t (u ∷ ts) r)
get_or-le-back (t ∷ u ∷ ts) (suc i) r h = get_or-le-back (u ∷ ts) i r.1 (omega arith)

-- The last entry is that of the last index, and an entry is at most the next one.
pub get_or-last : (ts : List ℕ) (i : ℕ) → suc i ≡ length ts → get_or ts i 0 ≡ back ts
get_or-last [] i h = absurd (omega arith)
get_or-last (t ∷ []) zero h = refl
get_or-last (t ∷ []) (suc i) h = absurd (omega arith)
get_or-last (t ∷ u ∷ ts) zero h = absurd (omega arith)
get_or-last (t ∷ u ∷ ts) (suc i) h = get_or-last (u ∷ ts) i (omega arith)

pub get_or-Rising :
    (ts : List ℕ) (i : ℕ) → Rising ts → suc i < length ts → get_or ts i 0 ≤ get_or ts (suc i) 0
get_or-Rising [] i r h = absurd (omega arith)
get_or-Rising (t ∷ []) i r h = absurd (omega arith)
get_or-Rising (t ∷ u ∷ ts) zero r h = r.0
get_or-Rising (t ∷ u ∷ ts) (suc i) r h = get_or-Rising (u ∷ ts) i r.1 (omega arith)

pub next_index : (n len : ℕ) → suc n < len → len < 2 ^ 32 → u32 (n + 1) % len ≡ suc n
next_index n len h k = let e : u32 (n + 1) ≡ suc n = omega arith in rw e (mod-eq_of_lt h)

pub wrapped_index : (n len : ℕ) → suc n ≡ len → len < 2 ^ 32 → u32 (n + 1) % len ≡ 0
wrapped_index n len h k = let e : u32 (n + 1) ≡ len = omega arith in rw e (mod_self len)

mul-step : (x y len : ℕ) → x < y → x * len + len ≤ y * len
mul-step x y len h = grind arith

-- `b` to `b'` is one time through the trace at least.
pub shorter :
    (now b b' len n : ℕ)
    → b < b'
    → b' ≤ now
    → n < len
    → (now + 1 - b') * len + (len - 0) < (now + 1 - b) * len + (len - n)
shorter now b b' len n h k i =
    omega (arith, mul-step (now + 1 - b') (now + 1 - b) len (omega arith))

module _ {Q : Type 0} where
  -- The time of the next delivery, with no wrap.
  abbrev pub due : LinkQueue Q → ℕ
  due l = if l.finished then max64 else get_or l.schedule l.next_delivery 0 + l.base_timestamp

  pub record IsClocked (l : LinkQueue Q) : Type 0 where
    pub in_range : l.next_delivery < length l.schedule
    pub few : length l.schedule < 2 ^ 32
    pub rising : Rising l.schedule
    pub lasting : 0 < back l.schedule
    pub no_wrap : l.base_timestamp + back l.schedule < 2 ^ 64

  pub next_delivery_time_lem : (l : LinkQueue Q) → IsClocked l → next_delivery_time l ≡ ok (due l)
  unfolding next_delivery_time
  next_delivery_time_lem l v = ground (
    arith,
    get_elem?-eq-get_or l.schedule l.next_delivery 0 v.in_range,
    get_or-le-back l.schedule l.next_delivery v.rising v.in_range,
  )

  -- A bound on the deliveries up to `now`.
  abbrev pub rounds : ℕ → LinkQueue Q → ℕ
  rounds now l =
      if l.finished
      then 0
      else (now + 1 - l.base_timestamp) * length l.schedule + (length l.schedule - l.next_delivery)

  module _ (now : ℕ) (l : LinkQueue Q) (v : IsClocked l) (passed : due l ≤ now)
      (in_time : now + back l.schedule < 2 ^ 64) where
    -- The next entry of the trace, or the first one again, or the end.
    pub advance-cases :
        ((suc l.next_delivery < length l.schedule)
          × (advance l ≡ record l { next_delivery = suc l.next_delivery }))
        ⊎ ((suc l.next_delivery ≡ length l.schedule)
            × (l.repeats ≡ true)
            × (advance l ≡ record l {
              next_delivery = 0;
              base_timestamp = l.base_timestamp + back l.schedule;
            }))
        ⊎ ((suc l.next_delivery ≡ length l.schedule)
            × (l.repeats ≡ false)
            × (advance l ≡ record l { next_delivery = 0; finished = true }))
    unfolding advance
    advance-cases = ground (
      arith,
      next_index l.next_delivery (length l.schedule),
      wrapped_index l.next_delivery (length l.schedule),
      v.in_range,
      v.few,
      v.no_wrap,
    )

    pub unfinished : l.finished ≡ false
    unfinished = ground (arith, v.lasting)

    last_passed : suc l.next_delivery ≡ length l.schedule → l.base_timestamp + back l.schedule ≤ now
    last_passed e = ground (arith, unfinished, get_or-last l.schedule l.next_delivery e)

    -- The link keeps to its trace.
    pub advance-IsClocked : IsClocked (advance l)
    advance-IsClocked = elim advance-cases [
      | inl c ↦ rw c.1 (record {
        in_range = c.0;
        few = v.few;
        rising = v.rising;
        lasting = v.lasting;
        no_wrap = v.no_wrap;
      })
      | inr (inl c) ↦ rw c.2 (record {
        in_range = omega (arith, v.in_range);
        few = v.few;
        rising = v.rising;
        lasting = v.lasting;
        no_wrap = omega (arith, last_passed c.0);
      })
      | inr (inr c) ↦ rw c.2 (record {
        in_range = omega (arith, v.in_range);
        few = v.few;
        rising = v.rising;
        lasting = v.lasting;
        no_wrap = v.no_wrap;
      })
    ]

    -- The next delivery is not before the last one.
    pub due-advance : due l ≤ due (advance l)
    due-advance = elim advance-cases [
      | inl c ↦
          rw (c.1, unfinished)
            (omega (arith, get_or-Rising l.schedule l.next_delivery v.rising c.0))
      | inr (inl c) ↦
          rw (c.2, unfinished) (omega (arith, get_or-last l.schedule l.next_delivery c.0))
      | inr (inr c) ↦ rw c.2 (omega (arith, passed, v.lasting))
    ]

    pub rounds-advance : rounds now (advance l) < rounds now l
    rounds-advance = elim advance-cases [
      | inl c ↦ rw (c.1, unfinished) (omega arith)
      | inr (inl c) ↦
          rw (c.2, unfinished)
            (shorter now l.base_timestamp (l.base_timestamp + back l.schedule) (length l.schedule)
              l.next_delivery (omega arith) (last_passed c.0) v.in_range)
      | inr (inr c) ↦ rw (c.2, unfinished) (omega (arith, v.in_range))
    ]
