-- ===== src/Replay/Closest.antt =====
-- replayserver.cc, closest_match: the first of the exchanges with the largest value.
use mpshell_ext.Prelude.{
  ℕ, zero, suc, ◌≤◌, ◌<◌, ◌^◌, ◌≡◌, refl, ap, inl, inr, List, [], ◌∷◌, arith, length, get_or, All,
  Bool-cases, lt-or-eq, drop, drop-next, nothing_behind, subst,
}
use mpshell_ext.Prelude.Result.{Returns, Returns->>=}
use mpshell_ext.Packet.{Bytes}
use mpshell_ext.Replay.{
  Environment, Exchange, request_line, longest_strs, max_from, max_element, closest_match,
}
use mpshell_ext.Replay.Substring.{longest_substr, int_less}
use mpshell_ext.Replay.Substring.Runs.{StandsIn-within}
use mpshell_ext.Replay.Substring.Laws.{IsLongest, longest_substr-IsLongest}

-- `best` is the first index of the largest of the first `upto` values.
pub record IsFirst (vs : List ℕ) (upto best : ℕ) : Type 0 where
  pub inside : best < upto
  pub largest : (k : ℕ) → k < upto → get_or vs k 0 ≤ get_or vs best 0
  pub first : (k : ℕ) → k < best → get_or vs k 0 < get_or vs best 0

IsFirst-kept :
    (vs : List ℕ) (i best : ℕ)
    → get_or vs i 0 ≤ get_or vs best 0
    → IsFirst vs i best
    → IsFirst vs (suc i) best
IsFirst-kept vs i best h f = record {
  inside = omega (arith, f.inside);
  largest = largest_next;
  first = f.first;
}
  where
    largest_next : (k : ℕ) → k < suc i → get_or vs k 0 ≤ get_or vs best 0
    largest_next k l = elim (lt-or-eq k i l) [ inl g ↦ f.largest k g | inr e ↦ rw e h ]

IsFirst-larger :
    (vs : List ℕ) (i best : ℕ)
    → get_or vs best 0 < get_or vs i 0
    → IsFirst vs i best
    → IsFirst vs (suc i) i
IsFirst-larger vs i best h f = record {
  inside = omega arith;
  largest = largest_next;
  first = λ k l. omega (arith, f.largest k l);
}
  where
    largest_next : (k : ℕ) → k < suc i → get_or vs k 0 ≤ get_or vs i 0
    largest_next k l = elim (lt-or-eq k i l) [
      | inl g ↦ omega (arith, f.largest k g)
      | inr e ↦ rw e (omega arith)
    ]

max_from_lem :
    (vs rest : List ℕ) (i best : ℕ)
    → ((k : ℕ) → get_or vs k 0 < 2 ^ 31)
    → rest ≡ drop i vs
    → IsFirst vs i best
    → i ≤ length vs
    → IsFirst vs (length vs) (max_from i best (get_or vs best 0) rest)
unfolding max_from
max_from_lem vs [] i best small e f l =
    subst (λ n. IsFirst vs n best) (omega (arith, nothing_behind i vs e)) f
max_from_lem vs (c ∷ cs) i best small e f l =
    let next = drop-next vs i 0 c cs e in
    rw next.1 (elim (Bool-cases (int_less (get_or vs best 0) (get_or vs i 0))) [
      | inl g ↦ rw g (
          max_from_lem vs cs (suc i) i small next.2
            (IsFirst-larger vs i best (ground (arith, small best, small i)) f)
            (omega (arith, next.0)))
      | inr g ↦ rw g (
          max_from_lem vs cs (suc i) best small next.2
            (IsFirst-kept vs i best (ground (arith, small best, small i)) f)
            (omega (arith, next.0)))
    ])

max_element_lem :
    (vs : List ℕ)
    → ((k : ℕ) → get_or vs k 0 < 2 ^ 31)
    → 0 < length vs
    → IsFirst vs (length vs) (max_element vs)
unfolding max_element
max_element_lem [] small h = absurd (omega arith)
max_element_lem (v ∷ vs) small h =
    max_from_lem (v ∷ vs) vs 1 0 small refl
      (record {
        inside = omega arith;
        largest = λ k l. ap_or k l;
        first = λ k l. absurd (omega arith);
      })
      (omega arith)
  where
    ap_or : (k : ℕ) → k < 1 → get_or (v ∷ vs) k 0 ≤ v
    ap_or zero l = omega arith
    ap_or (suc k) l = absurd (omega arith)

-- The values are the sizes of longest common substrings of `req` and the first lines.
abbrev pub Scored : Bytes → List Exchange → List ℕ → Type 0
Scored req [] [] = Unit
Scored req [] (v ∷ vs) = ⊥
Scored req (r ∷ rs) [] = ⊥
Scored req (r ∷ rs) (v ∷ vs) = IsLongest req r.req.first_line v × Scored req rs vs

-- The request line that was saved is shorter than 2 ^ 32 bytes.
abbrev pub IsShort : Exchange → Type 0
IsShort r = length r.req.first_line < 2 ^ 32

longest_strs-Scored :
    (req : Bytes) (rs : List Exchange)
    → length req < 2 ^ 31
    → All IsShort rs
    → Returns (longest_strs req rs) (Scored req rs)
unfolding longest_strs
longest_strs-Scored req [] h short = ([], refl, tt)
longest_strs-Scored req (r ∷ rs) h short =
    Returns->>= (IsLongest req r.req.first_line) (Scored req (r ∷ rs))
      (longest_substr req r.req.first_line) _
      (longest_substr-IsLongest req r.req.first_line h short.0)
      (λ v longest.
        Returns->>= (Scored req rs) (Scored req (r ∷ rs)) (longest_strs req rs) _
          (longest_strs-Scored req rs h short.1) (λ vs scored. (v ∷ vs, refl, (longest, scored))))

length-Scored :
    (req : Bytes) (rs : List Exchange) (vs : List ℕ) → Scored req rs vs → length vs ≡ length rs
length-Scored req [] [] s = refl
length-Scored req [] (v ∷ vs) s = absurd s
length-Scored req (r ∷ rs) [] s = absurd s
length-Scored req (r ∷ rs) (v ∷ vs) s = ap suc (length-Scored req rs vs s.1)

Scored-small :
    (req : Bytes) (rs : List Exchange) (vs : List ℕ)
    → length req < 2 ^ 31
    → Scored req rs vs
    → (k : ℕ) → get_or vs k 0 < 2 ^ 31
Scored-small req [] [] h s k = omega arith
Scored-small req [] (v ∷ vs) h s k = absurd s
Scored-small req (r ∷ rs) [] h s k = absurd s
Scored-small req (r ∷ rs) (v ∷ vs) h s zero = omega (arith, s.0.size, StandsIn-within s.0.in_x)
Scored-small req (r ∷ rs) (v ∷ vs) h s (suc k) = Scored-small req rs vs h s.1 k

-- The index is that of the first exchange whose line shares the longest substring.
pub IsClosest : Bytes → List Exchange → ℕ → Type 0
IsClosest req possible index = (vs : List ℕ) × Scored req possible vs × IsFirst vs (length vs) index

pub closest_match-IsClosest :
    (env : Environment) (possible : List Exchange)
    → length (request_line env) < 2 ^ 31
    → All IsShort possible
    → 0 < length possible
    → Returns (closest_match env possible) (IsClosest (request_line env) possible)
unfolding closest_match IsClosest
closest_match-IsClosest env possible h short k =
    let req = request_line env in
    Returns->>= (Scored req possible) (IsClosest req possible) (longest_strs req possible) _
      (longest_strs-Scored req possible h short)
      (λ vs s. (
        max_element vs,
        refl,
        (
          vs,
          s,
          max_element_lem vs (Scored-small req possible vs h s)
              (omega (arith, length-Scored req possible vs s)),
        ),
      ))

pub IsClosest-inside :
    (req : Bytes) (possible : List Exchange) (index : ℕ)
    → IsClosest req possible index
    → index < length possible
unfolding IsClosest
IsClosest-inside req possible index (vs, s, f) =
    omega (arith, length-Scored req possible vs s, f.inside)
