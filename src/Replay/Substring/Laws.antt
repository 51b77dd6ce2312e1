-- ===== src/Replay/Substring/Laws.antt =====
-- replayserver.cc, longest_substr: its rows hold the runs of agreeing bytes, and it returns the
-- size of a longest common substring.
use mpshell_ext.Prelude.{
  ℕ, zero, suc, true, ◌||◌, is_nil, ◌+◌, ◌^◌, ◌≤◌, ◌<◌, ◌≡◌, refl, sym, ◌∙◌, inl, inr, List, [],
  ◌∷◌, arith, length, get_or, Bool-cases, ltb, get_elem?-none, get_elem?-eq-get_or,
}
use mpshell_ext.Prelude.Result.{Returns, Returns->>=}
use mpshell_ext.Words.{u32}
use mpshell_ext.Packet.{Bytes}
use mpshell_ext.Replay.Substring.{assign_at, fill_row, fill_rows, zeros, longest_substr}
use mpshell_ext.Replay.Substring.Runs.{StandsIn, run, run-StandsIn, length-run, StandsIn-within}
use mpshell_ext.Replay.Substring.Rows.{
  IsAssigned, assign_at_lem, IsRow, IsRow-zeros, cell_lem, IsRow-assigned,
}
use mpshell_ext.Replay.Substring.Largest.{
  IsBest, IsBest-start, IsBest-next, IsBest-row_done, run_under,
}

-- `n` is the size of a string that stands in both, and none is longer.
pub record IsLongest (x y : Bytes) (n : ℕ) : Type 0 where
  pub part : Bytes
  pub in_x : StandsIn part x
  pub in_y : StandsIn part y
  pub size : length part ≡ n
  pub bound : (other : Bytes) → StandsIn other x → StandsIn other y → length other ≤ n

module _ (x y : Bytes) (small : length x < 2 ^ 31) (few : length y < 2 ^ 32) where
  abbrev IsFilled : ℕ → List ℕ × ℕ → Type 0
  IsFilled i r = IsRow x y (suc i) (length y) r.0 × IsBest x y (suc i) 0 r.1

  fill_row_lem :
      (fuel i j : ℕ) (prev curr : List ℕ) (m : ℕ)
      → length y < fuel + j
      → i < length x
      → j ≤ length y
      → IsRow x y i (length y) prev
      → IsRow x y (suc i) j curr
      → IsBest x y i j m
      → Returns (fill_row fuel i j (get_or x i 0) y prev curr m) (IsFilled i)
  unfolding fill_row
  fill_row_lem zero i j prev curr m enough h k r c b = absurd (omega arith)
  fill_row_lem (suc fuel) i j prev curr m enough h k r c b = elim (Bool-cases (ltb j (length y))) [
    | inr e ↦
        let over : length y ≤ j = ground (arith, e) in
        rw (get_elem?-none y j over, fill_row)
          (
            (curr, m),
            refl,
            (
              record { size = c.size; cells = λ k l. c.cells k (omega (arith, over)) },
              IsBest-row_done x y i j m over b,
            ),
          )
    | inl e ↦
        let inside : j < length y = ground (arith, e) in
        let value = run x y (suc i) (suc j) in
        let next : u32 (j + 1) ≡ suc j = omega (arith, inside, few) in
        rw (get_elem?-eq-get_or y j 0 inside, fill_row)
          (rw (cell_lem x y small i j prev h inside r, next)
            (Returns->>= (IsAssigned curr j value) (IsFilled i) (assign_at curr j value) _
              (assign_at_lem curr j value (omega (arith, c.size, inside)))
              (λ row a.
                fill_row_lem fuel i (suc j) prev row _ (omega (arith, enough)) h inside r
                  (IsRow-assigned x y small (suc i) j value c a refl)
                  (IsBest-next x y small i j m h inside b))))
  ]

  fill_rows_lem :
      (fuel i : ℕ) (prev curr : List ℕ) (m : ℕ)
      → length x < fuel + i
      → i ≤ length x
      → IsRow x y i (length y) prev
      → length curr ≡ length y
      → IsBest x y i 0 m
      → Returns (fill_rows fuel i x y prev curr m) (IsBest x y (length x) 0)
  unfolding fill_rows
  fill_rows_lem zero i prev curr m enough h r l b = absurd (omega arith)
  fill_rows_lem (suc fuel) i prev curr m enough h r l b = elim (Bool-cases (ltb i (length x))) [
    | inr e ↦
        let over : length x ≤ i = ground (arith, e) in
        rw (get_elem?-none x i over, fill_rows)
          (
            m,
            refl,
            record {
              above = λ p q g. b.above p q (inl (omega (arith, over, g)));
              p = b.p;
              q = b.q;
              in_x = b.in_x;
              in_y = b.in_y;
              attained = b.attained;
            },
          )
    | inl e ↦
        let inside : i < length x = ground (arith, e) in
        let next : u32 (i + 1) ≡ suc i = omega (arith, inside, small) in
        rw (get_elem?-eq-get_or x i 0 inside, fill_rows)
          (rw next (
            Returns->>= (IsFilled i) (IsBest x y (length x) 0)
              (fill_row (suc (length y)) i 0 (get_or x i 0) y prev curr m) _
              (fill_row_lem (suc (length y)) i 0 prev curr m (omega arith) inside (omega arith) r
                (record { size = l; cells = λ k g. absurd (omega arith) }) b)
              (λ f filled.
                fill_rows_lem fuel (suc i) f.0 prev f.1 (omega (arith, enough)) inside filled.0
                  r.size filled.1)))
  ]

  IsLongest-of_best : (m : ℕ) → IsBest x y (length x) 0 m → IsLongest x y m
  IsLongest-of_best m b =
      let (part, s, t, size) = run-StandsIn x y b.p b.q b.in_x b.in_y in
      record {
        part = part;
        in_x = s;
        in_y = t;
        size = size ∙ sym b.attained;
        bound = λ other u v. omega (
          arith,
          length-run u v,
          run_under x y m b (length u.before + length other) (length v.before + length other)
              (StandsIn-within u) (StandsIn-within v),
        );
      }

IsLongest-nil : (x y : Bytes) → is_nil x || is_nil y ≡ true → IsLongest x y 0
IsLongest-nil x y h = record {
  part = [];
  in_x = record { before = []; after = x; stands = refl };
  in_y = record { before = []; after = y; stands = refl };
  size = refl;
  bound = λ other u v. short x y h other _ _ (StandsIn-within u) (StandsIn-within v);
}
  where
    short :
        (x y : Bytes)
        → is_nil x || is_nil y ≡ true
        → (other : Bytes) (i j : ℕ) → i + length other ≤ length x
        → j + length other ≤ length y
        → length other ≤ 0
    short [] y h other i j l k = omega arith
    short (c ∷ cs) [] h other i j l k = omega arith
    short (c ∷ cs) (d ∷ ds) h other i j l k = absurd (cc)

-- For a string of less than 2 ^ 31 bytes and one of less than 2 ^ 32, longest_substr returns, and
-- its value is the size of a string that stands in both, and of the longest such strings.
pub longest_substr-IsLongest :
    (x y : Bytes)
    → length x < 2 ^ 31
    → length y < 2 ^ 32
    → Returns (longest_substr x y) (IsLongest x y)
unfolding longest_substr
longest_substr-IsLongest x y small few = elim (Bool-cases (is_nil x || is_nil y)) [
  | inl e ↦ rw e (0, refl, IsLongest-nil x y e)
  | inr e ↦
      let (m, returned, best) =
        fill_rows_lem x y small few (suc (length x)) 0 (zeros y) (zeros y) 0 (omega arith)
          (omega arith) (IsRow-zeros x y) ((IsRow-zeros x y).size) (IsBest-start x y) in
      rw e (m, returned, IsLongest-of_best x y small few m best)
]
