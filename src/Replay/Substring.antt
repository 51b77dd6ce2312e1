-- ===== src/Replay/Substring.antt =====
-- replayserver.cc, longest_substr: the loops over a row of `int`s for each byte of `str1`.
pub mod Runs
pub mod Rows
pub mod Largest
pub mod Laws
use mpshell_ext.Prelude.{
  ℕ, zero, suc, ◌+◌, ◌-◌, ◌^◌, Bool, ◌||◌, List, [], ◌∷◌, map, ltb, ◌==◌, if◌then◌else◌, is_nil,
  length, get_elem?, none, some,
}
use mpshell_ext.Prelude.Result.{Result, ok, err, out_of_range, out_of_fuel, ◌>>=◌, ◌>>◌}
use mpshell_ext.Words.{u32}
use mpshell_ext.Packet.{Bytes}

-- v.at( i ), read and assigned.
unfoldable pub at : List ℕ → ℕ → Result ℕ
at [] i = err out_of_range
at (x ∷ xs) zero = ok x
at (x ∷ xs) (suc i) = at xs i

unfoldable pub assign_at : List ℕ → ℕ → ℕ → Result (List ℕ)
assign_at [] i value = err out_of_range
assign_at (x ∷ xs) zero value = ok (value ∷ xs)
assign_at (x ∷ xs) (suc i) value = do rest ← assign_at xs i value; ok (x ∷ rest)

-- `a < b` for the patterns of two `int`s.
abbrev pub int_less : ℕ → ℕ → Bool
int_less a b = ltb (u32 (a + 2 ^ 31)) (u32 (b + 2 ^ 31))

-- What is put in `curr.at( j )`.
unfoldable pub cell : ℕ → ℕ → ℕ → ℕ → List ℕ → Result ℕ
cell i j c d prev =
    if c == d
    then (if i == 0 || j == 0 then ok 1 else (do before ← at prev (j - 1); ok (u32 (1 + before))))
    else ok 0

-- `if ( maxSubstr < curr.at( j ) )`, which is done for equal bytes only.
abbrev pub larger : ℕ → ℕ → ℕ → ℕ → ℕ
larger c d max_substr value =
    if c == d then (if int_less max_substr value then value else max_substr) else max_substr

-- The inner loop, from index `j` of `str2` on, which is an `unsigned int`: the row and the largest
-- value. Its test is `j < str2.size()`.
unfoldable pub fill_row : ℕ → ℕ → ℕ → ℕ → Bytes → List ℕ → List ℕ → ℕ → Result (List ℕ × ℕ)
fill_row zero i j c str2 prev curr max_substr = err out_of_fuel
fill_row (suc fuel) i j c str2 prev curr max_substr = elim (get_elem? str2 j) [
  | none ↦ ok (curr, max_substr)
  | some d ↦ do
    value ← cell i j c d prev
    row ← assign_at curr j value
    fill_row fuel i (u32 (j + 1)) c str2 prev row (larger c d max_substr value)
]

-- The outer loop, from index `i` of `str1` on. The rows are swapped after each round.
unfoldable pub fill_rows : ℕ → ℕ → Bytes → Bytes → List ℕ → List ℕ → ℕ → Result ℕ
fill_rows zero i str1 str2 prev curr max_substr = err out_of_fuel
fill_rows (suc fuel) i str1 str2 prev curr max_substr = elim (get_elem? str1 i) [
  | none ↦ ok max_substr
  | some c ↦ do
    filled ← fill_row (suc (length str2)) i 0 c str2 prev curr max_substr
    fill_rows fuel (u32 (i + 1)) str1 str2 filled.0 prev filled.1
]

abbrev pub zeros : Bytes → List ℕ
zeros str = map (λ c. 0) str

-- Each loop has a round for each byte and one for its last test.
-- return size of longest substring match between two strings
unfoldable pub longest_substr : Bytes → Bytes → Result ℕ
longest_substr str1 str2 =
    if is_nil str1 || is_nil str2
    then ok 0
    else fill_rows (suc (length str1)) 0 str1 str2 (zeros str2) (zeros str2) 0
