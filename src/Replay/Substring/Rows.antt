-- ===== src/Replay/Substring/Rows.antt =====
-- replayserver.cc, longest_substr: the cells of its rows are the runs of agreeing bytes.
use mpshell_ext.Prelude.{
  lt-or-eq, ℕ, zero, suc, ◌^◌, ◌<◌, ◌≡◌, refl, ap, ◌∙◌, inl, inr, List, [], ◌∷◌, arith, length,
  get_or,
}
use mpshell_ext.Prelude.Result.{ok, Returns, Returns->>=}
use mpshell_ext.Packet.{Bytes}
use mpshell_ext.Replay.Substring.{at, assign_at, cell, zeros}
use mpshell_ext.Replay.Substring.Runs.{run, run-bounded}

at_lem : (v : List ℕ) (i : ℕ) → i < length v → at v i ≡ ok (get_or v i 0)
unfolding at
at_lem [] i h = absurd (omega arith)
at_lem (x ∷ xs) zero h = refl
at_lem (x ∷ xs) (suc i) h = at_lem xs i (omega arith)

-- What an assignment to index `i` leaves.
pub record IsAssigned (v : List ℕ) (i value : ℕ) (w : List ℕ) : Type 0 where
  pub size : length w ≡ length v
  pub there : get_or w i 0 ≡ value
  pub below : (k : ℕ) → k < i → get_or w k 0 ≡ get_or v k 0

IsAssigned-next :
    (x : ℕ) {xs ys : List ℕ} {i value : ℕ}
    → IsAssigned xs i value ys
    → IsAssigned (x ∷ xs) (suc i) value (x ∷ ys)
IsAssigned-next x {xs} {ys} {i} a = record {
  size = ap suc a.size;
  there = a.there;
  below = below_next;
}
  where
    below_next : (k : ℕ) → k < suc i → get_or (x ∷ ys) k 0 ≡ get_or (x ∷ xs) k 0
    below_next zero h = refl
    below_next (suc k) h = a.below k (omega arith)

pub assign_at_lem :
    (v : List ℕ) (i value : ℕ) → i < length v → Returns (assign_at v i value) (IsAssigned v i value)
unfolding assign_at
assign_at_lem [] i value h = absurd (omega arith)
assign_at_lem (x ∷ xs) zero value h =
    (value ∷ xs, refl, record { size = refl; there = refl; below = λ k l. absurd (omega arith) })
assign_at_lem (x ∷ xs) (suc i) value h =
    Returns->>= (IsAssigned xs i value) (IsAssigned (x ∷ xs) (suc i) value) (assign_at xs i value) _
      (assign_at_lem xs i value (omega arith)) (λ ys a. (x ∷ ys, refl, IsAssigned-next x a))

-- The first `upto` entries of a row are the runs that end before index `i` of `x`.
pub record IsRow (x y : Bytes) (i upto : ℕ) (row : List ℕ) : Type 0 where
  pub size : length row ≡ length y
  pub cells : (k : ℕ) → k < upto → get_or row k 0 ≡ run x y i (suc k)

pub IsRow-zeros : (x y : Bytes) → IsRow x y 0 (length y) (zeros y)
unfolding run
IsRow-zeros x y = record { size = size y; cells = λ k h. cells y k }
  where
    size : (str : Bytes) → length (zeros str) ≡ length str
    size [] = refl
    size (c ∷ cs) = ap suc (size cs)

    cells : (str : Bytes) (k : ℕ) → get_or (zeros str) k 0 ≡ 0
    cells [] k = refl
    cells (c ∷ cs) zero = refl
    cells (c ∷ cs) (suc k) = cells cs k

pub run-zero : (x y : Bytes) (i : ℕ) → run x y i 0 ≡ 0
unfolding run
run-zero x y zero = refl
run-zero x y (suc i) = refl

module _ (x y : Bytes) (small : length x < 2 ^ 31) where
  pub cell_lem :
      (i j : ℕ) (prev : List ℕ)
      → i < length x
      → j < length y
      → IsRow x y i (length y) prev
      → cell i j (get_or x i 0) (get_or y j 0) prev ≡ ok (run x y (suc i) (suc j))
  unfolding cell run
  cell_lem i zero prev h k r = ground (arith, run-zero x y i)
  cell_lem i (suc j) prev h k r = ground (
    arith,
    at_lem prev j (omega (arith, r.size)),
    r.cells j (omega arith),
    run-bounded x y i (suc j),
  )

  pub IsRow-assigned :
      (i j value : ℕ) {curr row : List ℕ}
      → IsRow x y i j curr
      → IsAssigned curr j value row
      → value ≡ run x y i (suc j)
      → IsRow x y i (suc j) row
  IsRow-assigned i j value {curr} {row} c a e = record {
    size = a.size ∙ c.size;
    cells = cells_next;
  }
    where
      cells_next : (k : ℕ) → k < suc j → get_or row k 0 ≡ run x y i (suc k)
      cells_next k h = elim (lt-or-eq k j h) [
        | inl f ↦ a.below k f ∙ c.cells k f
        | inr f ↦ rw f (a.there ∙ e)
      ]
