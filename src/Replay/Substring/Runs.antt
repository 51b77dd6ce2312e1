-- ===== src/Replay/Substring/Runs.antt =====
-- Common substrings, and the longest one that ends at two given places.
use mathlib.Core.List.{append_assoc, append-nil}
use mpshell_ext.Prelude.{
  ℕ, zero, suc, ◌+◌, ◌≤◌, ◌<◌, ◌≡◌, refl, sym, ap, ◌∙◌, List, [], ◌∷◌, ◌++◌, arith, ◌==◌,
  if◌then◌else◌, length, length-append, get_or, take, drop, take-drop, Bool-cases, inl, inr,
}
use mpshell_ext.Packet.{Bytes}

-- `part` stands in `str`, after `before`.
pub record StandsIn (part str : Bytes) : Type 0 where
  pub before : Bytes
  pub after : Bytes
  pub stands : str ≡ before ++ (part ++ after)

-- How many bytes in a row agree before index `i` of `x` and index `j` of `y`.
unfoldable pub run : Bytes → Bytes → ℕ → ℕ → ℕ
run x y zero j = 0
run x y (suc i) zero = 0
run x y (suc i) (suc j) =
    let shorter = run x y i j in if get_or x i 0 == get_or y j 0 then suc shorter else 0

pub run-bounded : (x y : Bytes) (i j : ℕ) → run x y i j ≤ i
unfolding run
run-bounded x y zero j = omega arith
run-bounded x y (suc i) zero = omega arith
run-bounded x y (suc i) (suc j) = ground (arith, run-bounded x y i j)

take-next :
    (xs : Bytes) (i : ℕ) → i < length xs → take (suc i) xs ≡ take i xs ++ (get_or xs i 0 ∷ [])
take-next [] i h = absurd (omega arith)
take-next (x ∷ xs) zero h = refl
take-next (x ∷ xs) (suc i) h = ap (λ l. x ∷ l) (take-next xs i (omega arith))

get_or-skip : (xs ys : List ℕ) (i k : ℕ) → i ≡ length xs + k → get_or (xs ++ ys) i 0 ≡ get_or ys k 0
get_or-skip [] ys i k e = ap (λ n. get_or ys n 0) (omega (arith, e))
get_or-skip (x ∷ xs) ys zero k e = absurd (omega arith)
get_or-skip (x ∷ xs) ys (suc i) k e = get_or-skip xs ys i k (omega arith)

get_or-append : (xs ys : List ℕ) (k : ℕ) → k < length xs → get_or (xs ++ ys) k 0 ≡ get_or xs k 0
get_or-append [] ys k h = absurd (omega arith)
get_or-append (x ∷ xs) ys zero h = refl
get_or-append (x ∷ xs) ys (suc k) h = get_or-append xs ys k (omega arith)

-- Bytes that the first `i` of `x` and the first `j` of `y` end with.
record EndBoth (x y : Bytes) (i j n : ℕ) : Type 0 where
  part : Bytes
  before_x : Bytes
  before_y : Bytes
  in_x : take i x ≡ before_x ++ part
  in_y : take j y ≡ before_y ++ part
  size : length part ≡ n

EndBoth-none : (x y : Bytes) (i j : ℕ) → EndBoth x y i j 0
EndBoth-none x y i j = record {
  part = [];
  before_x = take i x;
  before_y = take j y;
  in_x = sym (append-nil (take i x));
  in_y = sym (append-nil (take j y));
  size = refl;
}

EndBoth-next :
    (x y : Bytes) (i j n : ℕ)
    → i < length x
    → j < length y
    → get_or x i 0 ≡ get_or y j 0
    → EndBoth x y i j n
    → EndBoth x y (suc i) (suc j) (suc n)
EndBoth-next x y i j n h k e b = record {
  part = b.part ++ get_or x i 0 ∷ [];
  before_x = b.before_x;
  before_y = b.before_y;
  in_x =
      take-next x i h
      ∙ ap (λ l. l ++ (get_or x i 0 ∷ [])) b.in_x
      ∙ append_assoc b.before_x b.part (get_or x i 0 ∷ []);
  in_y =
      take-next y j k
      ∙ ap (λ l. l ++ (get_or y j 0 ∷ [])) b.in_y
      ∙ append_assoc b.before_y b.part (get_or y j 0 ∷ [])
      ∙ ap (λ v. b.before_y ++ (b.part ++ v ∷ [])) (sym e);
  size = omega (arith, length-append b.part (get_or x i 0 ∷ []), b.size);
}

run-EndBoth : (x y : Bytes) (i j : ℕ) → i ≤ length x → j ≤ length y → EndBoth x y i j (run x y i j)
unfolding run
run-EndBoth x y zero j h k = EndBoth-none x y zero j
run-EndBoth x y (suc i) zero h k = EndBoth-none x y (suc i) zero
run-EndBoth x y (suc i) (suc j) h k = elim (Bool-cases (get_or x i 0 == get_or y j 0)) [
  | inl e ↦ rw e (
      EndBoth-next x y i j (run x y i j) h k (ground arith)
        (run-EndBoth x y i j (omega arith) (omega arith)))
  | inr e ↦ rw e (EndBoth-none x y (suc i) (suc j))
]

-- A run of agreeing bytes stands in both strings.
pub run-StandsIn :
    (x y : Bytes) (i j : ℕ)
    → i ≤ length x
    → j ≤ length y
    → (part : Bytes) × StandsIn part x × StandsIn part y × (length part ≡ run x y i j)
run-StandsIn x y i j h k =
    let both = run-EndBoth x y i j h k in
    (
      both.part,
      record {
        before = both.before_x;
        after = drop i x;
        stands =
            sym (take-drop i x)
            ∙ ap (λ l. l ++ drop i x) both.in_x
            ∙ append_assoc both.before_x both.part (drop i x);
      },
      record {
        before = both.before_y;
        after = drop j y;
        stands =
            sym (take-drop j y)
            ∙ ap (λ l. l ++ drop j y) both.in_y
            ∙ append_assoc both.before_y both.part (drop j y);
      },
      both.size,
    )

-- The byte `k` of a part is the one that stands there in the string.
StandsIn-get_or :
    {part str : Bytes} (s : StandsIn part str) (i k : ℕ)
    → k < length part
    → i ≡ length s.before + k
    → get_or str i 0 ≡ get_or part k 0
StandsIn-get_or {part} s i k h e =
    ap (λ l. get_or l i 0) s.stands
    ∙ get_or-skip s.before (part ++ s.after) i k e
    ∙ get_or-append part s.after k h

run_of_part :
    {part x y : Bytes} (s : StandsIn part x) (t : StandsIn part y) (k i j : ℕ)
    → k ≤ length part
    → i ≡ length s.before + k
    → j ≡ length t.before + k
    → k ≤ run x y i j
unfolding run
run_of_part s t zero i j h e f = omega arith
run_of_part s t (suc k) zero j h e f = absurd (omega arith)
run_of_part s t (suc k) (suc i) zero h e f = absurd (omega arith)
run_of_part s t (suc k) (suc i) (suc j) h e f = ground (
  arith,
  StandsIn-get_or s i k h (omega (arith, e)),
  StandsIn-get_or t j k h (omega (arith, f)),
  run_of_part s t k i j (omega arith) (omega (arith, e)) (omega (arith, f)),
)

-- A part of both strings is no longer than the run that ends where it ends.
pub length-run :
    {part x y : Bytes} (s : StandsIn part x) (t : StandsIn part y)
    → length part ≤ run x y (length s.before + length part) (length t.before + length part)
length-run {part} s t = run_of_part s t (length part) _ _ (omega arith) refl refl

-- A part ends within its string.
pub StandsIn-within :
    {part str : Bytes} (s : StandsIn part str) → length s.before + length part ≤ length str
StandsIn-within {part} s = omega (
  arith,
  ap length s.stands,
  length-append s.before (part ++ s.after),
  length-append part s.after,
)
