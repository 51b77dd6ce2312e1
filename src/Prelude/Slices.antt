-- ===== src/Prelude/Slices.antt =====
-- What `take` and `drop` leave of lists that are put together.
use Prim.Native.Nat.{ℕ, zero, suc, ◌-◌, ◌≤◌, ◌<◌}
use mathlib.Core.Path.{◌≡◌, refl, ap}
use mathlib.Core.List.{List, [], ◌∷◌, ◌++◌}
use native.Mathlib.Omega.{arith}
use mpshell_ext.Prelude.Lists.{length, take, drop, get_or}

module _ {ℓ} {A : Type ℓ} where
  pub take-append : (xs ys : List A) → take (length xs) (xs ++ ys) ≡ xs
  take-append [] ys = refl
  take-append (x ∷ xs) ys = ap (λ l. x ∷ l) (take-append xs ys)

  pub drop-append : (xs ys : List A) → drop (length xs) (xs ++ ys) ≡ ys
  drop-append [] ys = refl
  drop-append (x ∷ xs) ys = drop-append xs ys

  pub take-drop : (n : ℕ) (xs : List A) → take n xs ++ drop n xs ≡ xs
  take-drop zero xs = refl
  take-drop (suc n) [] = refl
  take-drop (suc n) (x ∷ xs) = ap (λ l. x ∷ l) (take-drop n xs)

  pub length-take : (n : ℕ) (xs : List A) → n ≤ length xs → length (take n xs) ≡ n
  length-take zero xs h = refl
  length-take (suc n) [] h = absurd (omega arith)
  length-take (suc n) (x ∷ xs) h = ap suc (length-take n xs (omega arith))

  pub length-drop : (n : ℕ) (xs : List A) → length (drop n xs) ≡ length xs - n
  length-drop zero xs = omega arith
  length-drop (suc n) [] = omega arith
  length-drop (suc n) (x ∷ xs) = omega (arith, length-drop n xs)

  pub take-all : (n : ℕ) (xs : List A) → length xs ≤ n → take n xs ≡ xs
  take-all zero [] h = refl
  take-all zero (x ∷ xs) h = absurd (omega arith)
  take-all (suc n) [] h = refl
  take-all (suc n) (x ∷ xs) h = ap (λ l. x ∷ l) (take-all n xs (omega arith))

  pub drop_all : (xs : List A) → drop (length xs) xs ≡ []
  drop_all [] = refl
  drop_all (x ∷ xs) = drop_all xs

  -- Where nothing is behind an index, the list has ended.
  pub nothing_behind : (j : ℕ) (xs : List A) → [] ≡ drop j xs → length xs ≤ j
  nothing_behind j xs e = omega (arith, length-drop j xs, ap length e)

  -- The first entry behind index `j`, and what follows.
  pub drop-next :
      (xs : List A) (j : ℕ) (z d : A) (ds : List A)
      → d ∷ ds ≡ drop j xs
      → (j < length xs) × (d ≡ get_or xs j z) × (ds ≡ drop (suc j) xs)
  drop-next [] zero z d ds e = absurd (cc)
  drop-next [] (suc j) z d ds e = absurd (cc)
  drop-next (c ∷ cs) zero z d ds e = (omega arith, (cc), (cc))
  drop-next (c ∷ cs) (suc j) z d ds e =
      let next = drop-next cs j z d ds e in (omega (arith, next.0), next.1, next.2)
