-- ===== src/Prelude/Order.antt =====
-- `Kept xs ys`: the list `xs` is `ys` with some entries dropped and the order kept.
use Prim.Native.Nat.{◌≤◌}
use mathlib.Core.List.{List, [], ◌∷◌, ◌++◌, map}
use native.Mathlib.Omega.{arith}
use mpshell_ext.Prelude.Lists.{length, All}

pub data Kept {ℓ} {A : Type ℓ} : List A → List A → Type ℓ where
  done : Kept [] []
  keep : {xs ys : List A} (x : A) → Kept xs ys → Kept (x ∷ xs) (x ∷ ys)
  skip : {xs ys : List A} (x : A) → Kept xs ys → Kept xs (x ∷ ys)

module _ {ℓ} {A : Type ℓ} where
  pub Kept-refl : (xs : List A) → Kept xs xs
  Kept-refl [] = done
  Kept-refl (x ∷ xs) = keep x (Kept-refl xs)

  pub Kept-nil : (xs : List A) → Kept [] xs
  Kept-nil [] = done
  Kept-nil (x ∷ xs) = skip x (Kept-nil xs)

  Kept-within : {ys zs : List A} → Kept ys zs → {xs : List A} → Kept xs ys → Kept xs zs
  Kept-within done h = h
  Kept-within (skip x k) h = skip x (Kept-within k h)
  Kept-within (keep x k) (keep _ h) = keep x (Kept-within k h)
  Kept-within (keep x k) (skip _ h) = skip x (Kept-within k h)

  pub Kept-trans : {xs ys zs : List A} → Kept xs ys → Kept ys zs → Kept xs zs
  Kept-trans h k = Kept-within k h

  -- What stands in front stays.
  pub Kept-prepend : (ps : List A) {xs ys : List A} → Kept xs ys → Kept (ps ++ xs) (ps ++ ys)
  Kept-prepend [] h = h
  Kept-prepend (p ∷ ps) h = keep p (Kept-prepend ps h)

  pub Kept-append : {xs ys : List A} → Kept xs ys → (zs : List A) → Kept (xs ++ zs) (ys ++ zs)
  Kept-append done zs = Kept-refl zs
  Kept-append (keep x h) zs = keep x (Kept-append h zs)
  Kept-append (skip x h) zs = skip x (Kept-append h zs)

  pub Kept-drop : (ps xs : List A) → Kept xs (ps ++ xs)
  Kept-drop [] xs = Kept-refl xs
  Kept-drop (p ∷ ps) xs = skip p (Kept-drop ps xs)

  pub Kept-without_last : (xs ps : List A) → Kept xs (xs ++ ps)
  Kept-without_last [] ps = Kept-nil ps
  Kept-without_last (x ∷ xs) ps = keep x (Kept-without_last xs ps)

  pub length-Kept : {xs ys : List A} → Kept xs ys → length xs ≤ length ys
  length-Kept done = omega arith
  length-Kept (keep x h) = omega (arith, length-Kept h)
  length-Kept (skip x h) = omega (arith, length-Kept h)

pub All-Kept {ℓ κ} :
    {A : Type ℓ} (P : A → Type κ) {xs ys : List A} → Kept xs ys → All P ys → All P xs
All-Kept P done h = h
All-Kept P (keep x k) h = (h.0, All-Kept P k h.1)
All-Kept P (skip x k) h = All-Kept P k h.1

pub Kept-map {ℓ κ} :
    {A : Type ℓ} {B : Type κ} (f : A → B) {xs ys : List A} → Kept xs ys → Kept (map f xs) (map f ys)
Kept-map f done = done
Kept-map f (keep x k) = keep (f x) (Kept-map f k)
Kept-map f (skip x k) = skip (f x) (Kept-map f k)
