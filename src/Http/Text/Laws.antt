-- ===== src/Http/Text/Laws.antt =====
-- Lemmas on `find`.
use mpshell_ext.Prelude.{
  ℕ, ◌+◌, ◌≤◌, ◌≡◌, ◌⊎◌, inl, inr, refl, true, [], ◌∷◌, Option, none, some, arith, length,
  Bool-cases,
}
use mpshell_ext.Packet.{Bytes}
use mpshell_ext.Http.Text.{starts_with, find}

length-starts_with :
    (needle str : Bytes) → starts_with needle str ≡ true → length needle ≤ length str
length-starts_with [] str h = omega arith
length-starts_with (c ∷ cs) [] h = absurd (ground arith)
length-starts_with (c ∷ cs) (d ∷ ds) h = omega (arith, length-starts_with cs ds (ground arith))

pub find-bounded :
    (needle str : Bytes) (i : ℕ) → find needle str ≡ some i → i + length needle ≤ length str
unfolding find
find-bounded needle [] i h = ground arith
find-bounded needle (c ∷ cs) i h = elim (Bool-cases (starts_with needle (c ∷ cs))) [
  | inl e ↦ ground (arith, length-starts_with needle (c ∷ cs) e)
  | inr e ↦ elim (later_cases (find needle cs)) [
    | inl f ↦ absurd (ground arith)
    | inr (j, f) ↦ ground (arith, find-bounded needle cs j f)
  ]
]
  where
    later_cases : (o : Option ℕ) → (o ≡ none) ⊎ ((j : ℕ) × (o ≡ some j))
    later_cases none = inl refl
    later_cases (some j) = inr (j, refl)
