-- ===== src/Ezio/Laws.antt =====
-- ezio.cc: theorems on `myatoi` for a string of decimal digits.
use mpshell_ext.Prelude.{
  ℕ, ◌+◌, ◌*◌, ◌<◌, ◌^◌, ◌≡◌, refl, ap, ◌∙◌, Bool, true, false, List, [], ◌∷◌, Option, none, some,
  arith, ltb, if◌then◌else◌, map, All,
}
use mpshell_ext.Prelude.Result.{ok, err, exception}
use mpshell_ext.Packet.{Bytes}
use mpshell_ext.Ezio.{
  digit_value, is_space, skip_space, sign, starts_number, skip_prefix, read_digits, strtol, myatoi,
}

-- The number that the digits `ds` write, behind the digits of `acc`.
abbrev pub number : ℕ → List ℕ → ℕ
number acc [] = acc
number acc (d ∷ ds) = number (acc * 10 + d) ds

abbrev pub IsDigit : ℕ → Type 0
IsDigit d = d < 10

-- The bytes of the digits.
abbrev pub written : List ℕ → Bytes
written ds = map (λ d. d + b'0') ds

digit_value-digit : (d : ℕ) → d < 10 → digit_value (d + b'0') ≡ d
unfolding digit_value
digit_value-digit d h = ground arith

read_digits-written :
    (acc : ℕ) (ds : List ℕ) → All IsDigit ds → read_digits 10 acc (written ds) ≡ (number acc ds, [])
unfolding read_digits
read_digits-written acc [] h = refl
read_digits-written acc (d ∷ ds) h =
    ground (arith, digit_value-digit d h.0, read_digits-written (acc * 10 + d) ds h.1)

skip_prefix-ten : (str : Bytes) → skip_prefix 10 str ≡ str
unfolding skip_prefix
skip_prefix-ten [] = refl
skip_prefix-ten (c ∷ []) = refl
skip_prefix-ten (c ∷ d ∷ ds) = refl

skip_space-digit :
    (d : ℕ) (rest : Bytes) → d < 10 → skip_space ((d + b'0') ∷ rest) ≡ (d + b'0') ∷ rest
unfolding skip_space is_space
skip_space-digit d rest h = ground arith

sign-digit : (d : ℕ) (rest : Bytes) → d < 10 → sign ((d + b'0') ∷ rest) ≡ (false, (d + b'0') ∷ rest)
unfolding sign
sign-digit d rest h = ground arith

starts_number-digit : (d : ℕ) (rest : Bytes) → d < 10 → starts_number 10 ((d + b'0') ∷ rest) ≡ true
unfolding starts_number digit_value
starts_number-digit d rest h = ground arith

-- The stages of `strtol`.
abbrev strtol_digits : Bool → Bytes → Option (Bool × ℕ × Bytes)
strtol_digits negative digits =
    let (n, rest) = read_digits 10 0 digits in
    if starts_number 10 digits then some (negative, n, rest) else none

abbrev strtol_signed : Bool × Bytes → Option (Bool × ℕ × Bytes)
strtol_signed (negative, rest) = strtol_digits negative (skip_prefix 10 rest)

abbrev strtol_from : Bytes → Option (Bool × ℕ × Bytes)
strtol_from str = strtol_signed (sign str)

strtol-written :
    (d : ℕ) (ds : List ℕ)
    → All IsDigit (d ∷ ds)
    → strtol 10 (written (d ∷ ds)) ≡ some (false, number 0 (d ∷ ds), [])
unfolding strtol
strtol-written d ds h =
    ap (λ s. strtol_from s) (skip_space-digit d (written ds) h.0)
    ∙ ap (λ s. strtol_signed s) (sign-digit d (written ds) h.0)
    ∙ ap (λ s. strtol_digits false s) (skip_prefix-ten (written (d ∷ ds)))
    ∙ ap
        (λ b.
          if b
          then some (
            false,
            (read_digits 10 0 (written (d ∷ ds))).0,
            (read_digits 10 0 (written (d ∷ ds))).1,
          )
          else none)
        (starts_number-digit d (written ds) h.0)
    ∙ ap (λ r. some (false, r.0, r.1)) (read_digits-written 0 (d ∷ ds) h)

-- A string of one or more decimal digits is read as the number that it writes, if that is below
-- 2 ^ 63, and is refused if not.
pub myatoi-written :
    (d : ℕ) (ds : List ℕ)
    → All IsDigit (d ∷ ds)
    → myatoi 10 (written (d ∷ ds))
      ≡ (if ltb (number 0 (d ∷ ds)) (2 ^ 63) then ok (number 0 (d ∷ ds)) else err exception)
unfolding myatoi
myatoi-written d ds h = ground (arith, strtol-written d ds h)
