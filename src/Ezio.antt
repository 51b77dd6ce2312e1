-- ===== src/Ezio.antt =====
-- ezio.cc: `myatoi`, and what it uses of `strtol`. A `long int` is kept as its 64-bit pattern.
pub mod Laws
use mpshell_ext.Prelude.{
  ℕ, ◌+◌, ◌-◌, ◌*◌, ◌%◌, ◌^◌, Bool, true, false, ◌&&◌, ◌||◌, not, List, [], ◌∷◌, Option, none, some,
  ltb, leb, ◌==◌, if◌then◌else◌, is_nil,
}
use mpshell_ext.Prelude.Result.{Result, ok, err, exception, ◌>>=◌, ◌>>◌, require}
use mpshell_ext.Packet.{Bytes}

-- The value of a digit of a number in a base up to 36; 36 for what is none.
unfoldable pub digit_value : ℕ → ℕ
digit_value c =
    if leb b'0' c && leb c b'9'
    then c - b'0'
    else if leb b'a' c && leb c b'z'
    then c - b'a' + 10
    else if leb b'A' c && leb c b'Z'
    then c - b'A' + 10
    else 36

-- isspace( c ) in the C locale.
unfoldable pub is_space : ℕ → Bool
is_space c = c == 32 || (leb 9 c && leb c 13)

unfoldable pub skip_space : Bytes → Bytes
unfolding is_space
skip_space [] = []
skip_space (c ∷ cs) = if is_space c then skip_space cs else c ∷ cs

-- Is there a minus sign, and what follows the sign?
unfoldable pub sign : Bytes → Bool × Bytes
sign [] = (false, [])
sign (c ∷ cs) = if c == b'-' then (true, cs) else if c == b'+' then (false, cs) else (false, c ∷ cs)

unfoldable pub starts_number : ℕ → Bytes → Bool
unfolding digit_value
starts_number base [] = false
starts_number base (c ∷ cs) = ltb (digit_value c) base

-- In base 16 a number may begin with 0x.
unfoldable pub skip_prefix : ℕ → Bytes → Bytes
unfolding starts_number
skip_prefix base (z ∷ x ∷ cs) =
    if base == 16 && (z == b'0' && ((x == b'x' || x == b'X') && starts_number base cs))
    then cs
    else z ∷ x ∷ cs
skip_prefix base cs = cs

-- The digits from here on, and what follows them.
unfoldable pub read_digits : ℕ → ℕ → Bytes → ℕ × Bytes
unfolding digit_value
read_digits base acc [] = (acc, [])
read_digits base acc (c ∷ cs) =
    let rest = read_digits base (acc * base + digit_value c) cs in
    if ltb (digit_value c) base then rest else (acc, c ∷ cs)

-- `none` if no digit is found; else the sign, the magnitude and what follows.
unfoldable pub strtol : ℕ → Bytes → Option (Bool × ℕ × Bytes)
unfolding skip_space sign skip_prefix starts_number read_digits
strtol base str =
    let (negative, cs) = sign (skip_space str) in
    let digits = skip_prefix base cs in
    let (n, rest) = read_digits base 0 digits in
    if starts_number base digits then some (negative, n, rest) else none

-- `errno` is ERANGE.
abbrev pub out_of_long : Bool → ℕ → Bool
out_of_long negative n = ltb (if negative then 2 ^ 63 else 2 ^ 63 - 1) n

unfoldable pub myatoi : ℕ → Bytes → Result ℕ
unfolding strtol
myatoi base str = do
  require (not (is_nil str)) exception
  elim (strtol base str) [
    | none ↦ err exception
    | some (negative, n, rest) ↦ do
      require (not (out_of_long negative n)) exception
      require (is_nil rest) exception
      ok (if negative then (2 ^ 64 - n) % 2 ^ 64 else n)
  ]
