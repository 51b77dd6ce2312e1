-- ===== src/Words.antt =====
-- Machine words. An `unsigned int` or `uint32_t` is a number below 2 ^ 32, a `uint64_t` or `size_t`
-- one below 2 ^ 64. An `int` is kept as its 32-bit pattern: it is not negative if the pattern is
-- below 2 ^ 31.
use mpshell_ext.Prelude.{ℕ, ◌+◌, ◌-◌, ◌%◌, ◌^◌, Bool, ltb}

abbrev pub u32 : ℕ → ℕ
u32 a = a % 2 ^ 32

abbrev pub u64 : ℕ → ℕ
u64 a = a % 2 ^ 64

-- `a - b` in 32 and in 64 bits.
abbrev pub sub32 : ℕ → ℕ → ℕ
sub32 a b = (a + 2 ^ 32 - u32 b) % 2 ^ 32

abbrev pub sub64 : ℕ → ℕ → ℕ
sub64 a b = (a + 2 ^ 64 - u64 b) % 2 ^ 64

-- `x >= 0` for an `int` with this pattern.
abbrev pub nonnegative : ℕ → Bool
nonnegative a = ltb a (2 ^ 31)

-- The largest `uint64_t`, which is also -1 converted to it.
abbrev pub max64 : ℕ
max64 = 2 ^ 64 - 1
