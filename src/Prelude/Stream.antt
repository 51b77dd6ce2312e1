-- ===== src/Prelude/Stream.antt =====
-- What a caller reads from outside, one value a call: here the clock (`timestamp()`), as the
-- sequence of the readings to come.
use Prim.Native.Nat.{ℕ, suc}

abbrev pub Stream : Type 0
Stream = ℕ → ℕ

abbrev pub now : Stream → ℕ
now s = s 0

abbrev pub later : Stream → Stream
later s n = s (suc n)
