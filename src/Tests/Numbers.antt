-- ===== src/Tests/Numbers.antt =====
-- Numbers that are read from strings.
use mpshell_ext.Prelude.{◌≡◌, refl, [], ◌∷◌, arith}
use mpshell_ext.Prelude.Result.{ok, err, exception}
use mpshell_ext.Ezio.{myatoi}
use mpshell_ext.Ezio.Laws.{myatoi-written}

hexadecimal : myatoi 16 (b'0' ∷ b'x' ∷ b'f' ∷ b'F' ∷ []) ≡ ok 255
unfolding myatoi
hexadecimal = refl

-- The pattern of -1.
negative : myatoi 10 (32 ∷ b'-' ∷ b'1' ∷ []) ≡ ok 18446744073709551615
unfolding myatoi
negative = refl

with_a_rest : myatoi 10 (b'1' ∷ b'x' ∷ []) ≡ err exception
unfolding myatoi
with_a_rest = refl

myatoi-written_example : myatoi 10 (b'4' ∷ b'2' ∷ []) ≡ ok 42
myatoi-written_example = myatoi-written 4 (2 ∷ []) (omega arith, (omega arith, tt))
