-- ===== src/Http/Text.antt =====
-- What the HTTP classes use of std::string, and the comparison of strings of http_message.cc.
pub mod Laws
use mpshell_ext.Prelude.{
  ℕ, suc, ◌+◌, Bool, true, false, ◌&&◌, List, [], ◌∷◌, ◌++◌, Option, none, some, leb, ◌==◌,
  if◌then◌else◌, length, is_nil,
}
use mpshell_ext.Packet.{Bytes}

abbrev pub crlf : Bytes
crlf = 13 ∷ 10 ∷ []

-- Equality of strings.
abbrev pub same_bytes : Bytes → Bytes → Bool
same_bytes [] [] = true
same_bytes [] (d ∷ ds) = false
same_bytes (c ∷ cs) [] = false
same_bytes (c ∷ cs) (d ∷ ds) = c == d && same_bytes cs ds

abbrev pub starts_with : Bytes → Bytes → Bool
starts_with [] str = true
starts_with (c ∷ cs) [] = false
starts_with (c ∷ cs) (d ∷ ds) = c == d && starts_with cs ds

-- Strings put together, one after the other.
abbrev pub concat : List Bytes → Bytes
concat [] = []
concat (l ∷ ls) = l ++ concat ls

abbrev pub one_later : Option ℕ → Option ℕ
one_later none = none
one_later (some i) = some (suc i)

-- str.find( needle ): the first index, or `npos`.
unfoldable pub find : Bytes → Bytes → Option ℕ
find needle [] = if is_nil needle then some 0 else none
find needle (c ∷ cs) =
    let behind = find needle cs in if starts_with needle (c ∷ cs) then some 0 else one_later behind

-- The string from the first byte that is not a space; empty if there is none.
unfoldable pub strip_initial_whitespace : Bytes → Bytes
strip_initial_whitespace [] = []
strip_initial_whitespace (c ∷ cs) =
    let rest = strip_initial_whitespace cs in if c == 32 then rest else c ∷ cs

unfoldable pub http_to_lower : ℕ → ℕ
http_to_lower c = if leb b'A' c && leb c b'Z' then c + 32 else c

-- The loop over two strings of the same size.
unfoldable pub same_lower : Bytes → Bytes → Bool
same_lower [] ds = true
same_lower (c ∷ cs) [] = true
same_lower (c ∷ cs) (d ∷ ds) =
    let rest = same_lower cs ds in if http_to_lower c == http_to_lower d then rest else false

unfoldable pub equivalent_strings : Bytes → Bytes → Bool
equivalent_strings a b =
    let new_a = strip_initial_whitespace a in
    let new_b = strip_initial_whitespace b in
    if length new_a == length new_b then same_lower new_a new_b else false
