-- ===== src/Http/Header/Laws.antt =====
-- http_header.hh and .cc: theorems on a header that is written and read.
use mpshell_ext.Prelude.{
  ℕ, suc, ◌≡◌, refl, ◌∙◌, [], ◌∷◌, ◌++◌, none, some, arith, if◌then◌else◌, length, is_nil, take,
  drop, take-append,
}
use mpshell_ext.Prelude.Result.{ok}
use mpshell_ext.Packet.{Bytes}
use mpshell_ext.Http.Text.{find, strip_initial_whitespace}
use mpshell_ext.Http.Header.{HttpHeader, strip_value, parse, str}

-- The first colon of a text behind a key without colons is the first one of the text.
find-key :
    (key rest : Bytes)
    → find (b':' ∷ []) key ≡ none
    → find (b':' ∷ []) (key ++ (b':' ∷ rest)) ≡ some (length key)
unfolding find
find-key [] rest h = refl
find-key (c ∷ cs) rest h = ground (arith, find-key cs rest)

parse_at :
    (buf : Bytes) (i : ℕ)
    → find (b':' ∷ []) buf ≡ some i
    → parse buf ≡ ok (record { key = take i buf; value = strip_value (drop (suc i) buf) })
unfolding parse
parse_at buf i e = rw (e, parse) refl

drop_key : (key rest : Bytes) → drop (suc (length key)) (key ++ (b':' ∷ rest)) ≡ rest
drop_key [] rest = refl
drop_key (c ∷ cs) rest = drop_key cs rest

strip-space :
    (value : Bytes)
    → strip_value (32 ∷ value) ≡ (
        if is_nil (strip_initial_whitespace value)
        then 32 ∷ value
        else strip_initial_whitespace value)
unfolding strip_value strip_initial_whitespace
strip-space value = refl

-- A header whose key has no colon is read back with the same key, and with its value if that does
-- not begin with a space; a value that is empty or all spaces comes back with one space more.
pub parse-str :
    (h : HttpHeader)
    → find (b':' ∷ []) h.key ≡ none
    → parse (str h)
      ≡ ok (record h {
        value =
            if is_nil (strip_initial_whitespace h.value)
            then 32 ∷ h.value
            else strip_initial_whitespace h.value;
      })
unfolding str
parse-str h e =
    parse_at (h.key ++ (b':' ∷ 32 ∷ h.value)) (length h.key) (find-key h.key (32 ∷ h.value) e)
    ∙ rw (take-append, drop_key, strip-space) refl
