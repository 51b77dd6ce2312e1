-- ===== src/Replay/Saved.antt =====
-- replayserver.cc, check_headers on the header lines that http_message.cc records.
use mathlib.Core.List.{append_assoc}
use mpshell_ext.Prelude.{
  ℕ, ◌≤◌, ◌≡◌, refl, ap, ◌∙◌, inl, inr, Bool, true, false, List, [], ◌∷◌, ◌++◌, map, Option, none,
  some, arith, ◌==◌, if◌then◌else◌, length, is_nil, take-append, All, Bool-cases,
}
use mpshell_ext.Prelude.Result.{ok}
use mpshell_ext.Packet.{Bytes}
use mpshell_ext.Http.Text.{
  crlf, same_bytes, starts_with, find, one_later, strip_initial_whitespace, equivalent_strings,
}
use mpshell_ext.Http.Header
use mpshell_ext.Http.Header.{HttpHeader}
use mpshell_ext.Http.Header.Laws.{parse-str}
use mpshell_ext.Http.Message.{RecordedMessage, find_header}
use mpshell_ext.Http.Sequence.Lines.{find-crlf}
use mpshell_ext.Http.Sequence.Steps.{IsPlain}
use mpshell_ext.Replay.{up_to, check_saved, check_headers}

length-strip : (xs : Bytes) → length (strip_initial_whitespace xs) ≤ length xs
unfolding strip_initial_whitespace
length-strip [] = omega arith
length-strip (c ∷ cs) = ground (arith, length-strip cs)

-- A text that begins with no space, with another one behind it.
strip-append :
    (xs ys : Bytes)
    → strip_initial_whitespace xs ≡ xs
    → is_nil xs ≡ false
    → strip_initial_whitespace (xs ++ ys) ≡ xs ++ ys
unfolding strip_initial_whitespace
strip-append [] ys e n = absurd (cc)
strip-append (c ∷ cs) ys e n = elim (Bool-cases (c == 32)) [
  | inl f ↦ absurd (shorter f)
  | inr f ↦ rw f refl
]
  where
    shorter : c == 32 ≡ true → ⊥
    shorter f = ground (arith, length-strip cs, ap length e)

is_nil-append : (xs ys : Bytes) → is_nil xs ≡ false → is_nil (xs ++ ys) ≡ false
is_nil-append [] ys n = absurd (cc)
is_nil-append (c ∷ cs) ys n = refl

found_nowhere : (b : Bool) (o : Option ℕ) → (if b then some 0 else one_later o) ≡ none → o ≡ none
found_nowhere true o e = absurd (cc)
found_nowhere false none e = refl
found_nowhere false (some i) e = absurd (cc)

find-behind : (needle xs ys : Bytes) → find needle (xs ++ ys) ≡ none → find needle ys ≡ none
unfolding find
find-behind needle [] ys e = e
find-behind needle (c ∷ cs) ys e =
    find-behind needle cs ys
      (found_nowhere (starts_with needle (c ∷ (cs ++ ys))) (find needle (cs ++ ys)) e)

pub same_bytes_refl : (xs : Bytes) → same_bytes xs xs ≡ true
same_bytes_refl [] = refl
same_bytes_refl (c ∷ cs) = ground (arith, same_bytes_refl cs)

-- The header that a saved line is read as.
saved : HttpHeader → HttpHeader
saved h = record h { value = h.value ++ crlf }

parse-saved : (h : HttpHeader) → IsPlain h → Header.parse (Header.str h ++ crlf) ≡ ok (saved h)
unfolding Header.str saved
parse-saved h p =
    ap Header.parse (append_assoc h.key (b':' ∷ 32 ∷ h.value) crlf)
    ∙ parse-str (saved h) p.key
    ∙ rw (strip-append h.value crlf p.value p.some_value, is_nil-append h.value crlf p.some_value)
        refl

up_to-saved : (h : HttpHeader) → IsPlain h → up_to crlf (h.value ++ crlf) ≡ h.value
unfolding up_to Header.str
up_to-saved h p =
    let clear =
      find-behind crlf (b':' ∷ 32 ∷ []) h.value
        (find-behind crlf h.key (b':' ∷ 32 ∷ h.value) p.line) in
    rw (find-crlf h.value [] clear, up_to) (take-append h.value crlf)

-- The lines that are recorded of the headers.
abbrev pub lines : List HttpHeader → List Bytes
lines hs = map (λ h. Header.str h ++ crlf) hs

-- A saved header agrees with the environment if the first one of that name has the same value, or
-- there is none.
abbrev pub agrees : Bytes → Option Bytes → Bool
agrees env_value none = true
agrees env_value (some value) = same_bytes value env_value

check_saved-lines :
    (env_value name : Bytes) (hs : List HttpHeader)
    → All IsPlain hs
    → check_saved env_value name (lines hs) ≡ ok (agrees env_value (find_header name hs))
unfolding check_saved find_header saved
check_saved-lines env_value name [] p = refl
check_saved-lines env_value name (h ∷ hs) p =
    rw (parse-saved h p.0, check_saved)
      (elim (Bool-cases (equivalent_strings h.key name)) [
        | inl e ↦ rw (e, up_to-saved h p.0) refl
        | inr e ↦ rw e (check_saved-lines env_value name hs p.1)
      ])

-- The saved header that is looked for in each check.
unfoldable pub agrees_if : Option Bytes → Option Bytes → Bool
agrees_if none saved_value = true
agrees_if (some env_value) saved_value = agrees env_value saved_value

pub check_headers-lines :
    (env_value : Option Bytes) (name : Bytes) (hs : List HttpHeader) (r : RecordedMessage)
    → All IsPlain hs
    → r.headers ≡ lines hs
    → check_headers env_value name r ≡ ok (agrees_if env_value (find_header name hs))
unfolding check_headers agrees_if
check_headers-lines none name hs r p e = refl
check_headers-lines (some v) name hs r p e = rw e (check_saved-lines v name hs p)

pub agrees_if-none : (env_value : Option Bytes) → agrees_if env_value none ≡ true
unfolding agrees_if
agrees_if-none none = refl
agrees_if-none (some v) = refl

pub agrees_if_refl : (env_value : Option Bytes) → agrees_if env_value env_value ≡ true
unfolding agrees_if
agrees_if_refl none = refl
agrees_if_refl (some v) = same_bytes_refl v
