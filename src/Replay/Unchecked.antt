-- ===== src/Replay/Unchecked.antt =====
-- replayserver.cc, check_headers: the names that are looked for in the saved headers.
use mpshell_ext.Prelude.{
  ◌≡◌, refl, sym, ◌∙◌, inl, inr, Bool, true, false, List, [], ◌∷◌, Option, none, arith, ◌==◌,
  if◌then◌else◌, length, All, Bool-cases,
}
use mpshell_ext.Prelude.Result.{ok}
use mpshell_ext.Packet.{Bytes}
use mpshell_ext.Http.Text.{strip_initial_whitespace, same_lower, http_to_lower, equivalent_strings}
use mpshell_ext.Http.Header.{HttpHeader}
use mpshell_ext.Http.Message.{HttpMessage, RecordedMessage, complete, find_header, toprotobuf}
use mpshell_ext.Http.Sequence.Steps.{IsPlain}
use mpshell_ext.Replay.{
  Environment, Exchange, accept_encoding_key, accept_language_key, check_all, compare_requests,
  possible_match,
}
use mpshell_ext.Replay.Saved.{lines}
use mpshell_ext.Replay.Recorded.{check_all-lines, recorded_parts}

-- A text has an underscore.
abbrev pub underscored : Bytes → Bool
underscored [] = false
underscored (c ∷ cs) = let rest = underscored cs in if c == 95 then true else rest

strip-underscored : (xs : Bytes) → underscored (strip_initial_whitespace xs) ≡ underscored xs
unfolding strip_initial_whitespace
strip-underscored [] = refl
strip-underscored (c ∷ cs) = ground (arith, strip-underscored cs)

-- Strings that agree up to case have an underscore both, or neither.
same_lower-underscored :
    (xs ys : Bytes)
    → length xs ≡ length ys
    → same_lower xs ys ≡ true
    → underscored xs ≡ underscored ys
unfolding same_lower http_to_lower
same_lower-underscored [] [] e h = refl
same_lower-underscored [] (d ∷ ds) e h = absurd (omega arith)
same_lower-underscored (c ∷ cs) [] e h = absurd (omega arith)
same_lower-underscored (c ∷ cs) (d ∷ ds) e h =
    ground (arith, same_lower-underscored cs ds (omega arith))

equivalent-underscored :
    (xs ys : Bytes) → equivalent_strings xs ys ≡ true → underscored xs ≡ underscored ys
unfolding equivalent_strings
equivalent-underscored xs ys h = ground (
  arith,
  strip-underscored xs,
  strip-underscored ys,
  same_lower-underscored (strip_initial_whitespace xs) (strip_initial_whitespace ys),
)

abbrev pub HasNoUnderscore : HttpHeader → Type 0
HasNoUnderscore h = underscored h.key ≡ false

-- Names without underscores are never a name with one.
pub find_header-underscored :
    (name : Bytes) (hs : List HttpHeader)
    → underscored name ≡ true
    → All HasNoUnderscore hs
    → find_header name hs ≡ none
unfolding find_header
find_header-underscored name [] u n = refl
find_header-underscored name (h ∷ hs) u n = elim (Bool-cases (equivalent_strings h.key name)) [
  | inl e ↦ absurd (ground (arith, equivalent-underscored h.key name e, n.0))
  | inr e ↦ rw e (find_header-underscored name hs u n.1)
]

-- The environment with other values of Accept-Encoding and Accept-Language.
abbrev pub accepting : Option Bytes → Option Bytes → Environment → Environment
accepting encoding language env = record env {
  http_accept_encoding = encoding;
  http_accept_language = language;
}

check_all-accepting :
    (env : Environment) (encoding language : Option Bytes) (hs : List HttpHeader)
    (r : RecordedMessage)
    → All IsPlain hs
    → All HasNoUnderscore hs
    → r.headers ≡ lines hs
    → check_all (accepting encoding language env) r ≡ check_all env r
check_all-accepting env encoding language hs r p n e =
    let no_encoding = find_header-underscored accept_encoding_key hs refl n in
    let no_language = find_header-underscored accept_language_key hs refl n in
    check_all-lines (accepting encoding language env) hs r p e no_encoding no_language
    ∙ sym (check_all-lines env hs r p e no_encoding no_language)

-- A recorded request whose header names have no underscore is compared in the same way whatever
-- the values of Accept-Encoding and Accept-Language are.
pub compare_requests-accepting :
    (env : Environment) (encoding language : Option Bytes) {E : Type 0} (m : HttpMessage E)
    (r : Exchange) (possible_matches : List Exchange)
    → m.state ≡ complete
    → toprotobuf m ≡ ok r.req
    → All IsPlain m.headers
    → All HasNoUnderscore m.headers
    → compare_requests (accepting encoding language env) r possible_matches
      ≡ compare_requests env r possible_matches
unfolding compare_requests possible_match
compare_requests-accepting env encoding language m r ps c e p n =
    let same =
      check_all-accepting env encoding language m.headers r.req p n
        (recorded_parts m r.req c e).1 in
    rw same refl
