-- ===== src/Http/Message.antt =====
-- http_message.hh and .cc: a request or response that is being read. What a subclass adds is its
-- state and its three virtual methods.
pub mod Laws
use mpshell_ext.Prelude.{
  ℕ, ◌+◌, ◌-◌, min, Bool, true, false, List, [], ◌∷◌, ◌++◌, map, Option, none, some, ltb, leb, ◌==◌,
  if◌then◌else◌, length, is_nil, take,
}
use mpshell_ext.Prelude.Result.{Result, ok, err, assertion_failed, exception, ◌>>=◌, ◌>>◌, assert}
use mpshell_ext.Words.{max64}
use mpshell_ext.Packet.{Bytes}
use mpshell_ext.Http.Text.{crlf, equivalent_strings}
use mpshell_ext.Http.Header
use mpshell_ext.Http.Header.{HttpHeader}

pub data HttpMessageState : Type 0 where
  first_line_pending : HttpMessageState
  headers_pending : HttpMessageState
  body_pending : HttpMessageState
  complete : HttpMessageState

-- The value of the `enum`.
abbrev pub rank : HttpMessageState → ℕ
rank first_line_pending = 0
rank headers_pending = 1
rank body_pending = 2
rank complete = 3

-- `extra` is what a subclass adds.
pub record HttpMessage (Extra : Type 0) : Type 0 where
  pub expected_body_size_ : Bool × ℕ
  pub first_line : Bytes
  pub headers : List HttpHeader
  pub body : Bytes
  pub state : HttpMessageState
  pub extra : Extra

-- A subclass: its first state, and the methods that it must implement.
pub record MessageType : Type 1 where
  pub Extra : Type 0
  pub initial : Extra
  pub calculate_expected_body_size : HttpMessage Extra → Result (HttpMessage Extra)
  pub read_in_complex_body : Bytes → HttpMessage Extra → Result (ℕ × HttpMessage Extra)
  pub eof_in_body : HttpMessage Extra → Result Bool

-- The value of the first header with an equivalent name.
unfoldable pub find_header : Bytes → List HttpHeader → Option Bytes
find_header header_name [] = none
find_header header_name (h ∷ hs) =
    let rest = find_header header_name hs in
    if equivalent_strings h.key header_name then some h.value else rest

abbrev pub header_lines : List HttpHeader → Bytes
header_lines [] = []
header_lines (h ∷ hs) = (Header.str h ++ crlf) ++ header_lines hs

module _ {E : Type 0} where
  unfoldable pub set_first_line : Bytes → HttpMessage E → Result (HttpMessage E)
  set_first_line str m = do
    assert (rank m.state == rank first_line_pending)
    ok (record m { first_line = str; state = headers_pending })

  unfoldable pub add_header : Bytes → HttpMessage E → Result (HttpMessage E)
  add_header str m = do
    assert (rank m.state == rank headers_pending)
    h ← Header.parse str
    ok (record m { headers = m.headers ++ h ∷ [] })

  unfoldable pub set_expected_body_size : Bool → ℕ → HttpMessage E → Result (HttpMessage E)
  set_expected_body_size is_known value m = do
    assert (rank m.state == rank body_pending)
    ok (record m { expected_body_size_ = (is_known, value) })

  unfoldable pub body_size_is_known : HttpMessage E → Result Bool
  body_size_is_known m = do
    assert (ltb (rank headers_pending) (rank m.state))
    ok m.expected_body_size_.0

  unfoldable pub expected_body_size : HttpMessage E → Result ℕ
  unfolding body_size_is_known
  expected_body_size m = do known ← body_size_is_known m; assert known; ok m.expected_body_size_.1

  unfoldable pub has_header : Bytes → HttpMessage E → Bool
  has_header header_name m = elim (find_header header_name m.headers) [
    | none ↦ false
    | some v ↦ true
  ]

  unfoldable pub get_header_value : Bytes → HttpMessage E → Result Bytes
  get_header_value header_name m = elim (find_header header_name m.headers) [
    | none ↦ err exception
    | some v ↦ ok v
  ]

  unfoldable pub str : HttpMessage E → Result Bytes
  str m = do
    assert (rank m.state == rank complete)
    ok (((m.first_line ++ crlf) ++ header_lines m.headers) ++ (crlf ++ m.body))

-- HTTP_Record::http_message
pub record RecordedMessage : Type 0 where
  pub first_line : Bytes
  pub headers : List Bytes
  pub body : Bytes

unfoldable pub toprotobuf : {E : Type 0} → HttpMessage E → Result RecordedMessage
toprotobuf m = do
  assert (rank m.state == rank complete)
  ok (record {
    first_line = m.first_line ++ crlf;
    headers = map (λ h. Header.str h ++ crlf) m.headers;
    body = crlf ++ m.body;
  })

module _ (M : MessageType) where
  abbrev pub Message : Type 0
  Message = HttpMessage M.Extra

  abbrev pub blank : Message
  blank = record {
    expected_body_size_ = (false, max64);
    first_line = [];
    headers = [];
    body = [];
    state = first_line_pending;
    extra = M.initial;
  }

  unfoldable pub done_with_headers : Message → Result Message
  done_with_headers m = do
    assert (rank m.state == rank headers_pending)
    M.calculate_expected_body_size (record m { state = body_pending })

  -- A body whose size is known: what is missing is taken.
  unfoldable pub read_known : ℕ → Bytes → Message → ℕ × Message
  read_known size str m =
      let amount_to_append = min (size - length m.body) (length str) in
      let body = m.body ++ take amount_to_append str in
      (
        amount_to_append,
        record m { body = body; state = if length body == size then complete else m.state },
      )

  unfoldable pub read_in_body : Bytes → Message → Result (ℕ × Message)
  read_in_body str m = do
    assert (rank m.state == rank body_pending)
    known ← body_size_is_known m
    if known
        then (do
          size ← expected_body_size m
          assert (leb (length m.body) size)
          ok (read_known size str m))
        else M.read_in_complex_body str m

  unfoldable pub eof : Message → Result Message
  eof m = elim m.state [
    | first_line_pending ↦ ok m
    | headers_pending ↦ err exception
    | body_pending ↦ do
      ended ← M.eof_in_body m
      ok (if ended then record m { state = complete } else m)
    | complete ↦ err assertion_failed
  ]
