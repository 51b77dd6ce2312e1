-- ===== src/Http/Request.antt =====
-- http_request.hh and .cc: what a request adds to a message.
use mpshell_ext.Prelude.{Bool, true, ◌||◌, ◌==◌, [], ◌∷◌, ltb, if◌then◌else◌, take}
use mpshell_ext.Prelude.Result.{Result, ok, err, exception, ◌>>=◌, ◌>>◌, assert, require}
use mpshell_ext.Packet.{Bytes}
use mpshell_ext.Ezio.{myatoi}
use mpshell_ext.Http.Text.{same_bytes}
use mpshell_ext.Http.Message.{
  HttpMessage, MessageType, first_line_pending, body_pending, rank, set_expected_body_size,
  has_header, get_header_value,
}

abbrev pub content_length : Bytes
content_length =
    b'C' ∷ b'o' ∷ b'n' ∷ b't' ∷ b'e' ∷ b'n' ∷ b't' ∷ b'-' ∷ b'L' ∷ b'e' ∷ b'n' ∷ b'g' ∷ b't' ∷ b'h'
    ∷ []

abbrev pub get_method : Bytes
get_method = b'G' ∷ b'E' ∷ b'T' ∷ 32 ∷ []

abbrev pub head_method : Bytes
head_method = b'H' ∷ b'E' ∷ b'A' ∷ b'D' ∷ 32 ∷ []

abbrev pub post_method : Bytes
post_method = b'P' ∷ b'O' ∷ b'S' ∷ b'T' ∷ 32 ∷ []

abbrev pub HttpRequest : Type 0
HttpRequest = HttpMessage (Unit {0})

unfoldable pub calculate_expected_body_size : HttpRequest → Result HttpRequest
calculate_expected_body_size m = do
  assert (rank m.state == rank body_pending)
  if same_bytes (take 4 m.first_line) get_method || same_bytes (take 5 m.first_line) head_method
      then set_expected_body_size true 0 m
      else if same_bytes (take 5 m.first_line) post_method
      then (do
        require (has_header content_length m) exception
        value ← get_header_value content_length m
        size ← myatoi 10 value
        set_expected_body_size true size m)
      else err exception

unfoldable pub is_head : HttpRequest → Result Bool
is_head m = do
  assert (ltb (rank first_line_pending) (rank m.state))
  ok (same_bytes (take 5 m.first_line) head_method)

-- A request has no body of unknown size.
abbrev pub request : MessageType
request = record {
  Extra = Unit {0};
  initial = tt;
  calculate_expected_body_size = calculate_expected_body_size;
  read_in_complex_body = λ str m. err exception;
  eof_in_body = λ m. err exception;
}
