-- ===== src/Http/Response.antt =====
-- http_response.hh and .cc, and the parsers of body_parser.hh: what a response adds to a message.
use mpshell_ext.Prelude.{
  ℕ, Bool, true, false, ◌&&◌, ◌||◌, not, List, [], ◌∷◌, ◌++◌, Option, none, some, ltb, leb, ◌==◌,
  if◌then◌else◌, length, get_elem?, take,
}
use mpshell_ext.Prelude.Result.{
  Result, ok, err, assertion_failed, exception, out_of_range, ◌>>=◌, ◌>>◌, assert, require,
}
use mpshell_ext.Words.{max64}
use mpshell_ext.Packet.{Bytes}
use mpshell_ext.Ezio.{myatoi}
use mpshell_ext.Http.Text.{same_bytes, equivalent_strings}
use mpshell_ext.Http.Tokenize.{split, mime_type}
use mpshell_ext.Http.Chunked
use mpshell_ext.Http.Chunked.{ChunkedBodyParser, npos}
use mpshell_ext.Http.Message.{
  HttpMessage, MessageType, first_line_pending, body_pending, complete, rank,
  set_expected_body_size, has_header, get_header_value,
}
use mpshell_ext.Http.Request.{content_length}

abbrev pub transfer_encoding : Bytes
transfer_encoding =
    b'T' ∷ b'r' ∷ b'a' ∷ b'n' ∷ b's' ∷ b'f' ∷ b'e' ∷ b'r' ∷ b'-' ∷ b'E' ∷ b'n' ∷ b'c' ∷ b'o' ∷ b'd'
    ∷ b'i' ∷ b'n' ∷ b'g' ∷ []

abbrev pub chunked : Bytes
chunked = b'c' ∷ b'h' ∷ b'u' ∷ b'n' ∷ b'k' ∷ b'e' ∷ b'd' ∷ []

abbrev pub trailer : Bytes
trailer = b'T' ∷ b'r' ∷ b'a' ∷ b'i' ∷ b'l' ∷ b'e' ∷ b'r' ∷ []

abbrev pub content_type : Bytes
content_type =
    b'C' ∷ b'o' ∷ b'n' ∷ b't' ∷ b'e' ∷ b'n' ∷ b't' ∷ b'-' ∷ b'T' ∷ b'y' ∷ b'p' ∷ b'e' ∷ []

abbrev pub multipart_byteranges : Bytes
multipart_byteranges =
    b'm' ∷ b'u' ∷ b'l' ∷ b't' ∷ b'i' ∷ b'p' ∷ b'a' ∷ b'r' ∷ b't' ∷ b'/' ∷ b'b' ∷ b'y' ∷ b't' ∷ b'e'
    ∷ b'r' ∷ b'a' ∷ b'n' ∷ b'g' ∷ b'e' ∷ b's' ∷ []

-- A body that is chunked, or one that lasts until the end of the connection.
pub data BodyParser : Type 0 where
  chunked_body : ChunkedBodyParser → BodyParser
  rule5_body : BodyParser

unfoldable pub read : Bytes → BodyParser → Result (ℕ × BodyParser)
read str (chunked_body p) = do r ← Chunked.read str p; ok (r.0, chunked_body r.1)
read str rule5_body = ok (npos, rule5_body)

pub record ResponseExtra : Type 0 where
  pub request_was_head : Bool
  pub body_parser : Option BodyParser

abbrev pub HttpResponse : Type 0
HttpResponse = HttpMessage ResponseExtra

unfoldable pub status_code : HttpResponse → Result Bytes
status_code m =
    let tokens = split m.first_line (32 ∷ []) in
    do
      assert (ltb (rank first_line_pending) (rank m.state))
      require (leb 3 (length tokens)) exception
      elim (get_elem? tokens 1) [ none ↦ err out_of_range | some code ↦ ok code ]

-- status_code().at( 0 ) == '1' or it is 204 or 304 or the request was HEAD. The first test throws if
-- the code is empty.
unfoldable pub has_no_body : Bytes → HttpResponse → Result Bool
has_no_body [] m = err out_of_range
has_no_body (c ∷ cs) m = ok (
    c == b'1'
    || (same_bytes (c ∷ cs) (b'2' ∷ b'0' ∷ b'4' ∷ [])
        || (same_bytes (c ∷ cs) (b'3' ∷ b'0' ∷ b'4' ∷ []) || m.extra.request_was_head)))

abbrev pub last_token : List Bytes → Bytes
last_token [] = []
last_token (t ∷ []) = t
last_token (t ∷ u ∷ ts) = last_token (u ∷ ts)

-- The last transfer coding is "chunked".
unfoldable pub is_chunked : HttpResponse → Result Bool
is_chunked m =
    if has_header transfer_encoding m
    then (do
      value ← get_header_value transfer_encoding m
      ok (equivalent_strings (last_token (split value (b',' ∷ []))) chunked))
    else ok false

unfoldable pub is_multipart : HttpResponse → Result Bool
is_multipart m =
    if has_header content_type m
    then (do
      value ← get_header_value content_type m
      type ← mime_type value
      ok (equivalent_strings type multipart_byteranges))
    else ok false

-- The size is not known, and a parser finds the end.
unfoldable pub with_parser : BodyParser → HttpResponse → Result HttpResponse
with_parser p m = do
  m' ← set_expected_body_size false max64 m
  ok (record m' { extra = record m'.extra { body_parser = some p } })

unfoldable pub size_from_headers : HttpResponse → Result HttpResponse
size_from_headers m =
    if not (has_header transfer_encoding m) && has_header content_length m
    then (do
      value ← get_header_value content_length m
      size ← myatoi 10 value
      set_expected_body_size true size m)
    else (do
      multipart ← is_multipart m
      require (not multipart) exception
      with_parser rule5_body m)

-- RFC 2616, section 4.4.
unfoldable pub calculate_expected_body_size : HttpResponse → Result HttpResponse
calculate_expected_body_size m = do
  assert (rank m.state == rank body_pending)
  code ← status_code m
  no_body ← has_no_body code m
  if no_body then set_expected_body_size true 0 m else (do
    c ← is_chunked m
    if c
        then with_parser (chunked_body (Chunked.init (has_header trailer m))) m
        else size_from_headers m)

-- All of `str` is body, or its first `amount_parsed` bytes end the body.
unfoldable pub take_body : ℕ → BodyParser → Bytes → HttpResponse → ℕ × HttpResponse
take_body amount_parsed p str m =
    let m' = record m { extra = record m.extra { body_parser = some p } } in
    if amount_parsed == npos
    then (length str, record m' { body = m.body ++ str })
    else (amount_parsed, record m' { body = m.body ++ take amount_parsed str; state = complete })

unfoldable pub parse_body : Option BodyParser → Bytes → HttpResponse → Result (ℕ × HttpResponse)
parse_body none str m = err assertion_failed
parse_body (some p) str m = do r ← read str p; ok (take_body r.0 r.1 str m)

unfoldable pub read_in_complex_body : Bytes → HttpResponse → Result (ℕ × HttpResponse)
read_in_complex_body str m = do
  assert (rank m.state == rank body_pending)
  parse_body m.extra.body_parser str m

-- Both parsers take the end of the connection for the end of the body.
unfoldable pub eof_in_body : HttpResponse → Result Bool
eof_in_body m = elim m.extra.body_parser [ none ↦ err exception | some p ↦ ok true ]

unfoldable pub set_request_was_head : HttpResponse → Result HttpResponse
set_request_was_head m = do
  assert (rank m.state == rank first_line_pending)
  ok (record m { extra = record m.extra { request_was_head = true } })

abbrev pub response : MessageType
response = record {
  Extra = ResponseExtra;
  initial = record { request_was_head = false; body_parser = none };
  calculate_expected_body_size = calculate_expected_body_size;
  read_in_complex_body = read_in_complex_body;
  eof_in_body = eof_in_body;
}
