-- ===== src/Tests/Messages.antt =====
-- HTTP messages.
use mpshell_ext.Prelude.{◌+◌, ◌≡◌, refl, true, false, [], ◌∷◌, none, arith}
use mpshell_ext.Prelude.Result.{ok, Returns}
use mpshell_ext.Prelude.Ends.{Ends}
use mpshell_ext.Packet.{Bytes}
use mpshell_ext.Ezio.{myatoi}
use mpshell_ext.Http.Text.{
  find, strip_initial_whitespace, equivalent_strings, http_to_lower, same_lower,
}
use mpshell_ext.Http.Header
use mpshell_ext.Http.Header.{HttpHeader}
use mpshell_ext.Http.Header.Laws.{parse-str}
use mpshell_ext.Http.Chunked
use mpshell_ext.Http.Chunked.{
  ChunkedBodyParser, substr, up_to, size_end, size_before, get_chunk_size, parse_header,
  parse_chunk, header_step, chunk_step, state_step, read_step, read_loop, compute_ack_size,
}
use mpshell_ext.Http.Chunked.Termination.{Ends-read}
use mpshell_ext.Http.Message.{
  body_pending, complete, set_expected_body_size, has_header, get_header_value, find_header,
  read_in_body,
}
use mpshell_ext.Http.Message.Laws.{IsReading, read_in_body-append}
use mpshell_ext.Http.Request
use mpshell_ext.Http.Request.{HttpRequest, request, content_length}
use mpshell_ext.Http.Sequence.{request_parser, parse}
use mpshell_ext.Http.Sequence.Requests.{Ends-parse_requests}
use mpshell_ext.Http.Sequence.Steps.{IsPlain}
use mpshell_ext.Http.Sequence.RoundTrip.{IsWritable, texts, with_requests, parse-texts}

-- "GET / a"
abbrev get_line : Bytes
get_line = b'G' ∷ b'E' ∷ b'T' ∷ 32 ∷ b'/' ∷ 32 ∷ b'a' ∷ []

abbrev get_request : HttpRequest
get_request = record {
  expected_body_size_ = (true, 0);
  first_line = get_line;
  headers = record { key = b'H' ∷ []; value = b'v' ∷ [] } ∷ [];
  body = [];
  state = complete;
  extra = tt;
}

-- "POST /", with two bytes.
abbrev post_request : HttpRequest
post_request = record {
  expected_body_size_ = (true, 2);
  first_line = b'P' ∷ b'O' ∷ b'S' ∷ b'T' ∷ 32 ∷ b'/' ∷ [];
  headers = record { key = content_length; value = b'2' ∷ [] } ∷ [];
  body = b'o' ∷ b'k' ∷ [];
  state = complete;
  extra = tt;
}

get-IsPlain : IsPlain (record { key = b'H' ∷ []; value = b'v' ∷ [] })
unfolding find strip_initial_whitespace Header.str
get-IsPlain = record { key = refl; value = refl; some_value = refl; line = refl }

post-IsPlain : IsPlain (record { key = content_length; value = b'2' ∷ [] })
unfolding find strip_initial_whitespace Header.str
post-IsPlain = record { key = refl; value = refl; some_value = refl; line = refl }

get-IsWritable : IsWritable get_request
unfolding find Request.calculate_expected_body_size set_expected_body_size
get-IsWritable = record {
  completed = refl;
  known = refl;
  line = refl;
  plain = (get-IsPlain, tt);
  sized = refl;
}

post-IsWritable : IsWritable post_request
unfolding find Request.calculate_expected_body_size set_expected_body_size has_header
    get_header_value find_header equivalent_strings strip_initial_whitespace same_lower
    http_to_lower myatoi
post-IsWritable = record {
  completed = refl;
  known = refl;
  line = refl;
  plain = (post-IsPlain, tt);
  sized = refl;
}

parse-texts_example : Returns (texts (get_request ∷ post_request ∷ [])) (λ t.
    parse request_parser t (with_requests [])
    ≡ ok (with_requests (get_request ∷ post_request ∷ [])))
parse-texts_example =
    parse-texts (get_request ∷ post_request ∷ []) (get-IsWritable, (post-IsWritable, tt))

Ends-parse_requests_example : Ends (parse request_parser get_line (with_requests []))
Ends-parse_requests_example = Ends-parse_requests get_line (with_requests [])

-- "1\r\nx\r\n0\r\n\r\n"
abbrev chunks : Bytes
chunks = b'1' ∷ 13 ∷ 10 ∷ b'x' ∷ 13 ∷ 10 ∷ b'0' ∷ 13 ∷ 10 ∷ 13 ∷ 10 ∷ []

-- The body ends where the input does.
read-chunks : Returns (Chunked.read chunks (Chunked.init false)) (λ r. r.0 ≡ 11)
unfolding Chunked.read read_loop read_step state_step header_step chunk_step parse_header
    parse_chunk get_chunk_size size_before size_end up_to substr compute_ack_size find myatoi
read-chunks = (_, refl, refl)

Ends-read_example : Ends (Chunked.read chunks (Chunked.init false))
Ends-read_example = Ends-read chunks (Chunked.init false)

-- A value that is empty comes back as a space.
abbrev no_value : HttpHeader
no_value = record { key = b'k' ∷ []; value = [] }

key_without_colon : find (b':' ∷ []) (b'k' ∷ []) ≡ none
unfolding find
key_without_colon = refl

parse-str_example : Header.parse (Header.str no_value) ≡ ok (record no_value { value = 32 ∷ [] })
unfolding strip_initial_whitespace
parse-str_example = parse-str no_value key_without_colon

-- One of four bytes is there.
abbrev half_read : HttpRequest
half_read = record post_request {
  expected_body_size_ = (true, 4);
  body = b'o' ∷ [];
  state = body_pending;
}

half_read-IsReading : IsReading 4 half_read
half_read-IsReading = record { pending = refl; known = refl; fits = omega arith }

read_in_body-append_example : Returns (read_in_body request (b'k' ∷ []) half_read) (λ r.
    (r.0 ≡ 1)
    × Returns (read_in_body request (b'e' ∷ b'y' ∷ b'G' ∷ []) r.1) (λ s.
      read_in_body request (b'k' ∷ b'e' ∷ b'y' ∷ b'G' ∷ []) half_read ≡ ok (r.0 + s.0, s.1)))
read_in_body-append_example =
    read_in_body-append request 4 (b'k' ∷ []) (b'e' ∷ b'y' ∷ b'G' ∷ []) half_read
      half_read-IsReading (omega arith)
