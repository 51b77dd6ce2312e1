-- ===== src/Http/Sequence/Responses.antt =====
-- http_response_parser.cc and http_response.cc: theorems on the end of the parser of responses.
use mpshell_ext.Prelude.{
  refl, Bool, true, false, ◌&&◌, not, List, [], ◌∷◌, Option, none, some, arith, ◌==◌, if◌then◌else◌,
}
use mpshell_ext.Prelude.Result.{ok, exception, ◌>>=◌, ◌>>◌, assert, require}
use mpshell_ext.Prelude.Ends.{Ends, Ends->>=, Ends-assert, Ends-require}
use mpshell_ext.Words.{max64}
use mpshell_ext.Packet.{Bytes}
use mpshell_ext.Ezio.{myatoi}
use mpshell_ext.Http.Text.{equivalent_strings}
use mpshell_ext.Http.Tokenize.{split, mime_type}
use mpshell_ext.Http.Chunked
use mpshell_ext.Http.Chunked.Termination.{Ends-read}
use mpshell_ext.Http.Message.{
  rank, body_pending, set_expected_body_size, has_header, get_header_value,
}
use mpshell_ext.Http.Request.{content_length}
use mpshell_ext.Http.Response
use mpshell_ext.Http.Response.{
  BodyParser, chunked_body, rule5_body, HttpResponse, status_code, has_no_body, is_chunked,
  is_multipart, with_parser, size_from_headers, read_in_complex_body, parse_body, eof_in_body,
  set_request_was_head, transfer_encoding, content_type, last_token,
}
use mpshell_ext.Http.Sequence.{HttpMessageSequence, parse, response_parser, initialize_response}
use mpshell_ext.Http.Sequence.Termination.{SequenceEnds, Ends-parse}
use mpshell_ext.Http.Sequence.Requests.{
  Ends-set_expected_body_size, Ends-get_header_value, Ends-size_of_header,
}

Ends-read_body : (str : Bytes) (p : BodyParser) → Ends (Response.read str p)
unfolding Response.read
Ends-read_body str (chunked_body p) =
    Ends->>= (Chunked.read str p) _ (Ends-read str p) (λ r e. refl)
Ends-read_body str rule5_body = refl

Ends-parse_body :
    (o : Option BodyParser) (str : Bytes) (m : HttpResponse) → Ends (parse_body o str m)
unfolding parse_body
Ends-parse_body none str m = refl
Ends-parse_body (some p) str m =
    Ends->>= (Response.read str p) _ (Ends-read_body str p) (λ r e. refl)

Ends-read_in_complex_body : (str : Bytes) (m : HttpResponse) → Ends (read_in_complex_body str m)
unfolding read_in_complex_body
Ends-read_in_complex_body str m =
    Ends->>= (assert (rank m.state == rank body_pending)) _
      (Ends-assert (rank m.state == rank body_pending))
      (λ u e. Ends-parse_body m.extra.body_parser str m)

Ends-status_code : (m : HttpResponse) → Ends (status_code m)
unfolding status_code
Ends-status_code m = ground arith

Ends-has_no_body : (code : Bytes) (m : HttpResponse) → Ends (has_no_body code m)
unfolding has_no_body
Ends-has_no_body [] m = refl
Ends-has_no_body (c ∷ cs) m = refl

Ends-is_chunked : (m : HttpResponse) → Ends (is_chunked m)
unfolding is_chunked
Ends-is_chunked m = go (has_header transfer_encoding m)
  where
    go :
        (b : Bool)
        → Ends (
            if b
            then (do
              value ← get_header_value transfer_encoding m
              ok (equivalent_strings (last_token (split value (b',' ∷ []))) Response.chunked))
            else ok false)
    go true =
        Ends->>= (get_header_value transfer_encoding m) _
          (Ends-get_header_value transfer_encoding m) (λ value e. refl)
    go false = refl

Ends-mime_type : (value : Bytes) → Ends (mime_type value)
unfolding mime_type
Ends-mime_type value = ground arith

Ends-is_multipart : (m : HttpResponse) → Ends (is_multipart m)
unfolding is_multipart
Ends-is_multipart m = go (has_header content_type m)
  where
    go :
        (b : Bool)
        → Ends (
            if b
            then (do
              value ← get_header_value content_type m
              type ← mime_type value
              ok (equivalent_strings type Response.multipart_byteranges))
            else ok false)
    go true =
        Ends->>= (get_header_value content_type m) _ (Ends-get_header_value content_type m)
          (λ value e. Ends->>= (mime_type value) _ (Ends-mime_type value) (λ type d. refl))
    go false = refl

Ends-with_parser : (p : BodyParser) (m : HttpResponse) → Ends (with_parser p m)
unfolding with_parser
Ends-with_parser p m =
    Ends->>= (set_expected_body_size false max64 m) _ (Ends-set_expected_body_size false max64 m)
      (λ m' e. refl)

Ends-size_from_headers : (m : HttpResponse) → Ends (size_from_headers m)
unfolding size_from_headers
Ends-size_from_headers m = go (not (has_header transfer_encoding m) && has_header content_length m)
  where
    go :
        (b : Bool)
        → Ends (
            if b
            then (do
              value ← get_header_value content_length m
              size ← myatoi 10 value
              set_expected_body_size true size m)
            else (do
              multipart ← is_multipart m
              require (not multipart) exception
              with_parser rule5_body m))
    go true = Ends-size_of_header content_length m
    go false = Ends->>= (is_multipart m) _ (Ends-is_multipart m) (λ multipart e.
        Ends->>= (require (not multipart) exception) _ (Ends-require (not multipart) exception refl)
          (λ u d. Ends-with_parser rule5_body m))

Ends-response_size : (m : HttpResponse) → Ends (Response.calculate_expected_body_size m)
unfolding Response.calculate_expected_body_size
Ends-response_size m =
    Ends->>= (assert (rank m.state == rank body_pending)) _
      (Ends-assert (rank m.state == rank body_pending))
      (λ u e.
        Ends->>= (status_code m) _ (Ends-status_code m)
          (λ code d. Ends->>= (has_no_body code m) _ (Ends-has_no_body code m) (λ b c. by_code b)))
  where
    by_chunks :
        (b : Bool)
        → Ends (
            if b
            then with_parser (chunked_body (Chunked.init (has_header Response.trailer m))) m
            else size_from_headers m)
    by_chunks true =
        Ends-with_parser (chunked_body (Chunked.init (has_header Response.trailer m))) m
    by_chunks false = Ends-size_from_headers m

    by_code :
        (b : Bool)
        → Ends (
            if b then set_expected_body_size true 0 m else (do
              c ← is_chunked m
              if c
                  then with_parser (chunked_body (Chunked.init (has_header Response.trailer m))) m
                  else size_from_headers m))
    by_code true = Ends-set_expected_body_size true 0 m
    by_code false = Ends->>= (is_chunked m) _ (Ends-is_chunked m) (λ c e. by_chunks c)

Ends-initialize_response : (own : List Bool) (m : HttpResponse) → Ends (initialize_response own m)
unfolding initialize_response set_request_was_head
Ends-initialize_response [] m = refl
Ends-initialize_response (was_head ∷ rest) m = ground arith

Ends-eof_in_body : (m : HttpResponse) → Ends (eof_in_body m)
unfolding eof_in_body
Ends-eof_in_body m = ground arith

response_parser_ends : SequenceEnds response_parser
response_parser_ends = record {
  message = record {
    sizes = Ends-response_size;
    bodies = Ends-read_in_complex_body;
    ends = Ends-eof_in_body;
  };
  starts = Ends-initialize_response;
}

-- The parser of responses ends, whatever the input and its state are.
pub Ends-parse_responses :
    (buf : Bytes) (s : HttpMessageSequence response_parser) → Ends (parse response_parser buf s)
Ends-parse_responses buf s = Ends-parse response_parser_ends buf s
