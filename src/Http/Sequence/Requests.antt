-- ===== src/Http/Sequence/Requests.antt =====
-- http_request_parser.hh and http_request.cc: theorems on the end of the parser of requests.
use mpshell_ext.Prelude.{ℕ, refl, Bool, true, false, ◌||◌, arith, ◌==◌, if◌then◌else◌, take}
use mpshell_ext.Prelude.Result.{err, exception, ◌>>=◌, ◌>>◌, assert, require}
use mpshell_ext.Prelude.Ends.{Ends, Ends->>=, Ends-assert, Ends-require}
use mpshell_ext.Packet.{Bytes}
use mpshell_ext.Ezio.{myatoi}
use mpshell_ext.Http.Text.{same_bytes}
use mpshell_ext.Http.Chunked.Termination.{Ends-myatoi}
use mpshell_ext.Http.Message.{
  HttpMessage, rank, body_pending, set_expected_body_size, has_header, get_header_value,
}
use mpshell_ext.Http.Request
use mpshell_ext.Http.Request.{content_length, HttpRequest}
use mpshell_ext.Http.Sequence.{HttpMessageSequence, parse, request_parser}
use mpshell_ext.Http.Sequence.Termination.{SequenceEnds, Ends-parse}

module _ {E : Type 0} where
  pub Ends-set_expected_body_size :
      (known : Bool) (size : ℕ) (m : HttpMessage E) → Ends (set_expected_body_size known size m)
  unfolding set_expected_body_size
  Ends-set_expected_body_size known size m = ground arith

  pub Ends-get_header_value : (name : Bytes) (m : HttpMessage E) → Ends (get_header_value name m)
  unfolding get_header_value
  Ends-get_header_value name m = ground arith

  pub Ends-size_of_header :
      (name : Bytes) (m : HttpMessage E)
      → Ends (do
        value ← get_header_value name m
        size ← myatoi 10 value
        set_expected_body_size true size m)
  Ends-size_of_header name m =
      Ends->>= (get_header_value name m) _ (Ends-get_header_value name m) (λ value e.
        Ends->>= (myatoi 10 value) _ (Ends-myatoi 10 value)
          (λ size d. Ends-set_expected_body_size true size m))

Ends-request_size : (m : HttpRequest) → Ends (Request.calculate_expected_body_size m)
unfolding Request.calculate_expected_body_size
Ends-request_size m =
    Ends->>= (assert (rank m.state == rank body_pending)) _
      (Ends-assert (rank m.state == rank body_pending))
      (λ u e.
        by_method
          (same_bytes (take 4 m.first_line) Request.get_method
            || same_bytes (take 5 m.first_line) Request.head_method)
          (same_bytes (take 5 m.first_line) Request.post_method))
  where
    by_method :
        (g p : Bool)
        → Ends (
            if g
            then set_expected_body_size true 0 m
            else if p
            then (do
              require (has_header content_length m) exception
              value ← get_header_value content_length m
              size ← myatoi 10 value
              set_expected_body_size true size m)
            else err exception)
    by_method true p = Ends-set_expected_body_size true 0 m
    by_method false true =
        Ends->>= (require (has_header content_length m) exception) _
          (Ends-require (has_header content_length m) exception refl)
          (λ u e. Ends-size_of_header content_length m)
    by_method false false = refl

pub request_parser_ends : SequenceEnds request_parser
request_parser_ends = record {
  message = record { sizes = Ends-request_size; bodies = λ str m. refl; ends = λ m. refl };
  starts = λ own m. refl;
}

-- The parser of requests ends, whatever the input and its state are.
pub Ends-parse_requests :
    (buf : Bytes) (s : HttpMessageSequence request_parser) → Ends (parse request_parser buf s)
Ends-parse_requests buf s = Ends-parse request_parser_ends buf s
