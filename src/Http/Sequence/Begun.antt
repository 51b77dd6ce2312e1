-- ===== src/Http/Sequence/Begun.antt =====
-- http_request.cc and http_response.cc: a message whose body is awaited has begun.
use mpshell_ext.Prelude.{
  ℕ, ◌≡◌, Bool, true, false, ◌&&◌, not, Option, none, some, arith, ◌==◌, if◌then◌else◌,
}
use mpshell_ext.Prelude.Result.{err, exception, ◌>>=◌, ◌>>◌, assert, require}
use mpshell_ext.Prelude.Ends.{Gives, Gives->>=, Gives-any, Always}
use mpshell_ext.Words.{max64}
use mpshell_ext.Packet.{Bytes}
use mpshell_ext.Ezio.{myatoi}
use mpshell_ext.Http.Chunked
use mpshell_ext.Http.Chunked.{npos}
use mpshell_ext.Http.Message.{
  HttpMessage, rank, body_pending, set_expected_body_size, has_header, get_header_value,
}
use mpshell_ext.Http.Request
use mpshell_ext.Http.Request.{HttpRequest, request, content_length}
use mpshell_ext.Http.Response
use mpshell_ext.Http.Response.{
  HttpResponse, BodyParser, response, size_from_headers, with_parser, status_code, has_no_body,
  is_chunked, is_multipart, take_body, parse_body, read_in_complex_body, transfer_encoding, trailer,
  chunked_body, rule5_body, set_request_was_head,
}
use mpshell_ext.Http.Sequence.Moves.{begun, KeepsBegun}

module _ {E : Type 0} where
  abbrev Began : HttpMessage E → Type 0
  Began m = begun m.state ≡ true

  Began-set_expected_body_size :
      (known : Bool) (size : ℕ) (m : HttpMessage E)
      → Began m
      → Gives (set_expected_body_size known size m) Began
  unfolding set_expected_body_size
  Began-set_expected_body_size known size m h = ground arith

  -- The size that a header says.
  Began-size_of_header :
      (name : Bytes) (m : HttpMessage E)
      → Began m
      → Gives
          (do
            value ← get_header_value name m
            size ← myatoi 10 value
            set_expected_body_size true size m)
          Began
  Began-size_of_header name m h =
      Gives->>= Always Began (get_header_value name m) _ (Gives-any (get_header_value name m))
        (λ value e u.
          Gives->>= Always Began (myatoi 10 value) _ (Gives-any (myatoi 10 value))
            (λ size f v. Began-set_expected_body_size true size m h))

pub request-KeepsBegun : KeepsBegun request
unfolding Request.calculate_expected_body_size
request-KeepsBegun = record { sizes = sizes; bodies = λ str m h. tt }
  where
    by_method :
        (b c : Bool) (m : HttpRequest)
        → begun m.state ≡ true
        → Gives
            (if b
              then set_expected_body_size true 0 m
              else if c
              then (do
                require (has_header content_length m) exception
                value ← get_header_value content_length m
                size ← myatoi 10 value
                set_expected_body_size true size m)
              else err exception)
            Began
    by_method true c m h = Began-set_expected_body_size true 0 m h
    by_method false true m h =
        Gives->>= Always Began (require (has_header content_length m) exception) _
          (Gives-any (require (has_header content_length m) exception))
          (λ u e v. Began-size_of_header content_length m h)
    by_method false false m h = tt

    sizes :
        (m : HttpRequest)
        → begun m.state ≡ true
        → Gives (Request.calculate_expected_body_size m) Began
    sizes m h =
        Gives->>= Always Began (assert (rank m.state == rank body_pending)) _
          (Gives-any (assert (rank m.state == rank body_pending))) (λ u e v. by_method _ _ m h)

Began-with_parser : (p : BodyParser) (m : HttpResponse) → Began m → Gives (with_parser p m) Began
unfolding with_parser
Began-with_parser p m h =
    Gives->>= Began Began (set_expected_body_size false max64 m) _
      (Began-set_expected_body_size false max64 m h) (λ m' e k. k)

Began-size_from_headers : (m : HttpResponse) → Began m → Gives (size_from_headers m) Began
unfolding size_from_headers
Began-size_from_headers m h =
    by_header (not (has_header transfer_encoding m) && has_header content_length m)
  where
    by_header :
        (b : Bool)
        → Gives
            (if b
              then (do
                value ← get_header_value content_length m
                size ← myatoi 10 value
                set_expected_body_size true size m)
              else (do
                multipart ← is_multipart m
                require (not multipart) exception
                with_parser rule5_body m))
            Began
    by_header true = Began-size_of_header content_length m h
    by_header false =
        Gives->>= Always Began (is_multipart m) _ (Gives-any (is_multipart m)) (λ multipart e u.
          Gives->>= Always Began (require (not multipart) exception) _
            (Gives-any (require (not multipart) exception))
            (λ v f w. Began-with_parser rule5_body m h))

Began-calculate :
    (m : HttpResponse) → Began m → Gives (Response.calculate_expected_body_size m) Began
unfolding Response.calculate_expected_body_size
Began-calculate m h =
    Gives->>= Always Began (assert (rank m.state == rank body_pending)) _
      (Gives-any (assert (rank m.state == rank body_pending)))
      (λ u e a. Gives->>= Always Began (status_code m) _ (Gives-any (status_code m)) (λ code f b.
        Gives->>= Always Began (has_no_body code m) _ (Gives-any (has_no_body code m))
          (λ no_body g c. by_body no_body)))
  where
    chunked_or_not :
        (c : Bool)
        → Gives
            (if c
              then with_parser (chunked_body (Chunked.init (has_header trailer m))) m
              else size_from_headers m)
            Began
    chunked_or_not true = Began-with_parser (chunked_body (Chunked.init (has_header trailer m))) m h
    chunked_or_not false = Began-size_from_headers m h

    by_body :
        (no_body : Bool)
        → Gives
            (if no_body then set_expected_body_size true 0 m else (do
              c ← is_chunked m
              if c
                  then with_parser (chunked_body (Chunked.init (has_header trailer m))) m
                  else size_from_headers m))
            Began
    by_body true = Began-set_expected_body_size true 0 m h
    by_body false =
        Gives->>= Always Began (is_chunked m) _ (Gives-any (is_chunked m))
          (λ c e u. chunked_or_not c)

Began-take_body :
    (n : ℕ) (p : BodyParser) (str : Bytes) (m : HttpResponse)
    → Began m
    → Began ((take_body n p str m).1)
unfolding take_body
Began-take_body n p str m h = ground arith

Began-parse_body :
    (o : Option BodyParser) (str : Bytes) (m : HttpResponse)
    → Began m
    → Gives (parse_body o str m) (λ r. Began r.1)
unfolding parse_body
Began-parse_body none str m h = tt
Began-parse_body (some p) str m h =
    Gives->>= Always (λ r. Began r.1) (Response.read str p) _ (Gives-any (Response.read str p))
      (λ r e u. Began-take_body r.0 r.1 str m h)

Began-read_in_complex_body :
    (str : Bytes) (m : HttpResponse) → Began m → Gives (read_in_complex_body str m) (λ r. Began r.1)
unfolding read_in_complex_body
Began-read_in_complex_body str m h =
    Gives->>= Always (λ r. Began r.1) (assert (rank m.state == rank body_pending)) _
      (Gives-any (assert (rank m.state == rank body_pending)))
      (λ u e v. Began-parse_body m.extra.body_parser str m h)

pub response-KeepsBegun : KeepsBegun response
response-KeepsBegun = record { sizes = Began-calculate; bodies = Began-read_in_complex_body }
