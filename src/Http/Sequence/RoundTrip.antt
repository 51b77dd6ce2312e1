-- ===== src/Http/Sequence/RoundTrip.antt =====
-- http_request_parser.hh: theorems on requests that are written one after the other and read.
use mathlib.Core.List.{append_assoc, append-nil}
use mpshell_ext.Prelude.{
  ◌+◌, ◌*◌, ◌≡◌, refl, sym, subst, Bool, true, false, List, [], ◌∷◌, ◌++◌, none, arith,
  if◌then◌else◌, length, is_nil, All,
}
use mpshell_ext.Prelude.Result.{Result, ok, Returns, ◌>>=◌}
use mpshell_ext.Packet.{Bytes}
use mpshell_ext.Http.Text.{crlf, find}
use mpshell_ext.Http.Message.{body_pending, complete, blank, eof, str}
use mpshell_ext.Http.Request
use mpshell_ext.Http.Request.{HttpRequest, request}
use mpshell_ext.Http.Sequence.{HttpMessageSequence, request_parser, parse, parsing_loop}
use mpshell_ext.Http.Sequence.Lines.{Reaches}
use mpshell_ext.Http.Sequence.Steps.{IsPlain, reading}
use mpshell_ext.Http.Sequence.Reading.{Sized, message_text, read_message, Reaches-end_of_input}
use mpshell_ext.Http.Sequence.Requests.{request_parser_ends}

-- A request whose headers have been read.
abbrev pub pending : HttpRequest → HttpRequest
pending m = record (blank request) {
  first_line = m.first_line;
  headers = m.headers;
  state = body_pending;
}

-- A complete request whose lines are lines, and whose body has the size that its headers say.
pub record IsWritable (m : HttpRequest) : Type 0 where
  pub completed : m.state ≡ complete
  pub known : m.expected_body_size_ ≡ (true, length m.body)
  pub line : find crlf m.first_line ≡ none
  pub plain : All IsPlain m.headers
  pub sized :
      Request.calculate_expected_body_size (pending m)
      ≡ ok (record (pending m) { expected_body_size_ = (true, length m.body) })

-- The texts of requests, one after the other.
unfoldable pub texts : List HttpRequest → Result Bytes
texts [] = ok []
texts (m ∷ ms) = do t ← str m; u ← texts ms; ok (t ++ u)

-- A parser that has read these requests, and nothing of another.
abbrev pub with_requests : List HttpRequest → HttpMessageSequence request_parser
with_requests ms = reading [] ms (blank request) tt

abbrev ready : HttpRequest → HttpRequest
ready m = record (pending m) { expected_body_size_ = (true, length m.body) }

Sized-request :
    (m : HttpRequest)
    → IsWritable m
    → Sized request_parser_ends tt tt m.first_line m.headers m.body (blank request) (ready m)
Sized-request m w = record {
  starts = refl;
  state0 = refl;
  headers0 = refl;
  sized = w.sized;
  is_reading = record { pending = refl; known = refl; fits = omega arith };
  no_body = refl;
}

same_request :
    (m : HttpRequest) → IsWritable m → record (ready m) { body = m.body; state = complete } ≡ m
same_request m w = ground (arith, w.completed, w.known)

text_of : HttpRequest → Bytes
text_of m = message_text request_parser_ends m.first_line m.headers m.body

str-request : (m : HttpRequest) → IsWritable m → str m ≡ ok (text_of m)
unfolding str text_of
str-request m w = rw w.completed refl

abbrev all_texts : List HttpRequest → Bytes
all_texts [] = []
all_texts (m ∷ ms) = text_of m ++ all_texts ms

texts-eq : (ms : List HttpRequest) → All IsWritable ms → texts ms ≡ ok (all_texts ms)
unfolding texts
texts-eq [] w = refl
texts-eq (m ∷ ms) w = rw (str-request m w.0) (rw (texts-eq ms w.1) refl)

Reaches-requests :
    (ms done : List HttpRequest)
    → All IsWritable ms
    → Reaches request_parser_ends
        (reading (all_texts ms) done (blank request) tt)
        (with_requests (done ++ ms))
unfolding text_of
Reaches-requests [] done w =
    subst (λ l. Reaches request_parser_ends (reading [] done (blank request) tt) (with_requests l))
      (sym (append-nil done)) (Reaches-end_of_input request_parser_ends done tt)
Reaches-requests (m ∷ ms) done w =
    let r = Reaches-requests ms (done ++ m ∷ []) w.1 in
    read_message request_parser_ends m.first_line m.headers m.body (all_texts ms) done tt tt
      (blank request) (ready m) (with_requests (done ++ m ∷ ms)) w.0.line w.0.plain
      (Sized-request m w.0)
      (subst
        (λ x.
          Reaches request_parser_ends (reading (all_texts ms) (done ++ x ∷ []) (blank request) tt)
            (with_requests (done ++ m ∷ ms)))
        (sym (same_request m w.0))
        (subst
          (λ l.
            Reaches request_parser_ends (reading (all_texts ms) (done ++ m ∷ []) (blank request) tt)
              (with_requests l))
          (append_assoc done (m ∷ []) ms) r))

-- Complete requests whose lines are well formed and whose bodies have the sizes that their headers
-- say can be written, and a new parser reads from their texts exactly these requests.
pub parse-texts :
    (ms : List HttpRequest)
    → All IsWritable ms
    → Returns (texts ms) (λ t. parse request_parser t (with_requests []) ≡ ok (with_requests ms))
unfolding parse eof
parse-texts ms w = (
  all_texts ms,
  texts-eq ms w,
  begin_parse (is_nil (all_texts ms))
      (Reaches-requests ms [] w (2 * length (all_texts ms) + 3) (omega arith)),
)
  where
    begin_parse :
        (b : Bool)
        → parsing_loop request_parser
            (2 * length (all_texts ms) + 3)
            (reading (all_texts ms) [] (blank request) tt)
          ≡ ok (with_requests ms)
        → (do
          m ← if b then eof request (blank request) else ok (blank request)
          let s' = record (with_requests []) { buffer = all_texts ms; message_in_progress = m }
          parsing_loop request_parser (2 * length s'.buffer + 3) s')
          ≡ ok (with_requests ms)
    begin_parse true e = e
    begin_parse false e = e
