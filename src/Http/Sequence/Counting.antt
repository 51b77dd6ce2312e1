-- ===== src/Http/Sequence/Counting.antt =====
-- http_request_parser.hh and http_response_parser.cc: how many messages a parser has in hand.
use mathlib.Core.List.{append_assoc, append-nil}
use mpshell_ext.Prelude.{
  ℕ, suc, ◌+◌, ◌≡◌, refl, sym, ap, ◌∙◌, Bool, List, [], ◌∷◌, ◌++◌, arith, if◌then◌else◌, length,
  length-append,
}
use mpshell_ext.Prelude.Result.{ok}
use mpshell_ext.Prelude.Ends.{Meets, Meets-of_Gives}
use mpshell_ext.Packet.{Bytes}
use mpshell_ext.Http.Message.{Message}
use mpshell_ext.Http.Response.{HttpResponse, set_request_was_head}
use mpshell_ext.Http.Sequence.{
  HttpMessageSequence, SequenceType, request_parser, response_parser, initialize_response, parse,
}
use mpshell_ext.Http.Sequence.Moves.{begun, Moved, goes_on, begins, completes, R-parse}
use mpshell_ext.Http.Sequence.Requests.{Ends-parse_requests}
use mpshell_ext.Http.Sequence.Responses.{Ends-parse_responses}
use mpshell_ext.Http.Sequence.Begun.{request-KeepsBegun, response-KeepsBegun}

-- What parse does to the complete requests: it puts others behind them.
pub record Grows {S : SequenceType} (s t : HttpMessageSequence S) : Type 0 where
  pub more : List (Message S.message)
  pub behind : t.complete_messages ≡ s.complete_messages ++ more

Grows-Moved : {S : SequenceType} (s t : HttpMessageSequence S) → Moved S s t → Grows s t
Grows-Moved s t (goes_on e f g) = record {
  more = [];
  behind = e ∙ sym (append-nil s.complete_messages);
}
Grows-Moved s t (begins e m f g h) = record {
  more = [];
  behind = e ∙ sym (append-nil s.complete_messages);
}
Grows-Moved s t (completes e f g h) = record { more = s.message_in_progress ∷ []; behind = e }

Grows-refl : {S : SequenceType} (s : HttpMessageSequence S) → Grows s s
Grows-refl s = record { more = []; behind = sym (append-nil s.complete_messages) }

Grows-trans : {S : SequenceType} (s t u : HttpMessageSequence S) → Grows s t → Grows t u → Grows s u
Grows-trans s t u g h = record {
  more = g.more ++ h.more;
  behind =
      h.behind ∙ ap (λ l. l ++ h.more) g.behind ∙ append_assoc s.complete_messages g.more h.more;
}

-- Whatever a parser of requests is given, its complete requests stay, and others come behind them.
pub Meets-parse_requests :
    (buf : Bytes) (s : HttpMessageSequence request_parser)
    → Meets (parse request_parser buf s) (Grows s)
Meets-parse_requests buf s =
    Meets-of_Gives (Grows s) (parse request_parser buf s) (Ends-parse_requests buf s)
      (R-parse request_parser request-KeepsBegun Grows Grows-refl Grows-trans Grows-Moved buf s)

-- The responses that are complete or have begun, and those that are expected.
abbrev pub in_hand : HttpMessageSequence response_parser → ℕ
in_hand s =
    length s.complete_messages + length s.own + (if begun s.message_in_progress.state then 1 else 0)

pub record Balanced (s t : HttpMessageSequence response_parser) : Type 0 where
  pub grows : Grows s t
  pub balance : in_hand t ≡ in_hand s

-- A response that begins takes one of those that are expected.
initialize_response-length :
    (own own' : List Bool) (m m' : HttpResponse)
    → initialize_response own m ≡ ok (own', m')
    → length own ≡ suc (length own')
unfolding initialize_response set_request_was_head
initialize_response-length [] own' m m' e = absurd (cc)
initialize_response-length (was_head ∷ rest) own' m m' e = ground arith

Balanced-Moved :
    (s t : HttpMessageSequence response_parser) → Moved response_parser s t → Balanced s t
Balanced-Moved s t (goes_on e f g) = record {
  grows = Grows-Moved s t (goes_on e f g);
  balance = rw (e, f, g) refl;
}
Balanced-Moved s t (begins e m f g h) = record {
  grows = Grows-Moved s t (begins e m f g h);
  balance =
      rw (e, g, h)
        (omega (arith, initialize_response-length s.own t.own s.message_in_progress m f));
}
Balanced-Moved s t (completes e f g h) = record {
  grows = Grows-Moved s t (completes e f g h);
  balance =
      rw (e, f, g, h)
        (omega (arith, length-append s.complete_messages (s.message_in_progress ∷ [])));
}

-- Whatever a parser of responses is given, its complete responses stay, and what it has in hand and
-- expects is as many as before.
pub Meets-parse_responses :
    (buf : Bytes) (s : HttpMessageSequence response_parser)
    → Meets (parse response_parser buf s) (Balanced s)
Meets-parse_responses buf s =
    Meets-of_Gives (Balanced s) (parse response_parser buf s) (Ends-parse_responses buf s) (
      R-parse response_parser response-KeepsBegun Balanced
        (λ s. record { grows = Grows-refl s; balance = refl })
        (λ s t u g h. record {
          grows = Grows-trans s t u g.grows h.grows;
          balance = h.balance ∙ g.balance;
        })
        Balanced-Moved buf s)
