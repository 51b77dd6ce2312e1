-- ===== src/Http/Sequence.antt =====
-- http_message_sequence.hh: messages that come one after the other; and its two subclasses, of
-- http_request_parser.hh and http_response_parser.hh and .cc.
pub mod Termination
pub mod Lines
pub mod Steps
pub mod Reading
pub mod Requests
pub mod Responses
pub mod RoundTrip
pub mod Moves
pub mod Begun
pub mod Counting
use mpshell_ext.Prelude.{
  ℕ, zero, suc, ◌+◌, ◌*◌, Bool, true, false, ◌||◌, List, [], ◌∷◌, ◌++◌, Option, none, some, leb,
  ◌==◌, if◌then◌else◌, length, is_nil, take, drop,
}
use mpshell_ext.Prelude.Result.{
  Result, ok, err, assertion_failed, exception, out_of_fuel, ◌>>=◌, ◌>>◌, assert,
}
use mpshell_ext.Packet.{Bytes}
use mpshell_ext.Http.Text.{crlf, find}
use mpshell_ext.Http.Message.{
  HttpMessage, MessageType, Message, first_line_pending, headers_pending, body_pending, complete,
  rank, blank, set_first_line, add_header, done_with_headers, read_in_body, eof,
}
use mpshell_ext.Http.Request.{request, HttpRequest, is_head}
use mpshell_ext.Http.Response.{response, set_request_was_head}

unfoldable pub have_complete_line : Bytes → Bool
have_complete_line buffer = elim (find crlf buffer) [ none ↦ false | some i ↦ true ]

unfoldable pub pop_bytes : ℕ → Bytes → Result Bytes
pop_bytes num buffer = do assert (leb num (length buffer)); ok (drop num buffer)

unfoldable pub line_at : Option ℕ → Bytes → Result (Bytes × Bytes)
line_at none buffer = err assertion_failed
line_at (some first_line_ending) buffer = do
  rest ← pop_bytes (first_line_ending + 2) buffer
  ok (take first_line_ending buffer, rest)

-- The first line and what follows it.
unfoldable pub get_and_pop_line : Bytes → Result (Bytes × Bytes)
get_and_pop_line buffer = line_at (find crlf buffer) buffer

-- A subclass: the type of its messages, its state, and what it does to begin a message.
pub record SequenceType : Type 1 where
  pub message : MessageType
  pub State : Type 0
  pub initialize_new_message : State → Message message → Result (State × Message message)

module _ (S : SequenceType) where
  pub record HttpMessageSequence : Type 0 where
    pub buffer : Bytes
    pub complete_messages : List (Message S.message)
    pub message_in_progress : Message S.message
    pub own : S.State

  -- A step says whether to continue.
  abbrev pub Step : Type 0
  Step = Result (Bool × HttpMessageSequence)

  unfoldable pub step_first_line : HttpMessageSequence → Step
  step_first_line s =
      if have_complete_line s.buffer
      then (do
        i ← S.initialize_new_message s.own s.message_in_progress
        line ← get_and_pop_line s.buffer
        m ← set_first_line line.0 i.1
        ok (true, record s { buffer = line.1; message_in_progress = m; own = i.0 }))
      else ok (false, s)

  unfoldable pub step_headers : HttpMessageSequence → Step
  step_headers s =
      if have_complete_line s.buffer
      then (do
        line ← get_and_pop_line s.buffer
        m ←
            if is_nil line.0
            then done_with_headers S.message s.message_in_progress
            else add_header line.0 s.message_in_progress
        ok (true, record s { buffer = line.1; message_in_progress = m }))
      else ok (false, s)

  unfoldable pub step_body : HttpMessageSequence → Step
  step_body s = do
    r ← read_in_body S.message s.buffer s.message_in_progress
    assert (r.0 == length s.buffer || rank r.1.state == rank complete)
    rest ← pop_bytes r.0 s.buffer
    ok (rank r.1.state == rank complete, record s { buffer = rest; message_in_progress = r.1 })

  unfoldable pub step_complete : HttpMessageSequence → HttpMessageSequence
  step_complete s = record s {
    complete_messages = s.complete_messages ++ s.message_in_progress ∷ [];
    message_in_progress = blank S.message;
  }

  unfoldable pub parsing_step : HttpMessageSequence → Step
  parsing_step s = elim s.message_in_progress.state [
    | first_line_pending ↦ step_first_line s
    | headers_pending ↦ step_headers s
    | body_pending ↦ step_body s
    | complete ↦ ok (true, step_complete s)
  ]

  -- `while ( parsing_step() ) {}`
  unfoldable pub parsing_loop : ℕ → HttpMessageSequence → Result HttpMessageSequence
  parsing_loop zero s = err out_of_fuel
  parsing_loop (suc fuel) s = do
    r ← parsing_step s
    elim r.0 [ false ↦ ok r.1 | true ↦ parsing_loop fuel r.1 ]

  -- A line takes two bytes at least; a body that ends, and a message that is complete, take a round
  -- each.
  abbrev pub fuel_for : HttpMessageSequence → ℕ
  fuel_for s = 2 * length s.buffer + 3

  -- The empty string is the end of the connection.
  unfoldable pub parse : Bytes → HttpMessageSequence → Result HttpMessageSequence
  parse buf s = do
    m ← if is_nil buf then eof S.message s.message_in_progress else ok s.message_in_progress
    let s' = record s { buffer = s.buffer ++ buf; message_in_progress = m }
    parsing_loop (fuel_for s') s'

  abbrev pub empty : HttpMessageSequence → Bool
  empty s = is_nil s.complete_messages

  -- The first complete message, and the sequence without it; `none` if there is none, where the code
  -- has undefined behaviour.
  unfoldable pub front : HttpMessageSequence → Option (Message S.message)
  front s = elim s.complete_messages [ [] ↦ none | m ∷ ms ↦ some m ]

  unfoldable pub pop : HttpMessageSequence → Option HttpMessageSequence
  pop s = elim s.complete_messages [
    | [] ↦ none
    | m ∷ ms ↦ some (record s { complete_messages = ms })
  ]

abbrev pub request_parser : SequenceType
request_parser = record {
  message = request;
  State = Unit {0};
  initialize_new_message = λ u m. ok (u, m);
}

-- `own` is `requests_were_head_`: for each request that has no response yet, whether it was HEAD.
unfoldable pub initialize_response :
    List Bool → Message response → Result (List Bool × Message response)
initialize_response requests_were_head m = elim requests_were_head [
  | [] ↦ err exception
  | was_head ∷ rest ↦ do m' ← if was_head then set_request_was_head m else ok m; ok (rest, m')
]

abbrev pub response_parser : SequenceType
response_parser = record {
  message = response;
  State = List Bool;
  initialize_new_message = initialize_response;
}

unfoldable pub new_request_arrived :
    HttpRequest → HttpMessageSequence response_parser → Result (HttpMessageSequence response_parser)
new_request_arrived r s = do was_head ← is_head r; ok (record s { own = s.own ++ was_head ∷ [] })
