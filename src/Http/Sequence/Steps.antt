-- ===== src/Http/Sequence/Steps.antt =====
-- http_message_sequence.hh: lemmas on the single rounds that read a message which was written.
use mpshell_ext.Prelude.{
  ◌≡◌, refl, ◌∙◌, true, false, List, [], ◌∷◌, ◌++◌, none, arith, length, is_nil, take-append,
  drop-append, length-append,
}
use mpshell_ext.Prelude.Result.{ok}
use mpshell_ext.Packet.{Bytes}
use mpshell_ext.Http.Text.{crlf, find, strip_initial_whitespace}
use mpshell_ext.Http.Header
use mpshell_ext.Http.Header.{HttpHeader}
use mpshell_ext.Http.Header.Laws.{parse-str}
use mpshell_ext.Http.Message.{
  Message, first_line_pending, headers_pending, body_pending, complete, blank, set_first_line,
  add_header, done_with_headers, read_known,
}
use mpshell_ext.Http.Message.Laws.{IsReading, read_in_body-known}
use mpshell_ext.Http.Sequence.{
  pop_bytes, SequenceType, HttpMessageSequence, step_first_line, step_headers, step_body,
  step_complete, parsing_step,
}
use mpshell_ext.Http.Sequence.Lines.{have_complete_line-append, get_and_pop_line-append}

-- A header that is one line, whose key has no colon and whose value begins with no space.
pub record IsPlain (h : HttpHeader) : Type 0 where
  pub key : find (b':' ∷ []) h.key ≡ none
  pub value : strip_initial_whitespace h.value ≡ h.value
  pub some_value : is_nil h.value ≡ false
  pub line : find crlf (Header.str h) ≡ none

parse-plain : (h : HttpHeader) → IsPlain h → Header.parse (Header.str h) ≡ ok h
parse-plain h p = parse-str h p.key ∙ rw (p.value, p.some_value) refl

is_nil-str : (h : HttpHeader) → is_nil (Header.str h) ≡ false
unfolding Header.str
is_nil-str h = go h.key
  where
    go : (key : Bytes) → is_nil (key ++ (b':' ∷ 32 ∷ h.value)) ≡ false
    go [] = refl
    go (c ∷ cs) = refl

module _ {S : SequenceType} where
  -- A sequence with this buffer, and this message in progress.
  abbrev pub reading :
      Bytes → List (Message S.message) → Message S.message → S.State → HttpMessageSequence S
  reading buffer done m own = record {
    buffer = buffer;
    complete_messages = done;
    message_in_progress = m;
    own = own;
  }

  pub step-first_line :
      (line rest : Bytes) (done : List (Message S.message)) (m m0 : Message S.message)
      (own own' : S.State)
      → m.state ≡ first_line_pending
      → find crlf line ≡ none
      → S.initialize_new_message own m ≡ ok (own', m0)
      → m0.state ≡ first_line_pending
      → parsing_step S (reading (line ++ (crlf ++ rest)) done m own)
        ≡ ok (
          true,
          reading rest done (record m0 { first_line = line; state = headers_pending }) own',
        )
  unfolding parsing_step step_first_line set_first_line
  step-first_line line rest done m m0 own own' e h i e0 =
      rw (e, parsing_step)
        (ground (
          arith,
          have_complete_line-append line rest h,
          get_and_pop_line-append line rest h,
          i,
          e0,
        ))

  pub step-header :
      (h : HttpHeader) (rest : Bytes) (done : List (Message S.message)) (m : Message S.message)
      (own : S.State)
      → m.state ≡ headers_pending
      → IsPlain h
      → parsing_step S (reading (Header.str h ++ (crlf ++ rest)) done m own)
        ≡ ok (true, reading rest done (record m { headers = m.headers ++ h ∷ [] }) own)
  unfolding parsing_step step_headers add_header
  step-header h rest done m own e p =
      rw (e, parsing_step)
        (ground (
          arith,
          have_complete_line-append (Header.str h) rest p.line,
          get_and_pop_line-append (Header.str h) rest p.line,
          is_nil-str h,
          parse-plain h p,
        ))

  pub step-blank_line :
      (rest : Bytes) (done : List (Message S.message)) (m m' : Message S.message) (own : S.State)
      → m.state ≡ headers_pending
      → S.message.calculate_expected_body_size (record m { state = body_pending }) ≡ ok m'
      → parsing_step S (reading (crlf ++ rest) done m own) ≡ ok (true, reading rest done m' own)
  unfolding parsing_step step_headers done_with_headers
  step-blank_line rest done m m' own e c =
      rw (e, parsing_step)
        (ground (
          arith,
          have_complete_line-append [] rest (unfold find in refl),
          get_and_pop_line-append [] rest (unfold find in refl),
          c,
        ))

  parsing_step-body :
      (s : HttpMessageSequence S)
      → s.message_in_progress.state ≡ body_pending
      → parsing_step S s ≡ step_body S s
  unfolding parsing_step
  parsing_step-body s e = ground (arith, e)

  parsing_step-complete :
      (s : HttpMessageSequence S)
      → s.message_in_progress.state ≡ complete
      → parsing_step S s ≡ ok (true, step_complete S s)
  unfolding parsing_step
  parsing_step-complete s e = ground (arith, e)

  step_body-known :
      (body rest : Bytes) (done : List (Message S.message)) (m : Message S.message) (own : S.State)
      → IsReading (length body) m
      → m.body ≡ []
      → step_body S (reading (body ++ rest) done m own)
        ≡ ok (true, reading rest done (record m { body = body; state = complete }) own)
  unfolding step_body read_known pop_bytes
  step_body-known body rest done m own r e =
      rw (read_in_body-known S.message (length body) (body ++ rest) m r) (
        ground (
          arith,
          e,
          r.pending,
          length-append body rest,
          take-append body rest,
          drop-append body rest,
        ))

  pub step-body :
      (body rest : Bytes) (done : List (Message S.message)) (m : Message S.message) (own : S.State)
      → IsReading (length body) m
      → m.body ≡ []
      → parsing_step S (reading (body ++ rest) done m own)
        ≡ ok (true, reading rest done (record m { body = body; state = complete }) own)
  step-body body rest done m own r e =
      parsing_step-body (reading (body ++ rest) done m own) r.pending
      ∙ step_body-known body rest done m own r e

  pub step-complete :
      (rest : Bytes) (done : List (Message S.message)) (m : Message S.message) (own : S.State)
      → m.state ≡ complete
      → parsing_step S (reading rest done m own)
        ≡ ok (true, reading rest (done ++ m ∷ []) (blank S.message) own)
  step-complete rest done m own e =
      parsing_step-complete (reading rest done m own) e ∙ (unfold step_complete in refl)
