-- ===== src/Http/Sequence/Reading.antt =====
-- http_message_sequence.hh: a whole message that was written is read, round by round.
use mathlib.Core.List.{append_assoc, append-nil}
use mpshell_ext.Prelude.{◌≡◌, refl, sym, subst, ◌∙◌, false, List, [], ◌∷◌, ◌++◌, none, length, All}
use mpshell_ext.Prelude.Result.{ok}
use mpshell_ext.Packet.{Bytes}
use mpshell_ext.Http.Text.{crlf, find}
use mpshell_ext.Http.Header
use mpshell_ext.Http.Header.{HttpHeader}
use mpshell_ext.Http.Message.{
  Message, first_line_pending, headers_pending, body_pending, complete, blank, header_lines,
}
use mpshell_ext.Http.Message.Laws.{IsReading}
use mpshell_ext.Http.Sequence.{
  have_complete_line, SequenceType, HttpMessageSequence, step_first_line, parsing_step,
}
use mpshell_ext.Http.Sequence.Termination.{SequenceEnds}
use mpshell_ext.Http.Sequence.Lines.{Reaches, Reaches-round, Reaches-end}
use mpshell_ext.Http.Sequence.Steps.{
  IsPlain, reading, step-first_line, step-header, step-blank_line, step-body, step-complete,
}

module _ {S : SequenceType} (v : SequenceEnds S) where
  read_headers :
      (hs : List HttpHeader) (rest : Bytes) (done : List (Message S.message))
      (m : Message S.message) (own : S.State) (t : HttpMessageSequence S)
      → m.state ≡ headers_pending
      → All IsPlain hs
      → Reaches v (reading rest done (record m { headers = m.headers ++ hs }) own) t
      → Reaches v (reading (header_lines hs ++ rest) done m own) t
  read_headers [] rest done m own t e p r =
      subst (λ hs. Reaches v (reading rest done (record m { headers = hs }) own) t)
        (append-nil m.headers) r
  read_headers (h ∷ hs) rest done m own t e p r =
      let m' : Message S.message = record m { headers = m.headers ++ h ∷ [] } in
      let next : Reaches v (reading (header_lines hs ++ rest) done m' own) t =
        read_headers hs rest done m' own t e p.1 (
          subst (λ l. Reaches v (reading rest done (record m { headers = l }) own) t)
            (sym (append_assoc m.headers (h ∷ []) hs)) r) in
      let split : ((Header.str h ++ crlf) ++ header_lines hs) ++ rest
          ≡ Header.str h ++ (crlf ++ (header_lines hs ++ rest)) =
        append_assoc (Header.str h ++ crlf) (header_lines hs) rest
        ∙ append_assoc (Header.str h) crlf (header_lines hs ++ rest) in
      subst (λ b. Reaches v (reading b done m own) t) (sym split)
        (Reaches-round v (reading (Header.str h ++ (crlf ++ (header_lines hs ++ rest))) done m own)
          (reading (header_lines hs ++ rest) done m' own) t
          (step-header h (header_lines hs ++ rest) done m own e p.0) next)

  -- What a subclass makes of the first line and the headers of a message with this body.
  pub record Sized (own own' : S.State) (line : Bytes) (hs : List HttpHeader) (body : Bytes)
      (m0 ready : Message S.message) : Type 0 where
    pub starts : S.initialize_new_message own (blank S.message) ≡ ok (own', m0)
    pub state0 : m0.state ≡ first_line_pending
    pub headers0 : m0.headers ≡ []
    pub sized :
        S.message.calculate_expected_body_size
          (record m0 { first_line = line; headers = hs; state = body_pending })
        ≡ ok ready
    pub is_reading : IsReading (length body) ready
    pub no_body : ready.body ≡ []

  abbrev pub message_text : Bytes → List HttpHeader → Bytes → Bytes
  message_text line hs body = ((line ++ crlf) ++ header_lines hs) ++ (crlf ++ body)

  pub read_message :
      (line : Bytes) (hs : List HttpHeader) (body rest : Bytes) (done : List (Message S.message))
      (own own' : S.State) (m0 ready : Message S.message) (t : HttpMessageSequence S)
      → find crlf line ≡ none
      → All IsPlain hs
      → Sized own own' line hs body m0 ready
      → Reaches v
          (reading rest
            (done ++ record ready { body = body; state = complete } ∷ [])
            (blank S.message)
            own')
          t
      → Reaches v (reading (message_text line hs body ++ rest) done (blank S.message) own) t
  read_message line hs body rest done own own' m0 ready t l p z r =
      let finished : Message S.message = record ready { body = body; state = complete } in
      let after_line : Message S.message = record m0 {
        first_line = line;
        state = headers_pending;
      } in
      let r5 =
        Reaches-round v (reading rest done finished own') _ t
          (step-complete rest done finished own' refl) r in
      let r4 =
        Reaches-round v (reading (body ++ rest) done ready own') _ t
          (step-body body rest done ready own' z.is_reading z.no_body) r5 in
      let r3 =
        Reaches-round v
          (reading (crlf ++ (body ++ rest)) done (record after_line { headers = hs }) own') _ t
          (step-blank_line (body ++ rest) done (record after_line { headers = hs }) ready own' refl
            z.sized)
          r4 in
      let r2 = read_headers hs (crlf ++ (body ++ rest)) done after_line own' t refl p (
        subst
          (λ l0.
            Reaches v
              (reading (crlf ++ (body ++ rest)) done (record after_line { headers = l0 ++ hs })
                own')
              t)
          (sym z.headers0) r3) in
      let r1 =
        Reaches-round v
          (reading (line ++ (crlf ++ (header_lines hs ++ (crlf ++ (body ++ rest))))) done
            (blank S.message) own)
          _ t
          (step-first_line line (header_lines hs ++ (crlf ++ (body ++ rest))) done (blank S.message)
            m0 own own' refl l z.starts z.state0)
          r2 in
      subst (λ b. Reaches v (reading b done (blank S.message) own) t)
        (sym (split_text line hs body rest)) r1
    where
      split_text :
          (line : Bytes) (hs : List HttpHeader) (body rest : Bytes)
          → message_text line hs body ++ rest
            ≡ line ++ (crlf ++ (header_lines hs ++ (crlf ++ (body ++ rest))))
      split_text line hs body rest =
          append_assoc ((line ++ crlf) ++ header_lines hs) (crlf ++ body) rest
          ∙ append_assoc (line ++ crlf) (header_lines hs) ((crlf ++ body) ++ rest)
          ∙ append_assoc line crlf (header_lines hs ++ ((crlf ++ body) ++ rest))

  end_of_input :
      (done : List (Message S.message)) (own : S.State)
      → parsing_step S (reading [] done (blank S.message) own)
        ≡ ok (false, reading [] done (blank S.message) own)
  unfolding parsing_step step_first_line have_complete_line find
  end_of_input done own = refl

  pub Reaches-end_of_input :
      (done : List (Message S.message)) (own : S.State)
      → Reaches v (reading [] done (blank S.message) own) (reading [] done (blank S.message) own)
  Reaches-end_of_input done own = Reaches-end v _ _ (end_of_input done own)
