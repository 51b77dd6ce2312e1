-- ===== src/Http/Sequence/Termination.antt =====
-- http_message_sequence.hh: lemmas on the end of the loop of `parse`.
use mpshell_ext.Prelude.{
  ℕ, zero, suc, ◌+◌, ◌*◌, ◌≤◌, ◌<◌, ◌≡◌, refl, ap, Bool, true, false, ◌||◌, ◌++◌, Option, none,
  some, arith, leb, ◌==◌, if◌then◌else◌, length, is_nil, drop, length-drop, Bool-cases, inl, inr,
}
use mpshell_ext.Prelude.Result.{Result, ok, ◌>>=◌, ◌>>◌, assert}
use mpshell_ext.Prelude.Ends.{
  Ends, Ends->>=, Meets, Meets->>=, Meets-Ends, Ends-Meets, Ends-assert, Always,
}
use mpshell_ext.Packet.{Bytes}
use mpshell_ext.Http.Text.Laws.{find-bounded}
use mpshell_ext.Http.Text.{crlf, find}
use mpshell_ext.Http.Header
use mpshell_ext.Http.Message.{
  HttpMessage, HttpMessageState, MessageType, Message, first_line_pending, headers_pending,
  body_pending, complete, rank, set_first_line, add_header, done_with_headers, read_in_body,
  body_size_is_known, expected_body_size, eof,
}
use mpshell_ext.Http.Sequence.{
  have_complete_line, pop_bytes, line_at, get_and_pop_line, SequenceType, HttpMessageSequence,
  step_first_line, step_headers, step_body, step_complete, parsing_step, parsing_loop, parse,
}

-- The virtual methods of a message end.
pub record MessageEnds (M : MessageType) : Type 0 where
  pub sizes : (m : Message M) → Ends (M.calculate_expected_body_size m)
  pub bodies : (str : Bytes) (m : Message M) → Ends (M.read_in_complex_body str m)
  pub ends : (m : Message M) → Ends (M.eof_in_body m)

pub record SequenceEnds (S : SequenceType) : Type 0 where
  pub message : MessageEnds S.message
  pub starts : (own : S.State) (m : Message S.message) → Ends (S.initialize_new_message own m)

Meets-line_at :
    (o : Option ℕ) (buffer : Bytes)
    → find crlf buffer ≡ o
    → Meets (line_at o buffer) (λ r. length r.1 + 2 ≤ length buffer)
unfolding line_at pop_bytes
Meets-line_at none buffer e = refl
Meets-line_at (some i) buffer e =
    Meets->>= (λ rest. length rest + 2 ≤ length buffer) (λ r. length r.1 + 2 ≤ length buffer)
      (pop_bytes (i + 2) buffer) _ (popped (leb (i + 2) (length buffer))) (λ rest h. h)
  where
    popped :
        (b : Bool)
        → Meets (do assert b; ok (drop (i + 2) buffer)) (λ rest. length rest + 2 ≤ length buffer)
    popped true = omega (arith, length-drop (i + 2) buffer, find-bounded crlf buffer i e)
    popped false = refl

Meets-get_and_pop_line :
    (buffer : Bytes) → Meets (get_and_pop_line buffer) (λ r. length r.1 + 2 ≤ length buffer)
unfolding get_and_pop_line
Meets-get_and_pop_line buffer = Meets-line_at (find crlf buffer) buffer refl

Ends-add_header : {E : Type 0} (line : Bytes) (m : HttpMessage E) → Ends (add_header line m)
unfolding add_header Header.parse
Ends-add_header line m = ground arith

Meets-set_first_line :
    {E : Type 0} (line : Bytes) (m : HttpMessage E)
    → Meets (set_first_line line m) (λ m'. m'.state ≡ headers_pending)
unfolding set_first_line
Meets-set_first_line line m = ground arith

module _ {S : SequenceType} (v : SequenceEnds S) where
  abbrev pub weight : HttpMessageState → ℕ
  weight first_line_pending = 0
  weight headers_pending = 0
  weight body_pending = 2
  weight complete = 1

  pub weight-le-two : (s : HttpMessageState) → weight s ≤ 2
  weight-le-two first_line_pending = omega arith
  weight-le-two headers_pending = omega arith
  weight-le-two body_pending = omega arith
  weight-le-two complete = omega arith

  -- Two for each byte, and what the state may still add.
  abbrev pub work : HttpMessageSequence S → ℕ
  work s = 2 * length s.buffer + weight s.message_in_progress.state

  -- A step that goes on leaves less to do.
  abbrev pub Shrinks : HttpMessageSequence S → Bool × HttpMessageSequence S → Type 0
  Shrinks s (false, s') = true ≡ true
  Shrinks s (true, s') = work s' < work s

  abbrev Popped : Bytes → Bytes × Bytes → Type 0
  Popped buffer line = length line.1 + 2 ≤ length buffer

  Meets-step_first_line : (s : HttpMessageSequence S) → Meets (step_first_line S s) (Shrinks s)
  unfolding step_first_line
  Meets-step_first_line s = elim (Bool-cases (have_complete_line s.buffer)) [
    | inr e ↦ rw e refl
    | inl e ↦ rw e (
        Meets->>= Always (Shrinks s) (S.initialize_new_message s.own s.message_in_progress) _
          (Meets-Ends (S.initialize_new_message s.own s.message_in_progress)
            (v.starts s.own s.message_in_progress))
          (λ i h.
            Meets->>= (Popped s.buffer) (Shrinks s) (get_and_pop_line s.buffer) _
              (Meets-get_and_pop_line s.buffer)
              (λ line k.
                Meets->>= (λ m. m.state ≡ headers_pending) (Shrinks s) (set_first_line line.0 i.1) _
                  (Meets-set_first_line line.0 i.1) (λ m j. omega (arith, k, ap weight j)))))
  ]

  Ends-done_with_headers : (m : Message S.message) → Ends (done_with_headers S.message m)
  unfolding done_with_headers
  Ends-done_with_headers m =
      Ends->>= (assert (rank m.state == rank headers_pending)) _
        (Ends-assert (rank m.state == rank headers_pending))
        (λ u e. v.message.sizes (record m { state = body_pending }))

  abbrev header_done : Bool → Bytes → Message S.message → Result (Message S.message)
  header_done blank_line line m =
      if blank_line then done_with_headers S.message m else add_header line m

  Ends-header_done : (b : Bool) (line : Bytes) (m : Message S.message) → Ends (header_done b line m)
  Ends-header_done true line m = Ends-done_with_headers m
  Ends-header_done false line m = Ends-add_header line m

  Meets-step_headers : (s : HttpMessageSequence S) → Meets (step_headers S s) (Shrinks s)
  unfolding step_headers
  Meets-step_headers s = elim (Bool-cases (have_complete_line s.buffer)) [
    | inr e ↦ rw e refl
    | inl e ↦ rw e (
        Meets->>= (Popped s.buffer) (Shrinks s) (get_and_pop_line s.buffer) _
          (Meets-get_and_pop_line s.buffer)
          (λ line k.
            Meets->>= Always (Shrinks s) (header_done (is_nil line.0) line.0 s.message_in_progress)
              _
              (Meets-Ends (header_done (is_nil line.0) line.0 s.message_in_progress)
                (Ends-header_done (is_nil line.0) line.0 s.message_in_progress))
              (λ m j. omega (arith, k, weight-le-two m.state))))
  ]

  Ends-read_in_body : (str : Bytes) (m : Message S.message) → Ends (read_in_body S.message str m)
  unfolding read_in_body body_size_is_known expected_body_size
  Ends-read_in_body str m = ground (arith, v.message.bodies str m)

  -- The rest of a body step, once the body has been read.
  abbrev after_body :
      HttpMessageSequence S → ℕ × Message S.message → Result (Bool × HttpMessageSequence S)
  after_body s r = do
    assert (r.0 == length s.buffer || rank r.1.state == rank complete)
    rest ← pop_bytes r.0 s.buffer
    ok (rank r.1.state == rank complete, record s { buffer = rest; message_in_progress = r.1 })

  Meets-pop_bytes :
      (n : ℕ) (buffer : Bytes) → Meets (pop_bytes n buffer) (λ rest. length rest ≤ length buffer)
  unfolding pop_bytes
  Meets-pop_bytes n buffer = ground (arith, length-drop n buffer)

  Shrinks-body :
      (s : HttpMessageSequence S) (m : Message S.message) (rest : Bytes)
      → s.message_in_progress.state ≡ body_pending
      → length rest ≤ length s.buffer
      → Shrinks s
          (rank m.state == rank complete, record s { buffer = rest; message_in_progress = m })
  Shrinks-body s m rest e h = by_state m.state refl
    where
      by_state :
          (t : HttpMessageState)
          → m.state ≡ t
          → Shrinks s (rank t == rank complete, record s { buffer = rest; message_in_progress = m })
      by_state first_line_pending d = refl
      by_state headers_pending d = refl
      by_state body_pending d = refl
      by_state complete d = omega (arith, h, ap weight e, ap weight d)

  Meets-step_body :
      (s : HttpMessageSequence S)
      → s.message_in_progress.state ≡ body_pending
      → Meets (step_body S s) (Shrinks s)
  unfolding step_body
  Meets-step_body s e =
      Meets->>= Always (Shrinks s) (read_in_body S.message s.buffer s.message_in_progress) _
        (Meets-Ends (read_in_body S.message s.buffer s.message_in_progress)
          (Ends-read_in_body s.buffer s.message_in_progress))
        (λ r h.
          Meets->>= Always (Shrinks s)
            (assert (r.0 == length s.buffer || rank r.1.state == rank complete)) _
            (Meets-Ends (assert (r.0 == length s.buffer || rank r.1.state == rank complete))
              (Ends-assert (r.0 == length s.buffer || rank r.1.state == rank complete)))
            (λ u k.
              Meets->>= (λ rest. length rest ≤ length s.buffer) (Shrinks s) (pop_bytes r.0 s.buffer)
                _ (Meets-pop_bytes r.0 s.buffer) (λ rest j. Shrinks-body s r.1 rest e j)))

  pub Meets-parsing_step : (s : HttpMessageSequence S) → Meets (parsing_step S s) (Shrinks s)
  unfolding parsing_step step_complete
  Meets-parsing_step s = by_state s.message_in_progress.state refl
    where
      by_state :
          (t : HttpMessageState)
          → s.message_in_progress.state ≡ t
          → Meets
              (elim t [
                | first_line_pending ↦ step_first_line S s
                | headers_pending ↦ step_headers S s
                | body_pending ↦ step_body S s
                | complete ↦ ok (true, step_complete S s)
              ])
              (Shrinks s)
      by_state first_line_pending e = Meets-step_first_line s
      by_state headers_pending e = Meets-step_headers s
      by_state body_pending e = Meets-step_body s e
      by_state complete e = omega (arith, ap weight e)

  Ends-parsing_loop :
      (fuel : ℕ) (s : HttpMessageSequence S) → work s < fuel → Ends (parsing_loop S fuel s)
  unfolding parsing_loop
  Ends-parsing_loop zero s h = absurd (omega arith)
  Ends-parsing_loop (suc fuel) s h = Ends-Meets Always _ (
      Meets->>= (Shrinks s) Always (parsing_step S s) _ (Meets-parsing_step s)
        (λ r k. go r.0 r.1 k (λ s' j. Ends-parsing_loop fuel s' (omega (arith, j, h)))))
    where
      go :
          (b : Bool) (s' : HttpMessageSequence S)
          → Shrinks s (b, s')
          → ((s'' : HttpMessageSequence S) → work s'' < work s → Ends (parsing_loop S fuel s''))
          → Meets (elim b [ false ↦ ok s' | true ↦ parsing_loop S fuel s' ]) Always
      go false s' k next = refl
      go true s' k next = Meets-Ends (parsing_loop S fuel s') (next s' k)

  Ends-eof : (m : Message S.message) → Ends (eof S.message m)
  unfolding eof
  Ends-eof m = ground (arith, v.message.ends m)

  -- `parse` ends, if the virtual methods do.
  pub Ends-parse : (buf : Bytes) (s : HttpMessageSequence S) → Ends (parse S buf s)
  unfolding parse
  Ends-parse buf s =
      Ends->>=
        (if is_nil buf then eof S.message s.message_in_progress else ok s.message_in_progress) _
        (first (is_nil buf))
        (λ m e.
          Ends-parsing_loop (2 * length (s.buffer ++ buf) + 3)
            (record s { buffer = s.buffer ++ buf; message_in_progress = m })
            (omega (arith, weight-le-two m.state)))
    where
      first :
          (b : Bool)
          → Ends (if b then eof S.message s.message_in_progress else ok s.message_in_progress)
      first true = Ends-eof s.message_in_progress
      first false = refl
