-- ===== src/Http/Sequence/Moves.antt =====
-- http_message_sequence.hh: how a call of parse moves messages from the input to the complete ones.
use mpshell_ext.Prelude.{
  ℕ, zero, suc, ◌+◌, ◌*◌, ◌≡◌, refl, sym, ap, ◌∙◌, Bool, true, false, ◌||◌, not, [], ◌∷◌, ◌++◌,
  arith, ◌==◌, if◌then◌else◌, length, is_nil, Bool-cases, inl, inr,
}
use mpshell_ext.Prelude.Result.{ok, assert}
use mpshell_ext.Prelude.Ends.{Gives, Gives->>=, Gives-any, Gives-imp, Always}
use mpshell_ext.Packet.{Bytes}
use mpshell_ext.Http.Header
use mpshell_ext.Http.Message.{
  HttpMessageState, MessageType, Message, first_line_pending, headers_pending, body_pending,
  complete, rank, set_first_line, add_header, done_with_headers, read_in_body, read_known,
  body_size_is_known, expected_body_size, eof,
}
use mpshell_ext.Http.Sequence.{
  have_complete_line, pop_bytes, get_and_pop_line, SequenceType, HttpMessageSequence,
  step_first_line, step_headers, step_body, step_complete, parsing_step, parsing_loop, parse,
}

-- A message whose first line has been read.
abbrev pub begun : HttpMessageState → Bool
begun t = not (rank t == 0)

-- The virtual methods that are called for the body leave a message begun.
pub record KeepsBegun (M : MessageType) : Type 0 where
  pub sizes :
      (m : Message M)
      → begun m.state ≡ true
      → Gives (M.calculate_expected_body_size m) (λ m'. begun m'.state ≡ true)
  pub bodies :
      (str : Bytes) (m : Message M)
      → begun m.state ≡ true
      → Gives (M.read_in_complex_body str m) (λ r. begun r.1.state ≡ true)

module _ (S : SequenceType) where
  -- One step: no message begins or is completed, or one begins, or one is completed.
  pub data Moved (s s' : HttpMessageSequence S) : Type 0 where
    goes_on :
        s'.complete_messages ≡ s.complete_messages
        → s'.own ≡ s.own
        → begun s'.message_in_progress.state ≡ begun s.message_in_progress.state
        → Moved s s'
    begins :
        s'.complete_messages ≡ s.complete_messages
        → (m : Message S.message)
        → S.initialize_new_message s.own s.message_in_progress ≡ ok (s'.own, m)
        → begun s.message_in_progress.state ≡ false
        → begun s'.message_in_progress.state ≡ true
        → Moved s s'
    completes :
        s'.complete_messages ≡ s.complete_messages ++ s.message_in_progress ∷ []
        → s'.own ≡ s.own
        → begun s.message_in_progress.state ≡ true
        → begun s'.message_in_progress.state ≡ false
        → Moved s s'

  abbrev pub StepMoved : HttpMessageSequence S → Bool × HttpMessageSequence S → Type 0
  StepMoved s r = Moved s r.1

  Gives-set_first_line :
      (line : Bytes) (m : Message S.message)
      → Gives (set_first_line line m) (λ m'. begun m'.state ≡ true)
  unfolding set_first_line
  Gives-set_first_line line m = ground arith

  Moved-step_first_line :
      (s : HttpMessageSequence S)
      → s.message_in_progress.state ≡ first_line_pending
      → Gives (step_first_line S s) (StepMoved s)
  unfolding step_first_line
  Moved-step_first_line s e = elim (Bool-cases (have_complete_line s.buffer)) [
    | inr f ↦ rw f (goes_on refl refl refl)
    | inl f ↦ rw f (
        Gives->>= Always (StepMoved s) (S.initialize_new_message s.own s.message_in_progress) _
          (Gives-any (S.initialize_new_message s.own s.message_in_progress))
          (λ i started u.
            Gives->>= Always (StepMoved s) (get_and_pop_line s.buffer) _
              (Gives-any (get_and_pop_line s.buffer))
              (λ line l v.
                Gives->>= (λ m'. begun m'.state ≡ true) (StepMoved s) (set_first_line line.0 i.1) _
                  (Gives-set_first_line line.0 i.1)
                  (λ m k h. begins refl i.1 started (ap begun e) h))))
  ]

  Gives-add_header :
      (line : Bytes) (m : Message S.message)
      → begun m.state ≡ true
      → Gives (add_header line m) (λ m'. begun m'.state ≡ true)
  unfolding add_header Header.parse
  Gives-add_header line m h = ground arith

  Moved-step_complete :
      (s : HttpMessageSequence S)
      → s.message_in_progress.state ≡ complete
      → Moved s (step_complete S s)
  unfolding step_complete
  Moved-step_complete s e = completes refl refl (ap begun e) refl

  module _ (keeps : KeepsBegun S.message) where
    Gives-done_with_headers :
        (m : Message S.message)
        → Gives (done_with_headers S.message m) (λ m'. begun m'.state ≡ true)
    unfolding done_with_headers
    Gives-done_with_headers m =
        Gives->>= Always (λ m'. begun m'.state ≡ true)
          (assert (rank m.state == rank headers_pending)) _
          (Gives-any (assert (rank m.state == rank headers_pending)))
          (λ u e v. keeps.sizes (record m { state = body_pending }) refl)

    abbrev Began : Message S.message → Type 0
    Began m = begun m.state ≡ true

    header_line :
        (b : Bool) (line : Bytes) (m : Message S.message)
        → begun m.state ≡ true
        → Gives (if b then done_with_headers S.message m else add_header line m) Began
    header_line true line m h = Gives-done_with_headers m
    header_line false line m h = Gives-add_header line m h

    Moved-step_headers :
        (s : HttpMessageSequence S)
        → s.message_in_progress.state ≡ headers_pending
        → Gives (step_headers S s) (StepMoved s)
    unfolding step_headers
    Moved-step_headers s e = elim (Bool-cases (have_complete_line s.buffer)) [
      | inr f ↦ rw f (goes_on refl refl refl)
      | inl f ↦ rw f (
          Gives->>= Always (StepMoved s) (get_and_pop_line s.buffer) _
            (Gives-any (get_and_pop_line s.buffer))
            (λ line l v.
              Gives->>= Began (StepMoved s)
                (if is_nil line.0
                  then done_with_headers S.message s.message_in_progress
                  else add_header line.0 s.message_in_progress)
                _ (header_line (is_nil line.0) line.0 s.message_in_progress (ap begun e))
                (λ m k h. goes_on refl refl (h ∙ sym (ap begun e)))))
    ]

    Gives-read_in_body :
        (str : Bytes) (m : Message S.message)
        → begun m.state ≡ true
        → Gives (read_in_body S.message str m) (λ r. begun r.1.state ≡ true)
    unfolding read_in_body body_size_is_known expected_body_size read_known
    Gives-read_in_body str m h = ground (arith, keeps.bodies str m h)

    Moved-step_body :
        (s : HttpMessageSequence S)
        → s.message_in_progress.state ≡ body_pending
        → Gives (step_body S s) (StepMoved s)
    unfolding step_body
    Moved-step_body s e =
        Gives->>= (λ r. begun r.1.state ≡ true) (StepMoved s)
          (read_in_body S.message s.buffer s.message_in_progress) _
          (Gives-read_in_body s.buffer s.message_in_progress (ap begun e))
          (λ r k h.
            Gives->>= Always (StepMoved s)
              (assert (r.0 == length s.buffer || rank r.1.state == rank complete)) _
              (Gives-any (assert (r.0 == length s.buffer || rank r.1.state == rank complete)))
              (λ u j v.
                Gives->>= Always (StepMoved s) (pop_bytes r.0 s.buffer) _
                  (Gives-any (pop_bytes r.0 s.buffer))
                  (λ rest l w. goes_on refl refl (h ∙ sym (ap begun e)))))

    pub Moved-parsing_step : (s : HttpMessageSequence S) → Gives (parsing_step S s) (StepMoved s)
    unfolding parsing_step
    Moved-parsing_step s = by_state s.message_in_progress.state refl
      where
        by_state :
            (t : HttpMessageState)
            → s.message_in_progress.state ≡ t
            → Gives
                (elim t [
                  | first_line_pending ↦ step_first_line S s
                  | headers_pending ↦ step_headers S s
                  | body_pending ↦ step_body S s
                  | complete ↦ ok (true, step_complete S s)
                ])
                (StepMoved s)
        by_state first_line_pending e = Moved-step_first_line s e
        by_state headers_pending e = Moved-step_headers s e
        by_state body_pending e = Moved-step_body s e
        by_state complete e = Moved-step_complete s e

    -- A relation that is kept by every step, and does not look at the buffer, is kept by parse.
    module _ (R : HttpMessageSequence S → HttpMessageSequence S → Type 0)
        (R-refl : (s : HttpMessageSequence S) → R s s)
        (R-trans : (s t u : HttpMessageSequence S) → R s t → R t u → R s u)
        (R-Moved : (s t : HttpMessageSequence S) → Moved s t → R s t) where
      R-parsing_loop : (fuel : ℕ) (s : HttpMessageSequence S) → Gives (parsing_loop S fuel s) (R s)
      unfolding parsing_loop
      R-parsing_loop zero s = tt
      R-parsing_loop (suc fuel) s =
          Gives->>= (StepMoved s) (R s) (parsing_step S s) _ (Moved-parsing_step s)
            (λ r e m. go r.0 r.1 (R-Moved s r.1 m) (R-parsing_loop fuel r.1))
        where
          go :
              (b : Bool) (t : HttpMessageSequence S)
              → R s t
              → Gives (parsing_loop S fuel t) (R t)
              → Gives (elim b [ false ↦ ok t | true ↦ parsing_loop S fuel t ]) (R s)
          go false t h k = h
          go true t h k = Gives-imp (R t) (R s) (parsing_loop S fuel t) (λ u j. R-trans s t u h j) k

      Gives-eof :
          (m : Message S.message) → Gives (eof S.message m) (λ m'. begun m'.state ≡ begun m.state)
      unfolding eof
      Gives-eof m = ground arith

      pub R-parse : (buf : Bytes) (s : HttpMessageSequence S) → Gives (parse S buf s) (R s)
      unfolding parse
      R-parse buf s =
          Gives->>= (λ m. begun m.state ≡ begun s.message_in_progress.state) (R s)
            (if is_nil buf then eof S.message s.message_in_progress else ok s.message_in_progress) _
            (first (is_nil buf))
            (λ m e h.
              let s' = record s { buffer = s.buffer ++ buf; message_in_progress = m } in
              Gives-imp (R s') (R s) (parsing_loop S (2 * length s'.buffer + 3) s')
                (λ u j. R-trans s s' u (R-Moved s s' (goes_on refl refl h)) j)
                (R-parsing_loop (2 * length s'.buffer + 3) s'))
        where
          first :
              (b : Bool)
              → Gives
                  (if b then eof S.message s.message_in_progress else ok s.message_in_progress)
                  (λ m. begun m.state ≡ begun s.message_in_progress.state)
          first true = Gives-eof s.message_in_progress
          first false = refl
