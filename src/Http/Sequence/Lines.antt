-- ===== src/Http/Sequence/Lines.antt =====
-- http_message_sequence.hh: lemmas on the lines at the front of a buffer, and on the rounds of the loop.
use mpshell_ext.Prelude.{
  ℕ, zero, suc, ◌+◌, ◌<◌, ◌≡◌, refl, ap, subst, ◌∙◌, true, false, [], ◌∷◌, ◌++◌, none, some, arith,
  length, drop, take-append, length-append, Bool-cases, inl, inr,
}
use mpshell_ext.Prelude.Result.{ok}
use mpshell_ext.Prelude.Ends.{Meets}
use mpshell_ext.Packet.{Bytes}
use mpshell_ext.Http.Text.{crlf, starts_with, find}
use mpshell_ext.Http.Sequence.{
  have_complete_line, pop_bytes, line_at, get_and_pop_line, SequenceType, HttpMessageSequence,
  parsing_step, parsing_loop,
}
use mpshell_ext.Http.Sequence.Termination.{SequenceEnds, work, Shrinks, Meets-parsing_step}

starts_with-crlf :
    (c : ℕ) (line rest : Bytes)
    → starts_with crlf (c ∷ line) ≡ false
    → starts_with crlf (c ∷ (line ++ (crlf ++ rest))) ≡ false
starts_with-crlf c [] rest h = ground arith
starts_with-crlf c (d ∷ ds) rest h = h

-- The first line of a text that begins with a line without CRLF.
pub find-crlf :
    (line rest : Bytes)
    → find crlf line ≡ none
    → find crlf (line ++ (crlf ++ rest)) ≡ some (length line)
unfolding find
find-crlf [] rest h = refl
find-crlf (c ∷ cs) rest h = elim (Bool-cases (starts_with crlf (c ∷ cs))) [
  | inl e ↦ absurd (ground arith)
  | inr e ↦ ground (arith, starts_with-crlf c cs rest e, find-crlf cs rest)
]

drop_line : (line rest : Bytes) → drop (length line + 2) (line ++ (crlf ++ rest)) ≡ rest
drop_line [] rest = refl
drop_line (c ∷ cs) rest = ap (λ n. drop n (c ∷ (cs ++ (crlf ++ rest)))) same ∙ drop_line cs rest
  where
    same : suc (length cs) + 2 ≡ suc (length cs + 2)
    same = omega arith

pub have_complete_line-append :
    (line rest : Bytes) → find crlf line ≡ none → have_complete_line (line ++ (crlf ++ rest)) ≡ true
unfolding have_complete_line
have_complete_line-append line rest h = rw (find-crlf line rest h, have_complete_line) refl

-- The line is taken, with its CRLF.
pub get_and_pop_line-append :
    (line rest : Bytes)
    → find crlf line ≡ none
    → get_and_pop_line (line ++ (crlf ++ rest)) ≡ ok (line, rest)
unfolding get_and_pop_line line_at pop_bytes
get_and_pop_line-append line rest h =
    ap (λ o. line_at o (line ++ (crlf ++ rest))) (find-crlf line rest h)
    ∙ ground (
      arith,
      drop_line line rest,
      take-append line (crlf ++ rest),
      length-append line (crlf ++ rest),
    )

module _ {S : SequenceType} (v : SequenceEnds S) where
  -- With any fuel that is enough for all rounds, the loop leads from `s` to `t`.
  abbrev pub Reaches : HttpMessageSequence S → HttpMessageSequence S → Type 0
  Reaches s t = (fuel : ℕ) → work v s < fuel → parsing_loop S fuel s ≡ ok t

  parsing_loop-round :
      (fuel : ℕ) (s s' : HttpMessageSequence S)
      → parsing_step S s ≡ ok (true, s')
      → parsing_loop S (suc fuel) s ≡ parsing_loop S fuel s'
  unfolding parsing_loop
  parsing_loop-round fuel s s' e = rw (e, parsing_loop) refl

  parsing_loop-end :
      (fuel : ℕ) (s s' : HttpMessageSequence S)
      → parsing_step S s ≡ ok (false, s')
      → parsing_loop S (suc fuel) s ≡ ok s'
  unfolding parsing_loop
  parsing_loop-end fuel s s' e = rw (e, parsing_loop) refl

  pub Reaches-round :
      (s s' t : HttpMessageSequence S)
      → parsing_step S s ≡ ok (true, s')
      → Reaches s' t
      → Reaches s t
  Reaches-round s s' t e r zero h = absurd (omega arith)
  Reaches-round s s' t e r (suc fuel) h =
      let less : work v s' < work v s =
        subst (λ x. Meets x (Shrinks v s)) e (Meets-parsing_step v s) in
      parsing_loop-round fuel s s' e ∙ r fuel (omega (arith, h, less))

  pub Reaches-end :
      (s s' : HttpMessageSequence S) → parsing_step S s ≡ ok (false, s') → Reaches s s'
  Reaches-end s s' e zero h = absurd (omega arith)
  Reaches-end s s' e (suc fuel) h = parsing_loop-end fuel s s' e
