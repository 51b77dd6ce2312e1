-- ===== src/Http/Chunked/Termination.antt =====
-- chunked_parser.cc: theorems on the end of the loop of `read`.
use mpshell_ext.Prelude.{
  ℕ, zero, suc, ◌+◌, ◌≤◌, ◌<◌, ◌≡◌, refl, subst, Bool, true, false, [], ◌∷◌, ◌++◌, Option, none,
  some, arith, leb, if◌then◌else◌, length, is_nil, take, length-drop, Bool-cases, inl, inr,
}
use mpshell_ext.Prelude.Result.{Result, ok, err, ◌>>=◌, assert}
use mpshell_ext.Prelude.Ends.{Ends, Ends->>=, Ends-assert}
use mpshell_ext.Words.{u32, sub64}
use mpshell_ext.Packet.{Bytes}
use mpshell_ext.Ezio.{myatoi}
use mpshell_ext.Http.Text.Laws.{find-bounded}
use mpshell_ext.Http.Text.{crlf, same_bytes, find}
use mpshell_ext.Http.Chunked.{
  ChunkState, chunk_hdr, chunk, trailer, ChunkedBodyParser, substr, up_to, size_end, size_before,
  ChunkStep, more, returns, header_step, chunk_step, state_step, read_step, get_chunk_size, acked,
  compute_ack_size, parse_header, parse_chunk, read_loop, read,
}

pub Ends-myatoi : (base : ℕ) (str : Bytes) → Ends (myatoi base str)
unfolding myatoi
Ends-myatoi base str = ground arith

Ends-substr : (str : Bytes) (pos n : ℕ) → Ends (substr str pos n)
unfolding substr
Ends-substr str pos n = ground arith

Ends-size_before : (header : Bytes) (end_at : Option ℕ) → Ends (size_before header end_at)
unfolding size_before
Ends-size_before header none = refl
Ends-size_before header (some pos) =
    Ends->>= (myatoi 16 (up_to (32 ∷ []) (take pos header))) _
      (Ends-myatoi 16 (up_to (32 ∷ []) (take pos header))) (λ size e. refl)

Ends-get_chunk_size : (header : Bytes) → Ends (get_chunk_size header)
unfolding get_chunk_size
Ends-get_chunk_size header =
    Ends->>= (substr header (sub64 (length header) 2) 2) _
      (Ends-substr header (sub64 (length header) 2) 2)
      (λ ending e.
        Ends->>= (assert (same_bytes ending crlf)) _ (Ends-assert (same_bytes ending crlf))
          (λ u d. Ends-size_before header (size_end header)))

Ends-parse_header : (it : ℕ) (p : ChunkedBodyParser) → Ends (parse_header it p)
unfolding parse_header
Ends-parse_header it p =
    Ends->>= (get_chunk_size (take (it + 2) p.parser_buffer)) _
      (Ends-get_chunk_size (take (it + 2) p.parser_buffer)) (λ size e. refl)

Ends-parse_chunk : (p : ChunkedBodyParser) → Ends (parse_chunk p)
unfolding parse_chunk
Ends-parse_chunk p =
    Ends->>= (substr p.parser_buffer p.current_chunk_size 2) _
      (Ends-substr p.parser_buffer p.current_chunk_size 2)
      (λ ending e.
        Ends->>= (assert (same_bytes ending crlf)) _ (Ends-assert (same_bytes ending crlf))
          (λ u d. refl))

Ends-compute_ack_size :
    (needle : Bytes) (n : ℕ) (p : ChunkedBodyParser) → Ends (compute_ack_size needle n p)
unfolding compute_ack_size
Ends-compute_ack_size needle n p = ground arith

-- What is left to do: each byte of the buffer, and the chunk that comes next.
abbrev work : ChunkedBodyParser → ℕ
work p = length p.parser_buffer + (elim p.state [ chunk ↦ 1 | chunk_hdr ↦ 0 | trailer ↦ 0 ])

work-parse_header :
    (it : ℕ) (p p' : ChunkedBodyParser)
    → parse_header it p ≡ ok p'
    → it + 2 ≤ length p.parser_buffer
    → work p' < length p.parser_buffer
unfolding parse_header
work-parse_header it p p' e h = ground (arith, length-drop (it + 2) p.parser_buffer)

work-parse_chunk :
    (p p' : ChunkedBodyParser) → parse_chunk p ≡ ok p' → work p' ≤ length p.parser_buffer
unfolding parse_chunk
work-parse_chunk p p' e =
    ground (arith, length-drop (u32 (p.current_chunk_size + 2)) p.parser_buffer)

-- A round leaves less to do, if it goes on.
abbrev Shrinks : ChunkedBodyParser → ChunkStep → Type 0
Shrinks p (returns r) = Unit {0}
Shrinks p (more p') = work p' < work p

-- A round ends, and what holds of its outcome.
abbrev Steps : ChunkedBodyParser → Result ChunkStep → Type 0
Steps p r = Ends r × ((s : ChunkStep) → r ≡ ok s → Shrinks p s)

Steps-returns : (p : ChunkedBodyParser) (x : ℕ × ChunkedBodyParser) → Steps p (ok (returns x))
Steps-returns p x = (refl, λ s e. subst (Shrinks p) (ok_injective e) tt)
  where
    ok_injective : {s t : ChunkStep} → ok s ≡ ok t → s ≡ t
    ok_injective e = cc

Steps-more :
    (p : ChunkedBodyParser) (m : Result ChunkedBodyParser)
    → Ends m
    → ((p' : ChunkedBodyParser) → m ≡ ok p' → work p' < work p)
    → Steps p (do p' ← m; ok (more p'))
Steps-more p (ok p') h k = (refl, λ s e. subst (Shrinks p) (ok_injective e) (k p' refl))
  where
    ok_injective : {s t : ChunkStep} → ok s ≡ ok t → s ≡ t
    ok_injective e = cc
Steps-more p (err x) h k = (h, λ s e. absurd (ground arith))

Steps-header_step :
    (n : ℕ) (p : ChunkedBodyParser)
    → p.state ≡ chunk_hdr
    → (o : Option ℕ) → find crlf p.parser_buffer ≡ o
    → Steps p (header_step o n p)
unfolding header_step
Steps-header_step n p st none e = Steps-returns p (acked n p)
Steps-header_step n p st (some it) e =
    Steps-more p (parse_header it p) (Ends-parse_header it p) (λ p' d.
      ground (arith, st, work-parse_header it p p' d (find-bounded crlf p.parser_buffer it e)))

Steps-chunk_step :
    (b : Bool) (n : ℕ) (p : ChunkedBodyParser) → p.state ≡ chunk → Steps p (chunk_step b n p)
unfolding chunk_step
Steps-chunk_step false n p st = Steps-returns p (acked n p)
Steps-chunk_step true n p st =
    Steps-more p (parse_chunk p) (Ends-parse_chunk p)
      (λ p' d. ground (arith, st, work-parse_chunk p p' d))

Steps-state_step :
    (state : ChunkState) (n : ℕ) (p : ChunkedBodyParser)
    → p.state ≡ state
    → Steps p (state_step state n p)
unfolding state_step
Steps-state_step chunk_hdr n p st = Steps-header_step n p st (find crlf p.parser_buffer) refl
Steps-state_step chunk n p st =
    Steps-chunk_step (leb (u32 (p.current_chunk_size + 2)) (length p.parser_buffer)) n p st
Steps-state_step trailer n p st =
    ack (compute_ack_size (if p.trailers_enabled then crlf ++ crlf else crlf) n p)
      (Ends-compute_ack_size (if p.trailers_enabled then crlf ++ crlf else crlf) n p)
  where
    ack : (r : Result (ℕ × ChunkedBodyParser)) → Ends r → Steps p (do x ← r; ok (returns x))
    ack (ok x) h = Steps-returns p x
    ack (err x) h = (h, λ s e. absurd (ground arith))

Steps-read_step : (n : ℕ) (p : ChunkedBodyParser) → Steps p (read_step n p)
unfolding read_step
Steps-read_step n p = elim (Bool-cases (is_nil p.parser_buffer)) [
  | inl e ↦ rw e (Steps-returns p (acked n p))
  | inr e ↦ rw e (Steps-state_step p.state n p refl)
]

Ends-read_loop : (fuel n : ℕ) (p : ChunkedBodyParser) → work p < fuel → Ends (read_loop fuel n p)
unfolding read_loop
Ends-read_loop zero n p h = absurd (omega arith)
Ends-read_loop (suc fuel) n p h = Ends->>= (read_step n p) _ (Steps-read_step n p).0 (λ s e.
    go s ((Steps-read_step n p).1 s e) (λ p' k. Ends-read_loop fuel n p' (omega (arith, k, h))))
  where
    go :
        (s : ChunkStep)
        → Shrinks p s
        → ((p' : ChunkedBodyParser) → work p' < work p → Ends (read_loop fuel n p'))
        → Ends (elim s [ returns r ↦ ok r | more p' ↦ read_loop fuel n p' ])
    go (returns r) k next = refl
    go (more p') k next = next p' k

-- `read` ends, whatever the input and the state of the parser are.
pub Ends-read : (input : Bytes) (p : ChunkedBodyParser) → Ends (read input p)
unfolding read
Ends-read input p =
    Ends-read_loop (2 + length (p.parser_buffer ++ input)) (length input)
      (record p { parser_buffer = p.parser_buffer ++ input }) (small p.state)
  where
    small :
        (s : ChunkState)
        → length (p.parser_buffer ++ input) + (elim s [ chunk ↦ 1 | chunk_hdr ↦ 0 | trailer ↦ 0 ])
          < 2 + length (p.parser_buffer ++ input)
    small chunk_hdr = omega arith
    small chunk = omega arith
    small trailer = omega arith
