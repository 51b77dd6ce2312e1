-- ===== src/Http/Chunked.antt =====
-- chunked_parser.hh and .cc: where a chunked body ends. `npos`, which says that all of the input is
-- body, is the largest `size_t`.
pub mod Termination
use mpshell_ext.Prelude.{
  ℕ, zero, suc, ◌+◌, ◌-◌, Bool, true, false, List, [], ◌∷◌, ◌++◌, Option, none, some, ltb, leb,
  ◌==◌, if◌then◌else◌, length, is_nil, take, drop,
}
use mpshell_ext.Prelude.Result.{
  Result, ok, err, assertion_failed, out_of_range, out_of_fuel, ◌>>=◌, ◌>>◌, assert, require,
}
use mpshell_ext.Words.{u32, u64, sub64, max64}
use mpshell_ext.Packet.{Bytes}
use mpshell_ext.Ezio.{myatoi}
use mpshell_ext.Http.Text.{crlf, same_bytes, find}

abbrev pub npos : ℕ
npos = max64

pub data ChunkState : Type 0 where
  chunk_hdr : ChunkState
  chunk : ChunkState
  trailer : ChunkState

pub record ChunkedBodyParser : Type 0 where
  pub parser_buffer : Bytes
  pub current_chunk_size : ℕ
  pub acked_so_far : ℕ
  pub parsed_so_far : ℕ
  pub state : ChunkState
  pub trailers_enabled : Bool

abbrev pub init : Bool → ChunkedBodyParser
init trailers_enabled = record {
  parser_buffer = [];
  current_chunk_size = 0;
  acked_so_far = 0;
  parsed_so_far = 0;
  state = chunk_hdr;
  trailers_enabled = trailers_enabled;
}

-- str.substr( pos, n ), which throws if `pos` is behind the end.
unfoldable pub substr : Bytes → ℕ → ℕ → Result Bytes
substr str pos n = do require (leb pos (length str)) out_of_range; ok (take n (drop pos str))

-- The string up to the needle, or all of it.
unfoldable pub up_to : Bytes → Bytes → Bytes
up_to needle str = elim (find needle str) [ none ↦ str | some i ↦ take i str ]

-- Where the chunk size ends: at the extensions, or at the end of the line.
unfoldable pub size_end : Bytes → Option ℕ
size_end header = elim (find (b';' ∷ []) header) [ none ↦ find crlf header | some i ↦ some i ]

-- The size in front of `pos`, without the first space and what follows it.
unfoldable pub size_before : Bytes → Option ℕ → Result ℕ
size_before header none = err assertion_failed
size_before header (some pos) = do
  size ← myatoi 16 (up_to (32 ∷ []) (take pos header))
  ok (u32 size)

unfoldable pub get_chunk_size : Bytes → Result ℕ
get_chunk_size header = do
  ending ← substr header (sub64 (length header) 2) 2
  assert (same_bytes ending crlf)
  size_before header (size_end header)

-- More input is needed.
abbrev pub acked : ℕ → ChunkedBodyParser → ℕ × ChunkedBodyParser
acked input_size p = (npos, record p { acked_so_far = u64 (p.acked_so_far + input_size) })

unfoldable pub compute_ack_size : Bytes → ℕ → ChunkedBodyParser → Result (ℕ × ChunkedBodyParser)
compute_ack_size needle input_size p = elim (find needle p.parser_buffer) [
  | none ↦ ok (acked input_size p)
  | some loc ↦
      let parsed = u64 (p.parsed_so_far + (loc + length needle)) in
      do
        assert (ltb p.acked_so_far parsed)
        ok (sub64 parsed p.acked_so_far, record p { parsed_so_far = parsed })
]

-- The first `n` bytes of the buffer are parsed.
abbrev pub eaten : ℕ → ChunkState → ChunkedBodyParser → ChunkedBodyParser
eaten n state p = record p {
  parsed_so_far = u64 (p.parsed_so_far + n);
  parser_buffer = drop n p.parser_buffer;
  state = state;
}

-- A header whose CRLF stands at `it`.
unfoldable pub parse_header : ℕ → ChunkedBodyParser → Result ChunkedBodyParser
parse_header it p = do
  size ← get_chunk_size (take (it + 2) p.parser_buffer)
  ok (
      eaten (it + 2) (if size == 0 then trailer else chunk)
        (record p { current_chunk_size = size }))

-- A chunk of which all bytes are there. `current_chunk_size_ + 2` is an `unsigned int`.
unfoldable pub parse_chunk : ChunkedBodyParser → Result ChunkedBodyParser
parse_chunk p = do
  ending ← substr p.parser_buffer p.current_chunk_size 2
  assert (same_bytes ending crlf)
  ok (eaten (u32 (p.current_chunk_size + 2)) chunk_hdr p)

-- A round of the loop goes on, or returns.
pub data ChunkStep : Type 0 where
  more : ChunkedBodyParser → ChunkStep
  returns : ℕ × ChunkedBodyParser → ChunkStep

unfoldable pub header_step : Option ℕ → ℕ → ChunkedBodyParser → Result ChunkStep
header_step none input_size p = ok (returns (acked input_size p))
header_step (some it) input_size p = do p' ← parse_header it p; ok (more p')

unfoldable pub chunk_step : Bool → ℕ → ChunkedBodyParser → Result ChunkStep
chunk_step false input_size p = ok (returns (acked input_size p))
chunk_step true input_size p = do p' ← parse_chunk p; ok (more p')

-- `switch (state_)`
unfoldable pub state_step : ChunkState → ℕ → ChunkedBodyParser → Result ChunkStep
state_step chunk_hdr input_size p = header_step (find crlf p.parser_buffer) input_size p
state_step chunk input_size p =
    chunk_step (leb (u32 (p.current_chunk_size + 2)) (length p.parser_buffer)) input_size p
state_step trailer input_size p = do
  r ← compute_ack_size (if p.trailers_enabled then crlf ++ crlf else crlf) input_size p
  ok (returns r)

unfoldable pub read_step : ℕ → ChunkedBodyParser → Result ChunkStep
read_step input_size p =
    if is_nil p.parser_buffer
    then ok (returns (acked input_size p))
    else state_step p.state input_size p

-- `while ( !parser_buffer_.empty() )`
unfoldable pub read_loop : ℕ → ℕ → ChunkedBodyParser → Result (ℕ × ChunkedBodyParser)
read_loop zero input_size p = err out_of_fuel
read_loop (suc fuel) input_size p = do
  s ← read_step input_size p
  elim s [ returns r ↦ ok r | more p' ↦ read_loop fuel input_size p' ]

-- Each header takes two bytes at least, and a header comes before each chunk.
unfoldable pub read : Bytes → ChunkedBodyParser → Result (ℕ × ChunkedBodyParser)
read input_buffer p =
    let buffer = p.parser_buffer ++ input_buffer in
    read_loop (2 + length buffer) (length input_buffer) (record p { parser_buffer = buffer })
