-- ===== src/ByteStream.antt =====
-- bytestream_queue.hh and .cc: a ring buffer between two file descriptors. What `fd.read` and
-- `fd.write_some` do is a parameter: `read limit` is the string that is read, and `write_some bytes`
-- the number of bytes that are written.
pub mod Holds
pub mod Store
pub mod Laws
pub mod Pop
use mpshell_ext.Prelude.{
  ℕ, zero, suc, ◌+◌, Bool, true, false, List, [], ◌∷◌, ◌++◌, ltb, leb, ◌==◌, if◌then◌else◌, length,
  is_nil, take, drop,
}
use mpshell_ext.Prelude.Result.{Result, ok, err, out_of_range, ◌>>=◌, ◌>>◌, assert, require}
use mpshell_ext.Words.{u64, sub64}
use mpshell_ext.Packet.{Bytes}

pub record ByteStreamQueue : Type 0 where
  pub buffer : Bytes
  pub next_byte_to_push : ℕ
  pub next_byte_to_pop : ℕ

-- string( size, 0 )
abbrev pub zeros : ℕ → Bytes
zeros zero = []
zeros (suc n) = 0 ∷ zeros n

unfoldable pub init : ℕ → Result ByteStreamQueue
init size = do
  assert (ltb 1 size)
  ok (record { buffer = zeros size; next_byte_to_push = 0; next_byte_to_pop = 0 })

abbrev pub buffer_size : ByteStreamQueue → ℕ
buffer_size q = length q.buffer

unfoldable pub available_to_pop : ByteStreamQueue → ℕ
available_to_pop q = u64 (
    sub64 q.next_byte_to_push q.next_byte_to_pop
    + (if ltb q.next_byte_to_push q.next_byte_to_pop then buffer_size q else 0))

unfoldable pub available_to_push : ByteStreamQueue → ℕ
available_to_push q = u64 (
    sub64 (sub64 q.next_byte_to_pop q.next_byte_to_push) 1
    + (if ltb q.next_byte_to_push q.next_byte_to_pop then 0 else buffer_size q))

unfoldable pub space_available : ByteStreamQueue → Bool
space_available q = ltb 0 (available_to_push q)

unfoldable pub non_empty : ByteStreamQueue → Bool
non_empty q = ltb 0 (available_to_pop q)

pub data PushResult : Type 0 where
  success : PushResult
  end_of_file : PushResult

unfoldable eof : PushResult → Bool
eof success = false
eof end_of_file = true

-- The space or data from `start` on that does not wrap, of the `available`.
abbrev pub contiguous : ℕ → ℕ → ℕ → ℕ
contiguous start available size =
    if leb size (u64 (start + available)) then sub64 size start else available

-- memcpy( &buffer_.at( i ), chunk.data(), chunk.size() )
abbrev pub write_at : ℕ → Bytes → Bytes → Bytes
write_at zero chunk buffer = chunk ++ drop (length chunk) buffer
write_at (suc i) chunk [] = []
write_at (suc i) chunk (x ∷ buffer) = x ∷ write_at i chunk buffer

-- An index that has reached the end starts again.
abbrev pub wrapped : ℕ → ℕ → ℕ
wrapped size i = if i == size then 0 else i

-- The new chunk goes into the buffer.
unfoldable pub store : Bytes → ByteStreamQueue → Result ByteStreamQueue
store new_chunk q =
    let next = u64 (q.next_byte_to_push + length new_chunk) in
    do
      assert (leb (length new_chunk) (sub64 (buffer_size q) q.next_byte_to_push))
      require (ltb q.next_byte_to_push (buffer_size q)) out_of_range
      assert (leb next (buffer_size q))
      ok (record q {
        buffer = write_at q.next_byte_to_push new_chunk q.buffer;
        next_byte_to_push = wrapped (buffer_size q) next;
      })

unfoldable pub push : (ℕ → Bytes) → ByteStreamQueue → Result (PushResult × ByteStreamQueue)
push read q =
    let contiguous_space_to_push =
      contiguous q.next_byte_to_push (available_to_push q) (buffer_size q) in
    let new_chunk = read contiguous_space_to_push in
    do
      assert (space_available q)
      assert (ltb 0 contiguous_space_to_push)
      if is_nil new_chunk
          then ok (end_of_file, q)
          else (do q' ← store new_chunk q; assert (non_empty q'); ok (success, q'))

-- The bytes that are written, and the queue without them.
unfoldable pub pop : (Bytes → ℕ) → ByteStreamQueue → Result (Bytes × ByteStreamQueue)
pop write_some q =
    let contiguous_space_to_pop =
      contiguous q.next_byte_to_pop (available_to_pop q) (buffer_size q) in
    let segment = take contiguous_space_to_pop (drop q.next_byte_to_pop q.buffer) in
    let next = u64 (q.next_byte_to_pop + write_some segment) in
    do
      assert (non_empty q)
      assert (leb next (buffer_size q))
      ok (
        take (write_some segment) segment,
        record q { next_byte_to_pop = wrapped (buffer_size q) next },
      )
