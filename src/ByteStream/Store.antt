-- ===== src/ByteStream/Store.antt =====
-- bytestream_queue.cc: where `push` puts a chunk in the buffer.
use mathlib.Core.List.{append_assoc, append-nil}
use mpshell_ext.Prelude.{
  ℕ, zero, suc, ◌+◌, ◌≤◌, ◌<◌, ◌^◌, ◌≡◌, refl, sym, ap, ◌∙◌, [], ◌∷◌, ◌++◌, arith, length, drop,
  length-append, length-drop, drop_all,
}
use mpshell_ext.Prelude.Result.{ok}
use mpshell_ext.Packet.{Bytes}
use mpshell_ext.ByteStream.{
  ByteStreamQueue, buffer_size, available_to_push, contiguous, write_at, wrapped, store,
}
use mpshell_ext.ByteStream.Holds.{Straight, Wrapped, length-layout}

write_at-append :
    (xs chunk ys : Bytes)
    → write_at (length xs) chunk (xs ++ ys) ≡ xs ++ (chunk ++ drop (length chunk) ys)
write_at-append [] chunk ys = refl
write_at-append (x ∷ xs) chunk ys = ap (λ l. x ∷ l) (write_at-append xs chunk ys)

write_at_layout :
    (chunk xs ys : Bytes) {buffer : Bytes} {i : ℕ}
    → buffer ≡ xs ++ ys
    → i ≡ length xs
    → write_at i chunk buffer ≡ xs ++ (chunk ++ drop (length chunk) ys)
write_at_layout chunk xs ys e h = rw (e, h) (write_at-append xs chunk ys)

abbrev pub stored : Bytes → ByteStreamQueue → ByteStreamQueue
stored chunk q = record q {
  buffer = write_at q.next_byte_to_push chunk q.buffer;
  next_byte_to_push = wrapped (buffer_size q) (q.next_byte_to_push + length chunk);
}

pub store_lem :
    (chunk : Bytes) (q : ByteStreamQueue)
    → q.next_byte_to_push + length chunk ≤ buffer_size q
    → q.next_byte_to_push < buffer_size q
    → buffer_size q < 2 ^ 63
    → store chunk q ≡ ok (stored chunk q)
unfolding store
store_lem chunk q h k b = ground arith

-- The space that `push` offers to `read`.
abbrev pub space : ByteStreamQueue → ℕ
space q = contiguous q.next_byte_to_push (available_to_push q) (buffer_size q)

pub Straight-sizes :
    {q : ByteStreamQueue} {bytes : Bytes} (s : Straight q bytes)
    → length q.buffer ≡ length s.before + length bytes + length s.after
Straight-sizes {q} {bytes} s = ap length s.layout ∙ length-layout s.before bytes s.after

pub Wrapped-sizes :
    {q : ByteStreamQueue} {bytes : Bytes} (w : Wrapped q bytes)
    → length q.buffer ≡ length w.second + length w.between + length w.first
Wrapped-sizes w = ap length w.layout ∙ length-layout w.second w.between w.first

-- `chunk` is put in straight space, with room left behind it.
pub stored-Straight :
    (chunk : Bytes) {q : ByteStreamQueue} {bytes : Bytes} (s : Straight q bytes)
    → length chunk < length s.after
    → Straight (stored chunk q) (bytes ++ chunk)
stored-Straight chunk {q} {bytes} s h = record {
  before = s.before;
  after = drop (length chunk) s.after;
  layout =
      write_at_layout chunk (s.before ++ bytes) s.after
        (s.layout ∙ sym (append_assoc s.before bytes s.after))
        (s.push_at ∙ sym (length-append s.before bytes))
      ∙ append_assoc s.before bytes (chunk ++ drop (length chunk) s.after)
      ∙ ap (λ l. s.before ++ l) (sym (append_assoc bytes chunk (drop (length chunk) s.after)));
  free = omega (arith, length-drop (length chunk) s.after);
  pop_at = s.pop_at;
  push_at = ground (arith, s.push_at, Straight-sizes s, length-append bytes chunk);
}

-- `chunk` fills the buffer to its end, and the free space is before what is held.
pub stored-Wrapped :
    (chunk : Bytes) {q : ByteStreamQueue} {bytes : Bytes} (s : Straight q bytes)
    → length chunk ≡ length s.after
    → 0 < length s.before
    → 0 < length chunk
    → Wrapped (stored chunk q) (bytes ++ chunk)
stored-Wrapped chunk {q} {bytes} s h b k = record {
  first = bytes ++ chunk;
  second = [];
  between = s.before;
  layout =
      write_at_layout chunk (s.before ++ bytes) s.after
        (s.layout ∙ sym (append_assoc s.before bytes s.after))
        (s.push_at ∙ sym (length-append s.before bytes))
      ∙ append_assoc s.before bytes (chunk ++ drop (length chunk) s.after)
      ∙ ap (λ l. s.before ++ (bytes ++ (chunk ++ l)))
          (ap (λ n. drop n s.after) h ∙ drop_all s.after)
      ∙ ap (λ l. s.before ++ (bytes ++ l)) (append-nil chunk);
  free = b;
  used = omega (arith, length-append bytes chunk);
  pop_at = omega (arith, s.pop_at);
  push_at = ground (arith, s.push_at, Straight-sizes s);
  bytes_are = sym (append-nil (bytes ++ chunk));
}

-- `chunk` is put in the middle of the buffer.
pub stored_between :
    (chunk : Bytes) {q : ByteStreamQueue} {bytes : Bytes} (w : Wrapped q bytes)
    → length chunk < length w.between
    → Wrapped (stored chunk q) (bytes ++ chunk)
stored_between chunk {q} {bytes} w h = record {
  first = w.first;
  second = w.second ++ chunk;
  between = drop (length chunk) w.between;
  layout =
      write_at_layout chunk w.second (w.between ++ w.first) w.layout w.push_at
      ∙ ap (λ l. w.second ++ (chunk ++ l))
          (drop_front (length chunk) w.between w.first (omega arith))
      ∙ sym (append_assoc w.second chunk (drop (length chunk) w.between ++ w.first));
  free = omega (arith, length-drop (length chunk) w.between);
  used = w.used;
  pop_at =
      omega (arith, w.pop_at, length-drop (length chunk) w.between, length-append w.second chunk);
  push_at = ground (arith, w.push_at, Wrapped-sizes w, length-append w.second chunk);
  bytes_are = ap (λ l. l ++ chunk) w.bytes_are ∙ append_assoc w.first w.second chunk;
}
  where
    drop_front : (n : ℕ) (xs ys : Bytes) → n ≤ length xs → drop n (xs ++ ys) ≡ drop n xs ++ ys
    drop_front zero xs ys k = refl
    drop_front (suc n) [] ys k = absurd (omega arith)
    drop_front (suc n) (x ∷ xs) ys k = drop_front n xs ys (omega arith)

pub length-write_at :
    (i : ℕ) (chunk buffer : Bytes)
    → i + length chunk ≤ length buffer
    → length (write_at i chunk buffer) ≡ length buffer
length-write_at zero chunk buffer h =
    omega
      (arith, length-append chunk (drop (length chunk) buffer), length-drop (length chunk) buffer)
length-write_at (suc i) chunk [] h = absurd (omega arith)
length-write_at (suc i) chunk (x ∷ buffer) h =
    omega (arith, length-write_at i chunk buffer (omega arith))
