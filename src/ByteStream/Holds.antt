-- ===== src/ByteStream/Holds.antt =====
-- bytestream_queue.cc: what a ring buffer holds, and its two counts.
use mpshell_ext.Prelude.{
  ℕ, zero, suc, ◌+◌, ◌<◌, ◌^◌, ◌≡◌, ◌⊎◌, inl, inr, refl, ap, ◌∙◌, [], ◌++◌, arith, length,
  length-append,
}
use mpshell_ext.Prelude.Result.{Returns}
use mpshell_ext.Packet.{Bytes}
use mpshell_ext.ByteStream.{
  ByteStreamQueue, zeros, init, buffer_size, available_to_pop, available_to_push,
}

-- The bytes lie between the indices, with free space after them.
pub record Straight (q : ByteStreamQueue) (bytes : Bytes) : Type 0 where
  pub before : Bytes
  pub after : Bytes
  pub layout : q.buffer ≡ before ++ (bytes ++ after)
  pub free : 0 < length after
  pub pop_at : q.next_byte_to_pop ≡ length before
  pub push_at : q.next_byte_to_push ≡ length before + length bytes

-- The bytes run over the end of the buffer, with free space in its middle.
pub record Wrapped (q : ByteStreamQueue) (bytes : Bytes) : Type 0 where
  pub first : Bytes
  pub second : Bytes
  pub between : Bytes
  pub layout : q.buffer ≡ second ++ (between ++ first)
  pub free : 0 < length between
  pub used : 0 < length first
  pub pop_at : q.next_byte_to_pop ≡ length second + length between
  pub push_at : q.next_byte_to_push ≡ length second
  pub bytes_are : bytes ≡ first ++ second

-- `q` holds `bytes`, oldest first, in a buffer of a size that makes no sum wrap.
pub record Holds (q : ByteStreamQueue) (bytes : Bytes) : Type 0 where
  pub layout : Straight q bytes ⊎ Wrapped q bytes
  pub big : 1 < length q.buffer
  pub small : length q.buffer < 2 ^ 63

pub length-layout :
    (xs ys zs : Bytes) → length (xs ++ (ys ++ zs)) ≡ length xs + length ys + length zs
length-layout xs ys zs = omega (arith, length-append xs (ys ++ zs), length-append ys zs)

length-zeros : (n : ℕ) → length (zeros n) ≡ n
length-zeros zero = refl
length-zeros (suc n) = ap suc (length-zeros n)

-- A new queue is empty.
pub init-Holds :
    (size : ℕ)
    → 1 < size
    → size < 2 ^ 63
    → Returns (init size) (λ q. Holds q [] × (buffer_size q ≡ size))
unfolding init
init-Holds size h k = (
  record { buffer = zeros size; next_byte_to_push = 0; next_byte_to_pop = 0 },
  ground arith,
  (
    record {
      layout = inl (record {
        before = [];
        after = zeros size;
        layout = refl;
        free = omega (arith, length-zeros size);
        pop_at = refl;
        push_at = refl;
      });
      big = omega (arith, length-zeros size);
      small = omega (arith, length-zeros size);
    },
    length-zeros size,
  ),
)

-- What may be popped is what is held.
pub available_to_pop-Holds :
    (q : ByteStreamQueue) (bytes : Bytes) → Holds q bytes → available_to_pop q ≡ length bytes
unfolding available_to_pop
available_to_pop-Holds q bytes h = elim h.layout [
  | inl s ↦ ground (
    arith,
    s.pop_at,
    s.push_at,
    h.small,
    ap length s.layout ∙ length-layout s.before bytes s.after,
  )
  | inr w ↦ ground (
    arith,
    w.pop_at,
    w.push_at,
    w.free,
    h.small,
    ap length w.bytes_are,
    length-append w.first w.second,
    ap length w.layout ∙ length-layout w.second w.between w.first,
  )
]

-- What may be pushed is the size of the buffer less one and what is held.
pub available_to_push-Holds :
    (q : ByteStreamQueue) (bytes : Bytes)
    → Holds q bytes
    → available_to_push q + length bytes + 1 ≡ buffer_size q
unfolding available_to_push
available_to_push-Holds q bytes h = elim h.layout [
  | inl s ↦ ground (
    arith,
    s.pop_at,
    s.push_at,
    s.free,
    h.small,
    ap length s.layout ∙ length-layout s.before bytes s.after,
  )
  | inr w ↦ ground (
    arith,
    w.pop_at,
    w.push_at,
    w.free,
    h.small,
    ap length w.bytes_are,
    length-append w.first w.second,
    ap length w.layout ∙ length-layout w.second w.between w.first,
  )
]
