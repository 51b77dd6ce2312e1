-- ===== src/ByteStream/Pop.antt =====
-- bytestream_queue.cc: theorems on `pop`, by what the buffer holds.
use mathlib.Core.List.{append_assoc, append-nil}
use mpshell_ext.Prelude.{
  ℕ, ◌+◌, ◌≤◌, ◌<◌, ◌^◌, ◌≡◌, ◌⊎◌, inl, inr, refl, sym, ap, subst, ◌∙◌, [], ◌++◌, arith, ◌==◌,
  length, take, drop, length-append, take-append, drop-append, take-drop, length-take, length-drop,
  drop_all, Bool-cases,
}
use mpshell_ext.Prelude.Result.{ok, Returns}
use mpshell_ext.Packet.{Bytes}
use mpshell_ext.ByteStream.{
  ByteStreamQueue, buffer_size, available_to_pop, non_empty, contiguous, wrapped, pop,
}
use mpshell_ext.ByteStream.Holds.{Straight, Wrapped, Holds, available_to_pop-Holds}
use mpshell_ext.ByteStream.Store.{Straight-sizes, Wrapped-sizes}

-- What `pop` writes, from the front of what is held.
pub record Popped (q : ByteStreamQueue) (bytes : Bytes) (r : Bytes × ByteStreamQueue) : Type 0 where
  pub rest : Bytes
  pub split : bytes ≡ r.0 ++ rest
  pub some_bytes : 0 < length r.0
  pub holds : Holds r.1 rest
  pub same_size : buffer_size r.1 ≡ buffer_size q

-- What `pop` offers to `write_some`.
abbrev segment : ByteStreamQueue → Bytes
segment q =
    take (contiguous q.next_byte_to_pop (available_to_pop q) (buffer_size q))
      (drop q.next_byte_to_pop q.buffer)

abbrev popped : ℕ → ByteStreamQueue → ByteStreamQueue
popped n q = record q { next_byte_to_pop = wrapped (buffer_size q) (q.next_byte_to_pop + n) }

pop_lem :
    (write_some : Bytes → ℕ) (q : ByteStreamQueue)
    → 0 < available_to_pop q
    → q.next_byte_to_pop + write_some (segment q) ≤ buffer_size q
    → buffer_size q < 2 ^ 63
    → pop write_some q
      ≡ ok (take (write_some (segment q)) (segment q), popped (write_some (segment q)) q)
unfolding pop non_empty
pop_lem write_some q h k b = ground arith

slice :
    {buffer : Bytes} (xs ys zs : Bytes)
    → buffer ≡ xs ++ (ys ++ zs)
    → take (length ys) (drop (length xs) buffer) ≡ ys
slice xs ys zs e = rw e (rw drop-append (take-append ys zs))

segment-Straight :
    {q : ByteStreamQueue} {bytes : Bytes} (s : Straight q bytes) → Holds q bytes → segment q ≡ bytes
segment-Straight {q} {bytes} s h =
    ap (λ n. take n (drop q.next_byte_to_pop q.buffer))
      (ground
        (arith, s.pop_at, s.free, h.small, Straight-sizes s, available_to_pop-Holds q bytes h))
    ∙ ap (λ n. take (length bytes) (drop n q.buffer)) s.pop_at
    ∙ slice s.before bytes s.after s.layout

segment-Wrapped :
    {q : ByteStreamQueue} {bytes : Bytes} (w : Wrapped q bytes)
    → Holds q bytes
    → segment q ≡ w.first
segment-Wrapped {q} {bytes} w h =
    ap (λ n. take n (drop q.next_byte_to_pop q.buffer))
      (ground (
        arith,
        w.pop_at,
        w.free,
        h.small,
        Wrapped-sizes w,
        available_to_pop-Holds q bytes h,
        ap length w.bytes_are,
        length-append w.first w.second,
      ))
    ∙ ap (λ n. take (length w.first) (drop n q.buffer))
        (w.pop_at ∙ sym (length-append w.second w.between))
    ∙ slice (w.second ++ w.between) w.first [] (
        w.layout
        ∙ sym (append_assoc w.second w.between w.first)
        ∙ ap (λ l. (w.second ++ w.between) ++ l) (sym (append-nil w.first)))

popped-Straight :
    (n : ℕ) {q : ByteStreamQueue} {bytes : Bytes} (s : Straight q bytes)
    → n ≤ length bytes
    → Straight (popped n q) (drop n bytes)
popped-Straight n {q} {bytes} s k = record {
  before = s.before ++ take n bytes;
  after = s.after;
  layout =
      s.layout
      ∙ ap (λ l. s.before ++ (l ++ s.after)) (sym (take-drop n bytes))
      ∙ ap (λ l. s.before ++ l) (append_assoc (take n bytes) (drop n bytes) s.after)
      ∙ sym (append_assoc s.before (take n bytes) (drop n bytes ++ s.after));
  free = s.free;
  pop_at = ground (
    arith,
    s.pop_at,
    s.free,
    Straight-sizes s,
    length-append s.before (take n bytes),
    length-take n bytes k,
  );
  push_at = omega (
    arith,
    s.push_at,
    length-append s.before (take n bytes),
    length-take n bytes k,
    length-drop n bytes,
  );
}

popped-Wrapped :
    (n : ℕ) {q : ByteStreamQueue} {bytes : Bytes} (w : Wrapped q bytes)
    → n < length w.first
    → Wrapped (popped n q) (drop n w.first ++ w.second)
popped-Wrapped n {q} {bytes} w k = record {
  first = drop n w.first;
  second = w.second;
  between = w.between ++ take n w.first;
  layout =
      w.layout
      ∙ ap (λ l. w.second ++ (w.between ++ l)) (sym (take-drop n w.first))
      ∙ ap (λ l. w.second ++ l) (sym (append_assoc w.between (take n w.first) (drop n w.first)));
  free = omega (arith, w.free, length-append w.between (take n w.first));
  used = omega (arith, length-drop n w.first);
  pop_at = ground (
    arith,
    w.pop_at,
    Wrapped-sizes w,
    length-append w.between (take n w.first),
    length-take n w.first (omega arith),
  );
  push_at = w.push_at;
  bytes_are = refl;
}

-- All of the bytes up to the end of the buffer are written.
popped_end :
    {q : ByteStreamQueue} {bytes : Bytes} (w : Wrapped q bytes)
    → Straight (popped (length w.first) q) w.second
popped_end {q} {bytes} w = record {
  before = [];
  after = w.between ++ w.first;
  layout = w.layout;
  free = omega (arith, w.free, length-append w.between w.first);
  pop_at = ground (arith, w.pop_at, Wrapped-sizes w);
  push_at = omega (arith, w.push_at);
}

-- A queue that holds something gives some of it from the front, if `write_some` writes at least one
-- byte and at most what it is given; no assertion fails.
pub pop-Holds :
    (write_some : Bytes → ℕ) (q : ByteStreamQueue) (bytes : Bytes)
    → Holds q bytes
    → 0 < length bytes
    → ((given : Bytes)
        → 0 < length given
        → (0 < write_some given) × (write_some given ≤ length given))
    → Returns (pop write_some q) (Popped q bytes)
pop-Holds write_some q bytes h more bounded =
    let left : 0 < available_to_pop q = omega (arith, available_to_pop-Holds q bytes h) in
    elim h.layout [
      | inl s ↦
          let e = segment-Straight s h in
          let n = write_some (segment q) in
          let b = bounded (segment q) (omega (arith, ap length e)) in
          let short : n ≤ length bytes = omega (arith, b.1, ap length e) in
          (
            (take n (segment q), popped n q),
            pop_lem write_some q left (omega (arith, s.pop_at, Straight-sizes s)) h.small,
            record {
              rest = drop n bytes;
              split = sym (take-drop n bytes) ∙ ap (λ l. take n l ++ drop n bytes) (sym e);
              some_bytes = omega (arith, b.0, length-take n (segment q) b.1);
              holds = record {
                layout = inl (popped-Straight n s short);
                big = h.big;
                small = h.small;
              };
              same_size = refl;
            },
          )
      | inr w ↦
          let e = segment-Wrapped w h in
          let n = write_some (segment q) in
          let b = bounded (segment q) (omega (arith, w.used, ap length e)) in
          let short : n ≤ length w.first = omega (arith, b.1, ap length e) in
          (
            (take n (segment q), popped n q),
            pop_lem write_some q left (omega (arith, w.pop_at, Wrapped-sizes w)) h.small,
            record {
              rest = drop n w.first ++ w.second;
              split =
                  w.bytes_are
                  ∙ ap (λ l. l ++ w.second) (sym (take-drop n w.first))
                  ∙ append_assoc (take n w.first) (drop n w.first) w.second
                  ∙ ap (λ l. take n l ++ (drop n w.first ++ w.second)) (sym e);
              some_bytes = omega (arith, b.0, length-take n (segment q) b.1);
              holds = record { layout = layout_after n w short; big = h.big; small = h.small };
              same_size = refl;
            },
          )
    ]
  where
    layout_after :
        (n : ℕ) (w : Wrapped q bytes)
        → n ≤ length w.first
        → Straight (popped n q) (drop n w.first ++ w.second)
          ⊎ Wrapped (popped n q) (drop n w.first ++ w.second)
    layout_after n w k = elim (Bool-cases (n == length w.first)) [
      | inr d ↦ inr (popped-Wrapped n w (ground (arith, d)))
      | inl d ↦
          let same : n ≡ length w.first = ground (arith, d) in
          inl (
            subst (λ m. Straight (popped m q) (drop m w.first ++ w.second)) (sym same)
              (subst (λ l. Straight (popped (length w.first) q) (l ++ w.second))
                (sym (drop_all w.first)) (popped_end w)))
    ]
