-- ===== src/ByteStream/Laws.antt =====
-- bytestream_queue.cc: theorems on `push`, by what the buffer holds.
use mathlib.Core.List.{append-nil}
use mpshell_ext.Prelude.{
  ℕ, ◌+◌, ◌≤◌, ◌<◌, ◌≡◌, inl, inr, refl, ap, false, [], ◌++◌, arith, ◌==◌, if◌then◌else◌, length,
  is_nil, length-append, List-cases, Bool-cases,
}
use mpshell_ext.Prelude.Result.{ok, Returns}
use mpshell_ext.Packet.{Bytes}
use mpshell_ext.ByteStream.{
  ByteStreamQueue, buffer_size, available_to_pop, available_to_push, space_available, non_empty,
  PushResult, success, end_of_file, store, push,
}
use mpshell_ext.ByteStream.Holds.{Holds, available_to_pop-Holds, available_to_push-Holds}
use mpshell_ext.ByteStream.Store.{
  stored, space, stored-Straight, stored-Wrapped, stored_between, Straight-sizes, Wrapped-sizes,
  store_lem, length-write_at,
}

-- What `push` does when `read` gives it at most the `limit` bytes that it asks for.
pub record Pushed (read : ℕ → Bytes) (q : ByteStreamQueue) (bytes : Bytes)
    (r : PushResult × ByteStreamQueue) : Type 0 where
  pub limit : ℕ
  pub some_space : 0 < limit
  pub fits : limit + length bytes < buffer_size q
  pub result : r.0 ≡ (if is_nil (read limit) then end_of_file else success)
  pub holds : Holds r.1 (bytes ++ read limit)
  pub same_size : buffer_size r.1 ≡ buffer_size q

-- The space that is offered is there, and does not make the buffer look empty.
space-fits :
    (q : ByteStreamQueue) (bytes : Bytes)
    → Holds q bytes
    → length bytes + 1 < buffer_size q
    → (0 < space q)
      × (space q + length bytes < buffer_size q)
      × (q.next_byte_to_push + space q ≤ buffer_size q)
      × (q.next_byte_to_push < buffer_size q)
space-fits q bytes h room = elim h.layout [
  | inl s ↦ ground (
    arith,
    s.pop_at,
    s.push_at,
    s.free,
    h.small,
    h.big,
    Straight-sizes s,
    available_to_push-Holds q bytes h,
  )
  | inr w ↦ ground (
    arith,
    w.pop_at,
    w.push_at,
    w.free,
    w.used,
    h.small,
    Wrapped-sizes w,
    ap length w.bytes_are,
    length-append w.first w.second,
    available_to_push-Holds q bytes h,
  )
]

stored-Holds :
    (chunk : Bytes) (q : ByteStreamQueue) (bytes : Bytes)
    → Holds q bytes
    → 0 < length chunk
    → length chunk + length bytes < buffer_size q
    → q.next_byte_to_push + length chunk ≤ buffer_size q
    → Holds (stored chunk q) (bytes ++ chunk)
stored-Holds chunk q bytes h more fits ends = record {
  layout = elim h.layout [
    | inr w ↦ inr (
        stored_between chunk w
          (omega (arith, Wrapped-sizes w, ap length w.bytes_are, length-append w.first w.second)))
    | inl s ↦ elim (Bool-cases (length chunk == length s.after)) [
      | inl e ↦
          inr
            (stored-Wrapped chunk s (ground (arith, e)) (ground (arith, e, Straight-sizes s)) more)
      | inr e ↦ inl (stored-Straight chunk s (ground (arith, e, Straight-sizes s, s.push_at)))
    ]
  ];
  big = omega (arith, h.big, length-write_at q.next_byte_to_push chunk q.buffer ends);
  small = omega (arith, h.small, length-write_at q.next_byte_to_push chunk q.buffer ends);
}

push-end :
    (read : ℕ → Bytes) (q : ByteStreamQueue)
    → 0 < available_to_push q
    → 0 < space q
    → read (space q) ≡ []
    → push read q ≡ ok (end_of_file, q)
unfolding push space_available
push-end read q h k e = ground (arith, e)

push-chunk :
    (read : ℕ → Bytes) (q q' : ByteStreamQueue)
    → 0 < available_to_push q
    → 0 < space q
    → is_nil (read (space q)) ≡ false
    → store (read (space q)) q ≡ ok q'
    → 0 < available_to_pop q'
    → push read q ≡ ok (success, q')
unfolding push space_available non_empty
push-chunk read q q' h k e s n = ground (arith, e, s)

-- A queue that is not full takes what `read` gives at its back: `read` is offered some space, and
-- no more than is free; no assertion fails, and an empty string is the end of the file.
pub push-Holds :
    (read : ℕ → Bytes) (q : ByteStreamQueue) (bytes : Bytes)
    → Holds q bytes
    → length bytes + 1 < buffer_size q
    → ((n : ℕ) → length (read n) ≤ n)
    → Returns (push read q) (Pushed read q bytes)
push-Holds read q bytes h room bounded =
    let free = space-fits q bytes h room in
    let left : 0 < available_to_push q = omega (arith, available_to_push-Holds q bytes h) in
    elim (List-cases (read (space q))) [
      | inl e ↦ (
        (end_of_file, q),
        push-end read q left free.0 e,
        record {
          limit = space q;
          some_space = free.0;
          fits = free.1;
          result = rw e refl;
          holds = rw e (rw append-nil h);
          same_size = refl;
        },
      )
      | inr (x, xs, e) ↦
          let more : 0 < length (read (space q)) = omega (arith, ap length e) in
          let short : length (read (space q)) ≤ space q = bounded (space q) in
          let ends : q.next_byte_to_push + length (read (space q)) ≤ buffer_size q =
            omega (arith, free.2) in
          let holds = stored-Holds (read (space q)) q bytes h more (omega (arith, free.1)) ends in
          (
            (success, stored (read (space q)) q),
            push-chunk read q (stored (read (space q)) q) left free.0 (ap is_nil e)
                (store_lem (read (space q)) q ends free.3 h.small)
                (omega (
                  arith,
                  available_to_pop-Holds (stored (read (space q)) q) (bytes ++ read (space q))
                      holds,
                  length-append bytes (read (space q)),
                )),
            record {
              limit = space q;
              some_space = free.0;
              fits = free.1;
              result = rw (ap is_nil e) refl;
              holds = holds;
              same_size = length-write_at q.next_byte_to_push (read (space q)) q.buffer ends;
            },
          )
    ]
