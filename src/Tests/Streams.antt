-- ===== src/Tests/Streams.antt =====
-- A ring buffer of four bytes.
use mpshell_ext.Prelude.{ℕ, zero, suc, ◌+◌, ◌≤◌, ◌≡◌, refl, [], ◌∷◌, arith, inl, length, take}
use mpshell_ext.Prelude.Result.{ok, Returns}
use mpshell_ext.Packet.{Bytes}
use mpshell_ext.ByteStream.{
  ByteStreamQueue, success, space_available, non_empty, store, push, pop, available_to_push,
  available_to_pop,
}
use mpshell_ext.ByteStream.Holds.{Holds, available_to_push-Holds}
use mpshell_ext.ByteStream.Laws.{Pushed, push-Holds}
use mpshell_ext.ByteStream.Pop.{Popped, pop-Holds}

-- One byte, after one that was popped.
abbrev ring : ByteStreamQueue
ring = record { buffer = 1 ∷ 2 ∷ 0 ∷ 0 ∷ []; next_byte_to_push = 2; next_byte_to_pop = 1 }

ring-Holds : Holds ring (2 ∷ [])
ring-Holds = record {
  layout = inl (record {
    before = 1 ∷ [];
    after = 0 ∷ 0 ∷ [];
    layout = refl;
    free = omega arith;
    pop_at = refl;
    push_at = refl;
  });
  big = omega arith;
  small = omega arith;
}

-- A file that holds `3 4 5`.
abbrev read : ℕ → Bytes
read n = take n (3 ∷ 4 ∷ 5 ∷ [])

length-read : (n : ℕ) → length (read n) ≤ n
length-read n = at_most n (3 ∷ 4 ∷ 5 ∷ [])
  where
    at_most : (k : ℕ) (bytes : Bytes) → length (take k bytes) ≤ k
    at_most zero bytes = omega arith
    at_most (suc k) [] = omega arith
    at_most (suc k) (b ∷ bytes) = omega (arith, at_most k bytes)

-- The chunk fills the buffer to its end.
push_fills :
    push read ring
    ≡ ok (success, record ring { buffer = 1 ∷ 2 ∷ 3 ∷ 4 ∷ []; next_byte_to_push = 0 })
unfolding push space_available non_empty available_to_push available_to_pop store
push_fills = refl

push-Holds_example : Returns (push read ring) (Pushed read ring (2 ∷ []))
push-Holds_example = push-Holds read ring (2 ∷ []) ring-Holds (omega arith) length-read

pop-Holds_example : Returns (pop (λ given. 1) ring) (Popped ring (2 ∷ []))
pop-Holds_example =
    pop-Holds (λ given. 1) ring (2 ∷ []) ring-Holds (omega arith)
      (λ given h. (omega arith, omega arith))

available_to_push-Holds_example : available_to_push ring + 1 + 1 ≡ 4
available_to_push-Holds_example = available_to_push-Holds ring (2 ∷ []) ring-Holds
