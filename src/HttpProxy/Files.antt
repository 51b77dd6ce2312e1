-- ===== src/HttpProxy/Files.antt =====
-- http_proxy.cc, reqres_to_protobuf: what the files of the folder hold after the writes.
use mathlib.Core.List.{append-nil}
use mpshell_ext.Prelude.{
  ℕ, zero, suc, true, ◌≡◌, refl, ap, ◌∙◌, false, List, [], ◌∷◌, ◌++◌, All, drop, length, ◌==◌,
  if◌then◌else◌, arith,
}
use mpshell_ext.Packet.{Bytes}
use mpshell_ext.HttpProxy.{ReqResPair}

-- A write to a file that was opened with O_WRONLY and O_CREAT: its start is overwritten.
unfoldable overwritten : Bytes → Bytes → Bytes
overwritten text held = text ++ drop (length text) held

drop-nil : (k : ℕ) → drop {A = ℕ} k [] ≡ []
drop-nil zero = refl
drop-nil (suc k) = refl

-- `serialize` is what SerializeToString makes of a pair.
module _ (serialize : ReqResPair → Bytes) (n : ℕ) where
  -- What the file of number `n` holds after the writes, if it held `held` before.
  unfoldable file_after : Bytes → List (ℕ × ReqResPair) → Bytes
  file_after held [] = held
  file_after held (w ∷ writes) =
      file_after (if w.0 == n then overwritten (serialize w.1) held else held) writes

  abbrev IsOther : ℕ × ReqResPair → Type 0
  IsOther w = (w.0 == n) ≡ false

  file_after-others :
      (held : Bytes) (before writes : List (ℕ × ReqResPair))
      → All IsOther before
      → file_after held (before ++ writes) ≡ file_after held writes
  unfolding file_after
  file_after-others held [] writes h = refl
  file_after-others held (w ∷ before) writes h =
      rw (h.0, file_after) (file_after-others held before writes h.1)

  file_after-all :
      (held : Bytes) (writes : List (ℕ × ReqResPair))
      → All IsOther writes
      → file_after held writes ≡ held
  unfolding file_after
  file_after-all held [] h = refl
  file_after-all held (w ∷ writes) h = rw (h.0, file_after) (file_after-all held writes h.1)

  -- A pair whose number comes once is what its file holds, if there was no such file before.
  file_after-once :
      (before after : List (ℕ × ReqResPair)) (pair : ReqResPair)
      → All IsOther before
      → All IsOther after
      → file_after [] (before ++ (n, pair) ∷ after) ≡ serialize pair
  unfolding file_after overwritten
  file_after-once before after pair h k =
      let same : (n == n) ≡ true = ground arith in
      file_after-others [] before ((n, pair) ∷ after) h
      ∙ rw (same, file_after)
          (file_after-all (overwritten (serialize pair) []) after k
            ∙ ap (λ l. serialize pair ++ l) (drop-nil (length (serialize pair)))
            ∙ append-nil (serialize pair))
