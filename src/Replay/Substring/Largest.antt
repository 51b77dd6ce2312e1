-- ===== src/Replay/Substring/Largest.antt =====
-- replayserver.cc, longest_substr: `maxSubstr` is the largest of the runs that were looked at.
use mpshell_ext.Prelude.{
  lt-or-eq, ℕ, zero, suc, ◌^◌, ◌≤◌, ◌<◌, ◌≡◌, refl, ◌⊎◌, inl, inr, arith, length, get_or,
}
use mpshell_ext.Packet.{Bytes}
use mpshell_ext.Replay.Substring.{larger}
use mpshell_ext.Replay.Substring.Runs.{run, run-bounded}
use mpshell_ext.Replay.Substring.Rows.{run-zero}

module _ (x y : Bytes) where
  -- `m` is the largest of the runs that end in a row before row `i`, or in row `i` before column `j`.
  pub record IsBest (i j m : ℕ) : Type 0 where
    pub above :
        (p q : ℕ) → (p < i) ⊎ ((p ≡ i) × (q < j)) → q < length y → run x y (suc p) (suc q) ≤ m
    pub p : ℕ
    pub q : ℕ
    pub in_x : p ≤ length x
    pub in_y : q ≤ length y
    pub attained : m ≡ run x y p q

  pub IsBest-start : IsBest 0 0 0
  unfolding run
  IsBest-start = record {
    above = λ p q e g. absurd (omega (arith, e));
    p = 0;
    q = 0;
    in_x = omega arith;
    in_y = omega arith;
    attained = refl;
  }

  pub IsBest-row_done : (i j m : ℕ) → length y ≤ j → IsBest i j m → IsBest (suc i) 0 m
  IsBest-row_done i j m l b = record {
    above = above_done;
    p = b.p;
    q = b.q;
    in_x = b.in_x;
    in_y = b.in_y;
    attained = b.attained;
  }
    where
      above_done :
          (p q : ℕ)
          → (p < suc i) ⊎ ((p ≡ suc i) × (q < 0))
          → q < length y
          → run x y (suc p) (suc q) ≤ m
      above_done p q (inr e) g = absurd (omega (arith, e.1))
      above_done p q (inl e) g = elim (lt-or-eq p i e) [
        | inl f ↦ b.above p q (inl f) g
        | inr f ↦ b.above p q (inr (f, omega arith)) g
      ]

  pub run_under :
      (m : ℕ) → IsBest (length x) 0 m → (p q : ℕ) → p ≤ length x → q ≤ length y → run x y p q ≤ m
  run_under m b zero q h k = omega (arith, run-bounded x y zero q)
  run_under m b (suc p) zero h k = omega (arith, run-zero x y (suc p))
  run_under m b (suc p) (suc q) h k = b.above p q (inl h) k

module _ (x y : Bytes) (small : length x < 2 ^ 31) where
  larger_lem :
      (i j m : ℕ)
      → i < length x
      → IsBest x y i j m
      → (larger (get_or x i 0) (get_or y j 0) m (run x y (suc i) (suc j)) ≡ m)
          × (run x y (suc i) (suc j) ≤ m)
        ⊎ (larger (get_or x i 0) (get_or y j 0) m (run x y (suc i) (suc j))
            ≡ run x y (suc i) (suc j))
          × (m ≤ run x y (suc i) (suc j))
  unfolding run
  larger_lem i j m h b = ground (arith, b.attained, run-bounded x y b.p b.q, run-bounded x y i j)

  pub IsBest-next :
      (i j m : ℕ)
      → i < length x
      → j < length y
      → IsBest x y i j m
      → IsBest x y i (suc j) (larger (get_or x i 0) (get_or y j 0) m (run x y (suc i) (suc j)))
  IsBest-next i j m h k b = elim (larger_lem i j m h b) [
    | inl e ↦ rw e.0 (record {
      above = above_next m (omega arith) e.1;
      p = b.p;
      q = b.q;
      in_x = b.in_x;
      in_y = b.in_y;
      attained = b.attained;
    })
    | inr e ↦ rw e.0 (record {
      above = above_next (run x y (suc i) (suc j)) e.1 (omega arith);
      p = suc i;
      q = suc j;
      in_x = h;
      in_y = k;
      attained = refl;
    })
  ]
    where
      above_next :
          (m' : ℕ)
          → m ≤ m'
          → run x y (suc i) (suc j) ≤ m'
          → (p q : ℕ) → (p < i) ⊎ ((p ≡ i) × (q < suc j))
          → q < length y
          → run x y (suc p) (suc q) ≤ m'
      above_next m' l c p q (inl e) g = omega (arith, b.above p q (inl e) g)
      above_next m' l c p q (inr e) g = elim (lt-or-eq q j e.1) [
        | inl f ↦ omega (arith, b.above p q (inr (e.0, f)) g)
        | inr f ↦ rw (e.0, f) c
      ]
