-- ===== src/Queue/Pie/Update.antt =====
-- pie_packet_queue.cc, calculate_drop_prob: the end of its loop.
use mpshell_ext.Prelude.{
  ℕ, zero, suc, ◌+◌, ◌-◌, ◌/◌, ◌<◌, ◌≤◌, ◌≡◌, refl, ap, ◌∙◌, inl, inr, arith, ltb, ltb→lt,
  Bool-cases,
}
use mpshell_ext.Prelude.Result.{ok, Returns}
use mpshell_ext.Prelude.Stream.{now, later}
use mpshell_ext.Words.{u64, sub64}
use mpshell_ext.Packet.{total}
use mpshell_ext.Queue.Dropping
use mpshell_ext.Queue.Dropping.{Dropping, accept, popped, good_with}
use mpshell_ext.Queue.Dropping.Laws.{IsValid, size_bytes_lem}
use mpshell_ext.Queue.Pie.{
  Doubles, Pie, t_update, period, reset_if_calm, update_loop, calculate_drop_prob,
}

-- A period less is to come.
less_to_come :
    (time last : ℕ)
    → t_update < sub64 time last
    → sub64 time (u64 (last + t_update)) ≡ sub64 time last - t_update
less_to_come time last h = omega arith

module _ (F : Doubles) where
  period-base : (bytes : ℕ) (q : Pie F) → (period F bytes q).base ≡ q.base
  unfolding period reset_if_calm
  period-base bytes q = ground arith

  period-last_update :
      (bytes : ℕ) (q : Pie F) → (period F bytes q).last_update ≡ u64 (q.last_update + t_update)
  unfolding period reset_if_calm
  period-last_update bytes q = ground arith

  -- With a round for each period and one more, the loop ends, and the packets are as before; no full
  -- period is left.
  pub record IsUpdated (d : Dropping) (time : ℕ) (q : Pie F) : Type 0 where
    pub base : q.base ≡ d
    pub up_to_date : sub64 time q.last_update ≤ t_update

  update_loop-IsUpdated :
      (fuel time : ℕ) (q : Pie F) (d : Dropping)
      → IsValid d
      → q.base ≡ d
      → sub64 time q.last_update / t_update < fuel
      → Returns (update_loop F fuel time q) (IsUpdated d time)
  unfolding update_loop
  update_loop-IsUpdated zero time q d v e h = absurd (omega arith)
  update_loop-IsUpdated (suc fuel) time q d v e h =
      elim (Bool-cases (ltb t_update (sub64 time q.last_update))) [
        | inr g ↦ simp g (q, refl, record { base = e; up_to_date = ground arith })
        | inl g ↦
            let bytes = total d.internal_queue in
            let more = ltb→lt t_update (sub64 time q.last_update) g in
            let left = less_to_come time q.last_update more in
            simp (g, sized q d v e)
              (update_loop-IsUpdated fuel time (period F bytes q) d v (period-base bytes q ∙ e) (
                omega
                  (arith, ap (λ l. sub64 time l / t_update) (period-last_update bytes q), left, h)))
      ]
    where
      sized :
          (q : Pie F) (d : Dropping)
          → IsValid d
          → q.base ≡ d
          → Dropping.size_bytes q.base ≡ ok (total d.internal_queue)
      sized q d v e = ap Dropping.size_bytes e ∙ size_bytes_lem v.counted

  pub calculate_drop_prob-Returns :
      (q : Pie F)
      → IsValid q.base
      → Returns (calculate_drop_prob F q) (IsUpdated q.base (now q.clock))
  unfolding calculate_drop_prob
  calculate_drop_prob-Returns q v =
      update_loop-IsUpdated (suc (sub64 (now q.clock) q.last_update / t_update)) (now q.clock)
        (record q { clock = later q.clock }) q.base v refl (omega arith)
