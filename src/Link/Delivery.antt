-- ===== src/Link/Delivery.antt =====
-- link_queue.cc: theorems on one delivery opportunity of `rationalize`.
use mpshell_ext.Prelude.{
  ℕ, zero, suc, ◌+◌, ◌-◌, ◌≤◌, ◌<◌, ◌≡◌, ◌⊎◌, inl, inr, sym, subst, ◌∙◌, some, false, arith, Kept,
  Kept-refl, Kept-trans, ◌==◌, Bool-cases, min,
}
use mpshell_ext.Prelude.Result.{ok, Returns}
use mpshell_ext.Queue.{PacketQueue, Contract}
use mpshell_ext.Link.{LinkQueue, send, check_transit, load_transit, deliver}
use mpshell_ext.Link.Flow.{
  SameClock, SameClock-refl, SameClock-trans, Transit, progress, IsLoaded, flow, IsIdle,
}
use mpshell_ext.Link.Load.{Loaded, load_transit-cases}
use mpshell_ext.Link.Send.{Sent, send-Sent}

module _ {pq : PacketQueue} (c : Contract pq) where
  Transit-of_more :
      (time : ℕ) (l : LinkQueue pq.State)
      → IsLoaded c time l
      → 0 < l.packet_in_transit_bytes_left
      → Transit time l
  Transit-of_more time l v more = elim v.transit [ inl e ↦ absurd (omega arith) | inr t ↦ t ]

  check_transit_lem :
      (time : ℕ) (l : LinkQueue pq.State)
      → Transit time l
      → 0 < l.packet_in_transit_bytes_left
      → check_transit time l ≡ ok tt
  unfolding check_transit
  check_transit_lem time l t more = ground arith

  -- `l'` is `l` after an opportunity to send `budget` bytes: the packets keep their order, and the
  -- budget is used up or nothing is left to send.
  pub record Delivered (time budget : ℕ) (l l' : LinkQueue pq.State) : Type 0 where
    pub loaded : IsLoaded c time l'
    pub clock : SameClock l l'
    pub order : Kept (flow c l') (flow c l)
    pub within : progress l' ≤ progress l + budget
    pub used : (progress l' ≡ progress l + budget) ⊎ IsIdle c l'

  Delivered-send :
      (time budget amount : ℕ) (l m n l' : LinkQueue pq.State)
      → amount ≤ budget
      → Loaded c time l m
      → Sent c time amount m n
      → Delivered time (budget - amount) n l'
      → Delivered time budget l l'
  Delivered-send time budget amount l m n l' h a b d = record {
    loaded = d.loaded;
    clock = SameClock-trans a.clock (SameClock-trans b.clock d.clock);
    order = Kept-trans d.order (subst (λ f. Kept f (flow c l)) (sym b.order) a.order);
    within = omega (arith, a.same_progress, b.sent, d.within);
    used = elim d.used [
      | inl e ↦ inl (omega (arith, a.same_progress, b.sent))
      | inr idle ↦ inr idle
    ];
  }

  deliver-round :
      (fuel time budget : ℕ) (l m : LinkQueue pq.State)
      → (budget == 0) ≡ false
      → load_transit pq l ≡ ok (some m)
      → check_transit time m ≡ ok tt
      → deliver pq (suc fuel) time budget l
        ≡ deliver pq fuel time
            (budget - min budget m.packet_in_transit_bytes_left)
            (send time (min budget m.packet_in_transit_bytes_left) m)
  unfolding deliver
  deliver-round fuel time budget l m b e k = rw (b, deliver) (rw e (rw k))

  -- A delivery ends, fails no assertion, and does what `Delivered` says.
  pub deliver_lem :
      (fuel time budget : ℕ) (l : LinkQueue pq.State)
      → budget < fuel
      → IsLoaded c time l
      → Returns (deliver pq fuel time budget l) (Delivered time budget l)
  deliver_lem zero time budget l h v = absurd (omega arith)
  deliver_lem (suc fuel) time budget l h v = elim (Bool-cases (budget == 0)) [
    | inl b ↦ (
      l,
      unfold deliver in rw (b, deliver),
      record {
        loaded = v;
        clock = SameClock-refl l;
        order = Kept-refl (flow c l);
        within = omega arith;
        used = inl (ground arith);
      },
    )
    | inr b ↦ elim (load_transit-cases c time l v) [
      | inl (e, idle) ↦ (
        l,
        unfold deliver in rw (b, deliver) (rw e),
        record {
          loaded = v;
          clock = SameClock-refl l;
          order = Kept-refl (flow c l);
          within = omega arith;
          used = inr idle;
        },
      )
      | inr (m, e, a) ↦
          let t = Transit-of_more time m a.loaded a.more in
          let amount = min budget m.packet_in_transit_bytes_left in
          let s = send-Sent c time amount m a.loaded t (ground (arith, b, a.more)) (omega arith) in
          let (l', d, w) =
            deliver_lem fuel time (budget - amount) (send time amount m) (ground (arith, b, a.more))
              s.loaded in
          (
            l',
            deliver-round fuel time budget l m b e (check_transit_lem time m t a.more) ∙ d,
            Delivered-send time budget amount l m (send time amount m) l' (omega arith) a s w,
          )
    ]
  ]
