-- ===== src/Link/Drain.antt =====
-- link_queue.cc: what a link that repeats its trace holds is sent in the end.
use mpshell_ext.Prelude.{
  ℕ, zero, suc, ◌+◌, ◌*◌, ◌≤◌, ◌<◌, ◌^◌, ◌≡◌, inl, inr, refl, sym, subst, true, false, arith,
  length, Kept, ◌++◌, map,
}
use mathlib.Core.List.{append-nil}
use mpshell_ext.Prelude.Result.{Returns}
use mpshell_ext.Queue.{PacketQueue, Contract}
use mpshell_ext.Link.{LinkQueue, packet_size, advance, rationalize, fuel_for}
use mpshell_ext.Link.Trace.{back}
use mpshell_ext.Link.Clock.{
  due, IsClocked, get_or-le-back, get_or-last, advance-cases, advance-IsClocked,
}
use mpshell_ext.Link.Flow.{bytes_of, bytes_of-append, progress, in_transit, flow, IsIdle}
use mpshell_ext.Link.Opportunities.{opportunities_in, opportunities}
use mpshell_ext.Link.Enqueue.{bytes_of-Kept}
use mpshell_ext.Link.Rationalize.{IsValid, rationalize-Served}

one_less : (n b d d' now : ℕ) → d' ≤ d + b → d + suc n * b ≤ now → d' + n * b ≤ now
one_less n b d d' now h k = grind arith

le_mul : (n b : ℕ) → 0 < b → n ≤ n * b
le_mul n b h = grind arith

module _ {Q : Type 0} where
  -- A link that repeats its trace, and is not finished.
  pub record IsRepeating (l : LinkQueue Q) : Type 0 where
    pub repeating : l.repeats ≡ true
    pub unfinished : l.finished ≡ false

  -- The next delivery is within one time through the trace.
  record Follows (l l' : LinkQueue Q) : Type 0 where
    pub repeating : IsRepeating l'
    pub same_schedule : l'.schedule ≡ l.schedule
    pub soon : due l' ≤ due l + back l.schedule

  advance-Follows :
      (now : ℕ) (l : LinkQueue Q)
      → IsClocked l
      → IsRepeating l
      → due l ≤ now
      → now + back l.schedule < 2 ^ 64
      → Follows l (advance l)
  advance-Follows now l v r passed b = elim (advance-cases now l v passed b) [
    | inl c ↦ rw c.1 (record {
      repeating = record { repeating = r.repeating; unfinished = r.unfinished };
      same_schedule = refl;
      soon =
          rw r.unfinished
            (omega (arith, get_or-le-back l.schedule (suc l.next_delivery) v.rising c.0));
    })
    | inr (inl c) ↦ rw c.2 (record {
      repeating = record { repeating = r.repeating; unfinished = r.unfinished };
      same_schedule = refl;
      soon = rw r.unfinished (
          omega (
            arith,
            get_or-last l.schedule l.next_delivery c.0,
            get_or-le-back l.schedule 0 v.rising (omega (arith, v.in_range)),
          ));
    })
    | inr (inr c) ↦ absurd (ground (arith, r.repeating, c.1))
  ]

  opportunities_in-least :
      (n fuel now : ℕ) (l : LinkQueue Q)
      → n < fuel
      → IsClocked l
      → IsRepeating l
      → due l + n * back l.schedule ≤ now
      → now + back l.schedule < 2 ^ 64
      → n < opportunities_in fuel now l
  unfolding opportunities_in
  opportunities_in-least n zero now l h v r t b = absurd (omega arith)
  opportunities_in-least zero (suc fuel) now l h v r t b = ground (arith, t)
  opportunities_in-least (suc n) (suc fuel) now l h v r t b =
      let passed : due l ≤ now = omega (arith, t) in
      let f = advance-Follows now l v r passed b in
      let more =
        opportunities_in-least n fuel now (advance l) (omega (arith, h))
          (advance-IsClocked now l v passed b) f.repeating
          (subst (λ s. due (advance l) + n * back s ≤ now) (sym f.same_schedule)
            (one_less n (back l.schedule) (due l) (due (advance l)) now f.soon t))
          (rw f.same_schedule b) in
      ground (arith, passed, more)

module _ {pq : PacketQueue} (c : Contract pq) where
  progress-le-bytes_of : (l : LinkQueue pq.State) → progress l ≤ bytes_of (flow c l)
  progress-le-bytes_of l = ground (
    arith,
    bytes_of-append l.output_queue
        (in_transit l ++ map (λ p. p.contents) (c.contents l.packet_queue)),
    bytes_of-append (in_transit l) (map (λ p. p.contents) (c.contents l.packet_queue)),
  )

  flow-IsIdle : (l : LinkQueue pq.State) → IsIdle c l → flow c l ≡ l.output_queue
  flow-IsIdle l i = rw (i.0, i.1) (append-nil l.output_queue)

  -- A valid link that repeats its trace, and whose unsent bytes are fewer than `n + 1` opportunities
  -- can carry, has nothing left in its queue and in transit once its next delivery and `n` times the
  -- length of the trace have passed: its output is what it held, in order, less what was dropped.
  pub rationalize-IsIdle :
      (now n : ℕ) (l : LinkQueue pq.State)
      → IsValid c l
      → IsRepeating l
      → bytes_of (flow c l) < progress l + packet_size * (n + 1)
      → due l + n * back l.schedule ≤ now
      → now + back l.schedule < 2 ^ 64
      → Returns (rationalize pq now l) (λ l'. IsIdle c l' × Kept l'.output_queue (flow c l))
  rationalize-IsIdle now n l v r h t b =
      let (l', e, s) = rationalize-Served c now l v b in
      let enough : n < fuel_for now l = omega (
        arith,
        t,
        le_mul n (back l.schedule) v.clocked.lasting,
        le_mul (suc (now + 1)) (length l.schedule) (omega (arith, v.clocked.in_range)),
      ) in
      let many : n < opportunities now l =
        unfold opportunities in
        opportunities_in-least n (fuel_for now l) now l enough v.clocked r t b in
      elim s.used [
        | inl all ↦
            absurd (omega (arith, all, many, h, progress-le-bytes_of l', bytes_of-Kept s.order))
        | inr idle ↦ (l', e, (idle, subst (λ f. Kept f (flow c l)) (flow-IsIdle l' idle) s.order))
      ]
