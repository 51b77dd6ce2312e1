-- ===== src/RateDelay/Move.antt =====
-- rate_delay_queue.cc: lemmas on the loop that moves packets from the delay queue to the link.
use mathlib.Core.List.{append_assoc}
use mpshell_ext.Prelude.{
  ℕ, zero, suc, ◌+◌, ◌≤◌, ◌<◌, ◌^◌, ◌≡◌, inl, inr, refl, sym, ap, subst, ◌∙◌, List, [], ◌∷◌, ◌++◌,
  false, arith, length, length-append, length-Kept, All, Kept, skip, true, Bool-cases, Kept-prepend,
  Kept-refl, Kept-trans, Kept-append, is_nil,
}
use mpshell_ext.Prelude.Result.{ok, Returns}
use mpshell_ext.Prelude.Stream.{Stream, now, later}
use mpshell_ext.Packet.{Bytes}
use mpshell_ext.Queue.{PacketQueue, Contract}
use mpshell_ext.Delay.{Delayed, DelayQueue}
use mpshell_ext.Delay
use mpshell_ext.Delay.Laws.{contents_of, get_next-cases}
use mpshell_ext.Link.{LinkQueue, packet_size}
use mpshell_ext.Link
use mpshell_ext.Link.Trace.{back}
use mpshell_ext.Link.Flow.{bytes_of, bytes_of-append, flow}
use mpshell_ext.Link.Rationalize.{IsValid}
use mpshell_ext.Link.Enqueue.{bytes_of-Kept}
use mpshell_ext.Link.Arrival.{LinkHasRoom, read_packet_lem}
use mpshell_ext.RateDelay.{RateDelayQueue, move_packets}

-- A packet that a link can carry.
pub record Carried (p : Delayed) : Type 0 where
  pub small : length p.contents ≤ packet_size

module _ {pq : PacketQueue} (c : Contract pq) where
  -- All the packets, from the output of the link back to the last that came.
  abbrev pub line : RateDelayQueue pq.State → List Bytes
  line r = flow c r.link_queue ++ contents_of r.delay_queue.packet_queue

  pub record IsReady (r : RateDelayQueue pq.State) : Type 0 where
    pub link_valid : IsValid c r.link_queue
    pub carried : All Carried r.delay_queue.packet_queue
    pub in_bytes : bytes_of (line r) < 2 ^ 31
    pub in_packets : length (line r) < 2 ^ 31

  -- No reading of the clock is near the end of time.
  abbrev pub InTime : Stream → RateDelayQueue pq.State → Type 0
  InTime clock r = (n : ℕ) → clock n + back r.link_queue.schedule < 2 ^ 64

  abbrev pub Moved : RateDelayQueue pq.State → RateDelayQueue pq.State → Type 0
  Moved r r' =
      IsReady r' × Kept (line r') (line r) × (r'.link_queue.schedule ≡ r.link_queue.schedule)

  move-end :
      (fuel : ℕ) (clock : Stream) (r : RateDelayQueue pq.State)
      → Delay.get_next (now clock) r.delay_queue ≡ ([], r.delay_queue)
      → move_packets pq (suc fuel) clock r ≡ ok r
  unfolding move_packets
  move-end fuel clock r g = ground arith

  abbrev forwarded :
      List Delayed → LinkQueue pq.State → RateDelayQueue pq.State → RateDelayQueue pq.State
  forwarded ps l r = record {
    delay_queue = record r.delay_queue { packet_queue = ps };
    link_queue = l;
  }

  move-round :
      (fuel : ℕ) (clock : Stream) (r : RateDelayQueue pq.State) (p : Delayed) (ps : List Delayed)
      (l : LinkQueue pq.State)
      → Delay.get_next (now clock) r.delay_queue
        ≡ (p.contents, record r.delay_queue { packet_queue = ps })
      → is_nil p.contents ≡ false
      → Link.read_packet pq (now (later clock)) p.contents r.link_queue ≡ ok l
      → move_packets pq (suc fuel) clock r
        ≡ move_packets pq fuel (later (later clock)) (forwarded ps l r)
  unfolding move_packets
  move-round fuel clock r p ps l g n e = ground arith

  move-empty :
      (fuel : ℕ) (clock : Stream) (r : RateDelayQueue pq.State) (p : Delayed) (ps : List Delayed)
      → Delay.get_next (now clock) r.delay_queue
        ≡ (p.contents, record r.delay_queue { packet_queue = ps })
      → is_nil p.contents ≡ true
      → move_packets pq (suc fuel) clock r ≡ ok (forwarded ps r.link_queue r)
  unfolding move_packets
  move-empty fuel clock r p ps g n = ground arith

  -- One packet goes from the delay queue to the link.
  module _ (r : RateDelayQueue pq.State) (v : IsReady r) (p : Delayed) (ps : List Delayed)
      (e : r.delay_queue.packet_queue ≡ p ∷ ps) where
    line_split : line r ≡ flow c r.link_queue ++ (p.contents ∷ contents_of ps)
    line_split = ap (λ (x : List Delayed). flow c r.link_queue ++ contents_of x) e

    All-of_split : All Carried (p ∷ ps)
    All-of_split = subst (All Carried) e v.carried

    room : LinkHasRoom c p.contents r.link_queue
    room = record {
      in_bytes = omega (
        arith,
        v.in_bytes,
        ap bytes_of line_split,
        bytes_of-append (flow c r.link_queue) (p.contents ∷ contents_of ps),
      );
      in_packets = omega (
        arith,
        v.in_packets,
        ap length line_split,
        length-append (flow c r.link_queue) (p.contents ∷ contents_of ps),
      );
    }

    line-forwarded :
        (l : LinkQueue pq.State)
        → Kept (flow c l) (flow c r.link_queue ++ p.contents ∷ [])
        → Kept (line (forwarded ps l r)) (line r)
    line-forwarded l k =
        subst (Kept (line (forwarded ps l r)))
          (append_assoc (flow c r.link_queue) (p.contents ∷ []) (contents_of ps) ∙ sym line_split)
          (Kept-append k (contents_of ps))

    line-emptied : Kept (line (forwarded ps r.link_queue r)) (line r)
    line-emptied =
        subst (Kept (line (forwarded ps r.link_queue r))) (sym line_split)
          (Kept-prepend (flow c r.link_queue) (skip p.contents (Kept-refl (contents_of ps))))

    forwarded-IsReady :
        (l : LinkQueue pq.State)
        → IsValid c l
        → Kept (line (forwarded ps l r)) (line r)
        → IsReady (forwarded ps l r)
    forwarded-IsReady l w k = record {
      link_valid = w;
      carried = All-of_split.1;
      in_bytes = omega (arith, bytes_of-Kept k, v.in_bytes);
      in_packets = omega (arith, length-Kept k, v.in_packets);
    }

  pos_of_not_nil : (b : Bytes) → is_nil b ≡ false → 0 < length b
  pos_of_not_nil b e = ground arith

  -- What is moved goes to the link, and no packet that is not empty is lost or moved out of order on
  -- the way; the loop ends, and no assertion fails.
  pub move_packets_lem :
      (fuel : ℕ) (clock : Stream) (r : RateDelayQueue pq.State)
      → length r.delay_queue.packet_queue < fuel
      → IsReady r
      → InTime clock r
      → Returns (move_packets pq fuel clock r) (Moved r)
  move_packets_lem zero clock r h v b = absurd (omega arith)
  move_packets_lem (suc fuel) clock r h v b = elim (get_next-cases (now clock) r.delay_queue) [
    | inl g ↦ (r, move-end fuel clock r g, (v, Kept-refl (line r), refl))
    | inr (p, ps, e, t, g) ↦
        let head = (All-of_split r v p ps e).0 in
        elim (Bool-cases (is_nil p.contents)) [
          | inl n ↦ (
            forwarded ps r.link_queue r,
            move-empty fuel clock r p ps g n,
            (
              forwarded-IsReady r v p ps e r.link_queue v.link_valid (line-emptied r v p ps e),
              line-emptied r v p ps e,
              refl,
            ),
          )
          | inr n ↦
              let (l, d, w) =
                read_packet_lem c (now (later clock)) p.contents r.link_queue v.link_valid (b 1)
                  (pos_of_not_nil p.contents n) head.small (room r v p ps e) in
              let k = line-forwarded r v p ps e l w.order in
              let (r', d', m) =
                move_packets_lem fuel (later (later clock)) (forwarded ps l r)
                  (omega (arith, ap length e)) (forwarded-IsReady r v p ps e l w.valid k)
                  (λ n. rw w.same_schedule (b (suc (suc n)))) in
              (
                r',
                move-round fuel clock r p ps l g n d ∙ d',
                (m.0, Kept-trans m.1 k, m.2 ∙ w.same_schedule),
              )
        ]
  ]
