-- ===== src/Link/Load.antt =====
-- link_queue.cc: lemmas on `load_transit`, which takes the next packet from the queue.
use mpshell_ext.Prelude.{
  ℕ, ◌<◌, ◌≡◌, ◌⊎◌, inl, inr, refl, sym, ap, subst, ◌∙◌, List, [], ◌∷◌, none, some, arith, is_nil,
  All, All-Kept, Kept, Kept-refl, Kept-map, Kept-prepend, keep, ◌==◌, Bool-cases, List-cases,
}
use mpshell_ext.Prelude.Result.{ok}
use mpshell_ext.Words.{u32}
use mpshell_ext.Packet.{QueuedPacket, size}
use mpshell_ext.Queue.{PacketQueue, Contract}
use mpshell_ext.Link.{LinkQueue, load_transit}
use mpshell_ext.Link.Flow.{
  Sendable, SameClock, SameClock-refl, in_transit, progress, IsLoaded, flow, IsIdle,
}

module _ {pq : PacketQueue} (c : Contract pq) where
  -- `l'` is `l` with a packet in transit.
  pub record Loaded (time : ℕ) (l l' : LinkQueue pq.State) : Type 0 where
    pub loaded : IsLoaded c time l'
    pub clock : SameClock l l'
    pub more : 0 < l'.packet_in_transit_bytes_left
    pub order : Kept (flow c l') (flow c l)
    pub same_progress : progress l' ≡ progress l

  module _ (time : ℕ) (l : LinkQueue pq.State) (v : IsLoaded c time l) where
    load_transit-some : 0 < l.packet_in_transit_bytes_left → Loaded time l l
    load_transit-some h = record {
      loaded = v;
      clock = SameClock-refl l;
      more = h;
      order = Kept-refl (flow c l);
      same_progress = refl;
    }

    abbrev taken : QueuedPacket → pq.State → LinkQueue pq.State
    taken p q = record l {
      packet_queue = q;
      packet_in_transit = p;
      packet_in_transit_bytes_left = u32 (size p);
    }

    taken-Loaded :
        (p : QueuedPacket) (ps : List QueuedPacket) (q : pq.State)
        → l.packet_in_transit_bytes_left ≡ 0
        → c.contents l.packet_queue ≡ p ∷ ps
        → c.IsValid q
        → Kept (c.contents q) ps
        → Loaded time l (taken p q)
    taken-Loaded p ps q none_left e v' k =
        let all : All (Sendable time) (p ∷ ps) = subst (All (Sendable time)) e v.queued in
        let head = all.0 in
        let same_size : u32 (size p) ≡ size p = omega (arith, head.small) in
        let here : in_transit (taken p q) ≡ p.contents ∷ [] =
          ground (arith, same_size, head.not_empty) in
        let before : in_transit l ≡ [] = ground (arith, none_left) in
        record {
          loaded = record {
            queue_valid = v';
            queued = All-Kept (Sendable time) k all.1;
            transit = inr (record {
              arrived = head.arrived;
              left = omega (arith, same_size);
              small = head.small;
            });
          };
          clock = record {
            next_delivery = refl;
            schedule = refl;
            base_timestamp = refl;
            repeats = refl;
            finished = refl;
          };
          more = omega (arith, same_size, head.not_empty);
          order =
              rw (here, before, e)
                (Kept-prepend l.output_queue (keep p.contents (Kept-map (λ x. x.contents) k)));
          same_progress = ground (arith, same_size, head.not_empty, none_left);
        }

    -- `load_transit` finds a packet, or the link is idle.
    pub load_transit-cases :
        ((load_transit pq l ≡ ok none) × IsIdle c l)
        ⊎ ((l' : LinkQueue pq.State) × (load_transit pq l ≡ ok (some l')) × Loaded time l l')
    load_transit-cases = elim (Bool-cases (l.packet_in_transit_bytes_left == 0)) [
      | inr f ↦ inr (l, unfold load_transit in rw f, load_transit-some (ground (arith, f)))
      | inl t ↦ elim (List-cases (c.contents l.packet_queue)) [
        | inl e ↦
            let h = c.empty_lem l.packet_queue v.queue_valid ∙ ap is_nil e in
            inl (unfold load_transit in rw t (rw h), (ground (arith, t), e))
        | inr (p, ps, e) ↦
            let h = c.empty_lem l.packet_queue v.queue_valid ∙ ap is_nil e in
            let (r, d, w) = c.dequeue_lem l.packet_queue p ps v.queue_valid e in
            inr (
              taken r.0 r.1,
              unfold load_transit in rw t (rw h (rw d)),
              taken-Loaded r.0 ps r.1 (ground (arith, t)) (e ∙ ap (λ x. x ∷ ps) (sym w.0)) w.1 w.2,
            )
      ]
    ]
