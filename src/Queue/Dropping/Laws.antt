-- ===== src/Queue/Dropping/Laws.antt =====
-- dropping_packet_queue.cc: the invariant of the counters and limits, and theorems on the operations.
use mpshell_ext.Prelude.{
  ℕ, ◌+◌, ◌≤◌, ◌<◌, ◌^◌, ◌≡◌, ◌⊎◌, inl, inr, refl, ap, ◌∙◌, Bool, true, List, [], ◌∷◌, ◌++◌, arith,
  length, length-append, if◌then◌else◌, Kept, Kept-refl, Kept-without_last, is_nil, Bool-cases,
}
use mpshell_ext.Prelude.Result.{ok, err, assertion_failed, Returns}
use mpshell_ext.Packet.{QueuedPacket, size, total, total-append}
use mpshell_ext.Queue.Dropping.{
  Dropping, size_bytes, size_packets, good_with, good, empty, accept, popped, dequeue,
  accept_if_good,
}

-- `n` is within `limit`, where 0 stands for no limit.
abbrev pub Within : ℕ → ℕ → Type 0
Within limit n = (limit ≡ 0) ⊎ (n ≤ limit)

pub record IsCounted (d : Dropping) : Type 0 where
  pub bytes : d.queue_size_in_bytes ≡ total d.internal_queue
  pub packets : d.queue_size_in_packets ≡ length d.internal_queue
  pub bytes_small : total d.internal_queue < 2 ^ 31
  pub packets_small : length d.internal_queue < 2 ^ 31

pub record IsValid (d : Dropping) : Type 0 where
  pub counted : IsCounted d
  pub byte_limit_met : Within d.byte_limit (total d.internal_queue)
  pub packet_limit_met : Within d.packet_limit (length d.internal_queue)

pub size_bytes_lem : {d : Dropping} → IsCounted d → size_bytes d ≡ ok (total d.internal_queue)
unfolding size_bytes
size_bytes_lem v = ground arith

pub size_packets_lem : {d : Dropping} → IsCounted d → size_packets d ≡ ok (length d.internal_queue)
unfolding size_packets
size_packets_lem v = ground arith

pub good_lem :
    {d : Dropping}
    → IsCounted d
    → good d ≡ ok (good_with d (total d.internal_queue) (length d.internal_queue))
unfolding good
good_lem v = ground arith

pub good_with_of_Within :
    (d : Dropping) (b n : ℕ)
    → Within d.byte_limit b
    → Within d.packet_limit n
    → good_with d b n ≡ true
unfolding good_with
good_with_of_Within d b n h k = ground arith

pub Within-of_good_with :
    (d : Dropping) (b n : ℕ)
    → good_with d b n ≡ true
    → Within d.byte_limit b × Within d.packet_limit n
unfolding good_with
Within-of_good_with d b n h = ground arith

pub accept-IsCounted :
    (p : QueuedPacket) {d : Dropping}
    → IsCounted d
    → total d.internal_queue + size p < 2 ^ 31
    → length d.internal_queue + 1 < 2 ^ 31
    → IsCounted (accept p d)
unfolding accept
accept-IsCounted p {d} v h k = omega (
  arith,
  total-append d.internal_queue (p ∷ []),
  length-append d.internal_queue (p ∷ []),
  v.bytes,
  v.packets,
)

pub popped-IsCounted :
    (p : QueuedPacket) (rest : List QueuedPacket) {d : Dropping}
    → IsCounted d
    → d.internal_queue ≡ p ∷ rest
    → IsCounted (popped p rest d)
popped-IsCounted p rest {d} v e = omega (arith, ap total e, ap length e, v.bytes, v.packets)

-- A queue that is counted and met its limits stays so when its head is taken.
pub popped-IsValid :
    (p : QueuedPacket) (rest : List QueuedPacket) {d : Dropping}
    → IsValid d
    → d.internal_queue ≡ p ∷ rest
    → IsValid (popped p rest d)
popped-IsValid p rest {d} v e = record {
  counted = popped-IsCounted p rest v.counted e;
  byte_limit_met = omega (arith, ap total e, v.byte_limit_met);
  packet_limit_met = omega (arith, ap length e, v.packet_limit_met);
}

pub good_of_IsValid : {d : Dropping} → IsValid d → good d ≡ ok true
good_of_IsValid {d} v =
    good_lem v.counted
    ∙ ap ok (
        good_with_of_Within d (total d.internal_queue) (length d.internal_queue) v.byte_limit_met
          v.packet_limit_met)

pub empty_lem : (d : Dropping) → empty d ≡ is_nil d.internal_queue
unfolding empty
empty_lem d = refl

-- `dequeue` of a queue whose limits need not be met: its assertion looks at what is left.
pub dequeue_counted :
    (p : QueuedPacket) (rest : List QueuedPacket) {d : Dropping}
    → IsCounted d
    → d.internal_queue ≡ p ∷ rest
    → dequeue d ≡ (
        if good_with d (total rest) (length rest)
        then ok (p, popped p rest d)
        else err assertion_failed)
unfolding dequeue good_with
dequeue_counted p rest {d} v e =
    rw (e, dequeue) (ground (arith, good_lem (popped-IsCounted p rest v e)))

-- `dequeue` takes the oldest packet of a queue that meets its limits, and fails no assertion.
pub dequeue_dropping :
    (p : QueuedPacket) (rest : List QueuedPacket) {d : Dropping}
    → IsValid d
    → d.internal_queue ≡ p ∷ rest
    → dequeue d ≡ ok (p, popped p rest d)
unfolding dequeue
dequeue_dropping p rest {d} v e =
    rw (e, dequeue) (ground (arith, good_of_IsValid (popped-IsValid p rest v e)))

pub accept-IsValid :
    (p : QueuedPacket) {d : Dropping}
    → IsValid d
    → total d.internal_queue + size p < 2 ^ 31
    → length d.internal_queue + 1 < 2 ^ 31
    → good_with d (total d.internal_queue + size p) (length d.internal_queue + 1) ≡ true
    → IsValid (accept p d)
accept-IsValid p {d} v h k g = record {
  counted = accept-IsCounted p v.counted h k;
  byte_limit_met =
      unfold accept in
      omega (
        arith,
        total-append d.internal_queue (p ∷ []),
        Within-of_good_with d (total d.internal_queue + size p) (length d.internal_queue + 1) g,
      );
  packet_limit_met =
      unfold accept in
      omega (
        arith,
        length-append d.internal_queue (p ∷ []),
        Within-of_good_with d (total d.internal_queue + size p) (length d.internal_queue + 1) g,
      );
}

-- The room test of the queues that drop at the tail, with the sums as they are.
abbrev pub fits : QueuedPacket → Dropping → Bool
fits p d = good_with d (total d.internal_queue + size p) (length d.internal_queue + 1)

module _ (p : QueuedPacket) {d : Dropping} (v : IsValid d)
    (in_bytes : total d.internal_queue + size p < 2 ^ 31)
    (in_packets : length d.internal_queue + 1 < 2 ^ 31) where
  pub accept_if_good-IsValid : IsValid (if fits p d then accept p d else d)
  accept_if_good-IsValid = elim (Bool-cases (fits p d)) [
    | inl e ↦ rw e (accept-IsValid p v in_bytes in_packets e)
    | inr e ↦ rw e v
  ]

  -- A packet that fits is put at the back, and any other is dropped; no assertion fails.
  pub accept_if_good_lem : accept_if_good p d ≡ ok (if fits p d then accept p d else d)
  unfolding accept_if_good
  accept_if_good_lem = ground (
    arith,
    size_bytes_lem v.counted,
    size_packets_lem v.counted,
    good_of_IsValid accept_if_good-IsValid,
  )

  accept_if_good-Kept :
      Kept (if fits p d then accept p d else d).internal_queue (d.internal_queue ++ p ∷ [])
  unfolding accept
  accept_if_good-Kept = elim (Bool-cases (fits p d)) [
    | inl e ↦ rw e (Kept-refl (d.internal_queue ++ p ∷ []))
    | inr e ↦ rw e (Kept-without_last d.internal_queue (p ∷ []))
  ]

  pub accept_if_good-Returns :
      Returns
        (accept_if_good p d)
        (λ d'. IsValid d' × Kept d'.internal_queue (d.internal_queue ++ p ∷ []))
  accept_if_good-Returns = (
    if fits p d then accept p d else d,
    accept_if_good_lem,
    (accept_if_good-IsValid, accept_if_good-Kept),
  )
