-- ===== src/Packet.antt =====
-- queued_packet.hh: a packet with the time at which it arrived. A string is the list of its bytes.
use mpshell_ext.Prelude.{
  ℕ, ◌+◌, ◌≤◌, ◌≡◌, List, [], ◌∷◌, ◌++◌, arith, length, Kept, done, keep, skip,
}

abbrev pub Bytes : Type 0
Bytes = List ℕ

pub record QueuedPacket : Type 0 where
  pub arrival_time : ℕ
  pub contents : Bytes

-- p.contents.size()
abbrev pub size : QueuedPacket → ℕ
size p = length p.contents

-- The bytes of all the packets of a queue.
abbrev pub total : List QueuedPacket → ℕ
total [] = 0
total (p ∷ ps) = size p + total ps

pub total-append : (ps qs : List QueuedPacket) → total (ps ++ qs) ≡ total ps + total qs
total-append [] qs = omega arith
total-append (p ∷ ps) qs = omega (arith, total-append ps qs)

pub total-Kept : {ps qs : List QueuedPacket} → Kept ps qs → total ps ≤ total qs
total-Kept done = omega arith
total-Kept (keep p h) = omega (arith, total-Kept h)
total-Kept (skip p h) = omega (arith, total-Kept h)
