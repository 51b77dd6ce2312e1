-- ===== src/Queue/Dropping.antt =====
-- dropping_packet_queue.hh and .cc: the base class of the queues with limits.
pub mod Laws
use mpshell_ext.Prelude.{
  ℕ, ◌+◌, ◌≡◌, Bool, true, false, ◌&&◌, not, List, [], ◌∷◌, ◌++◌, Option, none, some, leb, ◌==◌,
  if◌then◌else◌, is_nil,
}
use mpshell_ext.Prelude.Result.{
  Result, ok, err, assertion_failed, runtime_error, ◌>>=◌, ◌>>◌, assert, require,
}
use mpshell_ext.Words.{u32, sub32, nonnegative}
use mpshell_ext.Packet.{QueuedPacket, size}

-- The head of the list is the front of the `std::queue`.
pub record Dropping : Type 0 where
  pub queue_size_in_bytes : ℕ
  pub queue_size_in_packets : ℕ
  pub internal_queue : List QueuedPacket
  pub packet_limit : ℕ
  pub byte_limit : ℕ

-- The arguments of a queue, as the JSON library reads them: absent, or a number.
pub record Args : Type 0 where
  pub packets : Option ℕ
  pub bytes : Option ℕ

-- get_arg( args, name ): `static_cast<unsigned int>`, or 0.
unfoldable pub get_arg : Option ℕ → ℕ
get_arg none = 0
get_arg (some n) = u32 n

unfoldable pub init : Args → Result Dropping
unfolding get_arg
init args = do
  require (not (get_arg args.packets == 0 && get_arg args.bytes == 0)) runtime_error
  ok (record {
    queue_size_in_bytes = 0;
    queue_size_in_packets = 0;
    internal_queue = [];
    packet_limit = get_arg args.packets;
    byte_limit = get_arg args.bytes;
  })

unfoldable pub size_bytes : Dropping → Result ℕ
size_bytes d = do assert (nonnegative d.queue_size_in_bytes); ok d.queue_size_in_bytes

unfoldable pub size_packets : Dropping → Result ℕ
size_packets d = do assert (nonnegative d.queue_size_in_packets); ok d.queue_size_in_packets

-- `if ( limit ) { ret &= ( n <= limit ); }`
abbrev pub within : ℕ → ℕ → Bool
within limit n = if limit == 0 then true else leb n limit

unfoldable pub good_with : Dropping → ℕ → ℕ → Bool
good_with d size_in_bytes size_in_packets =
    within d.byte_limit size_in_bytes && within d.packet_limit size_in_packets

unfoldable pub good : Dropping → Result Bool
unfolding size_bytes size_packets good_with
good d = do b ← size_bytes d; n ← size_packets d; ok (good_with d b n)

unfoldable pub empty : Dropping → Bool
empty d = is_nil d.internal_queue

-- put a packet on the back of the queue
unfoldable pub accept : QueuedPacket → Dropping → Dropping
accept p d = record d {
  queue_size_in_bytes = u32 (d.queue_size_in_bytes + size p);
  queue_size_in_packets = u32 (d.queue_size_in_packets + 1);
  internal_queue = d.internal_queue ++ p ∷ [];
}

-- The front is taken, and the counters go down by it.
abbrev pub popped : QueuedPacket → List QueuedPacket → Dropping → Dropping
popped p rest d = record d {
  queue_size_in_bytes = sub32 d.queue_size_in_bytes (size p);
  queue_size_in_packets = sub32 d.queue_size_in_packets 1;
  internal_queue = rest;
}

unfoldable pub dequeue : Dropping → Result (QueuedPacket × Dropping)
dequeue d = elim d.internal_queue [
  | [] ↦ err assertion_failed
  | p ∷ rest ↦ do g ← good (popped p rest d); assert g; ok (p, popped p rest d)
]

-- `size_bytes() + pkt_size` is an `unsigned int` sum.
unfoldable pub can_accept_one : ℕ → Dropping → Result Bool
unfolding size_bytes size_packets
can_accept_one pkt_size d = do
  b ←
      if d.byte_limit == 0
      then ok true
      else (do n ← size_bytes d; ok (leb (u32 (n + pkt_size)) d.byte_limit))
  k ←
      if d.packet_limit == 0
      then ok true
      else (do n ← size_packets d; ok (leb (u32 (n + 1)) d.packet_limit))
  ok (b && k)

-- `if ( good_with( size_bytes() + p.contents.size(), size_packets() + 1 ) ) accept( p );
-- assert( good() );`, which the drop-tail, CoDel and PIE queues share.
unfoldable pub accept_if_good : QueuedPacket → Dropping → Result Dropping
accept_if_good p d = do
  b ← size_bytes d
  n ← size_packets d
  let d' = if good_with d (u32 (b + size p)) (u32 (n + 1)) then accept p d else d
  g ← good d'
  assert g
  ok d'
