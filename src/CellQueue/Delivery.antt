-- ===== src/CellQueue/Delivery.antt =====
-- cell_queue.cc, write_packets: one delivery.
use mathlib.Core.List.{append_assoc}
use mpshell_ext.Prelude.{
  ℕ, zero, suc, ◌+◌, ◌^◌, ◌≤◌, ◌<◌, ◌≡◌, refl, ◌∙◌, inl, inr, true, false, List, [], ◌∷◌, ◌++◌,
  arith, ◌==◌, length, All, Bool-cases,
}
use mpshell_ext.Prelude.Result.{ok, Returns}
use mpshell_ext.Words.{sub32}
use mpshell_ext.Packet.{Bytes}
use mpshell_ext.CellQueue.{CellPacket, packet_size, not_positive, deliver}

-- A packet whose bytes are positive as an `int`, or none.
abbrev pub IsSmall : CellPacket → Type 0
IsSmall p = p.bytes_to_transmit < 2 ^ 31

-- The packets in order.
abbrev pub contents_of : List CellPacket → List Bytes
contents_of [] = []
contents_of (p ∷ ps) = p.contents ∷ contents_of ps

-- What is written, and then what is left, is what there was.
pub record IsInOrder (packets : List CellPacket) (written : List Bytes)
    (r : List CellPacket × List Bytes) : Type 0 where
  pub order : r.1 ++ contents_of r.0 ≡ written ++ contents_of packets
  pub small : All IsSmall r.0

deliver-done :
    (fuel : ℕ) (packets : List CellPacket) (written : List Bytes)
    → 0 < fuel
    → deliver fuel 0 packets written ≡ ok (packets, written)
unfolding deliver
deliver-done zero packets written h = absurd (omega arith)
deliver-done (suc fuel) [] written h = refl
deliver-done (suc fuel) (p ∷ ps) written h = refl

pub deliver_lem :
    (fuel left : ℕ) (packets : List CellPacket) (written : List Bytes)
    → left ≤ packet_size
    → All IsSmall packets
    → length packets + 1 < fuel
    → Returns (deliver fuel left packets written) (IsInOrder packets written)
unfolding deliver
deliver_lem zero left packets written l s h = absurd (omega arith)
deliver_lem (suc fuel) left [] written l s h =
    (([], written), refl, record { order = refl; small = tt })
deliver_lem (suc fuel) left (p ∷ ps) written l s h = elim (Bool-cases (left == 0)) [
  | inl e ↦ simp e ((p ∷ ps, written), refl, record { order = refl; small = s })
  | inr e ↦ elim (Bool-cases (not_positive (sub32 p.bytes_to_transmit left))) [
    | inl f ↦
        let (r, returned, o) =
          deliver_lem fuel (sub32 0 (sub32 p.bytes_to_transmit left)) ps
            (written ++ p.contents ∷ []) (surplus p.bytes_to_transmit left s.0 l f) s.1
            (omega arith) in
        simp (e, f)
          (
            r,
            returned,
            record {
              order = o.order ∙ append_assoc written (p.contents ∷ []) (contents_of ps);
              small = o.small;
            },
          )
    | inr f ↦
        let q = record p { bytes_to_transmit = sub32 p.bytes_to_transmit left } in
        simp (e, f, deliver-done fuel (q ∷ ps) written (omega arith))
          (
            (q ∷ ps, written),
            refl,
            record { order = refl; small = (rest p.bytes_to_transmit left s.0 l f, s.1) },
          )
  ]
]
  where
    surplus :
        (b left : ℕ)
        → b < 2 ^ 31
        → left ≤ packet_size
        → not_positive (sub32 b left) ≡ true
        → sub32 0 (sub32 b left) ≤ packet_size
    surplus b left h l f = ground arith

    rest :
        (b left : ℕ)
        → b < 2 ^ 31
        → left ≤ packet_size
        → not_positive (sub32 b left) ≡ false
        → sub32 b left < 2 ^ 31
    rest b left h l f = ground arith
