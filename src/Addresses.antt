-- ===== src/Addresses.antt =====
-- get_address.hh and .cc: addresses that no interface uses. What an `Address` is, is left open:
-- `cgnat` makes one of its last octet, and `same` compares two.
pub mod Laws
use mpshell_ext.Prelude.{
  ℕ, zero, suc, ◌+◌, ◌%◌, ◌^◌, Bool, true, false, List, [], ◌∷◌, leb, if◌then◌else◌,
}
use mpshell_ext.Prelude.Result.{Result, ok, err, exception, out_of_fuel, ◌>>=◌}

-- A value as a `uint16_t`.
abbrev pub u16 : ℕ → ℕ
u16 a = a % 2 ^ 16

-- `addresses_in_use` is what the system says at the start of the program.
pub record Interfaces (Address : Type 0) : Type 0 where
  pub addresses_in_use : List Address

module _ {Address : Type 0} (cgnat : ℕ → Address) (same : Address → Address → Bool) where
  unfoldable pub any_same : Address → List Address → Bool
  any_same addr [] = false
  any_same addr (x ∷ xs) = let rest = any_same addr xs in if same addr x then true else rest

  unfoldable pub address_in_use : Address → Interfaces Address → Bool
  address_in_use addr i = any_same addr i.addresses_in_use

  -- `while ( last_octet <= 255 )`
  unfoldable pub search_octets : ℕ → ℕ → Interfaces Address → Result (Address × ℕ)
  search_octets zero last_octet i = err out_of_fuel
  search_octets (suc fuel) last_octet i =
      let next = search_octets fuel (u16 (last_octet + 1)) i in
      if leb last_octet 255
      then (if address_in_use (cgnat last_octet) i then next else ok (cgnat last_octet, last_octet))
      else err exception

  -- One round for each octet, and one for the last test.
  unfoldable pub first_unassigned_address : ℕ → Interfaces Address → Result (Address × ℕ)
  first_unassigned_address last_octet i = search_octets 257 (u16 last_octet) i

  -- `for (int i = 1; i <= n; i++)`
  unfoldable pub address_pairs : ℕ → ℕ → Interfaces Address → Result (List (Address × Address))
  address_pairs zero last_octet i = ok []
  address_pairs (suc n) last_octet i = do
    one ← first_unassigned_address last_octet i
    two ← first_unassigned_address (one.1 + 1) i
    rest ← address_pairs n (two.1 + 1) i
    ok ((one.0, two.0) ∷ rest)

  unfoldable pub get_unassigned_address_pairs :
      ℕ → Interfaces Address → Result (List (Address × Address))
  get_unassigned_address_pairs n i = address_pairs n 1 i

  unfoldable two_unassigned_addresses : Interfaces Address → Result (Address × Address)
  two_unassigned_addresses i = do
    one ← first_unassigned_address 1 i
    two ← first_unassigned_address (one.1 + 1) i
    ok (one.0, two.0)
