-- ===== src/Tests/Networks.antt =====
-- Addresses as numbers.
use mpshell_ext.Prelude.{◌≡◌, ◌+◌, ◌==◌, ℕ, [], ◌∷◌}
use mpshell_ext.Prelude.Result.{ok}
use mpshell_ext.Addresses.{Interfaces, get_unassigned_address_pairs, address_in_use, any_same}
use mpshell_ext.Addresses.Laws.{free_octets, get_unassigned_address_pairs_lem}

abbrev cgnat : ℕ → ℕ
cgnat octet = 1000 + octet

-- The second octet is used.
abbrev interfaces : Interfaces ℕ
interfaces = record { addresses_in_use = 1002 ∷ 7 ∷ [] }

get_unassigned_address_pairs_lem_example :
    get_unassigned_address_pairs cgnat (λ a b. a == b) 2 interfaces
    ≡ ok ((1001, 1003) ∷ (1004, 1005) ∷ [])
unfolding free_octets address_in_use any_same
get_unassigned_address_pairs_lem_example =
    get_unassigned_address_pairs_lem cgnat (λ a b. a == b) interfaces 2
