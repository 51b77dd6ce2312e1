-- ===== src/Addresses/Laws.antt =====
-- get_address.cc: theorems on the choice of addresses, beside the list of the free octets.
use mpshell_ext.Prelude.{
  ℕ, zero, suc, ◌+◌, ◌-◌, ◌≤◌, ◌<◌, ◌≡◌, inl, inr, refl, ap, sym, ◌∙◌, Bool, List, [], ◌∷◌, arith,
  if◌then◌else◌, List-cases, Bool-cases,
}
use mpshell_ext.Prelude.Result.{Result, ok, err, exception, ◌>>=◌}
use mpshell_ext.Addresses.{
  u16, Interfaces, address_in_use, search_octets, first_unassigned_address, address_pairs,
  get_unassigned_address_pairs,
}

module _ {Address : Type 0} (cgnat : ℕ → Address) (same : Address → Address → Bool)
    (i : Interfaces Address) where
  -- The free ones of the `n` octets from `octet` on, in order.
  unfoldable pub free_octets : ℕ → ℕ → List ℕ
  free_octets zero octet = []
  free_octets (suc n) octet =
      let rest = free_octets n (octet + 1) in
      if address_in_use cgnat same (cgnat octet) i then rest else octet ∷ rest

  -- The first of the free octets, with its address.
  abbrev pub first_of : List ℕ → Result (Address × ℕ)
  first_of [] = err exception
  first_of (k ∷ ks) = ok (cgnat k, k)

  -- The addresses of the free octets, two by two.
  abbrev pub pairs_of : ℕ → List ℕ → Result (List (Address × Address))
  pairs_of zero ks = ok []
  pairs_of (suc n) [] = err exception
  pairs_of (suc n) (a ∷ []) = err exception
  pairs_of (suc n) (a ∷ b ∷ ks) = do rest ← pairs_of n ks; ok ((cgnat a, cgnat b) ∷ rest)

  search_octets_lem :
      (n fuel octet : ℕ)
      → octet + n ≡ 256
      → n < fuel
      → search_octets cgnat same fuel octet i ≡ first_of (free_octets n octet)
  unfolding search_octets free_octets
  search_octets_lem n zero octet h k = absurd (omega arith)
  search_octets_lem zero (suc fuel) octet h k = ground arith
  search_octets_lem (suc n) (suc fuel) octet h k =
      ground (arith, search_octets_lem n fuel (octet + 1) (omega arith) (omega arith))

  first_unassigned_address_lem :
      (octet : ℕ)
      → octet ≤ 256
      → first_unassigned_address cgnat same octet i ≡ first_of (free_octets (256 - octet) octet)
  unfolding first_unassigned_address
  first_unassigned_address_lem octet h =
      ap (λ o. search_octets cgnat same 257 o i) (u16_small octet h)
      ∙ search_octets_lem (256 - octet) 257 octet (omega arith) (omega arith)
    where
      u16_small : (a : ℕ) → a ≤ 256 → u16 a ≡ a
      u16_small a k = omega (arith, k)

  -- The free octets behind the first one are those that are free from the next octet on.
  free_octets-next :
      (n octet k : ℕ) (ks : List ℕ)
      → octet + n ≡ 256
      → free_octets n octet ≡ k ∷ ks
      → (k ≤ 255) × (ks ≡ free_octets (256 - (k + 1)) (k + 1))
  unfolding free_octets
  free_octets-next zero octet k ks h e = absurd (ground arith)
  free_octets-next (suc n) octet k ks h e =
      elim (Bool-cases (address_in_use cgnat same (cgnat octet) i)) [
        | inl used ↦ free_octets-next n (octet + 1) k ks (omega arith) (ground (arith, used))
        | inr free ↦
            let found : octet ≡ k = ground (arith, free) in
            let rest : free_octets n (octet + 1) ≡ ks = ground (arith, free) in
            (
              omega arith,
              sym rest
                  ∙ ap (λ m. free_octets m (octet + 1)) (count n octet h)
                  ∙ ap (λ o. free_octets (256 - (o + 1)) (o + 1)) found,
            )
      ]
    where
      count : (m o : ℕ) → o + suc m ≡ 256 → m ≡ 256 - (o + 1)
      count m o g = omega (arith, g)

  -- From the octets that are free from `octet` on, `address_pairs` takes the first `2 * n`, and it
  -- throws if there are fewer.
  address_pairs_lem :
      (n octet : ℕ)
      → octet ≤ 256
      → address_pairs cgnat same n octet i ≡ pairs_of n (free_octets (256 - octet) octet)
  unfolding address_pairs
  address_pairs_lem zero octet h = refl
  address_pairs_lem (suc n) octet h = elim (List-cases (free_octets (256 - octet) octet)) [
    | inl none_free ↦ ground (arith, first_unassigned_address_lem octet h, none_free)
    | inr (a, as', e) ↦
        let next = free_octets-next (256 - octet) octet a as' (omega arith) e in
        elim (List-cases as') [
          | inl f ↦ ground (
            arith,
            first_unassigned_address_lem octet h,
            e,
            first_unassigned_address_lem (a + 1) (omega (arith, next.0)),
            sym next.1 ∙ f,
          )
          | inr (b, bs, f) ↦
              let after =
                free_octets-next (256 - (a + 1)) (a + 1) b bs (omega (arith, next.0))
                  (sym next.1 ∙ f) in
              ground (
                arith,
                first_unassigned_address_lem octet h,
                e,
                first_unassigned_address_lem (a + 1) (omega (arith, next.0)),
                sym next.1 ∙ f,
                address_pairs_lem n (b + 1) (omega (arith, after.0)),
                after.1,
              )
        ]
  ]

  -- The pairs are made of the first `2 * n` octets from 1 to 255 whose addresses no interface uses, in
  -- order; if there are fewer, an exception is thrown.
  pub get_unassigned_address_pairs_lem :
      (n : ℕ) → get_unassigned_address_pairs cgnat same n i ≡ pairs_of n (free_octets 255 1)
  unfolding get_unassigned_address_pairs
  get_unassigned_address_pairs_lem n = address_pairs_lem n 1 (omega arith)
