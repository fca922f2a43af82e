-- ===== src/PriceService/Fetch/Ready.antt =====
-- What keeps batchQuery in range.
use token_price_proxy.Prelude.{
  ℕ, ◌<◌, ◌≡◌, refl, String, some, inl, inr, length, get_elem?, get_elem?-length, Option-cases,
  arith,
}
use token_price_proxy.Prelude.Maps.{lookup, Values, lookup-Values}
use token_price_proxy.PriceService.Fetch.Query.{Asked, index, place}
use token_price_proxy.PriceService.Fetch.Shape.{Dashed, part-Dashed, DashedMaps}

-- What batchQuery needs to stay in range.
abbrev pub Ready : Asked → Type 0
Ready q =
    Values (λ i. i < length q.chain_ids) q.index_of
    × Values (λ i. i < length q.lower_addresses) q.index_of
    × (0 < length q.chain_ids)
    × (0 < length q.lower_addresses)
    × DashedMaps q.maps

pub index_lem :
    (q : Asked) (id : String) (n : ℕ) → Values (λ i. i < n) q.index_of → 0 < n → index q id < n
index_lem q id n h h0 = elim (Option-cases (lookup id q.index_of)) [
  | inl e ↦ rw e h0
  | inr (i, e) ↦ rw e (lookup-Values (λ i. i < n) id q.index_of i h e)
]

pub chain_lem :
    (q : Asked) (id : String)
    → Ready q
    → (s : String) × (get_elem? q.chain_ids (index q id) ≡ some s)
chain_lem q id h = get_elem?-length q.chain_ids (index q id) (index_lem q id _ h.0 h.2)

pub address_lem :
    (q : Asked) (id : String)
    → Ready q
    → (s : String) × (get_elem? q.lower_addresses (index q id) ≡ some s)
address_lem q id h = get_elem?-length q.lower_addresses (index q id) (index_lem q id _ h.1 h.3)

pub place_lem :
    (q : Asked) (id : String) → Ready q → (at : String × String) × (place q id ≡ some at)
place_lem q id h = elim (Option-cases (lookup id q.maps.return_coin)) [
  | inl e ↦
      let (c, ec) = chain_lem q id h in
      let (a, ea) = address_lem q id h in rw (e, ec, ea) ((c, a), refl)
  | inr (to, e) ↦
      let d = lookup-Values Dashed id q.maps.return_coin to h.4.0 e in
      let (c, ec) = part-Dashed to 0 d (omega arith) in
      let (a, ea) = part-Dashed to 1 d (omega arith) in rw (e, ec, ea) ((c, a), refl)
]
