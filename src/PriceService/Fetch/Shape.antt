-- ===== src/PriceService/Fetch/Shape.antt =====
-- What the first half of FetchAndProcessBatchPrices makes: ids of two parts, indices in range, and
-- sets that respect excludeRoute.
use token_price_proxy.Prelude.{
  ℕ, ◌+◌, ◌≤◌, ◌<◌, ◌≡◌, refl, String, Bool, true, Option, none, some, List, [], ◌∷◌, ◌++◌, inl,
  inr, length, get_elem?-length, All, All-append, Bool-cases, Option-cases, arith,
}
use token_price_proxy.Prelude.Maps.{lookup, insert, Values, Values-insert, lookup-Values}
use token_price_proxy.Prelude.Panic.{Sure, Sure->>=}
use token_price_proxy.Prelude.Text.{split, length-split-append}
use token_price_proxy.PriceService.{Coin, join_id}
use token_price_proxy.PriceService.Fetch.Plan.{
  part, make_ids, index_map, CoinMaps, or_empty, is_alias, add_coin, coin_maps, Sets, add_named,
  add_known, add_id, fill,
}

-- An id with a chain and an address.
abbrev pub Dashed : String → Type 0
Dashed id = 1 < length (split b'_' id)

pub join_id-Dashed : (chain_id address : String) → Dashed (join_id chain_id address)
join_id-Dashed chain_id address = length-split-append chain_id address

pub part-Dashed : (id : String) (i : ℕ) → Dashed id → i < 2 → (s : String) × (part id i ≡ some s)
unfolding part
part-Dashed id i h hi = get_elem?-length (split b'_' id) i (omega arith)

pub make_ids-Sure :
    (chain_ids lower : List String)
    → length lower ≤ length chain_ids
    → Sure (λ ids. (length ids ≡ length lower) × All Dashed ids) (make_ids chain_ids lower)
unfolding make_ids
make_ids-Sure chain_ids [] h = ([], refl, (refl, _))
make_ids-Sure [] (a ∷ lower) h = ground arith
make_ids-Sure (c ∷ chain_ids) (a ∷ lower) h =
    Sure->>= _ _ _ _ (make_ids-Sure chain_ids lower (omega arith))
      (λ ids p. (_, refl, (omega (arith, p.0), (join_id-Dashed c a, p.1))))

pub index_map-Values :
    (n i : ℕ) (ids : List String) (m : List (String × ℕ))
    → i + length ids ≤ n
    → Values (λ j. j < n) m
    → Values (λ j. j < n) (index_map i ids m)
unfolding index_map
index_map-Values n i [] m h hm = hm
index_map-Values n i (id ∷ ids) m h hm =
    index_map-Values n (i + 1) ids (insert id i m) (omega arith)
      (Values-insert (λ j. j < n) id i m (omega arith) hm)

-- The two maps between the ids of one coin hold ids with a chain and an address.
abbrev pub DashedMaps : CoinMaps → Type 0
DashedMaps m = Values Dashed m.return_coin × Values (All Dashed) m.return_coin_to

pub or_empty-Dashed :
    (to : String) (m : List (String × List String))
    → Values (All Dashed) m
    → All Dashed (or_empty (lookup to m))
or_empty-Dashed to m h = elim (Option-cases (lookup to m)) [
  | inl e ↦ rw e _
  | inr (l, e) ↦ rw e (lookup-Values (All Dashed) to m l h e)
]

pub add_coin-DashedMaps :
    (m : CoinMaps) (coin : Coin) → DashedMaps m → Dashed coin.id → DashedMaps (add_coin m coin)
unfolding add_coin
add_coin-DashedMaps m coin h hc = elim (Bool-cases (is_alias coin)) [
  | inl e ↦
      let to = join_id coin.chain_id coin.address in
      rw e (
        Values-insert Dashed coin.id to m.return_coin (join_id-Dashed coin.chain_id coin.address)
            h.0,
        Values-insert (All Dashed) to (or_empty (lookup to m.return_coin_to) ++ coin.id ∷ [])
            m.return_coin_to
            (All-append Dashed (or_empty (lookup to m.return_coin_to)) (coin.id ∷ [])
              (or_empty-Dashed to m.return_coin_to h.1) (hc, _))
            h.1,
      )
  | inr e ↦ rw e h
]

pub coin_maps-DashedMaps :
    (m : CoinMaps) (coins : List Coin)
    → DashedMaps m
    → All (λ coin. Dashed coin.id) coins
    → DashedMaps (coin_maps m coins)
unfolding coin_maps
coin_maps-DashedMaps m [] h hc = h
coin_maps-DashedMaps m (coin ∷ coins) h hc =
    coin_maps-DashedMaps (add_coin m coin) coins (add_coin-DashedMaps m coin h hc.0) hc.1

add_named-dodoex : (id : String) (coin : Coin) (s : Sets) → (add_named id coin s).dodoex ≡ s.dodoex
unfolding add_named
add_named-dodoex id coin s = ground arith

add_known-dodoex :
    (id : String) (coin : Option Coin) (s : Sets) → (add_known id coin s).dodoex ≡ s.dodoex
unfolding add_known
add_known-dodoex id none s = refl
add_known-dodoex id (some coin) s = add_named-dodoex id coin s

-- With excludeRoute no id is meant for the route service.
abbrev pub NoRoute : Bool → Sets → Type 0
NoRoute exclude_route s = exclude_route ≡ true → s.dodoex ≡ []

add_id-NoRoute :
    (exclude_route : Bool) (coins : List (String × Coin)) (id : String) (s : Sets)
    → Dashed id
    → NoRoute exclude_route s
    → Sure (NoRoute exclude_route) (add_id exclude_route coins id s)
unfolding add_id
add_id-NoRoute exclude_route coins id s hd h =
    let (chain, e) = part-Dashed id 0 hd (omega arith) in
    let (address, e') = part-Dashed id 1 hd (omega arith) in
    let same = add_known-dodoex id (lookup (join_id chain address) coins) s in
    rw (e, e') (_, refl, λ x. ground (arith, x, h x, same))

pub fill-NoRoute :
    (exclude_route : Bool) (coins : List (String × Coin)) (ids : List String) (s : Sets)
    → All Dashed ids
    → NoRoute exclude_route s
    → Sure (NoRoute exclude_route) (fill exclude_route coins ids s)
unfolding fill
fill-NoRoute exclude_route coins [] s hd h = (s, refl, h)
fill-NoRoute exclude_route coins (id ∷ ids) s hd h =
    Sure->>= (NoRoute exclude_route) _ (add_id exclude_route coins id s) _
      (add_id-NoRoute exclude_route coins id s hd.0 h)
      (λ s' h'. fill-NoRoute exclude_route coins ids s' hd.1 h')
