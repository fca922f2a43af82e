-- ===== src/PriceService/Fetch/Rows.antt =====
-- What FetchAndProcessBatchPrices returns: one row for each address, or the error of the coins.
use token_price_proxy.Prelude.{
  ℕ, ◌+◌, ◌≤◌, ◌≡◌, refl, String, Bool, Option, none, some, List, [], ◌∷◌, map, ◌⊎◌, inl, inr,
  length, get_elem?-length, length-map, All, Bool-cases, arith,
}
use token_price_proxy.Prelude.Maps.{lookup, Values, lookup-Values}
use token_price_proxy.Prelude.Panic.{Sure, Sure->>=, Sure-mono}
use token_price_proxy.PriceService.{
  PriceResult, Coin, Result, Result.ok, Result.err, Services, is_set, get_or_nil,
  safe_dereference_string, join_id,
}
use token_price_proxy.PriceService.Fetch.Plan.{
  make_ids, CoinMaps, no_coins, coin_maps, Sets, no_sets, fill,
}
use token_price_proxy.PriceService.Fetch.Query.{Asked, Work, stage, stages}
use token_price_proxy.PriceService.Fetch.Finish.{
  Query, row, note, finish_one, finish, variables, fetch_from, fetch,
}
use token_price_proxy.PriceService.Fetch.Shape.{
  Dashed, DashedMaps, NoRoute, make_ids-Sure, index_map-Values, coin_maps-DashedMaps, fill-NoRoute,
}
use token_price_proxy.PriceService.Fetch.Laws.{Keeps, stages-Sure}
use token_price_proxy.PriceService.Fetch.Ready.{Ready}

-- A row stands for the address at position `i` of the request.
abbrev pub IsRow : Query → (Option String → Type 0) → ℕ → String → PriceResult → Type 0
IsRow q Q i address r =
    (r.serial ≡ i)
    × (r.address ≡ address)
    × (r.symbol ≡ get_or_nil q.symbols i)
    × (r.network ≡ get_or_nil q.networks i)
    × Q r.price

abbrev pub IsRows : Query → (Option String → Type 0) → ℕ → List String → List PriceResult → Type 0
IsRows q Q i [] [] = Unit
IsRows q Q i (address ∷ addresses) (r ∷ rs) =
    IsRow q Q i address r × IsRows q Q (i + 1) addresses rs
IsRows q Q i _ _ = ⊥

-- A row for each address, or an error with the property `E`.
abbrev pub Outcome :
    Query
    → (Option String → Type 0)
    → List String
    → (String → Type 0)
    → Result (List PriceResult)
    → Type 0
Outcome q Q addresses E (ok rs) = IsRows q Q 0 addresses rs
Outcome q Q addresses E (err e) = E e

-- The error of the query of the coins for the ids of the request.
abbrev pub CoinsFail : {W : Type 0} → Services W → Query → List String → W → String → Type 0
CoinsFail s q addresses w e =
    (ids : List String) × (make_ids q.chain_ids (map s.to_lower addresses) ≡ some ids)
    × ((s.coins_by_id ids w).0 ≡ err e)

abbrev nothing_found : {W : Type 0} → Sets → W → Work W
nothing_found sets w = record { results = []; sets = sets; world = w }

-- The coins that the database returns have ids with a chain and an address.
abbrev pub DashedCoins : Result (List Coin) → Type 0
DashedCoins (ok coins) = All (λ coin. Dashed coin.id) coins
DashedCoins (err e) = Unit

module _ {W : Type 0} (s : Services W) (exclude_route : Bool) (I : W → Type 0)
    (Q : Option String → Type 0) (k : Keeps s exclude_route I Q) (q : Query) where
  row_lem :
      (i : ℕ) (chain address : String) (found : Option PriceResult)
      → ((r : PriceResult) → found ≡ some r → Q r.price)
      → IsRow q Q i address (row q i chain address found)
  unfolding row
  row_lem i chain address none h = (refl, refl, refl, refl, k.missing)
  row_lem i chain address (some r) h = (refl, refl, refl, refl, h r refl)

  note_lem : (key : String) (r : PriceResult) (w : W) → I w → I (note s key r w)
  unfolding note
  note_lem key r w h =
      let status = safe_dereference_string r.request_status "200" in
      let asked = k.keeps_throttle key status w h in
      elim (Bool-cases (is_set r.price)) [
        | inl e ↦ rw e h
        | inr e ↦ elim (Bool-cases (s.throttle key status w).0) [
          | inl t ↦ rw (e, t) (k.keeps_log r.chain_id r.address _ asked)
          | inr t ↦ rw (e, t) asked
        ]
      ]

  finish-Sure :
      (found : List (String × PriceResult)) (i : ℕ) (addresses : List String) (w : W)
      → i + length addresses ≤ length q.chain_ids
      → Values (λ r. Q r.price) found
      → I w
      → Sure (λ out. IsRows q Q i addresses out.0 × I out.1) (finish s q found i addresses w)
  unfolding finish finish_one
  finish-Sure found i [] w hl hf h = (_, refl, (_, h))
  finish-Sure found i (address ∷ addresses) w hl hf h =
      let (chain, ec) = get_elem?-length q.chain_ids i (omega arith) in
      let key = join_id chain (s.to_lower address) in
      let r = row q i chain address (lookup key found) in
      let hr =
        row_lem i chain address (lookup key found)
          (λ r e. lookup-Values (λ r. Q r.price) key found r hf e) in
      rw ec (
        Sure->>= _ _ _ _
          (finish-Sure found (i + 1) addresses (note s key r w) (omega arith) hf
            (note_lem key r w h))
          (λ out ho. (_, refl, ((hr, ho.0), ho.1))))

  no_ids :
      (asked : Asked) (w : W)
      → stages s asked (nothing_found no_sets w) ≡ some (nothing_found no_sets w)
  unfolding stages stage
  no_ids asked w = refl

  -- The stages over the sets of a request, an empty one included.
  searched-Sure :
      (asked : Asked) (sets : Sets) (w : W)
      → Ready asked ⊎ (sets ≡ no_sets)
      → NoRoute exclude_route sets
      → I w
      → Sure
          (λ work. Values (λ r. Q r.price) work.results × I work.world)
          (stages s asked (nothing_found sets w))
  searched-Sure asked sets w (inl ready) hs h =
      Sure-mono _ _ _
        (stages-Sure s exclude_route I Q k asked ready (nothing_found sets w) (_, h, hs))
        (λ work hw. (hw.0, hw.1))
  searched-Sure asked sets w (inr e) hs h = rw (e, no_ids asked w) (_, refl, (_, h))

  variables_lem :
      (addresses ids : List String) (is_cache : Bool) (maps : CoinMaps) (sets : Sets)
      (coins : List (String × Coin))
      → length addresses ≤ length q.chain_ids
      → length ids ≡ length addresses
      → DashedMaps maps
      → fill exclude_route coins ids no_sets ≡ some sets
      → Ready (variables s q addresses is_cache ids maps) ⊎ (sets ≡ no_sets)
  unfolding fill
  variables_lem addresses [] is_cache maps sets coins hl he hm es = inr (ground (arith, es))
  variables_lem addresses (id ∷ ids) is_cache maps sets coins hl he hm es =
      let hlow = length-map s.to_lower addresses in
      inl (
        index_map-Values (length q.chain_ids) 0 (id ∷ ids) [] (omega arith) _,
        index_map-Values (length (map s.to_lower addresses)) 0 (id ∷ ids) [] (omega arith) _,
        omega arith,
        omega arith,
        hm,
      )

  -- The function behind a successful query of the coins.
  priced-Sure :
      (addresses ids : List String) (is_cache : Bool) (coins : List Coin) (w : W)
      → length addresses ≤ length q.chain_ids
      → length ids ≡ length addresses
      → All Dashed ids
      → All (λ coin. Dashed coin.id) coins
      → I w
      → Sure
          (λ out. Outcome q Q addresses (λ _. ⊥) out.0 × I out.1)
          (fetch_from s q addresses is_cache exclude_route ids (ok coins, w))
  unfolding fetch_from
  priced-Sure addresses ids is_cache coins w hl he hd hc h =
      let maps = coin_maps no_coins coins in
      let (sets, es, hs) = fill-NoRoute exclude_route maps.coins ids no_sets hd (λ _. refl) in
      let ready =
        variables_lem addresses ids is_cache maps sets maps.coins hl he
          (coin_maps-DashedMaps no_coins coins (_, _) hc) es in
      rw es (
        Sure->>= _ _ _ _ (searched-Sure _ sets w ready hs h) (λ work hw.
          Sure->>= _ _ _ _ (finish-Sure work.results 0 addresses work.world (omega arith) hw.0 hw.1)
            (λ out ho. (_, refl, (ho.0, ho.1)))))

  any_failure :
      (addresses : List String) (w : W) (r : Result (List PriceResult))
      → Outcome q Q addresses (λ _. ⊥) r
      → Outcome q Q addresses (CoinsFail s q addresses w) r
  any_failure addresses w (ok rs) h = h
  any_failure addresses w (err e) h = elim h [ ]

  from-Sure :
      (addresses ids : List String) (is_cache : Bool) (w : W) (answer : Result (List Coin) × W)
      → length addresses ≤ length q.chain_ids
      → make_ids q.chain_ids (map s.to_lower addresses) ≡ some ids
      → length ids ≡ length addresses
      → All Dashed ids
      → DashedCoins answer.0
      → I answer.1
      → (s.coins_by_id ids w).0 ≡ answer.0
      → Sure
          (λ out. Outcome q Q addresses (CoinsFail s q addresses w) out.0 × I out.1)
          (fetch_from s q addresses is_cache exclude_route ids answer)
  unfolding fetch_from
  from-Sure addresses ids is_cache w (err e, w') hl hi he hd hc h ha = (_, refl, ((ids, hi, ha), h))
  from-Sure addresses ids is_cache w (ok coins, w') hl hi he hd hc h ha =
      Sure-mono _ _ _ (priced-Sure addresses ids is_cache coins w' hl he hd hc h)
        (λ out ho. (any_failure addresses w out.0 ho.0, ho.1))

  pub fetch-Sure :
      (addresses : List String) (is_cache : Bool) (w : W)
      → length addresses ≤ length q.chain_ids
      → ((ids : List String) → DashedCoins (s.coins_by_id ids w).0)
      → I w
      → Sure
          (λ out. Outcome q Q addresses (CoinsFail s q addresses w) out.0 × I out.1)
          (fetch s q addresses is_cache exclude_route w)
  unfolding fetch
  fetch-Sure addresses is_cache w hl hc h =
      let lower = map s.to_lower addresses in
      let hlow = length-map s.to_lower addresses in
      let (ids, ei, hi) = make_ids-Sure q.chain_ids lower (omega arith) in
      rw ei (
        from-Sure addresses ids is_cache w (s.coins_by_id ids w) hl ei (omega (arith, hi.0)) hi.1
          (hc ids) (k.keeps_coins ids w h) refl)
