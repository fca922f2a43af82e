-- ===== src/PriceService/Fetch/Finish.antt =====
-- The end of FetchAndProcessBatchPrices, one result for each address, and the whole function.
use token_price_proxy.Prelude.{
  ℕ, ◌+◌, String, Bool, Option, none, some, List, [], ◌∷◌, map, if◌then◌else◌, get_elem?,
}
use token_price_proxy.Prelude.Maps.{lookup}
use token_price_proxy.Prelude.Panic.{◌>>=◌}
use token_price_proxy.PriceService.{
  PriceResult, Coin, Result, Result.ok, Result.err, Services, is_set, get_or_nil,
  safe_dereference_string, join_id,
}
use token_price_proxy.PriceService.Fetch.Plan.{
  make_ids, index_map, CoinMaps, no_coins, coin_maps, no_sets, fill,
}
use token_price_proxy.PriceService.Fetch.Query.{Asked, stages}

-- The arguments that the last loop reads.
pub record Query : Type 0 where
  pub chain_ids : List String
  pub symbols : List String
  pub networks : List String

-- The entry of `results` for an address: the one found, or one with no price.
unfoldable pub row : Query → ℕ → String → String → Option PriceResult → PriceResult
row q i chain address none = record {
  chain_id = chain;
  address = address;
  price = none;
  symbol = get_or_nil q.symbols i;
  network = get_or_nil q.networks i;
  time_stamp = "0";
  request_status = none;
  serial = i;
}
row q i chain address (some r) = record r {
  serial = i;
  symbol = get_or_nil q.symbols i;
  network = get_or_nil q.networks i;
  address = address;
}

module _ {W : Type 0} (s : Services W) where
  -- An entry with no price is throttled, and logged when the throttler says so.
  unfoldable pub note : String → PriceResult → W → W
  note key r w =
      let asked = s.throttle key (safe_dereference_string r.request_status "200") w in
      let said = if asked.0 then s.save_log r.chain_id r.address asked.1 else asked.1 in
      if is_set r.price then w else said

  -- One round of the last loop.
  unfoldable pub finish_one :
      Query → List (String × PriceResult) → ℕ → String → W → Option (PriceResult × W)
  unfolding row note
  finish_one q found i address w = do
    chain ← get_elem? q.chain_ids i
    let key = join_id chain (s.to_lower address)
    let r = row q i chain address (lookup key found)
    some (r, note key r w)

  unfoldable pub finish :
      Query → List (String × PriceResult) → ℕ → List String → W → Option (List PriceResult × W)
  finish q found i [] w = some ([], w)
  finish q found i (address ∷ addresses) w = do
    first ← finish_one q found i address w
    rest ← finish q found (i + 1) addresses first.1
    some (first.0 ∷ rest.0, rest.1)

  abbrev pub variables : Query → List String → Bool → List String → CoinMaps → Asked
  variables q addresses is_cache ids maps = record {
    chain_ids = q.chain_ids;
    lower_addresses = map s.to_lower addresses;
    symbols = q.symbols;
    networks = q.networks;
    is_cache = is_cache;
    index_of = index_map 0 ids [];
    maps = maps;
  }

  -- The function after its query of the coins.
  unfoldable pub fetch_from :
      Query
      → List String
      → Bool
      → Bool
      → List String
      → Result (List Coin) × W
      → Option (Result (List PriceResult) × W)
  fetch_from q addresses is_cache exclude_route ids (err e, w) = some (err e, w)
  fetch_from q addresses is_cache exclude_route ids (ok coins, w) = do
    let maps = coin_maps no_coins coins
    sets ← fill exclude_route maps.coins ids no_sets
    work ←
        stages s (variables q addresses is_cache ids maps)
          (record { results = []; sets = sets; world = w })
    out ← finish q work.results 0 addresses work.world
    some (ok out.0, out.1)

  -- FetchAndProcessBatchPrices
  unfoldable pub fetch :
      Query → List String → Bool → Bool → W → Option (Result (List PriceResult) × W)
  unfolding fetch_from
  fetch q addresses is_cache exclude_route w = do
    ids ← make_ids q.chain_ids (map s.to_lower addresses)
    fetch_from q addresses is_cache exclude_route ids (s.coins_by_id ids w)
