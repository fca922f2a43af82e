-- ===== src/PriceService/Dated/Finish.antt =====
-- The end of GetBatchHistoricalPrice, one result for each address, and the whole function.
use token_price_proxy.Prelude.{
  ℕ, ◌+◌, String, Bool, Option, none, some, List, [], ◌∷◌, map, if◌then◌else◌, get_elem?,
}
use token_price_proxy.Prelude.Maps.{lookup}
use token_price_proxy.Prelude.Panic.{◌>>=◌}
use token_price_proxy.PriceService.{
  PriceResult, Coin, Result, Result.ok, Result.err, is_set, get_or_nil, safe_dereference_string,
}
use token_price_proxy.PriceService.Fetch.Plan.{make_ids, index_map, CoinMaps, no_coins, coin_maps}
use token_price_proxy.PriceService.Dated.{
  DatedServices, DatedAsked, dated_id, dated_ids, no_dated_sets, fill_sets, dated_stages,
}

-- The arguments but for the addresses.
pub record DatedQuery : Type 0 where
  pub chain_ids : List String
  pub symbols : List String
  pub networks : List String
  pub times : List ℕ
  pub dates : List String

-- The entry of `results` for an address: the one found, or one with no price.
unfoldable pub dated_row :
    DatedQuery → ℕ → String → String → String → Option PriceResult → PriceResult
dated_row q i chain address date none = record {
  chain_id = chain;
  address = address;
  price = none;
  symbol = get_or_nil q.symbols i;
  network = get_or_nil q.networks i;
  time_stamp = date;
  request_status = none;
  serial = i;
}
dated_row q i chain address date (some r) = record r {
  serial = i;
  time_stamp = date;
  symbol = get_or_nil q.symbols i;
  network = get_or_nil q.networks i;
  address = address;
}

module _ {W : Type 0} (s : DatedServices W) where
  -- An entry with no price is throttled, and logged when the throttler says so.
  unfoldable pub note_dated : String → ℕ → PriceResult → W → W
  note_dated key time r w =
      let asked = s.throttle key (safe_dereference_string r.request_status "200") w in
      let said = if asked.0 then s.save_log r.chain_id r.address time asked.1 else asked.1 in
      if is_set r.price then w else said

  -- One round of the last loop.
  unfoldable pub dated_finish_one :
      DatedQuery → List (String × PriceResult) → ℕ → String → W → Option (PriceResult × W)
  dated_finish_one q found i address w = do
    chain ← get_elem? q.chain_ids i
    time ← get_elem? q.times i
    let key = dated_id chain (s.to_lower address) (s.show_time time)
    date ← get_elem? q.dates i
    let r = dated_row q i chain address date (lookup key found)
    some (r, note_dated key time r w)

  unfoldable pub dated_finish :
      DatedQuery → List (String × PriceResult) → ℕ → List String → W → Option (List PriceResult × W)
  dated_finish q found i [] w = some ([], w)
  dated_finish q found i (address ∷ addresses) w = do
    first ← dated_finish_one q found i address w
    rest ← dated_finish q found (i + 1) addresses first.1
    some (first.0 ∷ rest.0, rest.1)

  abbrev pub dated_variables : DatedQuery → List String → List String → CoinMaps → DatedAsked
  dated_variables q addresses ids maps = record {
    base = record {
      chain_ids = q.chain_ids;
      lower_addresses = map s.to_lower addresses;
      symbols = q.symbols;
      networks = q.networks;
      is_cache = Bool.false;
      index_of = index_map 0 ids [];
      maps = maps;
    };
    times = q.times;
    dates = q.dates;
  }

  -- The function after its query of the coins.
  unfoldable pub historical_rows_from :
      DatedQuery
      → List String
      → List String
      → Result (List Coin) × W
      → Option (Result (List PriceResult) × W)
  historical_rows_from q addresses ids (err e, w) = some (err e, w)
  historical_rows_from q addresses ids (ok coins, w) = do
    let maps = coin_maps no_coins coins
    sets ← fill_sets maps.coins ids no_dated_sets
    work ←
        dated_stages s (dated_variables q addresses ids maps)
          (record { results = []; sets = sets; world = w })
    out ← dated_finish q work.results 0 addresses work.world
    some (ok out.0, out.1)

  -- GetBatchHistoricalPrice
  unfoldable pub get_batch_historical_price :
      DatedQuery → List String → W → Option (Result (List PriceResult) × W)
  get_batch_historical_price q addresses w = do
    ids ← dated_ids s.show_time q.chain_ids (map s.to_lower addresses) q.times
    coin_ids ← make_ids q.chain_ids (map s.to_lower addresses)
    historical_rows_from q addresses ids (s.coins_by_id coin_ids w)
