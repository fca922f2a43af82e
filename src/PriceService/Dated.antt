-- ===== src/PriceService/Dated.antt =====
-- GetBatchHistoricalPrice of internal/module/price/service/price_service.go: prices of many tokens,
-- each at a time of its own. The maps over the coins and the place of an id are those of
-- FetchAndProcessBatchPrices.
pub mod Finish
pub mod Laws
pub mod Rows
mod Tests
use token_price_proxy.Prelude.{
  ℕ, String, Bool, Option, none, some, List, [], ◌∷◌, ◌++◌, if◌then◌else◌, get_elem?,
}
use token_price_proxy.Prelude.Maps.{lookup, insert, add, delete}
use token_price_proxy.Prelude.Panic.{◌>>=◌}
use token_price_proxy.PriceService.{
  PriceResult, Coin, Source, Source.coingecko, Source.geckoterminal, Source.defillama, Result,
  Result.ok, Result.err, Batch, is_set, is_text, get_or_nil, get_or_default, join_id,
}
use token_price_proxy.PriceService.Fetch.Plan.{part, or_empty}
use token_price_proxy.PriceService.Fetch.Query.{Asked, no_batch, index, place}

-- What the function calls, over a world. `show_time` is the decimal text of a Unix time, `order`
-- the order in which the Go runtime ranges over a map's keys.
pub record DatedServices (W : Type 0) : Type 0 where
  pub to_lower : String → String
  pub show_time : ℕ → String
  pub order : List String → List String
  pub coins_by_id : List String → W → Result (List Coin) × W
  pub historical_prices : Source → Batch → List ℕ → W → Result (List PriceResult) × W
  pub is_throttled : String → W → Bool × W
  pub throttle : String → String → W → Bool × W
  pub save_log : String → String → ℕ → W → W
  pub prohibited_historical : Source → Bool

-- fmt.Sprintf("%s_%s_%d", chainId, addr, time), the time as a text.
abbrev pub dated_id : String → String → String → String
dated_id chain_id address time = join_id (join_id chain_id address) time

-- `ids`
unfoldable pub dated_ids : (ℕ → String) → List String → List String → List ℕ → Option (List String)
dated_ids show chain_ids [] times = some []
dated_ids show [] (address ∷ rest) times = none
dated_ids show (c ∷ chain_ids) (address ∷ rest) [] = none
dated_ids show (c ∷ chain_ids) (address ∷ rest) (t ∷ times) = do
  ids ← dated_ids show chain_ids rest times
  some (dated_id c address (show t) ∷ ids)

pub record DatedSets : Type 0 where
  pub gecko_source : List String
  pub terminal_source : List String
  pub llama_source : List String
  pub gecko : List String
  pub terminal : List String
  pub llama : List String

abbrev pub no_dated_sets : DatedSets
no_dated_sets = record {
  gecko_source = [];
  terminal_source = [];
  llama_source = [];
  gecko = [];
  terminal = [];
  llama = [];
}

-- The chain of tests on a coin's PriceSource and LastPriceSource.
unfoldable pub add_source : String → Coin → DatedSets → DatedSets
add_source id coin s =
    if is_text coin.price_source "coingecko"
    then record s { gecko_source = add id s.gecko_source }
    else if is_text coin.price_source "geckoterminal"
    then record s { terminal_source = add id s.terminal_source }
    else if is_text coin.last_price_source "coingecko"
    then record s { gecko_source = add id s.gecko_source }
    else if is_text coin.last_price_source "geckoterminal"
    then record s { terminal_source = add id s.terminal_source }
    else if is_text coin.last_price_source "defillama"
    then record s { llama_source = add id s.llama_source }
    else s

abbrev pub add_coin_of : String → Option Coin → DatedSets → DatedSets
add_coin_of id none s = s
add_coin_of id (some coin) s =
    let named = add_source id coin s in record named { gecko = add id named.gecko }

-- The loop that fills the sets.
unfoldable pub fill_sets : List (String × Coin) → List String → DatedSets → Option DatedSets
fill_sets coins [] s = some s
fill_sets coins (id ∷ ids) s = do
  chain ← part id 0
  address ← part id 1
  let known = add_coin_of id (lookup (join_id chain address) coins) s
  fill_sets coins ids
      (record known { terminal = add id known.terminal; llama = add id known.llama })

-- The variables that batchQueryHistorical reads; `base` are those that batchQuery reads too, whose
-- `is_cache` is not used.
pub record DatedAsked : Type 0 where
  pub base : Asked
  pub times : List ℕ
  pub dates : List String

-- The variables that it changes, and the world.
pub record DatedWork (W : Type 0) : Type 0 where
  pub results : List (String × PriceResult)
  pub sets : DatedSets
  pub world : W

-- Its loop's variables.
pub record DatedGathered (W : Type 0) : Type 0 where
  pub batch : Batch
  pub batch_times : List ℕ
  pub results : List (String × PriceResult)
  pub world : W

-- A result with no price, for the position `i`.
abbrev pub no_dated_price : Asked → String → String → String → ℕ → PriceResult
no_dated_price q chain_id address date i = record {
  chain_id = chain_id;
  address = address;
  price = none;
  symbol = get_or_nil q.symbols i;
  network = get_or_nil q.networks i;
  time_stamp = date;
  request_status = none;
  serial = 0;
}

-- `delete` of a key from the default sets.
unfoldable pub delete_dated : String → DatedSets → DatedSets
delete_dated key s = record s {
  gecko = delete key s.gecko;
  terminal = delete key s.terminal;
  llama = delete key s.llama;
}

-- The results for the ids that share a coin.
unfoldable pub store_shared :
    PriceResult → List String → List (String × PriceResult) → Option (List (String × PriceResult))
store_shared r [] results = some results
store_shared r (id ∷ ids) results = do
  chain ← part id 0
  address ← part id 1
  let r' = record r { chain_id = chain; address = address }
  store_shared r' ids (insert (join_id id r.time_stamp) r' results)

module _ {W : Type 0} (s : DatedServices W) (q : DatedAsked) where
  unfoldable pub skip_dated : String → DatedGathered W → Option (DatedGathered W)
  skip_dated id g = do
    chain ← get_elem? q.base.chain_ids (index q.base id)
    address ← get_elem? q.base.lower_addresses (index q.base id)
    date ← get_elem? q.dates (index q.base id)
    time ← get_elem? q.times (index q.base id)
    some (record g {
      results = insert id (no_dated_price q.base chain address date (index q.base id)) g.results;
      world = s.save_log chain address time g.world;
    })

  unfoldable pub push_dated : String → DatedGathered W → Option (DatedGathered W)
  push_dated id g = do
    at ← place q.base id
    time ← get_elem? q.times (index q.base id)
    some (record g {
      batch = record {
        addresses = g.batch.addresses ++ at.1 ∷ [];
        chain_ids = g.batch.chain_ids ++ at.0 ∷ [];
        symbols = g.batch.symbols ++ get_or_default q.base.symbols (index q.base id) "" ∷ [];
        networks = g.batch.networks ++ get_or_default q.base.networks (index q.base id) "" ∷ [];
      };
      batch_times = g.batch_times ++ time ∷ [];
    })

  -- One round of the loop over idSet.
  unfoldable pub gather_dated_id : String → DatedGathered W → Option (DatedGathered W)
  gather_dated_id id g =
      let asked = s.is_throttled id g.world in
      let g' = record g { world = asked.1 } in
      if asked.0 then skip_dated id g' else push_dated id g'

  unfoldable pub gather_dated : List String → DatedGathered W → Option (DatedGathered W)
  gather_dated [] g = some g
  gather_dated (id ∷ ids) g = do g' ← gather_dated_id id g; gather_dated ids g'

  -- One result of a source.
  unfoldable pub store_dated : PriceResult → DatedWork W → Option (DatedWork W)
  store_dated r work =
      let key = dated_id r.chain_id r.address r.time_stamp in
      let stored = do
        results ←
            store_shared r
              (or_empty (lookup (join_id r.chain_id r.address) q.base.maps.return_coin_to))
              (insert key r work.results)
        some (record work { results = results; sets = delete_dated key work.sets })
      in if is_set r.price then stored else some work

  unfoldable pub store_all_dated : List PriceResult → DatedWork W → Option (DatedWork W)
  store_all_dated [] work = some work
  store_all_dated (r ∷ rs) work = do work' ← store_dated r work; store_all_dated rs work'

  -- What batchQueryHistorical does with a source's answer: an error is only logged.
  unfoldable pub receive_dated : Result (List PriceResult) × W → DatedWork W → Option (DatedWork W)
  receive_dated (ok rs, w) work = store_all_dated rs (record work { world = w })
  receive_dated (err e, w) work = some (record work { world = w })

  -- batchQueryHistorical
  unfoldable pub batch_query_historical : Source → List String → DatedWork W → Option (DatedWork W)
  batch_query_historical source ids work =
      let asked = do
        g ← gather_dated (s.order ids) (record {
          batch = no_batch;
          batch_times = [];
          results = work.results;
          world = work.world;
        })
        receive_dated (s.historical_prices source g.batch g.batch_times g.world)
            (record work { results = g.results; world = g.world })
      in if s.prohibited_historical source then some work else asked

  unfoldable pub dated_stage : Source → List String → DatedWork W → Option (DatedWork W)
  dated_stage source [] work = some work
  dated_stage source (id ∷ ids) work = batch_query_historical source (id ∷ ids) work

  -- The sources in their order: those that a coin names, then the default ones.
  unfoldable pub dated_stages : DatedWork W → Option (DatedWork W)
  dated_stages work = do
    work ← dated_stage coingecko work.sets.gecko_source work
    work ← dated_stage geckoterminal work.sets.terminal_source work
    work ← dated_stage defillama work.sets.llama_source work
    work ← dated_stage coingecko work.sets.gecko work
    work ← dated_stage defillama work.sets.llama work
    dated_stage geckoterminal work.sets.terminal work
