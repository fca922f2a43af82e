-- ===== src/PriceService/Fetch/Query.antt =====
-- The second half of FetchAndProcessBatchPrices: the closure batchQuery, its calls in the order of
-- the sources, and the list that is returned.
use token_price_proxy.Prelude.{
  ℕ, String, Bool, Option, none, some, List, [], ◌∷◌, ◌++◌, if◌then◌else◌, get_elem?,
}
use token_price_proxy.Prelude.Maps.{lookup, insert, delete}
use token_price_proxy.Prelude.Panic.{◌>>=◌}
use token_price_proxy.PriceService.{
  PriceResult, Source, Source.coingecko, Source.geckoterminal, Source.defillama,
  Source.coin_gecko_on_chain, Source.dodoex_route, Result, Result.ok, Result.err, Batch, Services,
  is_set, get_or_nil, get_or_default, join_id,
}
use token_price_proxy.PriceService.Fetch.Plan.{part, CoinMaps, or_empty, Sets}

-- The variables that batchQuery reads.
pub record Asked : Type 0 where
  pub chain_ids : List String
  pub lower_addresses : List String
  pub symbols : List String
  pub networks : List String
  pub is_cache : Bool
  pub index_of : List (String × ℕ)
  pub maps : CoinMaps

-- The variables that batchQuery changes, and the world.
pub record Work (W : Type 0) : Type 0 where
  pub results : List (String × PriceResult)
  pub sets : Sets
  pub world : W

-- The loop's variables: the four lists, resultsMap and the world.
pub record Gathered (W : Type 0) : Type 0 where
  pub batch : Batch
  pub results : List (String × PriceResult)
  pub world : W

abbrev pub no_batch : Batch
no_batch = record { addresses = []; chain_ids = []; symbols = []; networks = [] }

abbrev pub or_zero : Option ℕ → ℕ
or_zero none = 0
or_zero (some i) = i

-- idToIndexMap[id]
abbrev pub index : Asked → String → ℕ
index q id = or_zero (lookup id q.index_of)

-- A result with no price, for the position `i`.
abbrev pub no_price : Asked → String → String → ℕ → PriceResult
no_price q chain_id address i = record {
  chain_id = chain_id;
  address = address;
  price = none;
  symbol = get_or_nil q.symbols i;
  network = get_or_nil q.networks i;
  time_stamp = "0";
  request_status = none;
  serial = 0;
}

abbrev pub place_at : Asked → ℕ → Option String → Option (String × String)
place_at q i none = do
  chain ← get_elem? q.chain_ids i
  address ← get_elem? q.lower_addresses i
  some (chain, address)
place_at q i (some to) = do chain ← part to 0; address ← part to 1; some (chain, address)

-- The chain and the address under which a source is asked for an id.
abbrev pub place : Asked → String → Option (String × String)
place q id = place_at q (index q id) (lookup id q.maps.return_coin)

-- `delete` of a key from the default sets.
unfoldable pub delete_key : String → Sets → Sets
delete_key key s = record s {
  gecko = delete key s.gecko;
  terminal = delete key s.terminal;
  llama = delete key s.llama;
  dodoex = delete key s.dodoex;
  on_chain = delete key s.on_chain;
}

-- The results for the ids that share a coin.
unfoldable pub store_aliases :
    PriceResult → List String → List (String × PriceResult) → Option (List (String × PriceResult))
store_aliases r [] results = some results
store_aliases r (id ∷ ids) results = do
  chain ← part id 0
  address ← part id 1
  let r' = record r { chain_id = chain; address = address }
  store_aliases r' ids (insert id r' results)

module _ {W : Type 0} (s : Services W) (q : Asked) where
  unfoldable pub skip : String → Gathered W → Option (Gathered W)
  skip id g = do
    chain ← get_elem? q.chain_ids (index q id)
    address ← get_elem? q.lower_addresses (index q id)
    some (record g {
      results = insert id (no_price q chain address (index q id)) g.results;
      world = s.save_log chain address g.world;
    })

  unfoldable pub push : String → Gathered W → Option (Gathered W)
  push id g = do
    at ← place q id
    some (record g {
      batch = record {
        addresses = g.batch.addresses ++ at.1 ∷ [];
        chain_ids = g.batch.chain_ids ++ at.0 ∷ [];
        symbols = g.batch.symbols ++ get_or_default q.symbols (index q id) "" ∷ [];
        networks = g.batch.networks ++ get_or_default q.networks (index q id) "" ∷ [];
      };
    })

  -- One round of the loop over idSet.
  unfoldable pub gather_id : String → Gathered W → Option (Gathered W)
  unfolding skip push
  gather_id id g =
      let asked = s.is_throttled id g.world in
      let g' = record g { world = asked.1 } in if asked.0 then skip id g' else push id g'

  unfoldable pub gather : List String → Gathered W → Option (Gathered W)
  gather [] g = some g
  gather (id ∷ ids) g = do g' ← gather_id id g; gather ids g'

  -- One result of a source.
  unfoldable pub store : PriceResult → Work W → Option (Work W)
  unfolding delete_key
  store r work =
      let key = join_id r.chain_id r.address in
      let stored = do
        results ←
            store_aliases r (or_empty (lookup key q.maps.return_coin_to))
              (insert key r work.results)
        some (record work { results = results; sets = delete_key key work.sets })
      in if is_set r.price then stored else some work

  unfoldable pub store_all : List PriceResult → Work W → Option (Work W)
  store_all [] work = some work
  store_all (r ∷ rs) work = do work' ← store r work; store_all rs work'

  -- What batchQuery does with a source's answer: an error is only logged.
  unfoldable pub receive : Result (List PriceResult) × W → Work W → Option (Work W)
  receive (ok rs, w) work = store_all rs (record work { world = w })
  receive (err e, w) work = some (record work { world = w })

  -- batchQuery
  unfoldable pub batch_query : Source → List String → Work W → Option (Work W)
  unfolding receive
  batch_query source ids work =
      let asked = do
        g ←
            gather (s.order ids)
              (record { batch = no_batch; results = work.results; world = work.world })
        receive (s.current_prices source g.batch q.is_cache g.world)
            (record work { results = g.results; world = g.world })
      in if s.prohibited_current source then some work else asked

  unfoldable pub stage : Source → List String → Work W → Option (Work W)
  unfolding batch_query
  stage source [] work = some work
  stage source (id ∷ ids) work = batch_query source (id ∷ ids) work

  -- The sources in their order: those that a coin names, then the default ones.
  unfoldable pub stages : Work W → Option (Work W)
  stages work = do
    work ← stage coingecko work.sets.gecko_source work
    work ← stage geckoterminal work.sets.terminal_source work
    work ← stage defillama work.sets.llama_source work
    work ← stage coingecko work.sets.gecko work
    work ← stage defillama work.sets.llama work
    work ← stage geckoterminal work.sets.terminal work
    work ← stage coin_gecko_on_chain work.sets.on_chain work
    stage dodoex_route work.sets.dodoex work
