-- ===== src/PriceService/Prices.antt =====
-- GetPrice and GetBatchPrice of price_service.go.
pub mod Leaves
mod Tests
use token_price_proxy.Prelude.{
  ℕ, zero, suc, ◌+◌, String, Bool, true, false, not, ◌&&◌, ◌||◌, Option, none, some, List, [], ◌∷◌,
  ◌==◌, if◌then◌else◌, get_elem?, length, eqb,
}
use token_price_proxy.Prelude.Panic.{◌>>=◌}
use token_price_proxy.PriceService.{PriceResult, Result, ok, err, is_set, get_or_default}
use token_price_proxy.PriceService.Queue.Messages.{request_info}
use token_price_proxy.PriceService.Waiting.{
  Registry, open_channel, register_keys, register_price, leave,
}

-- The arguments of FetchAndProcessBatchPrices and of WaitForBatchResults.
pub record Asks : Type 0 where
  pub chain_ids : List String
  pub addresses : List String
  pub symbols : List String
  pub networks : List String

abbrev pub one_ask : String → String → String → String → Asks
one_ask chain_id address symbol network = record {
  chain_ids = chain_id ∷ [];
  addresses = address ∷ [];
  symbols = symbol ∷ [];
  networks = network ∷ [];
}

-- What the two functions call. `hash` is generateHashKey. `read_cached` is the pipeline of Gets,
-- each with its text or an error. `registry` are the three maps of Waiting, which `set_registry` sets.
-- `answered` is the select: whether the text on the channel comes before the time-out; meanwhile other
-- callers and messages may change the maps. `fetch` and `wait_for_batch_results` may panic, which is
-- `none`.
pub record Calls (W : Type 0) : Type 0 where
  pub to_lower : String → String
  pub hash : List String → String
  pub fetch : Asks → Bool → Bool → W → Option (Result (List PriceResult) × W)
  pub wait_for_result : String → String → W → (Option String × Bool) × W
  pub read_cached : List (String × String) → W → Result (List (Option String)) × W
  pub wait_for_batch_results :
      Asks → List (Option (Option String)) → W → Option (Result (List PriceResult) × W)
  pub new_id : W → String × W
  pub registry : W → Registry
  pub set_registry : Registry → W → W
  pub enqueue : String → String → W → Result Bool × W
  pub enqueue_all : List String → List String → W → Result ℕ × W
  pub answered : String → W → Bool × W

-- `results[0].Price`, if there is one.
abbrev pub first_price : Option String → Result (List PriceResult) → Result (Option String)
first_price other (err e) = err e
first_price other (ok []) = ok other
first_price other (ok (r ∷ rows)) = ok r.price

abbrev pub some_unpriced : List PriceResult → Bool
some_unpriced [] = false
some_unpriced (r ∷ rows) = not (is_set r.price) || some_unpriced rows

-- resultMap: the entry of a position, by its cached text.
abbrev pub entry_of : Option String → Option (Option String)
entry_of none = none
entry_of (some price) = if price == "-1" then some none else some (some price)

abbrev pub count_entries : List (Option (Option String)) → ℕ
count_entries [] = 0
count_entries (none ∷ l) = count_entries l
count_entries (some p ∷ l) = suc (count_entries l)

abbrev pub entries : List (Option String) → List (Option (Option String))
entries [] = []
entries (t ∷ ts) = entry_of t ∷ entries ts

-- chainIds[i] and addresses[i], over chainIds.
unfoldable pub places : List String → List String → Option (List (String × String))
places [] addresses = some []
places (c ∷ chain_ids) [] = none
places (c ∷ chain_ids) (a ∷ addresses) = do rest ← places chain_ids addresses; some ((c, a) ∷ rest)

-- requestKeys and requestInfos, empty at the positions that are cached, and the keys that are
-- registered.
pub record NewRequests : Type 0 where
  pub request_keys : List String
  pub request_infos : List String
  pub registered : List String

abbrev no_requests : NewRequests
no_requests = record { request_keys = []; request_infos = []; registered = [] }

module _ {W : Type 0} (s : Calls W) where
  abbrev request_for : Asks → ℕ → String → String → String × String
  request_for q i chain address =
      let symbol = get_or_default q.symbols i "" in
      let network = get_or_default q.networks i "" in
      let key = s.hash (chain ∷ s.to_lower address ∷ symbol ∷ network ∷ []) in
      (key, request_info key chain (s.to_lower address) symbol network)

  unfoldable pub requests :
      Asks → ℕ → List (String × String) → List (Option (Option String)) → NewRequests
  requests q i [] entries = no_requests
  requests q i (at ∷ places) [] = no_requests
  requests q i (at ∷ places) (some p ∷ entries) =
      let rest = requests q (i + 1) places entries in
      record rest { request_keys = "" ∷ rest.request_keys; request_infos = "" ∷ rest.request_infos }
  requests q i (at ∷ places) (none ∷ entries) =
      let rest = requests q (i + 1) places entries in
      let new = request_for q i at.0 at.1 in
      record {
        request_keys = new.0 ∷ rest.request_keys;
        request_infos = new.1 ∷ rest.request_infos;
        registered = new.0 ∷ rest.registered;
      }

  abbrev pub on_registry : (Registry → Registry) → W → W
  on_registry f w = s.set_registry (f (s.registry w)) w

  -- A query of the sources, and the price of its first row.
  unfoldable pub ask : Asks → Bool → Bool → Option String → W → Option (Result (Option String) × W)
  ask q use_cache exclude_route other w =
      s.fetch q use_cache exclude_route w >>= λ asked. some (first_price other asked.0, asked.1)

  -- The rows of WaitForBatchResults, or a direct query if one of them has no price.
  abbrev pub rows_at :
      Asks → Bool → Bool → Result (List PriceResult) × W → Option (Result (List PriceResult) × W)
  rows_at q is_cache exclude_route (err e, w) = some (err e, w)
  rows_at q is_cache exclude_route (ok rows, w) =
      if not exclude_route && some_unpriced rows
      then s.fetch q is_cache exclude_route w
      else some (ok rows, w)

  unfoldable pub batch_rows :
      Asks
      → Bool
      → Bool
      → List (Option (Option String))
      → W
      → Option (Result (List PriceResult) × W)
  batch_rows q is_cache exclude_route entries w =
      s.wait_for_batch_results q entries w >>= rows_at q is_cache exclude_route

  -- GetPrice behind the text on the channel.
  abbrev pub price_at :
      Asks → Bool → Bool → (Option String × Bool) × W → Option (Result (Option String) × W)
  price_at q use_cache exclude_route ((value, false), w) = some (ok none, w)
  price_at q use_cache exclude_route ((value, true), w) =
      if not (is_set value) && not exclude_route
      then ask q use_cache exclude_route value w
      else some (ok value, w)

  -- GetPrice behind the request that is queued.
  abbrev pub price_queued :
      Asks
      → String
      → String
      → Bool
      → Bool
      → String
      → Result Bool × W
      → Option (Result (Option String) × W)
  price_queued q chain_id address use_cache exclude_route id (err e, w) = some (err e, w)
  price_queued q chain_id address use_cache exclude_route id (ok new, w) =
      let came = s.answered id w in
      if came.0
      then price_at q use_cache exclude_route (s.wait_for_result chain_id address came.1)
      else ask q use_cache exclude_route none came.1

  -- The deferred function.
  abbrev pub then_leave : {A : Type 0} → String → Option (A × W) → Option (A × W)
  then_leave id out = out >>= λ o. some (o.0, on_registry (leave id) o.1)

  -- The hash of GetPrice, of a lowered address.
  abbrev pub price_key : String → String → String → String → String
  price_key chain_id address symbol network =
      s.hash (chain_id ∷ s.to_lower address ∷ symbol ∷ network ∷ [])

  -- GetPrice behind its look at the cache.
  unfoldable pub price_request :
      Asks
      → String
      → String
      → String
      → String
      → Bool
      → Bool
      → W
      → Option (Result (Option String) × W)
  price_request q chain_id address symbol network use_cache exclude_route w =
      let key = price_key chain_id address symbol network in
      let made = s.new_id w in
      let waiting = on_registry (register_price made.0 key) made.1 in
      then_leave made.0 (
        price_queued q chain_id (s.to_lower address) use_cache exclude_route made.0
          (s.enqueue key (request_info key chain_id address symbol network) waiting))

  -- GetPrice
  unfoldable pub get_price :
      String → String → String → String → Bool → Bool → W → Option (Result (Option String) × W)
  get_price chain_id address symbol network use_cache exclude_route w =
      let lower = s.to_lower address in
      let seen = s.wait_for_result chain_id (s.to_lower lower) w in
      if not use_cache
      then ask (one_ask chain_id address symbol network) use_cache exclude_route none w
      else if seen.0.1 && is_set seen.0.0
      then some (ok seen.0.0, seen.1)
      else price_request (one_ask chain_id lower symbol network) chain_id lower symbol network
          use_cache exclude_route seen.1

  -- GetBatchPrice behind the requests that are queued.
  abbrev pub batch_queued :
      Asks
      → Bool
      → Bool
      → String
      → List (Option (Option String))
      → Result ℕ × W
      → Option (Result (List PriceResult) × W)
  batch_queued q is_cache exclude_route id entries (err e, w) = some (err e, w)
  batch_queued q is_cache exclude_route id entries (ok new, w) =
      let came = s.answered id w in
      if eqb (count_entries entries) (length q.chain_ids)
      then batch_rows q is_cache exclude_route entries w
      else if came.0
      then batch_rows q is_cache exclude_route entries came.1
      else s.fetch q is_cache exclude_route came.1

  -- GetBatchPrice behind the Gets of its pipeline.
  unfoldable pub batch_read :
      Asks
      → Bool
      → Bool
      → String
      → List (String × String)
      → Result (List (Option String)) × W
      → Option (Result (List PriceResult) × W)
  batch_read q is_cache exclude_route id places (err e, w) = some (err e, w)
  batch_read q is_cache exclude_route id places (ok texts, w) =
      let found = entries texts in
      let new = requests q 0 places found in
      batch_queued q is_cache exclude_route id found (
        s.enqueue_all new.request_keys new.request_infos
          (on_registry (register_keys id new.registered) w))

  -- GetBatchPrice
  unfoldable pub get_batch_price : Asks → Bool → Bool → W → Option (Result (List PriceResult) × W)
  get_batch_price q is_cache exclude_route w =
      let made = s.new_id w in
      let opened = on_registry (open_channel made.0) made.1 in
      if not is_cache || not exclude_route
      then s.fetch q is_cache exclude_route w
      else then_leave made.0 (
          places q.chain_ids q.addresses >>= λ at.
          batch_read q is_cache exclude_route made.0 at (s.read_cached at opened))
