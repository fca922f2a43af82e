-- ===== src/HistoryRepository.antt =====
-- internal/module/price/repository/coin_historical_price_repository.go: the queue of the prices
-- that are to be stored, and the reading of stored prices through the cache.
pub mod Reads
pub mod Saves
pub mod Served
mod Tests
use token_price_proxy.Prelude.{
  ℕ, zero, suc, ◌*◌, String, str_append, Bool, true, false, Option, none, some, List, [], ◌∷◌, ◌++◌,
  map, ◌==◌, if◌then◌else◌, leb,
}
use token_price_proxy.Prelude.Maps.{insert, lookup}
use token_price_proxy.Prelude.Chunks.{chunks}
use token_price_proxy.Redis.Commands.{
  Value, word, Reply, ok, err, del, sadd, rpush, llen, lrange_all, sismember,
}
use token_price_proxy.Redis.Run.{Server, Prog, done, send, ◌>>=◌, ◌>>◌, command}
use token_price_proxy.Throttler.{second}
use token_price_proxy.RedisClient.{
  Scanned, acquire_lock, release_lock, delete_keys_by_prefix, set_historical_price_cache,
  get_historical_price_cache,
}
use token_price_proxy.CoinRepository.{Coins, Coder}
use token_price_proxy.CoinRepository.Reads.{get_coins_by_id}
use token_price_proxy.CoinRepository.Caching.{Ended, returned, panicked, unending}
use token_price_proxy.CoinRepository.World.{
  Error, HistoricalPrice, Database, World, Action, bind, give, on_redis, on_redis_ended,
  on_database, on_database_only,
}
use token_price_proxy.CoinRepository.Writes.{redis_error}
use token_price_proxy.CoinRepository.Queue.{
  max_retries, lock_ttl, lock_retry_count, deadlock_detected, json_error, finally, sleep,
  add_failure, add_to_queue,
}

abbrev pub historical_queue_key : String
historical_queue_key = "historical_prices:queue"

abbrev pub historical_set_key_prefix : String
historical_set_key_prefix = "historical_prices:set:"

abbrev pub historical_queue_run_size : ℕ
historical_queue_run_size = 1000

abbrev pub historical_lock_key : String
historical_lock_key = "lock:historical_prices_queue"

-- fmt.Sprintf("%s%s_%s", historicalSetKeyPrefix, price.CoinID, price.DayDate)
abbrev pub price_key : HistoricalPrice → String
price_key p =
    str_append historical_set_key_prefix (str_append p.coin_id (str_append "_" p.day_date))

-- encoding/json on these rows.
pub record PriceCoder : Type 0 where
  pub marshal_price : HistoricalPrice → Option String
  pub unmarshal_price : String → Option HistoricalPrice

-- `uniquePrices`: the last price under a key.
unfoldable pub unique_prices :
    List HistoricalPrice → List (String × HistoricalPrice) → List (String × HistoricalPrice)
unique_prices [] m = m
unique_prices (p ∷ ps) m = unique_prices ps (insert (price_key p) p m)

abbrev pub key_list {ℓ} : {A : Type ℓ} → List (String × A) → List String
key_list [] = []
key_list (e ∷ m) = e.0 ∷ key_list m

abbrev pub with_entry {ℓ} : {A : Type ℓ} → String → Option A → List (String × A) → List (String × A)
with_entry key none rest = rest
with_entry key (some a) rest = (key, a) ∷ rest

-- The entries of a map, as the Go runtime ranges over its keys.
unfoldable pub entries_in {ℓ} : {A : Type ℓ} → List String → List (String × A) → List (String × A)
entries_in [] m = []
entries_in (key ∷ keys) m = with_entry key (lookup key m) (entries_in keys m)

-- The pipeline that asks for the members, and its replies.
unfoldable pub pipe_members : List (String × HistoricalPrice) → Prog (List (Reply Bool))
pipe_members [] = done []
pipe_members ((key, p) ∷ ps) =
    send (sismember key p.coin_id) (λ r. pipe_members ps >>= λ rs. done (r ∷ rs))

abbrev pub all_ok : List (Reply Bool) → Option (List Bool)
all_ok [] = some []
all_ok (err ∷ rs) = none
all_ok (ok b ∷ rs) = elim (all_ok rs) [ none ↦ none | some bs ↦ some (b ∷ bs) ]

-- `existsMap`: the replies in turn, along the second range over the map.
unfoldable pub exists_map : List String → List Bool → List (String × Bool) → List (String × Bool)
exists_map (key ∷ keys) (b ∷ bs) m = exists_map keys bs (insert key b m)
exists_map [] bs m = m
exists_map (key ∷ keys) [] m = m

-- The commands of the second pipeline.
pub data Piped : Type 0 where
  list_queue : Piped
  add_member : String → String → Piped
  push_text : String → Piped

abbrev pub and_piped : List Piped → Option (List Piped) → Option (List Piped)
and_piped cs none = none
and_piped cs (some rest) = some (cs ++ rest)

abbrev pub piped_text : String → String → Option String → Option (List Piped)
piped_text key id none = none
piped_text key id (some text) = some (add_member key id ∷ push_text text ∷ [])

-- One price. For a member the queue's items are read from the pipeline before it is sent, which
-- gives none of them, so there is nothing to replace.
abbrev pub piped_price : PriceCoder → String → HistoricalPrice → Bool → Option (List Piped)
piped_price coder key p true = some (list_queue ∷ [])
piped_price coder key p false = piped_text key p.coin_id (coder.marshal_price p)

abbrev pub is_member : Option Bool → Bool
is_member none = false
is_member (some b) = b

abbrev pub go_on : Option (List Piped) → Prog (Option (List Piped)) → Prog (Option (List Piped))
go_on none rest = done none
go_on (some cs) rest = rest >>= λ more. done (and_piped cs more)

-- The loop over the prices: each is cached at once, and its commands are put into the pipeline;
-- `none`: json.Marshal has failed, and the loop is left.
unfoldable pub save_each :
    PriceCoder
    → String
    → List (String × HistoricalPrice)
    → List (String × Bool)
    → Prog (Option (List Piped))
save_each coder today [] exists = done (some [])
save_each coder today ((key, p) ∷ ps) exists =
    set_historical_price_cache today p.coin_id p.day_date p.price >>= λ _.
    go_on (piped_price coder key p (is_member (lookup key exists)))
      (save_each coder today ps exists)

-- pipe.Exec: whether a command failed.
unfoldable pub exec_piped : List Piped → Prog Bool
exec_piped [] = done false
exec_piped (list_queue ∷ cs) =
    send (lrange_all historical_queue_key) (λ r. exec_piped cs >>= λ b. done (add_failure r b))
exec_piped (add_member key id ∷ cs) =
    send (sadd key id) (λ r. exec_piped cs >>= λ b. done (add_failure r b))
exec_piped (push_text text ∷ cs) =
    send (rpush historical_queue_key text) (λ r. exec_piped cs >>= λ b. done (add_failure r b))

-- The three ranges over `uniquePrices`, each in an order of its own.
pub record Orders : Type 0 where
  pub first : List String → List String
  pub second : List String → List String
  pub third : List String → List String

abbrev pub exec_saved : Option (List Piped) → Prog Error
exec_saved none = done (some json_error)
exec_saved (some cs) = exec_piped cs >>= λ b. done (if b then some redis_error else none)

-- SaveHistoricalPrices up to the check of the queue's length.
abbrev pub save_known :
    PriceCoder → String → Orders → List (String × HistoricalPrice) → Option (List Bool) → Prog Error
save_known coder today orders m none = done (some redis_error)
save_known coder today orders m (some members) =
    save_each coder today (entries_in (orders.third (key_list m)) m)
      (exists_map (orders.second (key_list m)) members [])
    >>= exec_saved

unfoldable pub save_unique :
    PriceCoder → String → Orders → List (String × HistoricalPrice) → Prog Error
save_unique coder today orders m = pipe_members (entries_in (orders.first (key_list m)) m) >>= λ rs.
    save_known coder today orders m (all_ok rs)

-- Whether a price is of today, and the source that it names.
abbrev pub todays : String → List HistoricalPrice → List HistoricalPrice
todays today [] = []
todays today (p ∷ ps) = let rest = todays today ps in if p.day_date == today then p ∷ rest else rest

abbrev pub found_of : Option (Reply (List Coins)) → Ended (Reply (List Coins))
found_of none = unending
found_of (some r) = returned r

-- Go's decoding of the queue's texts; `none`: one is no price.
abbrev pub and_price :
    Option HistoricalPrice → Option (List HistoricalPrice) → Option (List HistoricalPrice)
and_price (some p) (some ps) = some (p ∷ ps)
and_price none ps = none
and_price (some p) none = none

unfoldable pub decoded_prices : PriceCoder → List String → Option (List HistoricalPrice)
decoded_prices coder [] = some []
decoded_prices coder (text ∷ texts) =
    and_price (coder.unmarshal_price text) (decoded_prices coder texts)

-- `order`, `scan` and `fuel` as in CoinRepository, `today` is time.Now().Format("02-01-2006").
module _ (coins : Coder) (coder : PriceCoder) (r : Server) (db : Database) (fuel : ℕ)
    (scan : String → Prog Scanned) (order : List String → List String) (today : String) where
  -- One batch within its transaction.
  unfoldable pub create_prices : List HistoricalPrice → Action r db Error
  create_prices [] = on_database r db db.commit
  create_prices (p ∷ ps) = bind r db (on_database r db (db.create_price p)) (λ e. elim e [
    | some text ↦ bind r db (on_database_only r db db.rollback) (λ _. give r db (some text))
    | none ↦ create_prices ps
  ])

  unfoldable pub create_batches : List (List HistoricalPrice) → Action r db Error
  create_batches [] = give r db none
  create_batches (batch ∷ batches) = bind r db (on_database_only r db db.begin) (λ _.
      bind r db (create_prices batch)
        (λ e. elim e [ some text ↦ give r db (some text) | none ↦ create_batches batches ]))

  -- The rows of the coins go back to their queue as they are: the source is set, and only after an
  -- error, on copies of them.
  abbrev pub requeue : List Coins → Action r db Error
  requeue [] = give r db none
  requeue (c ∷ cs) = add_to_queue coins r db fuel scan order (c ∷ cs)

  abbrev pub requeue_found : Reply (List Coins) → Action r db Error
  requeue_found err = give r db none
  requeue_found (ok cs) = requeue cs

  abbrev pub after_create : List HistoricalPrice → Error → Action r db Error
  after_create prices (some e) = give r db (some e)
  after_create prices none =
      bind r db
        (on_redis_ended r db (
          get_coins_by_id coins order fuel
            (map (λ (p : HistoricalPrice). p.coin_id) (todays today prices))
          >>= λ found. done (found_of found)))
        requeue_found

  -- processQueueTransaction
  unfoldable pub process_queue_transaction : List HistoricalPrice → Action r db Error
  process_queue_transaction prices =
      bind r db (create_batches (chunks 1000 prices)) (after_create prices)

  abbrev pub price_attempted : Error → Action r db Error → Action r db Error
  price_attempted none again = give r db none
  price_attempted (some e) again = if e == deadlock_detected then again else give r db (some e)

  unfoldable pub price_attempts : ℕ → List HistoricalPrice → Action r db Error
  price_attempts zero prices = give r db none
  price_attempts (suc n) prices =
      bind r db (process_queue_transaction prices) (λ e.
        price_attempted e (bind r db (sleep r db (2 * second)) (λ _. price_attempts n prices)))

  abbrev pub process_prices : Option (List HistoricalPrice) → Action r db Error
  process_prices none = give r db (some json_error)
  process_prices (some prices) = price_attempts max_retries prices

  abbrev pub clear_prices : Action r db (Unit {0})
  clear_prices = on_redis r db (
      command (del historical_queue_key) >>= λ _.
      delete_keys_by_prefix scan historical_set_key_prefix >>= λ _. done tt)

  unfoldable pub process_price_texts : Reply (List String) → Action r db Error
  process_price_texts err = give r db (some redis_error)
  process_price_texts (ok []) = give r db none
  process_price_texts (ok (text ∷ texts)) =
      finally r db (process_prices (decoded_prices coder (text ∷ texts))) clear_prices

  -- processQueueWithTransaction
  unfoldable pub process_prices_with_transaction : Action r db Error
  process_prices_with_transaction =
      bind r db (on_redis r db (command (lrange_all historical_queue_key))) process_price_texts

  abbrev pub locked_prices : Bool → Action r db Error → Action r db Error
  locked_prices true again =
      finally r db process_prices_with_transaction
        (on_redis r db (release_lock historical_lock_key))
  locked_prices false again = bind r db (sleep r db second) (λ _. again)

  -- ProcessQueue returns nil when it has not got the lock.
  unfoldable pub price_lock_attempts : ℕ → Action r db Error
  price_lock_attempts zero = give r db none
  price_lock_attempts (suc n) =
      bind r db (on_redis r db (acquire_lock historical_lock_key lock_ttl))
        (λ b. locked_prices b (price_lock_attempts n))

  unfoldable pub process_price_queue : Action r db Error
  process_price_queue = price_lock_attempts lock_retry_count

  abbrev pub after_price_len : Reply ℕ → Action r db Error
  after_price_len err = give r db (some redis_error)
  after_price_len (ok n) =
      if leb historical_queue_run_size n then process_price_queue else give r db none

  abbrev pub after_saved : Error → Action r db Error
  after_saved (some e) = give r db (some e)
  after_saved none = bind r db (on_redis r db (command (llen historical_queue_key))) after_price_len

  -- SaveHistoricalPrices
  unfoldable pub save_historical_prices : Orders → List HistoricalPrice → Action r db Error
  save_historical_prices orders [] = give r db none
  save_historical_prices orders (p ∷ ps) =
      bind r db (on_redis r db (save_unique coder today orders (unique_prices (p ∷ ps) [])))
        after_saved
