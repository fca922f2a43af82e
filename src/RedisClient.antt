-- ===== src/RedisClient.antt =====
-- internal/module/shared/redis.go: the locks, the caches of prices, and the deletion of keys by
-- their prefix. The reconnection is not modelled.
pub mod Deletes
use token_price_proxy.Prelude.{
  ℕ, zero, suc, ◌*◌, String, str_append, Bool, true, false, not, Option, none, some, List, [], ◌∷◌,
  ◌++◌, ◌==◌, if◌then◌else◌,
}
use token_price_proxy.Prelude.Maps.{insert}
use token_price_proxy.Prelude.Chunks.{chunks}
use token_price_proxy.Redis.Commands.{Value, word, number, Reply, ok, err, get, set, set_nx, del}
use token_price_proxy.Redis.Run.{Prog, done, send, ◌>>=◌, ◌>>◌, command}
use token_price_proxy.Throttler.{second, minute, hour, existence_key}

abbrev pub batch_size : ℕ
batch_size = 1000

abbrev pub max_retries : ℕ
max_retries = 3

-- AcquireLock
abbrev pub acquired : Reply Bool → Bool
acquired err = false
acquired (ok fresh) = fresh

unfoldable pub acquire_lock : String → ℕ → Prog Bool
acquire_lock lock_key ttl = send (set_nx lock_key (word "locked") ttl) (λ r. done (acquired r))

-- ReleaseLock
unfoldable pub release_lock : String → Prog (Unit {0})
release_lock lock_key = send (del lock_key) (λ _. done tt)

-- pipe.Exec of deletions: all are sent; whether one failed.
abbrev or_failed : Reply (Unit {0}) → Bool → Bool
or_failed (ok _) b = b
or_failed err b = true

unfoldable pub pipe_dels : List String → Prog Bool
pipe_dels [] = done false
pipe_dels (key ∷ keys) = send (del key) (λ r. pipe_dels keys >>= λ b. done (or_failed r b))

-- The attempts at one batch: whether the last of them failed.
unfoldable pub del_attempts : ℕ → List String → Prog Bool
del_attempts zero batch = done true
del_attempts (suc n) batch =
    pipe_dels batch >>= λ failed. if failed then del_attempts n batch else done false

unfoldable pub del_batches : List (List String) → Prog Bool
del_batches [] = done false
del_batches (batch ∷ batches) =
    del_attempts max_retries batch >>= λ failed. if failed then done true else del_batches batches

-- DeleteKeyBatch: whether it returns an error.
unfoldable pub delete_key_batch : List String → Prog Bool
delete_key_batch keys = del_batches (chunks batch_size keys)

-- What the iteration over SCAN yields: a key, or its end, with an error or without.
pub data Scanned : Type 0 where
  keys_end : Bool → Scanned
  key : String → Scanned → Scanned

abbrev after_batch : Bool → Prog Bool → Prog Bool
after_batch failed rest = if failed then done true else rest

-- The loop of DeleteKeysByPrefix: `count` keys are in `keys`, which fill a batch when `left` is 0.
unfoldable pub delete_scanned : Scanned → ℕ → List String → Prog Bool
delete_scanned (keys_end failed) left [] = done failed
delete_scanned (keys_end failed) left (k ∷ keys) =
    delete_key_batch (k ∷ keys) >>= λ f. after_batch f (done failed)
delete_scanned (key k rest) (suc (suc left)) keys = delete_scanned rest (suc left) (keys ++ k ∷ [])
delete_scanned (key k rest) left keys =
    delete_key_batch (keys ++ k ∷ []) >>= λ f. after_batch f (delete_scanned rest batch_size [])

-- DeleteKeysByPrefix: whether it returns an error. `scan` is the iteration over the server's keys
-- with the prefix.
unfoldable pub delete_keys_by_prefix : (String → Prog Scanned) → String → Prog Bool
delete_keys_by_prefix scan prefix = scan prefix >>= λ keys. delete_scanned keys batch_size []

abbrev pub current_key : String → String
current_key coin_id = str_append "price:current:" coin_id

-- SetCurrentPriceCache
unfoldable pub set_current_price_cache : String → String → Prog (Reply (Unit {0}))
set_current_price_cache coin_id price =
    command (set (current_key coin_id) (word price) (10 * minute))

-- GetCurrentPriceCache
unfoldable pub get_current_price_cache : String → Prog (Reply (Option Value))
get_current_price_cache coin_id = command (get (current_key coin_id))

-- `err == nil && price != ""`. `text` is the text of a string value.
module _ (text : Value → String) where
  abbrev pub with_price :
      String → Reply (Option Value) → List (String × String) → List (String × String)
  with_price coin_id err prices = prices
  with_price coin_id (ok none) prices = prices
  with_price coin_id (ok (some v)) prices =
      if text v == "" then prices else insert coin_id (text v) prices

  -- The loop of GetCurrentPricesCache, which returns no error.
  unfoldable pub current_prices :
      List String → List (String × String) → Prog (List (String × String))
  current_prices [] prices = done prices
  current_prices (coin_id ∷ coin_ids) prices =
      send (get (current_key coin_id)) (λ r. current_prices coin_ids (with_price coin_id r prices))

  unfoldable pub get_current_prices_cache : List String → Prog (List (String × String))
  get_current_prices_cache coin_ids = current_prices coin_ids []

abbrev pub historical_key : String → String → String
historical_key coin_id day_date =
    str_append "price:historical:" (str_append coin_id (str_append "_" day_date))

-- SetHistoricalPriceCache. `today` is time.Now().Format("02-01-2006").
unfoldable pub set_historical_price_cache :
    String → String → String → String → Prog (Reply (Unit {0}))
set_historical_price_cache today coin_id day_date price =
    send (set (existence_key coin_id) (number 1) (24 * 7 * hour)) (λ _. command (
      set (historical_key coin_id day_date) (word price)
        (if day_date == today then 24 * hour else 72 * hour)))

-- GetHistoricalPriceCache
unfoldable pub get_historical_price_cache : String → String → Prog (Reply (Option Value))
get_historical_price_cache coin_id day_date = command (get (historical_key coin_id day_date))
