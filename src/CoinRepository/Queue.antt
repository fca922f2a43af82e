-- ===== src/CoinRepository/Queue.antt =====
-- AddToQueue, ProcessQueue, processQueueWithTransaction and upsertCoinsTransaction.
pub mod Retries
pub mod Up
pub mod Clears
use token_price_proxy.Prelude.{
  ℕ, zero, suc, ◌*◌, String, str_append, Bool, true, false, Option, none, some, List, [], ◌∷◌, ◌++◌,
  map, ◌==◌, ◌||◌, if◌then◌else◌, leb,
}
use token_price_proxy.Prelude.Maps.{insert, lookup}
use token_price_proxy.Redis.Commands.{
  Value, word, Reply, ok, err, del, sadd, rpush, llen, lrange_all, sismember,
}
use token_price_proxy.Redis.Run.{Server, Prog, done, send, ◌>>=◌, command}
use token_price_proxy.Throttler.{second}
use token_price_proxy.RedisClient.{Scanned, acquire_lock, release_lock, delete_keys_by_prefix}
use token_price_proxy.CoinRepository.{
  Coins, Coder, queue_key, set_key_prefix, queue_run_size, is_bare,
}
use token_price_proxy.CoinRepository.Caching.{Ended, returned, panicked, unending}
use token_price_proxy.CoinRepository.World.{
  Error, Database, World, Action, after, bind, give, on_redis,
}
use token_price_proxy.CoinRepository.Writes.{upsert_coins, redis_error}

-- The constants of coin_historical_price_repository.go.
abbrev pub max_retries : ℕ
max_retries = 3

abbrev pub lock_ttl : ℕ
lock_ttl = 15 * second

abbrev pub lock_retry_count : ℕ
lock_retry_count = 3

abbrev pub lock_key : String
lock_key = "lock:coins_queue"

abbrev pub set_key : String → String
set_key id = str_append set_key_prefix id

-- A row that AddToQueue passes over.
abbrev pub is_unqueued : Coins → Bool
is_unqueued c = is_bare c || c.id == ""

-- The commands that are put into the pipeline for one row: `exists.Val()` is read before the
-- pipeline is sent and so is always false.
pub record Queued : Type 0 where
  pub id : String
  pub text : String

abbrev pub and_queued : Queued → Option (List Queued) → Option (List Queued)
and_queued q none = none
and_queued q (some qs) = some (q ∷ qs)

abbrev pub queue_row : Coins → Option String → Option (List Queued) → Option (List Queued)
queue_row c none rest = none
queue_row c (some s) rest = and_queued (record { id = c.id; text = s }) rest

abbrev pub add_failure : {A : Type 0} → Reply A → Bool → Bool
add_failure (ok _) b = b
add_failure err b = true

-- pipe.Exec: whether a command failed.
unfoldable pub pipe_queued : List Queued → Prog Bool
pipe_queued [] = done false
pipe_queued (q ∷ qs) = send (sismember (set_key q.id) q.id) (λ e.
    send (sadd (set_key q.id) q.id) (λ a.
      send (rpush queue_key q.text)
        (λ p. pipe_queued qs >>= λ b. done (add_failure e (add_failure a (add_failure p b))))))

module _ (coder : Coder) where
  -- `none`: json.Marshal fails, and nothing is sent.
  unfoldable pub queued : List Coins → Option (List Queued)
  queued [] = some []
  queued (c ∷ cs) =
      let rest = queued cs in if is_unqueued c then rest else queue_row c (coder.marshal c) rest

  -- The rows of the queue's texts, by their ids: the last one of an id given twice. `none`: a
  -- text is not a row.
  abbrev pub row_after :
      Coins × Bool → (Coins → Option (List (String × Coins))) → Option (List (String × Coins))
  row_after (c, true) k = k c
  row_after (c, false) k = none

  unfoldable pub rows_of : List String → List (String × Coins) → Option (List (String × Coins))
  rows_of [] m = some m
  rows_of (text ∷ texts) m =
      row_after (coder.unmarshal (word text)) (λ c. rows_of texts (insert c.id c m))

-- The rows of a map, as the Go runtime ranges over it.
unfoldable pub values_in : List String → List (String × Coins) → List Coins
values_in [] m = []
values_in (id ∷ ids) m =
    let rest = values_in ids m in elim (lookup id m) [ none ↦ rest | some c ↦ c ∷ rest ]

abbrev pub deadlock_detected : String
deadlock_detected = "ERROR: deadlock detected (SQLSTATE 40P01)"

abbrev pub no_lock : String
no_lock = "failed to acquire lock after 3 attempts"

-- The errors of encoding/json, as those of Redis.
abbrev pub json_error : String
json_error = "json: error"

module _ (r : Server) (db : Database) where
  -- `defer`: what runs when a call returns or panics.
  abbrev pub finished :
      {A : Type 0} → Ended A × World r db → Action r db (Unit {0}) → Ended A × World r db
  finished (returned a, w) fin = (returned a, (fin w).1)
  finished (panicked, w) fin = (panicked, (fin w).1)
  finished (unending, w) fin = (unending, w)

  abbrev pub finally : {A : Type 0} → Action r db A → Action r db (Unit {0}) → Action r db A
  finally m fin w = finished (m w) fin

  -- time.Sleep
  abbrev pub sleep : ℕ → Action r db (Unit {0})
  sleep t (s, d) = (returned tt, (r.wait t s, d))

-- `scan` iterates over the server's keys with a prefix, `order` is the order of a map's keys.
module _ (coder : Coder) (r : Server) (db : Database) (fuel : ℕ) (scan : String → Prog Scanned)
    (order : List String → List String) where
  abbrev pub deleted : Reply (Unit {0}) → Error
  deleted (ok _) = none
  deleted err = some redis_error

  abbrev pub del_queue : Prog (Reply (Unit {0}))
  del_queue = command (del queue_key)

  abbrev pub after_rows : Error → Action r db Error
  after_rows (some e) = give r db (some e)
  after_rows none = bind r db (on_redis r db del_queue) (λ d. give r db (deleted d))

  -- upsertCoinsTransaction
  unfoldable pub upsert_coins_transaction : List Coins → Action r db Error
  upsert_coins_transaction coins = bind r db (upsert_coins coder r db fuel coins) after_rows

  abbrev pub after_attempt : Error → Action r db Error → Action r db Error
  after_attempt none again = give r db none
  after_attempt (some e) again = if e == deadlock_detected then again else give r db (some e)

  -- The attempts at the rows: when they are used up, nil is returned.
  unfoldable pub row_attempts : ℕ → List Coins → Action r db Error
  row_attempts zero coins = give r db none
  row_attempts (suc n) coins =
      bind r db (upsert_coins_transaction coins)
        (λ e. after_attempt e (bind r db (sleep r db (2 * second)) (λ _. row_attempts n coins)))

  abbrev pub process_rows : Option (List (String × Coins)) → Action r db Error
  process_rows none = give r db (some json_error)
  process_rows (some m) =
      row_attempts max_retries (values_in (order (map (λ (e : String × Coins). e.0) m)) m)

  abbrev pub clear_queue : Action r db (Unit {0})
  clear_queue =
      on_redis r db (del_queue >>= λ _. delete_keys_by_prefix scan set_key_prefix >>= λ _. done tt)

  unfoldable pub process_texts : Reply (List String) → Action r db Error
  process_texts err = give r db (some redis_error)
  process_texts (ok []) = give r db none
  process_texts (ok (text ∷ texts)) =
      finally r db (process_rows (rows_of coder (text ∷ texts) [])) clear_queue

  -- processQueueWithTransaction
  unfoldable pub process_queue_with_transaction : Action r db Error
  process_queue_with_transaction =
      bind r db (on_redis r db (command (lrange_all queue_key))) process_texts

  abbrev pub locked : Bool → Action r db Error → Action r db Error
  locked true again =
      finally r db process_queue_with_transaction (on_redis r db (release_lock lock_key))
  locked false again = bind r db (sleep r db second) (λ _. again)

  unfoldable pub lock_attempts : ℕ → Action r db Error
  lock_attempts zero = give r db (some no_lock)
  lock_attempts (suc n) =
      bind r db (on_redis r db (acquire_lock lock_key lock_ttl)) (λ b. locked b (lock_attempts n))

  -- ProcessQueue
  unfoldable pub process_queue : Action r db Error
  process_queue = lock_attempts lock_retry_count

  abbrev pub after_len : Reply ℕ → Action r db Error
  after_len err = give r db (some redis_error)
  after_len (ok n) = if leb queue_run_size n then process_queue else give r db none

  abbrev pub after_add : Bool → Action r db Error
  after_add true = give r db (some redis_error)
  after_add false = bind r db (on_redis r db (command (llen queue_key))) after_len

  abbrev pub add_queued : Option (List Queued) → Action r db Error
  add_queued none = give r db (some json_error)
  add_queued (some qs) = bind r db (on_redis r db (pipe_queued qs)) after_add

  -- AddToQueue
  unfoldable pub add_to_queue : List Coins → Action r db Error
  add_to_queue coins = add_queued (queued coder coins)
