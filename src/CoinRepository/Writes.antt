-- ===== src/CoinRepository/Writes.antt =====
-- UpsertCoins, RefreshCoinListCache, RefreshAllCoinsCache and DeleteCoinByID.
use token_price_proxy.Prelude.{ℕ, String, str_append, Option, none, some, List, [], ◌∷◌, map}
use token_price_proxy.Prelude.Chunks.{chunks}
use token_price_proxy.Redis.Commands.{Reply, ok, err, del}
use token_price_proxy.Redis.Run.{Server, command}
use token_price_proxy.CoinRepository.{Coins, Coder, coin_key}
use token_price_proxy.CoinRepository.Upsert.{Statement, upsert_statement}
use token_price_proxy.CoinRepository.Caching.{cache_coin_batch}
use token_price_proxy.CoinRepository.World.{
  Error, Database, Action, bind, give, on_redis, on_redis_ended, on_database, on_database_only,
}

abbrev pub upsert_batch_size : ℕ
upsert_batch_size = 1000

-- The text that UpsertCoins puts before an error of the statement.
abbrev pub upsert_failed : String
upsert_failed = "批量插入或更新币种失败: "

abbrev pub all_from_coingecko : String
all_from_coingecko =
    "UPDATE coins SET price_source = 'coingecko' WHERE coingecko_coin_id IS NOT NULL"

-- The errors of the Redis client: their texts, which nothing here reads, are not told apart.
abbrev pub redis_error : String
redis_error = "redis: error"

module _ (coder : Coder) (r : Server) (db : Database) (fuel : ℕ) where
  -- The error of the query, or its rows into the cache.
  abbrev pub cache_found : Error × List Coins → Action r db Error
  cache_found (some e, coins) = give r db (some e)
  cache_found (none, coins) =
      bind r db (on_redis_ended r db (cache_coin_batch coder fuel coins)) (λ _. give r db none)

  unfoldable pub refresh_coin_list_cache : List String → Action r db Error
  refresh_coin_list_cache [] = give r db none
  refresh_coin_list_cache (id ∷ ids) =
      bind r db (on_database r db (db.coins_in (id ∷ ids))) cache_found

  abbrev pub all_after : Error → Action r db Error
  all_after (some e) = give r db (some e)
  all_after none = bind r db (on_database r db db.all_coins) cache_found

  unfoldable pub refresh_all_coins_cache : Action r db Error
  refresh_all_coins_cache = bind r db (on_database r db (db.exec_text all_from_coingecko)) all_after

  -- upsertCoins within the open transaction.
  abbrev pub exec_upsert : Option Statement → db.State → Error × db.State
  exec_upsert none d = (none, d)
  exec_upsert (some st) d = db.exec st d

  abbrev pub after_commit : List Coins → Error → Action r db Error
  after_commit batch (some e) = give r db (some e)
  after_commit batch none =
      bind r db (refresh_coin_list_cache (map (λ (c : Coins). c.id) batch)) (λ _. give r db none)

  abbrev pub after_upsert : List Coins → Error → Action r db Error
  after_upsert batch (some e) =
      bind r db (on_database_only r db db.rollback)
        (λ _. give r db (some (str_append upsert_failed e)))
  after_upsert batch none = bind r db (on_database r db db.commit) (after_commit batch)

  -- One round of UpsertCoins.
  unfoldable pub upsert_batch : List Coins → Action r db Error
  upsert_batch batch = bind r db (on_database_only r db db.begin) (λ _.
      bind r db (on_database r db (exec_upsert (upsert_statement batch))) (after_upsert batch))

  abbrev pub unless_failed : Action r db Error → Error → Action r db Error
  unless_failed rest (some e) = give r db (some e)
  unless_failed rest none = rest

  unfoldable pub upsert_batches : List (List Coins) → Action r db Error
  upsert_batches [] = give r db none
  upsert_batches (batch ∷ batches) =
      bind r db (upsert_batch batch) (unless_failed (upsert_batches batches))

  -- UpsertCoins
  unfoldable pub upsert_coins : List Coins → Action r db Error
  upsert_coins coins = upsert_batches (chunks upsert_batch_size coins)

  abbrev pub after_del : Reply (Unit {0}) → Action r db Error
  after_del err = bind r db (on_database_only r db db.rollback) (λ _. give r db (some redis_error))
  after_del (ok _) = on_database r db db.commit

  abbrev pub after_delete : String → Error → Action r db Error
  after_delete id (some e) = bind r db (on_database_only r db db.rollback) (λ _. give r db (some e))
  after_delete id none = bind r db (on_redis r db (command (del (coin_key id)))) after_del

  -- DeleteCoinByID
  unfoldable pub delete_coin_by_id : String → Action r db Error
  delete_coin_by_id id =
      bind r db (on_database_only r db db.begin)
        (λ _. bind r db (on_database r db (db.delete_coin id)) (after_delete id))
