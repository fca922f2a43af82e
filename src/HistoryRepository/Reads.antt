-- ===== src/HistoryRepository/Reads.antt =====
-- GetHistoricalPrices: the cached prices, and for the others, but for today's, the database.
use token_price_proxy.Prelude.{
  ℕ, String, str_append, Option, none, some, List, [], ◌∷◌, ◌++◌, map, ◌==◌, if◌then◌else◌,
}
use token_price_proxy.Prelude.Maps.{insert, lookup}
use token_price_proxy.Redis.Commands.{Value, Reply, ok, err}
use token_price_proxy.Redis.Run.{Server, Prog, done, ◌>>=◌}
use token_price_proxy.RedisClient.{set_historical_price_cache, get_historical_price_cache}
use token_price_proxy.CoinRepository.Caching.{Ended, returned, panicked}
use token_price_proxy.CoinRepository.World.{
  Error, HistoricalPrice, Database, Action, bind, give, on_redis, on_redis_ended, on_database,
}
use token_price_proxy.HistoryRepository.{key_list, entries_in}

-- `coinID + "_" + day`
abbrev pub price_id : String → String → String
price_id coin_id day = str_append coin_id (str_append "_" day)

abbrev pub days_of : Option (List String) → List String
days_of none = []
days_of (some days) = days

-- `priceMap` and `missingPrices`
pub record Reading : Type 0 where
  pub prices : List (String × String)
  pub missing : List (String × List String)

-- `text` is the text of a string value, `today` is time.Now().Format("02-01-2006").
module _ (text : Value → String) (today : String) where
  abbrev pub add_missing : String → String → Reading → Reading
  add_missing coin_id day rd = if day == today then rd else record rd {
    missing = insert coin_id (days_of (lookup coin_id rd.missing) ++ day ∷ []) rd.missing;
  }

  -- What one read of the cache gives.
  abbrev pub cached_price : String → String → Reply (Option Value) → Reading → Reading
  cached_price coin_id day err rd = add_missing coin_id day rd
  cached_price coin_id day (ok none) rd = add_missing coin_id day rd
  cached_price coin_id day (ok (some v)) rd =
      if text v == ""
      then add_missing coin_id day rd
      else record rd { prices = insert (price_id coin_id day) (text v) rd.prices }

  -- The loop over the ids; `dayDates[i]` out of range panics.
  unfoldable pub read_cached : List String → List String → Reading → Prog (Ended Reading)
  read_cached [] days rd = done (returned rd)
  read_cached (coin_id ∷ coin_ids) [] rd = done panicked
  read_cached (coin_id ∷ coin_ids) (day ∷ days) rd = get_historical_price_cache coin_id day >>= λ v.
      read_cached coin_ids days (cached_price coin_id day v rd)

  module _ (r : Server) (db : Database) (order : List String → List String)
      (format : ℕ → String) where
    -- The rows of one query.
    unfoldable pub take_rows :
        List HistoricalPrice → List (String × String) → Action r db (List (String × String))
    take_rows [] prices = give r db prices
    take_rows (p ∷ ps) prices =
        bind r db (on_redis r db (set_historical_price_cache today p.coin_id p.day_date p.price))
          (λ _. take_rows ps (insert (price_id p.coin_id p.day_date) p.price prices))

    abbrev pub queried :
        List (String × String) → Error × List HistoricalPrice → Action r db (List (String × String))
    queried prices (some e, rows) = give r db prices
    queried prices (none, rows) = take_rows rows prices

    unfoldable pub query_days :
        String → List String → List (String × String) → Action r db (List (String × String))
    query_days coin_id [] prices = give r db prices
    query_days coin_id (day ∷ days) prices =
        bind r db (on_database r db (db.prices_at coin_id day))
          (λ found. bind r db (queried prices found) (query_days coin_id days))

    unfoldable pub query_missing :
        List (String × List String) → List (String × String) → Action r db (List (String × String))
    query_missing [] prices = give r db prices
    query_missing ((coin_id, days) ∷ rest) prices =
        bind r db (query_days coin_id days prices) (query_missing rest)

    -- GetHistoricalPrices, which returns no error.
    unfoldable pub get_historical_prices :
        List String → List ℕ → Action r db (List (String × String))
    get_historical_prices coin_ids dates =
        bind r db
          (on_redis_ended r db
            (read_cached coin_ids (map format dates) (record { prices = []; missing = [] })))
          (λ rd. query_missing (entries_in (order (key_list rd.missing)) rd.missing) rd.prices)
