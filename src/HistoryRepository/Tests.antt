-- ===== src/HistoryRepository/Tests.antt =====
-- A price that is saved and read, at concrete data.
use token_price_proxy.Prelude.{
  ℕ, ◌≡◌, refl, String, false, none, some, List, [], ◌∷◌, if◌then◌else◌, arith,
}
use token_price_proxy.Prelude.Maps.{contains}
use token_price_proxy.Redis.Commands.{Keyspace, Value, word, number, members, items, put, items_at}
use token_price_proxy.Redis.Run.{Prog, done, ideal}
use token_price_proxy.RedisClient.{Scanned, keys_end}
use token_price_proxy.CoinRepository.{no_coin, Coder}
use token_price_proxy.CoinRepository.Caching.{returned}
use token_price_proxy.CoinRepository.World.{HistoricalPrice, Database}
use token_price_proxy.HistoryRepository.{
  historical_queue_key, price_key, PriceCoder, Orders, save_historical_prices,
}
use token_price_proxy.HistoryRepository.Reads.{get_historical_prices}
use token_price_proxy.HistoryRepository.Served.{saved_read, save_queues}

abbrev no_rows : Coder
no_rows = record { marshal = λ c. none; unmarshal = λ v. (no_coin, false) }

abbrev bare_prices : PriceCoder
bare_prices = record { marshal_price = λ p. some p.price; unmarshal_price = λ t. none }

abbrev silent : Database
silent = record {
  State = Unit {0};
  begin = λ d. d;
  exec = λ st d. (none, d);
  commit = λ d. (none, d);
  rollback = λ d. d;
  exec_text = λ sql d. (none, d);
  delete_coin = λ id d. (none, d);
  coins_in = λ ids d. ((none, []), d);
  create_price = λ p d. (none, d);
  prices_at = λ id day d. ((none, []), d);
  all_coins = λ d. ((none, []), d);
}

abbrev no_keys : String → Prog Scanned
no_keys prefix = done (keys_end false)

abbrev in_order : List String → List String
in_order keys = keys

abbrev fixed : Orders
fixed = record { first = in_order; second = in_order; third = in_order }

abbrev price : HistoricalPrice
price = record {
  coin_id = "1_b";
  date = 7;
  day_date = "02-01-2006";
  price = "2.5";
  source = "coingecko";
  query_info = none;
}

-- The coin is in the set of its day, and an older price waits in the queue.
abbrev waiting : Keyspace
waiting =
    put historical_queue_key (some (record { value = items ("2.4" ∷ []); ttl = none })) (
      put (price_key price) (some (record { value = members ("1_b" ∷ []); ttl = none }))
        (λ k. none))

abbrev text_of : Value → String
text_of (word s) = s
text_of (number n) = ""
text_of (members l) = ""
text_of (items l) = ""

abbrev day_of : ℕ → String
day_of t = "02-01-2006"

saved_read_example :
    ((save_historical_prices no_rows bare_prices ideal silent 5 no_keys in_order "03-01-2006" fixed
        (price ∷ [])
        (waiting, tt)).0
      ≡ returned none)
    × ((get_historical_prices text_of "03-01-2006" ideal silent in_order day_of
          ("1_b" ∷ [])
          (7 ∷ [])
          (save_historical_prices no_rows bare_prices ideal silent 5 no_keys in_order "03-01-2006"
            fixed
            (price ∷ [])
            (waiting, tt)).1).0
        ≡ returned (("1_b_02-01-2006", "2.5") ∷ []))
saved_read_example =
    saved_read no_rows bare_prices ideal silent 5 no_keys in_order "03-01-2006" fixed (λ k. refl)
      (λ k. refl) (λ k. refl) price "2.5" refl waiting tt refl ("2.4" ∷ []) ("1_b" ∷ []) refl refl
      (omega arith) text_of day_of 7 refl refl refl

save_queues_example :
    items_at (
      (save_historical_prices no_rows bare_prices ideal silent 5 no_keys in_order "03-01-2006" fixed
          (price ∷ [])
          (waiting, tt)).1.0
        historical_queue_key)
    ≡ some (if contains "1_b" ("1_b" ∷ []) then "2.4" ∷ [] else "2.4" ∷ "2.5" ∷ [])
save_queues_example =
    save_queues no_rows bare_prices ideal silent 5 no_keys in_order "03-01-2006" fixed (λ k. refl)
      (λ k. refl) (λ k. refl) price "2.5" refl waiting tt refl ("2.4" ∷ []) ("1_b" ∷ []) refl refl
      (omega arith)
