-- ===== src/GeckoTerminal/Tests.antt =====
-- The current prices and the pools of GeckoTerminal at concrete answers.
use token_price_proxy.Prelude.{
  ℕ, ◌+◌, ◌≡◌, refl, String, none, some, [], ◌∷◌, ◌==◌, if◌then◌else◌, ltb, true, false,
}
use token_price_proxy.Prelude.Maps.{lookup}
use token_price_proxy.CoinRepository.{ℤ.pos}
use token_price_proxy.PriceService.{Batch}
use token_price_proxy.Json.{
  Json, Json.text, Json.arr, Json.obj, Items.nil, Items.cons, Fields, Fields.end, Fields.field,
}
use token_price_proxy.Prelude.Text.{split}
use token_price_proxy.GeckoTerminal.Pools.{process_pool_data}
use token_price_proxy.GeckoTerminal.Pools.Candles.{Candle, candle_json, last_close, candles_priced}
use token_price_proxy.GeckoTerminal.{
  Terminal, Parsed.readable, Response.answered, quote, no_quote, fetch_current, current_answer,
  is_dubious, keep_price, get_current_price,
}
use token_price_proxy.GeckoTerminal.Origins.{IsSound, IsSourced, get_current_price-IsSourced}
use token_price_proxy.GeckoTerminal.Batches.{IsBatch, get_batch_current_prices, current_batch}

abbrev token : String → String → Json ℕ
token price reserve = obj (
    field "data"
      (obj (
        field "attributes"
          (obj (field "price_usd" (text price) (field "total_reserve_in_usd" (text reserve) end)))
          end))
      end)

-- A network whose tokens all have the price in the body and a reserve of 5. Numbers are read from
-- two texts. The world counts the requests.
abbrev market : String → Terminal ℕ ℕ
market body = record {
  cached_current = λ id w. (if id == "1_cached" then some "7" else none, w);
  limit = λ network w. (some w, w);
  count_attempt = λ network w. w + 1;
  request = λ url w. (answered (if body == "busy" then 429 else 200) body, w);
  note_failure = λ name text w. w;
  parse = λ body. readable (token body "small");
  set_current = λ id price w. w;
  coin_by_id = λ id w. ((none, none), w);
  upsert_coin = λ c w. (none, w);
  save_prices = λ rows w. (none, w);
  now = λ w. 9;
  day_of = λ s. "day";
  show = λ n. if ltb 400 n then "429" else "9";
  parse_float = λ s. if s == "small" then some 5 else if s == "large" then some 200000 else none;
  below = ltb;
  whole = λ x. pos x;
  seconds = λ x. x;
  print_float = λ x. if ltb 10 x then "20" else "10";
  total_reserve_threshold = 1000;
  price_usd_threshold = 100000;
  partner_key = "k";
}

-- A fair price, a cached one, a dubious one, and one past the limit.
fair_price : (get_current_price (market "2.5") "1" "a" false 0).0 ≡ quote "2.5"
unfolding get_current_price lookup fetch_current current_answer is_dubious keep_price
fair_price = refl

abbrev two_tokens : Batch
two_tokens = record {
  addresses = "a" ∷ "cached" ∷ [];
  chain_ids = "1" ∷ "1" ∷ [];
  symbols = "A" ∷ [];
  networks = [];
}

price_from_cache : (get_current_price (market "2.5") "1" "cached" true 0).0 ≡ quote "7"
unfolding get_current_price lookup fetch_current current_answer is_dubious keep_price
price_from_cache = refl

dubious_price : (get_current_price (market "large") "1" "a" false 0).0 ≡ no_quote
unfolding get_current_price lookup fetch_current current_answer is_dubious keep_price
dubious_price = refl

price_past_limit : (get_current_price (market "2.5") "1" "a" false 31).0 ≡ no_quote
unfolding get_current_price lookup fetch_current current_answer is_dubious keep_price
price_past_limit = refl

-- The 31st request of a minute is made.
last_request : get_current_price (market "2.5") "1" "a" false 30 ≡ (quote "2.5", 31)
unfolding get_current_price lookup fetch_current current_answer is_dubious keep_price
last_request = refl

get_current_price-IsSourced_example :
    IsSound
      (IsSourced (market "2.5") true "1" "a" 0)
      (get_current_price (market "2.5") "1" "a" true 0).0
get_current_price-IsSourced_example = get_current_price-IsSourced (market "2.5") "1" "a" true 0

current_batch_example :
    IsBatch
      (market "busy")
      two_tokens
      true
      0
      (get_batch_current_prices (market "busy") two_tokens true 0).0
current_batch_example = current_batch (market "busy") two_tokens true 0

-- Two candles of one day, of which the second is the later one.
abbrev candle_at : ℕ → Candle ℕ
candle_at price = record { time = 3; open_price = 1; high = 30; low = 1; close = price; volume = 9 }

abbrev pool_answer : Json ℕ
pool_answer = obj (
    field "data"
      (obj (
        field "attributes"
          (obj (
            field "ohlcv_list"
              (arr (cons (candle_json (candle_at 5)) (cons (candle_json (candle_at 15)) nil))) end))
          end))
      end)

abbrev pool_market : Terminal ℕ ℕ
pool_market = record (market "pool") { parse = λ body. readable pool_answer }

abbrev base_token : Fields ℕ
base_token =
    field "relationships"
      (obj
        (field "base_token" (obj (field "data" (obj (field "id" (text "eth_0xb") end)) end)) end))
      end

abbrev pool : Json ℕ
pool = obj (field "data" (obj base_token) end)

no_underscore : split b'_' "0xb" ≡ "0xb" ∷ []
unfolding split
no_underscore = refl

candles_priced_example :
    process_pool_data pool_market pool "1_0xa" "day" "eth" "0xa" "p" 0
    ≡ some (
      record {
        price = last_close pool_market "day" (candle_at 5 ∷ candle_at 15 ∷ []) none;
        error = none;
      },
      0,
    )
candles_priced_example =
    candles_priced pool_market pool "1_0xa" "day" "eth" "0xa" "p" 0 0 "eth" "0xb" 200 "pool"
      pool_answer (candle_at 5) (candle_at 15 ∷ []) refl no_underscore refl refl refl

-- The price of the last candle.
pool_price_found : last_close pool_market "day" (candle_at 5 ∷ candle_at 15 ∷ []) none ≡ some "20"
unfolding last_close
pool_price_found = refl
