-- ===== src/GeckoTerminal/Pools.antt =====
-- The prices of a pool in internal/module/price/service/gecko_terminal_service.go: processPoolData,
-- getOhlcvs and extractTokenAddress. `none` is a panic, of a type assertion or of an index.
pub mod Candles
use token_price_proxy.Prelude.{
  ◌≡◌, refl, ◌∙◌, ap, subst, arith, String, str_append, Option, none, some, List, [], ◌∷◌, ◌==◌,
  if◌then◌else◌, get_elem?, All,
}
use token_price_proxy.Prelude.Maps.{lookup, insert, lookup-insert}
use token_price_proxy.Prelude.Panic.{◌>>=◌, >>=-eq-some}
use token_price_proxy.Prelude.Text.{split, append-==, ==-comm}
use token_price_proxy.CoinRepository.World.{Error, HistoricalPrice}
use token_price_proxy.Json.{Json, Fields, at_key, child, object_of, string_of, number_of, list_of}
use token_price_proxy.GeckoTerminal.{
  Terminal, Parsed, Parsed.unreadable, Parsed.readable, Response, Response.failed,
  Response.answered, Quote, no_quote, base_url,
}

abbrev pub last_part : List String → String
last_part [] = ""
last_part (p ∷ []) = p
last_part (p ∷ q ∷ ps) = last_part (q ∷ ps)

-- extractTokenAddress
abbrev pub extract_token_address : String → String
extract_token_address token_id = last_part (split b'_' token_id)

-- The side of the pool on which the token stands.
abbrev pub pool_token : String → String → String
pool_token address base_id = if address == extract_token_address base_id then "base" else "quote"

-- The rows of an answer, or the error.
abbrev pub Ohlcvs : Type 0 → Type 0
Ohlcvs F = Error × List (List (Json F))

-- priceMap, filled in the order of the rows.
unfoldable pub price_map : List HistoricalPrice → List (String × String) → List (String × String)
price_map [] m = m
price_map (r ∷ rows) m =
    price_map rows (insert (str_append r.coin_id (str_append "_" r.day_date)) r.price m)

module _ {F : Type 0} where
  -- The loop over `ohlcv_list`, whose items are to be lists.
  unfoldable pub ohlcv_items : List (Json F) → Option (List (List (Json F)))
  ohlcv_items [] = some []
  ohlcv_items (item ∷ items) =
      list_of (some item) >>= λ ohlcv. ohlcv_items items >>= λ ohlcvs. some (ohlcv ∷ ohlcvs)

  abbrev pub listed_items : Option (List (Json F)) → Option (Ohlcvs F)
  listed_items none = some (none, [])
  listed_items (some items) = ohlcv_items items >>= λ ohlcvs. some (none, ohlcvs)

  abbrev pub read_ohlcvs : Parsed F → Option (Ohlcvs F)
  read_ohlcvs (unreadable e) = some (some e, [])
  read_ohlcvs (readable result) =
      listed_items (list_of (child "ohlcv_list" (child "attributes" (child "data" (some result)))))

  -- The id of the base token; each step is a type assertion.
  abbrev pub base_id : Fields F → Option String
  base_id pool =
      string_of (child "id" (child "data" (child "base_token" (at_key "relationships" pool))))

module _ {W F : Type 0} (t : Terminal W F) where
  abbrev pub ohlcv_url : String → String → String → String
  ohlcv_url network pool_address token = str_append base_url (
      str_append "networks/" (
        str_append network (
          str_append "/pools/" (
            str_append pool_address (
              str_append "/ohlcv/day?limit=1000&token="
                (str_append token (str_append "&partner_api_key=" t.partner_key)))))))

  abbrev pub answered_ohlcvs : Response × W → Option (Ohlcvs F × W)
  answered_ohlcvs (failed e, w) = some ((some e, []), w)
  answered_ohlcvs (answered status body, w) =
      read_ohlcvs (t.parse body) >>= λ ohlcvs. some (ohlcvs, w)

  -- getOhlcvs
  unfoldable pub get_ohlcvs : String → String → String → W → Option (Ohlcvs F × W)
  get_ohlcvs network pool_address token w =
      answered_ohlcvs (t.request (ohlcv_url network pool_address token) w)

  abbrev pub pool_row : String → F → F → HistoricalPrice
  pool_row coin_id time price = record {
    coin_id = coin_id;
    date = t.seconds time;
    day_date = t.day_of (t.seconds time);
    price = t.print_float price;
    source = "geckoterminal";
    query_info = none;
  }

  -- The loop over the rows of the answer.
  unfoldable pub pool_rows : String → List (List (Json F)) → Option (List HistoricalPrice)
  pool_rows coin_id [] = some []
  pool_rows coin_id (item ∷ items) = number_of (get_elem? item 0) >>= λ time.
      number_of (get_elem? item 4) >>= λ price.
      pool_rows coin_id items >>= λ rows. some (pool_row coin_id time price ∷ rows)

  -- The rows are saved, and the price of the date is looked up; an error of the saving is logged.
  abbrev pub pool_price : String → String → List HistoricalPrice → W → Quote × W
  pool_price coin_id date rows w =
      let prices = price_map rows [] in
      (
        record { price = lookup (str_append coin_id (str_append "_" date)) prices; error = none },
        (t.save_prices rows w).1,
      )

  abbrev pub after_ohlcvs : String → String → Ohlcvs F × W → Option (Quote × W)
  after_ohlcvs coin_id date ((some e, ohlcvs), w) =
      some (record { price = none; error = some e }, w)
  after_ohlcvs coin_id date ((none, []), w) = some (no_quote, w)
  after_ohlcvs coin_id date ((none, item ∷ items), w) =
      pool_rows coin_id (item ∷ items) >>= λ rows. some (pool_price coin_id date rows w)

  abbrev pub with_pool :
      String → String → String → String → String → Option (Fields F) → W → Option (Quote × W)
  with_pool coin_id date network address pool_address none w = some (no_quote, w)
  with_pool coin_id date network address pool_address (some pool) w = base_id pool >>= λ id.
      get_ohlcvs network pool_address (pool_token address id) w >>= after_ohlcvs coin_id date

  -- processPoolData
  unfoldable pub process_pool_data :
      Json F → String → String → String → String → String → W → Option (Quote × W)
  process_pool_data pool_data coin_id date network address pool_address w =
      with_pool coin_id date network address pool_address
        (object_of (child "data" (some pool_data))) w
