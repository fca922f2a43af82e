-- ===== src/GeckoTerminal.antt =====
-- internal/module/price/service/gecko_terminal_service.go: the prices of GeckoTerminal. A request
-- over HTTP, the repositories, the clock, the cache and the arithmetic of floats are what the record
-- Terminal holds.
pub mod Origins
pub mod Batches
pub mod Pools
pub mod History
mod Tests
use token_price_proxy.Prelude.{
  ℕ, String, str_append, Bool, true, false, not, ◌&&◌, Option, none, some, List, [], ◌∷◌, ◌++◌,
  ◌==◌, if◌then◌else◌, ltb, eqb, get_elem?,
}
use token_price_proxy.Prelude.Maps.{lookup}
use token_price_proxy.Prelude.Text.{split}
use token_price_proxy.PriceService.{join_id}
use token_price_proxy.CoinRepository.{ℤ, Coins, no_coin}
use token_price_proxy.CoinRepository.World.{Error, HistoricalPrice}
use token_price_proxy.Json.{
  Json, Fields, at_key, child, object_of, string_of, get_string_ptr, get_int_ptr,
}

-- chainIdMap
abbrev pub chain_id_map : List (String × String)
chain_id_map =
    ("1", "eth")
    ∷ ("56", "bsc")
    ∷ ("128", "heco")
    ∷ ("137", "polygon_pos")
    ∷ ("66", "okexchain")
    ∷ ("42161", "arbitrum")
    ∷ ("1285", "movr")
    ∷ ("1313161554", "aurora")
    ∷ ("288", "boba")
    ∷ ("43114", "avax")
    ∷ ("10", "optimism")
    ∷ ("25", "cro")
    ∷ ("321", "kcc")
    ∷ ("100", "xdai")
    ∷ ("1030", "cfx")
    ∷ ("1088", "metis")
    ∷ ("4444", "qkc")
    ∷ ("30", "rsk")
    ∷ ("60", "gochain")
    ∷ ("122", "fuse")
    ∷ ("333999", "okex-testnet")
    ∷ ("11297108109", "iotex")
    ∷ ("42220", "celo")
    ∷ ("4689", "iotex")
    ∷ ("1666600000", "harmony")
    ∷ ("10000", "smartbch")
    ∷ ("181", "meter")
    ∷ ("57", "sys")
    ∷ ("1229", "polis")
    ∷ ("80001", "mumbai")
    ∷ ("65", "okex-testnet")
    ∷ ("97", "bsc-testnet")
    ∷ ("3", "ropsten")
    ∷ ("4", "rinkeby")
    ∷ ("5", "goerli")
    ∷ ("42", "kovan")
    ∷ ("1287", "moonbeam-testnet")
    ∷ ("256", "heco-testnet")
    ∷ ("4002", "ftm-testnet")
    ∷ ("43113", "avax-testnet")
    ∷ ("534352", "scroll")
    ∷ ("250", "ftm")
    ∷ ("59144", "linea")
    ∷ ("8453", "base")
    ∷ ("5000", "mantle")
    ∷ ("169", "manta-pacific")
    ∷ []

-- What a request over HTTP gives: the error's text, or the status and the body.
pub data Response : Type 0 where
  failed : String → Response
  answered : ℕ → String → Response

-- What ParseJSONResponse gives: the error's text, or the value.
pub data Parsed (F : Type 0) : Type 0 where
  unreadable : String → Parsed F
  readable : Json F → Parsed F

-- A price that may be nil, and an error that may be nil.
pub record Quote : Type 0 where
  pub price : Option String
  pub error : Error

abbrev pub no_quote : Quote
no_quote = record { price = none; error = none }

abbrev pub quote : String → Quote
quote p = record { price = some p; error = none }

abbrev pub failure : String → Quote
failure e = record { price = none; error = some e }

-- What the service calls, over a world. `cached_current` is GetCurrentPricesCache of one id, `limit`
-- the number under the key of the limit, if there is one, and `count_attempt` its Incr and Expire.
-- `parse` is ParseJSONResponse, `note_failure` is HandleErrorWithThrottling, and `set_current`
-- SetCurrentPriceCache. `below` compares floats; `seconds` is the conversion to int64 of a time and
-- `print_float` strconv.FormatFloat.
pub record Terminal (W F : Type 0) : Type 0 where
  pub cached_current : String → W → Option String × W
  pub limit : String → W → Option ℕ × W
  pub count_attempt : String → W → W
  pub request : String → W → Response × W
  pub note_failure : String → String → W → W
  pub parse : String → Parsed F
  pub set_current : String → String → W → W
  pub coin_by_id : String → W → (Error × Option Coins) × W
  pub upsert_coin : Coins → W → Error × W
  pub save_prices : List HistoricalPrice → W → Error × W
  pub now : W → ℕ
  pub day_of : ℕ → String
  pub show : ℕ → String
  pub parse_float : String → Option F
  pub below : F → F → Bool
  pub whole : F → ℤ
  pub seconds : F → ℕ
  pub print_float : F → String
  pub total_reserve_threshold : F
  pub price_usd_threshold : F
  pub partner_key : String

abbrev pub base_url : String
base_url = "https://api.geckoterminal.com/api/v2/"

abbrev pub invalid_chain : String → String
invalid_chain chain_id = str_append "invalid chainId: " chain_id

-- `splitTokenInfo[i]`, of "network:address". No network of chain_id_map has a colon, so part 0 is the
-- network and part 1 there.
abbrev pub info_part : String → String → ℕ → Option String
info_part network address i = get_elem? (split b':' (str_append network (str_append ":" address))) i

abbrev pub part_or_empty : Option String → String
part_or_empty none = ""
part_or_empty (some s) = s

abbrev pub is_empty_coin : Option Coins → Bool
is_empty_coin none = true
is_empty_coin (some c) = c.id == ""

module _ {W F : Type 0} (t : Terminal W F) where
  abbrev pub token_url : String → String → String
  token_url network address = str_append base_url (
      str_append "networks/" (
        str_append network (
          str_append "/tokens/"
            (str_append address (str_append "?partner_api_key=" t.partner_key)))))

  -- `err == nil && totalReserve < threshold` and then `err == nil && price > threshold`
  abbrev pub is_below : Option F → F → Bool
  is_below none y = false
  is_below (some x) y = t.below x y

  abbrev pub is_above : F → Option F → Bool
  is_above y none = false
  is_above y (some x) = t.below y x

  -- Whether a price is refused: a small reserve and a large price.
  unfoldable pub is_dubious : Option String → String → Bool
  is_dubious none price_usd = false
  is_dubious (some reserve) price_usd =
      is_below (t.parse_float reserve) t.total_reserve_threshold
      && is_above t.price_usd_threshold (t.parse_float price_usd)

  abbrev pub new_coin : String → String → String → String → Fields F → Coins
  new_coin id address chain_id network attributes = record no_coin {
    id = id;
    address = address;
    chain_id = chain_id;
    symbol = get_string_ptr (at_key "symbol" attributes);
    name = get_string_ptr (at_key "name" attributes);
    geckoterminal_network = some network;
    decimals = get_int_ptr t.whole (at_key "decimals" attributes);
    total_supply = get_string_ptr (at_key "total_supply" attributes);
    price_source = some "geckoterminal";
  }

  -- The coin is inserted unless it is known: the error of either call.
  abbrev pub save_new_coin : (Error × Option Coins) × W → Coins → Error × W
  save_new_coin ((some e, found), w) coin = (some e, w)
  save_new_coin ((none, found), w) coin =
      if is_empty_coin found then t.upsert_coin coin w else (none, w)

  abbrev pub current_row : String → String → W → HistoricalPrice
  current_row coin_id price_usd w = record {
    coin_id = coin_id;
    date = t.now w;
    day_date = t.day_of (t.now w);
    price = price_usd;
    source = "geckoterminal";
    query_info = none;
  }

  abbrev pub after_coin : String → HistoricalPrice → Error × W → Quote × W
  after_coin price_usd row (some e, w) = (failure e, w)
  after_coin price_usd row (none, w) = (quote price_usd, (t.save_prices (row ∷ []) w).1)

  -- The price of an answer: cached, the coin added, the price queued.
  unfoldable pub keep_price : String → String → String → String → Fields F → String → W → Quote × W
  keep_price coin_id address chain_id network attributes price_usd w =
      let w1 = t.set_current coin_id price_usd w in
      after_coin price_usd (current_row (join_id chain_id address) price_usd w1) (
        save_new_coin (t.coin_by_id coin_id w1)
          (new_coin coin_id address chain_id network attributes))

  abbrev pub priced : String → String → String → String → Fields F → Option String → W → Quote × W
  priced coin_id address chain_id network attributes none w = (no_quote, w)
  priced coin_id address chain_id network attributes (some price_usd) w =
      if is_dubious (string_of (at_key "total_reserve_in_usd" attributes)) price_usd
      then (no_quote, w)
      else keep_price coin_id address chain_id network attributes price_usd w

  abbrev pub with_attributes : String → String → String → String → Option (Fields F) → W → Quote × W
  with_attributes coin_id address chain_id network none w = (no_quote, w)
  with_attributes coin_id address chain_id network (some attributes) w =
      priced coin_id address chain_id network attributes (string_of (at_key "price_usd" attributes))
        w

  abbrev pub parsed : String → String → String → String → Parsed F → W → Quote × W
  parsed coin_id address chain_id network (unreadable e) w = (failure e, w)
  parsed coin_id address chain_id network (readable result) w =
      with_attributes coin_id address chain_id network
        (object_of (child "attributes" (child "data" (some result)))) w

  abbrev pub is_accepted : ℕ → Bool
  is_accepted status = if eqb status 200 then true else eqb status 404

  abbrev pub status_and_body : ℕ → String → String
  status_and_body status body =
      str_append "status code: " (str_append (t.show status) (str_append ", response: " body))

  abbrev pub bad_status : ℕ → String → String
  bad_status status body = str_append "failed to get prices, " (status_and_body status body)

  abbrev pub report : String → ℕ → String → String
  report url status body =
      str_append "url: " (str_append url (str_append ", " (status_and_body status body)))

  -- An answer with another status; 429 is not reported.
  abbrev pub refused : String → String → ℕ → String → W → Quote × W
  refused name url status body w = (
    failure (bad_status status body),
    if eqb status 429 then w else t.note_failure name (report url status body) w,
  )

  unfoldable pub current_answer : String → String → String → String → Response × W → Quote × W
  current_answer coin_id address chain_id network (failed e, w) = (failure e, w)
  current_answer coin_id address chain_id network (answered status body, w) =
      if is_accepted status
      then parsed coin_id address chain_id network (t.parse body) w
      else refused "GeckoTerminalService-GetCurrentPrice" (token_url network address) status body w

  -- `err == nil && limit > 30`
  abbrev pub is_over : Option ℕ → Bool
  is_over none = false
  is_over (some n) = ltb 30 n

  unfoldable pub fetch_current : String → String → String → String → Option ℕ × W → Quote × W
  fetch_current coin_id address chain_id network (limit, w) =
      if is_over limit
      then (no_quote, w)
      else current_answer coin_id address chain_id network
          (t.request (token_url network address) (t.count_attempt network w))

  abbrev pub from_cache : String → String → String → String → Bool → Option String × W → Quote × W
  from_cache coin_id address chain_id network is_cache (none, w) =
      fetch_current coin_id address chain_id network (t.limit network w)
  from_cache coin_id address chain_id network is_cache (some price, w) =
      if is_cache
      then (quote price, w)
      else fetch_current coin_id address chain_id network (t.limit network w)

  abbrev pub at_network : Option String → String → String → Bool → W → Quote × W
  at_network none chain_id address is_cache w = (failure (invalid_chain chain_id), w)
  at_network (some network) chain_id address is_cache w =
      let coin_id = join_id chain_id address in
      from_cache coin_id (part_or_empty (info_part network address 1)) chain_id network is_cache
        (t.cached_current coin_id w)

  -- GetCurrentPrice
  unfoldable pub get_current_price : String → String → Bool → W → Quote × W
  get_current_price chain_id address is_cache w =
      at_network (lookup chain_id chain_id_map) chain_id address is_cache w
