-- ===== src/GeckoTerminal/History.antt =====
-- The historical prices of internal/module/price/service/gecko_terminal_service.go: processTokenData,
-- and in the children GetHistoricalPrice and its batch. `none` is a panic, as in Pools.
pub mod Batch
pub mod Days
mod Tests
use token_price_proxy.Prelude.{
  ℕ, String, str_append, Option, none, some, List, [], ◌∷◌, ◌==◌, if◌then◌else◌, eqb,
}
use token_price_proxy.Prelude.Maps.{lookup}
use token_price_proxy.Prelude.Panic.{◌>>=◌}
use token_price_proxy.Prelude.Text.{split}
use token_price_proxy.PriceService.{is_set, join_id}
use token_price_proxy.CoinRepository.{Coins}
use token_price_proxy.CoinRepository.World.{Error}
use token_price_proxy.Json.{Json, Fields, at_key, child, object_of, string_of, list_of}
use token_price_proxy.GeckoTerminal.{
  Terminal, Parsed, Parsed.unreadable, Parsed.readable, Response, Response.failed,
  Response.answered, Quote, no_quote, quote, failure, base_url, chain_id_map, invalid_chain,
  info_part, part_or_empty, is_empty_coin, is_dubious, new_coin, is_accepted, status_and_body,
  report, refused, token_url, get_current_price,
}
use token_price_proxy.GeckoTerminal.Pools.{last_part, process_pool_data}

-- What the historical prices call besides. `stored_prices` is GetHistoricalPrices, `get_text` the Get
-- of a key, none after an error, `parse_cached` json.Unmarshal, `print` json.Marshal, and
-- `set_historical` SetHistoricalPriceCache.
pub record Archive (W F : Type 0) : Type 0 where
  pub terminal : Terminal W F
  pub stored_prices : List String → List ℕ → W → (Error × List (String × String)) × W
  pub get_text : String → W → Option String × W
  pub set_text : String → String → W → W
  pub parse_cached : String → Option (Json F)
  pub print : Json F → String
  pub set_historical : String → String → String → W → W
  pub to_lower : String → String

-- extractPoolAddress
abbrev pub extract_pool_address : String → String
extract_pool_address pool_id = last_part (split b'_' pool_id)

abbrev pub pool_key : String → String
pool_key pool_address = str_append "geckoterminal:tokenPools:poolInfo:" pool_address

abbrev pub token_key : String → String → String
token_key network address =
    str_append "geckoterminal:token:tokenInfo:" (str_append network (str_append ":" address))

module _ {W F : Type 0} (a : Archive W F) where
  -- A cached text that is read, or none where there is no text or it is no JSON.
  abbrev pub unmarshalled : Option String → Option (Json F)
  unmarshalled none = none
  unmarshalled (some text) = a.parse_cached text

  -- The arguments that one call hands on: the coin's id, the date, the network and the address.
  module _ (coin_id date network address chain_id : String) where
    abbrev pub pool_url : String → String
    pool_url pool_address = str_append base_url (
        str_append "networks/" (
          str_append network (
            str_append "/pools/"
              (str_append pool_address (str_append "?partner_api_key=" a.terminal.partner_key)))))

    abbrev pub bad_pool : ℕ → String → String
    bad_pool status body =
        str_append "failed to get pool info, " (status_and_body a.terminal status body)

    abbrev pub refused_pool : String → ℕ → String → W → Quote × W
    refused_pool url status body w = (
      failure (bad_pool status body),
      if eqb status 429
          then w
          else a.terminal.note_failure "GeckoTerminalService-GetHistoricalPrice-Pool"
              (report a.terminal url status body) w,
    )

    abbrev pub parsed_pool : String → Parsed F → W → Option (Quote × W)
    parsed_pool pool_address (unreadable e) w = some (failure e, w)
    parsed_pool pool_address (readable result) w =
        process_pool_data a.terminal result coin_id date network address pool_address
          (a.set_text (pool_key pool_address) (a.print result) w)

    unfoldable pub pool_answered : String → Response × W → Option (Quote × W)
    pool_answered pool_address (failed e, w) = some (failure e, w)
    pool_answered pool_address (answered status body, w) =
        if is_accepted a.terminal status
        then parsed_pool pool_address (a.terminal.parse body) w
        else some (refused_pool (pool_url pool_address) status body w)

    abbrev pub from_cached_pool : String → Option (Json F) → W → Option (Quote × W)
    from_cached_pool pool_address none w =
        pool_answered pool_address (a.terminal.request (pool_url pool_address) w)
    from_cached_pool pool_address (some result) w =
        process_pool_data a.terminal result coin_id date network address pool_address w

    -- The price of the first of the pools.
    abbrev pub price_of_pool : String → W → Option (Quote × W)
    price_of_pool pool_address w =
        let cached = a.get_text (pool_key pool_address) w in
        from_cached_pool pool_address (unmarshalled cached.0) cached.1

    abbrev pub top_pool : Option (List (Json F)) → W → Option (Quote × W)
    top_pool none w = some (no_quote, w)
    top_pool (some []) w = some (no_quote, w)
    top_pool (some (first ∷ pools)) w =
        string_of (child "id" (some first)) >>= λ id. price_of_pool (extract_pool_address id) w

    -- The coin is inserted unless it is known; an error of the insertion is not looked at.
    abbrev pub known_coin : Fields F → (Error × Option Coins) × W → Option Quote × W
    known_coin attributes ((some e, found), w) = (some (failure e), w)
    known_coin attributes ((none, found), w) = (
      none,
      if is_empty_coin found
          then (a.terminal.upsert_coin
              (new_coin a.terminal coin_id address chain_id network attributes) w).1
          else w,
    )

    abbrev pub unless_dubious : Fields F → Option String → W → Option Quote × W
    unless_dubious attributes none w = known_coin attributes (a.terminal.coin_by_id coin_id w)
    unless_dubious attributes (some price_usd) w =
        if is_dubious a.terminal (string_of (at_key "total_reserve_in_usd" attributes)) price_usd
        then (some no_quote, w)
        else known_coin attributes (a.terminal.coin_by_id coin_id w)

    -- What the attributes of the token end the call with, if anything.
    abbrev pub token_checked : Option (Fields F) → W → Option Quote × W
    token_checked none w = (none, w)
    token_checked (some attributes) w =
        unless_dubious attributes (string_of (at_key "price_usd" attributes)) w

    abbrev pub then_pool : Fields F → Option Quote × W → Option (Quote × W)
    then_pool token (some q, w) = some (q, w)
    then_pool token (none, w) =
        top_pool (list_of (child "data" (child "top_pools" (at_key "relationships" token)))) w

    abbrev pub with_token : Option (Fields F) → W → Option (Quote × W)
    with_token none w = some (no_quote, w)
    with_token (some token) w =
        then_pool token (token_checked (object_of (at_key "attributes" token)) w)

    -- processTokenData
    unfoldable pub process_token_data : Json F → W → Option (Quote × W)
    process_token_data token_data w = with_token (object_of (child "data" (some token_data))) w
