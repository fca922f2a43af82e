-- ===== src/GeckoTerminal/History/Days.antt =====
-- GetHistoricalPrice of internal/module/price/service/gecko_terminal_service.go.
use token_price_proxy.Prelude.{
  ℕ, String, str_append, Bool, true, false, Option, none, some, List, [], ◌∷◌, ◌==◌, if◌then◌else◌,
}
use token_price_proxy.Prelude.Maps.{lookup}
use token_price_proxy.Prelude.Panic.{◌>>=◌}
use token_price_proxy.PriceService.{is_set, join_id}
use token_price_proxy.CoinRepository.World.{Error}
use token_price_proxy.Json.{Json}
use token_price_proxy.GeckoTerminal.{
  Parsed, Parsed.unreadable, Parsed.readable, Response, Response.failed, Response.answered, Quote,
  quote, failure, chain_id_map, invalid_chain, info_part, part_or_empty, is_accepted, refused,
  token_url, get_current_price,
}
use token_price_proxy.GeckoTerminal.History.{Archive, token_key, unmarshalled, process_token_data}

module _ {W F : Type 0} (a : Archive W F) where
  -- `err != nil && price != nil && *price != ""`
  abbrev pub is_priced_error : Option String → Error → Bool
  is_priced_error price none = false
  is_priced_error price (some e) = is_set price

  abbrev pub text_or_empty : Option String → String
  text_or_empty none = ""
  text_or_empty (some s) = s

  -- The price of today is the current one.
  unfoldable pub price_of_today : String → String → Quote × W → Quote × W
  price_of_today coin_id date (found, w) = (
    found,
    if is_priced_error found.price found.error
        then a.set_historical coin_id date (text_or_empty found.price) w
        else w,
  )

  module _ (coin_id date network address full_address chain_id : String) where
    abbrev pub parsed_token : Parsed F → W → Option (Quote × W)
    parsed_token (unreadable e) w = some (failure e, w)
    parsed_token (readable result) w =
        process_token_data a coin_id date network address chain_id result
          (a.set_text (token_key network full_address) (a.print result) w)

    unfoldable pub token_answered : Response × W → Option (Quote × W)
    token_answered (failed e, w) = some (failure e, w)
    token_answered (answered status body, w) =
        if is_accepted a.terminal status
        then parsed_token (a.terminal.parse body) w
        else some (
            refused a.terminal "GeckoTerminalService-GetHistoricalPrice"
              (token_url a.terminal network address) status body w)

    abbrev pub fetch_token : W → Option (Quote × W)
    fetch_token w = token_answered (a.terminal.request (token_url a.terminal network address) w)

    -- `err == nil && price != nil`, or else the request.
    abbrev pub unless_priced : Option String → Error → W → Option (Quote × W)
    unless_priced (some p) none w = some (quote p, w)
    unless_priced (some p) (some e) w = fetch_token w
    unless_priced none e w = fetch_token w

    abbrev pub from_cached_token : Option (Json F) → W → Option (Quote × W)
    from_cached_token none w = fetch_token w
    from_cached_token (some result) w =
        process_token_data a coin_id date network address chain_id result w >>= λ out.
        unless_priced out.0.price out.0.error out.1

    unfoldable pub price_of_day : W → Option (Quote × W)
    price_of_day w =
        if date == a.terminal.day_of (a.terminal.now w)
        then some
            (price_of_today coin_id date (get_current_price a.terminal chain_id address true w))
        else (let cached = a.get_text (token_key network full_address) w in
            from_cached_token (unmarshalled a cached.0) cached.1)

    abbrev pub unless_found : Option String → W → Option (Quote × W)
    unless_found none w = price_of_day w
    unless_found (some price) w = some (quote price, w)

    abbrev pub unless_stored : (Error × List (String × String)) × W → Option (Quote × W)
    unless_stored ((some e, prices), w) = price_of_day w
    unless_stored ((none, prices), w) =
        unless_found (lookup (str_append coin_id (str_append "_" date)) prices) w

  abbrev pub historical_at : Option String → String → String → ℕ → W → Option (Quote × W)
  historical_at none chain_id address time w = some (failure (invalid_chain chain_id), w)
  historical_at (some network) chain_id address time w =
      let coin_id = join_id chain_id (a.to_lower address) in
      let date = a.terminal.day_of time in
      unless_stored coin_id date network (part_or_empty (info_part network address 1)) address
        chain_id (a.stored_prices (coin_id ∷ []) (time ∷ []) w)

  -- GetHistoricalPrice
  unfoldable pub terminal_historical_price : String → String → ℕ → W → Option (Quote × W)
  terminal_historical_price chain_id address time w =
      historical_at (lookup chain_id chain_id_map) chain_id address time w
