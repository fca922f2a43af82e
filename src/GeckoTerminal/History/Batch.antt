-- ===== src/GeckoTerminal/History/Batch.antt =====
-- GetBatchHistoricalPrices of internal/module/price/service/gecko_terminal_service.go. Its goroutines
-- run one after another, in the order of the tokens.
use token_price_proxy.Prelude.{
  ℕ, ◌+◌, String, str_append, not, ◌||◌, Option, none, some, List, [], ◌∷◌, if◌then◌else◌, length,
  eqb,
}
use token_price_proxy.Prelude.Maps.{lookup}
use token_price_proxy.Prelude.Panic.{◌>>=◌}
use token_price_proxy.PriceService.{
  PriceResult, Batch, Result, Result.ok, Result.err, get_or_nil, join_id,
}
use token_price_proxy.CoinRepository.World.{Error}
use token_price_proxy.GeckoTerminal.{Quote}
use token_price_proxy.GeckoTerminal.History.{Archive}
use token_price_proxy.GeckoTerminal.History.Days.{terminal_historical_price}

-- `coinIds`
abbrev pub stored_ids : List String → List String → List String
stored_ids (chain_id ∷ chain_ids) (address ∷ addresses) =
    join_id chain_id address ∷ stored_ids chain_ids addresses
stored_ids chain_ids addresses = []

-- After an error the price is the text that the map did not have.
abbrev pub price_or_missing : Quote → Option String
price_or_missing q = missing_after q.price q.error
  where
    missing_after : Option String → Error → Option String
    missing_after price none = price
    missing_after price (some e) = some ""

module _ {W F : Type 0} (a : Archive W F) (q : Batch) where
  abbrev pub historical_result : ℕ → String → String → ℕ → Option String → PriceResult
  historical_result i chain_id address time price = record {
    chain_id = chain_id;
    address = address;
    price = price;
    symbol = get_or_nil q.symbols i;
    network = get_or_nil q.networks i;
    time_stamp = a.terminal.show time;
    request_status = none;
    serial = 0;
  }

  -- The price of one token, which is stored or asked for.
  abbrev pub stored_or_asked : Option String → String → String → ℕ → W → Option (Option String × W)
  stored_or_asked (some price) chain_id address time w = some (some price, w)
  stored_or_asked none chain_id address time w =
      terminal_historical_price a chain_id address time w >>= λ out.
      some (price_or_missing out.0, out.1)

  -- The loop over the tokens, from position `i`.
  unfoldable pub historical_results :
      List (String × String)
      → ℕ
      → List String
      → List String
      → List ℕ
      → W
      → Option (List PriceResult × W)
  historical_results stored i (chain_id ∷ chain_ids) (address ∷ addresses) (time ∷ times) w =
      let date = a.terminal.day_of time in
      let found = lookup (str_append (join_id chain_id address) (str_append "_" date)) stored in
      stored_or_asked found chain_id address time w >>= λ out.
      historical_results stored (i + 1) chain_ids addresses times out.1 >>= λ rest.
      some (historical_result i chain_id address time out.0 ∷ rest.0, rest.1)
  historical_results stored i chain_ids addresses times w = some ([], w)

  abbrev pub after_stored :
      List ℕ → (Error × List (String × String)) × W → Option (Result (List PriceResult) × W)
  after_stored times ((some e, stored), w) = some (err (str_append "批量查询历史价格失败: " e), w)
  after_stored times ((none, stored), w) =
      historical_results stored 0 q.chain_ids q.addresses times w >>= λ rows.
      some (ok rows.0, rows.1)

  -- GetBatchHistoricalPrices
  unfoldable pub get_batch_historical_prices : List ℕ → W → Option (Result (List PriceResult) × W)
  get_batch_historical_prices times w =
      if not (eqb (length q.chain_ids) (length q.addresses))
        || not (eqb (length q.addresses) (length times))
      then some (err "chainIds, addresses and unixTimeStamps must have the same length", w)
      else after_stored times (a.stored_prices (stored_ids q.chain_ids q.addresses) times w)
