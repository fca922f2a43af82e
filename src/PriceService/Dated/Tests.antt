-- ===== src/PriceService/Dated/Tests.antt =====
-- GetBatchHistoricalPrice at a concrete request: one coin with a price, and one that no source
-- knows.
use token_price_proxy.Prelude.{
  ℕ, String, true, false, Option, none, some, [], ◌∷◌, ◌≡◌, refl, ◌≢◌, ◌+◌,
}
use token_price_proxy.PriceService.{
  PriceResult, Coin, Source, Source.coingecko, Result.ok, Result.err,
}
use token_price_proxy.Prelude.Text.{split}
use token_price_proxy.Prelude.Maps.{lookup, insert, add, delete}
use token_price_proxy.PriceService.Fetch.Plan.{make_ids, index_map, part, coin_maps, add_coin}
use token_price_proxy.PriceService.Dated.{
  DatedServices, dated_ids, fill_sets, add_source, dated_stages, dated_stage,
  batch_query_historical, gather_dated, gather_dated_id, skip_dated, push_dated, receive_dated,
  store_all_dated, store_dated, store_shared, delete_dated,
}
use token_price_proxy.PriceService.Dated.Finish.{
  DatedQuery, dated_row, note_dated, dated_finish, dated_finish_one, historical_rows_from,
  get_batch_historical_price,
}

abbrev known : Coin
known = record {
  id = "1_0xa";
  address = "0xa";
  chain_id = "1";
  price_source = some "coingecko";
  last_price_source = none;
}

abbrev priced_at : PriceResult
priced_at = record {
  chain_id = "1";
  address = "0xa";
  price = some "2.5";
  symbol = none;
  network = none;
  time_stamp = "9";
  request_status = none;
  serial = 0;
}

-- CoinGecko knows the first token; the world counts the log entries.
abbrev shop : DatedServices ℕ
shop = record {
  to_lower = λ t. t;
  show_time = λ t. "9";
  order = λ ids. ids;
  coins_by_id = λ ids w. (ok (known ∷ []), w);
  historical_prices =
      λ source b times w. (elim source [ coingecko ↦ ok (priced_at ∷ []) | _ ↦ err "no price" ], w);
  is_throttled = λ key w. (false, w);
  throttle = λ key status w. (true, w);
  save_log = λ chain address time w. w + 1;
  prohibited_historical = λ source. false;
}

abbrev two_tokens : DatedQuery
two_tokens = record {
  chain_ids = "1" ∷ "1" ∷ [];
  symbols = "A" ∷ [];
  networks = [];
  times = 9 ∷ 9 ∷ [];
  dates = "d1" ∷ "d2" ∷ [];
}

abbrev Known : Option String → Type 0
Known p = p ≢ some "0"

-- The first token has its price, the second none, and one entry is logged.
two_rows :
    get_batch_historical_price shop two_tokens ("0xa" ∷ "0xb" ∷ []) 0
    ≡ some (
      ok (
          record priced_at { serial = 0; time_stamp = "d1"; symbol = some "A" }
          ∷ record priced_at { address = "0xb"; price = none; time_stamp = "d2"; serial = 1 }
          ∷ []),
      1,
    )
unfolding get_batch_historical_price dated_ids make_ids historical_rows_from fill_sets part split
    dated_stages dated_stage lookup coin_maps add_coin insert add_source add batch_query_historical
    gather_dated gather_dated_id delete dated_finish dated_finish_one dated_row note_dated
    delete_dated push_dated receive_dated skip_dated store_all_dated store_dated store_shared
    index_map
two_rows = refl
