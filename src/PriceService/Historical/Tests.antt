-- ===== src/PriceService/Historical/Tests.antt =====
-- Concrete runs of GetHistoricalPrice: a world that logs the sources asked, of which DefiLlama has
-- a price.
use token_price_proxy.Prelude.{ℕ, ◌≡◌, refl, false, none, some, List, [], ◌∷◌, inl, inr}
use token_price_proxy.PriceService.{Coin, Result.ok}
use token_price_proxy.PriceService.Historical.{
  HistorySource, from_coingecko, from_defillama, from_geckoterminal, Answer, Place, History,
  from_source, default_sources, last_source, sources, historical_from, get_historical_price,
}
use token_price_proxy.PriceService.Historical.Order.{
  first_good, order, unpriced, Clean, historical-first_good,
}

abbrev answer_of : HistorySource → Answer
answer_of from_coingecko = record { price = none; error = some "status code: 429" }
answer_of from_defillama = record { price = some "7"; error = none }
answer_of from_geckoterminal = record { price = none; error = none }

abbrev logging : History (List HistorySource) ℕ
logging = record {
  to_lower = λ s. s;
  date = λ t. "01-01-2024";
  coin_by_id = λ id w. (
    ok (
        some (record {
          id = "1_0xa";
          address = "0xaa";
          chain_id = "1";
          price_source = some "geckoterminal";
          last_price_source = none;
        })),
    w,
  );
  ask = λ source p t w. (answer_of source, source ∷ w);
  is_throttled = λ key w. (false, w);
  throttle = λ key status w. (false, w);
  save_log = λ p t w. w;
  prohibited_historical = λ source. false;
}

abbrev request : Place
request = record { chain_id = "1"; address = "0xa"; symbol = ""; network = "" }

-- GeckoTerminal, which the coin names, has no price, CoinGecko fails, and DefiLlama answers.
run :
    get_historical_price logging 0 request []
    ≡ (ok (some "7"), from_defillama ∷ from_coingecko ∷ from_geckoterminal ∷ [])
unfolding get_historical_price historical_from sources last_source default_sources from_source
run = refl

logging-Clean : Clean logging 0
logging-Clean from_coingecko p w = inr refl
logging-Clean from_defillama p w = inl refl
logging-Clean from_geckoterminal p w = inl refl

abbrev coin : Coin
coin = record {
  id = "1_0xa";
  address = "0xaa";
  chain_id = "1";
  price_source = some "geckoterminal";
  last_price_source = none;
}

historical-first_good_example :
    get_historical_price logging 0 request []
    ≡ first_good
        (order logging 0 (record request { address = "0xaa" }) (some coin))
        (unpriced logging 0 "1_0xaa_01-01-2024" (record request { address = "0xaa" }))
        (answer_of from_coingecko)
        []
historical-first_good_example =
    historical-first_good logging 0 logging-Clean request [] [] [] (some coin) refl refl
      (answer_of from_coingecko)
