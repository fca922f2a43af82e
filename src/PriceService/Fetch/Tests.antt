-- ===== src/PriceService/Fetch/Tests.antt =====
-- Concrete runs of FetchAndProcessBatchPrices: a world that logs the sources asked, a database
-- with one coin, and sources that price one address.
use token_price_proxy.Prelude.{
  ◌≡◌, refl, String, Bool, true, false, ◌||◌, ◌==◌, Option, none, some, List, [], ◌∷◌, ◌⊎◌, inl,
  inr, if◌then◌else◌, arith,
}
use token_price_proxy.Prelude.Panic.{Sure}
use token_price_proxy.Prelude.Maps.{lookup, insert, add, delete}
use token_price_proxy.Prelude.Text.{split}
use token_price_proxy.PriceService.{
  PriceResult, Coin, Source, Source.coingecko, Source.geckoterminal, Source.defillama,
  Source.coin_gecko_on_chain, Source.dodoex_route, Result.ok, Services,
}
use token_price_proxy.PriceService.Fetch.Plan.{
  part, make_ids, index_map, no_coins, add_coin, coin_maps, Sets, no_sets, add_named, add_known,
  add_id, fill,
}
use token_price_proxy.PriceService.Fetch.Query.{
  Asked, Work, delete_key, store_aliases, skip, push, gather_id, gather, store, store_all, receive,
  batch_query, stage, stages,
}
use token_price_proxy.PriceService.Fetch.Finish.{
  Query, row, note, finish_one, finish, fetch_from, fetch,
}
use token_price_proxy.PriceService.Fetch.Laws.{Keeps, Priced}
use token_price_proxy.PriceService.Fetch.Rows.{Outcome, CoinsFail, DashedCoins}
use token_price_proxy.PriceService.Fetch.Returns.{fetch-Outcome, fetch-keeps}
use token_price_proxy.PriceService.Fetch.Forgets.{IsForgotten, answers, receive-forgets}

abbrev priced : PriceResult
priced = record {
  chain_id = "1";
  address = "0xa";
  price = some "2.5";
  symbol = none;
  network = none;
  time_stamp = "0";
  request_status = none;
  serial = 0;
}

abbrev coin : Coin
coin = record {
  id = "1_0xa";
  address = "0xa";
  chain_id = "1";
  price_source = none;
  last_price_source = some "defillama";
}

abbrev prices_of : Source → List PriceResult
prices_of defillama = priced ∷ []
prices_of _ = []

abbrev is_terminal : Source → Bool
is_terminal geckoterminal = true
is_terminal _ = false

abbrev logging : Services (List Source)
logging = record {
  to_lower = λ s. if s == "0xA" then "0xa" else s;
  order = λ ids. ids;
  coins_by_id = λ ids w. (ok (coin ∷ []), w);
  current_prices = λ source b c w. (ok (prices_of source), source ∷ w);
  is_throttled = λ key w. (false, w);
  throttle = λ key status w. (true, w);
  save_log = λ c a w. w;
  prohibited_current = is_terminal;
}

abbrev request : Query
request = record { chain_ids = "1" ∷ "56" ∷ []; symbols = "A" ∷ []; networks = [] }

abbrev addresses : List String
addresses = "0xA" ∷ "0xb" ∷ []

-- The source that the coin names prices the first address; CoinGecko is never asked, GeckoTerminal
-- is prohibited, and the others are asked for the second address.
run :
    fetch logging request addresses true false []
    ≡ some (
      ok (
          record priced { address = "0xA"; symbol = some "A" }
          ∷ record {
            chain_id = "56";
            address = "0xb";
            price = none;
            symbol = none;
            network = none;
            time_stamp = "0";
            request_status = none;
            serial = 1;
          }
          ∷ []),
      dodoex_route ∷ coin_gecko_on_chain ∷ defillama ∷ defillama ∷ [],
    )
unfolding fetch fetch_from finish finish_one row note stages stage batch_query receive store_all
    store store_aliases delete_key gather gather_id push skip fill add_id add_known add_named
    coin_maps add_coin index_map make_ids part lookup insert add delete split
run = refl

abbrev asked_terminal : List Source → Bool
asked_terminal [] = false
asked_terminal (s ∷ w) = is_terminal s || asked_terminal w

abbrev Unasked : List Source → Type 0
Unasked w = asked_terminal w ≡ false

abbrev Known : Option String → Type 0
Known p = (p ≡ none) ⊎ (p ≡ some "2.5")

logging-Keeps : Keeps logging true Unasked Known
logging-Keeps = record {
  keeps_coins = λ ids w h. h;
  keeps_prices = λ source b c w e h. keep source e.0 w h;
  keeps_throttled = λ key w h. h;
  keeps_throttle = λ key status w h. h;
  keeps_log = λ c a w h. h;
  missing = inl refl;
}
  where
    keep :
        (source : Source)
        → is_terminal source ≡ false
        → (w : List Source) → Unasked w
        → Unasked (source ∷ w) × Priced Known (ok (prices_of source))
    keep coingecko e w h = (h, _)
    keep geckoterminal e w h = ground (arith, e)
    keep defillama e w h = (h, (inr refl, _))
    keep coin_gecko_on_chain e w h = (h, _)
    keep dodoex_route e w h = (h, _)

coins-Dashed : (ids : List String) → DashedCoins (logging.coins_by_id ids []).0
unfolding split
coins-Dashed ids = omega arith

fetch-Outcome_example :
    Sure
      (λ out. Outcome request (λ _. Unit) addresses (CoinsFail logging request addresses []) out.0)
      (fetch logging request addresses true false [])
fetch-Outcome_example =
    fetch-Outcome logging request addresses true false [] (omega arith) coins-Dashed

fetch-keeps_example :
    Sure
      (λ out.
        Outcome request Known addresses (CoinsFail logging request addresses []) out.0
        × Unasked out.1)
      (fetch logging request addresses true true [])
fetch-keeps_example =
    fetch-keeps logging Unasked Known true logging-Keeps request addresses true [] (omega arith)
      coins-Dashed refl

abbrev asked : Asked
asked = record {
  chain_ids = "1" ∷ [];
  lower_addresses = "0xa" ∷ [];
  symbols = [];
  networks = [];
  is_cache = true;
  index_of = ("1_0xa", 0) ∷ [];
  maps = no_coins;
}

abbrev two_ids : Sets
two_ids = record no_sets { llama = "1_0xa" ∷ "1_0xb" ∷ [] }

abbrev before : Work (List Source)
before = record { results = []; sets = two_ids; world = [] }

abbrev after : Work (List Source)
after = record {
  results = ("1_0xa", priced) ∷ [];
  sets = record no_sets { llama = "1_0xb" ∷ [] };
  world = [];
}

received : receive logging asked (ok (priced ∷ []), []) before ≡ some after
unfolding receive store_all store store_aliases delete_key lookup insert delete
received = refl

receive-forgets_example :
    IsForgotten
      (λ key. answers key (ok (priced ∷ [])))
      two_ids
      (record no_sets { llama = "1_0xb" ∷ [] })
receive-forgets_example = receive-forgets logging asked (ok (priced ∷ []), []) before after received
