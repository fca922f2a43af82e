-- ===== src/PriceService/Fetch/Returns.antt =====
-- FetchAndProcessBatchPrices as a whole.
use token_price_proxy.Prelude.{◌≤◌, String, Bool, Option, List, length}
use token_price_proxy.Prelude.Panic.{Sure, Sure-mono}
use token_price_proxy.PriceService.{PriceResult, Result, Result.ok, Result.err, Services}
use token_price_proxy.PriceService.Fetch.Finish.{Query, fetch}
use token_price_proxy.PriceService.Fetch.Laws.{Priced, Keeps}
use token_price_proxy.PriceService.Fetch.Rows.{Outcome, CoinsFail, DashedCoins, fetch-Sure}

abbrev Anything : {A : Type 0} → A → Type 0
Anything _ = Unit

any_price : (r : Result (List PriceResult)) → Priced Anything r
any_price (ok rs) = go rs
  where
    go : (rs : List PriceResult) → Priced Anything (ok rs)
    go List.[] = _
    go (List.◌∷◌ r rs) = (_, go rs)
any_price (err e) = _

-- For a request with a chain for each address, and a database whose coins have ids with an
-- underscore, the function never indexes out of range. It returns the error of the database, or
-- one row for each address in the order of the request, with its position as the serial, the
-- address as the request spelled it, and the symbol and the network of that position.
pub fetch-Outcome :
    {W : Type 0} (s : Services W) (q : Query) (addresses : List String) (is_cache : Bool)
    (exclude_route : Bool) (w : W)
    → length addresses ≤ length q.chain_ids
    → ((ids : List String) → DashedCoins (s.coins_by_id ids w).0)
    → Sure
        (λ out. Outcome q Anything addresses (CoinsFail s q addresses w) out.0)
        (fetch s q addresses is_cache exclude_route w)
fetch-Outcome s q addresses is_cache exclude_route w hl hc =
    Sure-mono _ _ _
      (fetch-Sure s exclude_route Anything Anything
        (record {
          keeps_coins = λ _ _ _. _;
          keeps_prices = λ source b c w _ _. (_, any_price (s.current_prices source b c w).0);
          keeps_throttled = λ _ _ _. _;
          keeps_throttle = λ _ _ _ _. _;
          keeps_log = λ _ _ _ _. _;
          missing = _;
        })
        q addresses is_cache w hl hc _)
      (λ out h. h.0)

-- A property of the world that every call keeps, but possibly those of the sources that the
-- configuration prohibits, and of the route service where the request excludes it, holds after
-- the function: it never calls these. And a property of prices that holds of the prices answered
-- by the sources called, and of a missing price, holds of each row's price.
pub fetch-keeps :
    {W : Type 0} (s : Services W) (I : W → Type 0) (Q : Option String → Type 0)
    (exclude_route : Bool)
    → Keeps s exclude_route I Q
    → (q : Query) (addresses : List String) (is_cache : Bool) (w : W)
    → length addresses ≤ length q.chain_ids
    → ((ids : List String) → DashedCoins (s.coins_by_id ids w).0)
    → I w
    → Sure
        (λ out. Outcome q Q addresses (CoinsFail s q addresses w) out.0 × I out.1)
        (fetch s q addresses is_cache exclude_route w)
fetch-keeps s I Q exclude_route k q addresses is_cache w hl hc h =
    fetch-Sure s exclude_route I Q k q addresses is_cache w hl hc h
