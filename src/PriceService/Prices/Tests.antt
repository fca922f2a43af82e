-- ===== src/PriceService/Prices/Tests.antt =====
-- Concrete runs of GetPrice and GetBatchPrice: the world is the maps of the callers.
use token_price_proxy.Prelude.{◌≡◌, refl, Bool, true, false, none, some, [], ◌∷◌, ◌++◌, arith}
use token_price_proxy.Prelude.Maps.{lookup, insert, erase}
use token_price_proxy.Prelude.Panic.{Sure}
use token_price_proxy.PriceService.{Result, ok, err}
use token_price_proxy.PriceService.Waiting.{Registry, ids_of, wait_for, register_price, leave}
use token_price_proxy.PriceService.Prices.{
  one_ask, Calls, ask, price_request, get_price, get_batch_price,
}
use token_price_proxy.PriceService.Prices.Leaves.{
  IsGone, get_price-leaves, get_batch_price-leaves, get_price-stays,
}

-- Each request times out, and the sources have no price; `answer` is that of the queue.
abbrev listing : Result Bool → Calls Registry
listing answer = record {
  to_lower = λ s. s;
  hash = λ parts. "h";
  fetch = λ q c x w. some (ok [], w);
  wait_for_result = λ c a w. ((none, false), w);
  read_cached = λ at w. (ok (none ∷ []), w);
  wait_for_batch_results = λ q l w. some (ok [], w);
  new_id = λ w. ("id", w);
  registry = λ w. w;
  set_registry = λ g w. g;
  enqueue = λ key info w. (answer, w);
  enqueue_all = λ keys infos w. (ok 1, w);
  answered = λ id w. (false, w);
}

-- Another caller waits for the same key.
abbrev one_waits : Registry
one_waits = record {
  keys_request_ids = ("h", "other" ∷ []) ∷ [];
  request_id_keys = ("other", "h" ∷ []) ∷ [];
  channels = ("other", 0) ∷ [];
}

-- After the time-out the id of the caller still stands under its key.
timed_out :
    get_price (listing (ok true)) "1" "0xa" "A" "" true true one_waits
    ≡ some (ok none, record one_waits { keys_request_ids = ("h", "other" ∷ "id" ∷ []) ∷ [] })
unfolding get_price price_request ask register_price leave wait_for lookup insert erase
timed_out = refl

get_price-leaves_example :
    Sure
      (λ out. IsGone "id" out.1)
      (get_price (listing (ok true)) "1" "0xa" "A" "" true true one_waits)
get_price-leaves_example =
    get_price-leaves (listing (ok true)) (λ g w. refl) "1" "0xa" "A" "" true one_waits
      (λ c x w. (_, refl, _)) refl

get_batch_price-leaves_example :
    Sure
      (λ out. IsGone "id" out.1)
      (get_batch_price (listing (ok true)) (one_ask "1" "0xa" "A" "") true true one_waits)
get_batch_price-leaves_example =
    get_batch_price-leaves (listing (ok true)) (λ g w. refl) (one_ask "1" "0xa" "A" "") one_waits
      (omega arith) (λ c x w. (_, refl, _)) (λ l w. (_, refl, _))

get_price-stays_example :
    Sure
      (λ out.
        (out.0 ≡ err "redis: error")
        × (lookup "h" out.1.keys_request_ids
            ≡ some (ids_of (lookup "h" one_waits.keys_request_ids) ++ "id" ∷ []))
        × (lookup "id" out.1.channels ≡ none)
        × (lookup "id" out.1.request_id_keys ≡ none))
      (get_price (listing (err "redis: error")) "1" "0xa" "A" "" true true one_waits)
get_price-stays_example =
    get_price-stays (listing (err "redis: error")) (λ g w. refl) "1" "0xa" "A" "" true one_waits
      one_waits one_waits (register_price "id" "h" one_waits) "id" "h" "redis: error" refl refl refl
      refl refl
