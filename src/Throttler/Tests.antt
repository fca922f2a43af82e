-- ===== src/Throttler/Tests.antt =====
-- Runs of the throttler, and its theorems at concrete inputs.
use token_price_proxy.Prelude.{
  ap, ◌∙◌, ◌/◌, ◌+◌, ◌%◌, ◌≡◌, refl, String, Bool, ◌||◌, false, Option, some, none, [], ◌∷◌, leb,
  ltb, arith,
}
use token_price_proxy.Prelude.Maps.{contains}
use token_price_proxy.Prelude.Text.{split, first_part}
use token_price_proxy.Redis.Commands.{
  Keyspace, Entry, string_of, Reply, ok, err, put, number, elapse, count_of,
}
use token_price_proxy.Redis.Run.{Prog, done, ◌>>=◌, ideal, run, eval}
use token_price_proxy.CoinRepository.{coin_key, target}
use token_price_proxy.Throttler.Alerts.{Serves, alerts, alerts_every_third}
use token_price_proxy.CoinRepository.Tests.{tags}
use token_price_proxy.CoinRepository.Reads.{
  coin_at, answer, exists_of, check_coin_exists, get_coins_by_one_id,
}
use token_price_proxy.Throttler.{
  minute, throttle_key, count_key, existence_key, expire_first, is_coins_throttled, coins_throttle,
}
use token_price_proxy.Throttler.Cycle.{held, counted_at, step_hold}
use token_price_proxy.Throttler.Holds.{call_hold, coins_throttle-holds, coins_throttle-step}

-- CheckCoinExists of the coin repository; a call that has not returned after five rounds counts as
-- an error.
abbrev returned_in_time : Option (Reply Bool) → Reply Bool
returned_in_time none = err
returned_in_time (some r) = r

abbrev repository_check : String → Prog (Reply Bool)
repository_check id = check_coin_exists tags 5 id >>= λ r. done (returned_in_time r)

abbrev empty : Keyspace
empty k = none

abbrev coin : String
coin = "1_0xab"

-- Two failures are counted, and a price has been stored; no coin is cached.
abbrev two_failures : Keyspace
two_failures =
    put (count_key coin) (some (record { value = number 2; ttl = some minute }))
      (put (existence_key coin) (some (record { value = number 1; ttl = none })) empty)

coin_unknown : (eval (repository_check coin) (counted_at coin 2 two_failures)).0 ≡ ok false
unfolding check_coin_exists get_coins_by_one_id expire_first
coin_unknown = refl

-- The third failure, with the checker of the program.
coins_throttle-holds_example :
    (eval
      (is_coins_throttled ("128" ∷ []) coin)
      (elapse 59999 (run ideal (coins_throttle repository_check coin "200") two_failures).1)).0
    ≡ (contains (first_part (split b'_' coin)) ("128" ∷ [])
        || ltb 59999 (call_hold repository_check coin "200" 2 false two_failures))
coins_throttle-holds_example =
    coins_throttle-holds repository_check coin ideal ("128" ∷ []) "200" 2 false two_failures 59999
      refl coin_unknown refl (omega arith)

coins_throttle-step_example :
    ((run ideal (coins_throttle repository_check coin "200") two_failures).0 ≡ leb 3 (2 + 1))
    × (count_of
          ((run ideal (coins_throttle repository_check coin "200") two_failures).1 (count_key coin))
        ≡ some ((2 + 1) % 3))
    × ((run ideal (coins_throttle repository_check coin "200") two_failures).1 (throttle_key coin)
        ≡ held (step_hold repository_check coin 2 false two_failures))
coins_throttle-step_example =
    coins_throttle-step repository_check coin ideal "200" 2 false two_failures refl refl
      coin_unknown refl (omega arith)

-- The checker of the program answers for a coin that is not cached.
abbrev NotCached : Keyspace → Type 0
NotCached ks = ks (coin_key coin) ≡ none

check_uncached : (ks : Keyspace) → NotCached ks → eval (repository_check coin) ks ≡ (ok false, ks)
unfolding check_coin_exists get_coins_by_one_id
check_uncached ks h =
    ap
      (λ (o : Option Entry).
        let coin' = coin_at tags (string_of o) in
        eval
          ((answer tags coin' (target coin'.return_coins_id) (get_coins_by_one_id tags 4) >>= λ r.
              done (exists_of tags r))
            >>= λ r. done (returned_in_time r))
          ks)
      h

repository_serves : Serves repository_check coin NotCached
repository_serves = record {
  answers = λ ks h. (
    false,
    ap (λ p. p.0) (check_uncached ks h),
    ap (λ p. p.1 (coin_key coin)) (check_uncached ks h) ∙ h,
  );
  apart = λ ks ks' h same. same (coin_key coin) refl refl refl ∙ h;
}

alerts_every_third_example :
    (run ideal (alerts repository_check coin "200" 7) two_failures).0 ≡ (2 + 7) / 3
alerts_every_third_example =
    alerts_every_third repository_check coin NotCached ideal "200" 7 2 two_failures
      repository_serves refl refl refl refl (omega arith)
