-- ===== src/RateLimiter/Tests.antt =====
-- Runs of the rate limiter, and its theorems at concrete inputs.
use token_price_proxy.Prelude.{◌≡◌, ◌↔◌, refl, String, true, false, not, none, ◌==◌, ◌&&◌}
use token_price_proxy.Redis.Commands.{Keyspace, Reply, err}
use token_price_proxy.Redis.Run.{Prog, done, ideal, run}
use token_price_proxy.RateLimiter.{
  AppToken, answer, app_token, allow, allow_script, Request, next, rate_limit_middleware,
}
use token_price_proxy.RateLimiter.Gate.{middleware-next_iff}

abbrev no_token : String → Prog (Reply AppToken)
no_token token = done err

abbrev anonymous : AppToken
anonymous = record { name = ""; token = "DEFAULT_TOKEN"; rate = 2 }

abbrev empty : Keyspace
empty k = none

abbrev plain_get : Request
plain_get = record { method = "GET"; header_key = ""; query_key = "" }

middleware-next_iff_example :
    ((run ideal (rate_limit_middleware no_token 2 true plain_get) empty).0 ≡ next) ↔ (
      (("GET" == "OPTIONS") ≡ false)
      × ((("" == "") && not true) ≡ false)
      × ((run ideal (allow no_token 2 "") empty).0 ≡ answer true))
middleware-next_iff_example = middleware-next_iff ideal no_token 2 true plain_get empty

first_passes : (run ideal (rate_limit_middleware no_token 2 true plain_get) empty).0 ≡ next
unfolding rate_limit_middleware allow app_token allow_script run
first_passes = refl
