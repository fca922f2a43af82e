-- ===== src/RateLimiter.antt =====
-- internal/module/price/service/rate_limiter_service.go and
-- internal/module/price/middleware/rate_limit_middleware.go.
pub mod Window
pub mod Gate
mod Tests
use token_price_proxy.Prelude.{
  ℕ, String, str_append, Bool, true, false, not, Option, none, some, ◌==◌, ◌&&◌, if◌then◌else◌, leb,
  eqb,
}
use token_price_proxy.Redis.Commands.{
  Value, number, Keyspace, Reply, ok, err, Command, get, incr, expire,
}
use token_price_proxy.Throttler.{second}
use token_price_proxy.Redis.Run.{Prog, done, ◌>>=◌, ◌>>◌, command}

abbrev pub limit_key : String → String
limit_key token = str_append "rate_limit:" token

-- `redis.call("INCR", key)` and `redis.call("EXPIRE", key, interval)`; a failing call ends the
-- script with an error.
count_request : String → ℕ → Command ℕ
count_request key interval ks = elim (incr key ks).0 [
  | err ↦ (err, ks)
  | ok n ↦ (ok 1, (expire key interval (incr key ks).1).1)
]

-- `current and tonumber(current) >= limit`; a comparison with nil ends the script with an error.
after_get : String → ℕ → ℕ → Reply (Option Value) → Command ℕ
after_get key limit interval (ok none) ks = count_request key interval ks
after_get key limit interval (ok (some (number n))) ks =
    if leb limit n then (ok 0, ks) else count_request key interval ks
after_get key limit interval _ ks = (err, ks)

-- The Lua script of Allow, which the server runs as one command.
pub allow_script : String → ℕ → ℕ → Command ℕ
unfolding count_request after_get
allow_script key limit interval ks = after_get key limit interval (get key ks).0 ks

-- `rate`: the bound on the count, a `float64` in the source, rounded up.
pub record AppToken : Type 0 where
  pub name : String
  pub token : String
  pub rate : ℕ

pub data Allowed : Type 0 where
  answer : Bool → Allowed
  failed : Allowed

-- `allowed == 1`
abbrev pub allowed_of : Reply ℕ → Allowed
allowed_of err = failed
allowed_of (ok n) = answer (eqb n 1)

-- `find_token` is AppTokenRepository.GetAppTokenByToken, `default_rate` is
-- AllowApiKeyNilRateLimiter.
module _ (find_token : String → Prog (Reply AppToken)) (default_rate : ℕ) where
  pub app_token : String → Prog (Reply AppToken)
  app_token token =
      if token == ""
      then done (ok (record { name = ""; token = "DEFAULT_TOKEN"; rate = default_rate }))
      else find_token token

  -- Allow
  pub allow : String → Prog Allowed
  allow token = do
    r ← app_token token
    elim r [
      | err ↦ done failed
      | ok t ↦ do
        reply ← command (allow_script (limit_key token) t.rate second)
        done (allowed_of reply)
    ]

pub record Request : Type 0 where
  pub method : String
  pub header_key : String
  pub query_key : String

pub data Outcome : Type 0 where
  no_content forbidden invalid_key too_many : Outcome
  next : Outcome

abbrev pub api_key : Request → String
api_key req = if req.header_key == "" then req.query_key else req.header_key

abbrev outcome_of : Allowed → Outcome
outcome_of failed = invalid_key
outcome_of (answer true) = next
outcome_of (answer false) = too_many

-- RateLimitMiddleware: `next` is the call of the next handler, the others the status that ends the
-- request: 204, 403, 500 and 429. `allow_nil` is AllowApiKeyNil.
module _ (find_token : String → Prog (Reply AppToken)) (default_rate : ℕ) (allow_nil : Bool) where
  pub rate_limit_middleware : Request → Prog Outcome
  rate_limit_middleware req =
      if req.method == "OPTIONS"
      then done no_content
      else if (api_key req == "") && not allow_nil
      then done forbidden
      else do a ← allow find_token default_rate (api_key req); done (outcome_of a)
