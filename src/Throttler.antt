-- ===== src/Throttler.antt =====
-- internal/module/shared/coins_throttler.go, with the price cache keys of
-- internal/module/shared/redis.go that it reads.
pub mod Keys
pub mod Cycle
pub mod Holds
pub mod Alerts
mod Tests
use token_price_proxy.Prelude.{
  ℕ, ◌*◌, String, str_append, Bool, true, false, not, Option, none, some, List, ◌==◌, if◌then◌else◌,
  leb, eqb,
}
use token_price_proxy.Prelude.Maps.{contains}
use token_price_proxy.Prelude.Text.{split, first_part}
use token_price_proxy.Redis.Commands.{Value, number, Reply, ok, err, get, set, incr, expire, del}
use token_price_proxy.Redis.Run.{Prog, done, send, ◌>>=◌, ◌>>◌, command}

-- Durations in milliseconds.
abbrev pub second : ℕ
second = 1000

abbrev pub minute : ℕ
minute = 60 * second

abbrev pub hour : ℕ
hour = 60 * minute

abbrev pub coins_throttle_prefix : String
coins_throttle_prefix = "coins_throttle:"

abbrev pub coins_throttle_count_prefix : String
coins_throttle_count_prefix = "coins_throttle_count:"

abbrev pub coins_throttle_duration : ℕ
coins_throttle_duration = 60 * 1 * second

abbrev pub coins_throttle_count_reset_duration : ℕ
coins_throttle_count_reset_duration = 30 * minute

abbrev pub coins_max_throttle_count : ℕ
coins_max_throttle_count = 3

-- SlackNotificationResetDuration of slack.go
abbrev pub slack_notification_reset_duration : ℕ
slack_notification_reset_duration = 60 * 24 * minute

abbrev pub throttle_key : String → String
throttle_key id = str_append coins_throttle_prefix id

abbrev pub count_key : String → String
count_key id = str_append coins_throttle_count_prefix id

-- GetAlertedKey
abbrev pub alerted_key : String → String
alerted_key id = if id == "" then "" else str_append (count_key id) ":alerted"

abbrev pub existence_key : String → String
existence_key id = str_append "price:historical:exists:" id

abbrev is_one : Option Value → Bool
is_one none = false
is_one (some (number n)) = eqb n 1
is_one (some _) = false

-- HasHistoricalPriceCache: whether the marker key holds "1"; redis.Nil is no error.
pub has_historical_price_cache : String → Prog (Reply Bool)
has_historical_price_cache id = do
  r ← command (get (existence_key id))
  elim r [ err ↦ done err | ok v ↦ done (ok (is_one v)) ]

-- How long a coin that has failed three times is held back.
abbrev pub hold_duration : Reply Bool → Bool → ℕ
hold_duration (ok true) exists = minute
hold_duration _ exists = if not exists then 24 * hour else 30 * minute

-- `err == nil` after a GET.
abbrev pub found : Reply (Option Value) → Bool
found err = false
found (ok none) = false
found (ok (some v)) = true

-- `refuse`: the keys of RefuseChainIdMap.
module _ (refuse : List String) where
  -- IsCoinsThrottled
  pub is_coins_throttled : String → Prog Bool
  is_coins_throttled id =
      if contains (first_part (split b'_' id)) refuse
      then done true
      else do r ← command (get (throttle_key id)); done (found r)

-- `if count == 1 { Expire }`; a failure is only logged.
pub expire_first : ℕ → String → ℕ → Prog (Unit {0})
expire_first n key ttl = if eqb n 1 then (do command (expire key ttl); done tt) else done tt

-- `alertCount, _ := Incr(…)`
abbrev or_zero : Reply ℕ → ℕ
or_zero err = 0
or_zero (ok n) = n

-- The last lines of CoinsThrottle.
pub under_limit : String → Prog Bool
under_limit id = do command (set (throttle_key id) (number 1) coins_throttle_duration); done false

-- The branch of CoinsThrottle behind `count >= CoinsMaxThrottleCount`, from the choice of the
-- duration on.
pub hold_back : String → ℕ → Prog Bool
hold_back id duration = do
  r ← command (set (throttle_key id) (number 1) duration)
  elim r [
    | err ↦ done false
    | ok _ ↦ do
      alerts ← command (incr (alerted_key id))
      expire_first (or_zero alerts) (alerted_key id) slack_notification_reset_duration
      command (del (count_key id))
      done true
  ]

-- `check_exists`: the interface CoinChecker.
module _ (check_exists : String → Prog (Reply Bool)) where
  pub over_limit : String → Prog Bool
  over_limit id = do
    e ← check_exists id
    elim e [
      | err ↦ done false
      | ok exists ↦ do has ← has_historical_price_cache id; hold_back id (hold_duration has exists)
    ]

  -- What CoinsThrottle does with the reply to INCR.
  after_count : String → Reply ℕ → Prog Bool
  after_count id err = done false
  after_count id (ok count) = do
    expire_first count (count_key id) coins_throttle_count_reset_duration
    if leb coins_max_throttle_count count then over_limit id else under_limit id

  -- CoinsThrottle: whether a notification is to be sent.
  pub coins_throttle : String → String → Prog Bool
  coins_throttle id status =
      if status == "429"
      then (do command (set (throttle_key id) (number 1) (3 * minute)); done false)
      else do r ← command (incr (count_key id)); after_count id r
