-- ===== src/RateLimiter/Window.antt =====
-- What the limit lets through in one window.
use token_price_proxy.Prelude.{
  ℕ, zero, suc, ◌+◌, ◌≡◌, String, Bool, false, Option, some, if◌then◌else◌,
}
use token_price_proxy.Redis.Commands.{number, Entry, Keyspace, Reply, ok}
use token_price_proxy.Redis.Run.{Prog, Server, run, eval}
use token_price_proxy.RateLimiter.{limit_key, AppToken, Allowed, answer, failed, app_token, allow}

abbrev pub let_through : Allowed → Bool
let_through failed = false
let_through (answer yes_no) = yes_no

abbrev counter : ℕ → ℕ → Option Entry
counter n ttl = some (record { value = number n; ttl = some ttl })

-- `t` is the token that the request's key stands for.
module _ (find_token : String → Prog (Reply AppToken)) (default_rate : ℕ) (token : String)
    (t : AppToken) where
  -- What Allow needs of the token's lookup: it finds `t` and leaves the counter alone.
  abbrev pub Finds : Type 0
  Finds =
      (ks : Keyspace)
      → ((eval (app_token find_token default_rate token) ks).0 ≡ ok t)
        × ((eval (app_token find_token default_rate token) ks).1 (limit_key token)
            ≡ ks (limit_key token))

  module _ (r : Server) (gap : ℕ) where
    -- How many of m requests with the token, `gap` milliseconds apart, are let through.
    abbrev pub admitted : ℕ → r.State → ℕ
    admitted zero s = 0
    admitted (suc m) s =
        let (a, s') = run r (allow find_token default_rate token) s in
        let rest = admitted m (r.wait gap s') in if let_through a then rest + 1 else rest
