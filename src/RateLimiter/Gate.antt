-- ===== src/RateLimiter/Gate.antt =====
-- Who gets past the middleware.
use token_price_proxy.Prelude.{
  ℕ, ◌≡◌, ◌↔◌, sym, ◌∙◌, String, Bool, true, false, not, ◌==◌, ◌&&◌, if◌then◌else◌, arith,
  Bool-cases, inl, inr,
}
use token_price_proxy.Redis.Commands.{Reply}
use token_price_proxy.Redis.Run.{Prog, Server, run, run-bind}
use token_price_proxy.RateLimiter.{
  AppToken, Allowed, answer, allow, Request, no_content, forbidden, next, outcome_of, api_key,
  rate_limit_middleware,
}

outcome_of-next : (a : Allowed) → (outcome_of a ≡ next) ↔ (a ≡ answer true)
outcome_of-next a = (ground arith, ground arith)

module _ (r : Server) (find_token : String → Prog (Reply AppToken)) (default_rate : ℕ)
    (allow_nil : Bool) (req : Request) (s : r.State) where
  middleware-run :
      (req.method == "OPTIONS") ≡ false
      → ((api_key req == "") && not allow_nil) ≡ false
      → (run r (rate_limit_middleware find_token default_rate allow_nil req) s).0
        ≡ outcome_of (run r (allow find_token default_rate (api_key req)) s).0
  unfolding rate_limit_middleware run
  middleware-run get_or_post keyed =
      rw (get_or_post, keyed, run-bind r (allow find_token default_rate (api_key req)) _ s)

  middleware-preflight :
      (req.method == "OPTIONS") ≡ true
      → (run r (rate_limit_middleware find_token default_rate allow_nil req) s).0 ≡ no_content
  unfolding rate_limit_middleware run
  middleware-preflight e = rw e

  middleware-forbidden :
      (req.method == "OPTIONS") ≡ false
      → ((api_key req == "") && not allow_nil) ≡ true
      → (run r (rate_limit_middleware find_token default_rate allow_nil req) s).0 ≡ forbidden
  unfolding rate_limit_middleware run
  middleware-forbidden e f = rw (e, f)

  -- With any server, up or not, the middleware calls the next handler exactly if the request is
  -- no preflight, carries a key in its header or query or keys may be left out, and the rate
  -- limiter lets the key through; the header's key goes before the query's.
  pub middleware-next_iff :
      ((run r (rate_limit_middleware find_token default_rate allow_nil req) s).0 ≡ next) ↔ (
        ((req.method == "OPTIONS") ≡ false)
        × (((if req.header_key == "" then req.query_key else req.header_key) == "") && not allow_nil
            ≡ false)
        × ((run r
              (allow find_token default_rate
                (if req.header_key == "" then req.query_key else req.header_key))
              s).0
            ≡ answer true))
  middleware-next_iff = elim (Bool-cases (req.method == "OPTIONS")) [
    | inl e ↦ (λ h. cc (h, middleware-preflight e), λ h. cc (h.0, e))
    | inr get_or_post ↦ elim (Bool-cases ((api_key req == "") && not allow_nil)) [
      | inl e ↦ (λ h. cc (h, middleware-forbidden get_or_post e), λ h. cc (h.1, e))
      | inr keyed ↦
          let same = middleware-run get_or_post keyed in
          (
            λ h. (get_or_post, keyed, (outcome_of-next _).0 (sym same ∙ h)),
            λ h. same ∙ (outcome_of-next _).1 h.2,
          )
    ]
  ]
