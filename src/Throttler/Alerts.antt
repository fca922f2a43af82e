-- ===== src/Throttler/Alerts.antt =====
-- The notifications that failing calls of CoinsThrottle in a row ask for.
use token_price_proxy.Prelude.{
  ℕ, zero, suc, ◌+◌, ◌/◌, ◌%◌, ◌<◌, ◌≡◌, refl, ap, ◌∙◌, String, Bool, true, false, some, ◌==◌, leb,
  if◌then◌else◌, arith, Bool-cases, inl, inr,
}
use token_price_proxy.Redis.Commands.{Keyspace, Reply, ok, count_of, put}
use token_price_proxy.Redis.Run.{Prog, done, ◌>>=◌, Server, run, run-eval, eval, eval-bind}
use token_price_proxy.Throttler.{
  throttle_key, count_key, alerted_key, hold_duration, over_limit, under_limit, hold_back,
  has_historical_price_cache, coins_throttle, coins_throttle_count_reset_duration,
}
use token_price_proxy.Throttler.Cycle.{
  held, counted_at, call_lem, marked_keeps, hold_back-eval, expire_first_keeps, incr_keeps,
  coins_throttle-eval,
}

-- Two keyspaces with the same entries but at the three keys that the throttler keeps of a coin.
abbrev pub AgreeBeside : String → Keyspace → Keyspace → Type 0
AgreeBeside id ks ks' =
    (j : String)
    → (throttle_key id == j) ≡ false
    → (count_key id == j) ≡ false
    → (alerted_key id == j) ≡ false
    → ks' j ≡ ks j

-- What of the keys a coin checker needs to answer for a coin: it answers and leaves it so, and the
-- throttler's own keys of the coin do not matter to it.
pub record Serves (check_exists : String → Prog (Reply Bool)) (id : String) (P : Keyspace → Type 0)
    : Type 0 where
  pub answers :
      (ks : Keyspace)
      → P ks
      → (exists : Bool) × ((eval (check_exists id) ks).0 ≡ ok exists)
        × P (eval (check_exists id) ks).1
  pub apart : (ks ks' : Keyspace) → P ks → AgreeBeside id ks ks' → P ks'

counted-AgreeBeside : (id : String) (n : ℕ) (ks : Keyspace) → AgreeBeside id ks (counted_at id n ks)
counted-AgreeBeside id n ks j ht hc ha =
    expire_first_keeps (n + 1) (count_key id) coins_throttle_count_reset_duration j _ hc
    ∙ incr_keeps (count_key id) j ks hc

hold_back-AgreeBeside :
    (id : String) (d : ℕ) (ks : Keyspace) → AgreeBeside id ks (eval (hold_back id d) ks).1
hold_back-AgreeBeside id d ks j ht hc ha =
    ap (λ p. p.1 j) (hold_back-eval id d ks)
    ∙ rw hc (marked_keeps id j (put (throttle_key id) (held d) ks) ha ∙ rw ht refl)

under-AgreeBeside : (id : String) (ks : Keyspace) → AgreeBeside id ks (eval (under_limit id) ks).1
unfolding under_limit
under-AgreeBeside id ks j ht hc ha = rw ht refl

reads_marker : (id : String) (ks : Keyspace) → (eval (has_historical_price_cache id) ks).1 ≡ ks
unfolding has_historical_price_cache
reads_marker id ks = ground arith

module _ (check_exists : String → Prog (Reply Bool)) (id : String) (P : Keyspace → Type 0)
    (serves : Serves check_exists id P) where
  over-P : (ks : Keyspace) → P ks → P (eval (over_limit check_exists id) ks).1
  unfolding over_limit
  over-P ks p =
      let (exists, e, p') = serves.answers ks p in
      let ks' = (eval (check_exists id) ks).1 in
      let has = (eval (has_historical_price_cache id) ks').0 in
      rw
        (
          eval-bind (check_exists id) _ ks,
          e,
          eval-bind (has_historical_price_cache id) _ ks',
          reads_marker id ks',
        )
        (serves.apart ks' (eval (hold_back id (hold_duration has exists)) ks').1 p'
          (hold_back-AgreeBeside id (hold_duration has exists) ks'))

  call-P :
      (status : String) (n : ℕ) (ks : Keyspace)
      → (status == "429") ≡ false
      → count_of (ks (count_key id)) ≡ some n
      → n < 3
      → P ks
      → P (eval (coins_throttle check_exists id status) ks).1
  call-P status n ks other h lt p =
      let ks' = counted_at id n ks in
      let p' = serves.apart ks ks' p (counted-AgreeBeside id n ks) in
      rw (coins_throttle-eval check_exists id status n ks other h lt)
        (elim (Bool-cases (leb 3 (n + 1))) [
          | inl over ↦ rw over (over-P ks' p')
          | inr under ↦
              rw under
                (serves.apart ks' (eval (under_limit id) ks').1 p' (under-AgreeBeside id ks'))
        ])

-- The notifications that m failing calls in a row ask for.
abbrev pub alerts : (String → Prog (Reply Bool)) → String → String → ℕ → Prog ℕ
alerts check_exists id status zero = done 0
alerts check_exists id status (suc m) = do
  alert ← coins_throttle check_exists id status
  rest ← alerts check_exists id status m
  done (if alert then rest + 1 else rest)

alerts-eval :
    (check_exists : String → Prog (Reply Bool)) (id : String) (P : Keyspace → Type 0)
    → Serves check_exists id P
    → (status : String) (m n : ℕ) (ks : Keyspace) → (status == "429") ≡ false
    → P ks
    → count_of (ks (count_key id)) ≡ some n
    → n < 3
    → (eval (alerts check_exists id status m) ks).0 ≡ (n + m) / 3
alerts-eval check_exists id P serves status zero n ks other p h lt = omega arith
alerts-eval check_exists id P serves status (suc m) n ks other p h lt =
    let first = coins_throttle check_exists id status in
    let (exists, answers, p') =
      serves.answers (counted_at id n ks)
        (serves.apart ks (counted_at id n ks) p (counted-AgreeBeside id n ks)) in
    let (alert, next, hold) = call_lem check_exists id status n exists ks other answers h lt in
    let ih =
      alerts-eval check_exists id P serves status m ((n + 1) % 3) (eval first ks).1 other
        (call-P check_exists id P serves status n ks other h lt p) next (omega arith) in
    rw
      (
        eval-bind first _ ks,
        eval-bind (alerts check_exists id status m) _ (eval first ks).1,
        alert,
        ih,
      )
      (ground arith)

-- On a server that is up, for a coin with n < 3 counted failures and a coin checker that answers for
-- it on the keys that there are, whatever the throttler does to its own keys of the coin: m calls of
-- CoinsThrottle in a row, with a status other than 429, ask for a notification at every third failure,
-- that is (n + m) / 3 times in all.
pub alerts_every_third :
    (check_exists : String → Prog (Reply Bool)) (id : String) (P : Keyspace → Type 0) (r : Server)
    (status : String) (m n : ℕ) (s : r.State)
    → Serves check_exists id P
    → r.up s ≡ true
    → (status == "429") ≡ false
    → P (r.store s)
    → count_of (r.store s (count_key id)) ≡ some n
    → n < 3
    → (run r (alerts check_exists id status m) s).0 ≡ (n + m) / 3
alerts_every_third check_exists id P r status m n s serves alive other p h lt =
    (run-eval r (alerts check_exists id status m) s alive).0
    ∙ alerts-eval check_exists id P serves status m n (r.store s) other p h lt
