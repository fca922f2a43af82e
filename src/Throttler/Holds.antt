-- ===== src/Throttler/Holds.antt =====
-- How long a failed coin is held back, on a server that is up, and what a caller sees of it.
use token_price_proxy.Prelude.{
  ℕ, ap, ◌+◌, ◌*◌, ◌%◌, ◌<◌, ◌≡◌, refl, ◌∙◌, String, Bool, true, false, ◌||◌, some, List, ◌==◌, leb,
  ltb, if◌then◌else◌, arith, eq_refl, Bool-cases, inl, inr,
}
use token_price_proxy.Prelude.Maps.{contains}
use token_price_proxy.Prelude.Text.{split, first_part}
use token_price_proxy.Redis.Commands.{Keyspace, Reply, ok, get, elapse, count_of}
use token_price_proxy.Redis.Run.{Prog, Server, run, run-eval, eval}
use token_price_proxy.Throttler.{
  minute, throttle_key, count_key, found, is_coins_throttled, coins_throttle,
}
use token_price_proxy.Throttler.Cycle.{held, counted_at, step_hold, call_lem}

-- What is left of a hold after t milliseconds.
held-elapse :
    (k : String) (d t : ℕ) (ks : Keyspace) → ks k ≡ held d → found (get k (elapse t ks)).0 ≡ ltb t d
held-elapse k d t ks h = ground arith

-- A held coin is refused until the hold has run out.
held-throttled :
    (refuse : List String) (id : String) (d t : ℕ) (ks : Keyspace)
    → ks (throttle_key id) ≡ held d
    → (eval (is_coins_throttled refuse id) (elapse t ks)).0
      ≡ (contains (first_part (split b'_' id)) refuse || ltb t d)
unfolding is_coins_throttled
held-throttled refuse id d t ks h =
    elim (Bool-cases (contains (first_part (split b'_' id)) refuse)) [
      | inl e ↦ rw e
      | inr e ↦ rw e (held-elapse (throttle_key id) d t ks h)
    ]

module _ (check_exists : String → Prog (Reply Bool)) (id : String) where
  -- How long a call holds the coin back.
  abbrev pub call_hold : String → ℕ → Bool → Keyspace → ℕ
  call_hold status n exists ks =
      if status == "429" then 3 * minute else step_hold check_exists id n exists ks

  hold_lem :
      (status : String) (n : ℕ) (exists : Bool) (ks : Keyspace)
      → (eval (check_exists id) (counted_at id n ks)).0 ≡ ok exists
      → count_of (ks (count_key id)) ≡ some n
      → n < 3
      → (eval (coins_throttle check_exists id status) ks).1 (throttle_key id)
        ≡ held (call_hold status n exists ks)
  unfolding coins_throttle
  hold_lem status n exists ks answers h lt = elim (Bool-cases (status == "429")) [
    | inl limited ↦ rw limited (rw (eq_refl (throttle_key id)) refl)
    | inr other ↦
        (call_lem check_exists id status n exists ks other answers h lt).2 ∙ ap held (rw other refl)
  ]

  -- On a server that is up, for a coin with n < 3 counted failures, where the coin checker, asked when
  -- this failure has been counted, would answer: IsCoinsThrottled, asked t milliseconds after
  -- CoinsThrottle, answers true exactly if the chain is refused or t is less than the hold. The hold
  -- is three minutes after the status 429. Otherwise it is one minute before the third failure, and
  -- at the third failure one minute if the marker of a stored price is there, else 30 minutes for
  -- a coin that the checker knows and 24 hours for one that it does not.
  pub coins_throttle-holds :
      (r : Server) (refuse : List String) (status : String) (n : ℕ) (exists : Bool) (s : r.State)
      (t : ℕ)
      → r.up s ≡ true
      → (eval (check_exists id) (counted_at id n (r.store s))).0 ≡ ok exists
      → count_of (r.store s (count_key id)) ≡ some n
      → n < 3
      → (eval
          (is_coins_throttled refuse id)
          (elapse t (r.store (run r (coins_throttle check_exists id status) s).1))).0
        ≡ (contains (first_part (split b'_' id)) refuse
            || ltb t (call_hold status n exists (r.store s)))
  coins_throttle-holds r refuse status n exists s t alive answers h lt =
      let hold = hold_lem status n exists (r.store s) answers h lt in
      let same = (run-eval r (coins_throttle check_exists id status) s alive).1 in
      held-throttled refuse id (call_hold status n exists (r.store s)) t _ (rw same hold)

  -- On a server that is up, a call of CoinsThrottle with another status than 429, for a coin with
  -- n < 3 counted failures, where the coin checker, asked when this failure has been counted, would
  -- answer: it asks for a notification exactly at the third failure, the count goes on to n + 1
  -- modulo 3, and the coin is held for one minute before the third failure. At the third it is held
  -- for one minute if the marker of a stored price is there behind the checker, else for 30 minutes
  -- if the checker knows the coin and for 24 hours if it does not.
  pub coins_throttle-step :
      (r : Server) (status : String) (n : ℕ) (exists : Bool) (s : r.State)
      → r.up s ≡ true
      → (status == "429") ≡ false
      → (eval (check_exists id) (counted_at id n (r.store s))).0 ≡ ok exists
      → count_of (r.store s (count_key id)) ≡ some n
      → n < 3
      → ((run r (coins_throttle check_exists id status) s).0 ≡ leb 3 (n + 1))
        × (count_of (r.store (run r (coins_throttle check_exists id status) s).1 (count_key id))
            ≡ some ((n + 1) % 3))
        × (r.store (run r (coins_throttle check_exists id status) s).1 (throttle_key id)
            ≡ held (step_hold check_exists id n exists (r.store s)))
  coins_throttle-step r status n exists s alive other answers h lt =
      let same = run-eval r (coins_throttle check_exists id status) s alive in
      rw (same.0, same.1) (call_lem check_exists id status n exists (r.store s) other answers h lt)
