-- ===== src/Throttler/Cycle.antt =====
-- What a call of CoinsThrottle leaves: the count of failures, the hold, and everything else.
use token_price_proxy.Prelude.{
  ℕ, ◌+◌, ◌*◌, ◌%◌, ◌<◌, ◌≡◌, ap, refl, String, Bool, true, false, Option, none, some, ◌==◌, leb,
  eqb, ◌∙◌, Bool-cases, inl, inr, if◌then◌else◌, arith, eq_refl,
}
use token_price_proxy.Prelude.Text.{==-comm}
use token_price_proxy.Redis.Commands.{
  number, word, members, items, Entry, Keyspace, Reply, ok, put, incr, count_of,
}
use token_price_proxy.Redis.Run.{Prog, eval, eval-bind, eval-reply}
use token_price_proxy.Throttler.{
  throttle_key, count_key, alerted_key, hold_duration, after_count, over_limit, under_limit,
  hold_back, expire_first, coins_throttle, minute, hour, existence_key, has_historical_price_cache,
  or_zero, slack_notification_reset_duration, coins_throttle_count_reset_duration,
}
use token_price_proxy.Throttler.Keys.{throttle-ne-count, throttle-ne-alerted}

abbrev pub held : ℕ → Option Entry
held d = some (record { value = number 1; ttl = some d })

-- A command on one key leaves the others.
pub incr_keeps : (k j : String) (ks : Keyspace) → (k == j) ≡ false → (incr k ks).1 j ≡ ks j
incr_keeps k j ks h = ground arith

pub expire_first_keeps :
    (n : ℕ) (k : String) (ttl : ℕ) (j : String) (ks : Keyspace)
    → (k == j) ≡ false
    → (eval (expire_first n k ttl) ks).1 j ≡ ks j
unfolding expire_first
expire_first_keeps n k ttl j ks h = elim (Bool-cases (eqb n 1)) [
  | inl e ↦ rw e (ground arith)
  | inr e ↦ rw e
]

-- The keys after the alert counter has been marked.
pub marked : String → Keyspace → Keyspace
marked id ks =
    (eval
      (expire_first (or_zero (incr (alerted_key id) ks).0) (alerted_key id)
        slack_notification_reset_duration)
      (incr (alerted_key id) ks).1).1

pub marked_keeps :
    (id j : String) (ks : Keyspace) → (alerted_key id == j) ≡ false → marked id ks j ≡ ks j
unfolding marked
marked_keeps id j ks h =
    expire_first_keeps _ (alerted_key id) _ j _ h ∙ incr_keeps (alerted_key id) j ks h

pub hold_back-eval :
    (id : String) (d : ℕ) (ks : Keyspace)
    → eval (hold_back id d) ks
      ≡ (true, put (count_key id) none (marked id (put (throttle_key id) (held d) ks)))
unfolding hold_back marked
hold_back-eval id d ks =
    eval-bind (expire_first _ (alerted_key id) slack_notification_reset_duration) _ _

hold_back_lem :
    (id : String) (d : ℕ) (ks : Keyspace)
    → ((eval (hold_back id d) ks).0 ≡ true)
      × ((eval (hold_back id d) ks).1 (count_key id) ≡ none)
      × ((eval (hold_back id d) ks).1 (throttle_key id) ≡ held d)
hold_back_lem id d ks = rw (hold_back-eval id d ks) (
  refl,
  rw (eq_refl (count_key id)) refl,
  rw (==-comm (count_key id) (throttle_key id), throttle-ne-count id id)
      (marked_keeps id (throttle_key id) _
          (==-comm (alerted_key id) (throttle_key id) ∙ throttle-ne-alerted id id)
        ∙ rw (eq_refl (throttle_key id))),
)

incr_counts :
    (k : String) (n : ℕ) (ks : Keyspace)
    → count_of (ks k) ≡ some n
    → n < 3
    → ((incr k ks).0 ≡ ok (n + 1)) × (count_of ((incr k ks).1 k) ≡ some (n + 1))
incr_counts k n ks h lt = ground (arith, eq_refl k)

expire_first-failures :
    (m : ℕ) (k : String) (ttl : ℕ) (ks : Keyspace)
    → count_of ((eval (expire_first m k ttl) ks).1 k) ≡ count_of (ks k)
unfolding expire_first
expire_first-failures m k ttl ks = elim (Bool-cases (eqb m 1)) [
  | inl e ↦ rw e (ground (arith, eq_refl k))
  | inr e ↦ rw e
]

under_limit_lem :
    (id : String) (ks : Keyspace)
    → ((eval (under_limit id) ks).0 ≡ false)
      × ((eval (under_limit id) ks).1 (count_key id) ≡ ks (count_key id))
      × ((eval (under_limit id) ks).1 (throttle_key id) ≡ held minute)
unfolding under_limit
under_limit_lem id ks =
    (refl, rw (throttle-ne-count id id) refl, rw (eq_refl (throttle_key id)) refl)

-- Whether an entry is the marker of a stored price, the number 1.
abbrev pub is_marker : Option Entry → Bool
is_marker none = false
is_marker (some e) = elim e.value [
  | number n ↦ eqb n 1
  | word s ↦ false
  | members m ↦ false
  | items l ↦ false
]

-- How long a coin is held at its third failure: by the marker under its id, and whether the coin
-- is known.
abbrev pub hold_at : Option Entry → Bool → ℕ
hold_at marker exists =
    if is_marker marker then minute else if exists then 30 * minute else 24 * hour

-- The keys at the moment at which the failure has been counted: the count, with its reset after the
-- first failure.
abbrev pub counted_at : String → ℕ → Keyspace → Keyspace
counted_at id n ks =
    (eval (expire_first (n + 1) (count_key id) coins_throttle_count_reset_duration)
      (incr (count_key id) ks).1).1

hold_duration_lem :
    (id : String) (exists : Bool) (ks : Keyspace)
    → hold_duration (eval (has_historical_price_cache id) ks).0 exists
      ≡ hold_at (ks (existence_key id)) exists
unfolding has_historical_price_cache
hold_duration_lem id exists ks = ground arith

module _ (check_exists : String → Prog (Reply Bool)) (id : String) where
  over_limit_lem :
      (exists : Bool) (ks : Keyspace)
      → (eval (check_exists id) ks).0 ≡ ok exists
      → ((eval (over_limit check_exists id) ks).0 ≡ true)
        × ((eval (over_limit check_exists id) ks).1 (count_key id) ≡ none)
        × ((eval (over_limit check_exists id) ks).1 (throttle_key id)
            ≡ held (hold_at ((eval (check_exists id) ks).1 (existence_key id)) exists))
  unfolding over_limit
  over_limit_lem exists ks h =
      rw
        (
          eval-bind (check_exists id) _ ks,
          h,
          eval-bind (has_historical_price_cache id) _ (eval (check_exists id) ks).1,
        )
        (
          (hold_back_lem id _ _).0,
          (hold_back_lem id _ _).1,
          (hold_back_lem id _ _).2
              ∙ ap held (hold_duration_lem id exists (eval (check_exists id) ks).1),
        )

  pub coins_throttle-eval :
      (status : String) (n : ℕ) (ks : Keyspace)
      → (status == "429") ≡ false
      → count_of (ks (count_key id)) ≡ some n
      → n < 3
      → eval (coins_throttle check_exists id status) ks
        ≡ eval
            (if leb 3 (n + 1) then over_limit check_exists id else under_limit id)
            (eval
              (expire_first (n + 1) (count_key id) coins_throttle_count_reset_duration)
              (incr (count_key id) ks).1).1
  unfolding coins_throttle after_count
  coins_throttle-eval status n ks other h lt = rw other (
      eval-reply (incr (count_key id)) (after_count check_exists id) ks
        (incr_counts (count_key id) n ks h lt).0
      ∙ eval-bind (expire_first (n + 1) (count_key id) coins_throttle_count_reset_duration)
          (λ _. if leb 3 (n + 1) then over_limit check_exists id else under_limit id)
          (incr (count_key id) ks).1)

  -- The keys behind the question whether the coin is known.
  abbrev pub checked_at : ℕ → Keyspace → Keyspace
  checked_at n ks = (eval (check_exists id) (counted_at id n ks)).1

  -- How long a call holds the coin back that is not answered by a rate limit.
  abbrev pub step_hold : ℕ → Bool → Keyspace → ℕ
  step_hold n exists ks =
      if leb 3 (n + 1) then hold_at (checked_at n ks (existence_key id)) exists else minute

  -- One call that is not answered by a rate limit, on the keys as documented.
  pub call_lem :
      (status : String) (n : ℕ) (exists : Bool) (ks : Keyspace)
      → (status == "429") ≡ false
      → (eval (check_exists id) (counted_at id n ks)).0 ≡ ok exists
      → count_of (ks (count_key id)) ≡ some n
      → n < 3
      → ((eval (coins_throttle check_exists id status) ks).0 ≡ leb 3 (n + 1))
        × (count_of ((eval (coins_throttle check_exists id status) ks).1 (count_key id))
            ≡ some ((n + 1) % 3))
        × ((eval (coins_throttle check_exists id status) ks).1 (throttle_key id)
            ≡ held (step_hold n exists ks))
  call_lem status n exists ks other answers h lt =
      let counted = incr_counts (count_key id) n ks h lt in
      let ks' = counted_at id n ks in
      let kept : count_of (ks' (count_key id)) ≡ some (n + 1) =
        expire_first-failures (n + 1) (count_key id) coins_throttle_count_reset_duration
          (incr (count_key id) ks).1
        ∙ counted.1 in
      rw (coins_throttle-eval status n ks other h lt) (elim (Bool-cases (leb 3 (n + 1))) [
        | inl over ↦
            let (alerts, gone, hold) = over_limit_lem exists ks' answers in
            rw over (alerts, rw gone (ap some (ground arith)), hold)
        | inr under ↦
            let (alerts, same, hold) = under_limit_lem id ks' in
            rw under (alerts, rw same (kept ∙ ap some (ground arith)), hold)
      ])
