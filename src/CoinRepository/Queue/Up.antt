-- ===== src/CoinRepository/Queue/Up.antt =====
-- The handlers of the queue leave a server up.
use token_price_proxy.Prelude.{
  ℕ, zero, suc, ◌≡◌, String, true, Option, none, some, List, [], ◌∷◌, ◌==◌, Bool-cases, inl, inr,
  map,
}
use token_price_proxy.Prelude.Chunks.{chunks}
use token_price_proxy.Redis.Run.{Server, Prog, run-up}
use token_price_proxy.RedisClient.{Scanned}
use token_price_proxy.CoinRepository.{Coins, Coder}
use token_price_proxy.CoinRepository.Caching.{Ended, returned, panicked, unending, cache_coin_batch}
use token_price_proxy.CoinRepository.World.{
  Error, Database, World, Action, after, bind, give, on_redis, on_redis_ended, on_database,
}
use token_price_proxy.CoinRepository.Writes.{
  cache_found, refresh_coin_list_cache, after_commit, after_upsert, upsert_batch, unless_failed,
  upsert_batches, upsert_coins, upsert_batch_size,
}
use token_price_proxy.CoinRepository.Queue.{
  deadlock_detected, sleep, del_queue, after_rows, upsert_coins_transaction, after_attempt,
  row_attempts, process_rows, max_retries, values_in,
}

module _ (r : Server) (db : Database) where
  -- An action that leaves the server up, however it ends.
  abbrev pub KeepsUp : {A : Type 0} → Action r db A → Type 0
  KeepsUp m = (w : World r db) → r.up w.0 ≡ true → r.up (m w).1.0 ≡ true

  after-KeepsUp :
      {A B : Type 0} (p : Ended A × World r db) (f : A → Action r db B)
      → r.up p.1.0 ≡ true
      → ((a : A) → KeepsUp (f a))
      → r.up (after r db p f).1.0 ≡ true
  after-KeepsUp (returned a, w) f h k = k a w h
  after-KeepsUp (panicked, w) f h k = h
  after-KeepsUp (unending, w) f h k = h

  pub bind-KeepsUp :
      {A B : Type 0} (m : Action r db A) (f : A → Action r db B)
      → KeepsUp m
      → ((a : A) → KeepsUp (f a))
      → KeepsUp (bind r db m f)
  bind-KeepsUp m f h k w up = after-KeepsUp (m w) f (h w up) k

  pub give-KeepsUp : {A : Type 0} (a : A) → KeepsUp (give r db a)
  give-KeepsUp a w up = up

  pub on_redis-KeepsUp : {A : Type 0} (p : Prog A) → KeepsUp (on_redis r db p)
  on_redis-KeepsUp p w up = run-up r p w.0 up

  on_redis_ended-KeepsUp : {A : Type 0} (p : Prog (Ended A)) → KeepsUp (on_redis_ended r db p)
  on_redis_ended-KeepsUp p w up = run-up r p w.0 up

module _ (coder : Coder) (r : Server) (db : Database) (fuel : ℕ) where
  cache_found-KeepsUp : (p : Error × List Coins) → KeepsUp r db (cache_found coder r db fuel p)
  cache_found-KeepsUp (some e, coins) = λ w up. up
  cache_found-KeepsUp (none, coins) =
      bind-KeepsUp r db (on_redis_ended r db (cache_coin_batch coder fuel coins))
        (λ _. give r db none) (on_redis_ended-KeepsUp r db (cache_coin_batch coder fuel coins))
        (λ _ w up. up)

  refresh-KeepsUp : (ids : List String) → KeepsUp r db (refresh_coin_list_cache coder r db fuel ids)
  unfolding refresh_coin_list_cache
  refresh-KeepsUp [] = λ w up. up
  refresh-KeepsUp (id ∷ ids) =
      bind-KeepsUp r db (on_database r db (db.coins_in (id ∷ ids))) (cache_found coder r db fuel)
        (λ w up. up) cache_found-KeepsUp

  after_commit-KeepsUp :
      (batch : List Coins) (e : Error) → KeepsUp r db (after_commit coder r db fuel batch e)
  after_commit-KeepsUp batch (some e) = λ w up. up
  after_commit-KeepsUp batch none =
      let ids = map (λ (c : Coins). c.id) batch in
      bind-KeepsUp r db (refresh_coin_list_cache coder r db fuel ids) (λ _. give r db none)
        (refresh-KeepsUp ids) (λ _ w up. up)

  after_upsert-KeepsUp :
      (batch : List Coins) (e : Error) → KeepsUp r db (after_upsert coder r db fuel batch e)
  after_upsert-KeepsUp batch (some e) = λ w up. up
  after_upsert-KeepsUp batch none =
      bind-KeepsUp r db (on_database r db db.commit) (after_commit coder r db fuel batch)
        (λ w up. up) (after_commit-KeepsUp batch)

  upsert_batch-KeepsUp : (batch : List Coins) → KeepsUp r db (upsert_batch coder r db fuel batch)
  unfolding upsert_batch
  upsert_batch-KeepsUp batch w up = after_upsert-KeepsUp batch _ _ up

  unless_failed-KeepsUp :
      (m : Action r db Error) (e : Error)
      → KeepsUp r db m
      → KeepsUp r db (unless_failed coder r db fuel m e)
  unless_failed-KeepsUp m (some e) h = λ w up. up
  unless_failed-KeepsUp m none h = h

  upsert_batches-KeepsUp :
      (batches : List (List Coins)) → KeepsUp r db (upsert_batches coder r db fuel batches)
  unfolding upsert_batches
  upsert_batches-KeepsUp [] = λ w up. up
  upsert_batches-KeepsUp (batch ∷ batches) =
      bind-KeepsUp r db (upsert_batch coder r db fuel batch)
        (unless_failed coder r db fuel (upsert_batches coder r db fuel batches))
        (upsert_batch-KeepsUp batch)
        (λ e.
          unless_failed-KeepsUp (upsert_batches coder r db fuel batches) e
            (upsert_batches-KeepsUp batches))

  pub upsert_coins-KeepsUp :
      (coins : List Coins) → KeepsUp r db (upsert_coins coder r db fuel coins)
  unfolding upsert_coins
  upsert_coins-KeepsUp coins = upsert_batches-KeepsUp (chunks upsert_batch_size coins)

  module _ (scan : String → Prog Scanned) (order : List String → List String) where
    after_rows-KeepsUp : (e : Error) → KeepsUp r db (after_rows coder r db fuel scan order e)
    after_rows-KeepsUp (some e) w up = up
    after_rows-KeepsUp none w up = run-up r (del_queue coder r db fuel scan order) w.0 up

    transaction-KeepsUp :
        (coins : List Coins)
        → KeepsUp r db (upsert_coins_transaction coder r db fuel scan order coins)
    unfolding upsert_coins_transaction
    transaction-KeepsUp coins =
        bind-KeepsUp r db (upsert_coins coder r db fuel coins)
          (after_rows coder r db fuel scan order) (upsert_coins-KeepsUp coins) after_rows-KeepsUp

    after_attempt-KeepsUp :
        (e : Error) (m : Action r db Error)
        → KeepsUp r db m
        → KeepsUp r db (after_attempt coder r db fuel scan order e m)
    after_attempt-KeepsUp none m h w up = up
    after_attempt-KeepsUp (some e) m h w up = elim (Bool-cases (e == deadlock_detected)) [
      | inl b ↦ rw b (h w up)
      | inr b ↦ rw b up
    ]

    pub row_attempts-KeepsUp :
        (n : ℕ) (coins : List Coins)
        → KeepsUp r db (row_attempts coder r db fuel scan order n coins)
    unfolding row_attempts
    row_attempts-KeepsUp zero coins = λ w up. up
    row_attempts-KeepsUp (suc n) coins =
        let again =
          bind r db (sleep r db 2000) (λ _. row_attempts coder r db fuel scan order n coins) in
        bind-KeepsUp r db (upsert_coins_transaction coder r db fuel scan order coins)
          (λ e. after_attempt coder r db fuel scan order e again) (transaction-KeepsUp coins)
          (λ e.
            after_attempt-KeepsUp e again
              (λ w up. row_attempts-KeepsUp n coins (r.wait 2000 w.0, w.1) (r.wait_up 2000 w.0 up)))

    pub process_rows-KeepsUp :
        (rows : Option (List (String × Coins)))
        → KeepsUp r db (process_rows coder r db fuel scan order rows)
    process_rows-KeepsUp none = λ w up. up
    process_rows-KeepsUp (some m) =
        row_attempts-KeepsUp max_retries (values_in (order (map (λ (e : String × Coins). e.0) m)) m)
