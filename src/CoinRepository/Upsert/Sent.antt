-- ===== src/CoinRepository/Upsert/Sent.antt =====
-- The statements that UpsertCoins sends to the database.
use token_price_proxy.Prelude.{
  ℕ, ◌≤◌, ◌<◌, sym, subst, String, none, some, List, [], ◌∷◌, map, length, All, arith,
}
use token_price_proxy.Prelude.Chunks.{chunks, chunks_bounds}
use token_price_proxy.Redis.Run.{Server}
use token_price_proxy.CoinRepository.{Coins, Coder}
use token_price_proxy.CoinRepository.Caching.{Ended, returned, panicked, unending, cache_coin_batch}
use token_price_proxy.CoinRepository.Upsert.{Statement, upsert_statement}
use token_price_proxy.CoinRepository.Upsert.Params.{IsSendable, statement-IsSendable}
use token_price_proxy.CoinRepository.World.{
  Error, Database, World, Action, after, bind, give, on_database, on_redis_ended,
}
use token_price_proxy.CoinRepository.Writes.{
  cache_found, refresh_coin_list_cache, exec_upsert, after_commit, after_upsert, upsert_batch,
  unless_failed, upsert_batches, upsert_coins, upsert_batch_size,
}

module _ (coder : Coder) (r : Server) (db : Database) (fuel : ℕ) (P : db.State → Type 0)
    (begins : (d : db.State) → P d → P (db.begin d))
    (commits : (d : db.State) → P d → P (db.commit d).1)
    (rollbacks : (d : db.State) → P d → P (db.rollback d))
    (reads : (ids : List String) (d : db.State) → P d → P (db.coins_in ids d).1)
    (sends : (st : Statement) (d : db.State) → IsSendable st → P d → P (db.exec st d).1) where
  -- An action behind which the database still has P, however it ends.
  abbrev Keeps : {A : Type 0} → Action r db A → Type 0
  Keeps m = (w : World r db) → P w.1 → P (m w).1.1

  after-Keeps :
      {A B : Type 0} (p : Ended A × World r db) (f : A → Action r db B)
      → P p.1.1
      → ((a : A) → Keeps (f a))
      → P (after r db p f).1.1
  after-Keeps (returned a, w) f h k = k a w h
  after-Keeps (panicked, w) f h k = h
  after-Keeps (unending, w) f h k = h

  bind-Keeps :
      {A B : Type 0} (m : Action r db A) (f : A → Action r db B)
      → Keeps m
      → ((a : A) → Keeps (f a))
      → Keeps (bind r db m f)
  bind-Keeps m f h k w p = after-Keeps (m w) f (h w p) k

  cache_found-Keeps : (p : Error × List Coins) → Keeps (cache_found coder r db fuel p)
  cache_found-Keeps (some e, coins) = λ w p. p
  cache_found-Keeps (none, coins) =
      bind-Keeps (on_redis_ended r db (cache_coin_batch coder fuel coins)) (λ _. give r db none)
        (λ w p. p) (λ _ w p. p)

  refresh-Keeps : (ids : List String) → Keeps (refresh_coin_list_cache coder r db fuel ids)
  unfolding refresh_coin_list_cache
  refresh-Keeps [] = λ w p. p
  refresh-Keeps (id ∷ ids) =
      bind-Keeps (on_database r db (db.coins_in (id ∷ ids))) (cache_found coder r db fuel)
        (λ w p. reads (id ∷ ids) w.1 p) cache_found-Keeps

  after_commit-Keeps :
      (batch : List Coins) (e : Error) → Keeps (after_commit coder r db fuel batch e)
  after_commit-Keeps batch (some e) = λ w p. p
  after_commit-Keeps batch none =
      let ids = map (λ (c : Coins). c.id) batch in
      bind-Keeps (refresh_coin_list_cache coder r db fuel ids) (λ _. give r db none)
        (refresh-Keeps ids) (λ _ w p. p)

  after_upsert-Keeps :
      (batch : List Coins) (e : Error) → Keeps (after_upsert coder r db fuel batch e)
  after_upsert-Keeps batch (some e) = λ w p. rollbacks w.1 p
  after_upsert-Keeps batch none =
      bind-Keeps (on_database r db db.commit) (after_commit coder r db fuel batch)
        (λ w p. commits w.1 p) (after_commit-Keeps batch)

  upsert_batch-Keeps :
      (batch : List Coins)
      → 0 < length batch
      → length batch ≤ 1000
      → Keeps (upsert_batch coder r db fuel batch)
  unfolding upsert_batch
  upsert_batch-Keeps batch h k w p =
      let (st, e, sendable) = statement-IsSendable batch h k in
      let sent : P (exec_upsert coder r db fuel (upsert_statement batch) (db.begin w.1)).1 =
        subst (λ o. P (exec_upsert coder r db fuel o (db.begin w.1)).1) (sym e)
          (sends st (db.begin w.1) sendable (begins w.1 p)) in
      let done = exec_upsert coder r db fuel (upsert_statement batch) (db.begin w.1) in
      after_upsert-Keeps batch done.0 (w.0, done.1) sent

  unless_failed-Keeps :
      (rest : Action r db Error) (e : Error)
      → Keeps rest
      → Keeps (unless_failed coder r db fuel rest e)
  unless_failed-Keeps rest (some e) h = λ w p. p
  unless_failed-Keeps rest none h = h

  batches-Keeps :
      (batches : List (List Coins))
      → All (λ b. (0 < length b) × (length b ≤ 1000)) batches
      → Keeps (upsert_batches coder r db fuel batches)
  unfolding upsert_batches
  batches-Keeps [] h = λ w p. p
  batches-Keeps (batch ∷ batches) h =
      bind-Keeps (upsert_batch coder r db fuel batch)
        (unless_failed coder r db fuel (upsert_batches coder r db fuel batches))
        (upsert_batch-Keeps batch h.0.0 h.0.1)
        (λ e.
          unless_failed-Keeps (upsert_batches coder r db fuel batches) e
            (batches-Keeps batches h.1))

  -- Every statement that UpsertCoins sends has as many placeholders as parameters, and no more of them
  -- than the 65535 that PostgreSQL takes: whatever holds of the database, and is kept by the beginning
  -- and the end of a transaction, by the query of coins and by each such statement, still holds when
  -- UpsertCoins has ended on any rows, with or without an error.
  pub upsert_coins-sends :
      (coins : List Coins) (w : World r db) → P w.1 → P (upsert_coins coder r db fuel coins w).1.1
  unfolding upsert_coins
  upsert_coins-sends coins =
      batches-Keeps (chunks upsert_batch_size coins) (chunks_bounds 1000 coins (omega arith))
