-- ===== src/CoinRepository/Queue/Retries.antt =====
-- What processQueueWithTransaction makes of the errors of the database.
use token_price_proxy.Prelude.{
  ℕ, zero, suc, ◌≡◌, refl, sym, ◌∙◌, String, str_append, false, none, some, List, ◌∷◌, ◌==◌, take,
}
use text.Mathlib.TextLemmas.{cons-append}
use token_price_proxy.Prelude.Text.{first_differs, ==-eq-false}
use token_price_proxy.Prelude.Chunks.{chunks, rounds}
use token_price_proxy.Redis.Run.{Server, Prog}
use token_price_proxy.RedisClient.{Scanned}
use token_price_proxy.CoinRepository.{Coins, Coder}
use token_price_proxy.CoinRepository.Upsert.{Statement, upsert_statement}
use token_price_proxy.CoinRepository.Caching.{Ended, returned}
use token_price_proxy.CoinRepository.World.{Error, Database, World}
use token_price_proxy.CoinRepository.Writes.{
  upsert_failed, upsert_batch, upsert_batches, upsert_coins,
}
use token_price_proxy.CoinRepository.Queue.{
  max_retries, deadlock_detected, row_attempts, upsert_coins_transaction,
}

abbrev upsert_failed_rest : String
upsert_failed_rest = "量插入或更新币种失败: "

-- An error of the statement, with the text that UpsertCoins puts before it, is no deadlock.
not_deadlock : (e : String) → (str_append upsert_failed e == deadlock_detected) ≡ false
not_deadlock e = ==-eq-false (str_append upsert_failed e) deadlock_detected (λ h.
    first_differs "批" "E" (str_append upsert_failed_rest e)
      "RROR: deadlock detected (SQLSTATE 40P01)" refl
      (sym (cons-append "批" upsert_failed_rest e) ∙ h))

module _ (coder : Coder) (r : Server) (db : Database) (fuel : ℕ) where
  batch_fails :
      (batch : List Coins) (s : r.State) (d : db.State) (st : Statement) (e : String)
      → upsert_statement batch ≡ some st
      → (db.exec st (db.begin d)).0 ≡ some e
      → upsert_batch coder r db fuel batch (s, d) ≡ (
        returned (some (str_append upsert_failed e)),
        (s, db.rollback (db.exec st (db.begin d)).1),
      )
  unfolding upsert_batch
  batch_fails batch s d st e h k = rw h (rw k refl)

  coins_fail :
      (c : Coins) (coins : List Coins) (s : r.State) (d : db.State) (st : Statement) (e : String)
      → upsert_statement (take 1000 (c ∷ coins)) ≡ some st
      → (db.exec st (db.begin d)).0 ≡ some e
      → upsert_coins coder r db fuel (c ∷ coins) (s, d) ≡ (
        returned (some (str_append upsert_failed e)),
        (s, db.rollback (db.exec st (db.begin d)).1),
      )
  unfolding upsert_coins upsert_batches chunks rounds
  coins_fail c coins s d st e h k = rw (batch_fails (take 1000 (c ∷ coins)) s d st e h k) refl

  commit_fails :
      (c : Coins) (coins : List Coins) (s : r.State) (d : db.State) (st : Statement) (e : String)
      → upsert_statement (take 1000 (c ∷ coins)) ≡ some st
      → (db.exec st (db.begin d)).0 ≡ none
      → (db.commit (db.exec st (db.begin d)).1).0 ≡ some e
      → upsert_coins coder r db fuel (c ∷ coins) (s, d)
        ≡ (returned (some e), (s, (db.commit (db.exec st (db.begin d)).1).1))
  unfolding upsert_coins upsert_batches upsert_batch chunks rounds
  commit_fails c coins s d st e h k l = rw h (rw k (rw l refl))

  -- `scan` and `order` as in Queue.
  module _ (scan : String → Prog Scanned) (order : List String → List String) where
    abbrev attempts_at : ℕ → List Coins → World r db → Ended Error × World r db
    attempts_at = row_attempts coder r db fuel scan order

    -- The attempts at the rows when the database refuses the first statement.
    pub attempts_refused :
        (c : Coins) (coins : List Coins) (s : r.State) (d : db.State) (st : Statement) (e : String)
        → upsert_statement (take 1000 (c ∷ coins)) ≡ some st
        → (db.exec st (db.begin d)).0 ≡ some e
        → row_attempts coder r db fuel scan order max_retries (c ∷ coins) (s, d) ≡ (
          returned (some (str_append upsert_failed e)),
          (s, db.rollback (db.exec st (db.begin d)).1),
        )
    unfolding row_attempts upsert_coins_transaction
    attempts_refused c coins s d st e h k =
        rw (coins_fail c coins s d st e h k) (rw (not_deadlock e) refl)

    pub deadlocks :
        (n : ℕ) (c : Coins) (coins : List Coins) (st : Statement) (s : r.State) (d : db.State)
        → upsert_statement (take 1000 (c ∷ coins)) ≡ some st
        → ((d : db.State) → (db.exec st d).0 ≡ none)
        → ((d : db.State) → (db.commit d).0 ≡ some deadlock_detected)
        → (w : World r db) × (row_attempts coder r db fuel scan order n (c ∷ coins) (s, d)
            ≡ (returned none, w))
    unfolding row_attempts upsert_coins_transaction
    deadlocks zero c coins st s d h k l = ((s, d), refl)
    deadlocks (suc n) c coins st s d h k l =
        let d' = (db.commit (db.exec st (db.begin d)).1).1 in
        let (w, e) = deadlocks n c coins st (r.wait 2000 s) d' h k l in
        (
          w,
          rw
              (commit_fails c coins s d st deadlock_detected h (k (db.begin d))
                (l (db.exec st (db.begin d)).1))
              e,
        )
