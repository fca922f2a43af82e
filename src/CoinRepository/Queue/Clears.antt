-- ===== src/CoinRepository/Queue/Clears.antt =====
-- The queue of the rows is gone when it has been processed, whatever the database has answered.
use token_price_proxy.Prelude.{
  ℕ, ◌≡◌, refl, sym, ap, subst, ◌∙◌, String, str_append, true, Option, none, some, List, [], ◌∷◌,
  ◌⊎◌, inl, inr, Bool-cases, map, take, arith,
}
use token_price_proxy.Prelude.Maps.{contains}
use token_price_proxy.Redis.Commands.{Keyspace, ok, put, items_at, lrange_all, del}
use token_price_proxy.Redis.Run.{
  Server, Prog, done, ◌>>=◌, run, run-up, run-eval, eval, eval-then, command,
}
use token_price_proxy.RedisClient.{Scanned, delete_keys_by_prefix}
use token_price_proxy.RedisClient.Deletes.{
  yielded, without, without_lem, eval-delete_keys_by_prefix,
}
use token_price_proxy.CoinRepository.{Coins, Coder, queue_key, set_key_prefix}
use token_price_proxy.CoinRepository.Caching.{Ended, returned, panicked, unending}
use token_price_proxy.CoinRepository.World.{Error, Database, World}
use token_price_proxy.CoinRepository.Queue.{
  rows_of, process_rows, clear_queue, process_texts, process_queue_with_transaction, finished,
  values_in, row_attempts, max_retries, deadlock_detected,
}
use token_price_proxy.CoinRepository.Upsert.{Statement, upsert_statement}
use token_price_proxy.CoinRepository.Queue.Retries.{deadlocks, attempts_refused}
use token_price_proxy.CoinRepository.Writes.{upsert_failed}
use token_price_proxy.CoinRepository.Queue.Up.{process_rows-KeepsUp}

-- The iteration over the keys changes none of them.
abbrev pub OnlyReads : (String → Prog Scanned) → Type 0
OnlyReads scan =
    (prefix : String) (ks : Keyspace) → (sc : Scanned) × (eval (scan prefix) ks ≡ (sc, ks))

clear_program : (String → Prog Scanned) → Prog (Unit {0})
clear_program scan =
    command (del queue_key) >>= λ _. delete_keys_by_prefix scan set_key_prefix >>= λ _. done tt

clear_program_lem :
    (scan : String → Prog Scanned) (ks : Keyspace)
    → OnlyReads scan
    → (keys : List String) × (eval (clear_program scan) ks
        ≡ (tt, without keys (put queue_key none ks)))
unfolding clear_program
clear_program_lem scan ks quiet =
    let (sc, e) = quiet set_key_prefix (put queue_key none ks) in
    (
      yielded sc,
      eval-then (delete_keys_by_prefix scan set_key_prefix) (λ _. done tt) (put queue_key none ks)
          (eval-delete_keys_by_prefix scan set_key_prefix (put queue_key none ks) sc e),
    )

-- A key that is not there does not come back.
clear-none :
    (scan : String → Prog Scanned) (ks : Keyspace) (j : String)
    → OnlyReads scan
    → put queue_key none ks j ≡ none
    → (eval (clear_program scan) ks).1 j ≡ none
clear-none scan ks j quiet h =
    let (keys, e) = clear_program_lem scan ks quiet in
    ap (λ p. p.1 j) e
    ∙ without_lem keys (put queue_key none ks) j
    ∙ (elim (Bool-cases (contains j keys)) [ inl b ↦ rw b refl | inr b ↦ rw b h ])

listed :
    (r : Server) (s : r.State) (texts : List String)
    → r.up s ≡ true
    → items_at (r.store s queue_key) ≡ some texts
    → (run r (command (lrange_all queue_key)) s).0 ≡ ok texts
listed r s texts up h = (run-eval r (command (lrange_all queue_key)) s up).0 ∙ ground (arith, h)

module _ (coder : Coder) (r : Server) (db : Database) (fuel : ℕ) (scan : String → Prog Scanned)
    (order : List String → List String) (quiet : OnlyReads scan) where
  -- After the deferred clearing.
  cleared :
      (p : Ended Error × World r db)
      → r.up p.1.0 ≡ true
      → ((finished r db p (clear_queue coder r db fuel scan order)).0 ≡ unending)
        ⊎ (r.store (finished r db p (clear_queue coder r db fuel scan order)).1.0 queue_key ≡ none)
  unfolding clear_program
  cleared (unending, w) up = inl refl
  cleared (returned e, w) up = inr (
      ap (λ ks. ks queue_key) (run-eval r (clear_program scan) w.0 up).1
      ∙ clear-none scan (r.store w.0) queue_key quiet refl)
  cleared (panicked, w) up = inr (
      ap (λ ks. ks queue_key) (run-eval r (clear_program scan) w.0 up).1
      ∙ clear-none scan (r.store w.0) queue_key quiet refl)

  -- On a server that is up, where the queue holds texts and the iteration over the keys changes
  -- none, processQueueWithTransaction leaves no queue once it returns or panics: whatever the
  -- texts hold and whatever the database answers.
  pub queue_cleared :
      (s : r.State) (d : db.State) (text : String) (texts : List String)
      → r.up s ≡ true
      → items_at (r.store s queue_key) ≡ some (text ∷ texts)
      → ((process_queue_with_transaction coder r db fuel scan order (s, d)).0 ≡ unending)
        ⊎ (r.store (process_queue_with_transaction coder r db fuel scan order (s, d)).1.0 queue_key
            ≡ none)
  unfolding process_queue_with_transaction process_texts
  queue_cleared s d text texts up h =
      let rows = rows_of coder (text ∷ texts) [] in
      let s' = (run r (command (lrange_all queue_key)) s).1 in
      subst
        (λ x.
          ((process_texts coder r db fuel scan order x (s', d)).0 ≡ unending)
          ⊎ (r.store (process_texts coder r db fuel scan order x (s', d)).1.0 queue_key ≡ none))
        (sym (listed r s (text ∷ texts) up h))
        (cleared (process_rows coder r db fuel scan order rows (s', d)) (
          process_rows-KeepsUp coder r db fuel scan order rows (s', d)
            (run-up r (command (lrange_all queue_key)) s up)))

  abbrev ids : List (String × Coins) → List String
  ids m = map (λ (e : String × Coins). e.0) m

  -- The attempts at the rows of the queue, when each commit is a deadlock.
  rows_deadlock :
      (rows : Option (List (String × Coins))) (m : List (String × Coins)) (c : Coins)
      (coins : List Coins) (st : Statement) (s : r.State) (d : db.State)
      → rows ≡ some m
      → values_in (order (ids m)) m ≡ c ∷ coins
      → upsert_statement (take 1000 (c ∷ coins)) ≡ some st
      → ((d : db.State) → (db.exec st d).0 ≡ none)
      → ((d : db.State) → (db.commit d).0 ≡ some deadlock_detected)
      → (finished r db
          (process_rows coder r db fuel scan order rows (s, d))
          (clear_queue coder r db fuel scan order)).0
        ≡ returned none
  rows_deadlock rows m c coins st s d h k l execs commits =
      let (w, e) =
        deadlocks coder r db fuel scan order max_retries c coins st s d l execs commits in
      let one : process_rows coder r db fuel scan order rows (s, d) ≡ (returned none, w) =
        ap (λ x. process_rows coder r db fuel scan order x (s, d)) h
        ∙ ap (λ l. row_attempts coder r db fuel scan order max_retries l (s, d)) k
        ∙ e in
      ap (λ p. (finished r db p (clear_queue coder r db fuel scan order)).0) one

  -- On a server that is up, where the texts of the queue are rows, with a statement for the first of
  -- them that the database carries out, and each commit ends in a deadlock,
  -- processQueueWithTransaction returns nil and the queue is gone, though no commit succeeded.
  pub rows_lost :
      (s : r.State) (d : db.State) (text : String) (texts : List String) (m : List (String × Coins))
      (c : Coins) (coins : List Coins) (st : Statement)
      → r.up s ≡ true
      → items_at (r.store s queue_key) ≡ some (text ∷ texts)
      → rows_of coder (text ∷ texts) [] ≡ some m
      → values_in (order (map (λ (e : String × Coins). e.0) m)) m ≡ c ∷ coins
      → upsert_statement (take 1000 (c ∷ coins)) ≡ some st
      → ((d : db.State) → (db.exec st d).0 ≡ none)
      → ((d : db.State) → (db.commit d).0 ≡ some deadlock_detected)
      → ((process_queue_with_transaction coder r db fuel scan order (s, d)).0 ≡ returned none)
        × (r.store (process_queue_with_transaction coder r db fuel scan order (s, d)).1.0 queue_key
            ≡ none)
  unfolding process_queue_with_transaction process_texts
  rows_lost s d text texts m c coins st up h k l n execs commits =
      let s' = (run r (command (lrange_all queue_key)) s).1 in
      let nil : (process_queue_with_transaction coder r db fuel scan order (s, d)).0
          ≡ returned none =
        ap (λ x. (process_texts coder r db fuel scan order x (s', d)).0)
          (listed r s (text ∷ texts) up h)
        ∙ rows_deadlock (rows_of coder (text ∷ texts) []) m c coins st s' d k l n execs commits in
      (
        nil,
        elim (queue_cleared s d text texts up h) [
          | inl e ↦ ground (arith, nil, e)
          | inr gone ↦ gone
        ],
      )

  rows_refused :
      (rows : Option (List (String × Coins))) (m : List (String × Coins)) (c : Coins)
      (coins : List Coins) (st : Statement) (s : r.State) (d : db.State) (e : String)
      → rows ≡ some m
      → values_in (order (ids m)) m ≡ c ∷ coins
      → upsert_statement (take 1000 (c ∷ coins)) ≡ some st
      → (db.exec st (db.begin d)).0 ≡ some e
      → ((finished r db
            (process_rows coder r db fuel scan order rows (s, d))
            (clear_queue coder r db fuel scan order)).0
          ≡ returned (some (str_append upsert_failed e)))
        × ((finished r db
              (process_rows coder r db fuel scan order rows (s, d))
              (clear_queue coder r db fuel scan order)).1.1
            ≡ db.rollback (db.exec st (db.begin d)).1)
  rows_refused rows m c coins st s d e h k l refused =
      let one =
        ap (λ x. process_rows coder r db fuel scan order x (s, d)) h
        ∙ ap (λ l. row_attempts coder r db fuel scan order max_retries l (s, d)) k
        ∙ attempts_refused coder r db fuel scan order c coins s d st e l refused in
      (
        ap (λ p. (finished r db p (clear_queue coder r db fuel scan order)).0) one,
        ap (λ p. (finished r db p (clear_queue coder r db fuel scan order)).1.1) one,
      )

  -- On a server that is up, where the texts of the queue are rows and the database refuses the
  -- statement for the first thousand of them, whatever its error is, a deadlock among them:
  -- processQueueWithTransaction makes no second attempt. It returns the error with the text of
  -- UpsertCoins before it, the transaction is rolled back with no statement behind it, and the queue
  -- is gone.
  pub refused_once :
      (s : r.State) (d : db.State) (text : String) (texts : List String) (m : List (String × Coins))
      (c : Coins) (coins : List Coins) (st : Statement) (e : String)
      → r.up s ≡ true
      → items_at (r.store s queue_key) ≡ some (text ∷ texts)
      → rows_of coder (text ∷ texts) [] ≡ some m
      → values_in (order (map (λ (e : String × Coins). e.0) m)) m ≡ c ∷ coins
      → upsert_statement (take 1000 (c ∷ coins)) ≡ some st
      → (db.exec st (db.begin d)).0 ≡ some e
      → ((process_queue_with_transaction coder r db fuel scan order (s, d)).0
          ≡ returned (some (str_append upsert_failed e)))
        × ((process_queue_with_transaction coder r db fuel scan order (s, d)).1.1
            ≡ db.rollback (db.exec st (db.begin d)).1)
        × (r.store (process_queue_with_transaction coder r db fuel scan order (s, d)).1.0 queue_key
            ≡ none)
  unfolding process_queue_with_transaction process_texts
  refused_once s d text texts m c coins st e up h k l n refused =
      let s' = (run r (command (lrange_all queue_key)) s).1 in
      let ended =
        rows_refused (rows_of coder (text ∷ texts) []) m c coins st s' d e k l n refused in
      let found = listed r s (text ∷ texts) up h in
      let first : (process_queue_with_transaction coder r db fuel scan order (s, d)).0
          ≡ returned (some (str_append upsert_failed e)) =
        ap (λ x. (process_texts coder r db fuel scan order x (s', d)).0) found ∙ ended.0 in
      (
        first,
        ap (λ x. (process_texts coder r db fuel scan order x (s', d)).1.1) found ∙ ended.1,
        elim (queue_cleared s d text texts up h) [
          | inl u ↦ ground (arith, first, u)
          | inr gone ↦ gone
        ],
      )
