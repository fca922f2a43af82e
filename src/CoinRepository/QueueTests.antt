-- ===== src/CoinRepository/QueueTests.antt =====
-- The cache and the queue of the rows, and the deletion of keys, at concrete data.
use token_price_proxy.Prelude.{
  ℕ, ◌+◌, ◌≤◌, ◌≡◌, refl, String, str_append, Bool, true, false, Option, none, some, List, [], ◌∷◌,
  ◌==◌, ◌⊎◌, if◌then◌else◌, take, All, length, arith,
}
use token_price_proxy.Prelude.Maps.{contains}
use token_price_proxy.Redis.Commands.{Keyspace, items, put}
use token_price_proxy.Redis.Run.{Prog, done, ideal, run}
use token_price_proxy.RedisClient.{Scanned, keys_end, key, delete_keys_by_prefix}
use token_price_proxy.RedisClient.Deletes.{ended_badly, yielded, deletes_scanned}
use token_price_proxy.CoinRepository.{coin_key, queue_key}
use token_price_proxy.CoinRepository.Tests.{tag, tags, plain_row, pair_row}
use token_price_proxy.CoinRepository.Upsert.{Statement, upsert_statement}
use token_price_proxy.CoinRepository.Upsert.Params.{IsSendable}
use token_price_proxy.CoinRepository.Upsert.Sent.{upsert_coins-sends}
use token_price_proxy.CoinRepository.Caching.{returned, unending, cache_coin_batch}
use token_price_proxy.CoinRepository.Caching.Served.{entry_after, last_row, rows_cached}
use token_price_proxy.CoinRepository.World.{Error, Database}
use token_price_proxy.CoinRepository.Writes.{upsert_failed, upsert_coins}
use token_price_proxy.CoinRepository.Queue.{
  deadlock_detected, process_queue_with_transaction, rows_of, values_in,
}
use token_price_proxy.CoinRepository.Queue.Clears.{queue_cleared, rows_lost, refused_once}

abbrev two_keys : Scanned
two_keys = key "coins:set1_a" (key "coins:set1_b" (keys_end true))

abbrev find_two : String → Prog Scanned
find_two prefix = done two_keys

abbrev one_item : Keyspace
one_item = put queue_key (some (record { value = items ("B1_b" ∷ []); ttl = none })) (λ k. none)

deletes_scanned_example :
    ((run ideal (delete_keys_by_prefix find_two "coins:set") one_item).0 ≡ ended_badly two_keys)
    × ((j : String)
        → (run ideal (delete_keys_by_prefix find_two "coins:set") one_item).1 j
          ≡ (if contains j (yielded two_keys) then none else one_item j))
deletes_scanned_example = deletes_scanned ideal one_item find_two "coins:set" two_keys refl refl

rows_cached_example :
    ((run ideal (cache_coin_batch tags 5 (plain_row ∷ [])) one_item).0 ≡ returned tt)
    × ((id : String)
        → (run ideal (cache_coin_batch tags 5 (plain_row ∷ [])) one_item).1 (coin_key id)
          ≡ entry_after
              (λ c. String.◌∷◌ (tag c) c.id)
              (last_row id (plain_row ∷ []))
              (one_item (coin_key id)))
rows_cached_example =
    rows_cached tags (λ c. String.◌∷◌ (tag c) c.id) (λ c. refl) ideal one_item 5 (plain_row ∷ [])
      refl (refl, tt)

-- A database that counts the statements and answers them and the commits with given errors.
abbrev answering : Error → Error → Database
answering statement commit = record {
  State = ℕ;
  begin = λ d. d;
  exec = λ st d. (statement, d + 1);
  commit = λ d. (commit, d);
  rollback = λ d. d;
  exec_text = λ sql d. (none, d);
  delete_coin = λ id d. (none, d);
  coins_in = λ ids d. ((none, []), d);
  create_price = λ p d. (none, d);
  prices_at = λ id day d. ((none, []), d);
  all_coins = λ d. ((none, []), d);
}

abbrev statement_or : Option Statement → Statement
statement_or none = record { sql = ""; params = [] }
statement_or (some st) = st

abbrev same_order : List String → List String
same_order keys = keys

plain_statement :
    upsert_statement (take 1000 (plain_row ∷ []))
    ≡ some (statement_or (upsert_statement (plain_row ∷ [])))
unfolding upsert_statement
plain_statement = refl

find_two-OnlyReads :
    (prefix : String) (ks : Keyspace)
    → (sc : Scanned) × ◌≡◌ {A = Scanned × Keyspace} (two_keys, ks) (sc, ks)
find_two-OnlyReads prefix ks = (two_keys, refl)

queue_cleared_example :
    ((process_queue_with_transaction tags ideal
        (answering none none)
        5
        find_two
        same_order
        (one_item, 0)).0
      ≡ unending)
    ⊎ ((process_queue_with_transaction tags ideal
            (answering none none)
            5
            find_two
            same_order
            (one_item, 0)).1.0
          queue_key
        ≡ none)
queue_cleared_example =
    queue_cleared tags ideal (answering none none) 5 find_two same_order find_two-OnlyReads one_item
      0 "B1_b" [] refl refl

queued_rows : rows_of tags ("B1_b" ∷ []) [] ≡ some (("1_b", plain_row) ∷ [])
unfolding rows_of token_price_proxy.Prelude.Maps.insert
queued_rows = refl

queued_values : values_in ("1_b" ∷ []) (("1_b", plain_row) ∷ []) ≡ plain_row ∷ []
unfolding values_in token_price_proxy.Prelude.Maps.lookup
queued_values = refl

rows_lost_example :
    ((process_queue_with_transaction tags ideal
        (answering none (some deadlock_detected))
        5
        find_two
        same_order
        (one_item, 0)).0
      ≡ returned none)
    × ((process_queue_with_transaction tags ideal
            (answering none (some deadlock_detected))
            5
            find_two
            same_order
            (one_item, 0)).1.0
          queue_key
        ≡ none)
rows_lost_example =
    rows_lost tags ideal (answering none (some deadlock_detected)) 5 find_two same_order
      find_two-OnlyReads one_item 0 "B1_b" [] (("1_b", plain_row) ∷ []) plain_row []
      (statement_or (upsert_statement (plain_row ∷ []))) refl refl queued_rows queued_values
      plain_statement (λ d. refl) (λ d. refl)

refused_once_example :
    ((process_queue_with_transaction tags ideal
        (answering (some deadlock_detected) none)
        5
        find_two
        same_order
        (one_item, 0)).0
      ≡ returned (some (str_append upsert_failed deadlock_detected)))
    × ((process_queue_with_transaction tags ideal
          (answering (some deadlock_detected) none)
          5
          find_two
          same_order
          (one_item, 0)).1.1
        ≡ 1)
    × ((process_queue_with_transaction tags ideal
            (answering (some deadlock_detected) none)
            5
            find_two
            same_order
            (one_item, 0)).1.0
          queue_key
        ≡ none)
refused_once_example =
    refused_once tags ideal (answering (some deadlock_detected) none) 5 find_two same_order
      find_two-OnlyReads one_item 0 "B1_b" [] (("1_b", plain_row) ∷ []) plain_row []
      (statement_or (upsert_statement (plain_row ∷ []))) deadlock_detected refl refl queued_rows
      queued_values plain_statement refl

-- A database that keeps the statements that it is sent.
abbrev recording : Database
recording = record {
  State = List Statement;
  begin = λ d. d;
  exec = λ st d. (none, st ∷ d);
  commit = λ d. (none, d);
  rollback = λ d. d;
  exec_text = λ sql d. (none, d);
  delete_coin = λ id d. (none, d);
  coins_in = λ ids d. ((none, []), d);
  create_price = λ p d. (none, d);
  prices_at = λ id day d. ((none, []), d);
  all_coins = λ d. ((none, []), d);
}

upsert_coins-sends_example :
    All IsSendable
      (upsert_coins tags ideal recording 5 (plain_row ∷ pair_row ∷ []) (one_item, [])).1.1
upsert_coins-sends_example =
    upsert_coins-sends tags ideal recording 5 (All IsSendable) (λ d h. h) (λ d h. h) (λ d h. h)
      (λ ids d h. h) (λ st d fits h. (fits, h)) (plain_row ∷ pair_row ∷ []) (one_item, []) _
