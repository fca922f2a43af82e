-- ===== src/RedisClient/Deletes.antt =====
-- The deletion of keys by their prefix, on a server that is up.
use token_price_proxy.Prelude.{
  ℕ, zero, suc, ◌≡◌, refl, sym, ap, ◌∙◌, String, Bool, true, false, none, List, [], ◌∷◌, ◌++◌,
  if◌then◌else◌, eq_iff, arith,
}
use mathlib.Core.List.{append_assoc, append-nil}
use token_price_proxy.Prelude.Maps.{contains}
use token_price_proxy.Prelude.Chunks.{chunks, join_all, join_all-chunks}
use token_price_proxy.Redis.Commands.{Keyspace, put}
use token_price_proxy.Redis.Run.{Prog, done, ◌>>=◌, Server, run, eval, eval-then, run-eval}
use token_price_proxy.RedisClient.{
  batch_size, pipe_dels, del_attempts, del_batches, delete_key_batch, Scanned, keys_end, key,
  after_batch, delete_scanned, delete_keys_by_prefix,
}

-- The keys without those of a list.
unfoldable pub without : List String → Keyspace → Keyspace
without [] ks = ks
without (k ∷ keys) ks = without keys (put k none ks)

pub without_lem :
    (keys : List String) (ks : Keyspace) (j : String)
    → without keys ks j ≡ (if contains j keys then none else ks j)
unfolding without contains
without_lem [] ks j = refl
without_lem (k ∷ keys) ks j =
    ground (arith, without_lem keys (put k none ks) j, eq_iff j k, eq_iff k j)

without-append :
    (xs ys : List String) (ks : Keyspace) → without (xs ++ ys) ks ≡ without ys (without xs ks)
unfolding without
without-append [] ys ks = refl
without-append (x ∷ xs) ys ks = without-append xs ys (put x none ks)

eval-pipe_dels :
    (keys : List String) (ks : Keyspace) → eval (pipe_dels keys) ks ≡ (false, without keys ks)
unfolding pipe_dels without
eval-pipe_dels [] ks = refl
eval-pipe_dels (k ∷ keys) ks =
    eval-then (pipe_dels keys) _ (put k none ks) (eval-pipe_dels keys (put k none ks))

eval-del_attempts :
    (n : ℕ) (keys : List String) (ks : Keyspace)
    → eval (del_attempts (suc n) keys) ks ≡ (false, without keys ks)
unfolding del_attempts
eval-del_attempts n keys ks = eval-then (pipe_dels keys) _ ks (eval-pipe_dels keys ks)

eval-del_batches :
    (batches : List (List String)) (ks : Keyspace)
    → eval (del_batches batches) ks ≡ (false, without (join_all batches) ks)
unfolding del_batches without
eval-del_batches [] ks = refl
eval-del_batches (b ∷ batches) ks =
    eval-then (del_attempts 3 b) _ ks (eval-del_attempts 2 b ks)
    ∙ eval-del_batches batches (without b ks)
    ∙ ap (λ k. (false, k)) (sym (without-append b (join_all batches) ks))

pub eval-delete_key_batch :
    (keys : List String) (ks : Keyspace)
    → eval (delete_key_batch keys) ks ≡ (false, without keys ks)
unfolding delete_key_batch
eval-delete_key_batch keys ks =
    eval-del_batches (chunks batch_size keys) ks
    ∙ ap (λ l. (false, without l ks)) (join_all-chunks batch_size keys (omega arith))

-- What an iteration yields, and whether it ends with an error.
abbrev pub yielded : Scanned → List String
yielded (keys_end failed) = []
yielded (key k rest) = k ∷ yielded rest

abbrev pub ended_badly : Scanned → Bool
ended_badly (keys_end failed) = failed
ended_badly (key k rest) = ended_badly rest

regroup :
    (k : String) (keys more : List String) (ks : Keyspace)
    → without (keys ++ k ∷ [] ++ more) ks ≡ without (keys ++ k ∷ more) ks
regroup k keys more ks = ap (λ l. without l ks) (append_assoc keys (k ∷ []) more)

-- A full batch is deleted, and the rest of the iteration starts another.
flushed :
    (k : String) (rest : Scanned) (keys : List String) (ks : Keyspace)
    → eval (delete_scanned rest batch_size []) (without (keys ++ k ∷ []) ks)
      ≡ (ended_badly rest, without (yielded rest) (without (keys ++ k ∷ []) ks))
    → eval
        (delete_key_batch (keys ++ k ∷ []) >>= λ f.
          after_batch f (delete_scanned rest batch_size []))
        ks
      ≡ (ended_badly rest, without (keys ++ k ∷ yielded rest) ks)
flushed k rest keys ks ih =
    eval-then (delete_key_batch (keys ++ k ∷ []))
      (λ f. after_batch f (delete_scanned rest batch_size [])) ks
      (eval-delete_key_batch (keys ++ k ∷ []) ks)
    ∙ ih
    ∙ ap (λ l. (ended_badly rest, l))
        (sym (without-append (keys ++ k ∷ []) (yielded rest) ks) ∙ regroup k keys (yielded rest) ks)

eval-delete_scanned :
    (sc : Scanned) (left : ℕ) (keys : List String) (ks : Keyspace)
    → eval (delete_scanned sc left keys) ks ≡ (ended_badly sc, without (keys ++ yielded sc) ks)
unfolding delete_scanned without
eval-delete_scanned (keys_end failed) left [] ks = refl
eval-delete_scanned (keys_end failed) left (k ∷ keys) ks =
    eval-then (delete_key_batch (k ∷ keys)) (λ f. after_batch f (done failed)) ks
      (eval-delete_key_batch (k ∷ keys) ks)
    ∙ ap (λ l. (failed, without (k ∷ l) ks)) (sym (append-nil keys))
eval-delete_scanned (key k rest) (suc (suc left)) keys ks =
    eval-delete_scanned rest (suc left) (keys ++ k ∷ []) ks
    ∙ ap (λ l. (ended_badly rest, l)) (regroup k keys (yielded rest) ks)
eval-delete_scanned (key k rest) (suc zero) keys ks =
    flushed k rest keys ks (eval-delete_scanned rest batch_size [] (without (keys ++ k ∷ []) ks))
eval-delete_scanned (key k rest) zero keys ks =
    flushed k rest keys ks (eval-delete_scanned rest batch_size [] (without (keys ++ k ∷ []) ks))

pub eval-delete_keys_by_prefix :
    (scan : String → Prog Scanned) (prefix : String) (ks : Keyspace) (sc : Scanned)
    → eval (scan prefix) ks ≡ (sc, ks)
    → eval (delete_keys_by_prefix scan prefix) ks ≡ (ended_badly sc, without (yielded sc) ks)
unfolding delete_keys_by_prefix
eval-delete_keys_by_prefix scan prefix ks sc h =
    eval-then (scan prefix) (λ keys. delete_scanned keys batch_size []) ks h
    ∙ eval-delete_scanned sc batch_size [] ks

-- On a server that is up, where the iteration over the keys with a prefix changes none of them,
-- DeleteKeysByPrefix deletes the keys that it yields and no other, in batches of any number, and
-- returns an error exactly when the iteration ends with one.
pub deletes_scanned :
    (r : Server) (s : r.State) (scan : String → Prog Scanned) (prefix : String) (sc : Scanned)
    → r.up s ≡ true
    → eval (scan prefix) (r.store s) ≡ (sc, r.store s)
    → ((run r (delete_keys_by_prefix scan prefix) s).0 ≡ ended_badly sc)
      × ((j : String)
          → r.store (run r (delete_keys_by_prefix scan prefix) s).1 j
            ≡ (if contains j (yielded sc) then none else r.store s j))
deletes_scanned r s scan prefix sc up h =
    let done_as = run-eval r (delete_keys_by_prefix scan prefix) s up in
    let e = eval-delete_keys_by_prefix scan prefix (r.store s) sc h in
    (
      done_as.0 ∙ ap (λ p. p.0) e,
      λ j. ap (λ ks. ks j) (done_as.1 ∙ ap (λ p. p.1) e) ∙ without_lem (yielded sc) (r.store s) j,
    )
