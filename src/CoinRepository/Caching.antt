-- ===== src/CoinRepository/Caching.antt =====
-- cacheCoinBatch: the rows are cached, 1000 to a pipeline, and then those that stand for others
-- are overwritten by what is behind them.
pub mod Served
use token_price_proxy.Prelude.{
  ℕ, zero, suc, String, Bool, true, false, Option, none, some, List, [], ◌∷◌, ◌++◌, if◌then◌else◌,
}
use token_price_proxy.Prelude.Chunks.{chunks}
use token_price_proxy.Redis.Commands.{word, Reply, ok, err, set}
use token_price_proxy.Redis.Run.{Prog, done, send, ◌>>=◌}
use token_price_proxy.CoinRepository.{
  Coins, cache_duration, cache_batch_size, cache_max_retries, coin_key, target, is_bare, Coder,
}
use token_price_proxy.CoinRepository.Reads.{renamed, write_coin, get_coins_by_one_id}

-- How a call ends: it returns, it panics, or it is still running after its rounds.
pub data Ended (A : Type 0) : Type 0 where
  returned : A → Ended A
  panicked unending : Ended A

-- What one round over a batch gathers: the rows that stand for others, and the writes of its
-- pipeline, `none` when json.Marshal fails on a row and the pipeline is given up.
pub record Round : Type 0 where
  pub named : List Coins
  pub writes : Option (List (String × String))

abbrev pub and_write :
    String × String → Option (List (String × String)) → Option (List (String × String))
and_write w none = none
and_write w (some ws) = some (w ∷ ws)

abbrev pub if_named : Coins → Option String → List Coins → List Coins
if_named c none cs = cs
if_named c (some _) cs = c ∷ cs

module _ (coder : Coder) where
  abbrev pub row_round : Coins → Option String → Round → Round
  row_round c none rest = record { named = if_named c (target c.return_coins_id) []; writes = none }
  row_round c (some s) rest = record {
    named = if_named c (target c.return_coins_id) rest.named;
    writes = and_write (coin_key c.id, s) rest.writes;
  }

  unfoldable pub round : List Coins → Round
  round [] = record { named = []; writes = some [] }
  round (c ∷ cs) =
      let rest = round cs in if is_bare c then rest else row_round c (coder.marshal c) rest

  -- pipe.Exec of writes: all are sent; whether one failed.
  abbrev pub or_failed : Reply (Unit {0}) → Bool → Bool
  or_failed (ok _) b = b
  or_failed err b = true

  unfoldable pub pipe_sets : List (String × String) → Prog Bool
  pipe_sets [] = done false
  pipe_sets ((key, text) ∷ ws) =
      send (set key (word text) cache_duration) (λ r. pipe_sets ws >>= λ b. done (or_failed r b))

  -- The attempts at one batch. `named` is `returnCoins` so far, which each attempt adds to.
  abbrev pub cache_attempt :
      Round → List Coins → (List Coins → Prog (List Coins)) → Prog (List Coins)
  cache_attempt rd named again = elim rd.writes [
    | none ↦ done (named ++ rd.named)
    | some ws ↦ pipe_sets ws >>= λ failed.
        if failed then again (named ++ rd.named) else done (named ++ rd.named)
  ]

  unfoldable pub attempts : ℕ → List Coins → List Coins → Prog (List Coins)
  attempts zero batch named = done named
  attempts (suc n) batch named = cache_attempt (round batch) named (attempts n batch)

  unfoldable pub cache_rows : List (List Coins) → List Coins → Prog (List Coins)
  cache_rows [] named = done named
  cache_rows (batch ∷ batches) named = attempts cache_max_retries batch named >>= cache_rows batches

  -- `returnCoin.ID = coin.ID` on a nil pointer panics.
  abbrev pub overwrite :
      String → Option (Reply (Option Coins)) → Prog (Ended (Unit {0})) → Prog (Ended (Unit {0}))
  overwrite id none rest = done unending
  overwrite id (some err) rest = rest
  overwrite id (some (ok none)) rest = done panicked
  overwrite id (some (ok (some c))) rest = send (write_coin coder (renamed coder id c)) (λ _. rest)

  abbrev pub overwrite_at :
      ℕ → Coins → Option String → Prog (Ended (Unit {0})) → Prog (Ended (Unit {0}))
  overwrite_at fuel c none rest = rest
  overwrite_at fuel c (some t) rest =
      get_coins_by_one_id coder fuel t >>= λ r. overwrite c.id r rest

  unfoldable pub overwrite_all : ℕ → List Coins → Prog (Ended (Unit {0}))
  overwrite_all fuel [] = done (returned tt)
  overwrite_all fuel (c ∷ cs) =
      overwrite_at fuel c (target c.return_coins_id) (overwrite_all fuel cs)

  unfoldable pub cache_coin_batch : ℕ → List Coins → Prog (Ended (Unit {0}))
  cache_coin_batch fuel coins = cache_rows (chunks cache_batch_size coins) [] >>= overwrite_all fuel
