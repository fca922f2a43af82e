-- ===== src/PriceService/Queue/Scripts.antt =====
-- The Lua scripts on the queue and on the set of the keys that are queued.
use token_price_proxy.Prelude.{
  ℕ, ◌+◌, String, Bool, Option, none, some, List, [], ◌∷◌, ◌==◌, if◌then◌else◌, length, eqb,
}
use token_price_proxy.Prelude.Text.{split}
use token_price_proxy.Redis.Commands.{Reply, ok, err, Command, sadd, srem, rpush, lrange, ltrim}
use token_price_proxy.Redis.Script.{pure, ◌>>=◌, ◌>>◌}
use token_price_proxy.Redis.Run.{Prog, done, send}

-- The first part that is not empty: what the pattern ([^|]+) matches first.
abbrev first_filled : List String → Option String
first_filled [] = none
first_filled (p ∷ ps) = let rest = first_filled ps in if p == "" then rest else some p

unfoldable pub request_key : String → Option String
request_key info = first_filled (split b'|' info)

-- `if requestKey then redis.call('SREM', KEYS[2], requestKey) end`
abbrev pub forget_key : String → Option String → Command (Unit {0})
forget_key set_key none = pure tt
forget_key set_key (some key) = srem set_key key >> pure tt

unfoldable pub forget : String → List String → Command (Unit {0})
forget set_key [] = pure tt
forget set_key (info ∷ requests) = forget_key set_key (request_key info) >> forget set_key requests

module _ (set_key queue_key : String) where
  -- The script of EnqueueUniqueRequest, and one round of that of EnqueueUniqueRequests.
  unfoldable pub enqueue_script : String → String → Command ℕ
  enqueue_script key info = do
    fresh ← sadd set_key key
    if fresh then (rpush queue_key info >> pure 1) else pure 0

  unfoldable pub enqueue_all_script : List (String × String) → ℕ → Command ℕ
  enqueue_all_script [] count = pure count
  enqueue_all_script ((key, info) ∷ requests) count = do
    n ← enqueue_script key info
    enqueue_all_script requests (count + n)

  -- `result.(int64) == 1`
  abbrev is_new : Reply ℕ → Reply Bool
  is_new (ok n) = ok (eqb n 1)
  is_new err = err

  -- EnqueueUniqueRequest
  unfoldable pub enqueue_unique_request : String → String → Prog (Reply Bool)
  enqueue_unique_request key info = send (enqueue_script key info) (λ r. done (is_new r))

  -- The arguments of the script: requestKeys[i] and requestInfos[i] in turn.
  abbrev pub pairs : List String → List String → List (String × String)
  pairs [] infos = []
  pairs (key ∷ keys) [] = []
  pairs (key ∷ keys) (info ∷ infos) = (key, info) ∷ pairs keys infos

  -- EnqueueUniqueRequests
  unfoldable pub enqueue_unique_requests : List String → List String → Prog (Reply ℕ)
  enqueue_unique_requests keys infos =
      if eqb (length keys) (length infos)
      then send (enqueue_all_script (pairs keys infos) 0) done
      else done err

  unfoldable pub clear : ℕ → List String → Command (List String)
  clear n [] = pure []
  clear n (r ∷ requests) = ltrim queue_key n >> forget set_key (r ∷ requests) >> pure (r ∷ requests)

  -- The script of ProcessPriceRequests, for at most `n` requests, where n is 1 at least: a fetch size
  -- of 0 becomes 2000 when the service is made.
  unfoldable pub drain_script : ℕ → Command (List String)
  drain_script n = do requests ← lrange queue_key n; clear n requests
