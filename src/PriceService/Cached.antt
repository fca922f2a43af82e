-- ===== src/PriceService/Cached.antt =====
-- The results that a worker of ProcessPriceRequests stores and announces, and their reads in
-- WaitForResult and WaitForBatchResults.
pub mod Reads
pub mod Announces
pub mod Batch
mod Tests
use token_price_proxy.Prelude.{
  ℕ, ◌+◌, ◌*◌, String, str_append, Bool, true, false, Option, none, some, List, [], ◌∷◌, ◌++◌, map,
  ◌==◌, if◌then◌else◌, get_elem?,
}
use token_price_proxy.Redis.Commands.{Value, word, number, members, items, Reply, get, set}
use token_price_proxy.Redis.Run.{Prog, done, send, ◌>>=◌, command}
use token_price_proxy.Throttler.{minute}
use token_price_proxy.PriceService.{
  PriceResult, Result, Result.ok, Result.err, safe_dereference_string,
}
use token_price_proxy.PriceService.Queue.Messages.{Request, read_batch, result_key, notify_message}

-- What a Get of the client library returns for a text: none is an error, redis.Nil included.
abbrev pub text_at : Reply (Option Value) → Option String
text_at (Reply.ok (some (word s))) = some s
text_at _ = none

-- WaitForResult behind its Get: the price, and whether there is a result.
abbrev pub result_of : Option String → Option String × Bool
result_of none = (none, false)
result_of (some price) = if price == "-1" then (none, true) else (some price, true)

-- WaitForResult for a chain and an address.
unfoldable pub wait_for_result : String → String → Prog (Option String × Bool)
wait_for_result chain_id address =
    send (get (result_key chain_id address)) (λ r. done (result_of (text_at r)))

-- A row is stored for five minutes and, if that succeeds, announced by a message.
unfoldable pub store_result : PriceResult → String → Prog (List String)
store_result r key = do
  let place = result_key r.chain_id r.address
  reply ← command (set place (word (safe_dereference_string r.price "-1")) (5 * minute))
  elim reply [ Reply.err ↦ done [] | Reply.ok _ ↦ done (notify_message place key ∷ []) ]

abbrev with_more : List String → Option (List String) → Option (List String)
with_more said none = none
with_more said (some more) = some (said ++ more)

-- The worker's loop over its rows: the messages that it publishes, or `none`, a panic, for a row
-- without a request key.
unfoldable pub store_results : List PriceResult → List String → Prog (Option (List String))
store_results [] keys = done (some [])
store_results (r ∷ rows) [] = done none
store_results (r ∷ rows) (key ∷ keys) = do
  said ← store_result r key
  more ← store_results rows keys
  done (with_more said more)

-- A worker of ProcessPriceRequests on its batch. `fetch`: FetchAndProcessBatchPrices for the
-- requests; its error is only logged.
module _ (fetch : List Request → Prog (Result (List PriceResult))) where
  unfoldable pub worker : List String → Prog (Option (List String))
  worker batch = do
    answer ← fetch (read_batch batch)
    elim answer [
      | err e ↦ done (some [])
      | ok rows ↦ store_results rows (map (λ r. r.request_key) (read_batch batch))
    ]
