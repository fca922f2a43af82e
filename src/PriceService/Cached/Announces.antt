-- ===== src/PriceService/Cached/Announces.antt =====
-- The messages that a worker publishes for its batch.
use token_price_proxy.Prelude.{
  ◌≡◌, refl, ◌∙◌, String, true, Option, some, List, [], ◌∷◌, map, length, length-map, arith,
}
use token_price_proxy.Redis.Commands.{Keyspace}
use token_price_proxy.Redis.Run.{Prog, Server, run, run-eval, run-up, run-bind, eval, eval-bind}
use token_price_proxy.PriceService.{PriceResult, Result, ok, err}
use token_price_proxy.PriceService.Queue.Messages.{Request, read_batch, result_key, notify_message}
use token_price_proxy.PriceService.Cached.{store_result, store_results, worker}
use token_price_proxy.PriceService.Cached.Reads.{store-eval}

-- A message for each row, with the request key at its position.
abbrev pub messages : List PriceResult → List String → List String
messages [] keys = []
messages (r ∷ rows) [] = []
messages (r ∷ rows) (key ∷ keys) =
    notify_message (result_key r.chain_id r.address) key ∷ messages rows keys

abbrev pub messages_of : Result (List PriceResult) → List String → List String
messages_of (err e) keys = []
messages_of (ok rows) keys = messages rows keys

-- One row for each request.
abbrev pub IsAligned : Result (List PriceResult) → List Request → Type 0
IsAligned (err e) requests = Unit
IsAligned (ok rows) requests = length rows ≡ length requests

store_results-eval :
    (rows : List PriceResult) (keys : List String) (ks : Keyspace)
    → length rows ≡ length keys
    → (eval (store_results rows keys) ks).0 ≡ some (messages rows keys)
unfolding store_results
store_results-eval [] [] ks h = refl
store_results-eval [] (key ∷ keys) ks h = ground (arith, h)
store_results-eval (r ∷ rows) [] ks h = ground (arith, h)
store_results-eval (r ∷ rows) (key ∷ keys) ks h =
    let ks' = (eval (store_result r key) ks).1 in
    rw
      (
        eval-bind (store_result r key) _ ks,
        eval-bind (store_results rows keys) _ ks',
        (store-eval r key ks).0,
        store_results-eval rows keys ks' (omega arith),
      )
      refl

stores :
    (r : Server) (answer : Result (List PriceResult)) (batch : List String) (s : r.State)
    → r.up s ≡ true
    → IsAligned answer (read_batch batch)
    → (run r
        (elim answer as (λ _. Prog (Option (List String))) [
          | err e ↦ Prog.done (some [])
          | ok rows ↦ store_results rows (map (λ q. q.request_key) (read_batch batch))
        ])
        s).0
      ≡ some (messages_of answer (map (λ q. q.request_key) (read_batch batch)))
unfolding run
stores r (err e) batch s alive h = refl
stores r (ok rows) batch s alive h =
    let keys = map (λ (q : Request). q.request_key) (read_batch batch) in
    let same = length-map (λ (q : Request). q.request_key) (read_batch batch) in
    (run-eval r (store_results rows keys) s alive).0
    ∙ store_results-eval rows keys (r.store s) (omega (arith, h, same))

-- On a server that is up, a worker whose query of the sources returns one row for each request of
-- the right format in its batch does not panic, and publishes one message for each of these
-- requests, in their order, with the request's key and the key of the stored result; if the query
-- fails it publishes nothing.
pub worker-announces :
    (r : Server) (fetch : List Request → Prog (Result (List PriceResult))) (batch : List String)
    (s : r.State)
    → r.up s ≡ true
    → IsAligned (run r (fetch (read_batch batch)) s).0 (read_batch batch)
    → (run r (worker fetch batch) s).0
      ≡ some (
          messages_of
            (run r (fetch (read_batch batch)) s).0
            (map (λ q. q.request_key) (read_batch batch)))
unfolding worker
worker-announces r fetch batch s alive h = rw (run-bind r (fetch (read_batch batch)) _ s) (
    stores r (run r (fetch (read_batch batch)) s).0 batch (run r (fetch (read_batch batch)) s).1
      (run-up r (fetch (read_batch batch)) s alive) h)
