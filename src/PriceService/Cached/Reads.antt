-- ===== src/PriceService/Cached/Reads.antt =====
-- What a reader finds of the results that a worker has stored.
use token_price_proxy.Prelude.{
  ℕ, ◌*◌, ◌≡◌, refl, ap, ◌∙◌, String, true, false, Option, none, some, [], ◌∷◌, ◌==◌, if◌then◌else◌,
  Bool-cases, inl, inr, ltb, eq_refl, arith,
}
use token_price_proxy.Redis.Commands.{word, Keyspace, get, elapse}
use token_price_proxy.Redis.Run.{Server, run, run-eval, run-up, eval}
use token_price_proxy.Throttler.{minute}
use token_price_proxy.PriceService.{PriceResult, safe_dereference_string}
use token_price_proxy.PriceService.Queue.Messages.{result_key, notify_message}
use token_price_proxy.PriceService.Cached.{text_at, result_of, wait_for_result, store_result}

-- The price that a row stands for, to a reader.
abbrev pub readable : Option String → Option String
readable none = none
readable (some price) = if price == "" then none else (if price == "-1" then none else some price)

found_lem :
    (key s : String) (t : ℕ) (ks : Keyspace)
    → ks key ≡ some (record { value = word s; ttl = some (5 * minute) })
    → text_at (get key (elapse t ks)).0 ≡ (if ltb t (5 * minute) then some s else none)
found_lem key s t ks h = ground (arith, h)

readable_lem :
    (p : Option String) → result_of (some (safe_dereference_string p "-1")) ≡ (readable p, true)
readable_lem none = refl
readable_lem (some price) = elim (Bool-cases (price == "")) [
  | inl e ↦ rw e refl
  | inr e ↦ elim (Bool-cases (price == "-1")) [ inl m ↦ rw (e, m) refl | inr m ↦ rw (e, m) refl ]
]

pub store-eval :
    (row : PriceResult) (key : String) (ks : Keyspace)
    → ((eval (store_result row key) ks).0
        ≡ notify_message (result_key row.chain_id row.address) key ∷ [])
      × ((eval (store_result row key) ks).1 (result_key row.chain_id row.address)
          ≡ some (record {
            value = word (safe_dereference_string row.price "-1");
            ttl = some (5 * minute);
          }))
unfolding store_result
store-eval row key ks = (refl, rw (eq_refl (result_key row.chain_id row.address)) refl)

-- On a server that is up, a worker that stores a row announces it, and for five minutes from then
-- WaitForResult finds it: with the row's price, or with none if the row has no price, the empty
-- one, or the text -1 that stands for a missing one. After five minutes it finds no result.
pub stored-read :
    (r : Server) (row : PriceResult) (key : String) (t : ℕ) (s : r.State)
    → r.up s ≡ true
    → ((run r (store_result row key) s).0
        ≡ notify_message (result_key row.chain_id row.address) key ∷ [])
      × ((run r
            (wait_for_result row.chain_id row.address)
            (r.wait t (run r (store_result row key) s).1)).0
          ≡ (if ltb t (5 * minute) then (readable row.price, true) else (none, false)))
unfolding wait_for_result
stored-read r row key t s alive =
    let place = result_key row.chain_id row.address in
    let later = (run r (store_result row key) s).1 in
    let stored = run-eval r (store_result row key) s alive in
    let alive' = run-up r (store_result row key) s alive in
    let read =
      run-eval r (wait_for_result row.chain_id row.address) (r.wait t later)
        (r.wait_up t later alive') in
    let kept : r.store later place
        ≡ some (record {
          value = word (safe_dereference_string row.price "-1");
          ttl = some (5 * minute);
        }) =
      ap (λ (m : Keyspace). m place) stored.1 ∙ (store-eval row key (r.store s)).1 in
    let found = found_lem place (safe_dereference_string row.price "-1") t (r.store later) kept in
    (
      stored.0 ∙ (store-eval row key (r.store s)).0,
      read.0
          ∙ ap (λ (m : Keyspace). result_of (text_at (get place m).0)) (r.store_wait t later alive')
          ∙ ap result_of found
          ∙ elim (Bool-cases (ltb t (5 * minute))) [
            | inl e ↦ rw e (readable_lem row.price)
            | inr e ↦ rw e refl
          ],
    )
