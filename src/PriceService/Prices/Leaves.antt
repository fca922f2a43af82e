-- ===== src/PriceService/Prices/Leaves.antt =====
-- How a caller of GetPrice or GetBatchPrice leaves the maps of the callers that wait.
use token_price_proxy.Prelude.{
  ℕ, ◌≤◌, ◌≡◌, refl, ◌∙◌, String, Bool, true, false, not, ◌&&◌, Option, none, some, List, [], ◌∷◌,
  ◌++◌, inl, inr, Bool-cases, length, eqb, eq_refl, arith,
}
use token_price_proxy.Prelude.Maps.{lookup, lookup-insert, lookup-erase}
use token_price_proxy.Prelude.Panic.{Sure, Sure->>=}
use token_price_proxy.PriceService.{PriceResult, Result, ok, err, is_set}
use token_price_proxy.PriceService.Queue.Messages.{request_info}
use token_price_proxy.PriceService.Waiting.{
  Registry, ids_of, wait_for, register_price, register_keys, leave,
}
use token_price_proxy.PriceService.Prices.{
  Asks, one_ask, Calls, some_unpriced, count_entries, entries, places, requests, on_registry, ask,
  rows_at, batch_rows, price_at, price_queued, then_leave, price_key, price_request, get_price,
  batch_queued, batch_read, get_batch_price,
}

-- No channel and no keys stand under an id.
abbrev pub IsGone : String → Registry → Type 0
IsGone id reg = (lookup id reg.channels ≡ none) × (lookup id reg.request_id_keys ≡ none)

leave-IsGone : (id : String) (reg : Registry) → IsGone id (leave id reg)
unfolding leave
leave-IsGone id reg =
    let a = lookup-erase id id reg.channels in
    let b = lookup-erase id id reg.request_id_keys in
    (ground (arith, a, eq_refl id), ground (arith, b, eq_refl id))

-- A caller of GetPrice that registers and leaves.
stays_lem :
    (id key : String) (reg : Registry)
    → (lookup key (leave id (register_price id key reg)).keys_request_ids
        ≡ some (ids_of (lookup key reg.keys_request_ids) ++ id ∷ []))
      × (lookup id (leave id (register_price id key reg)).channels ≡ none)
      × (lookup id (leave id (register_price id key reg)).request_id_keys ≡ none)
unfolding leave register_price wait_for
stays_lem id key reg =
    let ids = ids_of (lookup key reg.keys_request_ids) ++ id ∷ [] in
    let gone = leave-IsGone id (register_price id key reg) in
    (lookup-insert key key ids reg.keys_request_ids ∙ rw (eq_refl key) refl, gone.0, gone.1)

module _ {W : Type 0} (s : Calls W)
    (set_get : (g : Registry) (w : W) → s.registry (s.set_registry g w) ≡ g) where
  -- The query of the sources for the tokens does not panic.
  abbrev pub Fetches : Asks → Type 0
  Fetches q =
      (is_cache exclude_route : Bool) (w : W)
      → Sure (λ _. Unit {0}) (s.fetch q is_cache exclude_route w)

  -- Nor does WaitForBatchResults.
  abbrev pub Waits : Asks → Type 0
  Waits q =
      (l : List (Option (Option String))) (w : W)
      → Sure (λ _. Unit {0}) (s.wait_for_batch_results q l w)

  abbrev Ends : {A : Type 0} → Option (A × W) → Type 0
  Ends m = Sure (λ _. Unit {0}) m

  ask-Ends :
      (q : Asks)
      → Fetches q
      → (c x : Bool) (other : Option String) (w : W) → Ends (ask s q c x other w)
  unfolding ask
  ask-Ends q fetches c x other w =
      Sure->>= _ _ (s.fetch q c x w) _ (fetches c x w) (λ asked _. (_, refl, _))

  price_at-Ends :
      (q : Asks)
      → Fetches q
      → (c x : Bool) (seen : (Option String × Bool) × W) → Ends (price_at s q c x seen)
  price_at-Ends q fetches c x ((value, false), w) = (_, refl, _)
  price_at-Ends q fetches c x ((value, true), w) = elim (Bool-cases (not (is_set value) && not x)) [
    | inl e ↦ rw e (ask-Ends q fetches c x value w)
    | inr e ↦ rw e (_, refl, _)
  ]

  price_queued-Ends :
      (q : Asks)
      → Fetches q
      → (chain address : String) (c x : Bool) (id : String) (queued : Result Bool × W)
      → Ends (price_queued s q chain address c x id queued)
  price_queued-Ends q fetches chain address c x id (err e, w) = (_, refl, _)
  price_queued-Ends q fetches chain address c x id (ok new, w) =
      let w' = (s.answered id w).1 in
      elim (Bool-cases (s.answered id w).0) [
        | inl e ↦ rw e (price_at-Ends q fetches c x (s.wait_for_result chain address w'))
        | inr e ↦ rw e (ask-Ends q fetches c x none w')
      ]

  rows_at-Ends :
      (q : Asks)
      → Fetches q
      → (c x : Bool) (rows : Result (List PriceResult) × W) → Ends (rows_at s q c x rows)
  rows_at-Ends q fetches c x (err e, w) = (_, refl, _)
  rows_at-Ends q fetches c x (ok rows, w) = elim (Bool-cases (not x && some_unpriced rows)) [
    | inl e ↦ rw e (fetches c x w)
    | inr e ↦ rw e (_, refl, _)
  ]

  batch_rows-Ends :
      (q : Asks)
      → Fetches q
      → Waits q
      → (c x : Bool) (l : List (Option (Option String))) (w : W) → Ends (batch_rows s q c x l w)
  unfolding batch_rows
  batch_rows-Ends q fetches waits c x l w =
      Sure->>= _ _ (s.wait_for_batch_results q l w) _ (waits l w)
        (λ rows _. rows_at-Ends q fetches c x rows)

  batch_queued-Ends :
      (q : Asks)
      → Fetches q
      → Waits q
      → (c x : Bool) (id : String) (l : List (Option (Option String))) (queued : Result ℕ × W)
      → Ends (batch_queued s q c x id l queued)
  batch_queued-Ends q fetches waits c x id l (err e, w) = (_, refl, _)
  batch_queued-Ends q fetches waits c x id l (ok new, w) =
      let w' = (s.answered id w).1 in
      elim (Bool-cases (eqb (count_entries l) (length q.chain_ids))) [
        | inl e ↦ rw e (batch_rows-Ends q fetches waits c x l w)
        | inr e ↦ elim (Bool-cases (s.answered id w).0) [
          | inl a ↦ rw (e, a) (batch_rows-Ends q fetches waits c x l w')
          | inr a ↦ rw (e, a) (fetches c x w')
        ]
      ]

  batch_read-Ends :
      (q : Asks)
      → Fetches q
      → Waits q
      → (c x : Bool) (id : String) (at : List (String × String))
        (read : Result (List (Option String)) × W)
      → Ends (batch_read s q c x id at read)
  unfolding batch_read
  batch_read-Ends q fetches waits c x id at (err e, w) = (_, refl, _)
  batch_read-Ends q fetches waits c x id at (ok texts, w) =
      let new = requests s q 0 at (entries texts) in
      batch_queued-Ends q fetches waits c x id (entries texts) (
        s.enqueue_all new.request_keys new.request_infos
          (on_registry s (register_keys id new.registered) w))

  -- A run with the deferred function behind it.
  left_lem :
      {A : Type 0} (id : String) (m : Option (A × W))
      → Ends m
      → Sure (λ out. IsGone id (s.registry out.1)) (then_leave s id m)
  left_lem id m ends = Sure->>= _ _ m _ ends (λ o _.
      (_, refl, rw (set_get (leave id (s.registry o.1)) o.1) (leave-IsGone id (s.registry o.1))))

  places-Sure :
      (chain_ids addresses : List String)
      → length chain_ids ≤ length addresses
      → (at : List (String × String)) × (places chain_ids addresses ≡ some at)
  unfolding places
  places-Sure [] addresses h = ([], refl)
  places-Sure (c ∷ chain_ids) [] h = ground (arith, h)
  places-Sure (c ∷ chain_ids) (a ∷ addresses) h =
      let (at, e) = places-Sure chain_ids addresses (omega arith) in rw e (_, refl)

  -- With the cache, where no price is stored and the query of the sources does not panic: GetPrice
  -- does not either, and whatever way it returns, with the error of the queue, with an answer, without
  -- one or after the time-out, no channel and no keys stand under its request id any more, whatever
  -- other callers and messages have done to the maps meanwhile.
  pub get_price-leaves :
      (chain_id address symbol network : String) (exclude_route : Bool) (w : W)
      → Fetches (one_ask chain_id (s.to_lower address) symbol network)
      → ((s.wait_for_result chain_id (s.to_lower (s.to_lower address)) w).0.1
          && is_set (s.wait_for_result chain_id (s.to_lower (s.to_lower address)) w).0.0)
        ≡ false
      → Sure
          (λ out.
            IsGone
              (s.new_id (s.wait_for_result chain_id (s.to_lower (s.to_lower address)) w).1).0
              (s.registry out.1))
          (get_price s chain_id address symbol network true exclude_route w)
  unfolding get_price price_request
  get_price-leaves chain_id address symbol network x w fetches unseen = rw unseen (
      left_lem _ _ (
        price_queued-Ends (one_ask chain_id (s.to_lower address) symbol network) fetches _ _ true x
          _ _))

  -- With the cache and without the routes, with an address for each chain, where neither the query
  -- of the sources nor WaitForBatchResults panics: GetBatchPrice does not either, and whatever way
  -- it returns, no channel and no keys stand under its request id any more.
  pub get_batch_price-leaves :
      (q : Asks) (w : W)
      → length q.chain_ids ≤ length q.addresses
      → Fetches q
      → Waits q
      → Sure (λ out. IsGone (s.new_id w).0 (s.registry out.1)) (get_batch_price s q true true w)
  unfolding get_batch_price
  get_batch_price-leaves q w h fetches waits =
      let (at, e) = places-Sure q.chain_ids q.addresses h in
      rw e (left_lem (s.new_id w).0 _ (batch_read-Ends q fetches waits true true _ at _))

  -- With the cache, where no price is stored and the queue answers the request with an error, the maps
  -- being as the caller left them: GetPrice returns the error, and the request id still stands
  -- behind the ids that wait for its key, although its channel and its keys are gone.
  pub get_price-stays :
      (chain_id address symbol network : String) (exclude_route : Bool) (w w1 w2 w3 : W)
      (id key e : String)
      → (s.wait_for_result chain_id (s.to_lower (s.to_lower address)) w) ≡ ((none, false), w1)
      → s.new_id w1 ≡ (id, w2)
      → price_key s chain_id (s.to_lower address) symbol network ≡ key
      → s.enqueue key
          (request_info key chain_id (s.to_lower address) symbol network)
          (on_registry s (register_price id key) w2)
        ≡ (err e, w3)
      → s.registry w3 ≡ register_price id key (s.registry w2)
      → Sure
          (λ out.
            (out.0 ≡ err e)
            × (lookup key (s.registry out.1).keys_request_ids
                ≡ some (ids_of (lookup key (s.registry w2).keys_request_ids) ++ id ∷ []))
            × (lookup id (s.registry out.1).channels ≡ none)
            × (lookup id (s.registry out.1).request_id_keys ≡ none))
          (get_price s chain_id address symbol network true exclude_route w)
  unfolding get_price price_request
  get_price-stays chain_id address symbol network x w w1 w2 w3 id key e unseen made hashed refused
        kept =
      let stays = stays_lem id key (s.registry w2) in
      rw (unseen, made, hashed, refused)
        (
          _,
          refl,
          rw (set_get (leave id (s.registry w3)) w3) (rw kept (refl, stays.0, stays.1, stays.2)),
        )
