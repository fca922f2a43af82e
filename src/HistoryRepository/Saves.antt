-- ===== src/HistoryRepository/Saves.antt =====
-- One price through SaveHistoricalPrices, on the documented commands.
use token_price_proxy.Prelude.{
  ℕ, ◌+◌, ◌*◌, ◌≤◌, ◌≡◌, refl, sym, ap, ◌∙◌, String, str_append, Bool, true, false, none, some,
  List, [], ◌∷◌, ◌++◌, ◌==◌, if◌then◌else◌, length, eq_refl, Bool-cases, inl, inr,
}
use text.Mathlib.TextLemmas.{cons-append}
use token_price_proxy.Prelude.Maps.{lookup, insert, contains}
use token_price_proxy.Prelude.Text.{first_differs, ==-eq-false, ==-comm, differ_after}
use token_price_proxy.Redis.Commands.{
  Keyspace, Entry, word, number, ok, put, members_at, items_at, set_entry, list_entry, ttl_at,
  rpush,
}
use token_price_proxy.Redis.Replies.{
  items-list_entry, lrange_all_lem, sismember_lem, sadd_lem, rpush_lem,
}
use token_price_proxy.Redis.Run.{Prog, done, ◌>>=◌, eval, eval-then}
use token_price_proxy.Throttler.{hour, existence_key}
use token_price_proxy.RedisClient.{historical_key, set_historical_price_cache}
use token_price_proxy.CoinRepository.World.{Error, HistoricalPrice}
use token_price_proxy.CoinRepository.Writes.{redis_error}
use token_price_proxy.CoinRepository.Queue.{add_failure}
use token_price_proxy.HistoryRepository.{
  go_on, historical_queue_key, price_key, PriceCoder, with_entry, entries_in, is_member,
  pipe_members, exists_map, Piped, list_queue, add_member, push_text, all_ok, piped_price,
  piped_text, exec_saved, save_known, save_each, exec_piped, Orders, save_unique,
}

-- A key of the cache is no key of the queue.
other_key :
    (a x b y : String)
    → (str_append (String.◌∷◌ "p" a) x == str_append (String.◌∷◌ "h" b) y) ≡ false
other_key a x b y =
    ==-eq-false (str_append (String.◌∷◌ "p" a) x) (str_append (String.◌∷◌ "h" b) y) (λ h.
      first_differs "p" "h" (str_append a x) (str_append b y) refl
        (sym (cons-append "p" a x) ∙ h ∙ cons-append "h" b y))

module _ (today : String) (p : HistoricalPrice) where
  abbrev pub day_key : String
  day_key = historical_key p.coin_id p.day_date

  abbrev pub day_entry : Entry
  day_entry = record {
    value = word p.price;
    ttl = some (if p.day_date == today then 24 * hour else 72 * hour);
  }

  -- The keys once the price is cached.
  abbrev with_day : Keyspace → Keyspace
  with_day ks = put day_key (some day_entry) (
      put (existence_key p.coin_id) (some (record { value = number 1; ttl = some (24 * 7 * hour) }))
        ks)

  eval-set :
      (ks : Keyspace)
      → eval (set_historical_price_cache today p.coin_id p.day_date p.price) ks
        ≡ (ok tt, with_day ks)
  unfolding set_historical_price_cache
  eval-set ks = refl

  -- It changes no key of the queue.
  with_day-other :
      (b y : String) (ks : Keyspace)
      → with_day ks (str_append (String.◌∷◌ "h" b) y) ≡ ks (str_append (String.◌∷◌ "h" b) y)
  with_day-other b y ks =
      rw
        (
          other_key "rice:historical:" (str_append p.coin_id (str_append "_" p.day_date)) b y,
          other_key "rice:historical:exists:" p.coin_id b y,
        )
        refl

  module _ (coder : PriceCoder) (orders : Orders) (text : String)
      (marshals : coder.marshal_price p ≡ some text)
      (first : (k : String) → orders.first (k ∷ []) ≡ k ∷ [])
      (second : (k : String) → orders.second (k ∷ []) ≡ k ∷ [])
      (third : (k : String) → orders.third (k ∷ []) ≡ k ∷ []) where
    abbrev pub one : List (String × HistoricalPrice)
    one = (price_key p, p) ∷ []

    lookup_one : {A : Type 0} (a : A) → lookup (price_key p) ((price_key p, a) ∷ []) ≡ some a
    unfolding lookup
    lookup_one a = rw (eq_refl (price_key p)) refl

    entries_one : entries_in (price_key p ∷ []) one ≡ one
    unfolding entries_in
    entries_one = ap (λ o. with_entry (price_key p) o []) (lookup_one p)

    exists_one :
        (b : Bool)
        → is_member (lookup (price_key p) (exists_map (price_key p ∷ []) (b ∷ []) [])) ≡ b
    unfolding exists_map insert
    exists_one b = ap is_member (lookup_one b)

    -- What the second pipeline leaves: the cached price, and a queue that reads as a list.
    abbrev Leaves : ℕ → Prog Error → Keyspace → Type 0
    Leaves n prog ks =
        (ks' : Keyspace) × (eval prog ks ≡ (none, ks'))
        × (ks' day_key ≡ some day_entry)
        × (l : List String) × (items_at (ks' historical_queue_key) ≡ some l)
        × (length l ≤ n + 1)

    abbrev ended_as : Bool → Error
    ended_as b = if b then some redis_error else none

    -- For a member the second pipeline only reads.
    exec_member :
        (ks : Keyspace) (l : List String)
        → items_at (ks historical_queue_key) ≡ some l
        → eval (exec_piped (list_queue ∷ [])) ks ≡ (false, ks)
    unfolding exec_piped
    exec_member ks l h =
        ap (λ q. (add_failure q.0 false, q.1)) (lrange_all_lem historical_queue_key ks h)

    -- The keys with the price in the queue.
    abbrev with_member : List String → Keyspace → Keyspace
    with_member mem ks =
        put (price_key p) (set_entry (ttl_at (ks (price_key p))) (mem ++ p.coin_id ∷ [])) ks

    abbrev with_queued : List String → List String → Keyspace → Keyspace
    with_queued mem l ks =
        let ks' = with_member mem ks in
        put historical_queue_key (list_entry (ttl_at (ks' historical_queue_key)) (l ++ text ∷ []))
          ks'

    -- For no member the price is put at the end of the queue.
    exec_new :
        (ks : Keyspace) (l mem : List String)
        → items_at (with_member mem ks historical_queue_key) ≡ some l
        → members_at (ks (price_key p)) ≡ some mem
        → contains p.coin_id mem ≡ false
        → eval (exec_piped (add_member (price_key p) p.coin_id ∷ push_text text ∷ [])) ks
          ≡ (false, with_queued mem l ks)
    unfolding exec_piped
    exec_new ks l mem h k c =
        ap
          (λ q. (
            add_failure q.0 (add_failure (rpush historical_queue_key text q.1).0 false),
            (rpush historical_queue_key text q.1).1,
          ))
          (sadd_lem (price_key p) p.coin_id ks k c)
        ∙ ap (λ q. (add_failure q.0 false, q.1))
            (rpush_lem historical_queue_key text (with_member mem ks) h)

    -- The keys after the function, up to the check of the queue's length.
    abbrev saved_keys : Bool → List String → List String → Keyspace → Keyspace
    saved_keys true mem l ks = with_day ks
    saved_keys false mem l ks = with_queued mem l (with_day ks)

    piped_new : Bool → List Piped
    piped_new true = list_queue ∷ []
    piped_new false = add_member (price_key p) p.coin_id ∷ push_text text ∷ []

    piped_one : (b : Bool) → piped_price coder (price_key p) p b ≡ some (piped_new b)
    unfolding piped_new
    piped_one true = refl
    piped_one false = ap (piped_text (price_key p) p.coin_id) marshals

    eval-save_each :
        (b : Bool) (exists : List (String × Bool)) (ks : Keyspace)
        → is_member (lookup (price_key p) exists) ≡ b
        → eval (save_each coder today one exists) ks ≡ (some (piped_new b ++ []), with_day ks)
    unfolding save_each
    eval-save_each b exists ks e =
        eval-then (set_historical_price_cache today p.coin_id p.day_date p.price) _ ks (eval-set ks)
        ∙ ap
            (λ m. eval (go_on (piped_price coder (price_key p) p m) (done (some []))) (with_day ks))
            e
        ∙ ap (λ o. eval (go_on o (done (some []))) (with_day ks)) (piped_one b)

    eval-exec_new :
        (b : Bool) (ks : Keyspace) (l mem : List String)
        → items_at (ks historical_queue_key) ≡ some l
        → items_at (with_member mem ks historical_queue_key) ≡ some l
        → members_at (ks (price_key p)) ≡ some mem
        → contains p.coin_id mem ≡ b
        → eval (exec_saved (some (piped_new b ++ []))) ks
          ≡ (none, if b then ks else with_queued mem l ks)
    unfolding piped_new
    eval-exec_new true ks l mem h i k c =
        eval-then (exec_piped (list_queue ∷ [])) (λ b. done (if b then some redis_error else none))
          ks (exec_member ks l h)
    eval-exec_new false ks l mem h i k c =
        eval-then (exec_piped (add_member (price_key p) p.coin_id ∷ push_text text ∷ []))
          (λ b. done (if b then some redis_error else none)) ks (exec_new ks l mem i k c)

    -- The key of the set is not the key of the queue.
    set_apart : (price_key p == historical_queue_key) ≡ false
    set_apart =
        let day = str_append p.coin_id (str_append "_" p.day_date) in
        ==-eq-false (price_key p) historical_queue_key
          (λ e. differ_after "historical_prices:" "s" "q" "et:" "ueue" day "" refl e)

    member_one :
        (ks : Keyspace) (mem : List String)
        → members_at (ks (price_key p)) ≡ some mem
        → eval (pipe_members (entries_in (orders.first (price_key p ∷ [])) one)) ks
          ≡ (ok (contains p.coin_id mem) ∷ [], ks)
    unfolding pipe_members
    member_one ks mem h =
        ap (λ o. eval (pipe_members (entries_in o one)) ks) (first (price_key p))
        ∙ ap (λ es. eval (pipe_members es) ks) entries_one
        ∙ ap (λ q. (q.0 ∷ [], q.1)) (sismember_lem (price_key p) p.coin_id ks h)

    known_one :
        (b : Bool) (ks : Keyspace) (l mem : List String)
        → items_at (with_day ks historical_queue_key) ≡ some l
        → items_at (with_member mem (with_day ks) historical_queue_key) ≡ some l
        → members_at (with_day ks (price_key p)) ≡ some mem
        → contains p.coin_id mem ≡ b
        → eval (save_known coder today orders one (some (b ∷ []))) ks
          ≡ (none, if b then with_day ks else with_queued mem l (with_day ks))
    known_one b ks l mem h i k c =
        let exists = exists_map (orders.second (price_key p ∷ [])) (b ∷ []) [] in
        let known =
          ap (λ o. is_member (lookup (price_key p) (exists_map o (b ∷ []) [])))
            (second (price_key p))
          ∙ exists_one b in
        ap (λ o. eval (save_each coder today (entries_in o one) exists >>= exec_saved) ks)
          (third (price_key p))
        ∙ ap (λ es. eval (save_each coder today es exists >>= exec_saved) ks) entries_one
        ∙ eval-then (save_each coder today one exists) exec_saved ks
            (eval-save_each b exists ks known)
        ∙ eval-exec_new b (with_day ks) l mem h i k c

    pub eval-save_unique :
        (ks : Keyspace) (l mem : List String)
        → items_at (ks historical_queue_key) ≡ some l
        → members_at (ks (price_key p)) ≡ some mem
        → eval (save_unique coder today orders one) ks
          ≡ (none, if contains p.coin_id mem then with_day ks else with_queued mem l (with_day ks))
    unfolding save_unique
    eval-save_unique ks l mem h k =
        let day = str_append p.coin_id (str_append "_" p.day_date) in
        let at_queue = with_day-other "istorical_prices:queue" "" ks in
        let at_set = with_day-other "istorical_prices:set:" day ks in
        eval-then (pipe_members (entries_in (orders.first (price_key p ∷ [])) one))
          (λ rs. save_known coder today orders one (all_ok rs)) ks (member_one ks mem k)
        ∙ known_one (contains p.coin_id mem) ks l mem (ap items_at at_queue ∙ h)
            (ap items_at (
                ap
                  (λ b.
                    if b
                    then set_entry (ttl_at (with_day ks (price_key p))) (mem ++ p.coin_id ∷ [])
                    else with_day ks historical_queue_key)
                  set_apart
                ∙ at_queue)
              ∙ h)
            (ap members_at at_set ∙ k) refl

    -- The keys that the function leaves, in the two cases.
    abbrev pub left : Keyspace → List String → List String → Keyspace
    left ks mem l = if contains p.coin_id mem then with_day ks else with_queued mem l (with_day ks)

    day_apart : (b y : String) → (str_append (String.◌∷◌ "h" b) y == day_key) ≡ false
    day_apart b y =
        let day = str_append p.coin_id (str_append "_" p.day_date) in
        ==-comm (str_append (String.◌∷◌ "h" b) y) day_key ∙ other_key "rice:historical:" day b y

    with_day-same : (ks : Keyspace) → with_day ks day_key ≡ some day_entry
    with_day-same ks = rw (eq_refl day_key) refl

    -- The price is cached.
    pub left-day : (ks : Keyspace) (mem l : List String) → left ks mem l day_key ≡ some day_entry
    left-day ks mem l = elim (Bool-cases (contains p.coin_id mem)) [
      | inl e ↦ rw e (with_day-same ks)
      | inr e ↦ rw e (
          rw
            (
              day_apart "istorical_prices:queue" "",
              day_apart "istorical_prices:set:" (str_append p.coin_id (str_append "_" p.day_date)),
            )
            (with_day-same ks))
    ]

    -- A member's price leaves the queue as it is, another is put at its end.
    pub left-queue :
        (ks : Keyspace) (mem l : List String)
        → items_at (ks historical_queue_key) ≡ some l
        → items_at (left ks mem l historical_queue_key)
          ≡ some (if contains p.coin_id mem then l else l ++ text ∷ [])
    left-queue ks mem l h = elim (Bool-cases (contains p.coin_id mem)) [
      | inl e ↦ rw e (ap items_at (with_day-other "istorical_prices:queue" "" ks) ∙ h)
      | inr e ↦
          rw e
            (items-list_entry (ttl_at (with_member mem (with_day ks) historical_queue_key)) l text)
    ]
