-- ===== src/HistoryRepository/Served.antt =====
-- One price through SaveHistoricalPrices and GetHistoricalPrices, on a server that is up.
use token_price_proxy.Prelude.{
  ℕ, ◌<◌, ◌≡◌, refl, ap, ◌∙◌, String, Bool, true, false, none, some, List, [], ◌∷◌, ◌++◌, ◌==◌,
  if◌then◌else◌, leb, length, length-append, arith,
}
use token_price_proxy.Prelude.Maps.{lookup, insert, contains}
use token_price_proxy.Redis.Commands.{
  Keyspace, Value, word, ok, members_at, items_at, string_of, llen,
}
use token_price_proxy.Redis.Replies.{llen_lem}
use token_price_proxy.Redis.Run.{Server, Prog, run, run-eval, run-up, eval, command}
use token_price_proxy.RedisClient.{Scanned, get_historical_price_cache}
use token_price_proxy.CoinRepository.{Coder}
use token_price_proxy.CoinRepository.Caching.{Ended, returned}
use token_price_proxy.CoinRepository.World.{Error, HistoricalPrice, Database, World, give, after}
use token_price_proxy.HistoryRepository.{
  historical_queue_key, price_key, key_list, PriceCoder, Orders, entries_in, unique_prices,
  save_unique, after_price_len, process_price_queue, after_saved, save_historical_prices,
}
use token_price_proxy.HistoryRepository.Reads.{
  price_id, Reading, cached_price, read_cached, query_missing, get_historical_prices,
}
use token_price_proxy.HistoryRepository.Saves.{
  day_key, day_entry, one, left, left-day, left-queue, eval-save_unique,
}

-- One more price does not fill the queue.
short :
    (b : Bool) (l : List String) (text : String)
    → length l < 999
    → leb 1000 (length (if b then l else l ++ text ∷ [])) ≡ false
short true l text h = ground (arith, h)
short false l text h = ground (arith, h, length-append l (text ∷ []))

nothing_missing : {A : Type 0} (keys : List String) → entries_in {A = A} keys [] ≡ []
unfolding entries_in lookup
nothing_missing [] = refl
nothing_missing (k ∷ keys) = nothing_missing keys

module _ (coins : Coder) (coder : PriceCoder) (r : Server) (db : Database) (fuel : ℕ)
    (scan : String → Prog Scanned) (order : List String → List String) (today : String)
    (orders : Orders) (first : (k : String) → orders.first (k ∷ []) ≡ k ∷ [])
    (second : (k : String) → orders.second (k ∷ []) ≡ k ∷ [])
    (third : (k : String) → orders.third (k ∷ []) ≡ k ∷ []) (p : HistoricalPrice) (text : String)
    (marshals : coder.marshal_price p ≡ some text) (s : r.State) (d : db.State) (up : r.up s ≡ true)
    (l mem : List String) (queue : items_at (r.store s historical_queue_key) ≡ some l)
    (members : members_at (r.store s (price_key p)) ≡ some mem) (room : length l < 999) where
  abbrev saving : Prog Error
  saving =
      save_unique coder today orders (one today p coder orders text marshals first second third)

  abbrev saved : r.State
  saved = (run r saving s).1

  abbrev counted : r.State
  counted = (run r (command (llen historical_queue_key)) saved).1

  abbrev kept : Keyspace
  kept = left today p coder orders text marshals first second third (r.store s) mem l

  saved_as : ((run r saving s).0 ≡ none) × (r.store saved ≡ kept)
  saved_as =
      let ran = run-eval r saving s up in
      let e =
        eval-save_unique today p coder orders text marshals first second third (r.store s) l mem
          queue members in
      (ran.0 ∙ ap (λ q. q.0) e, ran.1 ∙ ap (λ q. q.1) e)

  abbrev queued : List String
  queued = if contains p.coin_id mem then l else l ++ text ∷ []

  counted_as :
      eval (command (llen historical_queue_key)) (r.store saved)
      ≡ (ok (length queued), r.store saved)
  counted_as = llen_lem historical_queue_key (r.store saved) (
      ap (λ ks. items_at (ks historical_queue_key)) saved_as.1
      ∙ left-queue today p coder orders text marshals first second third (r.store s) mem l queue)

  saved-up : r.up saved ≡ true
  saved-up = run-up r saving s up

  store-counted : r.store counted ≡ kept
  store-counted =
      (run-eval r (command (llen historical_queue_key)) saved saved-up).1
      ∙ ap (λ q. q.1) counted_as
      ∙ saved_as.1

  insert_one : unique_prices (p ∷ []) [] ≡ one today p coder orders text marshals first second third
  unfolding unique_prices insert
  insert_one = refl

  abbrev world_after : World r db
  world_after = (counted, d)

  save_returns :
      save_historical_prices coins coder r db fuel scan order today orders (p ∷ []) (s, d)
      ≡ (returned none, world_after)
  unfolding save_historical_prices unique_prices insert
  save_returns =
      ap (λ e. (after_saved coins coder r db fuel scan order today e (saved, d))) saved_as.0
      ∙ ap (λ n. after_price_len coins coder r db fuel scan order today n world_after)
          ((run-eval r (command (llen historical_queue_key)) saved saved-up).0
            ∙ ap (λ q. q.0) counted_as)
      ∙ ap
          (λ b.
            (if b
                then process_price_queue coins coder r db fuel scan order today
                else give r db none)
              world_after)
          (short (contains p.coin_id mem) l text room)

  module _ (read : Value → String) (format : ℕ → String) (date : ℕ)
      (dated : format date ≡ p.day_date) (reads : read (word p.price) ≡ p.price)
      (filled : (p.price == "") ≡ false) where
    abbrev answer : List (String × String)
    answer = (price_id p.coin_id p.day_date, p.price) ∷ []

    abbrev nothing : Reading
    nothing = record { prices = []; missing = [] }

    -- What the read of the cache gives.
    cached_as :
        cached_price read today p.coin_id p.day_date (string_of (kept (day_key today p))) nothing
        ≡ record { prices = answer; missing = [] }
    unfolding insert
    cached_as =
        ap (λ e. cached_price read today p.coin_id p.day_date (string_of e) nothing)
          (left-day today p coder orders text marshals first second third (r.store s) mem l)
        ∙ priced
      where
        priced :
            cached_price read today p.coin_id p.day_date
              (string_of (some (day_entry today p)))
              nothing
            ≡ record { prices = answer; missing = [] }
        priced = rw reads (rw filled refl)

    read_one :
        (ks : Keyspace)
        → cached_price read today p.coin_id p.day_date (string_of (ks (day_key today p))) nothing
          ≡ record { prices = answer; missing = [] }
        → (eval (read_cached read today (p.coin_id ∷ []) (p.day_date ∷ []) nothing) ks).0
          ≡ returned (record { prices = answer; missing = [] })
    unfolding read_cached get_historical_price_cache
    read_one ks h = ap returned h

    abbrev reading : Prog (Ended Reading)
    reading = read_cached read today (p.coin_id ∷ []) (format date ∷ []) nothing

    read_counted : (run r reading counted).0 ≡ returned (record { prices = answer; missing = [] })
    read_counted =
        (run-eval r reading counted
          (run-up r (command (llen historical_queue_key)) saved saved-up)).0
        ∙ ap
            (λ t.
              (eval (read_cached read today (p.coin_id ∷ []) (t ∷ []) nothing) (r.store counted)).0)
            dated
        ∙ ap (λ ks. (eval (read_cached read today (p.coin_id ∷ []) (p.day_date ∷ []) nothing) ks).0)
            store-counted
        ∙ read_one kept cached_as

    read_answer :
        (get_historical_prices read today r db order format
          (p.coin_id ∷ [])
          (date ∷ [])
          world_after).0
        ≡ returned answer
    unfolding get_historical_prices query_missing
    read_answer =
        let w : World r db = ((run r reading counted).1, d) in
        ap
          (λ e.
            (after r db (e, w)
              (λ rd.
                query_missing read today r db order format
                  (entries_in (order (key_list rd.missing)) rd.missing) rd.prices)).0)
          read_counted
        ∙ ap (λ ms. (query_missing read today r db order format ms answer w).0)
            (nothing_missing (order []))

    -- On a server that is up, where a price can be marshalled and is not empty, its set and the queue
    -- hold a set and a list, the queue has less than 999 items, each range over one key yields it,
    -- and a cached price reads back as its text: SaveHistoricalPrices on that price returns nil, and
    -- GetHistoricalPrices for its coin and a time of its day then returns it and nothing else.
    pub saved_read :
        ((save_historical_prices coins coder r db fuel scan order today orders (p ∷ []) (s, d)).0
          ≡ returned none)
        × ((get_historical_prices read today r db order format
              (p.coin_id ∷ [])
              (date ∷ [])
              (save_historical_prices coins coder r db fuel scan order today orders
                (p ∷ [])
                (s, d)).1).0
            ≡ returned ((price_id p.coin_id p.day_date, p.price) ∷ []))
    saved_read = (
      ap (λ q. q.0) save_returns,
      ap
            (λ q.
              (get_historical_prices read today r db order format (p.coin_id ∷ []) (date ∷ [])
                q.1).0)
            save_returns
          ∙ read_answer,
    )

  -- Under the same conditions, a price whose coin is in the set of its day already is not queued, and
  -- leaves the queue as it was: the price that is queued and will be stored is the old one. Another
  -- price is put at the end of the queue.
  pub save_queues :
      items_at (
        r.store
          (save_historical_prices coins coder r db fuel scan order today orders (p ∷ []) (s, d)).1.0
          historical_queue_key)
      ≡ some (if contains p.coin_id mem then l else l ++ text ∷ [])
  save_queues =
      ap (λ q. items_at (r.store q.1.0 historical_queue_key)) save_returns
      ∙ ap (λ ks. items_at (ks historical_queue_key)) store-counted
      ∙ left-queue today p coder orders text marshals first second third (r.store s) mem l queue
