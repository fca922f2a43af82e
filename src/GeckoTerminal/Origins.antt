-- ===== src/GeckoTerminal/Origins.antt =====
-- Where the price comes from that GetCurrentPrice of
-- internal/module/price/service/gecko_terminal_service.go gives.
use token_price_proxy.Prelude.{
  ℕ, ◌≡◌, refl, String, Bool, true, false, Bool-cases, inl, inr, Option, none, some, ap, sym, sym,
}
use token_price_proxy.Prelude.Maps.{lookup}
use token_price_proxy.PriceService.{join_id}
use token_price_proxy.CoinRepository.World.{Error, HistoricalPrice}
use token_price_proxy.Json.{
  Json, Json.null, Json.truth, Json.falsity, Json.num, Json.text, Json.arr, Json.obj, Fields,
  at_key, child, object_of, string_of,
}
use token_price_proxy.GeckoTerminal.{
  Terminal, Parsed, Parsed.unreadable, Parsed.readable, Response, Response.failed,
  Response.answered, Quote, chain_id_map, is_dubious, is_accepted, after_coin, keep_price, priced,
  with_attributes, parsed, current_answer, is_over, fetch_current, from_cache, info_part, token_url,
  part_or_empty, at_network, get_current_price,
}

-- The text `price_usd` and the text of the reserve of the token that an answer describes.
abbrev pub token_text : {F : Type 0} → String → Json F → Option String
token_text key result = string_of (child key (child "attributes" (child "data" (some result))))

abbrev pub IsPriced : (String → Type 0) → Option String → Error → Type 0
IsPriced P none e = Unit {0}
IsPriced P (some p) none = P p
IsPriced P (some p) (some e) = ⊥

-- A quote without a price, or of a price with P and no error.
abbrev pub IsSound : (String → Type 0) → Quote → Type 0
IsSound P q = IsPriced P q.price q.error

module _ {W F : Type 0} (t : Terminal W F) where
  -- The number of requests that is read before the request, and the answer to the request.
  abbrev pub limit_read : String → String → W → Option ℕ × W
  limit_read coin_id network w = t.limit network (t.cached_current coin_id w).1

  abbrev pub answer_read : String → String → String → W → Response × W
  answer_read coin_id network url w =
      t.request url (t.count_attempt network (limit_read coin_id network w).1)

  -- A price that stands in the cache, or that an accepted answer to a request for the token gives,
  -- which is within the limit and is not dubious by the reserve of the token.
  pub data IsSourced (is_cache : Bool) (chain_id address : String) (w : W) (price : String)
      : Type 0 where
    was_cached :
        is_cache ≡ true
        → (t.cached_current (join_id chain_id address) w).0 ≡ some price
        → IsSourced is_cache chain_id address w price
    was_answered :
        (network : String) (status : ℕ) (body : String) (result : Json F)
        → lookup chain_id chain_id_map ≡ some network
        → is_over t (limit_read (join_id chain_id address) network w).0 ≡ false
        → (answer_read
            (join_id chain_id address)
            network
            (token_url t network (part_or_empty (info_part network address 1)))
            w).0
          ≡ answered status body
        → is_accepted t status ≡ true
        → t.parse body ≡ readable result
        → token_text "price_usd" result ≡ some price
        → is_dubious t (token_text "total_reserve_in_usd" result) price ≡ false
        → IsSourced is_cache chain_id address w price

  module _ (P : String → Type 0) (coin_id address chain_id network : String) where
    after_coin_lem :
        (price : String) (row : HistoricalPrice) (out : Error × W)
        → P price
        → IsSound P (after_coin t price row out).0
    after_coin_lem price row (some e, w) h = _
    after_coin_lem price row (none, w) h = h

    priced_lem :
        (attributes : Fields F) (found : Option String) (w : W)
        → ((p : String)
            → found ≡ some p
            → is_dubious t (string_of (at_key "total_reserve_in_usd" attributes)) p ≡ false
            → P p)
        → IsSound P (priced t coin_id address chain_id network attributes found w).0
    unfolding keep_price
    priced_lem attributes none w h = _
    priced_lem attributes (some p) w h =
        elim (Bool-cases (is_dubious t (string_of (at_key "total_reserve_in_usd" attributes)) p)) [
          | inl e ↦ rw e _
          | inr e ↦ rw e (after_coin_lem p _ _ (h p refl e))
        ]

    with_attributes_lem :
        (o : Option (Json F)) (w : W)
        → ((p : String)
            → string_of (child "price_usd" o) ≡ some p
            → is_dubious t (string_of (child "total_reserve_in_usd" o)) p ≡ false
            → P p)
        → IsSound P (with_attributes t coin_id address chain_id network (object_of o) w).0
    with_attributes_lem none w h = _
    with_attributes_lem (some null) w h = _
    with_attributes_lem (some truth) w h = _
    with_attributes_lem (some falsity) w h = _
    with_attributes_lem (some (num x)) w h = _
    with_attributes_lem (some (text x)) w h = _
    with_attributes_lem (some (arr x)) w h = _
    with_attributes_lem (some (obj fs)) w h = priced_lem fs (string_of (at_key "price_usd" fs)) w h

    parsed_lem :
        (o : Parsed F) (w : W)
        → ((p : String) (result : Json F)
            → o ≡ readable result
            → token_text "price_usd" result ≡ some p
            → is_dubious t (token_text "total_reserve_in_usd" result) p ≡ false
            → P p)
        → IsSound P (parsed t coin_id address chain_id network o w).0
    parsed_lem (unreadable e) w h = _
    parsed_lem (readable result) w h =
        with_attributes_lem (child "attributes" (child "data" (some result))) w
          (λ p. h p result refl)

  -- The rest is for one call, `coin_id` being its key.
  module _ (chain_id address : String) (is_cache : Bool) (w : W) (network : String)
      (hn : lookup chain_id chain_id_map ≡ some network) where
    abbrev asked_url : String
    asked_url = token_url t network (part_or_empty (info_part network address 1))

    abbrev IsGood : String → Type 0
    IsGood = IsSourced is_cache chain_id address w

    answer_lem :
        (o : Response × W)
        → is_over t (limit_read (join_id chain_id address) network w).0 ≡ false
        → (answer_read (join_id chain_id address) network asked_url w).0 ≡ o.0
        → IsSound IsGood
            (current_answer t
              (join_id chain_id address)
              (part_or_empty (info_part network address 1))
              chain_id
              network
              o).0
    unfolding current_answer
    answer_lem (failed e, w1) hl h = _
    answer_lem (answered status body, w1) hl h = elim (Bool-cases (is_accepted t status)) [
      | inl e ↦ rw e (
          parsed_lem IsGood _ _ chain_id network (t.parse body) w1
            (λ p result hp hd hr. was_answered network status body result hn hl h e hp hd hr))
      | inr e ↦ rw e _
    ]

    fetch_current_lem :
        IsSound IsGood
          (fetch_current t
            (join_id chain_id address)
            (part_or_empty (info_part network address 1))
            chain_id
            network
            (limit_read (join_id chain_id address) network w)).0
    unfolding fetch_current
    fetch_current_lem =
        elim (Bool-cases (is_over t (limit_read (join_id chain_id address) network w).0)) [
          | inl e ↦ rw e _
          | inr e ↦ rw e (answer_lem _ e refl)
        ]

    from_cache_lem :
        (o : Option String × W) (use_cache : Bool)
        → is_cache ≡ use_cache
        → t.cached_current (join_id chain_id address) w ≡ o
        → IsSound IsGood
            (from_cache t
              (join_id chain_id address)
              (part_or_empty (info_part network address 1))
              chain_id
              network
              use_cache
              o).0
    from_cache_lem (none, w1) use_cache hc h = rw (sym (ap (λ o. o.1) h)) fetch_current_lem
    from_cache_lem (some p, w1) true hc h = was_cached hc (ap (λ o. o.0) h)
    from_cache_lem (some p, w1) false hc h = rw (sym (ap (λ o. o.1) h)) fetch_current_lem

  at_network_lem :
      (network : Option String) (chain_id address : String) (is_cache : Bool) (w : W)
      → lookup chain_id chain_id_map ≡ network
      → IsSound
          (IsSourced is_cache chain_id address w)
          (at_network t network chain_id address is_cache w).0
  at_network_lem none chain_id address is_cache w h = _
  at_network_lem (some network) chain_id address is_cache w h =
      from_cache_lem chain_id address is_cache w network h _ is_cache refl refl

-- For every chain, address and state of the service: GetCurrentPrice gives no price, or a price
-- without an error which either stands in the cache of current prices under the chain and the
-- address, where the cache may be used, or is the `price_usd` of the answer to the request for the
-- token in the network of the chain. In the second case the limit was not passed, the answer's status
-- is 200 or 404, and the price is not dubious by the reserve that the same answer gives.
pub get_current_price-IsSourced :
    {W F : Type 0} (t : Terminal W F) (chain_id address : String) (is_cache : Bool) (w : W)
    → IsSound
        (IsSourced t is_cache chain_id address w)
        (get_current_price t chain_id address is_cache w).0
unfolding get_current_price
get_current_price-IsSourced t chain_id address is_cache w =
    at_network_lem t (lookup chain_id chain_id_map) chain_id address is_cache w refl
