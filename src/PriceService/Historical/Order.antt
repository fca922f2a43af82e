-- ===== src/PriceService/Historical/Order.antt =====
-- The order of the sources in GetHistoricalPrice, as one list of calls.
use token_price_proxy.Prelude.{
  ◌≡◌, refl, String, true, false, Option, none, List, [], ◌∷◌, ◌++◌, inl, inr, ◌⊎◌, Bool-cases,
  if◌then◌else◌, arith, some, ap, ◌∙◌, ◌==◌, eq_iff,
}
use token_price_proxy.Prelude.Text.{has_part}
use token_price_proxy.PriceService.{Coin, Result.ok, join_id}
use token_price_proxy.PriceService.Historical.{
  HistorySource, from_coingecko, from_defillama, from_geckoterminal, Answer, Place, History,
  Outcome, Attempt, is_good, attempt, is_none, place_of, price_source_of, last_price_source_of,
  from_source, is_limited, lowered, day_key, give_up, default_sources, last_source, sources,
  historical_from, get_historical_price,
}

-- A price without an error ends the search in the world of its call; what follows is not done then.
abbrev pub picked : {W : Type 0} → Option String → Option String → W → Outcome W → Outcome W
picked (some price) none w rest = (ok (some price), w)
picked (some price) (some e) w rest = rest
picked none e w rest = rest

-- The first good answer of a list of calls, each made in the world that the one before left; the
-- calls behind it are not made.
abbrev pub first_good :
    {W : Type 0} → List (Attempt W) → (Answer → W → Outcome W) → Answer → W → Outcome W
first_good [] end last w = end last w
first_good (call ∷ calls) end last w =
    let answered = call w in
    picked answered.0.price answered.0.error answered.1 (first_good calls end answered.0 answered.1)

-- The calls as the code chains them.
abbrev tried : {W : Type 0} → List (Attempt W) → (Answer → W → Outcome W) → Answer → W → Outcome W
tried [] end last w = end last w
tried (call ∷ calls) end last w = attempt call (tried calls end) w

picked_lem :
    {W : Type 0} (price error : Option String) (w : W) (rest : Outcome W)
    → (if is_good (record { price = price; error = error }) then (ok price, w) else rest)
      ≡ picked price error w rest
picked_lem (some price) none w rest = refl
picked_lem (some price) (some e) w rest = refl
picked_lem none none w rest = refl
picked_lem none (some e) w rest = refl

tried_lem :
    {W : Type 0} (calls : List (Attempt W)) (end : Answer → W → Outcome W) (last : Answer) (w : W)
    → tried calls end last w ≡ first_good calls end last w
tried_lem [] end last w = refl
tried_lem (call ∷ calls) end last w =
    let answered = call w in
    picked_lem answered.0.price answered.0.error answered.1 (tried calls end answered.0 answered.1)
    ∙ ap (λ rest. picked answered.0.price answered.0.error answered.1 rest)
        (tried_lem calls end answered.0 answered.1)

module _ {W T : Type 0} (s : History W T) (time : T) where
  -- The source of a name: any name but those of CoinGecko and DefiLlama stands for GeckoTerminal.
  abbrev pub source_named : String → HistorySource
  source_named name =
      if name == "coingecko"
      then from_coingecko
      else if name == "defillama"
      then from_defillama
      else from_geckoterminal

  -- A call of the source of a name, which does nothing where the name is prohibited.
  abbrev pub call_named : Place → String → Attempt W
  call_named p name w =
      if s.prohibited_historical name
      then (record { price = none; error = none }, w)
      else s.ask (source_named name) p time w

  -- A coin's own source, as a list of at most one call.
  abbrev pub named : Place → Option String → List (Attempt W)
  named p none = []
  named p (some name) = if name == "" then [] else call_named p name ∷ []

  abbrev pub order : Place → Option Coin → List (Attempt W)
  order p coin =
      named p (price_source_of coin)
      ++ (named p (last_price_source_of coin)
          ++ s.ask from_coingecko p time
            ∷ s.ask from_defillama p time
            ∷ s.ask from_geckoterminal p time
            ∷ [])

  -- The status of the last answer.
  abbrev pub status_of : Option String → String
  status_of none = "200"
  status_of (some e) = if has_part e "429" then "429" else "200"

  -- No source has a price: the coin is throttled, with the status of the last answer, and logged if
  -- the throttler says so.
  abbrev pub unpriced : String → Place → Answer → W → Outcome W
  unpriced key p last w =
      let asked = s.throttle key (status_of last.error) w in
      (ok none, if asked.0 then s.save_log p time asked.1 else asked.1)

  -- A call with an error has no price.
  abbrev pub Clean : Type 0
  Clean =
      (source : HistorySource) (p : Place) (w : W)
      → ((s.ask source p time w).0.error ≡ none) ⊎ ((s.ask source p time w).0.price ≡ none)

  attempt_cong :
      (call : Attempt W) (next next' : Answer → W → Outcome W) (w : W)
      → (is_good (call w).0 ≡ false → next (call w).0 (call w).1 ≡ next' (call w).0 (call w).1)
      → attempt call next w ≡ attempt call next' w
  attempt_cong call next next' w h = elim (Bool-cases (is_good (call w).0)) [
    | inl e ↦ rw e refl
    | inr e ↦ rw (e, h e) refl
  ]

  call_named_lem :
      (p : Place) (name : String) (w : W) → from_source s time p name w ≡ call_named p name w
  unfolding from_source
  call_named_lem p name w = elim (Bool-cases (name == "geckoterminal")) [
    | inl e ↦
        let same : name ≡ "geckoterminal" = ground (arith, e, eq_iff name "geckoterminal") in
        rw same refl
    | inr e ↦ elim (Bool-cases (name == "coingecko")) [
      | inl f ↦ rw (e, f) refl
      | inr f ↦ elim (Bool-cases (name == "defillama")) [
        | inl g ↦ rw (e, f, g) refl
        | inr g ↦ rw (e, f, g) refl
      ]
    ]
  ]

  call_named_clean :
      Clean
      → (p : Place) (name : String) (w : W)
      → ((call_named p name w).0.error ≡ none) ⊎ ((call_named p name w).0.price ≡ none)
  call_named_clean clean p name w = elim (Bool-cases (s.prohibited_historical name)) [
    | inl e ↦ rw e (inl refl)
    | inr e ↦ rw e (clean (source_named name) p w)
  ]

  attempt_same :
      (call call' : Attempt W) (next : Answer → W → Outcome W) (w : W)
      → call w ≡ call' w
      → attempt call next w ≡ attempt call' next w
  attempt_same call call' next w h =
      ap (λ (a : Answer × W). if is_good a.0 then (ok a.0.price, a.1) else next a.0 a.1) h

  not_good :
      (a : Answer)
      → (a.error ≡ none) ⊎ (a.price ≡ none)
      → is_good a ≡ false
      → is_none a.price ≡ true
  not_good a h e = ground (arith, h, e)

  give_up_lem :
      (key : String) (p : Place) (last : Answer) (w : W)
      → is_none last.price ≡ true
      → give_up s time key p last w ≡ unpriced key p last w
  unfolding give_up
  give_up_lem key p last w h =
      rw h (ap (λ status. unpriced_at key p status w) (status_lem last.error))
    where
      unpriced_at : String → Place → String → W → Outcome W
      unpriced_at key p status w =
          let asked = s.throttle key status w in
          (ok none, if asked.0 then s.save_log p time asked.1 else asked.1)

      status_lem : (e : Option String) → (if is_limited e then "429" else "200") ≡ status_of e
      status_lem none = refl
      status_lem (some e) = refl

  abbrev defaults : Place → List (Attempt W)
  defaults p =
      s.ask from_coingecko p time
      ∷ s.ask from_defillama p time
      ∷ s.ask from_geckoterminal p time
      ∷ []

  defaults_lem :
      Clean
      → (key : String) (p : Place) (last : Answer) (w : W)
      → default_sources s time key p w ≡ tried (defaults p) (unpriced key p) last w
  unfolding default_sources
  defaults_lem clean key p last w =
      let third = s.ask from_geckoterminal p time in
      let second = s.ask from_defillama p time in
      let w1 = (s.ask from_coingecko p time w).1 in
      let w2 = (second w1).1 in
      attempt_cong (s.ask from_coingecko p time)
        (λ _. attempt second (λ _. attempt third (give_up s time key p)))
        (λ _. attempt second (λ _. attempt third (unpriced key p))) w
        (λ _.
          attempt_cong second (λ _. attempt third (give_up s time key p))
            (λ _. attempt third (unpriced key p)) w1
            (λ _. attempt_cong third (give_up s time key p) (unpriced key p) w2 (λ bad.
              give_up_lem key p (third w2).0 (third w2).1
                (not_good (third w2).0 (clean from_geckoterminal p w2) bad))))

  last_lem :
      Clean
      → (key : String) (p : Place) (source price : Option String) (last : Answer) (w : W)
      → is_none price ≡ true
      → last_source s time key p source price w
        ≡ tried (named p source ++ defaults p) (unpriced key p) last w
  unfolding last_source
  last_lem clean key p none price last w h = defaults_lem clean key p last w
  last_lem clean key p (some name) price last w h = elim (Bool-cases (name == "")) [
    | inl e ↦ rw e (defaults_lem clean key p last w)
    | inr e ↦
        rw (e, h)
          (attempt_same (from_source s time p name) (call_named p name)
              (λ _. default_sources s time key p) w (call_named_lem p name w)
            ∙ attempt_cong (call_named p name) (λ _. default_sources s time key p)
                (tried (defaults p) (unpriced key p)) w
                (λ _. defaults_lem clean key p (call_named p name w).0 (call_named p name w).1))
  ]

  sources_lem :
      Clean
      → (key : String) (p : Place) (first source : Option String) (coin : Option Coin)
      → price_source_of coin ≡ first
      → last_price_source_of coin ≡ source
      → (last : Answer) (w : W)
      → sources s time key p coin w
        ≡ tried (named p first ++ (named p source ++ defaults p)) (unpriced key p) last w
  unfolding sources
  sources_lem clean key p none source coin hf hs last w =
      rw (hf, hs) (last_lem clean key p source none last w refl)
  sources_lem clean key p (some name) source coin hf hs last w = elim (Bool-cases (name == "")) [
    | inl e ↦ rw (hf, hs, e) (last_lem clean key p source none last w refl)
    | inr e ↦
        rw (hf, hs, e)
          (attempt_same (from_source s time p name) (call_named p name)
              (λ a. last_source s time key p source a.price) w (call_named_lem p name w)
            ∙ attempt_cong (call_named p name) (λ a. last_source s time key p source a.price)
                (tried (named p source ++ defaults p) (unpriced key p)) w
                (λ bad.
                  last_lem clean key p source (call_named p name w).0.price (call_named p name w).0
                    (call_named p name w).1
                    (not_good (call_named p name w).0 (call_named_clean clean p name w) bad)))
  ]

  -- If no source answers an error and a price at once, a request for a coin that is not throttled
  -- is answered by the first good answer of the list: the coin's price source, its last price
  -- source, CoinGecko, DefiLlama, GeckoTerminal, of which the first two only where the coin names
  -- them, asked with the coin's own chain and address where it has both. No source behind the
  -- first good answer is asked, and a source whose name is prohibited is passed over where the coin
  -- names it. With no good answer the coin is throttled under the status 429 if the last error has
  -- this text in it, and else 200; the log is written if the throttler asks for it, and no price is
  -- returned.
  pub historical-first_good :
      Clean
      → (request : Place) (w w' w'' : W) (coin : Option Coin)
      → s.coin_by_id (join_id request.chain_id (s.to_lower request.address)) w ≡ (ok coin, w')
      → s.is_throttled (day_key s time (place_of coin (lowered s time request))) w' ≡ (false, w'')
      → (last : Answer)
      → get_historical_price s time request w
        ≡ first_good
            (order (place_of coin (lowered s time request)) coin)
            (unpriced
              (day_key s time (place_of coin (lowered s time request)))
              (place_of coin (lowered s time request)))
            last
            w''
  unfolding get_historical_price historical_from
  historical-first_good clean request w w' w'' coin found free last =
      let p = place_of coin (lowered s time request) in
      let end = unpriced (day_key s time p) p in
      rw (found, free)
        (sources_lem clean (day_key s time p) p (price_source_of coin) (last_price_source_of coin)
            coin refl refl last w''
          ∙ tried_lem (order p coin) end last w'')
