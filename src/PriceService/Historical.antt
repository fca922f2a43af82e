-- ===== src/PriceService/Historical.antt =====
-- GetHistoricalPrice of price_service.go: one price at one time, from the first source that has it.
pub mod Order
mod Tests
use token_price_proxy.Prelude.{
  ℕ, String, str_append, Bool, true, false, not, ◌&&◌, Option, none, some, ◌==◌, if◌then◌else◌,
}
use token_price_proxy.Prelude.Text.{has_part}
use token_price_proxy.PriceService.{Coin, Result, Result.ok, Result.err, is_set, join_id}

pub data HistorySource : Type 0 where
  from_coingecko from_defillama from_geckoterminal : HistorySource

-- What a source's call returns: a price and an error, each of which may be nil.
pub record Answer : Type 0 where
  pub price : Option String
  pub error : Option String

pub record Place : Type 0 where
  pub chain_id : String
  pub address : String
  pub symbol : String
  pub network : String

-- What the function calls. `T` is the type of the times; `date` is the format 02-01-2006 of one.
pub record History (W T : Type 0) : Type 0 where
  pub to_lower : String → String
  pub date : T → String
  pub coin_by_id : String → W → Result (Option Coin) × W
  pub ask : HistorySource → Place → T → W → Answer × W
  pub is_throttled : String → W → Bool × W
  pub throttle : String → String → W → Bool × W
  pub save_log : Place → T → W → W
  pub prohibited_historical : String → Bool

abbrev pub Outcome : Type 0 → Type 0
Outcome W = Result (Option String) × W

abbrev pub Attempt : Type 0 → Type 0
Attempt W = W → Answer × W

-- `err == nil && price != nil`
abbrev pub is_good : Answer → Bool
is_good a = elim a.error [ some e ↦ false | none ↦ elim a.price [ none ↦ false | some p ↦ true ] ]

-- A call, the return of its price, and otherwise what follows.
abbrev pub attempt : {W : Type 0} → Attempt W → (Answer → W → Outcome W) → W → Outcome W
attempt call next w =
    let answered = call w in
    let rest = next answered.0 answered.1 in
    if is_good answered.0 then (ok answered.0.price, answered.1) else rest

-- `err != nil && strings.Contains(err.Error(), "429")`
abbrev pub is_limited : Option String → Bool
is_limited none = false
is_limited (some e) = has_part e "429"

-- The coin's chain and address replace those of the request, if it has both.
abbrev pub place_of : Option Coin → Place → Place
place_of none p = p
place_of (some coin) p =
    if not (coin.chain_id == "") && not (coin.address == "")
    then record p { chain_id = coin.chain_id; address = coin.address }
    else p

abbrev pub price_source_of : Option Coin → Option String
price_source_of none = none
price_source_of (some coin) = coin.price_source

abbrev pub last_price_source_of : Option Coin → Option String
last_price_source_of none = none
last_price_source_of (some coin) = coin.last_price_source

-- The text of a pointer that is not nil.
abbrev pub text_of : Option String → String
text_of none = ""
text_of (some s) = s

abbrev pub is_none : Option String → Bool
is_none none = true
is_none (some p) = false

module _ {W T : Type 0} (s : History W T) (time : T) where
  -- getHistoricalPriceFromSource
  unfoldable pub from_source : Place → String → Attempt W
  from_source p source w =
      if s.prohibited_historical source
      then (record { price = none; error = none }, w)
      else if source == "geckoterminal"
      then s.ask from_geckoterminal p time w
      else if source == "coingecko"
      then s.ask from_coingecko p time w
      else if source == "defillama"
      then s.ask from_defillama p time w
      else s.ask from_geckoterminal p time w

  -- The end: with no price from the last source the coin is throttled.
  unfoldable pub give_up : String → Place → Answer → W → Outcome W
  give_up key p last w =
      let status = if is_limited last.error then "429" else "200" in
      let asked = s.throttle key status w in
      let said = if asked.0 then s.save_log p time asked.1 else asked.1 in
      if is_none last.price then (ok none, said) else (ok none, w)

  unfoldable pub default_sources : String → Place → W → Outcome W
  unfolding give_up
  default_sources key p w =
      attempt (s.ask from_coingecko p time)
        (λ _.
          attempt (s.ask from_defillama p time)
            (λ _. attempt (s.ask from_geckoterminal p time) (give_up key p)))
        w

  -- The source that answered last, if no price is known yet.
  unfoldable pub last_source : String → Place → Option String → Option String → W → Outcome W
  unfolding from_source default_sources
  last_source key p source price w =
      if is_set source && is_none price
      then attempt (from_source p (text_of source)) (λ _. default_sources key p) w
      else default_sources key p w

  unfoldable pub sources : String → Place → Option Coin → W → Outcome W
  unfolding from_source last_source
  sources key p coin w =
      let last = last_price_source_of coin in
      if is_set (price_source_of coin)
      then attempt (from_source p (text_of (price_source_of coin)))
          (λ a. last_source key p last a.price) w
      else last_source key p last none w

  abbrev pub lowered : Place → Place
  lowered request = record request { address = s.to_lower request.address }

  -- The key of the throttler: the coin's id and the date.
  abbrev pub day_key : Place → String
  day_key p = join_id p.chain_id (join_id p.address (s.date time))

  -- The function after its query of the coin.
  unfoldable pub historical_from : Place → Result (Option Coin) × W → Outcome W
  unfolding sources
  historical_from p (err e, w) = (err e, w)
  historical_from p (ok coin, w) =
      let p' = place_of coin p in
      let key = day_key p' in
      let asked = s.is_throttled key w in
      let rest = sources key p' coin asked.1 in
      if asked.0 then (ok none, s.save_log p' time asked.1) else rest

  -- GetHistoricalPrice
  unfoldable pub get_historical_price : Place → W → Outcome W
  unfolding historical_from
  get_historical_price request w =
      let p = lowered request in historical_from p (s.coin_by_id (join_id p.chain_id p.address) w)
