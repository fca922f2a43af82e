-- ===== src/GeckoTerminal/Pools/Candles.antt =====
-- The price of a pool by the candles that GeckoTerminal answers.
use token_price_proxy.Prelude.{
  ℕ, ◌≡◌, refl, ◌∙◌, ap, subst, arith, String, str_append, Bool-cases, inl, inr, Option, none, some,
  List, [], ◌∷◌, ◌==◌, if◌then◌else◌, get_elem?, All, map,
}
use Prim.Native.Char.{code}
use token_price_proxy.Prelude.{eqb}
use package.text.Mathlib.TextLemmas.{cons-append, nil-append}
use token_price_proxy.Prelude.Maps.{lookup, lookup-insert}
use token_price_proxy.Prelude.Panic.{◌>>=◌, >>=-eq-some}
use token_price_proxy.Prelude.Text.{split, append-==, ==-comm}
use token_price_proxy.CoinRepository.World.{HistoricalPrice}
use token_price_proxy.Json.{
  Json, Json.num, Json.arr, Json.obj, Json.null, Json.truth, Json.falsity, Json.text, Items,
  Items.nil, Items.cons, Fields, child, object_of, string_of, number_of, list_of, list_of_items,
}
use token_price_proxy.GeckoTerminal.{Terminal, Parsed.readable, Response.answered}
use token_price_proxy.GeckoTerminal.Pools.{
  last_part, extract_token_address, pool_token, ohlcv_items, listed_items, read_ohlcvs, base_id,
  get_ohlcvs, pool_rows, price_map, pool_price, after_ohlcvs, with_pool, process_pool_data,
}

-- The price of the last row of a day, or else `found`.
unfoldable pub last_price : String → List HistoricalPrice → Option String → Option String
last_price day [] found = found
last_price day (r ∷ rows) found =
    last_price day rows (if r.day_date == day then some r.price else found)

-- The keys of two days of one coin.
day_key-== :
    (coin_id date day : String)
    → (str_append coin_id (str_append "_" date) == str_append coin_id (str_append "_" day))
      ≡ (day == date)
day_key-== coin_id date day =
    append-== coin_id (str_append "_" date) (str_append "_" day)
    ∙ append-== "_" date day
    ∙ ==-comm date day

price_map_lem :
    (coin_id date : String) (rows : List HistoricalPrice) (m : List (String × String))
    → All (λ r. r.coin_id ≡ coin_id) rows
    → lookup (str_append coin_id (str_append "_" date)) (price_map rows m)
      ≡ last_price date rows (lookup (str_append coin_id (str_append "_" date)) m)
unfolding price_map last_price
price_map_lem coin_id date [] m h = refl
price_map_lem coin_id date (r ∷ rows) m h =
    price_map_lem coin_id date rows _ h.1
    ∙ ap (λ o. last_price date rows o)
        (rw h.0 (
          lookup-insert (str_append coin_id (str_append "_" r.day_date))
            (str_append coin_id (str_append "_" date)) r.price m
          ∙ ap
              (λ b. if b then some r.price else lookup (str_append coin_id (str_append "_" date)) m)
              (day_key-== coin_id date r.day_date)))

pool_rows-All :
    {W F : Type 0} (t : Terminal W F) (coin_id : String) (items : List (List (Json F)))
    (rows : List HistoricalPrice)
    → pool_rows t coin_id items ≡ some rows
    → All (λ r. r.coin_id ≡ coin_id) rows
unfolding pool_rows
pool_rows-All t coin_id [] [] h = _
pool_rows-All t coin_id [] (r ∷ rows) h = ground arith
pool_rows-All t coin_id (item ∷ items) rows h =
    let (time, et, h1) = >>=-eq-some (number_of (get_elem? item 0)) _ h in
    let (price, ep, h2) = >>=-eq-some (number_of (get_elem? item 4)) _ h1 in
    let (others, eo, h3) = >>=-eq-some (pool_rows t coin_id items) _ h2 in
    subst (λ o. AllOf o) h3 (refl, pool_rows-All t coin_id items others eo)
  where
    AllOf : Option (List HistoricalPrice) → Type 0
    AllOf none = Unit
    AllOf (some rows) = All (λ r. r.coin_id ≡ coin_id) rows

-- The price of a pool whose rows are read.
rows_priced :
    {W F : Type 0} (t : Terminal W F) (pool_data : Json F)
    (coin_id date network address pool_address : String) (w w1 : W) (pool : Fields F) (id : String)
    (item : List (Json F)) (items : List (List (Json F))) (rows : List HistoricalPrice)
    → object_of (child "data" (some pool_data)) ≡ some pool
    → base_id pool ≡ some id
    → get_ohlcvs t network pool_address (pool_token address id) w ≡ some ((none, item ∷ items), w1)
    → pool_rows t coin_id (item ∷ items) ≡ some rows
    → process_pool_data t pool_data coin_id date network address pool_address w
      ≡ some (record { price = last_price date rows none; error = none }, (t.save_prices rows w1).1)
unfolding process_pool_data lookup
rows_priced t pool_data coin_id date network address pool_address w w1 pool id item items rows hp hb
      ho hr =
    ap (λ o. with_pool t coin_id date network address pool_address o w) hp
    ∙ ap
        (λ o. o >>= λ id.
          get_ohlcvs t network pool_address (pool_token address id) w
          >>= after_ohlcvs t coin_id date)
        hb
    ∙ ap (λ o. o >>= after_ohlcvs t coin_id date) ho
    ∙ ap (λ o. o >>= λ rows. some (pool_price t coin_id date rows w1)) hr
    ∙ ap (λ p. some (record { price = p; error = none }, (t.save_prices rows w1).1))
        (price_map_lem coin_id date rows [] (pool_rows-All t coin_id (item ∷ items) rows hr))

-- A candle of a day: a time, four prices and a volume.
pub record Candle (F : Type 0) : Type 0 where
  pub time : F
  pub open_price : F
  pub high : F
  pub low : F
  pub close : F
  pub volume : F

-- The JSON of a candle.
abbrev candle_items : {F : Type 0} → Candle F → Items F
candle_items c = cons (num c.time) (
    cons (num c.open_price)
      (cons (num c.high) (cons (num c.low) (cons (num c.close) (cons (num c.volume) nil)))))

abbrev pub candle_json : {F : Type 0} → Candle F → Json F
candle_json c = arr (candle_items c)

-- The candles that an answer lists.
abbrev pub ListsCandles : {F : Type 0} → Json F → List (Candle F) → Type 0
ListsCandles {F = F} result candles =
    list_of (child "ohlcv_list" (child "attributes" (child "data" (some result))))
    ≡ some (map candle_json candles)

-- The base token of a pool has the id of a network, an underscore and an address.
abbrev pub HasBase : {F : Type 0} → Json F → String → String → Type 0
HasBase {F = F} pool_data network base =
    string_of (
      child "id"
        (child "data" (child "base_token" (child "relationships" (child "data" (some pool_data))))))
    ≡ some (str_append network (str_append "_" base))

module _ {W F : Type 0} (t : Terminal W F) where
  -- The row that is saved for a candle.
  abbrev pub candle_row : String → Candle F → HistoricalPrice
  candle_row coin_id c = record {
    coin_id = coin_id;
    date = t.seconds c.time;
    day_date = t.day_of (t.seconds c.time);
    price = t.print_float c.close;
    source = "geckoterminal";
    query_info = none;
  }

  -- The closing price of the last candle of a day, or else `found`.
  unfoldable pub last_close : String → List (Candle F) → Option String → Option String
  last_close day [] found = found
  last_close day (c ∷ candles) found =
      last_close day candles
        (if t.day_of (t.seconds c.time) == day then some (t.print_float c.close) else found)

  -- The URL of the candles of one side of a pool.
  abbrev pub candles_url : String → String → String → String
  candles_url network pool_address side = str_append "https://api.geckoterminal.com/api/v2/" (
      str_append "networks/" (
        str_append network (
          str_append "/pools/" (
            str_append pool_address (
              str_append "/ohlcv/day?limit=1000&token="
                (str_append side (str_append "&partner_api_key=" t.partner_key)))))))

  last_price-close :
      (coin_id day : String) (candles : List (Candle F)) (found : Option String)
      → last_price day (map (candle_row coin_id) candles) found ≡ last_close day candles found
  unfolding last_price last_close
  last_price-close coin_id day [] found = refl
  last_price-close coin_id day (c ∷ candles) found = last_price-close coin_id day candles _

  pool_rows-candles :
      (coin_id : String) (candles : List (Candle F))
      → pool_rows t coin_id (map (λ (c : Candle F). list_of_items (candle_items c)) candles)
        ≡ some (map (candle_row coin_id) candles)
  unfolding pool_rows
  pool_rows-candles coin_id [] = refl
  pool_rows-candles coin_id (c ∷ candles) = rw (pool_rows-candles coin_id candles) refl

ohlcv_items-candles :
    {F : Type 0} (candles : List (Candle F))
    → ohlcv_items (map candle_json candles)
      ≡ some (map (λ (c : Candle F). list_of_items (candle_items c)) candles)
unfolding ohlcv_items
ohlcv_items-candles [] = refl
ohlcv_items-candles (c ∷ candles) = rw (ohlcv_items-candles candles) refl

-- A text with an underscore in it has two parts at least, of which the last is behind the last one.
Split : String → String → Type 0
Split a s =
    (p : String) × (q : String) × (ps : List String) × (split b'_' s ≡ p ∷ q ∷ ps)
    × (last_part (p ∷ q ∷ ps) ≡ a)

last_part_lem : (p a : String) → split b'_' a ≡ a ∷ [] → Split a (str_append p (str_append "_" a))
unfolding Split split
last_part_lem String.[] a h =
    rw (nil-append (str_append "_" a), cons-append "_" String.[] a, nil-append a)
      ("", a, [], rw h refl, refl)
last_part_lem (String.◌∷◌ c p) a h =
    let (p', q, ps, e, l) = last_part_lem p a h in
    rw (cons-append c p (str_append "_" a)) (elim (Bool-cases (eqb (code c) b'_')) [
      | inl u ↦ ("", p', q ∷ ps, rw (u, e) refl, l)
      | inr u ↦ (String.◌∷◌ c p', q, ps, rw (u, e) refl, l)
    ])

extract-address :
    (network base : String)
    → split b'_' base ≡ base ∷ []
    → extract_token_address (str_append network (str_append "_" base)) ≡ base
unfolding Split
extract-address network base h = let (p, q, ps, e, l) = last_part_lem network base h in rw e l

-- The object behind `data`, from the id that is read out of it.
pool_of :
    {F : Type 0} (o : Option (Json F)) (id : String)
    → string_of (child "id" (child "data" (child "base_token" (child "relationships" o)))) ≡ some id
    → (pool : Fields F) × (object_of o ≡ some pool) × (base_id pool ≡ some id)
pool_of none id h = ground (arith, h)
pool_of (some null) id h = ground (arith, h)
pool_of (some truth) id h = ground (arith, h)
pool_of (some falsity) id h = ground (arith, h)
pool_of (some (num x)) id h = ground (arith, h)
pool_of (some (text x)) id h = ground (arith, h)
pool_of (some (arr x)) id h = ground (arith, h)
pool_of (some (obj fs)) id h = (fs, refl, h)

-- For a pool that names its base token, whose address has no underscore, and an answer to the request
-- for the candles of the token's side of the pool, the base side exactly if the token is the base
-- token, that lists at least one candle: processPoolData saves a row with the time and the closing
-- price of each candle, and gives, without an error, the closing price of the last candle of the
-- day that is asked for, or none when no candle is of that day, whatever the saving answers.
pub candles_priced :
    {W F : Type 0} (t : Terminal W F) (pool_data : Json F)
    (coin_id date network address pool_address : String) (w w1 : W) (of_base base : String)
    (status : ℕ) (body : String) (result : Json F) (c : Candle F) (candles : List (Candle F))
    → HasBase pool_data of_base base
    → split b'_' base ≡ base ∷ []
    → t.request (candles_url t network pool_address (if address == base then "base" else "quote")) w
      ≡ (answered status body, w1)
    → t.parse body ≡ readable result
    → ListsCandles result (c ∷ candles)
    → process_pool_data t pool_data coin_id date network address pool_address w
      ≡ some (
        record { price = last_close t date (c ∷ candles) none; error = none },
        (t.save_prices (map (candle_row t coin_id) (c ∷ candles)) w1).1,
      )
unfolding get_ohlcvs
candles_priced {F = F} t pool_data coin_id date network address pool_address w w1 of_base base
      status body result c candles hb hu hq hp hl =
    let id = str_append of_base (str_append "_" base) in
    let (pool, e1, e2) = pool_of (child "data" (some pool_data)) id hb in
    let side : pool_token address id ≡ (if address == base then "base" else "quote") =
      rw (extract-address of_base base hu) refl in
    let read : read_ohlcvs (readable result)
        ≡ some (none, map (λ (c : Candle F). list_of_items (candle_items c)) (c ∷ candles)) =
      ap listed_items hl
      ∙ ap (λ o. o >>= λ ohlcvs. some (none, ohlcvs)) (ohlcv_items-candles (c ∷ candles)) in
    rows_priced t pool_data coin_id date network address pool_address w w1 pool id
      (list_of_items (candle_items c))
      (map (λ (c : Candle F). list_of_items (candle_items c)) candles)
      (map (candle_row t coin_id) (c ∷ candles)) e1 e2
      (rw (side, hq, hp) (ap (λ o. o >>= λ ohlcvs. some (ohlcvs, w1)) read))
      (pool_rows-candles t coin_id (c ∷ candles))
    ∙ ap
        (λ p. some (
          record { price = p; error = none },
          (t.save_prices (map (candle_row t coin_id) (c ∷ candles)) w1).1,
        ))
        (last_price-close t coin_id date (c ∷ candles) none)
