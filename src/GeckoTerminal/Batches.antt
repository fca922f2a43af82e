-- ===== src/GeckoTerminal/Batches.antt =====
-- GetBatchCurrentPrices of internal/module/price/service/gecko_terminal_service.go. Its goroutines run
-- one after another, in the order of the tokens.
use token_price_proxy.Prelude.{
  ℕ, ◌+◌, ◌≡◌, refl, String, Bool, Option, none, some, List, [], ◌∷◌, if◌then◌else◌, length, eqb,
  Bool-cases, ◌⊎◌, inl, inr, ◌≢◌, arith,
}
use token_price_proxy.Prelude.Text.{has_part}
use token_price_proxy.CoinRepository.World.{Error}
use token_price_proxy.PriceService.{PriceResult, Batch, Result, Result.ok, Result.err, get_or_nil}
use token_price_proxy.GeckoTerminal.{Terminal, Quote, get_current_price}
use token_price_proxy.GeckoTerminal.Origins.{IsPriced, IsSourced, get_current_price-IsSourced}

-- The status of a row.
abbrev pub status_of : Error → String
status_of none = "200"
status_of (some e) = if has_part e "429" then "429" else "200"

module _ {W F : Type 0} (t : Terminal W F) (q : Batch) where
  abbrev pub current_result : ℕ → String → String → Quote × W → PriceResult
  current_result i address chain_id (found, w) = record {
    chain_id = chain_id;
    address = address;
    price = found.price;
    symbol = get_or_nil q.symbols i;
    network = get_or_nil q.networks i;
    time_stamp = t.show (t.now w);
    request_status = some (status_of found.error);
    serial = 0;
  }

  -- The loop over the tokens, from position `i`.
  unfoldable pub current_rows : Bool → ℕ → List String → List String → W → List PriceResult × W
  current_rows is_cache i (address ∷ addresses) (chain_id ∷ chain_ids) w =
      let found = get_current_price t chain_id address is_cache w in
      let rest = current_rows is_cache (i + 1) addresses chain_ids found.1 in
      (current_result i address chain_id found ∷ rest.0, rest.1)
  current_rows is_cache i addresses chain_ids w = ([], w)

  -- GetBatchCurrentPrices
  unfoldable pub get_batch_current_prices : Bool → W → Result (List PriceResult) × W
  get_batch_current_prices is_cache w =
      if eqb (length q.chain_ids) (length q.addresses)
      then (let rows = current_rows is_cache 0 q.addresses q.chain_ids w in (ok rows.0, rows.1))
      else (err "chainIds and addresses must have the same length", w)

-- The price and the status of a row: with a price it is "200" and the price has P, without one it is
-- "200" or "429".
abbrev pub IsQuoted : (String → Type 0) → Option String → Option String → Type 0
IsQuoted P price none = ⊥
IsQuoted P none (some status) = (status ≡ "200") ⊎ (status ≡ "429")
IsQuoted P (some p) (some status) = (status ≡ "200") × P p

module _ {W F : Type 0} (t : Terminal W F) (q : Batch) (is_cache : Bool) where
  -- The row of the token at position `i`, whose price is asked for at `w`.
  abbrev pub IsCurrentRow : ℕ → String → String → W → PriceResult → Type 0
  IsCurrentRow i address chain_id w r =
      (r.address ≡ address)
      × (r.chain_id ≡ chain_id)
      × (r.symbol ≡ get_or_nil q.symbols i)
      × (r.network ≡ get_or_nil q.networks i)
      × IsQuoted (IsSourced t is_cache chain_id address w) r.price r.request_status

  -- One row for each token, in order; each price is asked for where the one before it ended.
  abbrev pub IsCurrentRows : ℕ → List String → List String → W → List PriceResult → Type 0
  IsCurrentRows i (address ∷ addresses) (chain_id ∷ chain_ids) w (r ∷ rs) =
      IsCurrentRow i address chain_id w r
      × IsCurrentRows (i + 1) addresses chain_ids
          (get_current_price t chain_id address is_cache w).1 rs
  IsCurrentRows i [] [] w [] = Unit
  IsCurrentRows i _ _ w _ = ⊥

  -- The rows where the lengths agree, the error where they do not.
  abbrev pub IsBatch : W → Result (List PriceResult) → Type 0
  IsBatch w (ok rs) = IsCurrentRows 0 q.addresses q.chain_ids w rs
  IsBatch w (err e) =
      (length q.chain_ids ≢ length q.addresses)
      × (e ≡ "chainIds and addresses must have the same length")

  quoted_lem :
      (P : String → Type 0) (price : Option String) (e : Error)
      → IsPriced P price e
      → IsQuoted P price (some (status_of e))
  quoted_lem P none none h = inl refl
  quoted_lem P none (some e) h = elim (Bool-cases (has_part e "429")) [
    | inl he ↦ rw he (inr refl)
    | inr he ↦ rw he (inl refl)
  ]
  quoted_lem P (some p) none h = (refl, h)
  quoted_lem P (some p) (some e) h = elim h [ ]

  current_rows_lem :
      (i : ℕ) (addresses chain_ids : List String) (w : W)
      → length chain_ids ≡ length addresses
      → IsCurrentRows i addresses chain_ids w (current_rows t q is_cache i addresses chain_ids w).0
  unfolding current_rows
  current_rows_lem i [] [] w h = _
  current_rows_lem i [] (chain_id ∷ chain_ids) w h = omega (arith, h)
  current_rows_lem i (address ∷ addresses) [] w h = omega (arith, h)
  current_rows_lem i (address ∷ addresses) (chain_id ∷ chain_ids) w h =
      let found = get_current_price t chain_id address is_cache w in
      (
        (
          refl,
          refl,
          refl,
          refl,
          quoted_lem _ found.0.price found.0.error
              (get_current_price-IsSourced t chain_id address is_cache w),
        ),
        current_rows_lem (i + 1) addresses chain_ids found.1 (omega (arith, h)),
      )

-- For every request, cached or not, and every state of the service: GetBatchCurrentPrices fails, with
-- the text that names the lengths, just where there are not as many chains as addresses. Otherwise it
-- has one row for each address, in order, with its chain, its symbol and its network. A row with a
-- price has the status "200" and a price that GetCurrentPrice may give for the token; a row without
-- one has "200" or "429".
pub current_batch :
    {W F : Type 0} (t : Terminal W F) (q : Batch) (is_cache : Bool) (w : W)
    → IsBatch t q is_cache w (get_batch_current_prices t q is_cache w).0
unfolding get_batch_current_prices
current_batch t q is_cache w = elim (Bool-cases (eqb (length q.chain_ids) (length q.addresses))) [
  | inl e ↦ rw e (current_rows_lem t q is_cache 0 q.addresses q.chain_ids w (ground (arith, e)))
  | inr e ↦ rw e (λ h. ground (arith, e, h), refl)
]
