-- ===== src/PriceService/Dated/Rows.antt =====
-- What GetBatchHistoricalPrice returns: one row for each address, or the error of the coins.
use token_price_proxy.Prelude.{
  ℕ, ◌+◌, ◌≤◌, ◌≡◌, String, Option, some, List, [], ◌∷◌, length, get_elem?,
}
use token_price_proxy.PriceService.{PriceResult, Coin, Result, Result.ok, Result.err, get_or_nil}
use token_price_proxy.PriceService.Dated.Finish.{DatedQuery}

-- A row stands for the address and the date at position `i` of the request.
abbrev pub IsDatedRow : DatedQuery → (Option String → Type 0) → ℕ → String → PriceResult → Type 0
IsDatedRow q Q i address r =
    (r.serial ≡ i)
    × (r.address ≡ address)
    × (get_elem? q.dates i ≡ some r.time_stamp)
    × (r.symbol ≡ get_or_nil q.symbols i)
    × (r.network ≡ get_or_nil q.networks i)
    × Q r.price

abbrev pub IsDatedRows :
    DatedQuery → (Option String → Type 0) → ℕ → List String → List PriceResult → Type 0
IsDatedRows q Q i [] [] = Unit
IsDatedRows q Q i (address ∷ addresses) (r ∷ rs) =
    IsDatedRow q Q i address r × IsDatedRows q Q (i + 1) addresses rs
IsDatedRows q Q i _ _ = ⊥

-- The rows, or the error of the query of the coins.
abbrev pub DatedOutcome :
    DatedQuery
    → (Option String → Type 0)
    → List String
    → Result (List Coin)
    → Result (List PriceResult)
    → Type 0
DatedOutcome q Q addresses (ok coins) (ok rs) = IsDatedRows q Q 0 addresses rs
DatedOutcome q Q addresses (err e) (err e') = e ≡ e'
DatedOutcome q Q addresses _ _ = ⊥

-- As many chains, times and dates as addresses.
abbrev pub IsComplete : DatedQuery → List String → Type 0
IsComplete q addresses =
    (length addresses ≤ length q.chain_ids)
    × (length addresses ≤ length q.times)
    × (length addresses ≤ length q.dates)
