-- ===== src/PriceService.antt =====
-- internal/module/price/service/price_service.go: the data, the services that it calls, and the
-- helpers of coin_gecko_service.go on its argument lists.
pub mod Fetch
pub mod Queue
pub mod Historical
pub mod Waiting
pub mod Cached
pub mod Prices
pub mod Dated
use token_price_proxy.Prelude.{
  ℕ, String, str_append, Bool, true, false, Option, none, some, List, [], ◌∷◌, ◌==◌, if◌then◌else◌,
  get_elem?,
}

pub record PriceResult : Type 0 where
  pub chain_id : String
  pub address : String
  pub price : Option String
  pub symbol : Option String
  pub network : Option String
  pub time_stamp : String
  pub request_status : Option String
  pub serial : ℕ

-- The fields of schema.Coins that choose the sources of a price.
pub record Coin : Type 0 where
  pub id : String
  pub address : String
  pub chain_id : String
  pub price_source : Option String
  pub last_price_source : Option String

pub data Source : Type 0 where
  coingecko geckoterminal defillama coin_gecko_on_chain dodoex_route : Source

pub data Result {ℓ} (A : Type ℓ) : Type ℓ where
  ok : A → Result A
  err : String → Result A

-- The arguments of a source's batch call.
pub record Batch : Type 0 where
  pub addresses : List String
  pub chain_ids : List String
  pub symbols : List String
  pub networks : List String

-- What the price service calls. `W` is the world that these calls read and change. `to_lower` is
-- strings.ToLower, `order` the order in which the Go runtime ranges over a map's keys.
pub record Services (W : Type 0) : Type 0 where
  pub to_lower : String → String
  pub order : List String → List String
  pub coins_by_id : List String → W → Result (List Coin) × W
  pub current_prices : Source → Batch → Bool → W → Result (List PriceResult) × W
  pub is_throttled : String → W → Bool × W
  pub throttle : String → String → W → Bool × W
  pub save_log : String → String → W → W
  pub prohibited_current : Source → Bool

-- `*p != ""` for a pointer that may be nil.
abbrev pub is_set : Option String → Bool
is_set none = false
is_set (some s) = if s == "" then false else true

-- `p != nil && *p == s`
abbrev pub is_text : Option String → String → Bool
is_text none s = false
is_text (some t) s = t == s

-- GetOrNil
abbrev pub get_or_nil : List String → ℕ → Option String
get_or_nil slice index = elim (get_elem? slice index) [
  | none ↦ none
  | some s ↦ if s == "" then none else some s
]

-- GetOrDefault
abbrev pub get_or_default : List String → ℕ → String → String
get_or_default slice index default_value = elim (get_elem? slice index) [
  | none ↦ default_value
  | some s ↦ s
]

-- safeDereferenceString
abbrev pub safe_dereference_string : Option String → String → String
safe_dereference_string none default_value = default_value
safe_dereference_string (some s) default_value = if s == "" then default_value else s

-- chainId + "_" + address
abbrev pub join_id : String → String → String
join_id chain_id address = str_append chain_id (str_append "_" address)
