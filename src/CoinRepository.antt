-- ===== src/CoinRepository.antt =====
-- internal/module/price/repository/coins_repository.go over internal/database/schema/coins.go: the
-- rows, the constants, and what encoding/json makes of a row. The time stamps of the embedded
-- Base are left out: nothing here reads them, and the statement of upsertCoins skips them.
pub mod Upsert
pub mod Reads
pub mod Aliases
pub mod Caching
pub mod World
pub mod Writes
pub mod Queue
pub mod Tests
mod QueueTests
use token_price_proxy.Prelude.{
  ℕ, ◌*◌, String, str_append, Bool, Option, none, some, List, [], ◌∷◌, ◌==◌, ◌||◌, if◌then◌else◌,
}
use token_price_proxy.Redis.Commands.{Value}
use token_price_proxy.Throttler.{second}

-- `negsuc n` is -(n + 1).
pub data ℤ : Type 0 where
  pos : ℕ → ℤ
  negsuc : ℕ → ℤ

-- Coins. A nil map of platforms is `none`, a time the number of its nanoseconds.
pub record Coins : Type 0 where
  pub id : String
  pub address : String
  pub chain_id : String
  pub symbol : Option String
  pub name : Option String
  pub coingecko_coin_id : Option String
  pub coingecko_platforms : Option (List (String × String))
  pub geckoterminal_network : Option String
  pub extra : Option String
  pub decimals : Option ℤ
  pub total_supply : Option String
  pub label : String
  pub pool_name : Option String
  pub base_token_address : Option String
  pub quote_token_address : Option String
  pub pool_created_at : Option ℕ
  pub pool_attributes : Option String
  pub last_price_source : Option String
  pub price_source : Option String
  pub return_coins_id : Option String

-- `var coin schema.Coins`
abbrev pub no_coin : Coins
no_coin = record {
  id = "";
  address = "";
  chain_id = "";
  symbol = none;
  name = none;
  coingecko_coin_id = none;
  coingecko_platforms = none;
  geckoterminal_network = none;
  extra = none;
  decimals = none;
  total_supply = none;
  label = "";
  pool_name = none;
  base_token_address = none;
  quote_token_address = none;
  pool_created_at = none;
  pool_attributes = none;
  last_price_source = none;
  price_source = none;
  return_coins_id = none;
}

abbrev pub cache_duration : ℕ
cache_duration = 72 * 3600 * second

abbrev pub cache_key_prefix : String
cache_key_prefix = "coins:"

abbrev pub queue_key : String
queue_key = "coins:queue"

abbrev pub set_key_prefix : String
set_key_prefix = "coins:set"

abbrev pub queue_run_size : ℕ
queue_run_size = 1000

abbrev pub cache_batch_size : ℕ
cache_batch_size = 1000

abbrev pub cache_max_retries : ℕ
cache_max_retries = 3

-- fmt.Sprintf("%s%s", cacheKeyPrefix, id)
abbrev pub coin_key : String → String
coin_key id = str_append cache_key_prefix id

-- `coin.ReturnCoinsId`, where it is not nil and not empty.
abbrev pub target : Option String → Option String
target none = none
target (some s) = if s == "" then none else some s

-- `coin.ChainID == "" || coin.Address == ""`
abbrev pub is_bare : Coins → Bool
is_bare c = c.chain_id == "" || c.address == ""

-- json.Marshal and json.Unmarshal on a row: what a failing Unmarshal has filled in stays.
pub record Coder : Type 0 where
  pub marshal : Coins → Option String
  pub unmarshal : Value → Coins × Bool
