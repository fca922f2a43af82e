-- ===== src/PriceService/Fetch/Plan.antt =====
-- The first half of FetchAndProcessBatchPrices: the ids, the coins, and which source is to be
-- asked for which id.
use token_price_proxy.Prelude.{
  ℕ, ◌+◌, String, Bool, not, ◌&&◌, Option, none, some, List, [], ◌∷◌, ◌++◌, ◌==◌, if◌then◌else◌,
  get_elem?,
}
use token_price_proxy.Prelude.Maps.{lookup, insert, add}
use token_price_proxy.Prelude.Panic.{◌>>=◌}
use token_price_proxy.Prelude.Text.{split}
use token_price_proxy.PriceService.{Coin, is_text, join_id}

-- strings.Split(s, "_")[i]
unfoldable pub part : String → ℕ → Option String
part s i = get_elem? (split b'_' s) i

-- ids[i] = chainIds[i] + "_" + addr, over the lowered addresses.
unfoldable pub make_ids : List String → List String → Option (List String)
make_ids chain_ids [] = some []
make_ids [] (addr ∷ rest) = none
make_ids (c ∷ chain_ids) (addr ∷ rest) = do
  ids ← make_ids chain_ids rest
  some (join_id c addr ∷ ids)

-- idToIndexMap: the last index of an id.
unfoldable pub index_map : ℕ → List String → List (String × ℕ) → List (String × ℕ)
index_map i [] m = m
index_map i (id ∷ ids) m = index_map (i + 1) ids (insert id i m)

-- The maps over the coins: coinMap, retrunCoinMap and retrunCoinToMap.
pub record CoinMaps : Type 0 where
  pub coins : List (String × Coin)
  pub return_coin : List (String × String)
  pub return_coin_to : List (String × List String)

abbrev pub no_coins : CoinMaps
no_coins = record { coins = []; return_coin = []; return_coin_to = [] }

abbrev pub or_empty : Option (List String) → List String
or_empty none = []
or_empty (some l) = l

abbrev pub is_alias : Coin → Bool
is_alias coin =
    not (coin.id == "")
    && not (coin.chain_id == "")
    && not (coin.address == "")
    && not (coin.id == join_id coin.chain_id coin.address)

unfoldable pub add_coin : CoinMaps → Coin → CoinMaps
add_coin m coin =
    let to = join_id coin.chain_id coin.address in
    let coins = insert coin.id coin m.coins in
    if is_alias coin
    then record {
      coins = coins;
      return_coin = insert coin.id to m.return_coin;
      return_coin_to =
          insert to (or_empty (lookup to m.return_coin_to) ++ coin.id ∷ []) m.return_coin_to;
    }
    else record m { coins = coins }

unfoldable pub coin_maps : CoinMaps → List Coin → CoinMaps
coin_maps m [] = m
coin_maps m (coin ∷ rest) = coin_maps (add_coin m coin) rest

-- The ids of each source: the `…Source` sets of the sources that a coin names, and the default
-- sets.
pub record Sets : Type 0 where
  pub gecko_source : List String
  pub terminal_source : List String
  pub llama_source : List String
  pub on_chain_source : List String
  pub gecko : List String
  pub terminal : List String
  pub llama : List String
  pub dodoex : List String
  pub on_chain : List String

abbrev pub no_sets : Sets
no_sets = record {
  gecko_source = [];
  terminal_source = [];
  llama_source = [];
  on_chain_source = [];
  gecko = [];
  terminal = [];
  llama = [];
  dodoex = [];
  on_chain = [];
}

-- The chain of tests on a coin's PriceSource and LastPriceSource.
unfoldable pub add_named : String → Coin → Sets → Sets
add_named id coin s =
    if is_text coin.price_source "coingecko"
    then record s { gecko_source = add id s.gecko_source }
    else if is_text coin.price_source "geckoterminal"
    then record s { terminal_source = add id s.terminal_source }
    else if is_text coin.price_source "coinGeckoOnChain"
    then record s { on_chain_source = add id s.on_chain_source }
    else if is_text coin.last_price_source "coingecko"
    then record s { gecko_source = add id s.gecko_source }
    else if is_text coin.last_price_source "geckoterminal"
    then record s { terminal_source = add id s.terminal_source }
    else if is_text coin.last_price_source "defillama"
    then record s { llama_source = add id s.llama_source }
    else if is_text coin.last_price_source "coinGeckoOnChain"
    then record s { on_chain_source = add id s.on_chain_source }
    else s

unfoldable pub add_known : String → Option Coin → Sets → Sets
unfolding add_named
add_known id none s = s
add_known id (some coin) s =
    let named = add_named id coin s in record named { gecko = add id named.gecko }

-- One round of the loop that fills the sets.
unfoldable pub add_id : Bool → List (String × Coin) → String → Sets → Option Sets
unfolding add_known
add_id exclude_route coins id s = do
  chain ← part id 0
  address ← part id 1
  let known = add_known id (lookup (join_id chain address) coins) s
  some (record known {
    terminal = add id known.terminal;
    llama = add id known.llama;
    on_chain = add id known.on_chain;
    dodoex = if exclude_route then known.dodoex else add id known.dodoex;
  })

unfoldable pub fill : Bool → List (String × Coin) → List String → Sets → Option Sets
fill exclude_route coins [] s = some s
fill exclude_route coins (id ∷ ids) s = do
  s' ← add_id exclude_route coins id s
  fill exclude_route coins ids s'
