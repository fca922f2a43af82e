-- ===== src/Env.antt =====
-- internal/module/shared/env.go: the settings that are read from the environment, and the lookups of
-- chains.
pub mod Chains
mod Tests
use token_price_proxy.Prelude.{
  ℕ, String, Bool, not, Option, none, some, List, [], ◌∷◌, ◌==◌, if◌then◌else◌,
}
use token_price_proxy.Prelude.Maps.{lookup, insert, add}

pub record UsdtAddress : Type 0 where
  pub address : String
  pub decimal : ℕ

-- The global variables.
pub record Settings : Type 0 where
  pub name_to_id : List (String × String)
  pub id_to_id : List (String × String)
  pub id_to_name : List (String × String)
  pub usdt_addresses : List (String × UsdtAddress)
  pub dodoex_route_url : String
  pub allow_api_key_nil : Bool
  pub rate_limiter : ℕ
  pub allowed_tokens : List String
  pub refuse_chain_ids : List String

-- What the loading calls: os.Getenv, the two readings of JSON, strconv.Atoi, of which the error is
-- dropped, and strings.Fields. A map that is read is the list of its entries in the order in which
-- the Go runtime ranges over it.
pub record Reading : Type 0 where
  pub getenv : String → String
  pub unmarshal_mapping : String → Option (List (String × String))
  pub unmarshal_addresses : String → Option (List (String × UsdtAddress))
  pub atoi : String → ℕ
  pub fields : String → List String

-- newIDToIDMapping
unfoldable pub ids_to_ids : List (String × String) → List (String × String) → List (String × String)
ids_to_ids [] m = m
ids_to_ids (entry ∷ mapping) m = ids_to_ids mapping (insert entry.1 entry.1 m)

-- idToNameMapping, which keeps the entries of earlier loadings.
unfoldable pub ids_to_names :
    List (String × String) → List (String × String) → List (String × String)
ids_to_names [] m = m
ids_to_names (entry ∷ mapping) m = ids_to_names mapping (insert entry.1 entry.0 m)

-- UpdateChainMapping behind the reading of its text.
unfoldable pub set_chain_mapping : Option (List (String × String)) → Settings → Settings
set_chain_mapping none g = g
set_chain_mapping (some mapping) g = record g {
  name_to_id = mapping;
  id_to_id = ids_to_ids mapping [];
  id_to_name = ids_to_names mapping g.id_to_name;
}

unfoldable pub set_usdt_addresses : Option (List (String × UsdtAddress)) → Settings → Settings
set_usdt_addresses none g = g
set_usdt_addresses (some addresses) g = record g { usdt_addresses = addresses }

-- `RefuseChainIdMap[key] = 1` for each key.
unfoldable pub refused_keys : List String → List String → List String
refused_keys [] m = m
refused_keys (key ∷ keys) m = refused_keys keys (add key m)

module _ (r : Reading) where
  unfoldable pub update_chain_mapping : Settings → Settings
  unfolding set_chain_mapping
  update_chain_mapping g =
      let value = r.getenv "CHAIN_MAPPING" in
      if value == "" then g else set_chain_mapping (r.unmarshal_mapping value) g

  -- LoadAllowApiKey, with the local variable AllowApiKeyNil, which its `:=` declares beside the
  -- global one and which is printed.
  unfoldable pub load_allow_api_key : Settings → Settings × Bool
  load_allow_api_key g =
      let allow_api_key_nil = not (r.getenv "ALLOW_API_KEY" == "false") in
      let value = r.getenv "ALLOW_API_KEY_DEFAULT_RATE_LIMITER" in
      (if value == "" then g else record g { rate_limiter = r.atoi value }, allow_api_key_nil)

  unfoldable pub load_usdt_addresses : Settings → Settings
  unfolding set_usdt_addresses
  load_usdt_addresses g =
      let value = r.getenv "USDT_ADDRESSES" in
      if value == "" then g else set_usdt_addresses (r.unmarshal_addresses value) g

  unfoldable pub load_dodoex_route_url : Settings → Settings
  load_dodoex_route_url g =
      let value = r.getenv "DODOEX_ROUTE_URL" in
      if value == "" then g else record g { dodoex_route_url = value }

  unfoldable pub load_allowed_tokens : Settings → Settings
  load_allowed_tokens g =
      let value = r.getenv "GECKO_CHAIN_ALLOWED_TOKENS" in
      if value == "" then g else record g { allowed_tokens = r.fields value }

  -- LoadRefuseChainId, with the keys of the local variable RefuseChainIdMap, which its `:=`
  -- declares beside the global one and of which the length is printed; none without the variable.
  unfoldable pub load_refuse_chain_id : Settings → Settings × Option (List String)
  load_refuse_chain_id g =
      let chain_ids = r.getenv "REFUSE_CHAIN_IDS" in
      if chain_ids == "" then (g, none) else (g, some (refused_keys (r.fields chain_ids) []))

  -- LoadEnv
  unfoldable pub load_env : Settings → Settings
  load_env g =
      let mapped = update_chain_mapping g in
      let allowed = load_allow_api_key mapped in
      let addressed = load_usdt_addresses allowed.0 in
      let routed = load_dodoex_route_url addressed in
      let listed = load_allowed_tokens routed in (load_refuse_chain_id listed).0

-- GetChainID: `none` is the error.
unfoldable pub get_chain_id : Settings → String → Option String
get_chain_id g chain = elim (lookup chain g.name_to_id) [
  | some id ↦ some id
  | none ↦ lookup chain g.id_to_id
]

-- GetChainName
unfoldable pub get_chain_name : Settings → String → Option String
get_chain_name g id = lookup id g.id_to_name

-- GetUSDTAddress
unfoldable pub get_usdt_address : Settings → String → Option UsdtAddress
get_usdt_address g id = lookup id g.usdt_addresses
