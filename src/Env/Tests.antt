-- ===== src/Env/Tests.antt =====
-- Concrete runs of the lookups of chains.
use token_price_proxy.Prelude.{
  ◌≡◌, refl, String, true, false, none, some, List, [], ◌∷◌, ◌==◌, if◌then◌else◌,
}
use token_price_proxy.Prelude.Maps.{lookup, insert, contains}
use token_price_proxy.Env.{
  Settings, Reading, ids_to_ids, ids_to_names, set_chain_mapping, update_chain_mapping,
  load_allow_api_key, load_usdt_addresses, load_dodoex_route_url, load_allowed_tokens,
  load_refuse_chain_id, load_env, get_chain_id, get_chain_name, get_usdt_address,
}
use token_price_proxy.Env.Chains.{chain-roundtrip}

abbrev chains : List (String × String)
chains = ("ethereum", "1") ∷ ("bsc", "56") ∷ []

abbrev variables : String → String
variables name =
    if name == "CHAIN_MAPPING" then "{...}" else if name == "ALLOW_API_KEY" then "false" else ""

abbrev reading : Reading
reading = record {
  getenv = variables;
  unmarshal_mapping = λ s. some chains;
  unmarshal_addresses = λ s. none;
  atoi = λ s. 0;
  fields = λ s. [];
}

abbrev defaults : Settings
defaults = record {
  name_to_id = [];
  id_to_id = [];
  id_to_name = [];
  usdt_addresses = [];
  dodoex_route_url = "https://api.dodoex.io/route-service/v2/backend/swap";
  allow_api_key_nil = true;
  rate_limiter = 1000;
  allowed_tokens = [];
  refuse_chain_ids = "128" ∷ [];
}

bsc : get_chain_id (load_env reading defaults) "bsc" ≡ some "56"
unfolding load_env update_chain_mapping set_chain_mapping load_allow_api_key load_usdt_addresses
    load_dodoex_route_url load_allowed_tokens load_refuse_chain_id get_chain_id ids_to_ids
    ids_to_names lookup insert
bsc = refl

no_address : get_usdt_address defaults "1" ≡ none
unfolding get_usdt_address lookup
no_address = refl

-- ALLOW_API_KEY is read as false into the local variable, and the global one stays true.
local_flag :
    ((load_allow_api_key reading defaults).1 ≡ false)
    × ((load_env reading defaults).allow_api_key_nil ≡ true)
unfolding load_env update_chain_mapping set_chain_mapping load_allow_api_key load_usdt_addresses
    load_dodoex_route_url load_allowed_tokens load_refuse_chain_id
local_flag = (refl, refl)

chain-roundtrip_example :
    (get_chain_id (load_env reading defaults) "bsc" ≡ some "56")
    × (get_chain_id (load_env reading defaults) "56" ≡ some "56")
    × (get_chain_name (load_env reading defaults) "56" ≡ some "bsc")
unfolding lookup contains
chain-roundtrip_example =
    chain-roundtrip reading defaults chains "bsc" "56" refl refl (refl, (refl, _)) refl refl
