-- ===== src/Env/Chains.antt =====
-- The lookups of chains behind a loading of the chain mapping.
use token_price_proxy.Prelude.{
  ◌≡◌, refl, ap, sym, ◌∙◌, String, Bool, true, false, ◌==◌, Option, none, some, List, [], ◌∷◌, map,
  ◌⊎◌, inl, inr, Bool-cases, if◌then◌else◌, eq_iff, arith,
}
use token_price_proxy.Prelude.Maps.{lookup, insert, contains, lookup-insert}
use token_price_proxy.Env.{
  Settings, UsdtAddress, Reading, ids_to_ids, ids_to_names, set_chain_mapping, update_chain_mapping,
  load_allow_api_key, load_usdt_addresses, load_dodoex_route_url, load_allowed_tokens,
  load_refuse_chain_id, refused_keys, load_env, set_usdt_addresses, get_chain_id, get_chain_name,
}

abbrev pub ids : List (String × String) → List String
ids mapping = map (λ e. e.1) mapping

-- No two names stand for one id.
abbrev pub OneName : List (String × String) → Type 0
OneName [] = Unit
OneName (e ∷ mapping) = (contains e.1 (ids mapping) ≡ false) × OneName mapping

lookup-ids_to_ids :
    (mapping m : List (String × String)) (id : String)
    → lookup id (ids_to_ids mapping m)
      ≡ (if contains id (ids mapping) then some id else lookup id m)
unfolding ids_to_ids contains
lookup-ids_to_ids [] m id = refl
lookup-ids_to_ids (e ∷ mapping) m id =
    let ih = lookup-ids_to_ids mapping (insert e.1 e.1 m) id in
    ground (arith, ih, lookup-insert e.1 id e.1 m, eq_iff e.1 id, eq_iff id e.1)

names-keep :
    (mapping m : List (String × String)) (id : String)
    → contains id (ids mapping) ≡ false
    → lookup id (ids_to_names mapping m) ≡ lookup id m
unfolding ids_to_names contains
names-keep [] m id h = refl
names-keep (e ∷ mapping) m id h =
    let ih = names-keep mapping (insert e.1 e.0 m) id (ground (arith, h)) in
    ground (arith, h, ih, lookup-insert e.1 id e.0 m, eq_iff e.1 id, eq_iff id e.1)

-- A name's id stands among the ids, and is the name's.
name-found :
    (mapping m : List (String × String)) (name id : String)
    → OneName mapping
    → lookup name mapping ≡ some id
    → (contains id (ids mapping) ≡ true) × (lookup id (ids_to_names mapping m) ≡ some name)
unfolding lookup contains ids_to_names
name-found [] m name id h e = ground (arith, e)
name-found (x ∷ mapping) m name id h e = elim (Bool-cases (x.0 == name)) [
  | inl b ↦
      let same : x.1 ≡ id = ground (arith, b, e) in
      let gone : contains id (ids mapping) ≡ false =
        ap (λ (s : String). contains s (ids mapping)) (sym same) ∙ h.0 in
      let kept = names-keep mapping (insert x.1 x.0 m) id gone in
      (
        ground (arith, same, eq_iff x.1 id),
        kept ∙ ground (arith, same, b, lookup-insert x.1 id x.0 m, eq_iff id x.1, eq_iff x.0 name),
      )
  | inr b ↦
      let ih = name-found mapping (insert x.1 x.0 m) name id h.1 (ground (arith, b, e)) in
      (ground (arith, ih.0), ih.1)
]

module _ (r : Reading) where
  -- What the other loadings leave alone.
  abbrev Same : Settings → Settings → Type 0
  Same g g' =
      (g'.name_to_id ≡ g.name_to_id) × (g'.id_to_id ≡ g.id_to_id) × (g'.id_to_name ≡ g.id_to_name)

  if_Same : (b : Bool) (g g' : Settings) → Same g g' → Same g (if b then g else g')
  if_Same true g g' h = (refl, refl, refl)
  if_Same false g g' h = h

  Same-trans : (a b c : Settings) → Same a b → Same b c → Same a c
  Same-trans a b c (p, q, x) (p', q', x') = (p' ∙ p, q' ∙ q, x' ∙ x)

  addresses_Same :
      (o : Option (List (String × UsdtAddress))) (g : Settings) → Same g (set_usdt_addresses o g)
  unfolding set_usdt_addresses
  addresses_Same none g = (refl, refl, refl)
  addresses_Same (some l) g = (refl, refl, refl)

  abbrev refused_at : Bool → Settings → Option (List String) → Settings × Option (List String)
  refused_at b g m = if b then (g, none) else (g, m)

  refuse_Same : (b : Bool) (g : Settings) (m : Option (List String)) → Same g (refused_at b g m).0
  refuse_Same true g m = (refl, refl, refl)
  refuse_Same false g m = (refl, refl, refl)

  load_env-Same : (g : Settings) → Same (update_chain_mapping r g) (load_env r g)
  unfolding load_env load_allow_api_key load_usdt_addresses load_dodoex_route_url
      load_allowed_tokens load_refuse_chain_id
  load_env-Same g =
      let a = update_chain_mapping r g in
      let b = (load_allow_api_key r a).0 in
      let c = load_usdt_addresses r b in
      let d = load_dodoex_route_url r c in
      let ab =
        if_Same (r.getenv "ALLOW_API_KEY_DEFAULT_RATE_LIMITER" == "") a
          (record a { rate_limiter = r.atoi (r.getenv "ALLOW_API_KEY_DEFAULT_RATE_LIMITER") })
          (refl, refl, refl) in
      let bc =
        if_Same (r.getenv "USDT_ADDRESSES" == "") b
          (set_usdt_addresses (r.unmarshal_addresses (r.getenv "USDT_ADDRESSES")) b)
          (addresses_Same (r.unmarshal_addresses (r.getenv "USDT_ADDRESSES")) b) in
      let cd =
        if_Same (r.getenv "DODOEX_ROUTE_URL" == "") c
          (record c { dodoex_route_url = r.getenv "DODOEX_ROUTE_URL" }) (refl, refl, refl) in
      let de =
        if_Same (r.getenv "GECKO_CHAIN_ALLOWED_TOKENS" == "") d
          (record d { allowed_tokens = r.fields (r.getenv "GECKO_CHAIN_ALLOWED_TOKENS") })
          (refl, refl, refl) in
      let e = load_allowed_tokens r d in
      let ef =
        refuse_Same (r.getenv "REFUSE_CHAIN_IDS" == "") e
          (some (refused_keys (r.fields (r.getenv "REFUSE_CHAIN_IDS")) [])) in
      Same-trans a b (load_env r g) ab (
        Same-trans b c (load_env r g) bc
          (Same-trans c d (load_env r g) cd (Same-trans d e (load_env r g) de ef)))

  chain_at :
      (g : Settings) (chain id : String)
      → (lookup chain g.name_to_id ≡ some id)
        ⊎ ((lookup chain g.name_to_id ≡ none) × (lookup chain g.id_to_id ≡ some id))
      → get_chain_id g chain ≡ some id
  unfolding get_chain_id
  chain_at g chain id (inl e) = ground (arith, e)
  chain_at g chain id (inr (n, e)) = ground (arith, n, e)

  -- After LoadEnv has read a chain mapping in which no two names stand for one id, a name and its
  -- id have this id, provided that the id is not itself a name, and the id has the name.
  pub chain-roundtrip :
      (g : Settings) (mapping : List (String × String)) (name id : String)
      → (r.getenv "CHAIN_MAPPING" == "") ≡ false
      → r.unmarshal_mapping (r.getenv "CHAIN_MAPPING") ≡ some mapping
      → OneName mapping
      → lookup name mapping ≡ some id
      → lookup id mapping ≡ none
      → (get_chain_id (load_env r g) name ≡ some id)
        × (get_chain_id (load_env r g) id ≡ some id)
        × (get_chain_name (load_env r g) id ≡ some name)
  unfolding update_chain_mapping set_chain_mapping get_chain_id get_chain_name
  chain-roundtrip g mapping name id there read one found other =
      let same = load_env-Same g in
      let (known, named) = name-found mapping g.id_to_name name id one found in
      let itself = lookup-ids_to_ids mapping [] id in
      let names : (load_env r g).name_to_id ≡ mapping = same.0 ∙ rw (there, read) refl in
      let own : (load_env r g).id_to_id ≡ ids_to_ids mapping [] = same.1 ∙ rw (there, read) refl in
      let back : (load_env r g).id_to_name ≡ ids_to_names mapping g.id_to_name =
        same.2 ∙ rw (there, read) refl in
      (
        chain_at (load_env r g) name id
            (inl (ap (λ (m : List (String × String)). lookup name m) names ∙ found)),
        chain_at (load_env r g) id id (
            inr (
              ap (λ (m : List (String × String)). lookup id m) names ∙ other,
              ap (λ (m : List (String × String)). lookup id m) own ∙ ground (arith, itself, known),
            )),
        ap (λ (m : List (String × String)). lookup id m) back ∙ named,
      )
