-- ===== src/PriceService/Fetch/Forgets.antt =====
-- What batchQuery takes out of the sets of the sources that are still to be asked.
use token_price_proxy.Prelude.{
  ◌≡◌, refl, subst, ◌∙◌, String, Bool, true, false, not, ◌&&◌, ◌||◌, ◌==◌, some, List, [], ◌∷◌, inl,
  inr, Bool-cases, if◌then◌else◌, arith,
}
use mathlib.Core.Option.{some-injective}
use token_price_proxy.Prelude.Maps.{contains, contains-delete, insert, lookup}
use token_price_proxy.Prelude.Panic.{>>=-eq-some}
use token_price_proxy.PriceService.{
  PriceResult, Result, Result.ok, Result.err, Services, is_set, join_id,
}
use token_price_proxy.PriceService.Fetch.Plan.{Sets, or_empty}
use token_price_proxy.PriceService.Fetch.Query.{
  Asked, Work, delete_key, store_aliases, store, store_all, receive,
}

-- Some result of the answer has the key and a price.
abbrev pub prices : String → List PriceResult → Bool
prices key [] = false
prices key (r ∷ rs) = (is_set r.price && (join_id r.chain_id r.address == key)) || prices key rs

abbrev pub answers : String → Result (List PriceResult) → Bool
answers key (ok rs) = prices key rs
answers key (err e) = false

-- The default sets without the keys that an answer prices; the sets of the sources that a coin
-- names as they were.
abbrev pub IsForgotten : (String → Bool) → Sets → Sets → Type 0
IsForgotten priced s s' =
    ((key : String) → contains key s'.gecko ≡ (contains key s.gecko && not (priced key)))
    × ((key : String) → contains key s'.terminal ≡ (contains key s.terminal && not (priced key)))
    × ((key : String) → contains key s'.llama ≡ (contains key s.llama && not (priced key)))
    × ((key : String) → contains key s'.dodoex ≡ (contains key s.dodoex && not (priced key)))
    × ((key : String) → contains key s'.on_chain ≡ (contains key s.on_chain && not (priced key)))
    × (s'.gecko_source ≡ s.gecko_source)
    × (s'.terminal_source ≡ s.terminal_source)
    × (s'.llama_source ≡ s.llama_source)
    × (s'.on_chain_source ≡ s.on_chain_source)

delete_key-IsForgotten : (k : String) (s : Sets) → IsForgotten (λ key. k == key) s (delete_key k s)
unfolding delete_key
delete_key-IsForgotten k s = (
  λ key. ground (arith, contains-delete k key s.gecko),
  λ key. ground (arith, contains-delete k key s.terminal),
  λ key. ground (arith, contains-delete k key s.llama),
  λ key. ground (arith, contains-delete k key s.dodoex),
  λ key. ground (arith, contains-delete k key s.on_chain),
  refl,
  refl,
  refl,
  refl,
)

IsForgotten-trans :
    (p q r : String → Bool) (s t u : Sets)
    → ((key : String) → r key ≡ (p key || q key))
    → IsForgotten p s t
    → IsForgotten q t u
    → IsForgotten r s u
IsForgotten-trans p q r s t u e (a, b, c, d, f, g, h, i, j) (a', b', c', d', f', g', h', i', j') = (
  λ key. ground (arith, e key, a key, a' key),
  λ key. ground (arith, e key, b key, b' key),
  λ key. ground (arith, e key, c key, c' key),
  λ key. ground (arith, e key, d key, d' key),
  λ key. ground (arith, e key, f key, f' key),
  g' ∙ g,
  h' ∙ h,
  i' ∙ i,
  j' ∙ j,
)

IsForgotten-none : (s : Sets) → IsForgotten (λ _. false) s s
IsForgotten-none s = (
  λ key. ground arith,
  λ key. ground arith,
  λ key. ground arith,
  λ key. ground arith,
  λ key. ground arith,
  refl,
  refl,
  refl,
  refl,
)

module _ {W : Type 0} (s : Services W) (q : Asked) where
  -- What one result does to the sets.
  store-sets :
      (r : PriceResult) (work work' : Work W)
      → store s q r work ≡ some work'
      → work'.sets ≡ (
          if is_set r.price then delete_key (join_id r.chain_id r.address) work.sets else work.sets)
  unfolding store
  store-sets r work work' e = elim (Bool-cases (is_set r.price)) [
    | inl b ↦
        let key = join_id r.chain_id r.address in
        let (results, e1, e2) =
          >>=-eq-some
            (store_aliases r (or_empty (lookup key q.maps.return_coin_to))
              (insert key r work.results))
            (λ results. some (record work { results = results; sets = delete_key key work.sets }))
            {b = work'} (ground (arith, e, b)) in
        ground (arith, e2, b)
    | inr b ↦ ground (arith, e, b)
  ]

  store-IsForgotten :
      (r : PriceResult) (work work' : Work W)
      → store s q r work ≡ some work'
      → IsForgotten
          (λ key. is_set r.price && (join_id r.chain_id r.address == key))
          work.sets
          work'.sets
  store-IsForgotten r work work' e =
      rw (store-sets r work work' e)
        (elim (is_set r.price)
          as (λ b.
            IsForgotten (λ key. b && (join_id r.chain_id r.address == key)) work.sets
              (if b then delete_key (join_id r.chain_id r.address) work.sets else work.sets)) [
                | true ↦ delete_key-IsForgotten (join_id r.chain_id r.address) work.sets
                | false ↦ IsForgotten-none work.sets
              ])

  store_all-IsForgotten :
      (rs : List PriceResult) (work work' : Work W)
      → store_all s q rs work ≡ some work'
      → IsForgotten (λ key. prices key rs) work.sets work'.sets
  unfolding store_all
  store_all-IsForgotten [] work work' e =
      subst (λ (x : Work W). IsForgotten (λ _. false) work.sets x.sets) (some-injective _ _ e)
        (IsForgotten-none work.sets)
  store_all-IsForgotten (r ∷ rs) work work' e =
      let (mid, e1, e2) = >>=-eq-some (store s q r work) (store_all s q rs) e in
      IsForgotten-trans _ _ _ work.sets mid.sets work'.sets (λ key. refl)
        (store-IsForgotten r work mid e1) (store_all-IsForgotten rs mid work' e2)

  -- After batchQuery has received an answer, each of the five default sets holds exactly the ids
  -- that it held before, less the ids that the chain and the address of a priced row of the answer
  -- make up. The other ids that such a row stands for, under which its price is stored too, stay in
  -- the sets; an answer that is an error takes none away. The four sets of the sources that a coin
  -- names stay as they were.
  pub receive-forgets :
      (answer : Result (List PriceResult) × W) (work work' : Work W)
      → receive s q answer work ≡ some work'
      → IsForgotten (λ key. answers key answer.0) work.sets work'.sets
  unfolding receive
  receive-forgets (ok rs, w) work work' e =
      store_all-IsForgotten rs (record work { world = w }) work' e
  receive-forgets (err m, w) work work' e =
      subst (λ (x : Work W). IsForgotten (λ _. false) work.sets x.sets) (some-injective _ _ e)
        (IsForgotten-none work.sets)
