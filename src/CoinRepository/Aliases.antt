-- ===== src/CoinRepository/Aliases.antt =====
-- What GetCoinsByOneID means: a walk along the rows' `return_coins_id` that only reads, on the
-- keys as they are when it is called; and when that walk ends.
pub mod Keeps
pub mod Served
use token_price_proxy.Prelude.{
  ℕ, zero, suc, ◌<◌, ◌≡◌, ◌≢◌, refl, sym, ap, ◌∙◌, String, Bool, true, false, Option, none, some,
  ◌==◌, ◌||◌, if◌then◌else◌, Option-cases, Bool-cases, ◌⊎◌, inl, inr, arith,
}
use token_price_proxy.Redis.Commands.{Value, Keyspace, Reply, ok, err, get, set}
use token_price_proxy.Redis.Run.{Prog, done, send, ◌>>=◌, eval, eval-bind}
use token_price_proxy.CoinRepository.{Coins, coin_key, target, is_bare, Coder}
use token_price_proxy.CoinRepository.Reads.{coin_at, renamed, stand_in, answer, get_coins_by_one_id}

module _ (coder : Coder) where
  -- The row that is cached under an id, the empty one if there is none.
  abbrev pub cached : Keyspace → String → Coins
  cached ks id = coin_at coder (get (coin_key id) ks).0

  abbrev pub alias_of : Keyspace → String → Option String
  alias_of ks id = target (cached ks id).return_coins_id

  -- A row that stands in for another, unless it lacks its address or chain.
  abbrev pub standing : String → Option Coins → Option Coins
  standing id none = none
  standing id (some c) = if is_bare c then none else some (renamed coder id c)

  abbrev pub map_standing : String → Option (Option Coins) → Option (Option Coins)
  map_standing id none = none
  map_standing id (some r) = some (standing id r)

  abbrev pub follow :
      Coins → Option String → (String → Option (Option Coins)) → Option (Option Coins)
  follow c none again = some (some c)
  follow c (some t) again = map_standing c.id (again t)

  unfoldable pub resolve : ℕ → Keyspace → String → Option (Option Coins)
  resolve zero ks id = none
  resolve (suc n) ks id = follow (cached ks id) (alias_of ks id) (resolve n ks)

  abbrev pub replied : Option (Option Coins) → Option (Reply (Option Coins))
  replied none = none
  replied (some r) = some (ok r)

  pub resolve-plain :
      (n : ℕ) (ks : Keyspace) (id : String)
      → alias_of ks id ≡ none
      → resolve (suc n) ks id ≡ some (some (cached ks id))
  unfolding resolve
  resolve-plain n ks id h = ap (λ o. follow (cached ks id) o (resolve n ks)) h

  pub resolve-alias :
      (n : ℕ) (ks : Keyspace) (id : String) {t : String}
      → alias_of ks id ≡ some t
      → resolve (suc n) ks id ≡ map_standing (cached ks id).id (resolve n ks t)
  unfolding resolve
  resolve-alias n ks id h = ap (λ o. follow (cached ks id) o (resolve n ks)) h

  eval-stand_in :
      (id : String) (r : Option (Option Coins)) (ks : Keyspace)
      → (eval (stand_in coder id (replied r)) ks).0 ≡ replied (map_standing id r)
  unfolding stand_in
  eval-stand_in id none ks = refl
  eval-stand_in id (some none) ks = refl
  eval-stand_in id (some (some c)) ks = elim (Bool-cases (is_bare c)) [
    | inl e ↦ rw e refl
    | inr e ↦ rw e refl
  ]

  abbrev program : ℕ → String → Prog (Option (Reply (Option Coins)))
  program = get_coins_by_one_id coder

  eval-follow :
      (n : ℕ) (ks : Keyspace) (c : Coins) (o : Option String)
      → ((t : String) → (eval (program n t) ks).0 ≡ replied (resolve n ks t))
      → (eval (answer coder c o (program n)) ks).0 ≡ replied (follow c o (resolve n ks))
  eval-follow n ks c none ih = refl
  eval-follow n ks c (some t) ih =
      ap (λ p. p.0) (eval-bind (program n t) (stand_in coder c.id) ks)
      ∙ ap (λ x. (eval (stand_in coder c.id x) (eval (program n t) ks).1).0) (ih t)
      ∙ eval-stand_in c.id (resolve n ks t) (eval (program n t) ks).1

  -- On the documented commands the code answers what the walk finds, and no error.
  pub eval-resolve :
      (n : ℕ) (ks : Keyspace) (id : String)
      → (eval (get_coins_by_one_id coder n id) ks).0 ≡ replied (resolve n ks id)
  unfolding get_coins_by_one_id resolve
  eval-resolve zero ks id = refl
  eval-resolve (suc n) ks id = eval-follow n ks (cached ks id) (alias_of ks id) (eval-resolve n ks)

  pub follow_mono :
      (c : Coins) (o : Option String) (again again' : String → Option (Option Coins))
      (r : Option Coins)
      → ((t : String) (x : Option Coins) → again t ≡ some x → again' t ≡ some x)
      → follow c o again ≡ some r
      → follow c o again' ≡ some r
  follow_mono c none again again' r ih h = h
  follow_mono c (some t) again again' r ih h = elim (Option-cases (again t)) [
    | inl e ↦ ground (arith, h, e)
    | inr (x, e) ↦ ap (map_standing c.id) (ih t x e ∙ sym e) ∙ h
  ]

  -- More rounds do not change an answer.
  pub resolve-more :
      (n : ℕ) (ks : Keyspace) (id : String) (r : Option Coins)
      → resolve n ks id ≡ some r
      → resolve (suc n) ks id ≡ some r
  unfolding resolve
  resolve-more zero ks id r h = ground arith
  resolve-more (suc n) ks id r h =
      follow_mono (cached ks id) (alias_of ks id) (resolve n ks) (resolve (suc n) ks) r
        (resolve-more n ks) h

  follow-ends :
      (n : ℕ) (ks : Keyspace) (c : Coins) (o : Option String)
      → ((t : String) → o ≡ some t → resolve n ks t ≢ none)
      → follow c o (resolve n ks) ≢ none
  follow-ends n ks c none ih h = ground (arith, h)
  follow-ends n ks c (some t) ih h = elim (Option-cases (resolve n ks t)) [
    | inl e ↦ ih t refl e
    | inr (x, e) ↦ ground (arith, h, e)
  ]

  -- Where each alias points down a rank, the rank is enough rounds.
  pub resolve_ends :
      (rank : String → ℕ) (ks : Keyspace)
      → ((id t : String) → alias_of ks id ≡ some t → rank t < rank id)
      → (n : ℕ) (id : String) → rank id < n
      → resolve n ks id ≢ none
  unfolding resolve
  resolve_ends rank ks down zero id h = absurd (omega arith)
  resolve_ends rank ks down (suc n) id h =
      follow-ends n ks (cached ks id) (alias_of ks id)
        (λ t e. resolve_ends rank ks down n t (omega (arith, down id t e)))

  -- Ids that point at one another are never answered.
  pub resolve_loops :
      (ks : Keyspace) (P : String → Type 0)
      → ((id : String) → P id → (t : String) × (alias_of ks id ≡ some t) × P t)
      → (n : ℕ) (id : String) → P id
      → resolve n ks id ≡ none
  unfolding resolve
  resolve_loops ks P next zero id p = refl
  resolve_loops ks P next (suc n) id p =
      let (t, e, q) = next id p in
      ap (λ o. follow (cached ks id) o (resolve n ks)) e
      ∙ ap (map_standing (cached ks id).id) (resolve_loops ks P next n t q)
