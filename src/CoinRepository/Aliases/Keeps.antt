-- ===== src/CoinRepository/Aliases/Keeps.antt =====
-- The writes of GetCoinsByOneID: each caches what the walk found, so every later walk finds the
-- same, and a row found through others is found at once.
use token_price_proxy.Prelude.{
  ℕ, zero, suc, ◌≡◌, ◌≢◌, refl, sym, ap, subst, ◌∙◌, String, true, false, Option, none, some, ◌==◌,
  if◌then◌else◌, Option-cases, Bool-cases, inl, inr, arith, eq_iff, eq_refl,
}
use token_price_proxy.Prelude.Text.{append-==}
use token_price_proxy.Redis.Commands.{word, Keyspace, ok}
use token_price_proxy.Redis.Run.{◌>>=◌, eval, eval-bind}
use token_price_proxy.CoinRepository.{Coins, cache_key_prefix, target, is_bare, Coder}
use token_price_proxy.CoinRepository.Reads.{
  marshalled, renamed, write_coin, stand_in, answer, get_coins_by_one_id,
}
use token_price_proxy.CoinRepository.Aliases.{
  cached, alias_of, standing, map_standing, follow, follow_mono, resolve, replied, resolve-plain,
  resolve-alias, eval-resolve,
}

module _ (coder : Coder) where
  some_inj : {x y : Option Coins} → some x ≡ some y → x ≡ y
  some_inj h = ground arith

  resolve-zero : (ks : Keyspace) (id : String) → resolve coder zero ks id ≡ none
  unfolding resolve
  resolve-zero ks id = refl

  follow_unique :
      (n m : ℕ) (ks : Keyspace) (c : Coins) (o : Option String) (x y : Option Coins)
      → ((t : String) (x y : Option Coins)
          → resolve coder n ks t ≡ some x
          → resolve coder m ks t ≡ some y
          → x ≡ y)
      → follow coder c o (resolve coder n ks) ≡ some x
      → follow coder c o (resolve coder m ks) ≡ some y
      → x ≡ y
  follow_unique n m ks c none x y ih h k = ground (arith, h, k)
  follow_unique n m ks c (some t) x y ih h k = elim (Option-cases (resolve coder n ks t)) [
    | inl e ↦ ground (arith, h, e)
    | inr (a, e) ↦ elim (Option-cases (resolve coder m ks t)) [
      | inl e' ↦ ground (arith, k, e')
      | inr (b, e') ↦ ground (arith, h, k, e, e', ih t a b)
    ]
  ]

  pub resolve_unique :
      (n m : ℕ) (ks : Keyspace) (id : String) (x y : Option Coins)
      → resolve coder n ks id ≡ some x
      → resolve coder m ks id ≡ some y
      → x ≡ y
  unfolding resolve
  resolve_unique zero m ks id x y h k = ground (arith, h)
  resolve_unique (suc n) zero ks id x y h k = ground (arith, k)
  resolve_unique (suc n) (suc m) ks id x y h k =
      follow_unique n m ks (cached coder ks id) (alias_of coder ks id) x y (resolve_unique n m ks) h
        k

  -- encoding/json reads a row back that it wrote, whatever the id.
  abbrev pub IsCoded : Coins → Type 0
  IsCoded c =
      (id : String)
      → (coder.unmarshal (word (marshalled coder (renamed coder id c)))).0 ≡ renamed coder id c

  -- An answer names no other row, and is read back.
  abbrev pub Final : Option Coins → Type 0
  Final none = Unit
  Final (some c) = (target c.return_coins_id ≡ none) × IsCoded c

  Final-standing : (id : String) (x : Option Coins) → Final x → Final (standing coder id x)
  Final-standing id none h = tt
  Final-standing id (some c) h = elim (Bool-cases (is_bare c)) [ inl e ↦ rw e tt | inr e ↦ rw e h ]

  follow-Final :
      (n : ℕ) (ks : Keyspace) (c : Coins) (o : Option String) (r : Option Coins)
      → target c.return_coins_id ≡ o
      → IsCoded c
      → ((t : String) (x : Option Coins) → resolve coder n ks t ≡ some x → Final x)
      → follow coder c o (resolve coder n ks) ≡ some r
      → Final r
  follow-Final n ks c none r p code ih h =
      subst Final {x = some c} {y = r} (ground (arith, h)) (p, code)
  follow-Final n ks c (some t) r p code ih h = elim (Option-cases (resolve coder n ks t)) [
    | inl e ↦ ground (arith, h, e)
    | inr (x, e) ↦
        subst Final {x = standing coder c.id x} {y = r} (ground (arith, h, e))
          (Final-standing c.id x (ih t x e))
  ]

  pub resolve-Final :
      (n : ℕ) (ks : Keyspace) (id : String) (r : Option Coins)
      → ((j : String) → IsCoded (cached coder ks j))
      → resolve coder n ks id ≡ some r
      → Final r
  unfolding resolve
  resolve-Final zero ks id r rows h = ground (arith, h)
  resolve-Final (suc n) ks id r rows h =
      follow-Final n ks (cached coder ks id) (alias_of coder ks id) r refl (rows id)
        (λ t x e. resolve-Final n ks t x rows e) h

  -- The keys after a read: an alias still has its own id, and no walk finds anything else.
  abbrev pub Keyed : Keyspace → Type 0
  Keyed ks = (id : String) → alias_of coder ks id ≢ none → (cached coder ks id).id ≡ id

  abbrev pub Keeps : Keyspace → Keyspace → Type 0
  Keeps ks ks' =
      (m : ℕ) (j : String) (x : Option Coins)
      → resolve coder m ks j ≡ some x
      → resolve coder m ks' j ≡ some x

  cached-write :
      (v : Coins) (ks : Keyspace) (j : String)
      → (coder.unmarshal (word (marshalled coder v))).0 ≡ v
      → cached coder (write_coin coder v ks).1 j ≡ (if v.id == j then v else cached coder ks j)
  cached-write v ks j codes = elim (Bool-cases (v.id == j)) [
    | inl e ↦ rw e (rw (append-== cache_key_prefix v.id j) (rw e codes))
    | inr e ↦ rw e (rw (append-== cache_key_prefix v.id j) (rw e refl))
  ]

  -- One row cached under its id, which the walk from that id finds.
  module _ (ks : Keyspace) (v : Coins) (final : target v.return_coins_id ≡ none) (n : ℕ)
      (found : resolve coder n ks v.id ≡ some (some v))
      (codes : (coder.unmarshal (word (marshalled coder v))).0 ≡ v) where
    abbrev written : Keyspace
    written = (write_coin coder v ks).1

    cached-same : cached coder written v.id ≡ v
    cached-same =
        cached-write v ks v.id codes
        ∙ ap (λ b. if b then v else cached coder ks v.id) (eq_refl v.id)

    resolve-same : (m : ℕ) → resolve coder (suc m) written v.id ≡ some (some v)
    resolve-same m =
        resolve-plain coder m written v.id (ap (λ c. target c.return_coins_id) cached-same ∙ final)
        ∙ ap (λ c. some (some c)) cached-same

    at_new : (j : String) → (v.id == j) ≡ true → cached coder written j ≡ v
    at_new j e = cached-write v ks j codes ∙ ap (λ b. if b then v else cached coder ks j) e

    at_old : (j : String) → (v.id == j) ≡ false → cached coder written j ≡ cached coder ks j
    at_old j e = cached-write v ks j codes ∙ ap (λ b. if b then v else cached coder ks j) e

    write-Keyed : Keyed ks → Keyed written
    write-Keyed keyed j h = elim (Bool-cases (v.id == j)) [
      | inl e ↦ ap (λ c. c.id) (at_new j e) ∙ (eq_iff v.id j).0 e
      | inr e ↦
          let same = at_old j e in
          ap (λ c. c.id) same ∙ keyed j (λ k. h (ap (λ c. target c.return_coins_id) same ∙ k))
    ]

    write-Keeps : Keeps ks written
    unfolding resolve
    write-Keeps zero j x h = ground (arith, h)
    write-Keeps (suc m) j x h = elim (Bool-cases (v.id == j)) [
      | inl e ↦
          let same = (eq_iff v.id j).0 e in
          subst (λ i. resolve coder (suc m) written i ≡ some x) same
            (resolve-same m
              ∙ ap some (
                  sym (
                    resolve_unique (suc m) n ks v.id x (some v)
                      (subst (λ i. resolve coder (suc m) ks i ≡ some x) (sym same) h) found)))
      | inr e ↦
          ap (λ c. follow coder c (target c.return_coins_id) (resolve coder m written)) (at_old j e)
          ∙ follow_mono coder (cached coder ks j) (alias_of coder ks j) (resolve coder m ks)
              (resolve coder m written) x (write-Keeps m) h
    ]

  -- A read of the row `id`, which ends with the answer `r`.
  abbrev Leaves : String → Option Coins → Keyspace → Keyspace → Type 0
  Leaves id r ks ks' =
      Keyed ks'
      × Keeps ks ks'
      × ((c : Coins) → r ≡ some c → (m : ℕ) → resolve coder (suc m) ks' id ≡ some (some c))

  -- `ks`: before the read; `ks'`: after that of the row `t` that is named, with its answer.
  stand_in-Leaves :
      (n : ℕ) (id t : String) (ks ks' : Keyspace) (x r : Option Coins)
      → Keyed ks'
      → Keeps ks ks'
      → Final x
      → resolve coder n ks id ≡ some r
      → standing coder id x ≡ r
      → Leaves id r ks (eval (stand_in coder id (some (ok x))) ks').1
  unfolding stand_in
  stand_in-Leaves n id t ks ks' none r keyed keeps final h e =
      (keyed, keeps, λ c p. ground (arith, e, p))
  stand_in-Leaves n id t ks ks' (some c) r keyed keeps final h e = elim (Bool-cases (is_bare c)) [
    | inl b ↦
        let none_left : none ≡ r =
          ap (λ b. if b then none else some (renamed coder id c)) (sym b) ∙ e in
        rw b (keyed, keeps, λ d p. ground (arith, none_left, p))
    | inr b ↦
        let v = renamed coder id c in
        let is_v : some v ≡ r = ap (λ b. if b then none else some v) (sym b) ∙ e in
        let found : resolve coder n ks' id ≡ some (some v) = keeps n id r h ∙ ap some (sym is_v) in
        rw b (
          write-Keyed ks' v final.0 n found (final.1 id) keyed,
          λ m j y k. write-Keeps ks' v final.0 n found (final.1 id) m j y (keeps m j y k),
          λ d p m. resolve-same ks' v final.0 n found (final.1 id) m ∙ ap some (is_v ∙ p),
        )
  ]

  abbrev after : ℕ → String → Keyspace → Keyspace
  after n id ks = (eval (get_coins_by_one_id coder n id) ks).1

  read_alias :
      (n : ℕ) (id t : String) (ks : Keyspace) (x r : Option Coins)
      → ((j : String) → IsCoded (cached coder ks j))
      → (cached coder ks id).id ≡ id
      → resolve coder n ks t ≡ some x
      → resolve coder (suc n) ks id ≡ some r
      → standing coder id x ≡ r
      → Keyed (after n t ks) × Keeps ks (after n t ks)
      → Leaves id r ks
          (eval (answer coder (cached coder ks id) (some t) (get_coins_by_one_id coder n)) ks).1
  read_alias n id t ks x r rows own found h e l =
      subst (λ i. Leaves id r ks (eval (get_coins_by_one_id coder n t >>= stand_in coder i) ks).1)
        (sym own)
        (subst (λ k. Leaves id r ks k.1)
          (sym (eval-bind (get_coins_by_one_id coder n t) (stand_in coder id) ks))
          (subst (λ a. Leaves id r ks (eval (stand_in coder id a) (after n t ks)).1)
            (sym (eval-resolve coder n ks t ∙ ap (replied coder) found))
            (stand_in-Leaves (suc n) id t ks (after n t ks) x r l.0 l.1
              (resolve-Final n ks t x rows found) h e)))

  stands :
      (n : ℕ) (id t : String) (ks : Keyspace) (x r : Option Coins)
      → (cached coder ks id).id ≡ id
      → resolve coder (suc n) ks id
        ≡ map_standing coder (cached coder ks id).id (resolve coder n ks t)
      → resolve coder (suc n) ks id ≡ some r
      → resolve coder n ks t ≡ some x
      → standing coder id x ≡ r
  stands n id t ks x r own step h e =
      let found : some (standing coder (cached coder ks id).id x) ≡ some r =
        sym (step ∙ ap (map_standing coder (cached coder ks id).id) e) ∙ h in
      ap (λ i. standing coder i x) (sym own) ∙ some_inj found

  read_at :
      (n : ℕ) (id : String) (ks : Keyspace) (r : Option Coins) (o : Option String)
      → alias_of coder ks id ≡ o
      → ((j : String) → IsCoded (cached coder ks j))
      → Keyed ks
      → resolve coder (suc n) ks id ≡ some r
      → ((t : String) (x : Option Coins)
          → resolve coder n ks t ≡ some x
          → Keyed (after n t ks) × Keeps ks (after n t ks))
      → Leaves id r ks
          (eval (answer coder (cached coder ks id) o (get_coins_by_one_id coder n)) ks).1
  read_at n id ks r none p rows keyed h ih = (
    keyed,
    λ m j x k. k,
    λ c q m. resolve-plain coder m ks id p ∙ sym (resolve-plain coder n ks id p) ∙ h ∙ ap some q,
  )
  read_at n id ks r (some t) p rows keyed h ih =
      let step = resolve-alias coder n ks id p in
      let own = keyed id (λ k. ground (arith, p, k)) in
      elim (Option-cases (resolve coder n ks t)) [
        | inl e ↦ ground (arith, step, h, e)
        | inr (x, e) ↦
            read_alias n id t ks x r rows own e h (stands n id t ks x r own step h e) (ih t x e)
      ]

  -- GetCoinsByOneID on a server that is up, where the walk from `id` ends.
  pub read-Leaves :
      (n : ℕ) (id : String) (ks : Keyspace) (r : Option Coins)
      → ((j : String) → IsCoded (cached coder ks j))
      → Keyed ks
      → resolve coder n ks id ≡ some r
      → Leaves id r ks (after n id ks)
  unfolding get_coins_by_one_id
  read-Leaves zero id ks r rows keyed h = ground (arith, resolve-zero ks id, h)
  read-Leaves (suc n) id ks r rows keyed h =
      read_at n id ks r (alias_of coder ks id) refl rows keyed h
        (λ t x e. let l = read-Leaves n t ks x rows keyed e in (l.0, l.1))
