-- ===== src/CoinRepository/Aliases/Served.antt =====
-- GetCoinsByOneID on a server that is up.
use token_price_proxy.Prelude.{
  ℕ, suc, ◌<◌, ◌≡◌, sym, ap, subst, ◌∙◌, String, Option, none, some, Option-cases, inl, inr, true,
  arith,
}
use token_price_proxy.Redis.Commands.{ok}
use token_price_proxy.Redis.Run.{Server, run, run-eval}
use token_price_proxy.CoinRepository.{Coins, Coder}
use token_price_proxy.CoinRepository.Reads.{get_coins_by_one_id}
use token_price_proxy.CoinRepository.Aliases.{
  cached, alias_of, resolve, replied, eval-resolve, resolve_ends, resolve_loops,
}
use token_price_proxy.CoinRepository.Aliases.Keeps.{IsCoded, Keyed, Keeps, read-Leaves}

module _ (coder : Coder) (r : Server) (s : r.State) (up : r.up s ≡ true) where
  run-resolve :
      (n : ℕ) (id : String)
      → (run r (get_coins_by_one_id coder n id) s).0
        ≡ replied coder (resolve coder n (r.store s) id)
  run-resolve n id =
      (run-eval r (get_coins_by_one_id coder n id) s up).0 ∙ eval-resolve coder n (r.store s) id

  -- On a server that is up, where encoding/json reads back each cached row that it wrote, under any
  -- id, and each cached row that names another row is cached under its own id, a call of GetCoinsByOneID answers what the walk
  -- along the names finds on the keys as they were before it. The rows that it caches change no
  -- walk from any id, each row that names another is still under its own id, and a row that was
  -- found is found again without a further walk.
  pub coin_read :
      ((j : String) → IsCoded coder (cached coder (r.store s) j))
      → Keyed coder (r.store s)
      → (n : ℕ) (id : String) (x : Option Coins) → resolve coder n (r.store s) id ≡ some x
      → ((run r (get_coins_by_one_id coder n id) s).0 ≡ some (ok x))
        × Keeps coder (r.store s) (r.store (run r (get_coins_by_one_id coder n id) s).1)
        × Keyed coder (r.store (run r (get_coins_by_one_id coder n id) s).1)
        × ((c : Coins)
            → x ≡ some c
            → resolve coder 1 (r.store (run r (get_coins_by_one_id coder n id) s).1) id
              ≡ some (some c))
  coin_read codes keyed n id x h =
      let l = read-Leaves coder n id (r.store s) x codes keyed h in
      let e = sym (run-eval r (get_coins_by_one_id coder n id) s up).1 in
      (
        run-resolve n id ∙ ap (replied coder) h,
        subst (Keeps coder (r.store s)) e l.1,
        subst (Keyed coder) e l.0,
        λ c p. subst (λ ks. resolve coder 1 ks id ≡ some (some c)) e (l.2 c p 0),
      )

  -- On a server that is up, where each cached row that names another row names one of a lower
  -- rank, GetCoinsByOneID returns after at most one round more than the id's rank, and without an
  -- error.
  pub coin_read_ends :
      (rank : String → ℕ)
      → ((id t : String) → alias_of coder (r.store s) id ≡ some t → rank t < rank id)
      → (id : String)
      → (x : Option Coins) × ((run r (get_coins_by_one_id coder (suc (rank id)) id) s).0
          ≡ some (ok x))
  coin_read_ends rank down id = elim (Option-cases (resolve coder (suc (rank id)) (r.store s) id)) [
    | inl e ↦
        ground (arith, resolve_ends coder rank (r.store s) down (suc (rank id)) id (omega arith) e)
    | inr (x, e) ↦ (x, run-resolve (suc (rank id)) id ∙ ap (replied coder) e)
  ]

  -- On a server that is up, where the rows of some ids name one another in a circle or lead into
  -- one, GetCoinsByOneID on such an id has not returned after any number of rounds.
  pub coin_read_loops :
      (P : String → Type 0)
      → ((id : String) → P id → (t : String) × (alias_of coder (r.store s) id ≡ some t) × P t)
      → (n : ℕ) (id : String) → P id
      → (run r (get_coins_by_one_id coder n id) s).0 ≡ none
  coin_read_loops P next n id p =
      run-resolve n id ∙ ap (replied coder) (resolve_loops coder (r.store s) P next n id p)
