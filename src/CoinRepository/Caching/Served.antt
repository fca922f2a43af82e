-- ===== src/CoinRepository/Caching/Served.antt =====
-- cacheCoinBatch on a server that is up.
use token_price_proxy.Prelude.{
  ℕ, suc, ◌≡◌, refl, sym, ap, ◌∙◌, String, true, false, Option, none, some, List, [], ◌∷◌, ◌++◌,
  ◌==◌, if◌then◌else◌, All, Bool-cases, inl, inr, arith,
}
use mathlib.Core.List.{append_assoc, append-nil}
use token_price_proxy.Prelude.Text.{append-==}
use token_price_proxy.Prelude.Chunks.{chunks, join_all, join_all-chunks}
use token_price_proxy.Redis.Commands.{word, Keyspace, Entry, put}
use token_price_proxy.Redis.Run.{Server, done, run, run-eval, eval, eval-then}
use token_price_proxy.CoinRepository.{
  Coins, Coder, cache_duration, cache_key_prefix, cache_batch_size, coin_key, target, is_bare,
}
use token_price_proxy.CoinRepository.Caching.{
  returned, if_named, round, pipe_sets, cache_attempt, attempts, cache_rows, overwrite_all,
  cache_coin_batch,
}

-- The keys with some texts put in.
unfoldable with_texts : List (String × String) → Keyspace → Keyspace
with_texts [] ks = ks
with_texts ((key, text) ∷ ws) ks =
    with_texts ws (put key (some (record { value = word text; ttl = some cache_duration })) ks)

eval-pipe_sets :
    (coder : Coder) (ws : List (String × String)) (ks : Keyspace)
    → eval (pipe_sets coder ws) ks ≡ (false, with_texts ws ks)
unfolding pipe_sets with_texts
eval-pipe_sets coder [] ks = refl
eval-pipe_sets coder ((key, text) ∷ ws) ks =
    let ks' = put key (some (record { value = word text; ttl = some cache_duration })) ks in
    eval-then (pipe_sets coder ws) (λ b. done b) ks' (eval-pipe_sets coder ws ks')

-- The last row with an id, of those that are cached.
abbrev pub or_else : Option Coins → Option Coins → Option Coins
or_else (some c) o = some c
or_else none o = o

unfoldable pub last_row : String → List Coins → Option Coins
last_row id [] = none
last_row id (c ∷ cs) =
    or_else (last_row id cs) (if is_bare c then none else if c.id == id then some c else none)

abbrev pub entry_after : (Coins → String) → Option Coins → Option Entry → Option Entry
entry_after text none e = e
entry_after text (some c) e = some (record { value = word (text c); ttl = some cache_duration })

or_else-none : (o : Option Coins) → or_else o none ≡ o
or_else-none none = refl
or_else-none (some c) = refl

abbrev pub Unnamed : List Coins → Type 0
Unnamed cs = All (λ (c : Coins). target c.return_coins_id ≡ none) cs

module _ (coder : Coder) (text : Coins → String)
    (marshals : (c : Coins) → coder.marshal c ≡ some (text c)) where
  unfoldable writes_of : List Coins → List (String × String)
  writes_of [] = []
  writes_of (c ∷ cs) =
      let rest = writes_of cs in if is_bare c then rest else (coin_key c.id, text c) ∷ rest

  unfoldable named_of : List Coins → List Coins
  named_of [] = []
  named_of (c ∷ cs) =
      let rest = named_of cs in
      if is_bare c then rest else if_named c (target c.return_coins_id) rest

  round_lem :
      (cs : List Coins)
      → round coder cs ≡ record { named = named_of cs; writes = some (writes_of cs) }
  unfolding round writes_of named_of
  round_lem [] = refl
  round_lem (c ∷ cs) = elim (Bool-cases (is_bare c)) [
    | inl e ↦ rw e (round_lem cs)
    | inr e ↦ rw e (rw (marshals c) (rw (round_lem cs) refl))
  ]

  eval-attempts :
      (n : ℕ) (cs named : List Coins) (ks : Keyspace)
      → eval (attempts coder (suc n) cs named) ks
        ≡ (named ++ named_of cs, with_texts (writes_of cs) ks)
  unfolding attempts
  eval-attempts n cs named ks =
      ap (λ rd. eval (cache_attempt coder rd named (attempts coder n cs)) ks) (round_lem cs)
      ∙ eval-then (pipe_sets coder (writes_of cs)) _ ks (eval-pipe_sets coder (writes_of cs) ks)

  with_texts-append :
      (v w : List (String × String)) (ks : Keyspace)
      → with_texts (v ++ w) ks ≡ with_texts w (with_texts v ks)
  unfolding with_texts
  with_texts-append [] w ks = refl
  with_texts-append ((key, t) ∷ v) w ks =
      with_texts-append v w
        (put key (some (record { value = word t; ttl = some cache_duration })) ks)

  writes_of-append : (a b : List Coins) → writes_of (a ++ b) ≡ writes_of a ++ writes_of b
  unfolding writes_of
  writes_of-append [] b = refl
  writes_of-append (c ∷ a) b = elim (Bool-cases (is_bare c)) [
    | inl e ↦ rw e (writes_of-append a b)
    | inr e ↦ rw e (rw (writes_of-append a b) refl)
  ]

  if_named-append :
      (c : Coins) (o : Option String) (a b : List Coins)
      → if_named c o (a ++ b) ≡ if_named c o a ++ b
  if_named-append c none a b = refl
  if_named-append c (some t) a b = refl

  named_of-append : (a b : List Coins) → named_of (a ++ b) ≡ named_of a ++ named_of b
  unfolding named_of
  named_of-append [] b = refl
  named_of-append (c ∷ a) b = elim (Bool-cases (is_bare c)) [
    | inl e ↦ rw e (named_of-append a b)
    | inr e ↦ rw e (
        ap (if_named c (target c.return_coins_id)) (named_of-append a b)
        ∙ if_named-append c (target c.return_coins_id) (named_of a) (named_of b))
  ]

  eval-cache_rows :
      (batches : List (List Coins)) (named : List Coins) (ks : Keyspace)
      → eval (cache_rows coder batches named) ks
        ≡ (named ++ named_of (join_all batches), with_texts (writes_of (join_all batches)) ks)
  unfolding cache_rows named_of writes_of with_texts
  eval-cache_rows [] named ks = ap (λ l. (l, ks)) (sym (append-nil named))
  eval-cache_rows (b ∷ batches) named ks =
      eval-then (attempts coder 3 b named) (cache_rows coder batches) ks
        (eval-attempts 2 b named ks)
      ∙ eval-cache_rows batches (named ++ named_of b) (with_texts (writes_of b) ks)
      ∙ ap (λ l. (l, with_texts (writes_of (join_all batches)) (with_texts (writes_of b) ks)))
          (append_assoc named (named_of b) (named_of (join_all batches))
            ∙ ap (λ l. named ++ l) (sym (named_of-append b (join_all batches))))
      ∙ ap (λ k. (named ++ named_of (b ++ join_all batches), k))
          (sym (with_texts-append (writes_of b) (writes_of (join_all batches)) ks)
            ∙ ap (λ w. with_texts w ks) (sym (writes_of-append b (join_all batches))))

  entry-or_else :
      (o : Option Coins) (c : Coins) (e : Option Entry)
      → entry_after text (or_else o (some c)) e
        ≡ entry_after text o (some (record { value = word (text c); ttl = some cache_duration }))
  entry-or_else none c e = refl
  entry-or_else (some d) c e = refl

  put_row :
      (c : Coins) (ks : Keyspace) (id : String)
      → put
          (coin_key c.id)
          (some (record { value = word (text c); ttl = some cache_duration }))
          ks
          (coin_key id)
        ≡ (if c.id == id
            then some (record { value = word (text c); ttl = some cache_duration })
            else ks (coin_key id))
  put_row c ks id = rw (append-== cache_key_prefix c.id id) refl

  written_row :
      (cs : List Coins) (ks : Keyspace) (id : String)
      → with_texts (writes_of cs) ks (coin_key id)
        ≡ entry_after text (last_row id cs) (ks (coin_key id))
  unfolding with_texts writes_of last_row
  written_row [] ks id = refl
  written_row (c ∷ cs) ks id =
      let put_in =
        put (coin_key c.id) (some (record { value = word (text c); ttl = some cache_duration }))
          ks in
      elim (Bool-cases (is_bare c)) [
        | inl e ↦ rw e (
            written_row cs ks id
            ∙ ap (λ o. entry_after text o (ks (coin_key id))) (sym (or_else-none (last_row id cs))))
        | inr e ↦ rw e (
            written_row cs put_in id
            ∙ ap (entry_after text (last_row id cs)) (put_row c ks id)
            ∙ (elim (Bool-cases (c.id == id)) [
              | inl h ↦ rw h (sym (entry-or_else (last_row id cs) c (ks (coin_key id))))
              | inr h ↦ rw h (
                  ap (λ o. entry_after text o (ks (coin_key id)))
                    (sym (or_else-none (last_row id cs))))
            ]))
      ]

  named_of-Unnamed : (cs : List Coins) → Unnamed cs → named_of cs ≡ []
  unfolding named_of
  named_of-Unnamed [] h = refl
  named_of-Unnamed (c ∷ cs) h = elim (Bool-cases (is_bare c)) [
    | inl e ↦ rw e (named_of-Unnamed cs h.1)
    | inr e ↦ rw e (rw h.0 (named_of-Unnamed cs h.1))
  ]

  eval-cache_coin_batch :
      (fuel : ℕ) (cs : List Coins) (ks : Keyspace)
      → Unnamed cs
      → eval (cache_coin_batch coder fuel cs) ks ≡ (returned tt, with_texts (writes_of cs) ks)
  unfolding cache_coin_batch overwrite_all
  eval-cache_coin_batch fuel cs ks h =
      let whole = join_all-chunks cache_batch_size cs (omega arith) in
      eval-then (cache_rows coder (chunks cache_batch_size cs) []) (overwrite_all coder fuel) ks
        (eval-cache_rows (chunks cache_batch_size cs) [] ks)
      ∙ ap (λ l. eval (overwrite_all coder fuel (named_of l)) (with_texts (writes_of l) ks)) whole
      ∙ ap (λ l. eval (overwrite_all coder fuel l) (with_texts (writes_of cs) ks))
          (named_of-Unnamed cs h)

  -- On a server that is up, where every row can be marshalled and none of the given rows stands for
  -- another, cacheCoinBatch returns, and each id's key holds the last of the rows with that id that
  -- has an address and a chain, for 72 hours; the key of an id with no such row is as before.
  pub rows_cached :
      (r : Server) (s : r.State) (fuel : ℕ) (cs : List Coins)
      → r.up s ≡ true
      → Unnamed cs
      → ((run r (cache_coin_batch coder fuel cs) s).0 ≡ returned tt)
        × ((id : String)
            → r.store (run r (cache_coin_batch coder fuel cs) s).1 (coin_key id)
              ≡ entry_after text (last_row id cs) (r.store s (coin_key id)))
  rows_cached r s fuel cs up h =
      let ran = run-eval r (cache_coin_batch coder fuel cs) s up in
      let e = eval-cache_coin_batch fuel cs (r.store s) h in
      (
        ran.0 ∙ ap (λ p. p.0) e,
        λ id. ap (λ ks. ks (coin_key id)) (ran.1 ∙ ap (λ p. p.1) e) ∙ written_row cs (r.store s) id,
      )
