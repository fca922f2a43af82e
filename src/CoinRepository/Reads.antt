-- ===== src/CoinRepository/Reads.antt =====
-- GetCoinsByOneID, GetCoinsByID, CheckCoinExists and cacheCoinBatch, as programs over Redis
-- commands. A row may name another whose data are answered in its place. The recursion of
-- GetCoinsByOneID takes fuel: `none` is a call that has not returned after so many rounds.
use token_price_proxy.Prelude.{
  ℕ, zero, suc, String, Bool, true, false, not, Option, none, some, List, [], ◌∷◌, ◌++◌, map, ◌==◌,
  if◌then◌else◌,
}
use token_price_proxy.Prelude.Maps.{insert, lookup}
use token_price_proxy.Redis.Commands.{Value, word, Reply, ok, err, Command, get, set}
use token_price_proxy.Redis.Run.{Prog, done, send, ◌>>=◌}
use token_price_proxy.CoinRepository.{
  Coins, no_coin, cache_duration, coin_key, target, is_bare, Coder,
}

module _ (coder : Coder) where
  open coder use {marshal, unmarshal}

  -- `data, _ := json.Marshal(coin)`
  abbrev pub marshalled : Coins → String
  marshalled c = elim (marshal c) [ none ↦ "" | some s ↦ s ]

  -- What is in `coin` after the cache has been asked.
  abbrev pub coin_at : Reply (Option Value) → Coins
  coin_at err = no_coin
  coin_at (ok none) = no_coin
  coin_at (ok (some v)) = (unmarshal v).0

  abbrev pub renamed : String → Coins → Coins
  renamed id c = record c { id = id }

  abbrev pub write_coin : Coins → Command (Unit {0})
  write_coin c = set (coin_key c.id) (word (marshalled c)) cache_duration

  -- The row that another stands for, under its own id, which is cached.
  unfoldable pub stand_in :
      String → Option (Reply (Option Coins)) → Prog (Option (Reply (Option Coins)))
  stand_in id none = done none
  stand_in id (some err) = done (some err)
  stand_in id (some (ok none)) = done (some (ok none))
  stand_in id (some (ok (some c))) =
      if is_bare c
      then done (some (ok none))
      else send (write_coin (renamed id c)) (λ _. done (some (ok (some (renamed id c)))))

  abbrev pub answer :
      Coins
      → Option String
      → (String → Prog (Option (Reply (Option Coins))))
      → Prog (Option (Reply (Option Coins)))
  answer coin none again = done (some (ok (some coin)))
  answer coin (some t) again = again t >>= stand_in coin.id

  -- GetCoinsByOneID. `some (ok none)` is a nil pointer without an error.
  unfoldable pub get_coins_by_one_id : ℕ → String → Prog (Option (Reply (Option Coins)))
  get_coins_by_one_id zero id = done none
  get_coins_by_one_id (suc fuel) id =
      send (get (coin_key id))
        (λ r. answer (coin_at r) (target (coin_at r).return_coins_id) (get_coins_by_one_id fuel))

  -- CheckCoinExists: `coin != nil && coin.ID != ""`
  abbrev pub has_id : Option Coins → Bool
  has_id none = false
  has_id (some c) = not (c.id == "")

  abbrev pub exists_of : Option (Reply (Option Coins)) → Option (Reply Bool)
  exists_of none = none
  exists_of (some err) = some err
  exists_of (some (ok c)) = some (ok (has_id c))

  unfoldable pub check_coin_exists : ℕ → String → Prog (Option (Reply Bool))
  check_coin_exists fuel id = get_coins_by_one_id fuel id >>= λ r. done (exists_of r)

  -- pipe.Exec of the reads: all are sent, and the first that fails is the error. A missing key
  -- counts as a failure, of the kind that the caller passes over.
  unfoldable pub pipe_gets : List String → Prog (List (Reply (Option Value)))
  pipe_gets [] = done []
  pipe_gets (id ∷ ids) = send (get (coin_key id)) (λ r. pipe_gets ids >>= λ rs. done (r ∷ rs))

  abbrev pub is_refused : List (Reply (Option Value)) → Bool
  is_refused [] = false
  is_refused (err ∷ rs) = true
  is_refused (ok none ∷ rs) = false
  is_refused (ok (some _) ∷ rs) = is_refused rs

  -- `cachedCoins`, from `cmds`: the commands by their ids, the last one of an id given twice.
  unfoldable pub commands_of :
      List String
      → List (Reply (Option Value))
      → List (String × Reply (Option Value))
      → List (String × Reply (Option Value))
  commands_of (id ∷ ids) (r ∷ rs) m = commands_of ids rs (insert id r m)
  commands_of [] rs m = m
  commands_of (id ∷ ids) [] m = m

  abbrev pub decoded : Coins × Bool → Option Coins
  decoded (c, true) = some c
  decoded (c, false) = none

  abbrev pub coin_in : Option (Reply (Option Value)) → Option Coins
  coin_in (some (ok (some v))) = decoded (unmarshal v)
  coin_in (some (ok none)) = none
  coin_in (some err) = none
  coin_in none = none

  unfoldable pub cached_coins : List String → List (String × Reply (Option Value)) → List Coins
  cached_coins [] m = []
  cached_coins (id ∷ ids) m =
      let rest = cached_coins ids m in
      elim (coin_in (lookup id m)) [ none ↦ rest | some c ↦ c ∷ rest ]

  -- One round of the loop over the rows in `cachedCoins`; `acc` is `coins` so far. The row that is
  -- answered in another's place is not looked at here.
  unfoldable pub behind :
      String → List Coins → Option (Reply (Option Coins)) → Prog (Option (List Coins))
  behind id acc none = done none
  behind id acc (some err) = done (some acc)
  behind id acc (some (ok none)) = done (some acc)
  behind id acc (some (ok (some c))) =
      send (write_coin (renamed id c)) (λ _. done (some (acc ++ renamed id c ∷ [])))

  unfoldable pub with_coin : ℕ → Coins → List Coins → Option String → Prog (Option (List Coins))
  with_coin fuel coin acc none = done (some (acc ++ coin ∷ []))
  with_coin fuel coin acc (some t) = get_coins_by_one_id fuel t >>= behind coin.id acc

  abbrev pub unless_out : {A B : Type 0} → Option A → (A → Prog (Option B)) → Prog (Option B)
  unless_out none k = done none
  unless_out (some a) k = k a

  unfoldable pub coins_of : ℕ → List Coins → List Coins → Prog (Option (List Coins))
  coins_of fuel [] acc = done (some acc)
  coins_of fuel (c ∷ cs) acc =
      with_coin fuel c acc (target c.return_coins_id) >>= λ a. unless_out a (coins_of fuel cs)

  abbrev pub ok_list : Option (List Coins) → Option (Reply (List Coins))
  ok_list none = none
  ok_list (some cs) = some (ok cs)

  abbrev pub command_ids : List (String × Reply (Option Value)) → List String
  command_ids m = map (λ (e : String × Reply (Option Value)). e.0) m

  -- GetCoinsByID. `order` is the order in which the Go runtime ranges over a map's keys.
  unfoldable pub get_coins_by_id :
      (List String → List String) → ℕ → List String → Prog (Option (Reply (List Coins)))
  get_coins_by_id order fuel ids = pipe_gets ids >>= λ rs.
      let m = commands_of ids rs [] in
      if is_refused rs
      then done (some err)
      else coins_of fuel (cached_coins (order (command_ids m)) m) [] >>= λ cs. done (ok_list cs)
