-- ===== src/CoinRepository/Tests.antt =====
-- The rows of the coins at concrete data: a row that stands for another, on the ideal server.
use Prim.Native.Char.{Char, code}
use token_price_proxy.Prelude.{
  ℕ, ◌<◌, ◌≡◌, ◌≢◌, refl, sym, ap, subst, ◌∙◌, String, Bool, true, false, Option, none, some, ◌==◌,
  if◌then◌else◌, eqb, Bool-cases, inl, inr, arith, eq_iff,
}
use token_price_proxy.Prelude.Text.{append-==}
use token_price_proxy.Redis.Commands.{Value, word, number, members, items, Keyspace, ok, put}
use token_price_proxy.Redis.Run.{ideal, run}
use token_price_proxy.CoinRepository.{Coins, no_coin, coin_key, cache_key_prefix, Coder}
use token_price_proxy.CoinRepository.Reads.{get_coins_by_one_id, renamed}
use token_price_proxy.CoinRepository.Aliases.{cached, alias_of, resolve}
use token_price_proxy.CoinRepository.Aliases.Keeps.{IsCoded, Keyed, Keeps}
use token_price_proxy.CoinRepository.Aliases.Served.{coin_read, coin_read_ends, coin_read_loops}

abbrev pub pair_row : Coins
pair_row = record no_coin {
  id = "1_a";
  address = "a";
  chain_id = "1";
  return_coins_id = some "1_b";
}

abbrev pub plain_row : Coins
plain_row = record no_coin { id = "1_b"; address = "b"; chain_id = "1" }

abbrev pub tag : Coins → Char
tag c = if c.address == "a" then "A" else if c.address == "b" then "B" else "0"

abbrev untag : String → Coins × Bool
untag String.[] = (no_coin, false)
untag (String.◌∷◌ c id) =
    if eqb (code c) b'A'
    then (record pair_row { id = id }, true)
    else if eqb (code c) b'B'
    then (record plain_row { id = id }, true)
    else (record no_coin { id = id }, true)

abbrev untagged : Value → Coins × Bool
untagged (word s) = untag s
untagged (number n) = (no_coin, false)
untagged (members l) = (no_coin, false)
untagged (items l) = (no_coin, false)

abbrev pub tags : Coder
tags = record { marshal = λ c. some (String.◌∷◌ (tag c) c.id); unmarshal = untagged }

abbrev keys : Keyspace
keys =
    put (coin_key "1_a") (some (record { value = word "A1_a"; ttl = none }))
      (put (coin_key "1_b") (some (record { value = word "B1_b"; ttl = none })) (λ k. none))

keys-IsCoded : (j : String) → IsCoded tags (cached tags keys j)
keys-IsCoded j = elim (Bool-cases (coin_key "1_a" == coin_key j)) [
  | inl e ↦ rw e (λ id. refl)
  | inr e ↦ elim (Bool-cases (coin_key "1_b" == coin_key j)) [
    | inl e' ↦ rw e (rw e' (λ id. refl))
    | inr e' ↦ rw e (rw e' (λ id. refl))
  ]
]

key_of_alias : (j : String) → alias_of tags keys j ≢ none → (coin_key "1_a" == coin_key j) ≡ true
key_of_alias j h = elim (Bool-cases (coin_key "1_a" == coin_key j)) [
  | inl e ↦ e
  | inr e ↦ elim (Bool-cases (coin_key "1_b" == coin_key j)) [
    | inl e' ↦ absurd (h (rw e (rw e' refl)))
    | inr e' ↦ absurd (h (rw e (rw e' refl)))
  ]
]

same_id : (j : String) → alias_of tags keys j ≢ none → ◌≡◌ {A = String} "1_a" j
same_id j h = (eq_iff "1_a" j).0 (sym (append-== cache_key_prefix "1_a" j) ∙ key_of_alias j h)

keys-Keyed : Keyed tags keys
keys-Keyed j h = rw (key_of_alias j h) (same_id j h)

pair_found : resolve tags 2 keys "1_a" ≡ some (some (renamed tags "1_a" plain_row))
unfolding resolve
pair_found = refl

coin_read_example :
    ((run ideal (get_coins_by_one_id tags 2 "1_a") keys).0
      ≡ some (ok (some (renamed tags "1_a" plain_row))))
    × Keeps tags keys (run ideal (get_coins_by_one_id tags 2 "1_a") keys).1
    × Keyed tags (run ideal (get_coins_by_one_id tags 2 "1_a") keys).1
    × ((c : Coins)
        → ◌≡◌ {A = Option Coins} (some (renamed tags "1_a" plain_row)) (some c)
        → resolve tags 1 (run ideal (get_coins_by_one_id tags 2 "1_a") keys).1 "1_a"
          ≡ some (some c))
coin_read_example =
    coin_read tags ideal keys refl keys-IsCoded keys-Keyed 2 "1_a"
      (some (renamed tags "1_a" plain_row)) pair_found

abbrev height : String → ℕ
height j = if "1_a" == j then 1 else 0

height_falls : (id t : String) → alias_of tags keys id ≡ some t → height t < height id
height_falls id t e =
    let own : ◌≡◌ {A = String} "1_a" id = same_id id (λ n. ground (arith, e, n)) in
    let named : ◌≡◌ {A = Option String} (some "1_b") (some t) = ap (alias_of tags keys) own ∙ e in
    let named' : ◌≡◌ {A = String} "1_b" t = ground (arith, named) in
    subst (λ j. height j < height id) named'
      (subst (λ j. height "1_b" < height j) own (omega arith))

coin_read_ends_example :
    (x : Option Coins) × ((run ideal (get_coins_by_one_id tags 2 "1_a") keys).0 ≡ some (ok x))
coin_read_ends_example = coin_read_ends tags ideal keys refl height height_falls "1_a"

-- A row that names itself.
abbrev circle : Keyspace
circle = put (coin_key "1_b") (some (record { value = word "A1_b"; ttl = none })) (λ k. none)

circle_next :
    (id : String)
    → ◌≡◌ {A = String} "1_b" id
    → (t : String) × (alias_of tags circle id ≡ some t) × ◌≡◌ {A = String} "1_b" t
circle_next id e = ("1_b", subst (λ j. alias_of tags circle j ≡ some "1_b") e refl, refl)

coin_read_loops_example : (run ideal (get_coins_by_one_id tags 9 "1_b") circle).0 ≡ none
coin_read_loops_example =
    coin_read_loops tags ideal circle refl (λ id. ◌≡◌ {A = String} "1_b" id) circle_next 9 "1_b"
      refl
