-- ===== src/CoinRepository/Upsert.antt =====
-- upsertCoins: the statement that inserts or updates rows, and its parameters. `columns` is what
-- the reflection over Coins finds: the fields but Base, under their JSON names.
pub mod Params
pub mod Sent
use token_price_proxy.Prelude.{
  ℕ, String, str_append, Bool, true, false, Option, none, some, List, [], ◌∷◌, ◌++◌, map, ◌==◌,
  ◌||◌, if◌then◌else◌,
}
use token_price_proxy.CoinRepository.{ℤ, Coins}

-- The values of the fields, by their kinds.
pub data Field : Type 0 where
  text : String → Field
  text_pointer : Option String → Field
  platforms : Option (List (String × String)) → Field
  int_pointer : Option ℤ → Field
  time_pointer : Option ℕ → Field

-- `columns`, with `field.Interface()` for each of them.
unfoldable pub fields : Coins → List (String × Field)
fields c =
    ("id", text c.id)
    ∷ ("address", text c.address)
    ∷ ("chain_id", text c.chain_id)
    ∷ ("symbol", text_pointer c.symbol)
    ∷ ("name", text_pointer c.name)
    ∷ ("coingecko_coin_id", text_pointer c.coingecko_coin_id)
    ∷ ("coingecko_platforms", platforms c.coingecko_platforms)
    ∷ ("geckoterminal_network", text_pointer c.geckoterminal_network)
    ∷ ("extra", text_pointer c.extra)
    ∷ ("decimals", int_pointer c.decimals)
    ∷ ("total_supply", text_pointer c.total_supply)
    ∷ ("label", text c.label)
    ∷ ("pool_name", text_pointer c.pool_name)
    ∷ ("base_token_address", text_pointer c.base_token_address)
    ∷ ("quote_token_address", text_pointer c.quote_token_address)
    ∷ ("pool_created_at", time_pointer c.pool_created_at)
    ∷ ("pool_attributes", text_pointer c.pool_attributes)
    ∷ ("last_price_source", text_pointer c.last_price_source)
    ∷ ("price_source", text_pointer c.price_source)
    ∷ ("return_coins_id", text_pointer c.return_coins_id)
    ∷ []

abbrev is_nil {ℓ} : {A : Type ℓ} → Option A → Bool
is_nil none = true
is_nil (some _) = false

-- A nil pointer or an empty string: such a column is not updated. A nil map is.
abbrev pub is_blank : Field → Bool
is_blank (text s) = s == ""
is_blank (text_pointer p) = is_nil p
is_blank (platforms p) = false
is_blank (int_pointer p) = is_nil p
is_blank (time_pointer p) = is_nil p

abbrev pub is_kept : String → Bool
is_kept column = column == "created_at" || column == "updated_at" || column == "id"

-- `updateColumns`, of one row's fields.
unfoldable pub updated_columns : List (String × Field) → List String
updated_columns [] = []
updated_columns (f ∷ fs) =
    let rest = updated_columns fs in if is_kept f.0 || is_blank f.1 then rest else f.0 ∷ rest

-- strings.Join(parts, ", ")
unfoldable pub join : List String → String
join [] = ""
join (s ∷ []) = s
join (s ∷ t ∷ ss) = str_append s (str_append ", " (join (t ∷ ss)))

abbrev pub assignment : String → String
assignment column = str_append column (str_append " = EXCLUDED." column)

-- The `?` of one row.
abbrev pub marks : Coins → List String
marks c = map (λ (f : String × Field). "?") (fields c)

abbrev pub placeholder : Coins → String
placeholder c = str_append "(" (str_append (join (marks c)) ")")

-- `insertValues`
unfoldable pub insert_values : List Coins → List Field
insert_values [] = []
insert_values (c ∷ coins) = map (λ (f : String × Field). f.1) (fields c) ++ insert_values coins

abbrev pub on_conflict : Coins → String
on_conflict c =
    str_append "ON CONFLICT (id) DO UPDATE SET "
      (str_append (join (map assignment (updated_columns (fields c)))) ", updated_at = NOW()")

-- A statement with its parameters.
pub record Statement : Type 0 where
  pub sql : String
  pub params : List Field

-- upsertCoins, up to tx.Exec: without rows there is no statement.
unfoldable pub upsert_statement : List Coins → Option Statement
upsert_statement [] = none
upsert_statement (c ∷ coins) = some (record {
  sql = str_append "INSERT INTO coins (" (
      str_append (join (map (λ (f : String × Field). f.0) (fields c))) (
        str_append ") VALUES "
          (str_append (join (map placeholder (c ∷ coins))) (str_append " " (on_conflict c)))));
  params = insert_values (c ∷ coins);
})
