-- ===== src/Json.antt =====
-- Values of encoding/json in `interface{}`, with numbers of a type `F`, Go's float64, and the type
-- assertions on them. And GetStringPtr and GetIntPtr of internal/module/shared/util.go.
use token_price_proxy.Prelude.{String, Option, none, some, List, [], ◌∷◌, ◌==◌, if◌then◌else◌}
use token_price_proxy.CoinRepository.{ℤ}

mutual
  pub data Json (F : Type 0) : Type 0 where
    null : Json F
    truth falsity : Json F
    num : F → Json F
    text : String → Json F
    arr : Items F → Json F
    obj : Fields F → Json F

  pub data Items (F : Type 0) : Type 0 where
    nil : Items F
    cons : Json F → Items F → Items F

  pub data Fields (F : Type 0) : Type 0 where
    end : Fields F
    field : String → Json F → Fields F → Fields F

module _ {F : Type 0} where
  -- m[key]
  abbrev pub at_key : String → Fields F → Option (Json F)
  at_key key end = none
  at_key key (field k v fs) = let rest = at_key key fs in if k == key then some v else rest

  -- `value.(map[string]interface{})[key]`
  abbrev pub child : String → Option (Json F) → Option (Json F)
  child key (some (obj fs)) = at_key key fs
  child key _ = none

  -- `value.(map[string]interface{})`
  abbrev pub object_of : Option (Json F) → Option (Fields F)
  object_of (some (obj fs)) = some fs
  object_of _ = none

  -- `value.(string)`
  abbrev pub string_of : Option (Json F) → Option String
  string_of (some (text s)) = some s
  string_of _ = none

  -- `value.(float64)`
  abbrev pub number_of : Option (Json F) → Option F
  number_of (some (num x)) = some x
  number_of _ = none

  abbrev pub list_of_items : Items F → List (Json F)
  list_of_items nil = []
  list_of_items (cons x xs) = x ∷ list_of_items xs

  -- `value.([]interface{})`
  abbrev pub list_of : Option (Json F) → Option (List (Json F))
  list_of (some (arr xs)) = some (list_of_items xs)
  list_of _ = none

  -- GetStringPtr
  abbrev pub get_string_ptr : Option (Json F) → Option String
  get_string_ptr (some (text s)) = some s
  get_string_ptr _ = none

  -- GetIntPtr; `whole` is the conversion to int.
  abbrev pub get_int_ptr : (F → ℤ) → Option (Json F) → Option ℤ
  get_int_ptr whole (some (num x)) = some (whole x)
  get_int_ptr whole _ = none
