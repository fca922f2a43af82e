-- ===== src/Prelude/Maps.antt =====
-- Go's maps with string keys, as association lists: an assignment replaces the entry or adds one
-- at the end. And sets of strings, `map[string]struct{}`, as lists.
use mathlib.Core.Path.{◌≡◌, refl, subst}
use mathlib.Core.Logic.{inl, inr}
use mathlib.Core.Bool.{Bool, false, ◌||◌}
use mathlib.Core.Option.{Option, none, some}
use mathlib.Core.List.{List, [], ◌∷◌}
use Prim.Native.String.{String}
use text.Mathlib.Text.{◌==◌}
use text.Mathlib.TextEquality.{eq_iff}
use native.Mathlib.Omega.{arith}
use token_price_proxy.Prelude.Tests.{if◌then◌else◌, Bool-cases}
use token_price_proxy.Prelude.Lists.{All}

-- The value under a key.
unfoldable pub lookup {ℓ} : {V : Type ℓ} → String → List (String × V) → Option V
lookup key [] = none
lookup key (entry ∷ rest) =
    let behind = lookup key rest in if entry.0 == key then some entry.1 else behind

-- `m[key] = value`
unfoldable pub insert {ℓ} : {V : Type ℓ} → String → V → List (String × V) → List (String × V)
insert key value [] = (key, value) ∷ []
insert key value (entry ∷ rest) =
    let replaced = (key, value) ∷ rest in
    let kept = entry ∷ insert key value rest in if entry.0 == key then replaced else kept

unfoldable pub contains : String → List String → Bool
contains k [] = false
contains k (j ∷ s) = j == k || contains k s

-- `s[k] = struct{}{}`
unfoldable pub add : String → List String → List String
add k [] = k ∷ []
add k (j ∷ s) = if j == k then j ∷ s else j ∷ add k s

-- `delete(s, k)`
unfoldable pub delete : String → List String → List String
delete k [] = []
delete k (j ∷ s) = let rest = delete k s in if j == k then rest else j ∷ rest

pub contains-add :
    (k j : String) (s : List String) → contains j (add k s) ≡ ((k == j) || contains j s)
unfolding contains add
contains-add k j [] = refl
contains-add k j (i ∷ s) = ground (arith, eq_iff k j, eq_iff i k, eq_iff i j, contains-add k j s)

pub contains-delete :
    (k j : String) (s : List String)
    → contains j (delete k s) ≡ (if k == j then false else contains j s)
unfolding contains delete
contains-delete k j [] = ground arith
contains-delete k j (i ∷ s) =
    ground (arith, eq_iff k j, eq_iff i k, eq_iff i j, contains-delete k j s)

-- A property of all the values of a map.
module _ {ℓ κ} {V : Type ℓ} (P : V → Type κ) where
  abbrev pub Values : List (String × V) → Type κ
  Values m = All (λ e. P e.1) m

  pub Values-insert :
      (k : String) (v : V) (m : List (String × V)) → P v → Values m → Values (insert k v m)
  unfolding insert
  Values-insert k v [] p h = (p, _)
  Values-insert k v ((j, w) ∷ m) p h = elim (Bool-cases (j == k)) [
    | inl e ↦ rw e (p, h.1)
    | inr e ↦ rw e (h.0, Values-insert k v m p h.1)
  ]

  pub lookup-Values :
      (k : String) (m : List (String × V)) (v : V) → Values m → lookup k m ≡ some v → P v
  unfolding lookup
  lookup-Values k [] v h e = ground arith
  lookup-Values k ((j, w) ∷ m) v h e = elim (Bool-cases (j == k)) [
    | inl b ↦ subst P (ground arith) h.0
    | inr b ↦ lookup-Values k m v h.1 (ground arith)
  ]

-- `delete(m, key)`
unfoldable pub erase {ℓ} : {V : Type ℓ} → String → List (String × V) → List (String × V)
erase key [] = []
erase key (entry ∷ rest) =
    let others = erase key rest in if entry.0 == key then others else entry ∷ others

pub lookup-insert {ℓ} :
    {V : Type ℓ} (key j : String) (value : V) (m : List (String × V))
    → lookup j (insert key value m) ≡ (if j == key then some value else lookup j m)
unfolding lookup insert
lookup-insert key j value [] = ground (arith, eq_iff key j, eq_iff j key)
lookup-insert key j value (entry ∷ rest) =
    let ih = lookup-insert key j value rest in
    ground (arith, ih, eq_iff key j, eq_iff j key, eq_iff entry.0 key, eq_iff entry.0 j)

pub lookup-erase {ℓ} :
    {V : Type ℓ} (key j : String) (m : List (String × V))
    → lookup j (erase key m) ≡ (if j == key then none else lookup j m)
unfolding lookup erase
lookup-erase key j [] = ground arith
lookup-erase key j (entry ∷ rest) =
    let ih = lookup-erase key j rest in
    ground (arith, ih, eq_iff j key, eq_iff entry.0 key, eq_iff entry.0 j)
