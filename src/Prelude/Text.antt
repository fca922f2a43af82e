-- ===== src/Prelude/Text.antt =====
-- What the program uses of Go's `strings`, over code points.
use Prim.Native.Nat.{ℕ, ◌<◌}
use token_price_proxy.Prelude.Lists.{length}
use Prim.Native.Char.{Char, code}
use Prim.Native.String.{String, ◌++◌}
use mathlib.Core.Path.{◌≡◌, refl, sym, ◌∙◌, ap}
use mathlib.Core.Bool.{Bool, true, false, ◌||◌}
use mathlib.Core.List.{List, [], ◌∷◌}
use mathlib.Core.Logic.{◌≢◌, inl, inr}
use mathlib.Core.Option.{none, some}
use native.Mathlib.Omega.{arith}
use text.Mathlib.Text.{◌==◌, find?}
use text.Mathlib.TextEquality.{eq_iff}
use text.Mathlib.TextLemmas.{
  append_assoc, append_cancel_left, cons-append, nil-append, head-eq_of_cons-eq,
}
use token_price_proxy.Prelude.Tests.{eqb, if◌then◌else◌, Bool-cases}

abbrev cons_first : Char → List String → List String
cons_first c [] = (String.◌∷◌ c String.[]) ∷ []
cons_first c (p ∷ ps) = String.◌∷◌ c p ∷ ps

-- strings.Split(s, sep) at a separator of one character, by its code.
unfoldable pub split : ℕ → String → List String
split sep String.[] = String.[] ∷ []
split sep (String.◌∷◌ c s) =
    let rest = split sep s in if eqb (code c) sep then String.[] ∷ rest else cons_first c rest

-- strings.Contains(s, t)
unfoldable pub has_part : String → String → Bool
has_part s t = elim (find? s t) [ none ↦ false | some _ ↦ true ]

pub ==-eq-false : (a b : String) → a ≢ b → (a == b) ≡ false
==-eq-false a b h = ground (arith, eq_iff a b)

pub ==-comm : (a b : String) → (a == b) ≡ (b == a)
==-comm a b = ground (arith, eq_iff a b, eq_iff b a)

-- The same prefix in front of two texts.
pub append-== : (p a b : String) → ((p ++ a) == (p ++ b)) ≡ (a == b)
append-== p a b = ground (
  arith,
  eq_iff (p ++ a) (p ++ b),
  eq_iff a b,
  λ (h : a ≡ b). ap (λ t. p ++ t) h,
  append_cancel_left p a b,
)

-- Two texts that differ in their first character, whatever stands behind it.
pub first_differs :
    (c d : Char) (a b : String) → eqb (code c) (code d) ≡ false → String.◌∷◌ c a ≢ String.◌∷◌ d b
first_differs c d a b h e = ground (arith, ap code (head-eq_of_cons-eq e))

-- Two texts that agree up to `p` and differ in the character behind it.
pub differ_after :
    (p : String) (c d : Char) (q r a b : String)
    → eqb (code c) (code d) ≡ false
    → (p ++ String.◌∷◌ c q) ++ a ≢ (p ++ String.◌∷◌ d r) ++ b
differ_after p c d q r a b h e = first_differs c d (q ++ a) (r ++ b) h (
    sym (cons-append c q a)
    ∙ append_cancel_left p _ _ (sym (append_assoc p _ a) ∙ e ∙ append_assoc p _ b)
    ∙ cons-append d r b)

pub first_part : List String → String
first_part [] = ""
first_part (p ∷ ps) = p

split_test : split b'_' "1_0xab_c" ≡ "1" ∷ "0xab" ∷ "c" ∷ []
unfolding split
split_test = refl

has_part_test : has_part "status code: 429, response" "429" ≡ true
unfolding has_part
has_part_test = refl

pub length-split : (sep : ℕ) (s : String) → 0 < length (split sep s)
unfolding split
length-split sep String.[] = omega arith
length-split sep (String.◌∷◌ c s) =
    elim (split sep s)
      as (λ l. 0 < length (if eqb (code c) sep then String.[] ∷ l else cons_first c l)) [
        | [] ↦ ground arith
        | p ∷ ps ↦ ground arith
      ]

longer :
    (c : Char) (sep : ℕ) (s : String)
    → 1 < length (split sep s)
    → 1 < length (split sep (String.◌∷◌ c s))
unfolding split
longer c sep s h = elim (Bool-cases (eqb (code c) sep)) [
  | inl e ↦ rw e (omega (arith, h))
  | inr e ↦ rw e (
      elim (split sep s) as (λ l. 1 < length l → 1 < length (cons_first c l)) [
        | [] ↦ λ l. ground (arith, l)
        | p ∷ ps ↦ λ l. l
      ]
        h)
]

after_separator : (s : String) → 1 < length (split b'_' (String.◌∷◌ "_" s))
unfolding split
after_separator s = omega (arith, length-split b'_' s)

-- A text with the separator in it has two parts.
pub length-split-append : (p a : String) → 1 < length (split b'_' (p ++ ("_" ++ a)))
length-split-append String.[] a =
    rw (nil-append ("_" ++ a), cons-append "_" "" a) (after_separator ("" ++ a))
length-split-append (String.◌∷◌ c p) a =
    rw (cons-append c p ("_" ++ a)) (longer c b'_' (p ++ ("_" ++ a)) (length-split-append p a))

-- strings.Contains(s, sep) for one character.
abbrev pub has_char : ℕ → String → Bool
has_char sep String.[] = false
has_char sep (String.◌∷◌ c s) = eqb (code c) sep || has_char sep s

pub split-plain : (sep : ℕ) (s : String) → has_char sep s ≡ false → split sep s ≡ s ∷ []
unfolding split
split-plain sep String.[] h = refl
split-plain sep (String.◌∷◌ c s) h =
    let ih = split-plain sep s (ground (arith, h)) in
    let other : eqb (code c) sep ≡ false = ground (arith, h) in rw (other, ih) refl

-- A separator behind a text without one ends the first part.
pub split-append :
    (sep : ℕ) (d : Char) (s t : String)
    → code d ≡ sep
    → has_char sep s ≡ false
    → split sep (s ++ String.◌∷◌ d t) ≡ s ∷ split sep t
unfolding split
split-append sep d String.[] t e h = rw (nil-append (String.◌∷◌ d t)) (ground (arith, e))
split-append sep d (String.◌∷◌ c s) t e h =
    let ih = split-append sep d s t e (ground (arith, h)) in
    let other : eqb (code c) sep ≡ false = ground (arith, h) in
    rw (cons-append c s (String.◌∷◌ d t), other, ih) refl
