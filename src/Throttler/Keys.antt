-- ===== src/Throttler/Keys.antt =====
-- The throttler's keys do not collide.
use Prim.Native.String.{◌++◌}
use text.Mathlib.TextLemmas.{append_assoc, append_cancel_left, append-nil, append-eq-nil_iff}
use token_price_proxy.Prelude.{
  ◌≡◌, refl, String, false, ◌==◌, ◌≢◌, arith, eq_iff, ◌∙◌, inl, inr, Bool-cases,
}
use token_price_proxy.Prelude.Text.{differ_after, ==-eq-false, append-==}
use token_price_proxy.Throttler.{throttle_key, count_key, alerted_key}

pub throttle-ne-count : (a b : String) → (throttle_key a == count_key b) ≡ false
throttle-ne-count a b = ==-eq-false _ _ (differ_after "coins_throttle" ":" "_" "" "count:" a b refl)

pub throttle-== : (a b : String) → (throttle_key a == throttle_key b) ≡ (a == b)
throttle-== a b = append-== "coins_throttle:" a b

pub count-== : (a b : String) → (count_key a == count_key b) ≡ (a == b)
count-== a b = append-== "coins_throttle_count:" a b

count-ne-empty : (a : String) → count_key a ≢ ""
count-ne-empty a e = ground (arith, (append-eq-nil_iff.0 e).0, eq_iff "coins_throttle_count:" "")

count-ne-longer : (a : String) → count_key a ≢ count_key a ++ ":alerted"
count-ne-longer a e = ground (
  arith,
  append_cancel_left (count_key a) "" ":alerted" (append-nil (count_key a) ∙ e),
  eq_iff "" ":alerted",
)

pub count-ne-alerted : (a : String) → (count_key a == alerted_key a) ≡ false
count-ne-alerted a = elim (Bool-cases (a == "")) [
  | inl e ↦ rw e (==-eq-false _ _ (count-ne-empty a))
  | inr e ↦ rw e (==-eq-false _ _ (count-ne-longer a))
]

throttle-ne-empty : (a : String) → throttle_key a ≢ ""
throttle-ne-empty a e = ground (arith, (append-eq-nil_iff.0 e).0, eq_iff "coins_throttle:" "")

throttle-ne-longer : (a b : String) → throttle_key a ≢ count_key b ++ ":alerted"
throttle-ne-longer a b e =
    differ_after "coins_throttle" ":" "_" "" "count:" a (b ++ ":alerted") refl
      (e ∙ append_assoc "coins_throttle_count:" b ":alerted")

pub throttle-ne-alerted : (a b : String) → (throttle_key a == alerted_key b) ≡ false
throttle-ne-alerted a b = elim (Bool-cases (b == "")) [
  | inl e ↦ rw e (==-eq-false _ _ (throttle-ne-empty a))
  | inr e ↦ rw e (==-eq-false _ _ (throttle-ne-longer a b))
]
