-- ===== src/Prelude/Chunks.antt =====
-- `for i := 0; i < len(xs); i += n`, with the slices xs[i:end] that its rounds take.
use Prim.Native.Nat.{ℕ, zero, suc, ◌<◌, ◌≤◌}
use mathlib.Core.Path.{◌≡◌, refl, ap, ◌∙◌}
use mathlib.Core.List.{List, [], ◌∷◌, ◌++◌}
use native.Mathlib.Omega.{arith}
use token_price_proxy.Prelude.Lists.{
  length, take, drop, take-append-drop, length-take, length-drop, All,
}

module _ {ℓ} {A : Type ℓ} where
  -- `fuel`: a bound on the rounds.
  unfoldable pub rounds : ℕ → ℕ → List A → List (List A)
  rounds fuel n [] = []
  rounds zero n (x ∷ xs) = []
  rounds (suc fuel) n (x ∷ xs) = take n (x ∷ xs) ∷ rounds fuel n (drop n (x ∷ xs))

  unfoldable pub chunks : ℕ → List A → List (List A)
  chunks n xs = rounds (length xs) n xs

  abbrev pub join_all : List (List A) → List A
  join_all [] = []
  join_all (xs ∷ xss) = xs ++ join_all xss

  rounds_lem :
      (fuel n : ℕ) (xs : List A) → 0 < n → length xs ≤ fuel → join_all (rounds fuel n xs) ≡ xs
  unfolding rounds
  rounds_lem fuel n [] p h = refl
  rounds_lem zero n (x ∷ xs) p h = absurd (omega (arith, h))
  rounds_lem (suc fuel) n (x ∷ xs) p h =
      ap (λ (t : List A). take n (x ∷ xs) ++ t)
        (rounds_lem fuel n (drop n (x ∷ xs)) p (omega (arith, h, length-drop n (x ∷ xs))))
      ∙ take-append-drop n (x ∷ xs)

  -- The rounds together take the list, in its order.
  pub join_all-chunks : (n : ℕ) (xs : List A) → 0 < n → join_all (chunks n xs) ≡ xs
  unfolding chunks
  join_all-chunks n xs p = rounds_lem (length xs) n xs p (omega arith)

  rounds_bounds :
      (fuel n : ℕ) (xs : List A)
      → 0 < n
      → All (λ b. (0 < length b) × (length b ≤ n)) (rounds fuel n xs)
  unfolding rounds
  rounds_bounds fuel n [] p = _
  rounds_bounds zero n (x ∷ xs) p = _
  rounds_bounds (suc fuel) n (x ∷ xs) p = (
    (omega (arith, p, length-take n (x ∷ xs)), omega (arith, length-take n (x ∷ xs))),
    rounds_bounds fuel n (drop n (x ∷ xs)) p,
  )

  pub chunks_bounds :
      (n : ℕ) (xs : List A) → 0 < n → All (λ b. (0 < length b) × (length b ≤ n)) (chunks n xs)
  unfolding chunks
  chunks_bounds n xs p = rounds_bounds (length xs) n xs p
