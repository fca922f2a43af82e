-- ===== src/PriceService/Queue/Batches.antt =====
-- ProcessPriceRequests: the requests of a drain cut into batches, one for each worker, and what a
-- worker reads out of its batch.
use native.Mathlib.Nat.{div-mul-le_self, lt-div-mul-add}
use token_price_proxy.Prelude.{
  ℕ, zero, suc, ◌+◌, ◌-◌, ◌*◌, ◌/◌, ◌≤◌, ◌<◌, ◌≡◌, refl, sym, ap, subst, ◌∙◌, List, [], ◌∷◌, ◌++◌,
  inl, inr, Bool-cases, length, length-drop, length-take, ltb→lt, All, take, drop, ltb,
  if◌then◌else◌, arith,
}

module _ {A : Type 0} where
  -- The slice requests[start:end] of worker `i`.
  abbrev pub slice : ℕ → List A → ℕ → List A
  slice batch_size requests i =
      let start = i * batch_size in
      let end =
        if ltb (length requests) (start + batch_size)
        then length requests
        else start + batch_size in
      take (end - start) (drop start requests)

  abbrev pub num_workers : ℕ → List A → ℕ
  num_workers batch_size requests = (length requests + batch_size - 1) / batch_size

  unfoldable pub slices : ℕ → List A → ℕ → ℕ → List (List A)
  slices batch_size requests i zero = []
  slices batch_size requests i (suc k) =
      slice batch_size requests i ∷ slices batch_size requests (i + 1) k

  abbrev pub batches : ℕ → List A → List (List A)
  batches batch_size requests = slices batch_size requests 0 (num_workers batch_size requests)

  abbrev pub concat : List (List A) → List A
  concat [] = []
  concat (l ∷ ls) = l ++ concat ls

  take_all : (n : ℕ) (l : List A) → length l ≤ n → take n l ≡ l
  take_all zero [] h = refl
  take_all zero (x ∷ l) h = ground (arith, h)
  take_all (suc n) [] h = refl
  take_all (suc n) (x ∷ l) h = ap (λ t. x ∷ t) (take_all n l (omega arith))

  take-none : (n : ℕ) → ◌≡◌ {A = List A} (take n []) []
  take-none zero = refl
  take-none (suc n) = refl

  drop-none : (n : ℕ) → ◌≡◌ {A = List A} (drop n []) []
  drop-none zero = refl
  drop-none (suc n) = refl

  take_more : (m n : ℕ) (l : List A) → take m l ++ take n (drop m l) ≡ take (m + n) l
  take_more zero n l = ground arith
  take_more (suc m) n [] = take-none n ∙ sym (take-none (suc m + n))
  take_more (suc m) n (x ∷ l) =
      let e : suc (m + n) ≡ suc m + n = omega arith in
      ap (λ t. x ∷ t) (take_more m n l) ∙ ap (λ (k : ℕ). take k (x ∷ l)) e

  drop_more : (m n : ℕ) (l : List A) → drop n (drop m l) ≡ drop (m + n) l
  drop_more zero n l = ground arith
  drop_more (suc m) n [] = drop-none n ∙ sym (drop-none (suc m + n))
  drop_more (suc m) n (x ∷ l) =
      let e : suc (m + n) ≡ suc m + n = omega arith in
      drop_more m n l ∙ ap (λ (k : ℕ). drop k (x ∷ l)) e

  -- The clamp of `end` does not change the slice.
  slice_lem :
      (batch_size : ℕ) (requests : List A) (i : ℕ)
      → slice batch_size requests i ≡ take batch_size (drop (i * batch_size) requests)
  slice_lem batch_size requests i =
      let n = length-drop (i * batch_size) requests in
      let rest = drop (i * batch_size) requests in
      elim (Bool-cases (ltb (length requests) (i * batch_size + batch_size))) [
        | inl e ↦
            let lt = ltb→lt _ _ e in
            rw e (
              take_all (length requests - i * batch_size) rest (omega arith)
              ∙ sym (take_all batch_size rest (omega arith)))
        | inr e ↦
            let same : i * batch_size + batch_size - i * batch_size ≡ batch_size = omega arith in
            rw (e, same) refl
      ]

  slices_lem :
      (batch_size : ℕ) (requests : List A) (i k : ℕ)
      → concat (slices batch_size requests i k)
        ≡ take (k * batch_size) (drop (i * batch_size) requests)
  unfolding slices
  slices_lem batch_size requests i zero =
      let e : 0 ≡ 0 * batch_size = omega arith in
      ap (λ (n : ℕ). take n (drop (i * batch_size) requests)) e
  slices_lem batch_size requests i (suc k) =
      let rest = drop (i * batch_size) requests in
      let next : (i + 1) * batch_size ≡ i * batch_size + batch_size = omega arith in
      let all : batch_size + k * batch_size ≡ suc k * batch_size = omega arith in
      ap (λ (t : List A). t ++ concat (slices batch_size requests (i + 1) k))
        (slice_lem batch_size requests i)
      ∙ ap (λ (t : List A). take batch_size rest ++ t) (slices_lem batch_size requests (i + 1) k)
      ∙ ap (λ (n : ℕ). take batch_size rest ++ take (k * batch_size) (drop n requests)) next
      ∙ ap (λ (t : List A). take batch_size rest ++ take (k * batch_size) t)
          (sym (drop_more (i * batch_size) batch_size requests))
      ∙ take_more batch_size (k * batch_size) rest
      ∙ ap (λ (n : ℕ). take n rest) all

  workers_lem :
      (batch_size : ℕ) (requests : List A)
      → 0 < batch_size
      → (length requests ≤ num_workers batch_size requests * batch_size)
        × (num_workers batch_size requests * batch_size < length requests + batch_size)
  workers_lem batch_size requests h =
      let m = div-mul-le_self (length requests + batch_size - 1) batch_size in
      let l = lt-div-mul-add {a = length requests + batch_size - 1} {b = batch_size} h in
      (omega arith, omega arith)

  sized :
      (batch_size : ℕ) (requests : List A) (i k : ℕ)
      → 0 < batch_size
      → (i + k) * batch_size < length requests + batch_size
      → All (λ b. (0 < length b) × (length b ≤ batch_size)) (slices batch_size requests i k)
  unfolding slices
  sized batch_size requests i zero hb h = _
  sized batch_size requests i (suc k) hb h =
      let n = length-drop (i * batch_size) requests in
      let t = length-take batch_size (drop (i * batch_size) requests) in
      let s = ap length (slice_lem batch_size requests i) in
      let e : (i + 1 + k) * batch_size ≡ (i + suc k) * batch_size = omega arith in
      let e' : (i + suc k) * batch_size ≡ i * batch_size + batch_size + k * batch_size =
        omega arith in
      let size =
        subst (λ (x : ℕ). (0 < x) × (x ≤ batch_size)) (sym (s ∙ t)) (omega arith, omega arith) in
      (size, sized batch_size requests (i + 1) k hb (omega arith))

-- The workers' batches are the drained requests, each once and in order; none is empty, and none
-- is longer than the batch size.
pub concat-batches :
    {A : Type 0} (batch_size : ℕ) (requests : List A)
    → 0 < batch_size
    → (concat (batches batch_size requests) ≡ requests)
      × All (λ b. (0 < length b) × (length b ≤ batch_size)) (batches batch_size requests)
concat-batches batch_size requests h =
    let w = workers_lem batch_size requests h in
    let k = num_workers batch_size requests in
    let e : 0 + k ≡ k = omega arith in
    let z : 0 * batch_size ≡ 0 = omega arith in
    (
      slices_lem batch_size requests 0 k
          ∙ ap (λ (n : ℕ). take (k * batch_size) (drop n requests)) z
          ∙ take_all (k * batch_size) requests w.0,
      sized batch_size requests 0 k h (omega (arith, w.1)),
    )
