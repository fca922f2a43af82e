-- ===== src/Prelude/Panic.antt =====
-- Code that may panic, by an index out of range: `none` is the panic.
use mathlib.Core.Option.{Option, none, some}
use mathlib.Core.Path.{◌≡◌, refl, sym, subst}
use mathlib.Core.Bool.{Bool, true, false}
use token_price_proxy.Prelude.Tests.{if◌then◌else◌}
use native.Mathlib.Omega.{arith}

infixl 5 ◌>>=◌
abbrev pub ◌>>=◌ {ℓ κ} : {A : Type ℓ} {B : Type κ} → Option A → (A → Option B) → Option B
none >>= f = none
some a >>= f = f a

-- Inversion of a run without a panic.
pub >>=-eq-some {ℓ κ} :
    {A : Type ℓ} {B : Type κ} (m : Option A) (f : A → Option B) {b : B}
    → (m >>= f) ≡ some b
    → (a : A) × (m ≡ some a) × (f a ≡ some b)
>>=-eq-some none f h = ground arith
>>=-eq-some (some a) f h = (a, refl, h)

-- A run that does not panic and whose result has a property.
abbrev pub Sure {ℓ κ} : {A : Type ℓ} → (A → Type κ) → Option A → Type (ℓ ⊔ κ)
Sure {A = A} P m = (a : A) × (m ≡ some a) × P a

pub Sure-some {ℓ κ} : {A : Type ℓ} (P : A → Type κ) (a : A) → P a → Sure P (some a)
Sure-some P a p = (a, refl, p)

pub Sure->>= {ℓ κ μ ν} :
    {A : Type ℓ} {B : Type κ} (P : A → Type μ) (R : B → Type ν) (m : Option A) (f : A → Option B)
    → Sure P m
    → ((a : A) → P a → Sure R (f a))
    → Sure R (m >>= f)
Sure->>= P R m f (a, e, p) k = subst (λ o. Sure R (o >>= f)) (sym e) (k a p)

pub Sure-mono {ℓ κ μ} :
    {A : Type ℓ} (P : A → Type κ) (R : A → Type μ) (m : Option A)
    → Sure P m
    → ((a : A) → P a → R a)
    → Sure R m
Sure-mono P R m (a, e, p) k = (a, e, k a p)

pub Sure-if {ℓ κ} :
    {A : Type ℓ} (P : A → Type κ) (b : Bool) (m n : Option A)
    → (b ≡ true → Sure P m)
    → (b ≡ false → Sure P n)
    → Sure P (if b then m else n)
Sure-if P true m n h k = h refl
Sure-if P false m n h k = k refl
