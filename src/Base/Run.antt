-- ===== src/Base/Run.antt =====
-- How a function of the source ends that reads through pointers: with a value, with `return false` (`reject`),
-- by reading outside its buffer (`fault`), or, in the model only, out of fuel.
use mathlib.Core.Path.{◌≡◌, refl}
use mathlib.Core.Bool.{Bool, true, false}

pub data Run {ℓ} (A : Type ℓ) : Type ℓ where
  ok : A → Run A
  reject fault out_of_fuel : Run A

infixl 5 ◌>>=◌ ◌>>◌
abbrev pub ◌>>=◌ {ℓ κ} : {A : Type ℓ} {B : Type κ} → Run A → (A → Run B) → Run B
ok a >>= f = f a
reject >>= f = reject
fault >>= f = fault
out_of_fuel >>= f = out_of_fuel

abbrev pub ◌>>◌ {ℓ} : {B : Type ℓ} → Run (Unit {0}) → Run B → Run B
m >> k = m >>= λ _. k

-- `if (!b) return false;`
abbrev pub guard : Bool → Run (Unit {0})
guard true = ok tt
guard false = reject

-- A value of which `P` holds, or `return false`; no bad read, and the fuel was enough.
abbrev pub Settles {ℓ} : {A : Type ℓ} → (A → Type 0) → Run A → Type 0
Settles P (ok a) = P a
Settles P reject = Unit {0}
Settles P fault = ⊥
Settles P out_of_fuel = ⊥

pub Settles-bind {ℓ κ} :
    {A : Type ℓ} {B : Type κ} (P : A → Type 0) (Q : B → Type 0) (m : Run A) (f : A → Run B)
    → Settles P m
    → ((a : A) → P a → Settles Q (f a))
    → Settles Q (m >>= f)
Settles-bind P Q (ok a) f h k = k a h
Settles-bind P Q reject f h k = tt
Settles-bind P Q fault f h k = h
Settles-bind P Q out_of_fuel f h k = h

pub Settles-guard {ℓ} :
    {B : Type ℓ} (Q : B → Type 0) (b : Bool) (k : Run B)
    → (b ≡ true → Settles Q k)
    → Settles Q (guard b >> k)
Settles-guard Q true k h = h refl
Settles-guard Q false k h = tt

pub Settles-weaken {ℓ} :
    {A : Type ℓ} (P Q : A → Type 0) (r : Run A) → ((a : A) → P a → Q a) → Settles P r → Settles Q r
Settles-weaken P Q (ok a) f h = f a h
Settles-weaken P Q reject f h = tt
Settles-weaken P Q fault f h = h
Settles-weaken P Q out_of_fuel f h = h
