-- ===== src/Base/Outcome.antt =====
-- The result of a loop or a recursion that is run on fuel and may fail.
use mathlib.Core.Path.{◌≡◌, refl}
use mathlib.Core.Logic.{◌⊎◌, inl, inr, ◌≢◌}

-- `failed` is a false return; `out_of_fuel` has no counterpart in the program.
pub data Outcome {ℓ} (A : Type ℓ) : Type ℓ where
  ok : A → Outcome A
  failed out_of_fuel : Outcome A

infixl 5 ◌>>=◌
abbrev pub ◌>>=◌ {ℓ κ} : {A : Type ℓ} {B : Type κ} → Outcome A → (A → Outcome B) → Outcome B
ok a >>= f = f a
failed >>= f = failed
out_of_fuel >>= f = out_of_fuel

-- The run kept within its fuel, and `P` holds of its value if it has one.
pub data Ends {ℓ κ} {A : Type ℓ} (P : A → Type κ) : Outcome A → Type (ℓ ⊔ κ) where
  holds : {a : A} → P a → Ends P (ok a)
  rejected : Ends P failed

module _ {ℓ κ} {A : Type ℓ} {P : A → Type κ} where
  pub Ends-cases : {r : Outcome A} → Ends P r → ((a : A) × (r ≡ ok a) × P a) ⊎ (r ≡ failed)
  Ends-cases (holds {a} h) = inl (a, refl, h)
  Ends-cases rejected = inr refl

  pub Ends-out_of_fuel : {r : Outcome A} → Ends P r → r ≢ out_of_fuel
  Ends-out_of_fuel (holds h) = cc
  Ends-out_of_fuel rejected = cc

  pub Ends-bind {ℓ' κ'} :
      {B : Type ℓ'} {Q : B → Type κ'} {r : Outcome A} (f : A → Outcome B)
      → Ends P r
      → ((a : A) → P a → Ends Q (f a))
      → Ends Q (r >>= f)
  Ends-bind f (holds {a} h) k = k a h
  Ends-bind f rejected k = rejected
