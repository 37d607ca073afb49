-- ===== src/Base/Outcomes.antt =====
-- How a piece of C++ code ends: with a value, by an access through a null pointer, or not within
-- the fuel that the model gives its loops.
use mathlib.Core.Path.{◌≡◌}

pub data Outcome {ℓ} (A : Type ℓ) : Type ℓ where
  done : A → Outcome A
  fault : Outcome A
  no_fuel : Outcome A

infixl 5 ◌>>=◌
abbrev pub ◌>>=◌ {ℓ κ} : {A : Type ℓ} {B : Type κ} → Outcome A → (A → Outcome B) → Outcome B
done a >>= f = f a
fault >>= f = fault
no_fuel >>= f = no_fuel

-- The run ends with a value that satisfies `P`.
abbrev pub Ensures {ℓ κ} : {A : Type ℓ} → Outcome A → (A → Type κ) → Type (ℓ ⊔ κ)
Ensures {A} r P = (a : A) × (r ≡ done a) × P a
