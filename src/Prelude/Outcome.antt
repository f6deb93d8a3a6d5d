-- ===== src/Prelude/Outcome.antt =====
-- The outcome of code that can fail to end normally: `fault` is a call of abort, or undefined
-- behaviour such as a write through a null pointer, and `out_of_fuel` says that the rounds given to a
-- loop ran out.
use mathlib.Core.Path.{◌≡◌}

pub data Run {ℓ} (A : Type ℓ) : Type ℓ where
  done : A → Run A
  fault : Run A
  out_of_fuel : Run A

infixl 5 ◌>>=◌
abbrev pub ◌>>=◌ {ℓ κ} : {A : Type ℓ} {B : Type κ} → Run A → (A → Run B) → Run B
done a >>= f = f a
fault >>= f = fault
out_of_fuel >>= f = out_of_fuel

-- The run ends normally, in a value that satisfies `P`.
abbrev pub Returns {ℓ κ} : {A : Type ℓ} → Run A → (A → Type κ) → Type (ℓ ⊔ κ)
Returns {A} r P = (a : A) × (r ≡ done a) × P a
