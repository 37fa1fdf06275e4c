-- ===== src/Prelude/Outcomes.antt =====
-- The outcome of code that may throw. `out_of_fuel` is no outcome of the program: it marks a run
-- of a loop that was cut off, and each loop has a theorem that its fuel suffices.

pub data Outcome {ℓ κ} (E : Type ℓ) (A : Type κ) : Type (ℓ ⊔ κ) where
  ok : A → Outcome E A
  thrown : E → Outcome E A
  out_of_fuel : Outcome E A

module _ {ℓ κ υ} {E : Type ℓ} {A : Type κ} {B : Type υ} where
  abbrev pub bind : Outcome E A → (A → Outcome E B) → Outcome E B
  bind (ok a) f = f a
  bind (thrown e) f = thrown e
  bind out_of_fuel f = out_of_fuel
