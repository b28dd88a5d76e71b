-- ===== src/Prelude/Results.antt =====
-- The results of code that returns a value or an error.
pub data Result {ℓ κ} (E : Type ℓ) (A : Type κ) : Type (ℓ ⊔ κ) where
  ok : A → Result E A
  err : E → Result E A
