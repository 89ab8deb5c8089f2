-- ===== src/Base/Results.antt =====
-- What a call of the driver returns, or the exception that it raises instead.
pub data Result {ℓ} (E : Type 0) (A : Type ℓ) : Type ℓ where
  ok : A → Result E A
  err : E → Result E A
