-- ===== src/Prelude/Results.antt =====
-- What fallible code returns.
pub data Result {ℓ ℓ'} (E : Type ℓ) (A : Type ℓ') : Type (ℓ ⊔ ℓ') where
  failed : E → Result E A
  done : A → Result E A
