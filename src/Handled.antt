-- ===== src/Handled.antt =====
-- How the call of a handler ends: it returns, it throws, or it loops for ever. The state is there in the
-- first two cases.
pub data Handled {ℓ} (S : Type ℓ) : Type ℓ where
  returned raised : S → Handled S
  never : Handled S
