-- ===== src/Prelude/Sums.antt =====
-- Results that may fail or panic, with their binds.
use Prim.Native.String.{String}

-- `anyhow::Result`, with the error's text.
pub data Result {ℓ} (A : Type ℓ) : Type ℓ where
  ok : A → Result A
  err : String → Result A

-- A call that may panic.
pub data Outcome {ℓ} (A : Type ℓ) : Type ℓ where
  returns : A → Outcome A
  panics : Outcome A
