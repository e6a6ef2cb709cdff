-- ===== src/Prelude/Floats.antt =====
-- The floating-point arithmetic of the processor and <cmath>: a parameter of the model. No law is
-- assumed here; a theorem that needs one takes it as a named hypothesis.
use mathlib.Core.Bool.{Bool}
use Prim.Native.Nat.{ℕ}
use mmorpg_server_rl_portfol.Prelude.Int.{ℤ}

pub record FloatArith : Type 1 where
  pub F : Type 0
  -- the literal n / d, rounded
  pub lit : ℕ → ℕ → F
  pub of_int : ℤ → F
  pub fneg : F → F
  pub fadd : F → F → F
  pub fsub : F → F → F
  pub fmul : F → F → F
  pub fdiv : F → F → F
  pub flt : F → F → Bool
  pub fle : F → F → Bool
  pub feq : F → F → Bool
  pub sqrt : F → F
  pub cos : F → F
  pub sin : F → F
  -- `static_cast<int>(std::floor(x))`
  pub floor_int : F → ℤ
