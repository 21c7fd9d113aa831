-- ===== src/Prelude/Floats.antt =====
-- Python's floats, as an abstract type `F` with the operations that the program uses.
-- No theorem assumes a law of them unless the law is among its hypotheses.
use Prim.Native.Nat.{ℕ}
use mathlib.Core.Bool.{Bool}

pub record Float (F : Type 0) : Type 0 where
  pub zero_f : F
  pub one_f : F
  pub add_f : F → F → F
  pub sub_f : F → F → F
  pub mul_f : F → F → F
  pub div_f : F → F → F
  pub lt_f : F → F → Bool
  pub le_f : F → F → Bool
  pub sqrt_f : F → F
  -- int to float
  pub of_nat : ℕ → F
  -- the difference of two ints, which may be negative, to float
  pub of_diff : ℕ → ℕ → F
