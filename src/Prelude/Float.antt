-- ===== src/Prelude/Float.antt =====
-- Python's `float`, which the checker does not have: the operations that the code uses, as an
-- interface. A program's model is generic in it; theorems name the laws of `FloatLaws` they rest on.
use Prim.Native.Nat.{ℕ}
use mathlib.Core.Path.{◌≡◌}
use mathlib.Core.Bool.{Bool, true, false, not}

pub record Float (F : Type 0) : Type 0 where
  pub of_ℕ : ℕ → F
  pub add : F → F → F
  pub sub : F → F → F
  pub mul : F → F → F
  pub div : F → F → F
  pub lt : F → F → Bool
  pub le : F → F → Bool

-- What holds of `<` and `<=` on the floats that are no NaN.
pub record FloatLaws {F : Type 0} (float : Float F) : Type 0 where
  pub lt-le : (a b : F) → float.lt a b ≡ not (float.le b a)
  pub le_refl : (a : F) → float.le a a ≡ true
  pub le_total : (a b : F) → float.le a b ≡ false → float.le b a ≡ true
  pub le_trans : (a b c : F) → float.le a b ≡ true → float.le b c ≡ true → float.le a c ≡ true
