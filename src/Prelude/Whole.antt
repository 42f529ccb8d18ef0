-- ===== src/Prelude/Whole.antt =====
-- Whole numbers as an instance of the interface of floats, for concrete inputs.
use tersecontext.Prelude.Tests.{ltb, leb}
use tersecontext.Prelude.Float.{Float, FloatLaws}
use Prim.Native.Nat.{ℕ, ◌+◌, ◌-◌, ◌*◌, ◌/◌}
use mathlib.Core.Path.{◌≡◌}
use mathlib.Core.Bool.{true, false, not}
use native.Mathlib.Omega.{arith}

instance abbrev pub whole : Float ℕ
whole = record {
  of_ℕ = λ n. n;
  add = λ a b. a + b;
  sub = λ a b. a - b;
  mul = λ a b. a * b;
  div = λ a b. a / b;
  lt = ltb;
  le = leb;
}

lt-le : (a b : ℕ) → ltb a b ≡ not (leb b a)
lt-le a b = ground arith

le_refl : (a : ℕ) → leb a a ≡ true
le_refl a = ground arith

le_total : (a b : ℕ) → leb a b ≡ false → leb b a ≡ true
le_total a b = ground arith

le_trans : (a b c : ℕ) → leb a b ≡ true → leb b c ≡ true → leb a c ≡ true
le_trans a b c h k = ground arith

pub whole-FloatLaws : FloatLaws whole
whole-FloatLaws = record {
  lt-le = lt-le;
  le_refl = le_refl;
  le_total = le_total;
  le_trans = le_trans;
}
