-- ===== src/Base/Float.antt =====
-- Python's floats, as far as the program computes with them. `F` is the type of floats.
use oqlos.Base.Int.{ℤ}
use oqlos.Base.Tests.{if◌then◌else◌}
use mathlib.Core.Bool.{Bool}
use mathlib.Core.Option.{Option}
use Prim.Native.Nat.{ℕ}

pub record Float (F : Type 0) : Type 0 where
  pub of_int : ℤ → F
  -- the literal with this mantissa and so many decimals
  pub decimal : ℤ → ℕ → F
  pub add : F → F → F
  pub sub : F → F → F
  pub mul : F → F → F
  -- of a divisor that is not zero; the program divides by no other
  pub div : F → F → F
  pub lt : F → F → Bool
  pub le : F → F → Bool
  pub eq : F → F → Bool
  -- `int(x)`, `math.ceil(x)` and `round(x)`; they raise on an infinity and on NaN
  pub trunc : F → Option ℤ
  pub ceil : F → Option ℤ
  pub round : F → Option ℤ

module _ {F : Type 0} (fl : Float F) where
  -- `max(x, y)` and `min(x, y)` keep the first of two that do not compare
  abbrev pub max : F → F → F
  max x y = if fl.lt x y then y else x

  abbrev pub min : F → F → F
  min x y = if fl.lt y x then y else x
