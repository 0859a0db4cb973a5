-- ===== src/Python/Float.antt =====
-- Python's `float`: a parameter type with the operations that the program uses. `compare` is the
-- exact comparison of two numbers of which one is a float; it is `none` where one is a NaN.
use tinydb_sueprflow.Prelude.{Text, ◌≡◌, Option, Bool}
use mathlib.Core.Option
use tinydb_sueprflow.Python.Int.{ℤ, Order, flip}

pub data Num (F : Type 0) : Type 0 where
  int : ℤ → Num F
  float : F → Num F

pub record FloatOps (F : Type 0) : Type 0 where
  -- `float(n)`, which overflows on a large integer
  pub of_int : ℤ → Option F
  -- `float("12.5")` of digits, a point and digits
  pub of_text : Text → F
  pub compare : Num F → Num F → Option Order
  -- str(x)
  pub to_text : F → Text
  -- bool(x)
  pub is_zero : F → Bool

-- What IEEE 754 says of exchanging the operands of a comparison.
pub record FloatLaws (F : Type 0) ⦃fl : FloatOps F⦄ : Type 0 where
  pub compare-flip : (a b : Num F) → fl.compare b a ≡ Option.map flip (fl.compare a b)
