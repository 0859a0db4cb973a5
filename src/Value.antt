-- ===== src/Value.antt =====
-- Python objects that rows and literals hold, and the comparisons that the program makes of them.
use mathlib.Core.Option
use tinydb_sueprflow.Prelude.{
  zero, suc, ◌≡◌, refl, ap, Text, text_lt, Bool, true, false, not, Option, none, some, List, [],
  ◌∷◌, if◌then◌else◌, text_lt_trans, text_lt_irrefl, Bool-cases, inl, inr,
}
use tinydb_sueprflow.Python.Int.{
  ℤ, pos, negsuc, Order, less, equal, greater, flip, compare_ℤ, compare_ℤ-flip,
}
use tinydb_sueprflow.Python.Float.{Num, FloatOps, FloatLaws}

pub data Value (F : Type 0) : Type 0 where
  null : Value F
  bool : Bool → Value F
  int : ℤ → Value F
  float : F → Value F
  text : Text → Value F

-- A row is a `dict` from column names, in insertion order.
abbrev pub Row : Type 0 → Type 0
Row F = List (Text × Value F)

-- `None < 1` and `1 < "a"` raise TypeError; a comparison with a NaN is false.
pub data Comparison : Type 0 where
  ordered : Order → Comparison
  unordered incompatible : Comparison

abbrev pub swap : Comparison → Comparison
swap (ordered o) = ordered (flip o)
swap unordered = unordered
swap incompatible = incompatible

abbrev of_option : Option Order → Comparison
of_option none = unordered
of_option (some o) = ordered o

abbrev pub is_equal : Comparison → Bool
is_equal (ordered equal) = true
is_equal _ = false

-- `bool` is a subclass of `int`.
abbrev pub bool_int : Bool → ℤ
bool_int true = pos 1
bool_int false = pos 0

unfoldable pub compare_text : Text → Text → Order
compare_text a b = if text_lt a b then less else if text_lt b a then greater else equal

pub compare_text-flip : (a b : Text) → compare_text b a ≡ flip (compare_text a b)
unfolding compare_text
compare_text-flip a b = elim (Bool-cases (text_lt a b)) [
  | inl h ↦ elim (Bool-cases (text_lt b a)) [
    | inl k ↦ cc (text_lt_trans a b a h k, text_lt_irrefl a)
    | inr k ↦ rw (h, k) refl
  ]
  | inr h ↦ elim (Bool-cases (text_lt b a)) [ inl k ↦ rw (h, k) refl | inr k ↦ rw (h, k) refl ]
]

pub data Number (F : Type 0) : Type 0 where
  num : Num F → Number F
  not_number : Number F

module _ {F : Type 0} where
  abbrev pub number : Value F → Number F
  number (bool b) = num (Num.int (bool_int b))
  number (int n) = num (Num.int n)
  number (float x) = num (Num.float x)
  number _ = not_number

module _ {F : Type 0} ⦃fl : FloatOps F⦄ where
  abbrev pub compare_num : Num F → Num F → Comparison
  compare_num (Num.int a) (Num.int b) = ordered (compare_ℤ a b)
  compare_num (Num.int a) (Num.float y) = of_option (fl.compare (Num.int a) (Num.float y))
  compare_num (Num.float x) b = of_option (fl.compare (Num.float x) b)

  abbrev pub compare_number : Number F → Number F → Comparison
  compare_number (num a) (num b) = compare_num a b
  compare_number (num a) not_number = incompatible
  compare_number not_number b = incompatible

  unfoldable pub compare_values : Value F → Value F → Comparison
  compare_values (text a) (text b) = ordered (compare_text a b)
  compare_values (text a) null = incompatible
  compare_values (text a) (bool b) = incompatible
  compare_values (text a) (int b) = incompatible
  compare_values (text a) (float b) = incompatible
  compare_values a b = compare_number (number a) (number b)

  -- `left == right`, which never raises.
  unfoldable pub py_eq : Value F → Value F → Bool
  py_eq null null = true
  py_eq a b = is_equal (compare_values a b)

  -- `bool(value)`
  unfoldable pub truthy : Value F → Bool
  truthy null = false
  truthy (bool b) = b
  truthy (int (pos zero)) = false
  truthy (int (pos (suc n))) = true
  truthy (int (negsuc n)) = true
  truthy (float x) = not (fl.is_zero x)
  truthy (text []) = false
  truthy (text (c ∷ cs)) = true

of_option-swap : (o : Option Order) → of_option (Option.map flip o) ≡ swap (of_option o)
of_option-swap none = refl
of_option-swap (some o) = refl

module _ {F : Type 0} ⦃fl : FloatOps F⦄ ⦃laws : FloatLaws F⦄ where
  compare_num-swap : (a b : Num F) → compare_num b a ≡ swap (compare_num a b)
  compare_num-swap (Num.int a) (Num.int b) = ap ordered (compare_ℤ-flip a b)
  compare_num-swap (Num.int a) (Num.float y) =
      rw (laws.compare-flip (Num.int a) (Num.float y)) (of_option-swap _)
  compare_num-swap (Num.float x) (Num.int b) =
      rw (laws.compare-flip (Num.float x) (Num.int b)) (of_option-swap _)
  compare_num-swap (Num.float x) (Num.float y) =
      rw (laws.compare-flip (Num.float x) (Num.float y)) (of_option-swap _)

  compare_number-swap : (a b : Number F) → compare_number b a ≡ swap (compare_number a b)
  compare_number-swap (num a) (num b) = compare_num-swap a b
  compare_number-swap (num a) not_number = refl
  compare_number-swap not_number (num b) = refl
  compare_number-swap not_number not_number = refl

  -- Exchanging the operands turns the comparison round.
  pub compare_values-swap : (a b : Value F) → compare_values b a ≡ swap (compare_values a b)
  unfolding compare_values
  compare_values-swap null null = refl
  compare_values-swap null (text b) = refl
  compare_values-swap null b = compare_number-swap not_number (number b)
  compare_values-swap (bool a) (text b) = refl
  compare_values-swap (bool a) b = compare_number-swap (number (bool a)) (number b)
  compare_values-swap (int a) (text b) = refl
  compare_values-swap (int a) b = compare_number-swap (number (int a)) (number b)
  compare_values-swap (float a) (text b) = refl
  compare_values-swap (float a) b = compare_number-swap (number (float a)) (number b)
  compare_values-swap (text a) (text b) = ap ordered (compare_text-flip a b)
  compare_values-swap (text a) null = refl
  compare_values-swap (text a) (bool b) = refl
  compare_values-swap (text a) (int b) = refl
  compare_values-swap (text a) (float b) = refl
