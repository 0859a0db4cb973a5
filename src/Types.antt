-- ===== src/Types.antt =====
-- tinydb/types.py: the column types, their names, and the validation of a stored value.

use tinydb_sueprflow.Prelude.{Text, text_eq, codes, ◌≡◌, Option, none, some, if◌then◌else◌, arith}
use tinydb_sueprflow.Errors.{
  Result, ok, err, constraint_error, overflow_error, unsupported_type, invalid_value,
}
use tinydb_sueprflow.Python.Unicode.{Unicode, upper}
use tinydb_sueprflow.Python.Float.{FloatOps}
use tinydb_sueprflow.Value.{Value, null, bool, int, float, text}

pub data TinyType : Type 0 where
  int_type float_type text_type bool_type : TinyType

-- `self.value`, which is also the member's name.
abbrev pub type_value : TinyType → Text
type_value TinyType.int_type = codes "INT"
type_value TinyType.float_type = codes "FLOAT"
type_value TinyType.text_type = codes "TEXT"
type_value TinyType.bool_type = codes "BOOL"

-- `cls[normalized]`
unfoldable pub member : Text → Option TinyType
unfolding text_eq
member name =
    if text_eq name (codes "INT")
    then some TinyType.int_type
    else if text_eq name (codes "FLOAT")
    then some TinyType.float_type
    else if text_eq name (codes "TEXT")
    then some TinyType.text_type
    else if text_eq name (codes "BOOL")
    then some TinyType.bool_type
    else none

module _ ⦃u : Unicode⦄ where
  unfoldable pub from_name : Text → Result TinyType
  from_name type_name = elim (member (upper type_name)) [
    | none ↦ err (constraint_error (unsupported_type type_name))
    | some t ↦ ok t
  ]

module _ {F : Type 0} ⦃fl : FloatOps F⦄ where
  unfoldable pub validate : TinyType → Value F → Result (Value F)
  validate t null = ok null
  validate TinyType.int_type (int n) = ok (int n)
  validate TinyType.float_type (float x) = ok (float x)
  validate TinyType.float_type (int n) = elim (fl.of_int n) [
    | none ↦ err overflow_error
    | some x ↦ ok (float x)
  ]
  validate TinyType.text_type (text s) = ok (text s)
  validate TinyType.bool_type (bool b) = ok (bool b)
  validate _ _ = err (constraint_error invalid_value)

  -- The values that a column of a type can hold.
  abbrev pub HasType : TinyType → Value F → Type 0
  HasType TinyType.int_type (int n) = Unit
  HasType TinyType.float_type (float x) = Unit
  HasType TinyType.text_type (text s) = Unit
  HasType TinyType.bool_type (bool b) = Unit
  HasType _ null = Unit
  HasType _ _ = ⊥

  -- An accepted value is of the column's type, and validating it again changes nothing.
  pub validate-HasType :
      (t : TinyType) (v w : Value F) → validate t v ≡ ok w → HasType t w × (validate t w ≡ ok w)
  unfolding validate
  validate-HasType t null w h = ground arith
  validate-HasType TinyType.int_type (int n) w h = ground arith
  validate-HasType TinyType.float_type (float x) w h = ground arith
  validate-HasType TinyType.float_type (int n) w h = ground arith
  validate-HasType TinyType.text_type (text s) w h = ground arith
  validate-HasType TinyType.bool_type (bool b) w h = ground arith
  validate-HasType t v w h = cc
