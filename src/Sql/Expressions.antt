-- ===== src/Sql/Expressions.antt =====
-- tinydb/sql/expressions.py: evaluation of an expression on a row.
use tinydb_sueprflow.Prelude.{
  Text, text_eq, codes, Bool, true, false, not, ◌&&◌, Option, none, some, [], ◌∷◌, ◌++◌, length,
  ◌==◌, if◌then◌else◌, or_default,
}
use tinydb_sueprflow.Errors.{
  Result, ok, err, ◌>>=◌, constraint_error, unknown_column, execution_error, aggregate_here,
  bad_operator, cannot_compare,
}
use tinydb_sueprflow.Python.Unicode.{Unicode, upper}
use tinydb_sueprflow.Python.Int.{Order, is_less, is_greater}
use tinydb_sueprflow.Python.Float.{FloatOps}
use tinydb_sueprflow.Python.Dict.{lookup}
use tinydb_sueprflow.Value.{
  Value, Row, bool, Comparison, ordered, unordered, incompatible, compare_values, py_eq, truthy,
}
use tinydb_sueprflow.Sql.Ast.{
  Expression, ColumnRef, identifier, column_ref, literal, binary, function_call,
}

-- The result of an evaluation: `*` stands for the whole row.
pub data Object (F : Type 0) : Type 0 where
  value : Value F → Object F
  whole_row : Row F → Object F

-- f"{qualifier}.{column_name}", which prints a missing qualifier as None
unfoldable pub qualified_name : ColumnRef → Text
qualified_name c = or_default (codes "None") c.qualifier ++ codes "." ++ c.column_name

module _ {F : Type 0} ⦃fl : FloatOps F⦄ where
  -- Every entry of the first dict stands in the second.
  entries_in : Row F → Row F → Bool
  entries_in [] other = true
  entries_in ((k, v) ∷ row) other =
      elim (lookup k other) [ none ↦ false | some w ↦ py_eq v w ] && entries_in row other

  -- `==` on two objects; of dicts it looks at the entries and not at their order
  unfoldable pub object_eq : Object F → Object F → Bool
  unfolding entries_in
  object_eq (value a) (value b) = py_eq a b
  object_eq (whole_row r) (whole_row s) = length r == length s && entries_in r s
  object_eq (value a) (whole_row s) = false
  object_eq (whole_row r) (value b) = false

  -- the order that `<` and `>` read; dicts have none
  unfoldable pub compare_objects : Object F → Object F → Comparison
  compare_objects (value a) (value b) = compare_values a b
  compare_objects (whole_row r) b = incompatible
  compare_objects (value a) (whole_row s) = incompatible

  -- `bool(object)`
  unfoldable pub object_truthy : Object F → Bool
  object_truthy (value v) = truthy v
  object_truthy (whole_row []) = false
  object_truthy (whole_row (e ∷ row)) = true

  abbrev truth : Bool → Result (Object F)
  truth b = ok (value (bool b))

  -- an ordering operator, given the orders that it accepts
  unfoldable pub compare_with : (Order → Bool) → Object F → Object F → Result (Object F)
  compare_with accepts left right = elim (compare_objects left right) [
    | ordered o ↦ truth (accepts o)
    | unordered ↦ truth false
    | incompatible ↦ err (execution_error cannot_compare)
  ]

  -- the comparison operators of `_evaluate_binary`
  unfoldable pub evaluate_comparison : Text → Object F → Object F → Result (Object F)
  evaluate_comparison operator left right =
      if text_eq operator (codes "=")
      then truth (object_eq left right)
      else if text_eq operator (codes "!=")
      then truth (not (object_eq left right))
      else if text_eq operator (codes "<")
      then compare_with is_less left right
      else if text_eq operator (codes "<=")
      then compare_with (λ o. not (is_greater o)) left right
      else if text_eq operator (codes ">")
      then compare_with is_greater left right
      else if text_eq operator (codes ">=")
      then compare_with (λ o. not (is_less o)) left right
      else err (execution_error bad_operator)

  -- `row[name]`, with the KeyError turned into a ConstraintError
  unfoldable pub column_value : Text → Row F → Result (Object F)
  column_value name row = elim (lookup name row) [
    | none ↦ err (constraint_error (unknown_column name))
    | some v ↦ ok (value v)
  ]

  -- `bool(evaluate_expression(...))`
  abbrev pub truth_of : Result (Object F) → Result Bool
  truth_of r = r >>= λ o. ok (object_truthy o)

module _ {F : Type 0} ⦃fl : FloatOps F⦄ ⦃u : Unicode⦄ where
  -- `_evaluate_binary` on the two evaluations, of which `AND` and `OR` read the second one only if
  -- the first does not decide
  unfoldable pub evaluate_binary : Text → Result (Object F) → Result (Object F) → Result (Object F)
  evaluate_binary operator left right =
      if text_eq (upper operator) (codes "AND")
      then (do a ← truth_of left; b ← if a then truth_of right else ok false; truth b)
      else if text_eq (upper operator) (codes "OR")
      then (do a ← truth_of left; b ← if a then ok true else truth_of right; truth b)
      else do a ← left; b ← right; evaluate_comparison operator a b

  unfoldable pub evaluate_expression : Expression F → Row F → Result (Object F)
  evaluate_expression (literal v) row = ok (value v)
  evaluate_expression (identifier name) row =
      if text_eq name (codes "*") then ok (whole_row row) else column_value name row
  evaluate_expression (column_ref c) row = column_value (qualified_name c) row
  evaluate_expression (binary left operator right) row =
      evaluate_binary operator (evaluate_expression left row) (evaluate_expression right row)
  evaluate_expression (function_call name arguments) row = err (execution_error aggregate_here)

  unfoldable pub evaluate_predicate : Option (Expression F) → Row F → Result Bool
  evaluate_predicate none row = ok true
  evaluate_predicate (some e) row = truth_of (evaluate_expression e row)
