-- ===== src/Executor.antt =====
-- tinydb/executor.py: the checks of the columns that a statement names, the row of an INSERT, and the
-- page of rows of a SELECT.
pub mod Paging
pub mod Rows
pub mod Join
use tinydb_sueprflow.Prelude.{
  ℕ, ◌+◌, Text, codes, text_eq, Bool, true, false, not, ◌&&◌, ◌||◌, Option, none, some, List, [],
  ◌∷◌, length, take, drop, filter, map, any, if◌then◌else◌, ◌==◌, or_default,
}
use tinydb_sueprflow.Errors.{
  Result, ok, err, ◌>>=◌, ◌>>◌, raise_if, Error, constraint_error, unknown_column, duplicate_column,
  column_count, star_expression,
}
use tinydb_sueprflow.Python.Unicode.{Unicode, upper}
use tinydb_sueprflow.Python.Dict.{Dict, insert}
use tinydb_sueprflow.Python.Float.{FloatOps}
use tinydb_sueprflow.Value.{Value, null, Row}
use tinydb_sueprflow.Catalog.{ColumnSchema, TableSchema, member_of}
use tinydb_sueprflow.Sql.Ast.{
  Expression, Expressions, Insert, Select, identifier, column_ref, literal, binary, function_call,
  no_expressions, expressions,
}
use tinydb_sueprflow.Sql.Expressions.{Object, value, whole_row, evaluate_expression}

abbrev pub column_names : TableSchema → List Text
column_names schema = map (λ (c : ColumnSchema). c.name) schema.columns

unfoldable pub validate_assignment_columns : TableSchema → List Text → Result (Unit {0})
unfolding member_of
validate_assignment_columns schema [] = ok tt
validate_assignment_columns schema (name ∷ names) =
    let later = validate_assignment_columns schema names in
    raise_if (not (member_of name (column_names schema))) (constraint_error (unknown_column name))
    >> later

-- `_indexed_columns`
unfoldable pub indexed_columns : TableSchema → List ColumnSchema
indexed_columns schema = filter (λ (c : ColumnSchema). c.primary_key || c.unique) schema.columns

-- `rows[start:]` or `rows[start : start + limit]`
unfoldable pub apply_offset_limit : {A : Type 0} → Option ℕ → Option ℕ → List A → List A
apply_offset_limit offset none rows = drop (or_default 0 offset) rows
apply_offset_limit offset (some limit) rows = take limit (drop (or_default 0 offset) rows)

module _ {F : Type 0} where
  abbrev pub is_aggregate : Expression F → Bool
  is_aggregate (function_call name arguments) = true
  is_aggregate e = false

  unfoldable pub has_aggregate : List (Expression F) → Bool
  has_aggregate projections = any is_aggregate projections

  -- `{column.name: None for column in schema.columns}`
  unfoldable pub null_row : List ColumnSchema → Row F → Row F
  null_row [] row = row
  null_row (c ∷ cs) row = null_row cs (insert c.name null row)

-- `*` stands for a count of rows in COUNT(*), and for all columns where `allow_star`.
unfoldable mutual
  pub validate_expression_columns :
      {F : Type 0} ⦃u : Unicode⦄ → TableSchema → Expression F → Bool → Bool → Result (Unit {0})
  validate_expression_columns schema (identifier name) allow_star aggregate_context =
      if text_eq name (codes "*")
      then (if allow_star then ok tt else err (constraint_error star_expression))
      else validate_assignment_columns schema (name ∷ [])
  validate_expression_columns schema (function_call name arguments) allow_star aggregate_context =
      validate_arguments schema arguments
        (aggregate_context && text_eq (upper name) (codes "COUNT"))
  validate_expression_columns schema (binary left operator right) allow_star aggregate_context =
      let second = validate_expression_columns schema right allow_star false in
      validate_expression_columns schema left allow_star false >> second
  validate_expression_columns schema (literal v) allow_star aggregate_context = ok tt
  validate_expression_columns schema (column_ref c) allow_star aggregate_context = ok tt

  pub validate_arguments :
      {F : Type 0} ⦃u : Unicode⦄ → TableSchema → Expressions F → Bool → Result (Unit {0})
  validate_arguments schema no_expressions allow_star = ok tt
  validate_arguments schema (expressions e es) allow_star =
      let later = validate_arguments schema es allow_star in
      validate_expression_columns schema e allow_star false >> later

module _ {F : Type 0} ⦃fl : FloatOps F⦄ ⦃u : Unicode⦄ where
  -- The loop over the columns and values, with the row so far and the columns seen.
  unfoldable pub fill_row :
      List Text
      → List (Expression F)
      → List Text
      → List (Text × Object F)
      → Result (List (Text × Object F))
  fill_row [] values seen row = ok row
  fill_row (name ∷ names) [] seen row = ok row
  fill_row (name ∷ names) (e ∷ es) seen row = do
    raise_if (member_of name seen) (constraint_error (duplicate_column name))
    v ← evaluate_expression e []
    fill_row names es (name ∷ seen) (insert name v row)

  unfoldable pub row_from_insert : TableSchema → Insert F → Result (List (Text × Object F))
  unfolding fill_row null_row validate_assignment_columns
  row_from_insert schema statement = do
    raise_if (not (length statement.columns == length statement.values))
        (constraint_error column_count)
    validate_assignment_columns schema statement.columns
    fill_row statement.columns statement.values []
        (map (λ (name, v). (name, value v)) (null_row schema.columns []))
