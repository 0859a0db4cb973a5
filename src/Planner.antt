-- ===== src/Planner.antt =====
-- tinydb/planner.py: the choice of a scan, and the binding of the columns of a join.
pub mod Joins
pub mod Reverse
mod Operators
pub mod IndexScan
use tinydb_sueprflow.Prelude.{
  ◌≡◌, Text, text_eq, codes, Bool, true, false, not, ◌&&◌, ◌||◌, Option, none, some, List, [], ◌∷◌,
  ◌++◌, map, any, if◌then◌else◌, or_default,
}
use tinydb_sueprflow.Errors.{
  Result, ok, err, ◌>>=◌, ◌>>◌, raise_if, Error, constraint_error, ConstraintReason,
  duplicate_alias, unknown_qualifier, unknown_column, ambiguous_column, join_projection,
}
use tinydb_sueprflow.Python.Unicode.{Unicode, upper}
use tinydb_sueprflow.Python.Dict.{Dict, lookup, contains, insert}
use tinydb_sueprflow.Value.{Value, null}
use tinydb_sueprflow.Index.Keys.{IndexLookup, equal_to, range, is_none}
use tinydb_sueprflow.Catalog.{ColumnSchema, TableSchema, Catalog, get_table}
use tinydb_sueprflow.Sql.Ast.{
  Expression, Expressions, ColumnRef, JoinSource, JoinPredicate, Select, Ordering, identifier,
  column_ref, literal, binary, function_call,
}
use tinydb_sueprflow.Sql.Expressions.{qualified_name}

pub record TableScanPlan (F : Type 0) : Type 0 where
  pub table : Text
  pub predicate : Option (Expression F)

pub record IndexScanPlan (F : Type 0) : Type 0 where
  pub table : Text
  pub index_name : Text
  pub column : Text
  pub lookup : IndexLookup F
  pub predicate : Option (Expression F)

pub record JoinPlan : Type 0 where
  pub sources : List JoinSource
  pub predicates : List JoinPredicate
  pub output_columns : List ColumnRef

pub data QueryPlan (F : Type 0) : Type 0 where
  table_scan : TableScanPlan F → QueryPlan F
  index_scan : IndexScanPlan F → QueryPlan F
  join : JoinPlan → QueryPlan F

unfoldable pub constraint_index_name : Text → Text → Text
constraint_index_name table_name column_name = table_name ++ codes "_" ++ column_name

unfoldable pub is_indexed_constraint_column : TableSchema → Text → Bool
is_indexed_constraint_column schema column_name =
    any (λ (c : ColumnSchema). text_eq c.name column_name && (c.primary_key || c.unique))
      schema.columns

unfoldable pub reverse_operator : Text → Text
reverse_operator operator =
    if text_eq operator (codes "<")
    then codes ">"
    else if text_eq operator (codes "<=")
    then codes ">="
    else if text_eq operator (codes ">")
    then codes "<"
    else if text_eq operator (codes ">=")
    then codes "<="
    else operator

module _ {F : Type 0} where
  -- The end of `_comparison_index_candidate`: the lookup for `column operator value`.
  unfoldable pub operator_lookup : Text → Value F → Option (IndexLookup F)
  operator_lookup operator value =
      if text_eq operator (codes "=")
      then some (equal_to value)
      else if text_eq operator (codes ">")
      then some (range value null false true)
      else if text_eq operator (codes ">=")
      then some (range value null true true)
      else if text_eq operator (codes "<")
      then some (range null value true false)
      else if text_eq operator (codes "<=")
      then some (range null value true true)
      else none

  abbrev on_column : Text → Option (IndexLookup F) → Option (Text × IndexLookup F)
  on_column column none = none
  on_column column (some l) = some (column, l)

  unfoldable pub column_candidate :
      TableSchema → Text → Text → Value F → Option (Text × IndexLookup F)
  column_candidate schema column operator value =
      if not (is_indexed_constraint_column schema column)
      then none
      else if is_none value
      then none
      else on_column column (operator_lookup operator value)

  unfoldable pub comparison_index_candidate :
      TableSchema → Expression F → Text → Expression F → Option (Text × IndexLookup F)
  unfolding column_candidate
  comparison_index_candidate schema (identifier column) operator (literal value) =
      column_candidate schema column operator value
  comparison_index_candidate schema (literal value) operator (identifier column) =
      column_candidate schema column (reverse_operator operator) value
  comparison_index_candidate schema _ operator _ = none

  -- Python's `a or b` on candidates.
  abbrev pub or_else :
      Option (Text × IndexLookup F) → Option (Text × IndexLookup F) → Option (Text × IndexLookup F)
  or_else none b = b
  or_else (some a) b = some a

module _ {F : Type 0} ⦃u : Unicode⦄ where
  unfoldable pub find_index_candidate : TableSchema → Expression F → Option (Text × IndexLookup F)
  find_index_candidate schema (binary left operator right) =
      if text_eq (upper operator) (codes "AND")
      then or_else (find_index_candidate schema left) (find_index_candidate schema right)
      else if text_eq (upper operator) (codes "OR")
      then none
      else comparison_index_candidate schema left operator right
  find_index_candidate schema _ = none
