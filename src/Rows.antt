-- ===== src/Rows.antt =====
-- tinydb/storage/table.py: a row as it is stored, with a validated value for each column.
pub mod Typed
use tinydb_sueprflow.Prelude.{
  Text, text_lt, Bool, true, false, not, ◌&&◌, Option, none, some, List, [], ◌∷◌, map, filter,
  or_default, if◌then◌else◌,
}
use tinydb_sueprflow.Errors.{
  Result, ok, err, ◌>>=◌, ◌>>◌, raise_if, constraint_error, unknown_column, null_column,
}
use tinydb_sueprflow.Python.Float.{FloatOps}
use tinydb_sueprflow.Python.Dict.{Dict, lookup, insert}
use tinydb_sueprflow.Types.{validate}
use tinydb_sueprflow.Value.{Value, null, Row}
use tinydb_sueprflow.Catalog.{ColumnSchema, TableSchema, member_of}

-- `sorted(texts)[0]`, for a text and more
abbrev pub least : Text → List Text → Text
least t [] = t
least t (u ∷ us) = least (if text_lt u t then u else t) us

abbrev pub column_names : TableSchema → List Text
column_names schema = map (λ (c : ColumnSchema). c.name) schema.columns

module _ {F : Type 0} where
  abbrev pub is_null : Value F → Bool
  is_null null = true
  is_null _ = false

  abbrev pub keys_of : Row F → List Text
  keys_of row = map (λ (p : Text × Value F). p.0) row

  -- `row.get(column)`
  unfoldable pub get_value : Row F → Text → Value F
  unfolding lookup
  get_value row column = or_default null (lookup column row)

  -- `_ordered_row`; the names of the columns are distinct.
  unfoldable pub ordered_row : List ColumnSchema → Row F → Row F
  unfolding get_value
  ordered_row [] row = []
  ordered_row (c ∷ cs) row = (c.name, get_value row c.name) ∷ ordered_row cs row

abbrev pub raise_unknown : List Text → Result (Unit {0})
raise_unknown [] = ok tt
raise_unknown (t ∷ ts) = err (constraint_error (unknown_column (least t ts)))

module _ {F : Type 0} ⦃fl : FloatOps F⦄ where
  unfoldable pub normalize_columns : List ColumnSchema → Row F → Row F → Result (Row F)
  unfolding get_value insert validate
  normalize_columns [] row normalized = ok normalized
  normalize_columns (c ∷ cs) row normalized = do
    raise_if (is_null (get_value row c.name) && c.not_null) (constraint_error (null_column c.name))
    value ← validate c.type (get_value row c.name)
    normalize_columns cs row (insert c.name value normalized)

  -- `_normalize_row`
  unfoldable pub normalize_row : TableSchema → Row F → Result (Row F)
  unfolding normalize_columns member_of
  normalize_row schema row = do
    raise_unknown (filter (λ k. not (member_of k (column_names schema))) (keys_of row))
    normalize_columns schema.columns row []
