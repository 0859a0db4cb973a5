-- ===== src/Catalog.antt =====
-- tinydb/catalog.py: the schemas of the tables, and CREATE TABLE and DROP TABLE on them.
pub mod Schemas
pub mod WellFormed
pub mod RoundTrip
use tinydb_sueprflow.Prelude.{
  ℕ, ◌+◌, Text, text_eq, codes, Bool, true, false, ◌&&◌, ◌||◌, Option, none, some, List, [], ◌∷◌,
  ◌++◌, map, any, ltb, if◌then◌else◌,
}
use tinydb_sueprflow.Errors.{
  Result, ok, err, ◌>>=◌, ◌>>◌, raise_if, Error, constraint_error, ConstraintReason, table_exists,
  table_missing, duplicate_column, many_primary_keys,
}
use tinydb_sueprflow.Python.Unicode.{Unicode}
use tinydb_sueprflow.Python.Dict.{Dict, lookup, contains, insert, pop}
use tinydb_sueprflow.Types.{TinyType, type_value, from_name}
use tinydb_sueprflow.Sql.Ast.{ColumnDef, CreateTable, DropTable}

pub record ColumnSchema : Type 0 where
  pub name : Text
  pub type : TinyType
  pub primary_key : Bool
  pub not_null : Bool
  pub unique : Bool

pub record TableSchema : Type 0 where
  pub name : Text
  pub columns : List ColumnSchema

pub record Catalog : Type 0 where
  pub tables : Dict TableSchema

abbrev pub empty : Catalog
empty = record { tables = [] }

-- `name in seen_columns`
unfoldable pub member_of : Text → List Text → Bool
member_of name [] = false
member_of name (n ∷ ns) = text_eq n name || member_of name ns

unfoldable pub column_schema : ColumnDef → TinyType → ColumnSchema
column_schema column type = record {
  name = column.name;
  type = type;
  primary_key = column.primary_key;
  not_null = column.not_null || column.primary_key;
  unique = column.unique || column.primary_key;
}

module _ ⦃u : Unicode⦄ where
  -- The loop of `apply_create_table`, with the names seen and the primary keys counted so far.
  unfoldable pub create_columns : List ColumnDef → List Text → ℕ → Result (List ColumnSchema)
  create_columns [] seen_columns primary_key_count = ok []
  create_columns (column ∷ rest) seen_columns primary_key_count =
      let count = primary_key_count + (if column.primary_key then 1 else 0) in
      let later = create_columns rest (column.name ∷ seen_columns) count in
      do
        raise_if (member_of column.name seen_columns)
            (constraint_error (duplicate_column column.name))
        raise_if (ltb 1 count) (constraint_error many_primary_keys)
        type ← from_name column.type_name
        columns ← later
        ok (column_schema column type ∷ columns)

  unfoldable pub apply_create_table : CreateTable → Catalog → Result (TableSchema × Catalog)
  apply_create_table statement catalog = do
    raise_if (contains statement.name catalog.tables)
        (constraint_error (table_exists statement.name))
    columns ← create_columns statement.columns [] 0
    let schema : TableSchema = record { name = statement.name; columns = columns }
    ok (schema, record { tables = insert statement.name schema catalog.tables })

-- `get_table`; `apply_drop_table` raises the same error for a name that is not there
unfoldable pub get_table : Text → Catalog → Result TableSchema
get_table name catalog = elim (lookup name catalog.tables) [
  | none ↦ err (constraint_error (table_missing name))
  | some schema ↦ ok schema
]

unfoldable pub has_table : Text → Catalog → Bool
has_table name catalog = contains name catalog.tables

unfoldable pub apply_drop_table : DropTable → Catalog → Result (TableSchema × Catalog)
apply_drop_table statement catalog = elim (lookup statement.name catalog.tables) [
  | none ↦ err (constraint_error (table_missing statement.name))
  | some schema ↦ ok (schema, record { tables = pop statement.name catalog.tables })
]

-- What `to_dict` writes and `from_dict` reads: the fields of a column and of a table, with the type
-- under its name. The JSON text of it belongs to the storage file.
pub record ColumnData : Type 0 where
  pub name : Text
  pub type : Text
  pub primary_key : Bool
  pub not_null : Bool
  pub unique : Bool

pub record TableData : Type 0 where
  pub name : Text
  pub columns : List ColumnData

unfoldable pub column_to_dict : ColumnSchema → ColumnData
column_to_dict c = record {
  name = c.name;
  type = type_value c.type;
  primary_key = c.primary_key;
  not_null = c.not_null;
  unique = c.unique;
}

unfoldable pub table_to_dict : TableSchema → TableData
unfolding column_to_dict
table_to_dict t = record { name = t.name; columns = map column_to_dict t.columns }

unfoldable pub to_dict : Catalog → List TableData
unfolding table_to_dict
to_dict catalog = map (λ (name, table). table_to_dict table) catalog.tables

module _ ⦃u : Unicode⦄ where
  unfoldable pub columns_from_dict : List ColumnData → Result (List ColumnSchema)
  columns_from_dict [] = ok []
  columns_from_dict (c ∷ rest) =
      let later = columns_from_dict rest in
      do
        type ← from_name c.type
        columns ← later
        let column : ColumnSchema = record {
          name = c.name;
          type = type;
          primary_key = c.primary_key;
          not_null = c.not_null;
          unique = c.unique;
        }
        ok (column ∷ columns)

  -- The loop of `from_dict`, with the tables read so far.
  unfoldable pub tables_from_dict : List TableData → Dict TableSchema → Result (Dict TableSchema)
  tables_from_dict [] tables = ok tables
  tables_from_dict (t ∷ rest) tables = do
    columns ← columns_from_dict t.columns
    raise_if (contains t.name tables) (constraint_error (table_exists t.name))
    let schema : TableSchema = record { name = t.name; columns = columns }
    tables_from_dict rest (insert t.name schema tables)

  unfoldable pub from_dict : List TableData → Result Catalog
  from_dict tables_data = do
    tables ← tables_from_dict tables_data []
    ok (record { tables = tables })
