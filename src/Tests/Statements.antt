-- ===== src/Tests/Statements.antt =====
-- The theorems on scripts and pages of rows at small inputs.
use tinydb_sueprflow.Prelude.{text_eq, false, ℕ, ◌≡◌, refl, Text, codes, some, List, [], ◌∷◌, ◌++◌}
use tinydb_sueprflow.Script.{add_statement, split_script, statement_is_terminated}
use tinydb_sueprflow.Script.Unterminated.{split_script-unterminated}
use tinydb_sueprflow.Python.Dict.{insert}
use tinydb_sueprflow.Types.{TinyType}
use tinydb_sueprflow.Value.{null, text}
use tinydb_sueprflow.Catalog.{TableSchema, member_of}
use tinydb_sueprflow.Sql.Ast.{Insert, literal}
use tinydb_sueprflow.Sql.Expressions.{Object, value, evaluate_expression}
use tinydb_sueprflow.Executor.Rows.{keys, row_from_insert-keys}
use tinydb_sueprflow.Tests.Floats.{Whole, whole_ops}
use tinydb_sueprflow.Executor.{column_names, row_from_insert, apply_offset_limit}
use tinydb_sueprflow.Executor.Paging.{apply_offset_limit-Between}
use tinydb_sueprflow.Prelude.{length}
use tinydb_sueprflow.Tests.Floats.{plain}

-- A semicolon in a string does not end the statement.
abbrev open_text : Text
open_text = codes " SELECT 'a;b' FROM t"

split_script-unterminated_example : split_script open_text ≡ add_statement open_text []
unfolding statement_is_terminated
split_script-unterminated_example = split_script-unterminated open_text refl

abbrev rows : List ℕ
rows = 5 ∷ 6 ∷ 7 ∷ 8 ∷ []

apply_offset_limit-Between_example :
    let page = apply_offset_limit (some 1) (some 2) rows in
    (front : List ℕ) × (back : List ℕ) × (rows ≡ front ++ (page ++ back))
    × (length front ≡ 1)
    × (length page ≡ 2)
apply_offset_limit-Between_example = apply_offset_limit-Between (some 1) (some 2) rows

-- CREATE TABLE t (id INT, name TEXT), and INSERT INTO t (name) VALUES ('x')
abbrev table : TableSchema
table = record {
  name = codes "t";
  columns =
      record {
        name = codes "id";
        type = TinyType.int_type;
        primary_key = false;
        not_null = false;
        unique = false;
      }
      ∷ record {
        name = codes "name";
        type = TinyType.text_type;
        primary_key = false;
        not_null = false;
        unique = false;
      }
      ∷ [];
}

abbrev statement : Insert Whole
statement = record {
  table = codes "t";
  columns = codes "name" ∷ [];
  values = literal (text (codes "x")) ∷ [];
}

abbrev inserted : List (Text × Object Whole)
inserted = (codes "id", value null) ∷ (codes "name", value (text (codes "x"))) ∷ []

row_from_insert-keys_example : keys inserted ≡ column_names table
unfolding row_from_insert insert member_of evaluate_expression text_eq
row_from_insert-keys_example =
    row_from_insert-keys table statement inserted ((refl, tt), (tt, tt)) refl
