-- ===== src/Tests/Schemas.antt =====
-- The theorems on the catalog at a small table.
use tinydb_sueprflow.Prelude.{◌≡◌, refl, codes, text_eq, Text, true, false, [], ◌∷◌, if◌then◌else◌}
use tinydb_sueprflow.Errors.{ok}
use tinydb_sueprflow.Python.Unicode.{upper}
use tinydb_sueprflow.Python.Dict.{lookup, contains, insert}
use tinydb_sueprflow.Types.{TinyType, from_name, member}
use tinydb_sueprflow.Sql.Ast.{CreateTable}
use tinydb_sueprflow.Catalog.{
  TableSchema, Catalog, empty, create_columns, column_schema, member_of, apply_create_table,
  apply_drop_table, get_table, to_dict, from_dict,
}
use tinydb_sueprflow.Catalog.Schemas.{IsValid, create-IsValid}
use tinydb_sueprflow.Catalog.WellFormed.{
  IsWellFormed, Dropped, create-IsWellFormed, drop-create, drop-Dropped,
}
use tinydb_sueprflow.Catalog.RoundTrip.{from_dict-to_dict}
use tinydb_sueprflow.Tests.Floats.{plain, plain_ascii}

-- CREATE TABLE t (id int PRIMARY KEY, name TEXT)
abbrev statement : CreateTable
statement = record {
  name = codes "t";
  columns =
      record {
        name = codes "id";
        type_name = codes "int";
        primary_key = true;
        not_null = false;
        unique = false;
      }
      ∷ record {
        name = codes "name";
        type_name = codes "TEXT";
        primary_key = false;
        not_null = false;
        unique = false;
      }
      ∷ [];
}

abbrev schema : TableSchema
schema = record {
  name = codes "t";
  columns =
      record {
        name = codes "id";
        type = TinyType.int_type;
        primary_key = true;
        not_null = true;
        unique = true;
      }
      ∷ record {
        name = codes "name";
        type = TinyType.text_type;
        primary_key = false;
        not_null = false;
        unique = false;
      }
      ∷ [];
}

abbrev one_table : Catalog
one_table = record { tables = (codes "t", schema) ∷ [] }

made : apply_create_table statement empty ≡ ok (schema, one_table)
unfolding apply_create_table contains lookup insert create_columns column_schema member_of from_name
    member upper text_eq
made = refl

create-IsValid_example : IsValid schema
create-IsValid_example = create-IsValid statement empty schema one_table made

create-IsWellFormed_example :
    IsWellFormed one_table
    × ((name : Text)
        → get_table name one_table
          ≡ (if text_eq statement.name name then ok schema else get_table name empty))
create-IsWellFormed_example = create-IsWellFormed statement empty schema one_table tt made

one_table-IsWellFormed : IsWellFormed one_table
one_table-IsWellFormed = (create-IsWellFormed statement empty schema one_table tt made).0

drop-create_example : apply_drop_table (record { name = codes "t" }) one_table ≡ ok (schema, empty)
drop-create_example = drop-create statement empty schema one_table made

drop-Dropped_example : Dropped (record { name = codes "t" }) one_table
drop-Dropped_example = drop-Dropped (record { name = codes "t" }) one_table one_table-IsWellFormed

from_dict-to_dict_example : from_dict (to_dict one_table) ≡ ok one_table
from_dict-to_dict_example = from_dict-to_dict one_table one_table-IsWellFormed
