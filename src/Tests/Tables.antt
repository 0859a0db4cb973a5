-- ===== src/Tests/Tables.antt =====
-- The theorems on the rows of a table at a small table.
use tinydb_sueprflow.Prelude.{
  ℕ, zero, suc, ◌≡◌, ◌↔◌, refl, sym, ap, ◌∙◌, append-nil, text_eq, codes, true, false, Option, none,
  some, List, [], ◌∷◌, arith, All, filter, not,
}
use tinydb_sueprflow.Errors.{ok}
use tinydb_sueprflow.Python.Int.{pos, negsuc, compare_ℤ}
use tinydb_sueprflow.Python.Dict.{lookup}
use tinydb_sueprflow.Value.{compare_values, Value, null, bool, int, float, text, Row}
use tinydb_sueprflow.Types.{TinyType}
use tinydb_sueprflow.Catalog.{TableSchema, member_of}
use tinydb_sueprflow.Catalog.Schemas.{HasDistinctNames}
use tinydb_sueprflow.Index.Node.{RecordPointer}
use tinydb_sueprflow.Rows.{normalize_row, ordered_row, column_names, keys_of}
use tinydb_sueprflow.Rows.Typed.{Holds, normalize_row-Holds}
use tinydb_sueprflow.Storage.Bytes.{Bytes}
use tinydb_sueprflow.Storage.State.{Codec, empty_state}
use tinydb_sueprflow.Storage.Actions.{Storage, require_open}
use tinydb_sueprflow.Table.{Payload, check_unique_constraints, scan, read, insert_row, check_rows}
use tinydb_sueprflow.Table.Laws.{PayloadLaws}
use tinydb_sueprflow.Table.Inserting.{Accepted, read-insert_row}
use tinydb_sueprflow.Table.Appending.{scan-insert_row}
use tinydb_sueprflow.Table.Uniqueness.{Clear, check_rows_iff}
use tinydb_sueprflow.Table.Unique.{UniqueRows, constrained_columns, insert_row-UniqueRows}
use tinydb_sueprflow.Tests.Floats.{Whole, whole, whole_ops}
use tinydb_sueprflow.Sql.Ast.{JoinPredicate}
use tinydb_sueprflow.Python.Dict.{insert}
use tinydb_sueprflow.Executor.Join.{Source, join_rows}
use tinydb_sueprflow.Executor.Join.Product.{all_hold, product_from, join_rows-product}
use tinydb_sueprflow.Tests.Floats.{plain}
use tinydb_sueprflow.Storage.State.{Record}
use tinydb_sueprflow.Prelude.{◌++◌}
use tinydb_sueprflow.Table.{read_payload, update_row, delete_row}
use tinydb_sueprflow.Table.Deleting.{Deletable, delete_row-gone}
use tinydb_sueprflow.Storage.Chunks.{packed}
use tinydb_sueprflow.Storage.Header.{header_bytes}
use tinydb_sueprflow.Storage.HeaderRoundTrip.{header_page}
use tinydb_sueprflow.Storage.Actions.{clean}
use tinydb_sueprflow.Errors.{err, storage_error, not_active_row, already_deleted}
use tinydb_sueprflow.Tests.Codecs.{
  Code, number, flag, pair, list_of, via, text_code, only, state_codec, state_laws,
}
use tinydb_sueprflow.Tests.Files.{new_storage, new_pages}

-- Values as numbers, and back.
abbrev pub to_numbers : Value Whole → List ℕ
to_numbers null = 0 ∷ []
to_numbers (bool true) = 1 ∷ []
to_numbers (bool false) = 2 ∷ []
to_numbers (int (pos n)) = 3 ∷ n ∷ []
to_numbers (int (negsuc n)) = 4 ∷ n ∷ []
to_numbers (float (whole (pos n))) = 5 ∷ n ∷ []
to_numbers (float (whole (negsuc n))) = 6 ∷ n ∷ []
to_numbers (text t) = 7 ∷ t

abbrev pub from_numbers : List ℕ → Value Whole
from_numbers (suc zero ∷ _) = bool true
from_numbers (suc (suc zero) ∷ _) = bool false
from_numbers (suc (suc (suc zero)) ∷ n ∷ _) = int (pos n)
from_numbers (suc (suc (suc (suc zero))) ∷ n ∷ _) = int (negsuc n)
from_numbers (suc (suc (suc (suc (suc zero)))) ∷ n ∷ _) = float (whole (pos n))
from_numbers (suc (suc (suc (suc (suc (suc zero))))) ∷ n ∷ _) = float (whole (negsuc n))
from_numbers (suc (suc (suc (suc (suc (suc (suc zero)))))) ∷ t) = text t
from_numbers _ = null

numbers_back : (v : Value Whole) → from_numbers (to_numbers v) ≡ v
numbers_back null = refl
numbers_back (bool true) = refl
numbers_back (bool false) = refl
numbers_back (int (pos n)) = refl
numbers_back (int (negsuc n)) = refl
numbers_back (float (whole (pos n))) = refl
numbers_back (float (whole (negsuc n))) = refl
numbers_back (text t) = refl

abbrev payload_code : Code (Payload Whole)
payload_code =
    via
      (pair text_code (
        pair flag
          (list_of (pair text_code (via (list_of number) from_numbers to_numbers numbers_back)))))
      (λ (table, (deleted, row)). record { table = table; deleted = deleted; row = row })
      (λ p. (p.table, (p.deleted, p.row))) (λ p. refl)

instance abbrev payload_codec : Codec (Payload Whole)
payload_codec = record {
  dumps = λ p. payload_code.write p;
  loads = λ bytes. only (payload_code.read bytes);
}

payload_back : (p : Payload Whole) → only (payload_code.read (payload_code.write p)) ≡ some p
payload_back p =
    ap (λ bytes. only (payload_code.read bytes)) (sym (append-nil (payload_code.write p)))
    ∙ ap (λ (o : Option (Payload Whole × Bytes)). only o) (payload_code.read-write p [])

instance payload_laws : PayloadLaws Whole
payload_laws = record {
  loaded = λ p. p;
  loads-dumps = payload_back;
  same_table = λ p. refl;
  same_deleted = λ p. refl;
  same_row = λ p name. refl;
}

-- CREATE TABLE t (id INT PRIMARY KEY, name TEXT)
abbrev schema : TableSchema
schema = record {
  name = codes "t";
  columns =
      record {
        name = codes "id";
        type = TinyType.int_type;
        primary_key = true;
        not_null = true;
        unique = true;
      }
      ∷ record {
        name = codes "name";
        type = TinyType.text_type;
        primary_key = false;
        not_null = false;
        unique = false;
      }
      ∷ [];
}

distinct_names : HasDistinctNames schema.columns
unfolding text_eq
distinct_names = ((refl, tt), (tt, tt))

abbrev row : Row Whole
row = (codes "name", text (codes "a")) ∷ (codes "id", int (pos 1)) ∷ []

abbrev stored : Row Whole
stored = (codes "id", int (pos 1)) ∷ (codes "name", text (codes "a")) ∷ []

accepts : normalize_row schema row ≡ ok stored
unfolding normalize_row text_eq
accepts = refl

normalize_row-Holds_example :
    (filter (λ k. not (member_of k (column_names schema))) (keys_of row) ≡ [])
    × All (Holds stored) schema.columns
    × (lookup (codes "other") stored ≡ none)
unfolding text_eq
normalize_row-Holds_example =
    normalize_row-Holds schema row stored (codes "other") distinct_names accepts (refl, (refl, tt))

check_rows_iff_example :
    (check_rows
        (codes "id" ∷ [])
        row
        none
        ((record { table = codes "t"; page_id = 0; slot = 0 }, stored) ∷ [])
      ≡ ok tt)
    ↔ All
        (Clear (codes "id" ∷ []) row none)
        ((record { table = codes "t"; page_id = 0; slot = 0 }, stored) ∷ [])
check_rows_iff_example =
    check_rows_iff (codes "id" ∷ []) row none
      ((record { table = codes "t"; page_id = 0; slot = 0 }, stored) ∷ [])

-- The table has no rows yet.
abbrev storage : Storage
storage = record new_storage { state = record empty_state { tables = (codes "t", []) ∷ [] } }

accepted : Accepted 0 schema row stored [] storage
unfolding text_eq lookup scan check_unique_constraints require_open
accepted = record {
  pages = new_pages;
  found = refl;
  before = tt;
  normal = accepts;
  distinct = refl;
  room = omega arith;
  fits = omega arith;
}

read-insert_row_example :
    let (result, s') = insert_row schema row storage in
    let pointer : RecordPointer = record { table = codes "t"; page_id = 0; slot = 0 } in
    (result ≡ ok pointer) × (read schema pointer s' ≡ (ok (ordered_row schema.columns stored), s'))
read-insert_row_example = read-insert_row 0 schema row stored [] storage accepted

nothing_scanned : scan {F = Whole} schema storage ≡ (ok [], storage)
unfolding scan text_eq require_open
nothing_scanned = refl

scan-insert_row_example :
    let (result, s') = insert_row schema row storage in
    let pointer : RecordPointer = record { table = codes "t"; page_id = 0; slot = 0 } in
    (result ≡ ok pointer)
    × (scan schema s' ≡ (ok ((pointer, ordered_row schema.columns stored) ∷ []), s'))
scan-insert_row_example =
    scan-insert_row 0 schema row stored [] storage [] accepted tt nothing_scanned

-- SELECT * FROM t AS a JOIN t AS b ON a.id = b.id
abbrev two_rows : List (Row Whole)
two_rows = ((codes "id", int (pos 1)) ∷ []) ∷ ((codes "id", int (pos 2)) ∷ []) ∷ []

abbrev sources : List (Source Whole)
sources = (codes "a", two_rows) ∷ (codes "b", two_rows) ∷ []

abbrev same_id : JoinPredicate
same_id = record {
  left = record { qualifier = some (codes "a"); column_name = codes "id" };
  right = record { qualifier = some (codes "b"); column_name = codes "id" };
}

join_rows-product_example :
    join_rows (same_id ∷ []) sources
    ≡ ok (filter (all_hold (same_id ∷ [])) (product_from ([] ∷ []) sources))
unfolding lookup insert text_eq
join_rows-product_example = join_rows-product (same_id ∷ []) sources refl (
  (((refl, tt), ((refl, tt), tt)), tt),
  ((((refl, tt), ((refl, tt), tt)), (((refl, tt), ((refl, tt), tt)), tt)), tt),
)

-- A storage with one row in it.
abbrev stored_payload : Payload Whole
stored_payload = record { table = codes "t"; deleted = false; row = stored }

abbrev one_record : Record
one_record = record { page_id = 0; slot = 0; deleted = false }

abbrev one_row : Storage
one_row = record {
  file = header_page empty_state ++ packed (payload_codec.dumps stored_payload);
  state = record empty_state { tables = (codes "t", one_record ∷ []) ∷ [] };
  closed = false;
  recovery_state = clean;
}

deletable : Deletable 1 0 schema (one_record ∷ []) one_record stored_payload one_row
unfolding text_eq lookup insert read_payload packed header_bytes require_open
deletable = record {
  pages = (refl, refl);
  inside = omega arith;
  found = refl;
  first = refl;
  active = refl;
  readable = refl;
  room = omega arith;
  fits = omega arith;
}

delete_row-gone_example :
    let pointer : RecordPointer = record { table = codes "t"; page_id = 0; slot = 0 } in
    let (result, s') = delete_row Whole schema pointer one_row in
    (result ≡ ok tt)
    × (read {F = Whole} schema pointer s' ≡ (err (storage_error not_active_row), s'))
    × (update_row schema pointer row s' ≡ (err (storage_error not_active_row), s'))
    × (delete_row Whole schema pointer s' ≡ (err (storage_error already_deleted), s'))
delete_row-gone_example =
    delete_row-gone 1 0 schema (one_record ∷ []) one_record stored_payload one_row row deletable

-- A second row.
abbrev second : Row Whole
second = (codes "id", int (pos 2)) ∷ (codes "name", text (codes "a")) ∷ []

abbrev first_pointer : RecordPointer
first_pointer = record { table = codes "t"; page_id = 0; slot = 0 }

abbrev second_pointer : RecordPointer
second_pointer = record { table = codes "t"; page_id = 1; slot = 0 }

one_scanned : scan {F = Whole} schema one_row ≡ (ok ((first_pointer, stored) ∷ []), one_row)
unfolding scan read text_eq lookup read_payload packed header_bytes require_open
one_scanned = refl

second-Accepted : Accepted 1 schema second second (one_record ∷ []) one_row
unfolding normalize_row scan check_unique_constraints read text_eq lookup insert read_payload packed
    header_bytes require_open compare_values compare_ℤ
second-Accepted = record {
  pages = (refl, refl);
  found = refl;
  before = (omega arith, tt);
  normal = refl;
  distinct = refl;
  room = omega arith;
  fits = omega arith;
}

insert_row-UniqueRows_example :
    let s' = (insert_row schema second one_row).1 in
    (rows' : List (RecordPointer × Row Whole)) × (scan schema s' ≡ (ok rows', s'))
    × UniqueRows (constrained_columns schema) rows'
unfolding lookup text_eq header_bytes packed
insert_row-UniqueRows_example =
    insert_row-UniqueRows 1 schema second (one_record ∷ []) one_row ((first_pointer, stored) ∷ [])
      second_pointer (refl, refl) refl ((omega arith, refl), tt) one_scanned (tt, tt)
      (read-insert_row 1 schema second second (one_record ∷ []) one_row second-Accepted).0
