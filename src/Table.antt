-- ===== src/Table.antt =====
-- tinydb/storage/table.py: the rows of a table, one page for each, and the table's list of records.
pub mod Laws
pub mod Inserting
pub mod Uniqueness
pub mod Scanning
pub mod Acceptance
pub mod Appending
pub mod Unique
pub mod Deleting
use tinydb_sueprflow.Prelude.{
  ℕ, ◌+◌, Text, text_eq, text_lt, Bool, true, false, not, ◌&&◌, ◌||◌, ◌==◌, Option, none, some,
  List, [], ◌∷◌, ◌++◌, map, filter, any, or_default, if◌then◌else◌,
}
use tinydb_sueprflow.Errors.{
  Error, Result, ok, err, raise_if, constraint_error, unknown_column, null_column, duplicate_value,
  storage_error, wrong_pointer, not_active_row, record_deleted, already_deleted, wrong_table,
  row_payload,
}
use tinydb_sueprflow.Python.Float.{FloatOps}
use tinydb_sueprflow.Python.Dict.{Dict, lookup, insert}
use tinydb_sueprflow.Rows.{get_value, ordered_row, normalize_row, is_null}
use tinydb_sueprflow.Value.{Value, null, Row, py_eq}
use tinydb_sueprflow.Catalog.{ColumnSchema, TableSchema, member_of}
use tinydb_sueprflow.Index.Node.{RecordPointer}
use tinydb_sueprflow.Page.{pack_payload, unpack_payload}
use tinydb_sueprflow.Storage.Bytes.{Bytes}
use tinydb_sueprflow.Storage.State.{Record, State, Codec}
use tinydb_sueprflow.Storage.Actions.{Action, pure, raise, lift, ◌>>=◌, ◌>>◌, raise_when}
use tinydb_sueprflow.Storage.Pages.{
  allocate_page, read_page, write_page, read_table_records, write_table_records,
}

-- What a row's page holds, as a JSON object.
pub record Payload (F : Type 0) : Type 0 where
  pub table : Text
  pub deleted : Bool
  pub row : Row F

abbrev pub same_record : RecordPointer → Record → Bool
same_record pointer r = r.page_id == pointer.page_id && r.slot == pointer.slot

abbrev pub first_record : RecordPointer → List Record → Option Record
first_record pointer [] = none
first_record pointer (r ∷ rs) =
    let rest = first_record pointer rs in if same_record pointer r then some r else rest

-- The records after the first one of the pointer was marked.
abbrev pub mark_deleted : RecordPointer → List Record → List Record
mark_deleted pointer [] = []
mark_deleted pointer (r ∷ rs) =
    let rest = mark_deleted pointer rs in
    if same_record pointer r then record r { deleted = true } ∷ rs else r ∷ rest

-- `_find_record`
unfoldable pub find_record : TableSchema → RecordPointer → Action (Option Record)
unfolding read_table_records
find_record schema pointer = do
  records ← read_table_records schema.name
  pure (first_record pointer records)

unfoldable pub validate_pointer : TableSchema → RecordPointer → Action (Unit {0})
unfolding text_eq
validate_pointer schema pointer =
    raise_when (not (text_eq pointer.table schema.name) || not (pointer.slot == 0))
      (storage_error wrong_pointer)

-- `if record is None or record.get("deleted", False): raise`
abbrev pub require_active : Option Record → Action (Unit {0})
require_active none = raise (storage_error not_active_row)
require_active (some r) = raise_when r.deleted (storage_error not_active_row)

abbrev pub pointer_eq : RecordPointer → RecordPointer → Bool
pointer_eq a b = text_eq a.table b.table && a.page_id == b.page_id && a.slot == b.slot

-- the names of the columns that are unique
abbrev pub unique_columns : TableSchema → List Text
unique_columns schema =
    map (λ (c : ColumnSchema). c.name)
      (filter (λ (c : ColumnSchema). c.primary_key || c.unique) schema.columns)

abbrev pub is_excluded : Option RecordPointer → RecordPointer → Bool
is_excluded none pointer = false
is_excluded (some excluding) pointer = pointer_eq pointer excluding

module _ {F : Type 0} ⦃payloads : Codec (Payload F)⦄ where
  -- `_encode_row`
  unfoldable pub encode_row : TableSchema → Row F → Bool → Result Bytes
  unfolding pack_payload
  encode_row schema row deleted =
      pack_payload (payloads.dumps (record { table = schema.name; deleted = deleted; row = row }))

  -- `json.loads` of a page's payload, with its failures turned into a StorageError
  unfoldable pub load_payload : TableSchema → Bytes → Result (Payload F)
  unfolding text_eq
  load_payload schema encoded = elim (payloads.loads encoded) [
    | none ↦ err (storage_error row_payload)
    | some payload ↦
        if not (text_eq payload.table schema.name)
        then err (storage_error wrong_table)
        else ok payload
  ]

  unfoldable pub read_payload : TableSchema → ℕ → Action (Payload F)
  unfolding read_page unpack_payload load_payload
  read_payload schema page_id = do
    page ← read_page page_id
    encoded ← lift (unpack_payload page)
    lift (load_payload schema encoded)

  unfoldable pub read : TableSchema → RecordPointer → Action (Row F)
  unfolding validate_pointer find_record read_payload ordered_row
  read schema pointer = do
    validate_pointer schema pointer
    found ← find_record schema pointer
    require_active found
    payload ← read_payload schema pointer.page_id
    raise_when payload.deleted (storage_error record_deleted)
    pure (ordered_row schema.columns payload.row)

  -- `scan`: the rows that are not deleted, read one by one.
  unfoldable pub scan_records : TableSchema → List Record → Action (List (RecordPointer × Row F))
  unfolding read
  scan_records schema [] = pure []
  scan_records schema (r ∷ rs) =
      let rest = scan_records schema rs in
      let pointer : RecordPointer = record {
        table = schema.name;
        page_id = r.page_id;
        slot = r.slot;
      } in
      if r.deleted
      then rest
      else (do row ← read schema pointer; rows ← rest; pure ((pointer, row) ∷ rows))

  unfoldable pub scan : TableSchema → Action (List (RecordPointer × Row F))
  unfolding read_table_records scan_records
  scan schema = do records ← read_table_records schema.name; scan_records schema records

module _ {F : Type 0} ⦃fl : FloatOps F⦄ where
  -- The columns of a stored row that a new row is compared with. The rows that it is called with have every column
  -- of the schema; for a row without one of them, a KeyError in Python, it reads null here.
  unfoldable pub check_columns : List Text → Row F → Row F → Result (Unit {0})
  unfolding get_value py_eq
  check_columns [] row existing = ok tt
  check_columns (c ∷ cs) row existing =
      if not (is_null (get_value row c)) && py_eq (get_value row c) (get_value existing c)
      then err (constraint_error (duplicate_value c))
      else check_columns cs row existing

  unfoldable pub check_rows :
      List Text → Row F → Option RecordPointer → List (RecordPointer × Row F) → Result (Unit {0})
  unfolding check_columns text_eq
  check_rows columns row excluding [] = ok tt
  check_rows columns row excluding ((pointer, existing) ∷ rows) =
      elim (if is_excluded excluding pointer then ok tt else check_columns columns row existing) [
        | ok _ ↦ check_rows columns row excluding rows
        | err e ↦ err e
      ]

  module _ ⦃payloads : Codec (Payload F)⦄ where
    -- `_check_unique_constraints`; without a unique column nothing is scanned.
    unfoldable pub check_unique_constraints :
        TableSchema → Row F → Option RecordPointer → Action (Unit {0})
    unfolding scan check_rows
    check_unique_constraints schema row excluding = checked (unique_columns schema)
      where
        checked : List Text → Action (Unit {0})
        checked [] = pure tt
        checked (c ∷ cs) = do rows ← scan schema; lift (check_rows (c ∷ cs) row excluding rows)

    module _ ⦃codec : Codec State⦄ where
      unfoldable pub insert_row : TableSchema → Row F → Action RecordPointer
      unfolding normalize_row check_unique_constraints encode_row allocate_page read_table_records
          write_table_records
      insert_row schema row = do
        normalized ← lift (normalize_row schema row)
        check_unique_constraints schema normalized none
        page ← lift (encode_row schema normalized false)
        page_id ← allocate_page page
        records ← read_table_records schema.name
        write_table_records schema.name
            (records ++ record { page_id = page_id; slot = 0; deleted = false } ∷ [])
        pure (record { table = schema.name; page_id = page_id; slot = 0 })

      unfoldable pub update_row : TableSchema → RecordPointer → Row F → Action (Unit {0})
      unfolding validate_pointer find_record normalize_row check_unique_constraints encode_row
          write_page
      update_row schema pointer row = do
        validate_pointer schema pointer
        found ← find_record schema pointer
        require_active found
        normalized ← lift (normalize_row schema row)
        check_unique_constraints schema normalized (some pointer)
        page ← lift (encode_row schema normalized false)
        write_page pointer.page_id page

module _ ⦃codec : Codec State⦄ where
  -- `TableStore(storage, schema)`
  unfoldable pub open_table : TableSchema → Action (Unit {0})
  unfolding read_table_records write_table_records
  open_table schema = do records ← read_table_records schema.name; opened records
    where
      opened : List Record → Action (Unit {0})
      opened [] = write_table_records schema.name []
      opened (r ∷ rs) = pure tt

-- `raise` for a missing or a deleted record, each with its reason
abbrev pub require_not_deleted : Option Record → Action (Unit {0})
require_not_deleted none = raise (storage_error not_active_row)
require_not_deleted (some r) = raise_when r.deleted (storage_error already_deleted)

module _ (F : Type 0) ⦃payloads : Codec (Payload F)⦄ ⦃codec : Codec State⦄ where
  unfoldable pub delete_row : TableSchema → RecordPointer → Action (Unit {0})
  unfolding validate_pointer read_table_records read_payload encode_row write_page
      write_table_records
  delete_row schema pointer = do
    validate_pointer schema pointer
    records ← read_table_records schema.name
    require_not_deleted (first_record pointer records)
    payload ← read_payload {F = F} schema pointer.page_id
    page ← lift (encode_row schema payload.row true)
    write_page pointer.page_id page
    write_table_records schema.name (mark_deleted pointer records)
