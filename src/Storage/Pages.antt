-- ===== src/Storage/Pages.antt =====
-- tinydb/storage/file.py: pages by their number, the catalog, and the records of the tables.
use tinydb_sueprflow.Prelude.{
  ℕ, ◌+◌, ◌-◌, ◌*◌, ◌/◌, ◌%◌, Text, true, not, ◌||◌, Option, none, some, List, [], length, ltb, leb,
  ◌==◌,
}
use tinydb_sueprflow.Errors.{ok, storage_error, page_truncated, page_out_of_range, not_page_aligned}
use tinydb_sueprflow.Python.Unicode.{Unicode}
use tinydb_sueprflow.Python.Dict.{lookup, insert}
use tinydb_sueprflow.Catalog.{Catalog, to_dict, from_dict}
use tinydb_sueprflow.Page.{page_size, normalize_page_data}
use tinydb_sueprflow.Storage.Bytes.{Bytes, slice, write_at}
use tinydb_sueprflow.Storage.State.{Record, State, Codec}
use tinydb_sueprflow.Storage.Actions.{
  Action, pure, lift, ◌>>=◌, ◌>>◌, raise_when, get, put_file, put_state, require_open,
}
use tinydb_sueprflow.Storage.Header.{persist_state}

abbrev pub page_offset : ℕ → ℕ
page_offset page_id = (page_id + 1) * page_size

unfoldable pub page_count : Action ℕ
page_count = do
  require_open
  s ← get
  raise_when (ltb (length s.file) page_size || not (length s.file % page_size == 0))
      (storage_error not_page_aligned)
  pure (length s.file / page_size - 1)

-- A page behind the last one: `allocate_page`, and `_append_raw_page` for an open storage.
unfoldable pub allocate_page : Bytes → Action ℕ
unfolding page_count normalize_page_data write_at
allocate_page bytes = do
  require_open
  page_id ← page_count
  page ← lift (normalize_page_data bytes)
  s ← get
  put_file (write_at (page_offset page_id) page s.file)
  pure page_id

-- A page number is a natural number here, so that it is never below 0.
unfoldable pub validate_page_id : ℕ → Action (Unit {0})
unfolding page_count
validate_page_id page_id = do
  count ← page_count
  raise_when (leb count page_id) (storage_error page_out_of_range)

unfoldable pub read_page : ℕ → Action Bytes
unfolding validate_page_id
read_page page_id = do
  require_open
  validate_page_id page_id
  s ← get
  raise_when (not (length (slice (page_offset page_id) page_size s.file) == page_size))
      (storage_error page_truncated)
  pure (slice (page_offset page_id) page_size s.file)

unfoldable pub write_page : ℕ → Bytes → Action (Unit {0})
unfolding validate_page_id normalize_page_data write_at
write_page page_id bytes = do
  require_open
  validate_page_id page_id
  page ← lift (normalize_page_data bytes)
  s ← get
  put_file (write_at (page_offset page_id) page s.file)

module _ ⦃u : Unicode⦄ where
  unfoldable pub read_catalog : Action Catalog
  unfolding from_dict
  read_catalog = do require_open; s ← get; lift (from_dict s.state.catalog)

module _ ⦃codec : Codec State⦄ where
  unfoldable pub write_catalog : Catalog → Action (Unit {0})
  unfolding persist_state to_dict
  write_catalog catalog = do
    require_open
    s ← get
    put_state (record s.state { catalog = to_dict catalog })
    persist_state

  unfoldable pub write_table_records : Text → List Record → Action (Unit {0})
  unfolding persist_state insert
  write_table_records table records = do
    require_open
    s ← get
    put_state (record s.state { tables = insert table records s.state.tables })
    persist_state

-- `setdefault`: a table that has no records gets an empty list of them.
abbrev records_or_new : Text → Option (List Record) → Action (List Record)
records_or_new table none = do
  s ← get
  put_state (record s.state { tables = insert table [] s.state.tables })
  pure []
records_or_new table (some records) = pure records

unfoldable pub read_table_records : Text → Action (List Record)
unfolding lookup insert
read_table_records table = do
  require_open
  s ← get
  records_or_new table (lookup table s.state.tables)

-- `close`
unfoldable pub close : Action (Unit {0})
close s = (ok tt, record s { closed = true })
