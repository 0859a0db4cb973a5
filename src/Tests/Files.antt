-- ===== src/Tests/Files.antt =====
-- The theorems on the storage file at a small file.
use tinydb_sueprflow.Prelude.{
  ◌+◌, ◌-◌, ◌*◌, ◌≤◌, ◌<◌, ◌≡◌, refl, sym, ap, ◌∙◌, true, false, none, some, [], ◌∷◌, ◌++◌,
  append-nil, codes, text_lt, length, replicate, arith, take, drop,
}
use tinydb_sueprflow.Errors.{ok, err}
use tinydb_sueprflow.Page.{page_size}
use tinydb_sueprflow.Storage.Bytes.{Bytes}
use tinydb_sueprflow.Storage.State.{Marker, State, SameState, empty_state}
use tinydb_sueprflow.Storage.Actions.{Storage, clean, discarded_incomplete}
use tinydb_sueprflow.Storage.Header.{read_header, header_bytes, persist_state, header_fixed_size}
use tinydb_sueprflow.Storage.HeaderRoundTrip.{
  header_page, length-header_page, header_page_read, read_header-persist_state,
}
use tinydb_sueprflow.Storage.PageLaws.{padded}
use tinydb_sueprflow.Storage.Chunks.{chunks}
use tinydb_sueprflow.Storage.Snapshot.{chunks_from}
use tinydb_sueprflow.Storage.Recovery.{marked_state}
use tinydb_sueprflow.Errors.{storage_error, transaction_error, metadata_too_large, recovery_active}
use tinydb_sueprflow.Storage.Pages.{
  page_count, read_page, write_page, allocate_page, write_table_records,
}
use tinydb_sueprflow.Storage.PageAccess.{read_page-write_page, read_page-write_page_other}
use tinydb_sueprflow.Storage.Snapshot.{
  begin_transaction_recovery_snapshot, clear_transaction_recovery_snapshot,
}
use tinydb_sueprflow.Storage.Chunks.{page_images}
use tinydb_sueprflow.Storage.Open.{open_existing}
use tinydb_sueprflow.Storage.Reopen.{opened}
use tinydb_sueprflow.Storage.Crash.{
  Writes, nothing, then_write, page_allocated, records_written, open_existing-Writes,
}
use tinydb_sueprflow.Storage.Growth.{length-commit, begin_too_large}
use tinydb_sueprflow.Storage.Commit.{open_existing-commit}
use tinydb_sueprflow.Tests.Codecs.{state_codec, state_laws}

-- A database file as it is created, with no page behind the header.
abbrev pub new_storage : Storage
new_storage = record {
  file = header_page empty_state;
  state = empty_state;
  closed = false;
  recovery_state = clean;
}

pub empty_fits : length (state_codec.dumps empty_state) ≤ 4081
empty_fits = omega arith

pub new_pages : (new_storage.closed ≡ false) × (length new_storage.file ≡ (0 + 1) * page_size)
new_pages = (refl, length-header_page empty_state empty_fits)

pub new_read : read_header new_storage.file ≡ ok empty_state
new_read =
    ap (λ (file : Bytes). read_header file) (sym (append-nil (header_page empty_state)))
    ∙ header_page_read empty_state [] empty_fits

two_chunks : length (chunks (header_page empty_state)) ≡ 2
unfolding chunks_from header_bytes
two_chunks = refl

-- The names of the tables are not in their order.
abbrev unsorted_state : State
unsorted_state = record empty_state { tables = (codes "u", []) ∷ (codes "t", []) ∷ [] }

unsorted_fits : length (state_codec.dumps unsorted_state) ≤ 4081
unfolding text_lt
unsorted_fits = omega arith

abbrev unsorted_storage : Storage
unsorted_storage = record new_storage { state = unsorted_state }

read_header-persist_state_example :
    let (result, s') = persist_state unsorted_storage in
    (result ≡ ok tt)
    × ((state : State) × (read_header s'.file ≡ ok state) × SameState state unsorted_state)
    × (drop page_size s'.file ≡ drop page_size new_storage.file)
    × (s'.state ≡ unsorted_state)
read_header-persist_state_example = read_header-persist_state unsorted_storage unsorted_fits

-- Two pages behind the header.
abbrev two_pages : Storage
two_pages = record new_storage { file = header_page empty_state ++ replicate 8192 7 }

two_HasPages : (two_pages.closed ≡ false) × (length two_pages.file ≡ (2 + 1) * page_size)
unfolding header_bytes
two_HasPages = (refl, refl)

read_page-write_page_example :
    let (result, s') = write_page 1 (1 ∷ 2 ∷ []) two_pages in
    (result ≡ ok tt)
    × (read_page 1 s' ≡ (ok (padded (1 ∷ 2 ∷ [])), s'))
    × (page_count s' ≡ (ok 2, s'))
    × (take page_size s'.file ≡ take page_size two_pages.file)
read_page-write_page_example =
    read_page-write_page 2 1 two_pages (1 ∷ 2 ∷ []) two_HasPages (omega arith) (omega arith)

read_page-write_page_other_example :
    (read_page 0 (write_page 1 (1 ∷ 2 ∷ []) two_pages).1).0 ≡ (read_page 0 two_pages).0
read_page-write_page_other_example =
    read_page-write_page_other 2 1 0 two_pages (1 ∷ 2 ∷ []) two_HasPages (omega arith) (omega arith)
      (omega arith) (omega arith)

-- A transaction that allocated a page, wrote it, and noted a record of it when it was cut off.
abbrev begun_storage : Storage
begun_storage = (begin_transaction_recovery_snapshot new_storage).1

abbrev with_row : Storage
with_row = (allocate_page (1 ∷ 2 ∷ []) begun_storage).1

abbrev with_record : Storage
with_record =
    (write_table_records (codes "t") (record { page_id = 2; slot = 0; deleted = false } ∷ [])
      with_row).1

row_written : Writes 0 new_storage.file begun_storage with_record
row_written =
    then_write begun_storage with_row with_record
      (then_write begun_storage begun_storage with_row (nothing begun_storage)
        (page_allocated (1 ∷ 2 ∷ []) begun_storage))
      (records_written (codes "t") (record { page_id = 2; slot = 0; deleted = false } ∷ [])
        with_row)

pub marked_fits :
    length (state_codec.dumps (marked_state 0 new_storage)) ≤ page_size - header_fixed_size
unfolding chunks_from header_bytes
marked_fits = omega arith

open_existing-Writes_example :
    (open_existing false none with_record.file
      ≡ (ok tt, opened new_storage.file empty_state discarded_incomplete))
    × (open_existing false (some (ok tt)) with_record.file
        ≡ (ok tt, opened new_storage.file empty_state discarded_incomplete))
open_existing-Writes_example =
    open_existing-Writes 0 new_storage with_record empty_state new_pages refl new_read marked_fits
      row_written

length-commit_example :
    2 * length new_storage.file
    ≤ length
        (clear_transaction_recovery_snapshot
          (begin_transaction_recovery_snapshot new_storage).1).1.file
length-commit_example = length-commit 0 new_storage new_pages refl marked_fits

abbrev some_marker : Marker
some_marker = record {
  version = 1;
  pending = true;
  snapshot_size = 4096;
  snapshot_page_ids = 0 ∷ 1 ∷ [];
}

abbrev marked_storage : Storage
marked_storage = record new_storage {
  state = record unsorted_state { transaction = some some_marker };
}

open_existing-commit_example :
    let (result, s') = clear_transaction_recovery_snapshot marked_storage in
    (result ≡ ok tt)
    × ((state : State) × (open_existing true none s'.file ≡ (ok tt, opened s'.file state clean))
        × SameState state unsorted_state)
    × (drop page_size s'.file ≡ drop page_size marked_storage.file)
open_existing-commit_example =
    open_existing-commit marked_storage some_marker true none refl refl unsorted_fits

-- The records of a table with a very long name fill the header page.
abbrev crowded_storage : Storage
crowded_storage = record new_storage {
  state = record empty_state { tables = (replicate 4078 7, []) ∷ [] };
}

too_large :
    page_size - header_fixed_size < length (state_codec.dumps (marked_state 0 crowded_storage))
unfolding chunks_from header_bytes
too_large = omega arith

begin_too_large_example :
    let (result, s') = begin_transaction_recovery_snapshot crowded_storage in
    (result ≡ err (storage_error metadata_too_large))
    × (s'.file ≡ crowded_storage.file ++ page_images (chunks crowded_storage.file))
    × (begin_transaction_recovery_snapshot s' ≡ (err (transaction_error recovery_active), s'))
begin_too_large_example = begin_too_large 0 crowded_storage new_pages refl too_large
