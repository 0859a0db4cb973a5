-- ===== src/Storage/Restore.antt =====
-- tinydb/storage/file.py, `_restore_file_snapshot`: a snapshot takes the place of the file.
use tinydb_sueprflow.Prelude.{◌≡◌, refl, false, length, take, drop, take-length-append}
use tinydb_sueprflow.Errors.{ok}
use tinydb_sueprflow.Storage.Bytes.{Bytes, write_at}
use tinydb_sueprflow.Storage.State.{State, Codec}
use tinydb_sueprflow.Storage.Actions.{Storage}
use tinydb_sueprflow.Storage.Header.{read_header}
use tinydb_sueprflow.Storage.Snapshot.{restore_file_snapshot}
use tinydb_sueprflow.Storage.PageLaws.{require_open_lem}

truncated-write_at :
    (snapshot file : Bytes) → take (length snapshot) (write_at 0 snapshot file) ≡ snapshot
unfolding write_at
truncated-write_at snapshot file = take-length-append snapshot (drop (length snapshot) file)

module _ ⦃codec : Codec State⦄ where
  pub restore_file_snapshot_ok :
      (snapshot : Bytes) (s : Storage) (state : State)
      → s.closed ≡ false
      → read_header snapshot ≡ ok state
      → restore_file_snapshot snapshot s ≡ (ok tt, record s { file = snapshot; state = state })
  unfolding restore_file_snapshot
  restore_file_snapshot_ok snapshot s state opened e =
      rw (require_open_lem s opened, truncated-write_at snapshot s.file, e) refl
