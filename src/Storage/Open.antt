-- ===== src/Storage/Open.antt =====
-- tinydb/storage/file.py: opening a database file, and the recovery that this begins with.
use tinydb_sueprflow.Prelude.{
  text_eq, Bool, true, false, not, ◌&&◌, ◌||◌, Option, none, some, [], length, take, ltb, ◌==◌,
  is_some, if◌then◌else◌,
}
use tinydb_sueprflow.Errors.{
  Result, ok, err, storage_error, transaction_error, invalid_header, unsupported_version,
  transaction_metadata, live_transaction,
}
use tinydb_sueprflow.Page.{unpack_size}
use tinydb_sueprflow.Storage.Bytes.{Bytes, slice}
use tinydb_sueprflow.Storage.State.{Marker, State, empty_state, Codec}
use tinydb_sueprflow.Storage.Actions.{
  Storage, Action, pure, lift, ◌>>=◌, ◌>>◌, raise_when, get, put_state, RecoveryStatus, clean,
  discarded_incomplete,
}
use tinydb_sueprflow.Storage.Header.{file_magic, format_version, read_header, write_header}
use tinydb_sueprflow.Storage.Snapshot.{read_snapshot_from_marker, restore_file_snapshot}

-- `_validate_existing_file`
unfoldable pub validate_existing_file : Bytes → Result (Unit {0})
unfolding text_eq
validate_existing_file file =
    if ltb (length (take 11 file)) 11 || not (text_eq (take 7 file) file_magic)
    then err (storage_error invalid_header)
    else if not (unpack_size (slice 7 4 file) == format_version)
    then err (storage_error unsupported_version)
    else ok tt

abbrev put_status : RecoveryStatus → Action (Unit {0})
put_status status s = (ok tt, record s { recovery_state = status })

-- `except Exception: self._file.close()`
abbrev close_on_error : Result (Unit {0}) × Storage → Result (Unit {0}) × Storage
close_on_error (ok a, s) = (ok a, s)
close_on_error (err e, s) = (err e, record s { closed = true })

abbrev fresh : Bytes → Storage
fresh file = record { file = file; state = empty_state; closed = false; recovery_state = clean }

module _ ⦃codec : Codec State⦄ where
  -- The marker's snapshot takes the place of the file.
  unfoldable pub recover_marker : Marker → Action (Unit {0})
  unfolding read_snapshot_from_marker restore_file_snapshot
  recover_marker marker = do
    raise_when (not marker.pending) (storage_error transaction_metadata)
    snapshot ← read_snapshot_from_marker marker
    restore_file_snapshot snapshot
    put_status discarded_incomplete

  -- `_recover_incomplete_transaction`, without a lock manager and with one. Of the lock it is given
  -- whether it was acquired; the header is read again under it.
  unfoldable pub recover_unlocked : Action (Unit {0})
  unfolding recover_marker
  recover_unlocked = do
    s ← get
    elim s.state.transaction [ none ↦ pure tt | some marker ↦ recover_marker marker ]

  unfoldable pub recover_incomplete_transaction : Option (Result (Unit {0})) → Action (Unit {0})
  unfolding recover_unlocked read_header
  recover_incomplete_transaction none = recover_unlocked
  recover_incomplete_transaction (some lock) = do
    s ← get
    if is_some s.state.transaction
        then (do lift lock; state ← lift (read_header s.file); put_state state; recover_unlocked)
        else pure tt

  -- What `__init__` does with the open file. `live` says that this process has a writer.
  unfoldable pub read_and_recover : Bool → Option (Result (Unit {0})) → Action (Unit {0})
  unfolding read_header recover_incomplete_transaction
  read_and_recover live lock = do
    s ← get
    state ← lift (read_header s.file)
    put_state state
    raise_when (is_some state.transaction && live) (transaction_error live_transaction)
    recover_incomplete_transaction lock

  -- `StorageManager(path)` for a file that exists
  unfoldable pub open_existing :
      Bool → Option (Result (Unit {0})) → Bytes → Result (Unit {0}) × Storage
  unfolding validate_existing_file read_and_recover
  open_existing live lock file = opened (fresh file)
    where
      opened : Action (Unit {0})
      opened = do
        lift (validate_existing_file file)
        (λ s. close_on_error (read_and_recover live lock s))

  -- `StorageManager(path)` where there is no file yet
  unfoldable pub create_new : Bool → Option (Result (Unit {0})) → Result (Unit {0}) × Storage
  unfolding write_header read_and_recover
  create_new live lock = created (fresh [])
    where
      created : Action (Unit {0})
      created = do write_header empty_state; (λ s. close_on_error (read_and_recover live lock s))
