-- ===== src/Transactions.antt =====
-- tinydb/transaction.py, and the set of active writers of tinydb/storage/file.py: one transaction
-- manager and what it shares with the others of its process.
pub mod Statements
pub mod Outcomes
pub mod Writers
pub mod Exclusion
use tinydb_sueprflow.Prelude.{
  ℕ, Text, text_eq, Bool, true, false, not, ◌||◌, Option, none, some, List, [], ◌∷◌, any, filter,
  if◌then◌else◌,
}
use tinydb_sueprflow.Errors.{
  Error, Result, ok, err, transaction_error, concurrency_error, already_active, no_transaction,
  snapshot_missing, writer_active,
}
use tinydb_sueprflow.Python.Int.{ℤ}
use tinydb_sueprflow.Locking.{LockHandle, LockManager, release, acquire}
use tinydb_sueprflow.Storage.Bytes.{Bytes}
use tinydb_sueprflow.Storage.State.{State, Codec}
use tinydb_sueprflow.Storage.Actions.{
  Storage, Action, Method, pure, raise, lift, continue, ◌>>=◌, ◌>>◌, raise_when,
}
use tinydb_sueprflow.Storage.Snapshot.{
  snapshot_file, restore_file_snapshot, begin_transaction_recovery_snapshot,
  clear_transaction_recovery_snapshot,
}

-- `_ACTIVE_WRITERS`, resolved paths
abbrev pub active_in : Text → List Text → Bool
active_in path writers = any (text_eq path) writers

abbrev pub discard : Text → List Text → List Text
discard path writers = filter (λ other. not (text_eq path other)) writers

-- `_release_same_process_writer`
abbrev pub release_same_process_writer : Option Text → List Text → List Text
release_same_process_writer none writers = writers
release_same_process_writer (some path) writers = discard path writers

-- A transaction manager, with its storage, the active writers of the process and the world outside.
pub record Session (W : Type 0) : Type 0 where
  pub storage : Storage
  pub lock_path : Text
  pub lock_manager : LockManager W
  pub lock_handle : Option (LockHandle W)
  pub snapshot : Option Bytes
  pub in_transaction : Bool
  pub writer_path : Option Text
  pub active_writers : List Text
  pub world : W

module _ {W : Type 0} where
  -- a method of the storage
  abbrev pub on_storage : {A : Type 0} → Action A → Method (Session W) A
  on_storage action s = let (r, storage) = action s.storage in (r, record s { storage = storage })

  -- `except Exception`
  abbrev pub handle_error :
      {A : Type 0} → (Error → Method (Session W) A) → Result A × Session W → Result A × Session W
  handle_error handler (ok a, s) = (ok a, s)
  handle_error handler (err e, s) = handler e s

  -- `_acquire_same_process_writer`
  unfoldable pub acquire_same_process_writer : Text → Method (Session W) Text
  unfolding text_eq
  acquire_same_process_writer path s =
      if active_in path s.active_writers
      then (err (transaction_error writer_active), s)
      else (ok path, record s { active_writers = path ∷ s.active_writers })

  abbrev pub release_handle : Option (LockHandle W) → W → W
  release_handle none w = w
  release_handle (some handle) w = (release handle w).1

  unfoldable pub release_writer : Session W → Session W
  unfolding text_eq release
  release_writer s = record s {
    active_writers = release_same_process_writer s.writer_path s.active_writers;
    writer_path = none;
    world = release_handle s.lock_handle s.world;
    lock_handle = none;
  }

  -- `acquire_exclusive` of the lock manager, under `except Exception`
  abbrev pub keep_handle : Session W → Result (LockHandle W) × W → Result (Unit {0}) × Session W
  keep_handle s (ok handle, w) = (ok tt, record s { lock_handle = some handle; world = w })
  keep_handle s (err e, w) = (err e, release_writer (record s { world = w }))

  unfoldable pub acquire_writer : Method (Session W) (Unit {0})
  unfolding acquire_same_process_writer release_writer acquire
  acquire_writer s = acquired (acquire_same_process_writer s.lock_path s)
    where
      acquired : Result Text × Session W → Result (Unit {0}) × Session W
      acquired (err e, s') = (err concurrency_error, s')
      acquired (ok path, s') =
          keep_handle (record s' { writer_path = some path }) (acquire s'.lock_manager s'.world)

  unfoldable pub finish_transaction : Session W → Session W
  unfolding release_writer
  finish_transaction s = release_writer (record s { snapshot = none; in_transaction = false })

  -- `finally: self._finish_transaction()`
  abbrev pub finally_finish : Result (Unit {0}) × Session W → Result (Unit {0}) × Session W
  finally_finish (r, s) = (r, finish_transaction s)

  abbrev pub require_active : Method (Session W) (Unit {0})
  require_active s = raise_when (not s.in_transaction) (transaction_error no_transaction) s

  abbrev pub put_snapshot : Option Bytes → Method (Session W) (Unit {0})
  put_snapshot snapshot s = (ok tt, record s { snapshot = snapshot })

  abbrev pub put_in_transaction : Bool → Method (Session W) (Unit {0})
  put_in_transaction in_transaction s = (ok tt, record s { in_transaction = in_transaction })

  module _ ⦃codec : Codec State⦄ where
    -- the part of `begin` that runs with the writer
    abbrev pub begin_with_writer : Method (Session W) (Unit {0})
    begin_with_writer = do
      snapshot ← on_storage snapshot_file
      put_snapshot (some snapshot)
      on_storage begin_transaction_recovery_snapshot
      put_in_transaction true

    abbrev pub give_up : Error → Method (Session W) (Unit {0})
    give_up e s = (err e, release_writer (record s { snapshot = none }))

    unfoldable pub begin : Method (Session W) (Unit {0})
    unfolding acquire_writer release_writer snapshot_file begin_transaction_recovery_snapshot
    begin = do
      (λ s. raise_when s.in_transaction (transaction_error already_active) s)
      acquire_writer
      (λ s. handle_error give_up (begin_with_writer s))

    unfoldable pub commit : Method (Session W) (Unit {0})
    unfolding clear_transaction_recovery_snapshot finish_transaction
    commit = do
      require_active
      (λ s. finally_finish (on_storage clear_transaction_recovery_snapshot s))

    abbrev roll_back_to : Option Bytes → Method (Session W) (Unit {0})
    roll_back_to none s = raise (transaction_error snapshot_missing) s
    roll_back_to (some snapshot) s = finally_finish (on_storage (restore_file_snapshot snapshot) s)

    unfoldable pub rollback : Method (Session W) (Unit {0})
    unfolding restore_file_snapshot finish_transaction
    rollback = do require_active; (λ s. roll_back_to s.snapshot s)

    unfoldable pub close : Method (Session W) (Unit {0})
    unfolding rollback
    close s = if s.in_transaction then rollback s else (ok tt, s)

    -- A `with transactions.statement():` around a body.
    abbrev restore_savepoint : Bytes → Error → Method (Session W) (Unit {0})
    restore_savepoint savepoint e = do on_storage (restore_file_snapshot savepoint); raise e

    abbrev abandon : Error → Method (Session W) (Unit {0})
    abandon e = do rollback; raise e

    abbrev commit_or_abandon : Result (Unit {0}) × Session W → Result (Unit {0}) × Session W
    commit_or_abandon (ok a, s) = commit s
    commit_or_abandon (err e, s) = abandon e s

    unfoldable pub statement : Method (Session W) (Unit {0}) → Method (Session W) (Unit {0})
    unfolding snapshot_file restore_file_snapshot begin commit rollback
    statement body s = if s.in_transaction then in_outer s else in_own s
      where
        in_outer : Method (Session W) (Unit {0})
        in_outer = do
          savepoint ← on_storage snapshot_file
          (λ s'. handle_error (restore_savepoint savepoint) (body s'))

        in_own : Method (Session W) (Unit {0})
        in_own = do begin; (λ s'. commit_or_abandon (body s'))
