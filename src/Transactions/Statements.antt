-- ===== src/Transactions/Statements.antt =====
-- tinydb/transaction.py: a statement takes effect as a whole or not at all.
use tinydb_sueprflow.Prelude.{
  ℕ, ◌≡◌, refl, sym, ap, subst, false, true, Bool, ◌||◌, Text, text_eq, text_eq_refl, none, some,
  List, [], ◌∷◌, arith, ◌⊎◌, inl, inr, Bool-cases,
}
use tinydb_sueprflow.Errors.{Error, Result, ok, err, storage_error, storage_closed}
use tinydb_sueprflow.Locking.{LockHandle, acquire}
use tinydb_sueprflow.Storage.Bytes.{Bytes}
use tinydb_sueprflow.Storage.State.{State, Codec, StateLaws}
use tinydb_sueprflow.Storage.Actions.{Method, require_open}
use tinydb_sueprflow.Storage.Header.{read_header}
use tinydb_sueprflow.Storage.HeaderRoundTrip.{Fits, persisted}
use tinydb_sueprflow.Storage.Snapshot.{restore_file_snapshot}
use tinydb_sueprflow.Storage.PageLaws.{HasPages}
use tinydb_sueprflow.Storage.Restore.{restore_file_snapshot_ok}
use tinydb_sueprflow.Storage.Recovery.{marked_state, begun, begin_lem, snapshot_file_lem}
use tinydb_sueprflow.Transactions.{
  Session, active_in, discard, acquire_same_process_writer, release_writer, acquire_writer,
  finish_transaction, begin, rollback, statement,
}

or-false : (a b : Bool) → (a || b) ≡ false → (a ≡ false) × (b ≡ false)
or-false a b h = ground (arith, h)

discard_absent :
    (path : Text) (writers : List Text)
    → active_in path writers ≡ false
    → discard path writers ≡ writers
discard_absent path [] h = refl
discard_absent path (other ∷ writers) h =
    let (apart, others) = or-false (text_eq path other) (active_in path writers) h in
    rw (apart, discard_absent path writers others) refl

pub discard_own :
    (path : Text) (writers : List Text)
    → active_in path writers ≡ false
    → discard path (path ∷ writers) ≡ writers
discard_own path writers h = rw (text_eq_refl path, discard_absent path writers h) refl

module _ {W : Type 0} where
  -- The session that has the writer.
  abbrev pub with_writer : Session W → LockHandle W → W → Session W
  with_writer s handle w = record s {
    writer_path = some s.lock_path;
    active_writers = s.lock_path ∷ s.active_writers;
    lock_handle = some handle;
    world = w;
  }

  pub acquire_writer_ok :
      (s : Session W) (handle : LockHandle W) (w : W)
      → active_in s.lock_path s.active_writers ≡ false
      → acquire s.lock_manager s.world ≡ (ok handle, w)
      → acquire_writer s ≡ (ok tt, with_writer s handle w)
  unfolding acquire_writer acquire_same_process_writer
  acquire_writer_ok s handle w free e = rw (acquire_writer, free, e) refl

  module _ ⦃codec : Codec State⦄ ⦃laws : StateLaws⦄ where
    -- The session in a transaction.
    abbrev pub begun_session : ℕ → Session W → LockHandle W → W → Session W
    begun_session n s handle w = record (with_writer s handle w) {
      storage = begun n s.storage;
      snapshot = some s.storage.file;
      in_transaction = true;
    }

    begin_ok :
        (n : ℕ) (s : Session W) (handle : LockHandle W) (w : W)
        → s.in_transaction ≡ false
        → active_in s.lock_path s.active_writers ≡ false
        → acquire s.lock_manager s.world ≡ (ok handle, w)
        → HasPages n s.storage
        → s.storage.state.transaction ≡ none
        → Fits (marked_state n s.storage)
        → begin s ≡ (ok tt, begun_session n s handle w)
    unfolding begin
    begin_ok n s handle w idle free e pages no_marker fits =
        rw
          (
            idle,
            acquire_writer_ok (record s { in_transaction = false }) handle w free e,
            snapshot_file_lem s.storage pages.0,
            begin_lem n s.storage pages no_marker fits,
          )
          refl

    unfoldable restored_session : Session W → Bytes → State → Session W
    restored_session s original before =
        finish_transaction
          (record s { storage = record s.storage { file = original; state = before } })

    rollback_ok :
        (s : Session W) (original : Bytes) (before : State)
        → s.in_transaction ≡ true
        → s.snapshot ≡ some original
        → s.storage.closed ≡ false
        → read_header original ≡ ok before
        → rollback s ≡ (ok tt, restored_session s original before)
    unfolding rollback finish_transaction restored_session
    rollback_ok s original before active snapshot opened e =
        rw (active, snapshot, restore_file_snapshot_ok original s.storage before opened e) refl

    -- Nothing is restored in a closed storage; the manager is out of the transaction all the same.
    rollback_closed :
        (s : Session W) (original : Bytes)
        → s.in_transaction ≡ true
        → s.snapshot ≡ some original
        → s.storage.closed ≡ true
        → rollback s ≡ (err (storage_error storage_closed), finish_transaction s)
    unfolding rollback restore_file_snapshot require_open finish_transaction
    rollback_closed s original active snapshot closed = rw (active, snapshot, closed) refl

    statement_err :
        (s s1 s2 s3 : Session W) (e : Error) (body : Method (Session W) (Unit {0}))
        → s.in_transaction ≡ false
        → begin (record s { in_transaction = false }) ≡ (ok tt, s1)
        → body s1 ≡ (err e, s2)
        → rollback s2 ≡ (ok tt, s3)
        → statement body s ≡ (err e, s3)
    unfolding statement
    statement_err s s1 s2 s3 e body idle began raised rolled_back =
        rw (idle, began, raised, rolled_back) refl

    statement-rollback_err :
        (s s1 s2 s3 : Session W) (e e' : Error) (body : Method (Session W) (Unit {0}))
        → s.in_transaction ≡ false
        → begin (record s { in_transaction = false }) ≡ (ok tt, s1)
        → body s1 ≡ (err e, s2)
        → rollback s2 ≡ (err e', s3)
        → statement body s ≡ (err e', s3)
    unfolding statement
    statement-rollback_err s s1 s2 s3 e e' body idle began raised rolled_back =
        rw (idle, began, raised, rolled_back) refl

    -- What the body of a statement leaves alone: the attributes of the manager.
    abbrev pub SameManager : Session W → Session W → Type 0
    SameManager s s' =
        (s'.in_transaction ≡ s.in_transaction)
        × (s'.snapshot ≡ s.snapshot)
        × (s'.writer_path ≡ s.writer_path)
        × (s'.active_writers ≡ s.active_writers)

    -- A manager that can begin a transaction: none is active, nobody else writes, its lock is acquired,
    -- its storage is open with `n` pages, and the marker fits the header.
    abbrev pub CanBegin : ℕ → Session W → LockHandle W → W → Type 0
    CanBegin n s handle w =
        (s.in_transaction ≡ false)
        × (active_in s.lock_path s.active_writers ≡ false)
        × (acquire s.lock_manager s.world ≡ (ok handle, w))
        × HasPages n s.storage
        × (s.storage.state.transaction ≡ none)
        × Fits (marked_state n s.storage)

    -- How a statement ends whose body raised `e` in `s2`, by whether the storage was still open there.
    abbrev pub FailedStatement :
        Error → Bytes → State → Session W → Result (Unit {0}) × Session W → Type 0
    FailedStatement e original before s2 (result, s') =
        ((s2.storage.closed ≡ false)
          × (result ≡ err e)
          × (s'.storage.file ≡ original)
          × (s'.storage.state ≡ before))
        ⊎ ((s2.storage.closed ≡ true)
            × (result ≡ err (storage_error storage_closed))
            × (s'.storage ≡ s2.storage))

    -- A statement outside of a transaction, whose body raises and leaves the attributes of the manager alone.
    -- Where the body has not closed the storage, whatever else it did to it, the statement raises the error of the
    -- body, the file is, byte for byte, what it was before, and the metadata is what its header says. Where the
    -- body has closed the storage, the rollback raises in place of that error and restores nothing. In both
    -- cases the manager is not in a transaction, and the process has the active writers that it had.
    pub statement_fails :
        (n : ℕ) (s s2 : Session W) (handle : LockHandle W) (w : W) (e : Error) (before : State)
        (body : Method (Session W) (Unit {0}))
        → CanBegin n s handle w
        → read_header s.storage.file ≡ ok before
        → body ((begin s).1) ≡ (err e, s2)
        → SameManager ((begin s).1) s2
        → let (result, s') = statement body s in
          FailedStatement e s.storage.file before s2 (result, s')
          × (s'.in_transaction ≡ false)
          × (s'.active_writers ≡ s.active_writers)
    unfolding restored_session finish_transaction release_writer persisted
    statement_fails n s s2 handle w e before body (idle, free, lock, pages, no_marker, fits) h
          raised same =
        let began = begin_ok n s handle w idle free lock pages no_marker fits in
        let began' : begin (record s { in_transaction = false })
            ≡ (ok tt, begun_session n s handle w) =
          begin_ok n (record s { in_transaction = false }) handle w refl free lock pages no_marker
            fits in
        let s1 = begun_session n s handle w in
        let at_s1 : (begin s).1 ≡ s1 = ap (λ (p : Result (Unit {0}) × Session W). p.1) began in
        let (active, snapshot, writer, writers) = subst (λ from. SameManager from s2) at_s1 same in
        let raised' = subst (λ from. body from ≡ (err e, s2)) at_s1 raised in
        let as_before : (finish_transaction s2).active_writers ≡ s.active_writers =
          rw (writer, writers) (discard_own s.lock_path s.active_writers free) in
        let Ends : Result (Unit {0}) × Session W → Type 0 = λ p.
          FailedStatement e s.storage.file before s2 p
          × (p.1.in_transaction ≡ false)
          × (p.1.active_writers ≡ s.active_writers) in
        elim (Bool-cases s2.storage.closed) [
          | inl closed ↦
              subst Ends
                (sym (
                  statement-rollback_err s s1 s2 (finish_transaction s2) e
                    (storage_error storage_closed) body idle began' raised'
                    (rollback_closed s2 s.storage.file active snapshot closed)))
                (inr (closed, refl, refl), refl, as_before)
          | inr opened ↦
              subst Ends
                (sym (
                  statement_err s s1 s2 (restored_session s2 s.storage.file before) e body idle
                    began' raised' (rollback_ok s2 s.storage.file before active snapshot opened h)))
                (inl (opened, refl, refl, refl), refl, as_before)
        ]
