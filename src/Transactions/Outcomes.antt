-- ===== src/Transactions/Outcomes.antt =====
-- tinydb/transaction.py: what `begin` and the ends of a transaction do to the manager, on every path.
use tinydb_sueprflow.Prelude.{
  ◌≡◌, refl, sym, ap, subst, false, true, ◌⊎◌, inl, inr, Option, none, some, ◌∷◌, Bool-cases,
  Option-cases, is_some, if◌then◌else◌,
}
use tinydb_sueprflow.Errors.{Error, Result, ok, err, concurrency_error}
use tinydb_sueprflow.Locking.{acquire}
use tinydb_sueprflow.Storage.Bytes.{Bytes}
use tinydb_sueprflow.Storage.State.{State, Codec}
use tinydb_sueprflow.Storage.Actions.{Storage}
use tinydb_sueprflow.Storage.Snapshot.{snapshot_file, begin_transaction_recovery_snapshot}
use tinydb_sueprflow.Transactions.{
  Session, active_in, acquire_same_process_writer, release_writer, acquire_writer,
  finish_transaction, begin, begin_with_writer, commit, rollback, close, release_handle,
  release_same_process_writer,
}
use tinydb_sueprflow.Transactions.Statements.{with_writer, discard_own, acquire_writer_ok}

-- A method returns or raises.
pub outcome :
    {A S : Type 0} (p : Result A × S)
    → ((a : A) × (s : S) × (p ≡ (ok a, s))) ⊎ ((e : Error) × (s : S) × (p ≡ (err e, s)))
outcome (ok a, s) = inl (a, s, refl)
outcome (err e, s) = inr (e, s, refl)

module _ {W : Type 0} where
  -- A manager that is not in a transaction.
  abbrev pub Idle : Session W → Type 0
  Idle s = (s.in_transaction ≡ false) × (s.writer_path ≡ none) × (s.lock_handle ≡ none)

  -- The manager of `s` became the writer, and is in a transaction.
  abbrev pub Began : Session W → Session W → Type 0
  Began s s' =
      (active_in s.lock_path s.active_writers ≡ false)
      × (s'.active_writers ≡ s.lock_path ∷ s.active_writers)
      × (s'.in_transaction ≡ true)
      × (s'.writer_path ≡ some s.lock_path)
      × (is_some s'.snapshot ≡ true)
      × (s'.lock_path ≡ s.lock_path)

  -- Nothing is held.
  abbrev pub Refused : Session W → Session W → Type 0
  Refused s s' = (s'.active_writers ≡ s.active_writers) × Idle s' × (s'.lock_path ≡ s.lock_path)

  acquire_writer_busy :
      (s : Session W)
      → active_in s.lock_path s.active_writers ≡ true
      → acquire_writer s ≡ (err concurrency_error, s)
  unfolding acquire_writer acquire_same_process_writer
  acquire_writer_busy s busy = rw (acquire_writer, busy) refl

  -- The session after the writer was given up again.
  abbrev given_up : Session W → W → Session W
  given_up s w = record s {
    writer_path = none;
    lock_handle = none;
    world = release_handle s.lock_handle w;
  }

  acquire_writer_err :
      (s : Session W) (e : Error) (w : W)
      → active_in s.lock_path s.active_writers ≡ false
      → acquire s.lock_manager s.world ≡ (err e, w)
      → acquire_writer s ≡ (err e, given_up s w)
  unfolding acquire_writer acquire_same_process_writer release_writer
  acquire_writer_err s e w free failed =
      rw (acquire_writer, free, failed, discard_own s.lock_path s.active_writers free) refl

  module _ ⦃codec : Codec State⦄ where
    -- The session after its storage changed, and with what `begin` notes on success or on failure.
    abbrev begun_with : Session W → Bytes → Storage → Session W
    begun_with s snapshot storage = record s {
      storage = storage;
      snapshot = some snapshot;
      in_transaction = true;
    }

    begin_with_writer_either :
        (s : Session W)
        → ((snapshot : Bytes) × (storage : Storage) × (begin_with_writer s
              ≡ (ok tt, begun_with s snapshot storage)))
          ⊎ ((e : Error) × (snapshot : Option Bytes) × (storage : Storage) × (begin_with_writer s
                ≡ (err e, record s { storage = storage; snapshot = snapshot })))
    begin_with_writer_either s = elim (outcome (snapshot_file s.storage)) [
      | inr (e, storage, failed) ↦ inr (e, s.snapshot, storage, rw failed refl)
      | inl (snapshot, storage, taken) ↦
          elim (outcome (begin_transaction_recovery_snapshot storage)) [
            | inr (e, storage', failed) ↦ inr (e, some snapshot, storage', rw (taken, failed) refl)
            | inl (_, storage', marked) ↦ inl (snapshot, storage', rw (taken, marked) refl)
          ]
    ]

    -- A manager that is in no transaction and holds nothing begins one. Either that succeeds: then nobody
    -- had the writer of its path, it is the writer and in a transaction, with a snapshot; or an error is
    -- raised, of whatever call: then it is in no transaction, holds no writer and no lock, and the active
    -- writers are those from before.
    pub begin_either :
        (s : Session W)
        → (s.in_transaction ≡ false) × (s.writer_path ≡ none) × (s.lock_handle ≡ none)
        → (((begin s).0 ≡ ok tt) × Began s (begin s).1)
          ⊎ ((e : Error) × ((begin s).0 ≡ err e) × Refused s (begin s).1)
    unfolding begin release_writer
    begin_either s (idle, no_writer, no_handle) =
        let s0 : Session W = record s { in_transaction = false } in
        elim (Bool-cases (active_in s.lock_path s.active_writers)) [
          | inl busy ↦
              rw (idle, acquire_writer_busy s0 busy)
                (inr (concurrency_error, refl, (refl, (refl, no_writer, no_handle), refl)))
          | inr free ↦ elim (outcome (acquire s.lock_manager s.world)) [
            | inr (e, w, failed) ↦
                rw (idle, acquire_writer_err s0 e w free failed)
                  (inr (e, refl, (refl, (refl, refl, refl), refl)))
            | inl (handle, w, locked) ↦ elim (begin_with_writer_either (with_writer s0 handle w)) [
              | inl (snapshot, storage, e) ↦ inl (
                  rw (idle, acquire_writer_ok s0 handle w free locked, e)
                    (refl, (free, refl, refl, refl, refl, refl)))
              | inr (e, snapshot, storage, failed) ↦
                  rw (idle, acquire_writer_ok s0 handle w free locked, failed)
                    (inr (
                      e,
                      refl,
                      (discard_own s.lock_path s.active_writers free, (refl, refl, refl), refl),
                    ))
            ]
          ]
        ]

  -- The transaction of `s` is over, and its writer is free.
  abbrev pub Ended : Session W → Session W → Type 0
  Ended s s' =
      Idle s'
      × (s'.active_writers ≡ release_same_process_writer s.writer_path s.active_writers)
      × (s'.lock_path ≡ s.lock_path)

  module _ ⦃codec : Codec State⦄ where
    pub commit-Ended : (s : Session W) → s.in_transaction ≡ true → Ended s (commit s).1
    unfolding commit finish_transaction release_writer
    commit-Ended s active = rw active ((refl, refl, refl), refl, refl)

    pub commit_idle : (s : Session W) → s.in_transaction ≡ false → (commit s).1 ≡ s
    unfolding commit
    commit_idle s idle = rw idle refl

    pub rollback_either :
        (s : Session W)
        → (Ended s (rollback s).1 × (s.in_transaction ≡ true)) ⊎ ((rollback s).1 ≡ s)
    unfolding rollback finish_transaction release_writer
    rollback_either s = elim (Bool-cases s.in_transaction) [
      | inr idle ↦ rw idle (inr refl)
      | inl active ↦ elim (Option-cases s.snapshot) [
        | inl missing ↦ rw (active, missing) (inr refl)
        | inr (snapshot, present) ↦
            rw (active, present) (inl (((refl, refl, refl), refl, refl), refl))
      ]
    ]

    close_active : (s : Session W) → s.in_transaction ≡ true → close s ≡ rollback s
    unfolding close
    close_active s active =
        let nothing : Result (Unit {0}) × Session W = (ok tt, s) in
        ap (λ test. if test then rollback s else nothing) active

    pub close_either :
        (s : Session W) → (Ended s (close s).1 × (s.in_transaction ≡ true)) ⊎ ((close s).1 ≡ s)
    unfolding close
    close_either s = elim (Bool-cases s.in_transaction) [
      | inr idle ↦ inr (rw idle refl)
      | inl active ↦
          subst
            (λ (p : Result (Unit {0}) × Session W).
              (Ended s p.1 × (s.in_transaction ≡ true)) ⊎ (p.1 ≡ s))
            (sym (close_active s active)) (rollback_either s)
    ]

    pub begin_active : (s : Session W) → s.in_transaction ≡ true → (begin s).1 ≡ s
    unfolding begin
    begin_active s active = rw active refl
