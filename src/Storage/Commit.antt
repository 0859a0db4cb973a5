-- ===== src/Storage/Commit.antt =====
-- tinydb/storage/file.py: a committed transaction, and opening the file after it.
use tinydb_sueprflow.Prelude.{
  ◌-◌, ◌≤◌, ◌≡◌, Option-cases, inl, inr, refl, sym, ap, subst, false, Bool, Option, none, some,
  length, drop, is_some,
}
use tinydb_sueprflow.Errors.{Result, ok}
use tinydb_sueprflow.Page.{page_size}
use tinydb_sueprflow.Storage.Bytes.{Bytes}
use tinydb_sueprflow.Storage.State.{Marker, State, SameState, Codec, StateLaws}
use tinydb_sueprflow.Storage.Actions.{Storage, clean}
use tinydb_sueprflow.Storage.Header.{header_fixed_size, read_header}
use tinydb_sueprflow.Storage.Snapshot.{clear_transaction_recovery_snapshot}
use tinydb_sueprflow.Storage.Open.{open_existing, recover_unlocked, recover_incomplete_transaction}
use tinydb_sueprflow.Storage.HeaderRoundTrip.{
  header_page, length-header_page, persisted, persist_state-Fits, header_page_read, drop-all,
}
use tinydb_sueprflow.Storage.PageLaws.{require_open_lem}
use tinydb_sueprflow.Storage.Reopen.{opened, validate_existing_file-read_header}

module _ ⦃codec : Codec State⦄ where
  recover_clean :
      (lock : Option (Result (Unit {0}))) (s : Storage)
      → is_some s.state.transaction ≡ false
      → recover_incomplete_transaction lock s ≡ (ok tt, s)
  unfolding recover_incomplete_transaction recover_unlocked
  recover_clean none s h = elim (Option-cases s.state.transaction) [
    | inl e ↦ rw e refl
    | inr (marker, e) ↦ cc (ap is_some e, h)
  ]
  recover_clean (some lock) s h = rw h refl

  open_clean :
      (live : Bool) (lock : Option (Result (Unit {0}))) (file : Bytes) (state : State)
      → read_header file ≡ ok state
      → is_some state.transaction ≡ false
      → open_existing live lock file ≡ (ok tt, opened file state clean)
  unfolding open_existing
  open_clean live lock file state e idle =
      rw
        (
          validate_existing_file-read_header file state e,
          e,
          idle,
          recover_clean lock (opened file state clean) idle,
        )
        refl

  module _ ⦃laws : StateLaws⦄ where
    -- The metadata without the marker.
    abbrev pub unmarked_state : Storage → State
    unmarked_state s = record s.state { transaction = none }

    -- In an open storage with a marker, whose metadata without it fits the header page, the marker is cleared.
    -- Opening the file then, with any lock and whoever else writes, needs no recovery: it keeps every
    -- byte of the file and gives the metadata without the marker, which is the same catalog and the same records
    -- under each table name. The pages are the ones from before.
    pub open_existing-commit :
        (s : Storage) (marker : Marker) (live : Bool) (lock : Option (Result (Unit {0})))
        → s.closed ≡ false
        → s.state.transaction ≡ some marker
        → length (codec.dumps (unmarked_state s)) ≤ page_size - header_fixed_size
        → let (result, s') = clear_transaction_recovery_snapshot s in
          (result ≡ ok tt)
          × ((state : State) × (open_existing live lock s'.file
                ≡ (ok tt, opened s'.file state clean))
              × SameState state (unmarked_state s))
          × (drop page_size s'.file ≡ drop page_size s.file)
    unfolding clear_transaction_recovery_snapshot persisted
    open_existing-commit s marker live lock is_open marked fits =
        let cleared = record s { state = unmarked_state s } in
        let run : clear_transaction_recovery_snapshot s ≡ (ok tt, persisted cleared) =
          rw (require_open_lem s is_open, ap is_some marked, persist_state-Fits cleared fits)
            refl in
        let file' = (persisted cleared).file in
        let now = laws.loaded (unmarked_state s) in
        let same = laws.loaded-SameState (unmarked_state s) in
        subst
          (λ (p : Result (Unit {0}) × Storage).
            (p.0 ≡ ok tt)
            × ((state : State) × (open_existing live lock p.1.file
                  ≡ (ok tt, opened p.1.file state clean))
                × SameState state (unmarked_state s))
            × (drop page_size p.1.file ≡ drop page_size s.file))
          (sym run)
          (
            refl,
            (
              now,
              open_clean live lock file' now
                  (header_page_read (unmarked_state s) (drop 4096 s.file) fits)
                  (ap is_some same.same_transaction),
              same,
            ),
            drop-all 4096 (header_page (unmarked_state s)) (drop 4096 s.file)
                (length-header_page (unmarked_state s) fits),
          )
