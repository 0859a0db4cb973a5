-- ===== src/Storage/Reopen.antt =====
-- tinydb/storage/file.py: opening a file that a transaction was cut off in.
use tinydb_sueprflow.Prelude.{
  ℕ, zero, suc, ◌+◌, ◌≤◌, ◌≡◌, refl, sym, ap, ◌∙◌, false, true, Bool, not, ◌==◌, ltb, text_eq, none,
  some, [], ◌∷◌, length, length-take, take, arith, leb→ltb_false, is_some, if◌then◌else◌, ==_iff,
}
use tinydb_sueprflow.Errors.{Error, Result, ok, err}
use tinydb_sueprflow.Page.{unpack_size}
use tinydb_sueprflow.Storage.Bytes.{Bytes, slice}
use tinydb_sueprflow.Storage.State.{State, Codec}
use tinydb_sueprflow.Storage.Actions.{Storage, RecoveryStatus, clean, discarded_incomplete}
use tinydb_sueprflow.Storage.Header.{read_header, file_magic, load_state}
use tinydb_sueprflow.Storage.Open.{
  validate_existing_file, recover_marker, recover_unlocked, recover_incomplete_transaction,
  open_existing,
}
use tinydb_sueprflow.Storage.Restore.{restore_file_snapshot_ok}
use tinydb_sueprflow.Storage.Recovery.{Recoverable, marker_of, read_snapshot_lem}

pub take-take : (m n : ℕ) (xs : Bytes) → m ≤ n → take m (take n xs) ≡ take m xs
take-take zero n xs h = refl
take-take (suc m) zero xs h = absurd (omega arith)
take-take (suc m) (suc n) [] h = refl
take-take (suc m) (suc n) (x ∷ xs) h = ap (λ (l : Bytes). x ∷ l) (take-take m n xs (omega arith))

pub slice-take : (i m n : ℕ) (xs : Bytes) → i + m ≤ n → slice i m (take n xs) ≡ slice i m xs
slice-take zero m n xs h = take-take m n xs (omega arith)
slice-take (suc i) m zero xs h = absurd (omega arith)
slice-take (suc i) m (suc n) [] h = refl
slice-take (suc i) m (suc n) (x ∷ xs) h = slice-take i m n xs (omega arith)

-- A chain of tests that was passed passed each of them.
passed :
    {A : Type 0} (full magic version size : Bool) (a b c d : Error) (r : Result A) (x : A)
    → (if not full
        then err a
        else if not magic
        then err b
        else if not version
        then err c
        else if size
        then err d
        else r)
      ≡ ok x
    → (full ≡ true) × (magic ≡ true) × (version ≡ true)
passed false magic version size a b c d r x e = cc e
passed true false version size a b c d r x e = cc e
passed true true false size a b c d r x e = cc e
passed true true true size a b c d r x e = (refl, refl, refl)

module _ ⦃codec : Codec State⦄ where
  -- A header that can be read is one that the file is accepted for.
  pub validate_existing_file-read_header :
      (file : Bytes) (state : State)
      → read_header file ≡ ok state
      → validate_existing_file file ≡ ok tt
  unfolding read_header validate_existing_file
  validate_existing_file-read_header file state e =
      let header = take 4096 file in
      let (full, magic, version) =
        passed (length header == 4096) (text_eq (take 7 header) file_magic)
          (unpack_size (slice 7 4 header) == 1) (ltb 4081 (unpack_size (slice 11 4 header))) _ _ _ _
          (load_state (slice 15 (unpack_size (slice 11 4 header)) header)) state e in
      let size : length header ≡ 4096 = (==_iff (length header) 4096).0 full in
      let long : ltb (length (take 11 file)) 11 ≡ false =
        leb→ltb_false (length (take 11 file)) 11
          (omega (arith, size, length-take 4096 file, length-take 11 file)) in
      let magic' : text_eq (take 7 file) file_magic ≡ true =
        ap (λ bytes. text_eq bytes file_magic) (sym (take-take 7 4096 file (omega arith)))
        ∙ magic in
      let version' : (unpack_size (slice 7 4 file) == 1) ≡ true =
        ap (λ bytes. unpack_size bytes == 1) (sym (slice-take 7 4 4096 file (omega arith)))
        ∙ version in
      rw (long, magic', version') refl

  -- An open storage of the file, with the metadata of its header.
  abbrev pub opened : Bytes → State → RecoveryStatus → Storage
  opened file state status = record {
    file = file;
    state = state;
    closed = false;
    recovery_state = status;
  }

  recover_unlocked_lem :
      (n : ℕ) (original file : Bytes) (before : State)
      → (held : Recoverable n original file) → read_header original ≡ ok before
      → recover_unlocked (opened file held.state clean)
        ≡ (ok tt, opened original before discarded_incomplete)
  unfolding recover_unlocked recover_marker
  recover_unlocked_lem n original file before held e =
      let s = opened file (record held.state { transaction = some (marker_of n original) }) clean in
      rw
        (
          held.marked,
          read_snapshot_lem n held.pages original s (refl, held.size) held.enough held.snapshot,
          restore_file_snapshot_ok original s before refl e,
        )
        refl

  recover_locked_lem :
      (file : Bytes) (state : State)
      → read_header file ≡ ok state
      → is_some state.transaction ≡ true
      → recover_incomplete_transaction (some (ok tt)) (opened file state clean)
        ≡ recover_unlocked (opened file state clean)
  unfolding recover_incomplete_transaction
  recover_locked_lem file state e active = rw (active, e) refl

  -- Opening a recoverable file succeeds, and makes it the original file again: its bytes and its
  -- metadata; nobody else being in a transaction, and with or without a lock that is acquired.
  pub open_existing-Recoverable :
      (n : ℕ) (original file : Bytes) (before : State)
      → Recoverable n original file
      → read_header original ≡ ok before
      → (open_existing false none file ≡ (ok tt, opened original before discarded_incomplete))
        × (open_existing false (some (ok tt)) file
            ≡ (ok tt, opened original before discarded_incomplete))
  unfolding open_existing recover_incomplete_transaction
  open_existing-Recoverable n original file before held e =
      let accepted = validate_existing_file-read_header file held.state held.header in
      let recovers = recover_unlocked_lem n original file before held e in
      let active : is_some held.state.transaction ≡ true = ap is_some held.marked in
      (
        rw (accepted, held.header, active, recovers) refl,
        rw
            (
              accepted,
              held.header,
              active,
              recover_locked_lem file held.state held.header active,
              recovers,
            )
            refl,
      )
