-- ===== src/Tests/Locks.antt =====
-- The theorems on locks and transactions at a small database.
use tinydb_sueprflow.Prelude.{
  ℕ, zero, suc, ◌≤◌, ◌≡◌, ◌≢◌, refl, Bool, true, false, ◌⊎◌, none, some, [], ◌∷◌, codes, arith,
}
use tinydb_sueprflow.Errors.{Error, ok, err, concurrency_error, type_error}
use tinydb_sueprflow.Python.Int.{pos}
use tinydb_sueprflow.Locking.{
  Os, LockHandle, acquire, acquire_exclusive, release, locked_handle, new_handle, fake_lock_adapter,
}
use tinydb_sueprflow.Locking.Waiting.{
  ClockLaws, release-release, acquire_exclusive-ends, acquire_exclusive-FreeAfter,
}
use tinydb_sueprflow.Storage.State.{empty_state}
use tinydb_sueprflow.Storage.Actions.{Method, require_open}
use tinydb_sueprflow.Storage.Pages.{allocate_page}
use tinydb_sueprflow.Transactions.{Session, begin, statement, on_storage}
use tinydb_sueprflow.Transactions.Statements.{FailedStatement, statement_fails}
use tinydb_sueprflow.Transactions.Outcomes.{Idle, Began, Refused, begin_either}
use tinydb_sueprflow.Transactions.Writers.{Process, view, after, started, stepped, begins}
use tinydb_sueprflow.Transactions.Exclusion.{one_writer}
use tinydb_sueprflow.Tests.Codecs.{state_codec, state_laws}
use tinydb_sueprflow.Tests.Files.{new_storage, new_pages, new_read, marked_fits}

-- A lock that another process frees after some tries, and the time.
abbrev try_to_lock : (ℕ × ℕ) → Bool × (ℕ × ℕ)
try_to_lock (zero, now) = (true, (zero, now))
try_to_lock (suc tries, now) = (false, (tries, now))

instance abbrev some_os : Os (ℕ × ℕ)
some_os = record {
  open_lock_file = λ path w. w;
  try_lock = try_to_lock;
  unlock = λ w. w;
  close_lock_file = λ w. w;
  monotonic = λ w. (w.1, w);
  sleep = λ w. (w.0, suc w.1);
}

later_try : (w : ℕ × ℕ) → w.1 ≤ (try_to_lock w).1.1
later_try (zero, now) = omega arith
later_try (suc tries, now) = omega arith

instance some_clock : ClockLaws (ℕ × ℕ)
some_clock = record {
  time = λ w. w.1;
  read = λ w. refl;
  later-read = λ w. omega arith;
  later-try_lock = later_try;
  later-sleep = λ w. omega arith;
}

acquire_exclusive-ends_example :
    ((acquire_exclusive {W = ℕ × ℕ} 4 (codes "db") (some (pos 3)) (2, 10)).0 ≡ ok locked_handle)
    ⊎ ((acquire_exclusive {W = ℕ × ℕ} 4 (codes "db") (some (pos 3)) (2, 10)).0
        ≡ err concurrency_error)
acquire_exclusive-ends_example = acquire_exclusive-ends 4 3 (codes "db") (2, 10) (omega arith)

acquire_exclusive-FreeAfter_example :
    (acquire_exclusive {W = ℕ × ℕ} 4 (codes "db") none (2, 10)).0 ≡ ok locked_handle
acquire_exclusive-FreeAfter_example =
    acquire_exclusive-FreeAfter {W = ℕ × ℕ} 4 2 (codes "db") (2, 10)
      (refl, refl, (refl, refl, refl)) (omega arith)

abbrev counting_handle : LockHandle ℕ
counting_handle = new_handle (some (λ n. suc n))

release-release_example :
    let (handle', w') = release counting_handle 5 in release handle' w' ≡ (handle', w')
release-release_example = release-release counting_handle 5

-- A manager of the file `db`.
abbrev manager : Session ℕ
manager = record {
  storage = new_storage;
  lock_path = codes "db";
  lock_manager = record { path = codes "db"; timeout = none; adapter = fake_lock_adapter };
  lock_handle = none;
  snapshot = none;
  in_transaction = false;
  writer_path = none;
  active_writers = [];
  world = 0;
}

begin_either_example :
    (((begin manager).0 ≡ ok tt) × Began manager (begin manager).1)
    ⊎ ((e : Error) × ((begin manager).0 ≡ err e) × Refused manager (begin manager).1)
begin_either_example = begin_either manager (refl, refl, refl)

-- A body that fills a page and then raises.
abbrev failing_body : Method (Session ℕ) (Unit {0})
failing_body s = (err type_error, ((on_storage (allocate_page (1 ∷ 2 ∷ []))) s).1)

statement_fails_example :
    let (result, s') = statement failing_body manager in
    FailedStatement type_error new_storage.file empty_state
      (failing_body (begin manager).1).1
      (result, s')
    × (s'.in_transaction ≡ false)
    × (s'.active_writers ≡ [])
unfolding acquire begin require_open allocate_page
statement_fails_example =
    statement_fails 0 manager (failing_body (begin manager).1).1 (new_handle none) 0 type_error
      empty_state failing_body (refl, refl, refl, new_pages, refl, marked_fits) new_read refl
      (refl, refl, refl, refl)

-- Two managers, of different files.
abbrev two_managers : ℕ → Session ℕ
two_managers zero = manager
two_managers (suc n) = record manager { lock_path = codes "other" }

quiet_managers : (k : ℕ) → Idle (two_managers k)
quiet_managers zero = (refl, refl, refl)
quiet_managers (suc n) = (refl, refl, refl)

abbrev start : Process ℕ
start = record { manager = two_managers; active_writers = []; world = 0 }

abbrev first_begun : Process ℕ
first_begun = after 0 (begin (view 0 start)).1 start

abbrev both_begun : Process ℕ
both_begun = after 1 (begin (view 1 first_begun)).1 first_begun

one_writer_example : (both_begun.manager 0).lock_path ≢ (both_begun.manager 1).lock_path
unfolding begin require_open
one_writer_example =
    one_writer start both_begun 0 1 quiet_managers refl
      (stepped first_begun both_begun (stepped start first_begun started (begins 0 start))
        (begins 1 first_begun))
      (omega arith) refl refl
