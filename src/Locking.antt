-- ===== src/Locking.antt =====
-- tinydb/locking.py: exclusive locks on a file next to the database, acquired by trying again.
pub mod Waiting
use tinydb_sueprflow.Prelude.{
  ℕ, zero, suc, ◌+◌, ◌≡◌, refl, Text, text_eq, Bool, true, false, ◌||◌, not, Option, none, some,
  List, [], ◌∷◌, leb, if◌then◌else◌,
}
use tinydb_sueprflow.Errors.{
  Error, Result, ok, err, raise_if, value_error, concurrency_error, out_of_fuel,
}
use tinydb_sueprflow.Python.Int.{ℤ, pos, negsuc}

-- What the code uses of the operating system, whose state is a `W`: to open a lock file, to try to
-- lock it without waiting (`false` stands for an OSError), to unlock it, to close it, the clock, and
-- `time.sleep(0.01)`. Opening the lock file is taken to succeed. Times are in units of 10 milliseconds.
pub record Os (W : Type 0) : Type 0 where
  pub open_lock_file : Text → W → W
  pub try_lock : W → Bool × W
  pub unlock : W → W
  pub close_lock_file : W → W
  pub monotonic : W → ℕ × W
  pub sleep : W → W

-- `LockHandle`
pub record LockHandle (W : Type 0) : Type 0 where
  pub release_callback : Option (W → W)
  pub released : Bool

module _ {W : Type 0} where
  abbrev pub new_handle : Option (W → W) → LockHandle W
  new_handle callback = record { release_callback = callback; released = false }

  abbrev run_callback : Option (W → W) → W → W
  run_callback none w = w
  run_callback (some callback) w = callback w

  -- `release`
  unfoldable pub release : LockHandle W → W → LockHandle W × W
  release handle w =
      if handle.released
      then (handle, w)
      else (record handle { released = true }, run_callback handle.release_callback w)

-- `LockAdapter`
pub record LockAdapter (W : Type 0) : Type 0 where
  pub acquire_exclusive : Text → Option ℤ → W → Result (LockHandle W) × W

-- `FakeLockAdapter`
abbrev pub fake_lock_adapter : {W : Type 0} → LockAdapter W
fake_lock_adapter = record { acquire_exclusive = λ path timeout w. (ok (new_handle none), w) }

-- `PlatformLockAdapter.__init__`
pub data Platform : Type 0 where
  posix windows : Platform

unfoldable pub platform_named : Text → Result Platform
unfolding text_eq
platform_named name =
    if text_eq name posix_name
    then ok posix
    else if text_eq name windows_name
    then ok windows
    else err value_error
  where
    posix_name : Text
    posix_name = b'p' ∷ b'o' ∷ b's' ∷ b'i' ∷ b'x' ∷ []

    windows_name : Text
    windows_name = b'w' ∷ b'i' ∷ b'n' ∷ b'd' ∷ b'o' ∷ b'w' ∷ b's' ∷ []

abbrev pub is_over : Option ℕ → ℕ → Bool
is_over none now = false
is_over (some deadline) now = leb deadline now

module _ {W : Type 0} ⦃os : Os W⦄ where
  -- `_unlock_and_close`, for a call of the operating system that unlocks the file: an OSError of that call,
  -- which is raised once the file is closed, is not modelled.
  abbrev pub unlock_and_close : W → W
  unlock_and_close w = os.close_lock_file (os.unlock w)

  abbrev pub locked_handle : LockHandle W
  locked_handle = new_handle (some unlock_and_close)

  -- the clock is only read where there is a deadline
  abbrev pub read_clock : Option ℕ → W → ℕ × W
  read_clock none w = (0, w)
  read_clock (some deadline) w = os.monotonic w

  -- the `while True` of `acquire_exclusive`, for so many rounds
  unfoldable pub acquire_loop : ℕ → Option ℕ → W → Result (LockHandle W) × W
  acquire_loop zero deadline w = (err out_of_fuel, w)
  acquire_loop (suc rounds) deadline w =
      let (locked, w1) = os.try_lock w in
      elim locked [
        | true ↦ (ok locked_handle, w1)
        | false ↦
            (let (now, w2) = read_clock deadline w1 in
              elim (is_over deadline now) [
                | true ↦ (err concurrency_error, os.close_lock_file w2)
                | false ↦ acquire_loop rounds deadline (os.sleep w2)
              ])
      ]

  -- `path` is the path of the lock file.
  unfoldable pub acquire_exclusive : ℕ → Text → Option ℤ → W → Result (LockHandle W) × W
  unfolding acquire_loop
  acquire_exclusive rounds path (some (negsuc n)) w = (err value_error, w)
  acquire_exclusive rounds path none w = acquire_loop rounds none (os.open_lock_file path w)
  acquire_exclusive rounds path (some (pos timeout)) w =
      let (now, w') = os.monotonic (os.open_lock_file path w) in
      acquire_loop rounds (some (now + timeout)) w'

  -- `PlatformLockAdapter`
  abbrev pub platform_lock_adapter : ℕ → LockAdapter W
  platform_lock_adapter rounds = record { acquire_exclusive = acquire_exclusive rounds }

-- `LockManager`
pub record LockManager (W : Type 0) : Type 0 where
  pub path : Text
  pub timeout : Option ℤ
  pub adapter : LockAdapter W

unfoldable pub acquire : {W : Type 0} → LockManager W → W → Result (LockHandle W) × W
acquire manager w = manager.adapter.acquire_exclusive manager.path manager.timeout w
