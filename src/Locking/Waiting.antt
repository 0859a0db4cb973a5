-- ===== src/Locking/Waiting.antt =====
-- tinydb/locking.py: how long acquiring a lock takes, and that a lock is released once.
use tinydb_sueprflow.Prelude.{
  ℕ, zero, suc, ◌+◌, ◌≤◌, ◌<◌, ◌≡◌, refl, ◌⊎◌, inl, inr, Text, true, false, Option, none, some, leb,
  arith, Bool-cases,
}
use tinydb_sueprflow.Errors.{Result, ok, err, concurrency_error}
use tinydb_sueprflow.Python.Int.{pos}
use tinydb_sueprflow.Locking.{
  Os, LockHandle, release, acquire_loop, acquire_exclusive, locked_handle, is_over, read_clock,
}

-- Releasing a handle a second time does nothing, its callback is not run again.
pub release-release :
    {W : Type 0} (handle : LockHandle W) (w : W)
    → let (handle', w') = release handle w in release handle' w' ≡ (handle', w')
unfolding release
release-release handle w = elim (Bool-cases handle.released) [
  | inl released ↦ rw released refl
  | inr held ↦ rw held refl
]

module _ {W : Type 0} ⦃os : Os W⦄ where
  -- The lock is free at try number `k`, counted from 0, and the deadline does not pass before.
  abbrev pub FreeAfter : ℕ → Option ℕ → W → Type 0
  FreeAfter zero deadline w = (os.try_lock w).0 ≡ true
  FreeAfter (suc k) deadline w =
      ((os.try_lock w).0 ≡ false)
      × (is_over deadline (read_clock deadline (os.try_lock w).1).0 ≡ false)
      × FreeAfter k deadline (os.sleep (read_clock deadline (os.try_lock w).1).1)

  acquire_loop-FreeAfter :
      (rounds k : ℕ) (deadline : Option ℕ) (w : W)
      → FreeAfter k deadline w
      → k < rounds
      → (acquire_loop rounds deadline w).0 ≡ ok locked_handle
  unfolding acquire_loop
  acquire_loop-FreeAfter zero k deadline w free h = absurd (omega arith)
  acquire_loop-FreeAfter (suc rounds) zero deadline w free h = rw (acquire_loop, free) refl
  acquire_loop-FreeAfter (suc rounds) (suc k) deadline w free h =
      rw (acquire_loop, free.0, free.1)
        (acquire_loop-FreeAfter rounds k deadline
          (os.sleep (read_clock deadline (os.try_lock w).1).1) free.2 (omega arith))

-- The clock goes on: while the operating system is called, and by one unit while the thread sleeps.
pub record ClockLaws (W : Type 0) ⦃os : Os W⦄ : Type 0 where
  pub time : W → ℕ
  pub read : (w : W) → (os.monotonic w).0 ≡ time w
  pub later-read : (w : W) → time w ≤ time ((os.monotonic w).1)
  pub later-try_lock : (w : W) → time w ≤ time ((os.try_lock w).1)
  pub later-sleep : (w : W) → time w < time (os.sleep w)

module _ {W : Type 0} ⦃os : Os W⦄ ⦃clock : ClockLaws W⦄ where
  Ended : Result (LockHandle W) × W → Type 0
  Ended (result, w) = (result ≡ ok locked_handle) ⊎ (result ≡ err concurrency_error)

  acquire_loop-Ended :
      (rounds deadline : ℕ) (w : W)
      → 0 < rounds
      → deadline < clock.time w + rounds
      → Ended (acquire_loop rounds (some deadline) w)
  unfolding acquire_loop Ended
  acquire_loop-Ended zero deadline w some_round h = absurd (omega arith)
  acquire_loop-Ended (suc rounds) deadline w some_round h =
      let w1 = (os.try_lock w).1 in
      let now = (os.monotonic w1).0 in
      let w2 = (os.monotonic w1).1 in
      elim (Bool-cases (os.try_lock w).0) [
        | inl free ↦ rw (acquire_loop, free) (inl refl)
        | inr taken ↦ elim (Bool-cases (leb deadline now)) [
          | inl over ↦ rw (acquire_loop, taken, over) (inr refl)
          | inr early ↦
              let before : now < deadline = ground (arith, early) in
              let passed : clock.time w < clock.time (os.sleep w2) =
                omega (arith, clock.later-try_lock w, clock.later-read w1, clock.later-sleep w2) in
              let not_yet : clock.time w ≤ now =
                omega (arith, clock.later-try_lock w, clock.read w1) in
              rw (acquire_loop, taken, early)
                (acquire_loop-Ended rounds deadline (os.sleep w2) (omega arith) (omega arith))
        ]
      ]

  -- With a timeout of so many units, `acquire_exclusive` needs at most one round more than that, whatever
  -- the lock does, as the clock goes on: it returns a handle or raises the ConcurrencyError.
  pub acquire_exclusive-ends :
      (rounds timeout : ℕ) (path : Text) (w : W)
      → timeout < rounds
      → ((acquire_exclusive rounds path (some (pos timeout)) w).0 ≡ ok locked_handle)
        ⊎ ((acquire_exclusive rounds path (some (pos timeout)) w).0 ≡ err concurrency_error)
  unfolding acquire_exclusive Ended
  acquire_exclusive-ends rounds timeout path w h =
      let w0 = os.open_lock_file path w in
      acquire_loop-Ended rounds ((os.monotonic w0).0 + timeout) (os.monotonic w0).1 (omega arith)
        (omega (arith, clock.read w0, clock.later-read w0))

module _ {W : Type 0} ⦃os : Os W⦄ where
  -- Without a timeout, and with as many rounds as are asked for: where the lock is free at some try, `k`
  -- rounds after the first one, `acquire_exclusive` returns a handle.
  pub acquire_exclusive-FreeAfter :
      (rounds k : ℕ) (path : Text) (w : W)
      → FreeAfter k none (os.open_lock_file path w)
      → k < rounds
      → (acquire_exclusive rounds path none w).0 ≡ ok locked_handle
  unfolding acquire_exclusive
  acquire_exclusive-FreeAfter rounds k path w free h =
      acquire_loop-FreeAfter rounds k none (os.open_lock_file path w) free h
