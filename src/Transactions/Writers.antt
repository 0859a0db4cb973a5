-- ===== src/Transactions/Writers.antt =====
-- tinydb/transaction.py: the transaction managers of a process, each with a storage of its own, in any
-- interleaving of their methods.
use tinydb_sueprflow.Prelude.{
  ℕ, ◌≡◌, ◌≢◌, refl, sym, ap, ◌∙◌, subst, false, true, ◌⊎◌, inl, inr, Text, text_eq, text_eq→eq,
  some, List, [], ◌∷◌, Bool-cases, ◌==◌, ==_iff, arith, if◌then◌else◌,
}
use tinydb_sueprflow.Storage.State.{State, Codec}
use tinydb_sueprflow.Storage.Actions.{Storage}
use tinydb_sueprflow.Transactions.{Session, active_in, discard, begin, commit, rollback, close}
use tinydb_sueprflow.Transactions.Outcomes.{
  Idle, Began, Ended, begin_either, begin_active, commit-Ended, commit_idle,
}

-- The managers, by number, and what they share. What a manager notes of the shared part is not used.
pub record Process (W : Type 0) : Type 0 where
  pub manager : ℕ → Session W
  pub active_writers : List Text
  pub world : W

module _ {W : Type 0} where
  -- A manager as its methods see it.
  abbrev pub view : ℕ → Process W → Session W
  view i p = record (p.manager i) { active_writers = p.active_writers; world = p.world }

  abbrev pub update : ℕ → Session W → (ℕ → Session W) → ℕ → Session W
  update i s manager j = if i == j then s else manager j

  -- The process after a method of one manager.
  abbrev pub after : ℕ → Session W → Process W → Process W
  after i s p = record {
    manager = update i s p.manager;
    active_writers = s.active_writers;
    world = s.world;
  }

  module _ ⦃codec : Codec State⦄ where
    pub data Step : Process W → Process W → Type 0 where
      begins : (i : ℕ) (p : Process W) → Step p (after i (begin (view i p)).1 p)
      commits : (i : ℕ) (p : Process W) → Step p (after i (commit (view i p)).1 p)
      rolls_back : (i : ℕ) (p : Process W) → Step p (after i (rollback (view i p)).1 p)
      closes : (i : ℕ) (p : Process W) → Step p (after i (close (view i p)).1 p)
      -- anything that is done to the storage of a manager, and in the world outside
      works :
          (i : ℕ) (storage : Storage) (w : W) (p : Process W)
          → Step p (after i (record (view i p) { storage = storage; world = w }) p)

    pub data Reachable (start : Process W) : Process W → Type 0 where
      started : Reachable start start
      stepped : (p p' : Process W) → Reachable start p → Step p p' → Reachable start p'

-- A writer is noted in the set, and each has a path of its own; a transaction has the writer of its path.
pub record Sound {W : Type 0} (p : Process W) : Type 0 where
  pub held :
      (i : ℕ) (path : Text)
      → (p.manager i).writer_path ≡ some path
      → active_in path p.active_writers ≡ true
  pub apart :
      (i j : ℕ) (path : Text)
      → i ≢ j
      → (p.manager i).writer_path ≡ some path
      → (p.manager j).writer_path ≢ some path
  pub own :
      (i : ℕ)
      → (p.manager i).in_transaction ≡ true
      → (p.manager i).writer_path ≡ some (p.manager i).lock_path
  pub idle : (i : ℕ) → (p.manager i).in_transaction ≡ false → Idle (p.manager i)

pub same_or_not : (i j : ℕ) → (i ≡ j) ⊎ (i ≢ j)
same_or_not i j = elim (Bool-cases (i == j)) [
  | inl e ↦ inl ((==_iff i j).0 e)
  | inr e ↦ inr (ground (arith, e))
]

pub active_in-discard :
    (path other : Text) (writers : List Text)
    → text_eq other path ≡ false
    → active_in path writers ≡ true
    → active_in path (discard other writers) ≡ true
active_in-discard path other [] apart h = cc h
active_in-discard path other (w ∷ writers) apart h = elim (Bool-cases (text_eq path w)) [
  | inl here ↦
      let kept : text_eq other w ≡ false =
        ap (text_eq other) (sym (text_eq→eq path w here)) ∙ apart in
      rw (kept, here) refl
  | inr not_here ↦
      let rest = active_in-discard path other writers apart (rw not_here at h) in
      elim (Bool-cases (text_eq other w)) [
        | inl dropped ↦ rw dropped rest
        | inr kept ↦ rw (kept, not_here) rest
      ]
]

module _ {W : Type 0} where
  -- What a method can do to the manager, and to the set of writers.
  pub data Change (s s' : Session W) : Type 0 where
    same :
        (s'.writer_path ≡ s.writer_path)
        → (s'.in_transaction ≡ s.in_transaction)
        → (s'.lock_handle ≡ s.lock_handle)
        → (s'.lock_path ≡ s.lock_path)
        → (s'.active_writers ≡ s.active_writers)
        → Change s s'
    began : Began s s' → Change s s'
    ended : Ended s s' → (s.in_transaction ≡ true) → Change s s'

  unchanged : (s s' : Session W) → s' ≡ s → Change s s'
  unchanged s s' e = subst (Change s) (sym e) (same refl refl refl refl refl)

  pub Change-either :
      (s s' : Session W) → (Ended s s' × (s.in_transaction ≡ true)) ⊎ (s' ≡ s) → Change s s'
  Change-either s s' (inl (e, active)) = ended e active
  Change-either s s' (inr e) = unchanged s s' e

  module _ ⦃codec : Codec State⦄ where
    pub begin-Change :
        (s : Session W) → ((s.in_transaction ≡ false) → Idle s) → Change s (begin s).1
    begin-Change s idle = elim (Bool-cases s.in_transaction) [
      | inl active ↦ unchanged s (begin s).1 (begin_active s active)
      | inr inactive ↦ elim (begin_either s (idle inactive)) [
        | inl (e, b) ↦ began b
        | inr (err', e, (writers, (in_transaction, writer, handle), path)) ↦
            let (i, w, h) = idle inactive in
            same (writer ∙ sym w) (in_transaction ∙ sym i) (handle ∙ sym h) path writers
      ]
    ]

    pub commit-Change : (s : Session W) → Change s (commit s).1
    commit-Change s = elim (Bool-cases s.in_transaction) [
      | inl active ↦ ended (commit-Ended s active) active
      | inr inactive ↦ unchanged s (commit s).1 (commit_idle s inactive)
    ]
