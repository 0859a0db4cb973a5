-- ===== src/Storage/Actions.antt =====
-- tinydb/storage/file.py: a storage manager, and methods on it. What a method did before it raised
-- stays done.
use tinydb_sueprflow.Prelude.{Bool, if◌then◌else◌}
use tinydb_sueprflow.Errors.{Error, storage_error, storage_closed}
use tinydb_sueprflow.Errors.{Result, ok, err}
use tinydb_sueprflow.Storage.Bytes.{Bytes}
use tinydb_sueprflow.Storage.State.{State}

pub data RecoveryStatus : Type 0 where
  clean recovered_committed discarded_incomplete : RecoveryStatus

pub record Storage : Type 0 where
  pub file : Bytes
  pub state : State
  pub closed : Bool
  pub recovery_state : RecoveryStatus

-- A method of an object whose attributes are an `S`.
abbrev pub Method : Type 0 → Type 0 → Type 0
Method S A = S → Result A × S

module _ {S : Type 0} where
  module _ {A : Type 0} where
    abbrev pub pure : A → Method S A
    pure a s = (ok a, s)

    abbrev pub raise : Error → Method S A
    raise e s = (err e, s)

    -- a computation that leaves the object alone
    abbrev pub lift : Result A → Method S A
    lift r s = (r, s)

  -- after an error the rest is left out
  abbrev pub continue : {A B : Type 0} → (A → Method S B) → Result A × S → Result B × S
  continue f (ok a, s) = f a s
  continue f (err e, s) = (err e, s)

  infixl 5 ◌>>=◌ ◌>>◌
  abbrev pub ◌>>=◌ : {A B : Type 0} → Method S A → (A → Method S B) → Method S B
  ◌>>=◌ m f s = continue f (m s)

  abbrev pub ◌>>◌ : {A B : Type 0} → Method S A → Method S B → Method S B
  m >> k = m >>= λ _. k

  abbrev pub raise_when : Bool → Error → Method S (Unit {0})
  raise_when test e s = (if test then err e else ok tt, s)

abbrev pub Action : Type 0 → Type 0
Action A = Method Storage A

abbrev pub get : Action Storage
get s = (ok s, s)

abbrev pub put_file : Bytes → Action (Unit {0})
put_file file s = (ok tt, record s { file = file })

abbrev pub put_state : State → Action (Unit {0})
put_state state s = (ok tt, record s { state = state })

-- `_require_open`
unfoldable pub require_open : Action (Unit {0})
require_open = do s ← get; raise_when s.closed (storage_error storage_closed)
