-- ===== src/Storage/State.antt =====
-- tinydb/storage/file.py: the metadata that the header page holds.
use tinydb_sueprflow.Prelude.{ℕ, ◌≡◌, ◌≢◌, Bool, Option, none, some, List, [], Text}
use tinydb_sueprflow.Python.Dict.{Dict, lookup}
use tinydb_sueprflow.Catalog.{TableData}
use tinydb_sueprflow.Storage.Bytes.{Bytes}

-- One entry of a table's list of records.
pub record Record : Type 0 where
  pub page_id : ℕ
  pub slot : ℕ
  pub deleted : Bool

-- The entry "transaction" of the metadata, which marks a transaction that has begun.
pub record Marker : Type 0 where
  pub version : ℕ
  pub pending : Bool
  pub snapshot_size : ℕ
  pub snapshot_page_ids : List ℕ

pub record State : Type 0 where
  pub catalog : List TableData
  pub tables : Dict (List Record)
  pub transaction : Option Marker

-- `_empty_state()`
abbrev pub empty_state : State
empty_state = record { catalog = []; tables = []; transaction = none }

-- `json.dumps(...).encode("utf-8")` and `json.loads(....decode("utf-8"))`; `none` is a failure to
-- decode, or an object of another shape.
pub record Codec (A : Type 0) : Type 0 where
  pub dumps : A → Bytes
  pub loads : Bytes → Option A

-- The same metadata: the same catalog and marker, and the same records under each table name, whatever
-- the order of the tables.
pub record SameState (s t : State) : Type 0 where
  pub same_catalog : s.catalog ≡ t.catalog
  pub same_transaction : s.transaction ≡ t.transaction
  pub same_tables : (name : Text) → lookup name s.tables ≡ lookup name t.tables

-- What is dumped is some text. An object with the same members is loaded from it; the members of an
-- object may come back in another order, as `sort_keys=True` has them written in the order of their names.
pub record StateLaws ⦃codec : Codec State⦄ : Type 0 where
  pub loaded : State → State
  pub loads-dumps : (s : State) → codec.loads (codec.dumps s) ≡ some (loaded s)
  pub loaded-SameState : (s : State) → SameState (loaded s) s
  pub not_empty : (s : State) → codec.dumps s ≢ []
