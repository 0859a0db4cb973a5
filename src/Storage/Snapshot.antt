-- ===== src/Storage/Snapshot.antt =====
-- tinydb/storage/file.py: copies of the whole file, kept in memory or appended to the file itself.
use tinydb_sueprflow.Prelude.{
  ℕ, zero, suc, true, not, none, some, List, [], ◌∷◌, ◌++◌, length, take, drop, ltb, ◌==◌, is_some,
  if◌then◌else◌,
}
use tinydb_sueprflow.Errors.{
  storage_error, transaction_error, recovery_active, unsupported_version, snapshot_truncated,
}
use tinydb_sueprflow.Page.{pack_payload, unpack_payload}
use tinydb_sueprflow.Storage.Bytes.{Bytes, write_at}
use tinydb_sueprflow.Storage.State.{Marker, State, Codec}
use tinydb_sueprflow.Storage.Actions.{
  Action, pure, lift, ◌>>=◌, ◌>>◌, raise_when, get, put_file, put_state, require_open,
}
use tinydb_sueprflow.Storage.Header.{read_header, persist_state}
use tinydb_sueprflow.Storage.Pages.{allocate_page, read_page}

abbrev pub transaction_marker_version : ℕ
transaction_marker_version = 1

abbrev pub snapshot_chunk_size : ℕ
snapshot_chunk_size = 4092

-- `_snapshot_file`
unfoldable pub snapshot_file : Action Bytes
snapshot_file = do require_open; s ← get; pure s.file

-- `snapshot[offset : offset + _SNAPSHOT_CHUNK_SIZE]` for each offset; each takes a byte at least, so
-- that the length of the snapshot is fuel enough.
unfoldable pub chunks_from : ℕ → Bytes → List Bytes
chunks_from fuel [] = []
chunks_from zero (b ∷ rest) = []
chunks_from (suc fuel) (b ∷ rest) =
    take snapshot_chunk_size (b ∷ rest) ∷ chunks_from fuel (drop snapshot_chunk_size (b ∷ rest))

-- `if not snapshot_page_ids`: an empty snapshot has one empty chunk.
abbrev pub at_least_one : List Bytes → List Bytes
at_least_one [] = [] ∷ []
at_least_one (c ∷ cs) = c ∷ cs

unfoldable pub append_pages : List Bytes → Action (List ℕ)
unfolding allocate_page pack_payload
append_pages [] = pure []
append_pages (chunk ∷ rest) = do
  page ← lift (pack_payload chunk)
  page_id ← allocate_page page
  page_ids ← append_pages rest
  pure (page_id ∷ page_ids)

unfoldable pub append_snapshot_pages : Bytes → Action (List ℕ)
unfolding append_pages chunks_from
append_snapshot_pages snapshot =
    append_pages (at_least_one (chunks_from (length snapshot) snapshot))

abbrev pub new_marker : Bytes → List ℕ → Marker
new_marker snapshot page_ids = record {
  version = transaction_marker_version;
  pending = true;
  snapshot_size = length snapshot;
  snapshot_page_ids = page_ids;
}

unfoldable pub read_chunks : List ℕ → Action Bytes
unfolding read_page unpack_payload
read_chunks [] = pure []
read_chunks (page_id ∷ page_ids) = do
  page ← read_page page_id
  chunk ← lift (unpack_payload page)
  rest ← read_chunks page_ids
  pure (chunk ++ rest)

unfoldable pub read_snapshot_from_marker : Marker → Action Bytes
unfolding read_chunks
read_snapshot_from_marker marker = do
  raise_when (not (marker.version == transaction_marker_version))
      (storage_error unsupported_version)
  snapshot ← read_chunks marker.snapshot_page_ids
  raise_when (ltb (length snapshot) marker.snapshot_size) (storage_error snapshot_truncated)
  pure (take marker.snapshot_size snapshot)

module _ ⦃codec : Codec State⦄ where
  unfoldable pub restore_file_snapshot : Bytes → Action (Unit {0})
  unfolding read_header write_at
  restore_file_snapshot snapshot = do
    require_open
    s ← get
    put_file (take (length snapshot) (write_at 0 snapshot s.file))
    state ← lift (read_header (take (length snapshot) (write_at 0 snapshot s.file)))
    put_state state

  unfoldable pub begin_transaction_recovery_snapshot : Action (Unit {0})
  unfolding snapshot_file append_snapshot_pages persist_state
  begin_transaction_recovery_snapshot = do
    require_open
    s ← get
    raise_when (is_some s.state.transaction) (transaction_error recovery_active)
    snapshot ← snapshot_file
    page_ids ← append_snapshot_pages snapshot
    put_state (record s.state { transaction = some (new_marker snapshot page_ids) })
    persist_state

  unfoldable pub clear_transaction_recovery_snapshot : Action (Unit {0})
  unfolding persist_state
  clear_transaction_recovery_snapshot = do
    require_open
    s ← get
    if is_some s.state.transaction
        then (do put_state (record s.state { transaction = none }); persist_state)
        else pure tt
