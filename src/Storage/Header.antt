-- ===== src/Storage/Header.antt =====
-- tinydb/storage/file.py: the header page, with the metadata in it.
use tinydb_sueprflow.Prelude.{
  ℕ, ◌-◌, text_eq, not, none, some, [], ◌∷◌, ◌++◌, length, take, ltb, if◌then◌else◌, ◌==◌,
}
use tinydb_sueprflow.Errors.{
  Result, ok, err, storage_error, header_truncated, invalid_header, unsupported_version,
  header_too_large, metadata_too_large, metadata_invalid,
}
use tinydb_sueprflow.Page.{page_size, pack_size, unpack_size, normalize_page_data}
use tinydb_sueprflow.Storage.Bytes.{Bytes, slice, write_at}
use tinydb_sueprflow.Storage.State.{State, empty_state, Codec}
use tinydb_sueprflow.Storage.Actions.{Action, lift, ◌>>=◌, ◌>>◌, get, put_file, raise_when}

-- b"TINYDB\0"
abbrev pub file_magic : Bytes
file_magic = b'T' ∷ b'I' ∷ b'N' ∷ b'Y' ∷ b'D' ∷ b'B' ∷ 0 ∷ []

abbrev pub format_version : ℕ
format_version = 1

abbrev pub header_fixed_size : ℕ
header_fixed_size = 15

module _ ⦃codec : Codec State⦄ where
  -- `json.loads`, with its failures turned into a StorageError
  unfoldable pub load_state : Bytes → Result State
  load_state [] = ok empty_state
  load_state (b ∷ raw) = elim (codec.loads (b ∷ raw)) [
    | none ↦ err (storage_error metadata_invalid)
    | some state ↦ ok state
  ]

  unfoldable pub read_header : Bytes → Result State
  unfolding load_state text_eq
  read_header file =
      let header = take page_size file in
      if not (length header == page_size)
      then err (storage_error header_truncated)
      else if not (text_eq (take 7 header) file_magic)
      then err (storage_error invalid_header)
      else if not (unpack_size (slice 7 4 header) == format_version)
      then err (storage_error unsupported_version)
      else if ltb (page_size - header_fixed_size) (unpack_size (slice 11 4 header))
      then err (storage_error header_too_large)
      else load_state (slice header_fixed_size (unpack_size (slice 11 4 header)) header)

  -- The header page for a state.
  unfoldable pub header_bytes : State → Bytes
  header_bytes state =
      file_magic
      ++ (pack_size format_version ++ (pack_size (length (codec.dumps state)) ++ codec.dumps state))

  unfoldable pub write_header : State → Action (Unit {0})
  unfolding header_bytes normalize_page_data write_at
  write_header state = do
    raise_when (ltb (page_size - header_fixed_size) (length (codec.dumps state)))
        (storage_error metadata_too_large)
    page ← lift (normalize_page_data (header_bytes state))
    s ← get
    put_file (write_at 0 page s.file)

  -- `_persist_state`
  unfoldable pub persist_state : Action (Unit {0})
  unfolding write_header
  persist_state = do s ← get; write_header s.state
