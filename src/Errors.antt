-- ===== src/Errors.antt =====
-- The exceptions of tinydb/errors.py, and Python's own that the modelled code can raise. A reason
-- stands for the message; a parse error carries the position that its message ends with.
use tinydb_sueprflow.Prelude.{ℕ, Text, Bool, true, false}

pub data ConstraintReason : Type 0 where
  unsupported_type unknown_column table_exists table_missing duplicate_column :
      Text → ConstraintReason
  null_column duplicate_value duplicate_alias unknown_qualifier : Text → ConstraintReason
  ambiguous_column : Text → ConstraintReason
  invalid_value many_primary_keys column_count star_expression join_projection : ConstraintReason

pub data ExecutionReason : Type 0 where
  aggregate_here bad_operator cannot_compare not_select : ExecutionReason

pub data StorageReason : Type 0 where
  data_too_large payload_too_large payload_truncated payload_length bad_key_encoding : StorageReason
  storage_closed page_truncated page_out_of_range not_page_aligned : StorageReason
  header_truncated invalid_header unsupported_version header_too_large : StorageReason
  metadata_too_large metadata_invalid transaction_metadata snapshot_truncated : StorageReason
  wrong_pointer not_active_row record_deleted already_deleted wrong_table row_payload :
      StorageReason

pub data TransactionReason : Type 0 where
  already_active recovery_active no_transaction snapshot_missing : TransactionReason
  writer_active live_transaction : TransactionReason

pub data Error : Type 0 where
  -- ParseError("empty SQL") and "SQL text is required" carry no position
  parse_error_text : Error
  parse_error : ℕ → Error
  constraint_error : ConstraintReason → Error
  execution_error : ExecutionReason → Error
  storage_error : StorageReason → Error
  transaction_error : TransactionReason → Error
  concurrency_error : Error
  -- Python's own
  type_error value_error overflow_error index_error : Error
  -- the fuel of a modelled loop ran out; theorems show where this cannot be
  out_of_fuel : Error

-- What a call returns or raises.
pub data Result {κ} (V : Type κ) : Type κ where
  ok : V → Result V
  err : Error → Result V

-- `if test: raise error`
abbrev pub raise_if : Bool → Error → Result (Unit {0})
raise_if true error = err error
raise_if false error = ok tt

-- One statement after another: the first that raises ends the call.
infixl 5 ◌>>=◌ ◌>>◌
abbrev pub ◌>>=◌ {κ μ} : {V : Type κ} {W : Type μ} → Result V → (V → Result W) → Result W
err raised >>= next = err raised
ok v >>= next = next v

abbrev pub ◌>>◌ {κ μ} : {V : Type κ} {W : Type μ} → Result V → Result W → Result W
first >> second = first >>= λ _. second
