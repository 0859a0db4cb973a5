-- ===== src/Table/Scanning.antt =====
-- tinydb/storage/table.py: reading a row, as a function of the records and of the bytes of its page.
use tinydb_sueprflow.Prelude.{
  ℕ, ◌<◌, ◌≡◌, refl, text_eq_refl, Option, none, some, List, Option-cases, Bool-cases, inl, inr,
  ◌⊎◌, if◌then◌else◌,
}
use tinydb_sueprflow.Errors.{Error, Result, ok, err, storage_error, record_deleted, not_active_row}
use tinydb_sueprflow.Python.Dict.{lookup}
use tinydb_sueprflow.Value.{Row}
use tinydb_sueprflow.Catalog.{TableSchema}
use tinydb_sueprflow.Index.Node.{RecordPointer}
use tinydb_sueprflow.Page.{page_size, unpack_payload}
use tinydb_sueprflow.Rows.{ordered_row}
use tinydb_sueprflow.Storage.Bytes.{Bytes, slice}
use tinydb_sueprflow.Storage.State.{Record, Codec}
use tinydb_sueprflow.Storage.Actions.{Storage, continue, lift}
use tinydb_sueprflow.Storage.Pages.{page_offset}
use tinydb_sueprflow.Storage.PageLaws.{HasPages, read_page_lem}
use tinydb_sueprflow.Table.{
  Payload, first_record, find_record, validate_pointer, load_payload, read_payload, read,
}
use tinydb_sueprflow.Table.Laws.{read_table_records_found}

-- A method returns or raises.
pub outcome_of : {A : Type 0} (r : Result A) → ((a : A) × (r ≡ ok a)) ⊎ ((e : Error) × (r ≡ err e))
outcome_of (ok a) = inl (a, refl)
outcome_of (err e) = inr (e, refl)

module _ {F : Type 0} ⦃payloads : Codec (Payload F)⦄ where
  -- Reading, from the record that is found and the bytes of the page.
  abbrev pub loaded_of : TableSchema → Result Bytes → Result (Payload F)
  loaded_of schema (err e) = err e
  loaded_of schema (ok encoded) = load_payload schema encoded

  loaded_of_lem :
      (schema : TableSchema) (r : Result Bytes) (s : Storage)
      → continue (λ encoded. lift (load_payload {F = F} schema encoded)) (r, s)
        ≡ (loaded_of schema r, s)
  loaded_of_lem schema (ok encoded) s = refl
  loaded_of_lem schema (err e) s = refl

  abbrev pub payload_of : TableSchema → Bytes → Result (Payload F)
  payload_of schema page = loaded_of schema (unpack_payload page)

  abbrev pub row_of : TableSchema → Result (Payload F) → Result (Row F)
  row_of schema (err e) = err e
  row_of schema (ok payload) =
      if payload.deleted
      then err (storage_error record_deleted)
      else ok (ordered_row schema.columns payload.row)

  abbrev pub pure_read : TableSchema → RecordPointer → Option Record → Bytes → Result (Row F)
  pure_read schema pointer none page = err (storage_error not_active_row)
  pure_read schema pointer (some r) page =
      if r.deleted
      then err (storage_error not_active_row)
      else row_of schema (payload_of schema page)

  read_payload_lem :
      (n : ℕ) (schema : TableSchema) (page_id : ℕ) (s : Storage)
      → HasPages n s
      → page_id < n
      → read_payload {F = F} schema page_id s
        ≡ (payload_of schema (slice (page_offset page_id) page_size s.file), s)
  unfolding read_payload
  read_payload_lem n schema page_id s pages h =
      rw (read_page_lem n page_id s pages h)
        (loaded_of_lem schema (unpack_payload (slice (page_offset page_id) page_size s.file)) s)

  pub read_lem :
      (n : ℕ) (schema : TableSchema) (page_id : ℕ) (records : List Record) (s : Storage)
      → HasPages n s
      → page_id < n
      → lookup schema.name s.state.tables ≡ some records
      → let pointer : RecordPointer = record { table = schema.name; page_id = page_id; slot = 0 } in
        read {F = F} schema pointer s ≡ (
          pure_read schema pointer
              (first_record pointer records)
              (slice (page_offset page_id) page_size s.file),
          s,
        )
  unfolding read validate_pointer find_record
  read_lem n schema page_id records s pages h found =
      let pointer : RecordPointer = record { table = schema.name; page_id = page_id; slot = 0 } in
      let page = slice (page_offset page_id) page_size s.file in
      let records_read = read_table_records_found schema.name records s pages.0 found in
      elim (Option-cases (first_record pointer records)) [
        | inl e ↦ rw (text_eq_refl schema.name, records_read, e) refl
        | inr (r, e) ↦ elim (Bool-cases r.deleted) [
          | inl deleted ↦ rw (text_eq_refl schema.name, records_read, e, deleted) refl
          | inr active ↦ elim (outcome_of (payload_of schema page)) [
            | inr (raised, p) ↦
                rw
                  (
                    text_eq_refl schema.name,
                    records_read,
                    e,
                    active,
                    read_payload_lem n schema page_id s pages h,
                    p,
                  )
                  refl
            | inl (payload, p) ↦ elim (Bool-cases payload.deleted) [
              | inl gone ↦
                  rw
                    (
                      text_eq_refl schema.name,
                      records_read,
                      e,
                      active,
                      read_payload_lem n schema page_id s pages h,
                      p,
                      gone,
                    )
                    refl
              | inr there ↦
                  rw
                    (
                      text_eq_refl schema.name,
                      records_read,
                      e,
                      active,
                      read_payload_lem n schema page_id s pages h,
                      p,
                      there,
                    )
                    refl
            ]
          ]
        ]
      ]
