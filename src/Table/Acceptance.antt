-- ===== src/Table/Acceptance.antt =====
-- tinydb/storage/table.py: a row that was inserted was accepted.
use tinydb_sueprflow.Prelude.{
  ℕ, ◌<◌, ◌≤◌, ◌≡◌, refl, ap, ◌∙◌, Text, none, some, List, [], ◌∷◌, ◌++◌, ltb, length, arith, true,
  false, All, Bool-cases, inl, inr,
}
use tinydb_sueprflow.Errors.{Result, ok, err, storage_error, payload_too_large, metadata_too_large}
use tinydb_sueprflow.Python.Float.{FloatOps}
use tinydb_sueprflow.Python.Dict.{lookup}
use tinydb_sueprflow.Value.{Row}
use tinydb_sueprflow.Catalog.{TableSchema}
use tinydb_sueprflow.Index.Node.{RecordPointer}
use tinydb_sueprflow.Page.{pack_payload}
use tinydb_sueprflow.Rows.{normalize_row}
use tinydb_sueprflow.Storage.State.{Record, State, Codec, StateLaws}
use tinydb_sueprflow.Storage.Actions.{Storage}
use tinydb_sueprflow.Storage.Snapshot.{snapshot_chunk_size}
use tinydb_sueprflow.Storage.PageLaws.{HasPages}
use tinydb_sueprflow.Table.{
  Payload, encode_row, scan, check_rows, check_unique_constraints, unique_columns, insert_row,
}
use tinydb_sueprflow.Table.Laws.{read_table_records_found, write_table_records_too_large}
use tinydb_sueprflow.Table.Inserting.{
  Accepted, new_payload, row_page, encode_row_lem, with_record, allocate_page-row_page,
}
use tinydb_sueprflow.Table.Appending.{Stored}
use tinydb_sueprflow.Table.Scanning.{outcome_of}

before_pages :
    (n : ℕ) (records : List Record)
    → All (Stored n) records
    → All (λ (r : Record). r.page_id < n) records
before_pages n [] h = tt
before_pages n (r ∷ rs) h = (h.0.0, before_pages n rs h.1)

module _ {F : Type 0} ⦃fl : FloatOps F⦄ ⦃payloads : Codec (Payload F)⦄ where
  -- The check leaves the storage alone, as the scan does.
  check_unique_either :
      (schema : TableSchema) (row : Row F) (s : Storage) (rows : List (RecordPointer × Row F))
      → scan {F = F} schema s ≡ (ok rows, s)
      → (r : Result (Unit {0})) × (check_unique_constraints schema row none s ≡ (r, s))
  unfolding check_unique_constraints
  check_unique_either schema row s rows scanned = each (unique_columns schema) refl
    where
      each :
          (columns : List Text)
          → unique_columns schema ≡ columns
          → (r : Result (Unit {0})) × (check_unique_constraints schema row none s ≡ (r, s))
      each [] e = (ok tt, rw (check_unique_constraints, e) refl)
      each (c ∷ cs) e =
          (check_rows (c ∷ cs) row none rows, rw (check_unique_constraints, e, scanned) refl)

  encode_row_too_large :
      (schema : TableSchema) (row : Row F)
      → ltb snapshot_chunk_size (length (payloads.dumps (new_payload schema row))) ≡ true
      → encode_row schema row false ≡ err (storage_error payload_too_large)
  unfolding encode_row pack_payload
  encode_row_too_large schema row h = rw h refl

  module _ ⦃codec : Codec State⦄ ⦃laws : StateLaws⦄ where
    -- Where the record of the new row has no room in the header, the insertion is not made.
    no_room :
        (n : ℕ) (schema : TableSchema) (row normalized : Row F) (records : List Record)
        (s : Storage)
        → HasPages n s
        → lookup schema.name s.state.tables ≡ some records
        → normalize_row schema row ≡ ok normalized
        → check_unique_constraints schema normalized none s ≡ (ok tt, s)
        → length (payloads.dumps (new_payload schema normalized)) ≤ snapshot_chunk_size
        → 4081 < length (codec.dumps (with_record n schema records s.state))
        → (insert_row schema row s).0 ≡ err (storage_error metadata_too_large)
    unfolding insert_row
    no_room n schema row normalized records s pages found normal distinct room large =
        let s1 : Storage = record s { file = s.file ++ row_page schema normalized } in
        rw
          (
            insert_row,
            normal,
            distinct,
            encode_row_lem schema normalized room,
            allocate_page-row_page n schema normalized s pages room,
            read_table_records_found schema.name records s1 pages.0 found,
            write_table_records_too_large schema.name
                (records ++ record { page_id = n; slot = 0; deleted = false } ∷ []) s1 pages.0
                large,
          )
          refl

    -- A row that passed the check was inserted, so there was room for it.
    checked-Accepted :
        (n : ℕ) (schema : TableSchema) (row normalized : Row F) (records : List Record)
        (s : Storage) (pointer : RecordPointer)
        → HasPages n s
        → lookup schema.name s.state.tables ≡ some records
        → All (Stored n) records
        → normalize_row schema row ≡ ok normalized
        → check_unique_constraints schema normalized none s ≡ (ok tt, s)
        → (insert_row schema row s).0 ≡ ok pointer
        → Accepted n schema row normalized records s
    unfolding insert_row
    checked-Accepted n schema row normalized records s pointer pages found stored normal distinct
          h =
        let payload = payloads.dumps (new_payload schema normalized) in
        let metadata = codec.dumps (with_record n schema records s.state) in
        elim (Bool-cases (ltb 4092 (length payload))) [
          | inl large ↦
              cc (
                rw (insert_row, normal, distinct, encode_row_too_large schema normalized large) at
                  h)
          | inr small ↦
              let room : length payload ≤ 4092 = ground (arith, small) in
              elim (Bool-cases (ltb 4081 (length metadata))) [
                | inl large ↦ cc (
                  h,
                  no_room n schema row normalized records s pages found normal distinct room
                      (ground (arith, large)),
                )
                | inr fits ↦ record {
                  pages = pages;
                  found = found;
                  before = before_pages n records stored;
                  normal = normal;
                  distinct = distinct;
                  room = room;
                  fits = ground (arith, fits);
                }
              ]
        ]

    -- An insertion that went well, of a row into a table that can be scanned: every check was passed, and
    -- there was room.
    pub insert_row-Accepted :
        (n : ℕ) (schema : TableSchema) (row : Row F) (records : List Record) (s : Storage)
        (rows : List (RecordPointer × Row F)) (pointer : RecordPointer)
        → HasPages n s
        → lookup schema.name s.state.tables ≡ some records
        → All (Stored n) records
        → scan {F = F} schema s ≡ (ok rows, s)
        → (insert_row schema row s).0 ≡ ok pointer
        → (normalized : Row F) × Accepted n schema row normalized records s
    unfolding insert_row
    insert_row-Accepted n schema row records s rows pointer pages found stored scanned h =
        elim (outcome_of (normalize_row schema row)) [
          | inr (e, refused) ↦ cc (rw (insert_row, refused) at h)
          | inl (normalized, normal) ↦
              let (r, checked) = check_unique_either schema normalized s rows scanned in
              elim (outcome_of r) [
                | inr (e, refused) ↦ cc (rw (insert_row, normal, checked, refused) at h)
                | inl (_, passed) ↦ (
                  normalized,
                  checked-Accepted n schema row normalized records s pointer pages found stored
                      normal (checked ∙ ap (λ (q : Result (Unit {0})). (q, s)) passed) h,
                )
              ]
        ]
