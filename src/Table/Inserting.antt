-- ===== src/Table/Inserting.antt =====
-- tinydb/storage/table.py: an inserted row is read back, with the value of each column.
use tinydb_sueprflow.Prelude.{
  ℕ, suc, ◌≤◌, ◌<◌, ◌≡◌, refl, sym, ap, ◌∙◌, subst, text_eq, text_eq_refl, true, false, none, some,
  List, [], ◌∷◌, ◌++◌, length, length-append, length-drop, drop, arith, All,
}
use tinydb_sueprflow.Errors.{Result, ok}
use tinydb_sueprflow.Python.Float.{FloatOps}
use tinydb_sueprflow.Python.Dict.{lookup, insert, lookup-insert_self}
use tinydb_sueprflow.Value.{Row}
use tinydb_sueprflow.Catalog.{TableSchema}
use tinydb_sueprflow.Index.Node.{RecordPointer}
use tinydb_sueprflow.Rows.{ordered_row, normalize_row}
use tinydb_sueprflow.Storage.Bytes.{Bytes}
use tinydb_sueprflow.Storage.State.{Record, State, Codec, StateLaws}
use tinydb_sueprflow.Storage.Actions.{Storage}
use tinydb_sueprflow.Storage.Pages.{allocate_page, read_page}
use tinydb_sueprflow.Storage.Snapshot.{snapshot_chunk_size}
use tinydb_sueprflow.Storage.HeaderRoundTrip.{Fits, header_page, length-header_page, persisted}
use tinydb_sueprflow.Storage.PageLaws.{HasPages, allocate_page_lem, read_page_lem}
use tinydb_sueprflow.Storage.Chunks.{
  packed, pack_payload_lem, length-packed, padded-packed, unpack_payload-packed,
}
use tinydb_sueprflow.Table.{
  Payload, find_record, validate_pointer, encode_row, load_payload, read_payload, read,
  check_unique_constraints, insert_row,
}
use tinydb_sueprflow.Table.Laws.{
  PayloadLaws, ordered_row-lookup, first_record-append, read_table_records_found,
  write_table_records-Fits, slice-appended,
}

-- The metadata after a row was inserted in page `n`.
abbrev pub with_record : ℕ → TableSchema → List Record → State → State
with_record n schema records state = record state {
  tables =
      insert schema.name (records ++ record { page_id = n; slot = 0; deleted = false } ∷ [])
        state.tables;
}

module _ {F : Type 0} ⦃fl : FloatOps F⦄ ⦃payloads : Codec (Payload F)⦄ where
  -- What the page of a new row holds.
  abbrev pub new_payload : TableSchema → Row F → Payload F
  new_payload schema row = record { table = schema.name; deleted = false; row = row }

  abbrev pub row_page : TableSchema → Row F → Bytes
  row_page schema row = packed (payloads.dumps (new_payload schema row))

  pub encode_row_lem :
      (schema : TableSchema) (row : Row F)
      → length (payloads.dumps (new_payload schema row)) ≤ snapshot_chunk_size
      → encode_row schema row false ≡ ok (row_page schema row)
  unfolding encode_row
  encode_row_lem schema row h = pack_payload_lem (payloads.dumps (new_payload schema row)) h

  -- The page of a new row is put behind the others.
  pub allocate_page-row_page :
      (n : ℕ) (schema : TableSchema) (row : Row F) (s : Storage)
      → HasPages n s
      → length (payloads.dumps (new_payload schema row)) ≤ snapshot_chunk_size
      → allocate_page (row_page schema row) s
        ≡ (ok n, record s { file = s.file ++ row_page schema row })
  allocate_page-row_page n schema row s pages room =
      let payload = payloads.dumps (new_payload schema row) in
      allocate_page_lem n s (row_page schema row) pages (omega (arith, length-packed payload room))
      ∙ ap (λ (b : Bytes). (ok n, record s { file = s.file ++ b })) (padded-packed payload room)

  module _ ⦃codec : Codec State⦄ where
    abbrev pub with_row : ℕ → TableSchema → List Record → Row F → Storage → Storage
    with_row n schema records row s = persisted (record s {
      file = s.file ++ row_page schema row;
      state = with_record n schema records s.state;
    })

    -- A row that is accepted for a table of a storage with `n` pages, and whose payload and record have room.
    pub record Accepted (n : ℕ) (schema : TableSchema) (row normalized : Row F)
        (records : List Record) (s : Storage) : Type 0 where
      pub pages : HasPages n s
      pub found : lookup schema.name s.state.tables ≡ some records
      pub before : All (λ (r : Record). r.page_id < n) records
      pub normal : normalize_row schema row ≡ ok normalized
      pub distinct : check_unique_constraints schema normalized none s ≡ (ok tt, s)
      pub room : length (payloads.dumps (new_payload schema normalized)) ≤ snapshot_chunk_size
      pub fits : Fits (with_record n schema records s.state)

    module _ ⦃laws : StateLaws⦄ where
      pub insert_row_lem :
          (n : ℕ) (schema : TableSchema) (row normalized : Row F) (records : List Record)
          (s : Storage)
          → Accepted n schema row normalized records s
          → insert_row schema row s ≡ (
            ok (record { table = schema.name; page_id = n; slot = 0 }),
            with_row n schema records normalized s,
          )
      unfolding insert_row
      insert_row_lem n schema row normalized records s a =
          let page = row_page schema normalized in
          let s1 : Storage = record s { file = s.file ++ page } in
          rw
            (
              a.normal,
              a.distinct,
              encode_row_lem schema normalized a.room,
              allocate_page-row_page n schema normalized s a.pages a.room,
              read_table_records_found schema.name records s1 a.pages.0 a.found,
              write_table_records-Fits schema.name
                  (records ++ record { page_id = n; slot = 0; deleted = false } ∷ []) s1 a.pages.0
                  a.fits,
            )
            refl

      load_payload_lem :
          ⦃payload_laws : PayloadLaws F⦄ (schema : TableSchema) (p : Payload F)
          → p.table ≡ schema.name
          → load_payload schema (payloads.dumps p) ≡ ok (payload_laws.loaded p)
      unfolding load_payload
      load_payload_lem ⦃payload_laws⦄ schema p e =
          let table : text_eq (payload_laws.loaded p).table schema.name ≡ true =
            ap (λ t. text_eq t schema.name) (payload_laws.same_table p ∙ e)
            ∙ text_eq_refl schema.name in
          rw (load_payload, payload_laws.loads-dumps p, table) refl

      -- Reading the pointer of the new row.
      pub read_inserted :
          ⦃payload_laws : PayloadLaws F⦄ (n : ℕ) (schema : TableSchema) (row normalized : Row F)
          (records : List Record) (s : Storage)
          → (a : Accepted n schema row normalized records s)
          → let s' = with_row n schema records normalized s in
            read schema (record { table = schema.name; page_id = n; slot = 0 }) s'
            ≡ (ok (ordered_row schema.columns normalized), s')
      unfolding read validate_pointer find_record read_payload persisted
      read_inserted ⦃payload_laws⦄ n schema row normalized records s a =
          let s' = with_row n schema records normalized s in
          let p = new_payload schema normalized in
          let page = row_page schema normalized in
          let size : length page ≡ 4096 = length-packed (payloads.dumps p) a.room in
          let state' = with_record n schema records s.state in
          let head_size : length (header_page state') ≡ 4096 = length-header_page state' a.fits in
          let pages' : HasPages (suc n) s' = (
            a.pages.0,
            omega (
              arith,
              length-append (header_page state') (drop 4096 (s.file ++ page)),
              length-append s.file page,
              length-drop 4096 (s.file ++ page),
              size,
              head_size,
              a.pages.1,
            ),
          ) in
          let new_records = records ++ record { page_id = n; slot = 0; deleted = false } ∷ [] in
          let found' : lookup schema.name s'.state.tables ≡ some new_records =
            lookup-insert_self schema.name new_records s.state.tables in
          let here : read_page n s' ≡ (ok page, s') =
            read_page_lem (suc n) n s' pages' (omega arith)
            ∙ ap (λ (b : Bytes). (ok b, s'))
                (slice-appended n (header_page state') s.file page head_size size a.pages.1) in
          rw
            (
              text_eq_refl schema.name,
              read_table_records_found schema.name new_records s' a.pages.0 found',
              first_record-append schema.name n records a.before,
              here,
              unpack_payload-packed (payloads.dumps p) a.room,
              load_payload_lem schema p refl,
              payload_laws.same_deleted p,
            )
            (ap (λ (r : Row F). (ok r, s'))
              (ordered_row-lookup schema.columns (payload_laws.loaded p).row normalized
                (payload_laws.same_row p)))

      -- An accepted row is inserted in the page behind the last one, and the pointer that is returned reads
      -- the row with its validated values, in the order of the schema's columns.
      pub read-insert_row :
          ⦃payload_laws : PayloadLaws F⦄ (n : ℕ) (schema : TableSchema) (row normalized : Row F)
          (records : List Record) (s : Storage)
          → Accepted n schema row normalized records s
          → let (result, s') = insert_row schema row s in
            let pointer : RecordPointer = record { table = schema.name; page_id = n; slot = 0 } in
            (result ≡ ok pointer)
            × (read schema pointer s' ≡ (ok (ordered_row schema.columns normalized), s'))
      read-insert_row n schema row normalized records s a =
          subst
            (λ (p : Result RecordPointer × Storage).
              (p.0 ≡ ok (record { table = schema.name; page_id = n; slot = 0 }))
              × (read schema (record { table = schema.name; page_id = n; slot = 0 }) p.1
                  ≡ (ok (ordered_row schema.columns normalized), p.1)))
            (sym (insert_row_lem n schema row normalized records s a))
            (refl, read_inserted n schema row normalized records s a)
