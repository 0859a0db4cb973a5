-- ===== src/Table/Appending.antt =====
-- tinydb/storage/table.py: a table as the list of its rows, to which an insertion appends.
use tinydb_sueprflow.Prelude.{
  ℕ, suc, ◌<◌, ◌≡◌, refl, sym, ap, ◌∙◌, subst, Text, false, ◌==◌, some, List, [], ◌∷◌, ◌++◌, length,
  length-append, length-drop, drop, take, arith, All, Bool-cases, inl, inr, if◌then◌else◌,
}
use tinydb_sueprflow.Errors.{Result, ok, err}
use tinydb_sueprflow.Python.Float.{FloatOps}
use tinydb_sueprflow.Python.Dict.{lookup-insert_self}
use tinydb_sueprflow.Value.{Row}
use tinydb_sueprflow.Catalog.{TableSchema}
use tinydb_sueprflow.Index.Node.{RecordPointer}
use tinydb_sueprflow.Page.{page_size}
use tinydb_sueprflow.Rows.{ordered_row}
use tinydb_sueprflow.Storage.Bytes.{slice}
use tinydb_sueprflow.Storage.State.{Record, State, Codec, StateLaws}
use tinydb_sueprflow.Storage.Actions.{Storage, continue}
use tinydb_sueprflow.Storage.Pages.{page_offset}
use tinydb_sueprflow.Storage.HeaderRoundTrip.{header_page, length-header_page, persisted}
use tinydb_sueprflow.Storage.PageLaws.{HasPages}
use tinydb_sueprflow.Storage.Chunks.{length-packed}
use tinydb_sueprflow.Storage.Crash.{drop-behind}
use tinydb_sueprflow.Table.{Payload, first_record, same_record, read, insert_row}
use tinydb_sueprflow.Table.Laws.{PayloadLaws, read_table_records_found}
use tinydb_sueprflow.Table.Inserting.{
  Accepted, new_payload, row_page, with_row, with_record, read_inserted, insert_row_lem,
}
use tinydb_sueprflow.Table.{scan, scan_records}
use tinydb_sueprflow.Storage.Crash.{slice-append}
use tinydb_sueprflow.Table.Scanning.{outcome_of, read_lem, pure_read}

-- A record of one of the first `n` pages.
abbrev pub Stored : ℕ → Record → Type 0
Stored n r = (r.page_id < n) × (r.slot ≡ 0)

-- The records of other pages are found as before.
first_record-other :
    (table : Text) (n page_id : ℕ) (records : List Record)
    → page_id < n
    → first_record
        (record { table = table; page_id = page_id; slot = 0 })
        (records ++ record { page_id = n; slot = 0; deleted = false } ∷ [])
      ≡ first_record (record { table = table; page_id = page_id; slot = 0 }) records
first_record-other table n page_id [] h =
    let other : (n == page_id) ≡ false = ground (arith, h) in rw other refl
first_record-other table n page_id (r ∷ rs) h =
    ap
      (λ rest.
        if same_record (record { table = table; page_id = page_id; slot = 0 }) r
        then some r
        else rest)
      (first_record-other table n page_id rs h)

module _ {F : Type 0} where
  -- A row in front of the ones that are scanned after it.
  scan_step :
      (row : RecordPointer × Row F) (p : Result (List (RecordPointer × Row F)) × Storage)
      (rows : List (RecordPointer × Row F)) (s : Storage)
      → continue (λ others s'. (ok (row ∷ others), s')) p ≡ (ok rows, s)
      → (others : List (RecordPointer × Row F)) × (p ≡ (ok others, s)) × (rows ≡ row ∷ others)
  scan_step row (err e, s1) rows s h = cc h
  scan_step row (ok others, s1) rows s h = (others, cc h, cc h)

module _ {F : Type 0} ⦃fl : FloatOps F⦄ ⦃payloads : Codec (Payload F)⦄ ⦃codec : Codec State⦄
    ⦃laws : StateLaws⦄ where
  -- A row of another page is read after an insertion as before it.
  read_before :
      (n : ℕ) (schema : TableSchema) (row normalized : Row F) (records : List Record) (s : Storage)
      (page_id : ℕ)
      → Accepted n schema row normalized records s
      → page_id < n
      → let pointer : RecordPointer = record { table = schema.name; page_id = page_id; slot = 0 } in
        let s' = with_row n schema records normalized s in
        read {F = F} schema pointer s' ≡ ((read {F = F} schema pointer s).0, s')
  unfolding persisted
  read_before n schema row normalized records s page_id a h =
      let pointer : RecordPointer = record { table = schema.name; page_id = page_id; slot = 0 } in
      let s' = with_row n schema records normalized s in
      let page = row_page schema normalized in
      let size : length page ≡ 4096 =
        length-packed (payloads.dumps (new_payload schema normalized)) a.room in
      let state' = with_record n schema records s.state in
      let head_size : length (header_page state') ≡ 4096 = length-header_page state' a.fits in
      let pages' : HasPages (suc n) s' = (
        a.pages.0,
        omega (
          arith,
          length-append (header_page state') (drop 4096 (s.file ++ page)),
          length-append s.file page,
          length-drop 4096 (s.file ++ page),
          size,
          head_size,
          a.pages.1,
        ),
      ) in
      let new_records = records ++ record { page_id = n; slot = 0; deleted = false } ∷ [] in
      let bytes : slice (page_offset page_id) 4096 s'.file
          ≡ slice (page_offset page_id) 4096 s.file =
        ap (take 4096) (
          drop-behind (header_page state') (s.file ++ page) (page_offset page_id) head_size
            (omega arith))
        ∙ slice-append (page_offset page_id) 4096 s.file page (omega (arith, a.pages.1)) in
      let now =
        read_lem {F = F} (suc n) schema page_id new_records s' pages' (omega arith)
          (lookup-insert_self schema.name new_records s.state.tables) in
      let then_ = read_lem {F = F} n schema page_id records s a.pages h a.found in
      now
      ∙ ap
          (λ found.
            (pure_read {F = F} schema pointer found (slice (page_offset page_id) 4096 s'.file), s'))
          (first_record-other schema.name n page_id records h)
      ∙ ap (λ b. (pure_read {F = F} schema pointer (first_record pointer records) b, s')) bytes
      ∙ sym (ap (λ (p : Result (Row F) × Storage). (p.0, s')) then_)

  scan_records-append :
      ⦃payload_laws : PayloadLaws F⦄ (n : ℕ) (schema : TableSchema) (row normalized : Row F)
      (records rs : List Record) (s : Storage) (rows : List (RecordPointer × Row F))
      → Accepted n schema row normalized records s
      → All (Stored n) rs
      → scan_records {F = F} schema rs s ≡ (ok rows, s)
      → scan_records {F = F} schema
          (rs ++ record { page_id = n; slot = 0; deleted = false } ∷ [])
          (with_row n schema records normalized s)
        ≡ (
          ok (
              rows
              ++ (
                record { table = schema.name; page_id = n; slot = 0 },
                ordered_row schema.columns normalized,
              )
                ∷ []),
          with_row n schema records normalized s,
        )
  unfolding scan_records
  scan_records-append n schema row normalized records [] s rows a h e =
      let nothing : [] ≡ rows = cc e in
      subst
        (λ l.
          scan_records {F = F} schema (record { page_id = n; slot = 0; deleted = false } ∷ [])
            (with_row n schema records normalized s)
          ≡ (
            ok (
                l
                ++ (
                  record { table = schema.name; page_id = n; slot = 0 },
                  ordered_row schema.columns normalized,
                )
                  ∷ []),
            with_row n schema records normalized s,
          ))
        nothing (rw (scan_records, read_inserted n schema row normalized records s a) refl)
  scan_records-append n schema row normalized records (r ∷ rs) s rows a h e =
      elim (Bool-cases r.deleted) [
        | inl deleted ↦
            rw (scan_records, deleted)
              (scan_records-append n schema row normalized records rs s rows a h.1
                (rw (scan_records, deleted) at e))
        | inr active ↦
            let s' = with_row n schema records normalized s in
            let pointer : RecordPointer = record {
              table = schema.name;
              page_id = r.page_id;
              slot = 0;
            } in
            let at_s = read_lem {F = F} n schema r.page_id records s a.pages h.0.0 a.found in
            elim (outcome_of (
              pure_read {F = F} schema pointer (first_record pointer records)
                (slice (page_offset r.page_id) page_size s.file))) [
                  | inr (raised, p) ↦ cc (rw (scan_records, active, h.0.1, at_s, p) at e)
                  | inl (row0, p) ↦
                      let read_s : read {F = F} schema pointer s ≡ (ok row0, s) =
                        at_s ∙ ap (λ (x : Result (Row F)). (x, s)) p in
                      let read_s' : read {F = F} schema pointer s' ≡ (ok row0, s') =
                        read_before n schema row normalized records s r.page_id a h.0.0
                        ∙ ap (λ (x : Result (Row F) × Storage). (x.0, s')) read_s in
                      let (others, e2, split) =
                        scan_step (pointer, row0) (scan_records {F = F} schema rs s) rows s
                          (rw (scan_records, active, h.0.1, read_s) at e) in
                      let rest =
                        scan_records-append n schema row normalized records rs s others a h.1 e2 in
                      rw (scan_records, active, h.0.1, read_s', rest)
                        (ap
                          (λ (l : List (RecordPointer × Row F)). (
                            ok (
                                l
                                ++ (
                                  record { table = schema.name; page_id = n; slot = 0 },
                                  ordered_row schema.columns normalized,
                                )
                                  ∷ []),
                            s',
                          ))
                          (sym split))
                ]
      ]

  -- A table as the list of its rows: where scanning it gives some rows, and an accepted row is inserted,
  -- scanning gives these rows and the new one behind them, with its pointer and its validated values
  -- in the order of the schema's columns. The records of the table are of the first `n` pages.
  pub scan-insert_row :
      ⦃payload_laws : PayloadLaws F⦄ (n : ℕ) (schema : TableSchema) (row normalized : Row F)
      (records : List Record) (s : Storage) (rows : List (RecordPointer × Row F))
      → Accepted n schema row normalized records s
      → All (Stored n) records
      → scan {F = F} schema s ≡ (ok rows, s)
      → let (result, s') = insert_row schema row s in
        let pointer : RecordPointer = record { table = schema.name; page_id = n; slot = 0 } in
        (result ≡ ok pointer)
        × (scan schema s'
            ≡ (ok (rows ++ (pointer, ordered_row schema.columns normalized) ∷ []), s'))
  unfolding scan persisted
  scan-insert_row n schema row normalized records s rows a h e =
      let s' = with_row n schema records normalized s in
      let new_records = records ++ record { page_id = n; slot = 0; deleted = false } ∷ [] in
      let before : scan_records {F = F} schema records s ≡ (ok rows, s) =
        rw (scan, read_table_records_found schema.name records s a.pages.0 a.found) at e in
      let read_now =
        read_table_records_found schema.name new_records s' a.pages.0
          (lookup-insert_self schema.name new_records s.state.tables) in
      subst
        (λ (p : Result RecordPointer × Storage).
          (p.0 ≡ ok (record { table = schema.name; page_id = n; slot = 0 }))
          × (scan {F = F} schema p.1 ≡ (
            ok (
                rows
                ++ (
                  record { table = schema.name; page_id = n; slot = 0 },
                  ordered_row schema.columns normalized,
                )
                  ∷ []),
            p.1,
          )))
        (sym (insert_row_lem n schema row normalized records s a))
        (
          refl,
          rw read_now
              (scan_records-append n schema row normalized records records s rows a h before),
        )
