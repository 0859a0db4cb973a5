-- ===== src/Table/Deleting.antt =====
-- tinydb/storage/table.py: a row that was deleted.
use tinydb_sueprflow.Prelude.{
  ℕ, ◌≤◌, ◌<◌, ◌≡◌, refl, sym, ap, subst, text_eq_refl, true, false, Option, none, some, List, [],
  ◌∷◌, length, arith, Bool-cases, inl, inr,
}
use tinydb_sueprflow.Errors.{Result, ok, err, storage_error, not_active_row, already_deleted}
use tinydb_sueprflow.Python.Float.{FloatOps}
use tinydb_sueprflow.Python.Dict.{lookup, insert, lookup-insert_self}
use tinydb_sueprflow.Value.{Row}
use tinydb_sueprflow.Catalog.{TableSchema}
use tinydb_sueprflow.Index.Node.{RecordPointer}
use tinydb_sueprflow.Storage.State.{Record, State, Codec, StateLaws}
use tinydb_sueprflow.Storage.Actions.{Storage}
use tinydb_sueprflow.Storage.Snapshot.{snapshot_chunk_size}
use tinydb_sueprflow.Storage.HeaderRoundTrip.{Fits, persisted}
use tinydb_sueprflow.Storage.PageLaws.{HasPages, write_page_lem}
use tinydb_sueprflow.Storage.PageAccess.{with_page}
use tinydb_sueprflow.Storage.Chunks.{packed, pack_payload_lem, length-packed}
use tinydb_sueprflow.Table.{
  Payload, first_record, same_record, mark_deleted, find_record, validate_pointer, encode_row,
  read_payload, read, update_row, delete_row,
}
use tinydb_sueprflow.Table.Laws.{read_table_records_found, write_table_records-Fits}

first_record-mark_deleted :
    (pointer : RecordPointer) (records : List Record) (r : Record)
    → first_record pointer records ≡ some r
    → first_record pointer (mark_deleted pointer records) ≡ some (record r { deleted = true })
first_record-mark_deleted pointer [] r h = cc h
first_record-mark_deleted pointer (q ∷ records) r h = elim (Bool-cases (same_record pointer q)) [
  | inl here ↦ rw here (rw here (ap (λ (o : Option Record). marked o) (rw here at h)))
  | inr other ↦ rw other (rw other (first_record-mark_deleted pointer records r (rw other at h)))
]
  where
    marked : Option Record → Option Record
    marked none = none
    marked (some t) = some (record t { deleted = true })

module _ {F : Type 0} ⦃payloads : Codec (Payload F)⦄ ⦃codec : Codec State⦄ where
  -- A row that can be deleted: its record is the first of its pointer and active, its page can be read, and
  -- the changed page and the changed record have room.
  pub record Deletable (n page_id : ℕ) (schema : TableSchema) (records : List Record) (r : Record)
      (payload : Payload F) (s : Storage) : Type 0 where
    pub pages : HasPages n s
    pub inside : page_id < n
    pub found : lookup schema.name s.state.tables ≡ some records
    pub first :
        first_record (record { table = schema.name; page_id = page_id; slot = 0 }) records ≡ some r
    pub active : r.deleted ≡ false
    pub readable : read_payload schema page_id s ≡ (ok payload, s)
    pub room :
        length (payloads.dumps (record { table = schema.name; deleted = true; row = payload.row }))
        ≤ snapshot_chunk_size
    pub fits : Fits (record s.state {
      tables =
          insert schema.name
            (mark_deleted (record { table = schema.name; page_id = page_id; slot = 0 }) records)
            s.state.tables;
    })

  -- The storage after the row was deleted.
  abbrev pub without_row : ℕ → TableSchema → List Record → Payload F → Storage → Storage
  without_row page_id schema records payload s =
      let page =
        packed
          (payloads.dumps (record { table = schema.name; deleted = true; row = payload.row })) in
      let records' =
        mark_deleted (record { table = schema.name; page_id = page_id; slot = 0 }) records in
      persisted (record (with_page page_id page s) {
        state = record s.state { tables = insert schema.name records' s.state.tables };
      })

  module _ ⦃laws : StateLaws⦄ where
    delete_row_lem :
        (n page_id : ℕ) (schema : TableSchema) (records : List Record) (r : Record)
        (payload : Payload F) (s : Storage)
        → Deletable n page_id schema records r payload s
        → delete_row F schema (record { table = schema.name; page_id = page_id; slot = 0 }) s
          ≡ (ok tt, without_row page_id schema records payload s)
    unfolding delete_row validate_pointer encode_row
    delete_row_lem n page_id schema records r payload s d =
        let pointer : RecordPointer = record { table = schema.name; page_id = page_id; slot = 0 } in
        let dumped =
          payloads.dumps (record { table = schema.name; deleted = true; row = payload.row }) in
        let size : length (packed dumped) ≡ 4096 = length-packed dumped d.room in
        let s1 = with_page page_id (packed dumped) s in
        rw
          (
            text_eq_refl schema.name,
            read_table_records_found schema.name records s d.pages.0 d.found,
            d.first,
            d.active,
            d.readable,
            pack_payload_lem dumped d.room,
            write_page_lem n page_id s (packed dumped) d.pages d.inside (omega (arith, size)),
            write_table_records-Fits schema.name (mark_deleted pointer records) s1 d.pages.0 d.fits,
          )
          refl

    -- A row that can be deleted is deleted, and after that reading it, updating it and deleting it raise, and
    -- change nothing.
    pub delete_row-gone :
        ⦃fl : FloatOps F⦄ (n page_id : ℕ) (schema : TableSchema) (records : List Record)
        (r : Record) (payload : Payload F) (s : Storage) (new_row : Row F)
        → Deletable n page_id schema records r payload s
        → let pointer : RecordPointer = record {
          table = schema.name;
          page_id = page_id;
          slot = 0;
        } in
          let (result, s') = delete_row F schema pointer s in
          (result ≡ ok tt)
          × (read {F = F} schema pointer s' ≡ (err (storage_error not_active_row), s'))
          × (update_row schema pointer new_row s' ≡ (err (storage_error not_active_row), s'))
          × (delete_row F schema pointer s' ≡ (err (storage_error already_deleted), s'))
    unfolding read update_row delete_row validate_pointer find_record persisted
    delete_row-gone n page_id schema records r payload s new_row d =
        let pointer : RecordPointer = record { table = schema.name; page_id = page_id; slot = 0 } in
        let records' = mark_deleted pointer records in
        let s' = without_row page_id schema records payload s in
        let now =
          read_table_records_found schema.name records' s' d.pages.0
            (lookup-insert_self schema.name records' s.state.tables) in
        let gone = first_record-mark_deleted pointer records r d.first in
        subst
          (λ (p : Result (Unit {0}) × Storage).
            (p.0 ≡ ok tt)
            × (read {F = F} schema pointer p.1 ≡ (err (storage_error not_active_row), p.1))
            × (update_row schema pointer new_row p.1 ≡ (err (storage_error not_active_row), p.1))
            × (delete_row F schema pointer p.1 ≡ (err (storage_error already_deleted), p.1)))
          (sym (delete_row_lem n page_id schema records r payload s d))
          (
            refl,
            rw (text_eq_refl schema.name, now, gone) refl,
            rw (text_eq_refl schema.name, now, gone) refl,
            rw (text_eq_refl schema.name, now, gone) refl,
          )
