-- ===== src/Table/Laws.antt =====
-- tinydb/storage/table.py: an inserted row is read back.
use tinydb_sueprflow.Prelude.{
  ℕ, ◌+◌, ◌-◌, ◌*◌, ◌<◌, ◌≡◌, refl, sym, ap, ◌∙◌, Text, false, ◌==◌, some, List, [], ◌∷◌, ◌++◌,
  length, drop, take, take-length, arith, All, eq→test,
}
use tinydb_sueprflow.Errors.{ok, err, storage_error, metadata_too_large}
use tinydb_sueprflow.Python.Dict.{lookup, insert}
use tinydb_sueprflow.Value.{Row}
use tinydb_sueprflow.Catalog.{ColumnSchema}
use tinydb_sueprflow.Page.{page_size}
use tinydb_sueprflow.Rows.{get_value, ordered_row}
use tinydb_sueprflow.Storage.Bytes.{Bytes, slice}
use tinydb_sueprflow.Storage.State.{Record, State, Codec, StateLaws}
use tinydb_sueprflow.Storage.Actions.{Storage}
use tinydb_sueprflow.Storage.Pages.{page_offset, read_table_records, write_table_records}
use tinydb_sueprflow.Storage.HeaderRoundTrip.{
  Fits, persisted, persist_state-Fits, persist_state_too_large, drop-all,
}
use tinydb_sueprflow.Storage.Header.{header_fixed_size}
use tinydb_sueprflow.Storage.PageLaws.{require_open_lem}
use tinydb_sueprflow.Storage.Crash.{drop-behind}
use tinydb_sueprflow.Table.{Payload, first_record}

-- JSON gives back an object with the same members, in an order of its own.
pub record PayloadLaws (F : Type 0) ⦃payloads : Codec (Payload F)⦄ : Type 0 where
  pub loaded : Payload F → Payload F
  pub loads-dumps : (p : Payload F) → payloads.loads (payloads.dumps p) ≡ some (loaded p)
  pub same_table : (p : Payload F) → (loaded p).table ≡ p.table
  pub same_deleted : (p : Payload F) → (loaded p).deleted ≡ p.deleted
  pub same_row : (p : Payload F) (name : Text) → lookup name (loaded p).row ≡ lookup name p.row

pub ordered_row-lookup :
    {F : Type 0} (cs : List ColumnSchema) (row row' : Row F)
    → ((name : Text) → lookup name row ≡ lookup name row')
    → ordered_row cs row ≡ ordered_row cs row'
unfolding ordered_row get_value
ordered_row-lookup [] row row' same = refl
ordered_row-lookup (c ∷ cs) row row' same =
    rw (same c.name)
      (ap (λ l. (c.name, get_value row' c.name) ∷ l) (ordered_row-lookup cs row row' same))

-- A record of a page behind all others is the first of its pointer.
pub first_record-append :
    (table : Text) (n : ℕ) (records : List Record)
    → All (λ (r : Record). r.page_id < n) records
    → first_record
        (record { table = table; page_id = n; slot = 0 })
        (records ++ record { page_id = n; slot = 0; deleted = false } ∷ [])
      ≡ some (record { page_id = n; slot = 0; deleted = false })
first_record-append table n [] h = rw (eq→test n n refl) refl
first_record-append table n (r ∷ rs) h =
    let other : (r.page_id == n) ≡ false = ground (arith, h.0) in
    rw other (first_record-append table n rs h.1)

pub read_table_records_found :
    (table : Text) (records : List Record) (s : Storage)
    → s.closed ≡ false
    → lookup table s.state.tables ≡ some records
    → read_table_records table s ≡ (ok records, s)
unfolding read_table_records
read_table_records_found table records s opened found = rw (require_open_lem s opened, found) refl

pub write_table_records-Fits :
    ⦃codec : Codec State⦄ ⦃laws : StateLaws⦄ (table : Text) (records : List Record) (s : Storage)
    → s.closed ≡ false
    → Fits (record s.state { tables = insert table records s.state.tables })
    → write_table_records table records s ≡ (
      ok tt,
      persisted
          (record s { state = record s.state { tables = insert table records s.state.tables } }),
    )
unfolding write_table_records
write_table_records-Fits table records s opened fits =
    rw
      (
        require_open_lem s opened,
        persist_state-Fits
            (record s { state = record s.state { tables = insert table records s.state.tables } })
            fits,
      )
      refl

pub write_table_records_too_large :
    ⦃codec : Codec State⦄ ⦃laws : StateLaws⦄ (table : Text) (records : List Record) (s : Storage)
    → s.closed ≡ false
    → let s' = record s {
      state = record s.state { tables = insert table records s.state.tables };
    } in
      page_size - header_fixed_size < length (codec.dumps s'.state)
      → write_table_records table records s ≡ (err (storage_error metadata_too_large), s')
unfolding write_table_records
write_table_records_too_large table records s opened large =
    rw
      (
        require_open_lem s opened,
        persist_state_too_large
            (record s { state = record s.state { tables = insert table records s.state.tables } })
            large,
      )
      refl

-- What a page that was appended before the metadata was written holds.
pub slice-appended :
    (n : ℕ) (head file page : Bytes)
    → length head ≡ page_size
    → length page ≡ page_size
    → length file ≡ (n + 1) * page_size
    → slice (page_offset n) page_size (head ++ drop page_size (file ++ page)) ≡ page
slice-appended n head file page head_size size file_size =
    ap (take 4096) (
      drop-behind head (file ++ page) (page_offset n) head_size (omega arith)
      ∙ drop-all (page_offset n) file page file_size)
    ∙ ap (λ k. take k page) (sym size)
    ∙ take-length page
