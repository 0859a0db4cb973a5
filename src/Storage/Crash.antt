-- ===== src/Storage/Crash.antt =====
-- tinydb/storage/file.py: a process that is cut off between any two writes of a transaction.
use tinydb_sueprflow.Prelude.{
  ℕ, suc, ◌+◌, ◌-◌, ◌*◌, ◌≤◌, ◌<◌, ◌≡◌, refl, sym, ap, ◌∙◌, subst, false, ◌⊎◌, inl, inr, ltb, leb,
  Bool-cases, Option-cases, Text, none, some, List, ◌++◌, length, length-append, length-drop, drop,
  arith, drop-drop,
}
use tinydb_sueprflow.Errors.{Result, ok}
use tinydb_sueprflow.Catalog.{Catalog, to_dict}
use tinydb_sueprflow.Python.Dict.{lookup, insert}
use tinydb_sueprflow.Page.{page_size, normalize_page_data}
use tinydb_sueprflow.Storage.Bytes.{Bytes, slice, slice-write_at_before, drop-append_ge}
use tinydb_sueprflow.Storage.State.{Record, State, Codec, StateLaws}
use tinydb_sueprflow.Storage.Actions.{Storage, discarded_incomplete}
use tinydb_sueprflow.Storage.Header.{read_header, persist_state, header_fixed_size}
use tinydb_sueprflow.Storage.Pages.{
  page_offset, allocate_page, write_page, validate_page_id, write_table_records, read_table_records,
  write_catalog,
}
use tinydb_sueprflow.Storage.Snapshot.{begin_transaction_recovery_snapshot}
use tinydb_sueprflow.Storage.Open.{open_existing}
use tinydb_sueprflow.Storage.HeaderRoundTrip.{
  header_page, length-header_page, persisted, persist_state-Fits, header_page_read,
  persist_state_too_large,
}
use tinydb_sueprflow.Storage.PageLaws.{
  HasPages, padded, length-padded, page_count_lem, require_open_lem, write_at-end,
  allocate_page_lem, write_page_lem,
}
use tinydb_sueprflow.Storage.PageAccess.{with_page}
use tinydb_sueprflow.Storage.Chunks.{chunks, HoldsChunks}
use tinydb_sueprflow.Storage.Recovery.{marker_of, marked_state, begun, begin_lem, begin-Recoverable}
use tinydb_sueprflow.Storage.Reopen.{opened, open_existing-Recoverable}
use tinydb_sueprflow.Storage.Writes.{
  Recoverable-change, InTransaction, InTransaction-with_page, Outside,
}

-- A page write takes effect, or is refused and leaves the storage as it was.
write_page_either :
    (m page_id : ℕ) (s : Storage) (data_ : Bytes)
    → HasPages m s
    → ((write_page page_id data_ s).1 ≡ s)
      ⊎ ((page_id < m)
          × (length data_ ≤ page_size)
          × ((write_page page_id data_ s).1 ≡ with_page page_id data_ s))
unfolding write_page validate_page_id normalize_page_data
write_page_either m page_id s data_ pages = elim (Bool-cases (leb m page_id)) [
  | inl out ↦ inl (rw (require_open_lem s pages.0, page_count_lem m s pages, out) refl)
  | inr inside ↦ elim (Bool-cases (ltb 4096 (length data_))) [
    | inl large ↦
        inl (rw (require_open_lem s pages.0, page_count_lem m s pages, inside, large) refl)
    | inr small ↦
        let h : page_id < m = ground (arith, inside) in
        let hd : length data_ ≤ 4096 = ground (arith, small) in
        inr (
          h,
          hd,
          ap (λ (p : Result (Unit {0}) × Storage). p.1)
              (write_page_lem m page_id s data_ pages h hd),
        )
  ]
]

-- An allocation, likewise.
allocate_page_either :
    (m : ℕ) (s : Storage) (data_ : Bytes)
    → HasPages m s
    → ((allocate_page data_ s).1 ≡ s)
      ⊎ ((length data_ ≤ page_size)
          × ((allocate_page data_ s).1 ≡ record s { file = s.file ++ padded data_ }))
unfolding allocate_page normalize_page_data
allocate_page_either m s data_ pages = elim (Bool-cases (ltb 4096 (length data_))) [
  | inl large ↦ inl (rw (require_open_lem s pages.0, page_count_lem m s pages, large) refl)
  | inr small ↦
      let hd : length data_ ≤ 4096 = ground (arith, small) in
      inr (hd, ap (λ (p : Result ℕ × Storage). p.1) (allocate_page_lem m s data_ pages hd))
]

pub slice-append :
    (start n : ℕ) (file bytes : Bytes)
    → start + n ≤ length file
    → slice start n (file ++ bytes) ≡ slice start n file
slice-append start n file bytes h =
    ap (slice start n) (sym (write_at-end file bytes))
    ∙ slice-write_at_before (length file) start n bytes file h (omega arith)

pub drop-behind :
    (head file : Bytes) (n : ℕ)
    → length head ≡ 4096
    → 4096 ≤ n
    → drop n (head ++ drop 4096 file) ≡ drop n file
drop-behind head file n size h =
    drop-append_ge n head (drop 4096 file) (omega (arith, size))
    ∙ drop-drop 4096 (n - length head) file
    ∙ ap (λ k. drop k file) (omega (arith, size))

module _ ⦃codec : Codec State⦄ where
  InTransaction-appended :
      (n : ℕ) (original data_ : Bytes) (s : Storage)
      → InTransaction n original s
      → length data_ ≤ page_size
      → InTransaction n original (record s { file = s.file ++ padded data_ })
  InTransaction-appended n original data_ s t hd =
      let m = t.on_disk.pages in
      let size = t.on_disk.size in
      let enough = t.on_disk.enough in
      let bytes = padded data_ in
      record {
        is_open = t.is_open;
        in_memory = t.in_memory;
        on_disk =
            Recoverable-change n (suc m) original s.file (s.file ++ bytes) t.on_disk
              (omega (arith, length-append s.file bytes, length-padded data_ hd, size))
              (omega arith) (sym (slice-append 0 4096 s.file bytes (omega (arith, size))))
              (sym (
                slice-append (page_offset n) (length (chunks original) * 4096) s.file bytes
                  (omega (arith, size, enough))));
      }

  module _ ⦃laws : StateLaws⦄ where
    InTransaction-persist :
        (n : ℕ) (original : Bytes) (state : State) (s : Storage)
        → InTransaction n original s
        → state.transaction ≡ some (marker_of n original)
        → InTransaction n original ((persist_state (record s { state = state })).1)
    unfolding persisted
    InTransaction-persist n original state s t e =
        elim (Bool-cases (ltb 4081 (length (codec.dumps state)))) [
          | inl large ↦
              let failed =
                persist_state_too_large (record s { state = state }) (ground (arith, large)) in
              subst (λ (p : Result (Unit {0}) × Storage). InTransaction n original p.1) (sym failed)
                (record { is_open = t.is_open; in_memory = e; on_disk = t.on_disk })
          | inr small ↦
              let fits : length (codec.dumps state) ≤ 4081 = ground (arith, small) in
              let s' : Storage = record s { state = state } in
              let head = header_page state in
              let head_size : length head ≡ 4096 = length-header_page state fits in
              let size = t.on_disk.size in
              let file' = head ++ drop 4096 s.file in
              let same : drop (page_offset n) file' ≡ drop (page_offset n) s.file =
                drop-behind head s.file (page_offset n) head_size (omega arith) in
              subst (λ (p : Result (Unit {0}) × Storage). InTransaction n original p.1)
                (sym (persist_state-Fits s' fits))
                (record {
                  is_open = t.is_open;
                  in_memory = e;
                  on_disk = record {
                    pages = t.on_disk.pages;
                    size = omega (
                      arith,
                      length-append head (drop 4096 s.file),
                      head_size,
                      length-drop 4096 s.file,
                      size,
                    );
                    enough = t.on_disk.enough;
                    state = laws.loaded state;
                    header = header_page_read state (drop 4096 s.file) fits;
                    marked = (laws.loaded-SameState state).same_transaction ∙ e;
                    snapshot = subst (HoldsChunks (chunks original)) (sym same) t.on_disk.snapshot;
                  };
                })
        ]

  -- The writes of a transaction that began with a file of `n` pages, `original`. A write that is refused
  -- is one of them as well.
  pub data Write (n : ℕ) (original : Bytes) : Storage → Storage → Type 0 where
    page_written :
        (page_id : ℕ) (data_ : Bytes) (s : Storage)
        → Outside n original page_id
        → Write n original s ((write_page page_id data_ s).1)
    page_allocated : (data_ : Bytes) (s : Storage) → Write n original s ((allocate_page data_ s).1)
    catalog_written :
        (catalog : Catalog) (s : Storage) → Write n original s ((write_catalog catalog s).1)
    records_written :
        (table : Text) (records : List Record) (s : Storage)
        → Write n original s ((write_table_records table records s).1)
    records_read :
        (table : Text) (s : Storage) → Write n original s ((read_table_records table s).1)

  pub data Writes (n : ℕ) (original : Bytes) : Storage → Storage → Type 0 where
    nothing : (s : Storage) → Writes n original s s
    then_write :
        (s s' s'' : Storage)
        → Writes n original s s'
        → Write n original s' s''
        → Writes n original s s''

  module _ ⦃laws : StateLaws⦄ where
    InTransaction-Write :
        (n : ℕ) (original : Bytes) (s s' : Storage)
        → Write n original s s'
        → InTransaction n original s
        → InTransaction n original s'
    unfolding write_catalog write_table_records read_table_records
    InTransaction-Write n original _ _ (page_written page_id data_ s outside) t =
        elim (write_page_either t.on_disk.pages page_id s data_ (t.is_open, t.on_disk.size)) [
          | inl same ↦ subst (InTransaction n original) (sym same) t
          | inr (h, hd, e) ↦
              subst (InTransaction n original) (sym e)
                (InTransaction-with_page n page_id original data_ s t outside h hd)
        ]
    InTransaction-Write n original _ _ (page_allocated data_ s) t =
        elim (allocate_page_either t.on_disk.pages s data_ (t.is_open, t.on_disk.size)) [
          | inl same ↦ subst (InTransaction n original) (sym same) t
          | inr (hd, e) ↦
              subst (InTransaction n original) (sym e)
                (InTransaction-appended n original data_ s t hd)
        ]
    InTransaction-Write n original _ _ (catalog_written catalog s) t =
        rw (require_open_lem s t.is_open) (
          InTransaction-persist n original (record s.state { catalog = to_dict catalog }) s t
            t.in_memory)
    InTransaction-Write n original _ _ (records_written table records s) t =
        rw (require_open_lem s t.is_open) (
          InTransaction-persist n original
            (record s.state { tables = insert table records s.state.tables }) s t t.in_memory)
    InTransaction-Write n original _ _ (records_read table s) t =
        elim (Option-cases (lookup table s.state.tables)) [
          | inl missing ↦
              rw (require_open_lem s t.is_open, missing)
                (record { is_open = t.is_open; in_memory = t.in_memory; on_disk = t.on_disk })
          | inr (records, found) ↦ rw (require_open_lem s t.is_open, found) t
        ]

    InTransaction-Writes :
        (n : ℕ) (original : Bytes) (s s' : Storage)
        → Writes n original s s'
        → InTransaction n original s
        → InTransaction n original s'
    InTransaction-Writes n original _ _ (nothing s) t = t
    InTransaction-Writes n original _ _ (then_write s s' s'' ws w) t =
        InTransaction-Write n original s' s'' w (InTransaction-Writes n original s s' ws t)

    -- An open storage of `n` pages, not in a transaction, whose header page can be read and still fits when
    -- the marker is in it, begins a transaction. After any writes of the transaction, that leave the
    -- pages of the snapshot alone, the process is cut off. Opening the file then gives every byte of the file
    -- from before the transaction, and the metadata of its header; with or without a lock.
    pub open_existing-Writes :
        (n : ℕ) (s s' : Storage) (before : State)
        → (s.closed ≡ false) × (length s.file ≡ (n + 1) * page_size)
        → s.state.transaction ≡ none
        → read_header s.file ≡ ok before
        → length (codec.dumps (marked_state n s)) ≤ page_size - header_fixed_size
        → Writes n s.file ((begin_transaction_recovery_snapshot s).1) s'
        → (open_existing false none s'.file ≡ (ok tt, opened s.file before discarded_incomplete))
          × (open_existing false (some (ok tt)) s'.file
              ≡ (ok tt, opened s.file before discarded_incomplete))
    unfolding persisted
    open_existing-Writes n s s' before pages idle e fits writes =
        let began : (begin_transaction_recovery_snapshot s).1 ≡ begun n s =
          ap (λ (p : Result (Unit {0}) × Storage). p.1) (begin_lem n s pages idle fits) in
        let starts : InTransaction n s.file (begun n s) = record {
          is_open = pages.0;
          in_memory = refl;
          on_disk = begin-Recoverable n s pages fits;
        } in
        let now =
          InTransaction-Writes n s.file (begun n s) s'
            (subst (λ from. Writes n s.file from s') began writes) starts in
        open_existing-Recoverable n s.file s'.file before now.on_disk e
