-- ===== src/Storage/Growth.antt =====
-- tinydb/storage/file.py: how long the file is after a transaction, and what a transaction leaves that
-- cannot begin because its metadata is too large.
use tinydb_sueprflow.Prelude.{
  ℕ, ◌+◌, ◌-◌, ◌*◌, ◌≤◌, ◌<◌, ◌≡◌, refl, sym, ap, ◌∙◌, subst, false, inl, inr, ltb, Bool-cases,
  none, List, [], ◌∷◌, ◌++◌, length, length-append, length-drop, drop, arith, is_some,
}
use tinydb_sueprflow.Errors.{
  Result, err, storage_error, transaction_error, metadata_too_large, recovery_active,
}
use tinydb_sueprflow.Page.{page_size}
use tinydb_sueprflow.Storage.Bytes.{Bytes}
use tinydb_sueprflow.Storage.State.{State, Codec, StateLaws}
use tinydb_sueprflow.Storage.Actions.{Storage}
use tinydb_sueprflow.Storage.Header.{header_fixed_size, persist_state}
use tinydb_sueprflow.Storage.Snapshot.{
  snapshot_chunk_size, begin_transaction_recovery_snapshot, clear_transaction_recovery_snapshot,
}
use tinydb_sueprflow.Storage.HeaderRoundTrip.{
  Fits, header_page, length-header_page, persisted, persist_state-Fits, persist_state_too_large,
}
use tinydb_sueprflow.Storage.PageLaws.{HasPages, require_open_lem}
use tinydb_sueprflow.Storage.Chunks.{
  Small, join, chunks, chunks-Small, join-chunks, page_images, length-page_images,
}
use tinydb_sueprflow.Storage.Recovery.{
  marked_state, begun, begin_lem, snapshot_file_lem, append_snapshot_pages_lem,
}

length-join : (cs : List Bytes) → Small cs → length (join cs) ≤ length cs * snapshot_chunk_size
length-join [] h = omega arith
length-join (c ∷ cs) h = omega (arith, length-append c (join cs), length-join cs h.1, h.0)

-- The pages of a snapshot take at least as many bytes as the snapshot.
length-images : (snapshot : Bytes) → length snapshot ≤ length (page_images (chunks snapshot))
length-images snapshot =
    let small = chunks-Small snapshot in
    omega (
      arith,
      length-page_images (chunks snapshot) small,
      length-join (chunks snapshot) small,
      ap length (join-chunks snapshot),
    )

module _ ⦃codec : Codec State⦄ ⦃laws : StateLaws⦄ where
  length-persist_state :
      (s : Storage) → page_size ≤ length s.file → length (persist_state s).1.file ≡ length s.file
  unfolding persisted
  length-persist_state s h = elim (Bool-cases (ltb 4081 (length (codec.dumps s.state)))) [
    | inl large ↦
        ap (λ (p : Result (Unit {0}) × Storage). length p.1.file)
          (persist_state_too_large s (ground (arith, large)))
    | inr small ↦
        let fits : length (codec.dumps s.state) ≤ 4081 = ground (arith, small) in
        ap (λ (p : Result (Unit {0}) × Storage). length p.1.file) (persist_state-Fits s fits)
        ∙ omega (
          arith,
          length-append (header_page s.state) (drop 4096 s.file),
          length-header_page s.state fits,
          length-drop 4096 s.file,
          h,
        )
  ]

  length-begun :
      (n : ℕ) (s : Storage)
      → HasPages n s
      → Fits (marked_state n s)
      → 2 * length s.file ≤ length (begun n s).file
  unfolding persisted
  length-begun n s pages fits =
      let images = page_images (chunks s.file) in
      omega (
        arith,
        length-append (header_page (marked_state n s)) (drop 4096 (s.file ++ images)),
        length-header_page (marked_state n s) fits,
        length-drop 4096 (s.file ++ images),
        length-append s.file images,
        length-images s.file,
        pages.1,
      )

  -- A transaction that begins and is committed right away, with nothing written in between, leaves a file
  -- that is at least twice as long: the pages of the snapshot are not given back.
  pub length-commit :
      (n : ℕ) (s : Storage)
      → (s.closed ≡ false) × (length s.file ≡ (n + 1) * page_size)
      → s.state.transaction ≡ none
      → length (codec.dumps (marked_state n s)) ≤ page_size - header_fixed_size
      → 2 * length s.file
        ≤ length
            (clear_transaction_recovery_snapshot (begin_transaction_recovery_snapshot s).1).1.file
  unfolding clear_transaction_recovery_snapshot persisted
  length-commit n s pages idle fits =
      let doubled = length-begun n s pages fits in
      let s' = begun n s in
      let cleared = record s' { state = record s'.state { transaction = none } } in
      subst
        (λ (p : Result (Unit {0}) × Storage).
          2 * length s.file ≤ length (clear_transaction_recovery_snapshot p.1).1.file)
        (sym (begin_lem n s pages idle fits))
        (rw (require_open_lem s' pages.0)
          (omega (arith, length-persist_state cleared (omega (arith, doubled, pages.1)), doubled)))

  -- Where the metadata with the marker is too large for the header page, a transaction does not begin,
  -- its snapshot stays at the end of the file, and a second attempt is refused, because the marker
  -- stays in memory.
  pub begin_too_large :
      (n : ℕ) (s : Storage)
      → (s.closed ≡ false) × (length s.file ≡ (n + 1) * page_size)
      → s.state.transaction ≡ none
      → page_size - header_fixed_size < length (codec.dumps (marked_state n s))
      → let (result, s') = begin_transaction_recovery_snapshot s in
        (result ≡ err (storage_error metadata_too_large))
        × (s'.file ≡ s.file ++ page_images (chunks s.file))
        × (begin_transaction_recovery_snapshot s' ≡ (err (transaction_error recovery_active), s'))
  unfolding begin_transaction_recovery_snapshot
  begin_too_large n s pages idle large =
      let s' : Storage = record s {
        file = s.file ++ page_images (chunks s.file);
        state = marked_state n s;
      } in
      let first : begin_transaction_recovery_snapshot s
          ≡ (err (storage_error metadata_too_large), s') =
        rw
          (
            require_open_lem s pages.0,
            ap is_some idle,
            snapshot_file_lem s pages.0,
            append_snapshot_pages_lem n s pages,
            persist_state_too_large s' large,
          )
          refl in
      subst
        (λ (p : Result (Unit {0}) × Storage).
          (p.0 ≡ err (storage_error metadata_too_large))
          × (p.1.file ≡ s.file ++ page_images (chunks s.file))
          × (begin_transaction_recovery_snapshot p.1
              ≡ (err (transaction_error recovery_active), p.1)))
        (sym first) (refl, refl, rw (require_open_lem s' pages.0) refl)
