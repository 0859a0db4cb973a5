-- ===== src/Storage/HeaderRoundTrip.antt =====
-- The metadata that is written to the header page is read back from it.
use tinydb_sueprflow.Prelude.{
  ℕ, ◌+◌, ◌-◌, ◌≤◌, ◌≡◌, ◌≢◌, refl, sym, ap, true, false, ◌==◌, ltb, some, [], ◌∷◌, ◌++◌,
  append_assoc, length, length-append, length-replicate, replicate, take, drop, take-length-append,
  drop-length-append, arith, subst, text_eq, eq→test, leb→ltb_false, ◌<◌, lt→ltb,
}
use tinydb_sueprflow.Errors.{Result, ok, err, metadata_too_large, storage_error}
use tinydb_sueprflow.Page.{page_size, pack_size, unpack_size, normalize_page_data}
use tinydb_sueprflow.Page.RoundTrip.{unpack_size-pack_size}
use tinydb_sueprflow.Storage.Bytes.{Bytes, write_at}
use tinydb_sueprflow.Storage.State.{State, SameState, Codec, StateLaws}
use tinydb_sueprflow.Storage.Actions.{Storage}
use tinydb_sueprflow.Storage.Header.{
  load_state, read_header, header_bytes, write_header, persist_state, header_fixed_size,
}

pub drop-all : (n : ℕ) (xs ys : Bytes) → length xs ≡ n → drop n (xs ++ ys) ≡ ys
drop-all n xs ys h = subst (λ k. drop k (xs ++ ys) ≡ ys) h (drop-length-append xs ys)

pub take-all : (n : ℕ) (xs ys : Bytes) → length xs ≡ n → take n (xs ++ ys) ≡ xs
take-all n xs ys h = subst (λ k. take k (xs ++ ys) ≡ xs) h (take-length-append xs ys)

module _ ⦃codec : Codec State⦄ where
  -- The header of a state, padded to a page.
  abbrev pub header_page : State → Bytes
  header_page state =
      let zero_byte : ℕ = 0 in
      header_bytes state ++ replicate (4096 - length (header_bytes state)) zero_byte

  abbrev pub Fits : State → Type 0
  Fits state = length (codec.dumps state) ≤ 4081

  -- What writing the metadata does to a storage.
  unfoldable pub persisted : Storage → Storage
  persisted s = record s { file = header_page s.state ++ drop 4096 s.file }

module _ ⦃codec : Codec State⦄ ⦃laws : StateLaws⦄ where
  load_state-some :
      (raw : Bytes) (state : State)
      → raw ≢ []
      → codec.loads raw ≡ some state
      → load_state raw ≡ ok state
  unfolding load_state
  load_state-some [] state h e = absurd (h refl)
  load_state-some (b ∷ raw) state h e = rw (e, load_state) refl

  pub length-header_page : (state : State) → Fits state → length (header_page state) ≡ 4096
  unfolding header_bytes
  length-header_page state h =
      let zero_byte : ℕ = 0 in
      omega (
        arith,
        length-append (header_bytes state)
            (replicate (4096 - length (header_bytes state)) zero_byte),
        length-replicate (4096 - length (header_bytes state)) zero_byte,
      )

  -- The fixed part of a header page and the metadata, with what pads them.
  read_padded_header :
      (state : State) (pad : Bytes)
      → length (codec.dumps state) ≤ 4081
      → length (header_bytes state ++ pad) ≡ 4096
      → (file : Bytes) → take 4096 file ≡ header_bytes state ++ pad
      → read_header file ≡ ok (laws.loaded state)
  unfolding read_header header_bytes text_eq
  read_padded_header state pad h l file e =
      let metadata = codec.dumps state in
      let full : (length (header_bytes state ++ pad) == 4096) ≡ true =
        eq→test (length (header_bytes state ++ pad)) 4096 l in
      let small : ltb 4081 (length metadata) ≡ false = leb→ltb_false 4081 (length metadata) h in
      let size : unpack_size (take 4 (pack_size (length metadata) ++ (metadata ++ pad)))
          ≡ length metadata =
        unpack_size-pack_size (length metadata) (metadata ++ pad) (omega arith) in
      let assoc : (pack_size (length metadata) ++ metadata) ++ pad
          ≡ pack_size (length metadata) ++ (metadata ++ pad) =
        append_assoc (pack_size (length metadata)) metadata pad in
      rw (e, full, size, small, take-length-append metadata pad)
        (load_state-some metadata (laws.loaded state) (laws.not_empty state)
          (laws.loads-dumps state))

  pub header_page_read :
      (state : State) (rest : Bytes)
      → Fits state
      → read_header (header_page state ++ rest) ≡ ok (laws.loaded state)
  header_page_read state rest h =
      let zero_byte : ℕ = 0 in
      let pad = replicate (4096 - length (header_bytes state)) zero_byte in
      read_padded_header state pad h (length-header_page state h) (header_page state ++ rest)
        (take-all 4096 (header_page state) rest (length-header_page state h))

  length-header_bytes :
      (state : State) → length (header_bytes state) ≡ 15 + length (codec.dumps state)
  unfolding header_bytes
  length-header_bytes state = omega arith

  pub persist_state-Fits : (s : Storage) → Fits s.state → persist_state s ≡ (ok tt, persisted s)
  unfolding persist_state write_header normalize_page_data write_at persisted
  persist_state-Fits s h =
      let small : ltb 4081 (length (codec.dumps s.state)) ≡ false =
        leb→ltb_false 4081 (length (codec.dumps s.state)) h in
      let small_page : ltb 4096 (length (header_bytes s.state)) ≡ false =
        leb→ltb_false 4096 (length (header_bytes s.state))
          (omega (arith, length-header_bytes s.state)) in
      let whole : ℕ → Result (Unit {0}) × Storage =
        λ k. (ok tt, record s { file = header_page s.state ++ drop k s.file }) in
      rw (small, small_page) (ap whole (length-header_page s.state h))

  -- Where the dumped metadata has at most 4081 bytes, `_persist_state` succeeds, and the file's header then
  -- reads back as the metadata in memory: the same catalog and marker, and the same records under each
  -- table name. Everything behind the first page is as before, and the metadata in memory is unchanged.
  pub read_header-persist_state :
      (s : Storage)
      → length (codec.dumps s.state) ≤ page_size - header_fixed_size
      → let (result, s') = persist_state s in
        (result ≡ ok tt)
        × ((state : State) × (read_header s'.file ≡ ok state) × SameState state s.state)
        × (drop page_size s'.file ≡ drop page_size s.file)
        × (s'.state ≡ s.state)
  unfolding persisted
  read_header-persist_state s h =
      subst
        (λ ((result, s') : Result (Unit {0}) × Storage).
          (result ≡ ok tt)
          × ((state : State) × (read_header s'.file ≡ ok state) × SameState state s.state)
          × (drop page_size s'.file ≡ drop page_size s.file)
          × (s'.state ≡ s.state))
        (sym (persist_state-Fits s h))
        (
          refl,
          (
            laws.loaded s.state,
            header_page_read s.state (drop 4096 s.file) h,
            laws.loaded-SameState s.state,
          ),
          drop-all 4096 (header_page s.state) (drop 4096 s.file) (length-header_page s.state h),
          refl,
        )

  -- Where the dumped metadata is longer than that, nothing is written.
  pub persist_state_too_large :
      (s : Storage)
      → page_size - header_fixed_size < length (codec.dumps s.state)
      → persist_state s ≡ (err (storage_error metadata_too_large), s)
  unfolding persist_state write_header
  persist_state_too_large s h = rw (lt→ltb 4081 (length (codec.dumps s.state)) h) refl
