-- ===== src/Storage/Recovery.antt =====
-- tinydb/storage/file.py: what a transaction that has begun leaves in the file, and what opening such
-- a file makes of it.
use tinydb_sueprflow.Prelude.{
  ℕ, ◌+◌, ◌*◌, ◌≤◌, ◌≡◌, refl, sym, ap, ◌∙◌, subst, false, none, some, [], ◌++◌, length,
  length-append, length-drop, take, drop, arith, leb→ltb_false, drop-drop, take-length-append,
  append-nil, is_some,
}
use tinydb_sueprflow.Errors.{ok}
use tinydb_sueprflow.Page.{page_size}
use tinydb_sueprflow.Storage.Bytes.{Bytes}
use tinydb_sueprflow.Storage.State.{Marker, State, Codec, StateLaws}
use tinydb_sueprflow.Storage.Actions.{Storage}
use tinydb_sueprflow.Storage.Header.{read_header}
use tinydb_sueprflow.Storage.Pages.{page_offset}
use tinydb_sueprflow.Storage.Snapshot.{
  snapshot_file, new_marker, append_snapshot_pages, read_snapshot_from_marker,
  begin_transaction_recovery_snapshot,
}
use tinydb_sueprflow.Storage.HeaderRoundTrip.{
  Fits, header_page, length-header_page, persisted, persist_state-Fits, header_page_read, drop-all,
}
use tinydb_sueprflow.Storage.PageLaws.{HasPages, require_open_lem}
use tinydb_sueprflow.Storage.Chunks.{
  chunks, chunks-Small, join-chunks, page_images, length-page_images, page_images-HoldsChunks,
  HoldsChunks, numbers_from, append_pages_lem, read_chunks_lem,
}

-- The marker of a transaction that began when the file was `original`, with `n` pages.
abbrev pub marker_of : ℕ → Bytes → Marker
marker_of n original = new_marker original (numbers_from n (length (chunks original)))

pub snapshot_file_lem : (s : Storage) → s.closed ≡ false → snapshot_file s ≡ (ok s.file, s)
unfolding snapshot_file
snapshot_file_lem s opened = rw (require_open_lem s opened) refl

pub append_snapshot_pages_lem :
    (n : ℕ) (s : Storage)
    → HasPages n s
    → append_snapshot_pages s.file s ≡ (
      ok (numbers_from n (length (chunks s.file))),
      record s { file = s.file ++ page_images (chunks s.file) },
    )
unfolding append_snapshot_pages
append_snapshot_pages_lem n s pages =
    append_pages_lem n (chunks s.file) s pages (chunks-Small s.file)

-- The snapshot is read back from the pages that hold its chunks.
pub read_snapshot_lem :
    (n m : ℕ) (original : Bytes) (s : Storage)
    → HasPages m s
    → n + length (chunks original) ≤ m
    → HoldsChunks (chunks original) (drop (page_offset n) s.file)
    → read_snapshot_from_marker (marker_of n original) s ≡ (ok original, s)
unfolding read_snapshot_from_marker
read_snapshot_lem n m original s pages h holds =
    let all : take (length original) original ≡ original =
      ap (take (length original)) (sym (append-nil original)) ∙ take-length-append original [] in
    rw
      (
        read_chunks_lem m n (chunks original) s pages h holds,
        join-chunks original,
        leb→ltb_false (length original) (length original) (omega arith),
        all,
      )
      refl

module _ ⦃codec : Codec State⦄ where
  -- A file that begins with a header that names a snapshot, and that holds that snapshot.
  pub record Recoverable (n : ℕ) (original file : Bytes) : Type 0 where
    pub pages : ℕ
    pub size : length file ≡ (pages + 1) * page_size
    pub enough : n + length (chunks original) ≤ pages
    pub state : State
    pub header : read_header file ≡ ok state
    pub marked : state.transaction ≡ some (marker_of n original)
    pub snapshot : HoldsChunks (chunks original) (drop (page_offset n) file)

  -- The metadata of a transaction that begins.
  abbrev pub marked_state : ℕ → Storage → State
  marked_state n s = record s.state { transaction = some (marker_of n s.file) }

  -- The storage after a transaction has begun.
  abbrev pub begun : ℕ → Storage → Storage
  begun n s =
      persisted
        (record s { file = s.file ++ page_images (chunks s.file); state = marked_state n s })

  module _ ⦃laws : StateLaws⦄ where
    pub begin_lem :
        (n : ℕ) (s : Storage)
        → HasPages n s
        → s.state.transaction ≡ none
        → Fits (marked_state n s)
        → begin_transaction_recovery_snapshot s ≡ (ok tt, begun n s)
    unfolding begin_transaction_recovery_snapshot
    begin_lem n s pages idle fits =
        let others =
          persist_state-Fits
            (record s { file = s.file ++ page_images (chunks s.file); state = marked_state n s })
            fits in
        rw
          (
            require_open_lem s pages.0,
            ap is_some idle,
            snapshot_file_lem s pages.0,
            append_snapshot_pages_lem n s pages,
            others,
          )
          refl

    pub begin-Recoverable :
        (n : ℕ) (s : Storage)
        → HasPages n s
        → Fits (marked_state n s)
        → Recoverable n s.file (begun n s).file
    unfolding persisted
    begin-Recoverable n s (opened, size) fits =
        let images = page_images (chunks s.file) in
        let head = header_page (marked_state n s) in
        let head_size : length head ≡ 4096 = length-header_page (marked_state n s) fits in
        let images_size = length-page_images (chunks s.file) (chunks-Small s.file) in
        let behind : drop ((n + 1) * 4096) (head ++ drop 4096 (s.file ++ images)) ≡ images =
          ap (λ k. drop k (head ++ drop 4096 (s.file ++ images))) (omega arith)
          ∙ sym (drop-drop 4096 (n * 4096) (head ++ drop 4096 (s.file ++ images)))
          ∙ ap (drop (n * 4096)) (drop-all 4096 head (drop 4096 (s.file ++ images)) head_size)
          ∙ drop-drop 4096 (n * 4096) (s.file ++ images)
          ∙ drop-all (4096 + n * 4096) s.file images (omega (arith, size)) in
        record {
          pages = n + length (chunks s.file);
          size = omega (
            arith,
            length-append head (drop 4096 (s.file ++ images)),
            head_size,
            length-drop 4096 (s.file ++ images),
            length-append s.file images,
            images_size,
            size,
          );
          enough = omega arith;
          state = laws.loaded (marked_state n s);
          header = header_page_read (marked_state n s) (drop 4096 (s.file ++ images)) fits;
          marked = (laws.loaded-SameState (marked_state n s)).same_transaction;
          snapshot =
              subst (HoldsChunks (chunks s.file)) (append-nil images ∙ sym behind)
                (page_images-HoldsChunks (chunks s.file) [] (chunks-Small s.file));
        }
