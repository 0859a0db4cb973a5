-- ===== src/Storage/Writes.antt =====
-- tinydb/storage/file.py: what a transaction writes after it has begun, operation by operation, and a
-- process that is cut off between any two of them.
use tinydb_sueprflow.Prelude.{
  ℕ, zero, suc, ◌+◌, ◌*◌, ◌≤◌, ◌<◌, ◌≡◌, refl, sym, ap, ◌∙◌, false, ◌⊎◌, inl, inr, some, List, [],
  ◌∷◌, length, take, drop, arith, take-nil,
}
use native.Mathlib.Nat.{suc-add}
use tinydb_sueprflow.Page.{page_size, unpack_payload}
use tinydb_sueprflow.Storage.Bytes.{Bytes, slice, slice-write_at_before, drop-write_at}
use tinydb_sueprflow.Storage.State.{State, Codec}
use tinydb_sueprflow.Storage.Actions.{Storage}
use tinydb_sueprflow.Storage.Header.{read_header}
use tinydb_sueprflow.Storage.Pages.{page_offset}
use tinydb_sueprflow.Storage.PageLaws.{HasPages, padded, length-padded}
use tinydb_sueprflow.Storage.PageAccess.{with_page, HasPages-write_page}
use tinydb_sueprflow.Storage.Chunks.{chunks, HoldsChunks}
use tinydb_sueprflow.Storage.Recovery.{Recoverable, marker_of}
use tinydb_sueprflow.Storage.Reopen.{take-take}

drop-take : (m n : ℕ) (xs : Bytes) → drop m (take (m + n) xs) ≡ take n (drop m xs)
drop-take zero n xs = ap (λ k. take k xs) (omega arith)
drop-take (suc m) n [] = rw suc-add (sym (take-nil n))
drop-take (suc m) n (x ∷ xs) = rw suc-add (drop-take m n xs)

-- Only so many pages of the bytes are looked at.
HoldsChunks-take :
    (cs : List Bytes) (xs ys : Bytes)
    → take (length cs * page_size) xs ≡ take (length cs * page_size) ys
    → HoldsChunks cs xs
    → HoldsChunks cs ys
HoldsChunks-take [] xs ys e h = tt
HoldsChunks-take (c ∷ cs) xs ys e h =
    let k = length cs * 4096 in
    let first : (zs : Bytes) → take 4096 (take (suc (length cs) * 4096) zs) ≡ take 4096 zs =
      λ zs. take-take 4096 (suc (length cs) * 4096) zs (omega arith) in
    let others : (zs : Bytes)
        → drop 4096 (take (suc (length cs) * 4096) zs) ≡ take k (drop 4096 zs) =
      λ zs. ap (λ m. drop 4096 (take m zs)) (omega arith) ∙ drop-take 4096 k zs in
    (
      ap unpack_payload (sym (first ys) ∙ ap (take 4096) (sym e) ∙ first xs) ∙ h.0,
      HoldsChunks-take cs (drop 4096 xs) (drop 4096 ys)
          (sym (others xs) ∙ ap (drop 4096) e ∙ others ys) h.1,
    )

module _ ⦃codec : Codec State⦄ where
  -- The header is in the first page.
  read_header-take :
      (file file' : Bytes) → take 4096 file ≡ take 4096 file' → read_header file ≡ read_header file'
  unfolding read_header
  read_header-take file file' e = rw e refl

  -- A change of the file outside of the header page and of the snapshot's pages.
  pub Recoverable-change :
      (n m : ℕ) (original file file' : Bytes)
      → (held : Recoverable n original file) → length file' ≡ (m + 1) * page_size
      → held.pages ≤ m
      → take 4096 file ≡ take 4096 file'
      → slice (page_offset n) (length (chunks original) * page_size) file
        ≡ slice (page_offset n) (length (chunks original) * page_size) file'
      → Recoverable n original file'
  Recoverable-change n m original file file' held size more same_header same_snapshot = record {
    pages = m;
    size = size;
    enough = omega (arith, held.enough);
    state = held.state;
    header = sym (read_header-take file file' same_header) ∙ held.header;
    marked = held.marked;
    snapshot =
        HoldsChunks-take (chunks original) (drop (page_offset n) file) (drop (page_offset n) file')
          same_snapshot held.snapshot;
  }

  -- An open storage in the transaction that began with the file `original`.
  pub record InTransaction (n : ℕ) (original : Bytes) (s : Storage) : Type 0 where
    pub is_open : s.closed ≡ false
    pub in_memory : s.state.transaction ≡ some (marker_of n original)
    pub on_disk : Recoverable n original s.file

  -- A page that the snapshot is not in.
  abbrev pub Outside : ℕ → Bytes → ℕ → Type 0
  Outside n original page_id = (page_id < n) ⊎ (n + length (chunks original) ≤ page_id)

  pub InTransaction-with_page :
      (n page_id : ℕ) (original data_ : Bytes) (s : Storage)
      → (t : InTransaction n original s) → Outside n original page_id
      → page_id < t.on_disk.pages
      → length data_ ≤ page_size
      → InTransaction n original (with_page page_id data_ s)
  InTransaction-with_page n page_id original data_ s t outside h hd =
      let pages : HasPages t.on_disk.pages s = (t.is_open, t.on_disk.size) in
      let here = HasPages-write_page t.on_disk.pages page_id s data_ pages h hd in
      let bytes = padded data_ in
      let size = length-padded data_ hd in
      let k = length (chunks original) * 4096 in
      let inside : (page_id + 1) * 4096 ≤ length s.file = omega (arith, pages.1) in
      let enough = t.on_disk.enough in
      let same : slice (page_offset n) k s.file
          ≡ slice (page_offset n) k ((with_page page_id data_ s).file) =
        elim outside [
          | inl before ↦
              ap (take k) (
                sym
                  (drop-write_at (page_offset page_id) (page_offset n) bytes s.file (omega arith)))
          | inr after ↦ sym (
              slice-write_at_before (page_offset page_id) (page_offset n) k bytes s.file
                (omega arith) inside)
        ] in
      record {
        is_open = t.is_open;
        in_memory = t.in_memory;
        on_disk =
            Recoverable-change n t.on_disk.pages original s.file ((with_page page_id data_ s).file)
              t.on_disk here.1 (omega arith)
              (sym (
                slice-write_at_before (page_offset page_id) 0 4096 bytes s.file (omega arith)
                  inside))
              same;
      }
