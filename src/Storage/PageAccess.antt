-- ===== src/Storage/PageAccess.antt =====
-- tinydb/storage/file.py: reading pages after writing them and after appending one.
use tinydb_sueprflow.Prelude.{
  false, ℕ, ◌+◌, ◌*◌, ◌≤◌, ◌<◌, ◌≡◌, ◌≢◌, refl, sym, ap, ◌∙◌, subst, length, take, arith, inl, inr,
  ◌⊎◌,
}
use tinydb_sueprflow.Errors.{Result, ok}
use tinydb_sueprflow.Page.{page_size}
use tinydb_sueprflow.Storage.Bytes.{
  Bytes, slice, write_at, slice-write_at_same, slice-write_at_before, drop-write_at,
  length-write_at,
}
use tinydb_sueprflow.Storage.Actions.{Storage}
use tinydb_sueprflow.Storage.Pages.{page_offset, page_count, read_page, write_page}
use tinydb_sueprflow.Storage.PageLaws.{
  HasPages, page_count_lem, padded, length-padded, read_page_lem, write_page_lem,
}

-- The storage after a page was written.
abbrev pub with_page : ℕ → Bytes → Storage → Storage
with_page page_id data_ s = record s { file = write_at (page_offset page_id) (padded data_) s.file }

pub HasPages-write_page :
    (n page_id : ℕ) (s : Storage) (data_ : Bytes)
    → HasPages n s
    → page_id < n
    → length data_ ≤ page_size
    → HasPages n (with_page page_id data_ s)
HasPages-write_page n page_id s data_ (opened, size) h hd = (
  opened,
  omega
      (arith, length-write_at ((page_id + 1) * 4096) (padded data_) s.file, length-padded data_ hd),
)

slice-with_page :
    (page_id : ℕ) (s : Storage) (data_ : Bytes)
    → length data_ ≤ page_size
    → slice (page_offset page_id) page_size ((with_page page_id data_ s).file) ≡ padded data_
slice-with_page page_id s data_ hd =
    subst (λ n. slice (page_offset page_id) n ((with_page page_id data_ s).file) ≡ padded data_)
      (length-padded data_ hd) (slice-write_at_same (page_offset page_id) (padded data_) s.file)

-- Of an open storage of `n` pages, a page below `n` that at most 4096 bytes are written to reads back as
-- these bytes, padded with zeros; there are `n` pages still, and the header page is as before.
pub read_page-write_page :
    (n page_id : ℕ) (s : Storage) (data_ : Bytes)
    → (s.closed ≡ false) × (length s.file ≡ (n + 1) * page_size)
    → page_id < n
    → length data_ ≤ page_size
    → let (result, s') = write_page page_id data_ s in
      (result ≡ ok tt)
      × (read_page page_id s' ≡ (ok (padded data_), s'))
      × (page_count s' ≡ (ok n, s'))
      × (take page_size s'.file ≡ take page_size s.file)
read_page-write_page n page_id s data_ pages h hd =
    let s' = with_page page_id data_ s in
    let kept : HasPages n s' = HasPages-write_page n page_id s data_ pages h hd in
    let Holds : Result (Unit {0}) × Storage → Type 0 = λ (result, s').
      (result ≡ ok tt)
      × (read_page page_id s' ≡ (ok (padded data_), s'))
      × (page_count s' ≡ (ok n, s'))
      × (take page_size s'.file ≡ take page_size s.file) in
    subst Holds (sym (write_page_lem n page_id s data_ pages h hd)) (
      refl,
      read_page_lem n page_id s' kept h
          ∙ ap (λ bytes. (ok bytes, s')) (slice-with_page page_id s data_ hd),
      page_count_lem n s' kept,
      slice-write_at_before (page_offset page_id) 0 4096 (padded data_) s.file (omega arith)
          (omega (arith, pages.1)),
    )

slice-other :
    (i j : ℕ) (bytes file : Bytes)
    → length bytes ≡ page_size
    → (i + 1) * page_size ≤ length file
    → i ≢ j
    → slice (page_offset j) page_size (write_at (page_offset i) bytes file)
      ≡ slice (page_offset j) page_size file
slice-other i j bytes file size h apart = elim less [
  | inl before ↦
      slice-write_at_before (page_offset i) (page_offset j) 4096 bytes file (omega arith) h
  | inr after ↦
      ap (take 4096) (drop-write_at (page_offset i) (page_offset j) bytes file (omega arith))
]
  where
    less : (j < i) ⊎ (i < j)
    less = omega (arith, apart)

-- Writing one page leaves every other page as it was.
pub read_page-write_page_other :
    (n page_id other : ℕ) (s : Storage) (data_ : Bytes)
    → (s.closed ≡ false) × (length s.file ≡ (n + 1) * page_size)
    → page_id < n
    → other < n
    → page_id ≢ other
    → length data_ ≤ page_size
    → (read_page other ((write_page page_id data_ s).1)).0 ≡ (read_page other s).0
read_page-write_page_other n page_id other s data_ pages h h' apart hd =
    let s' = with_page page_id data_ s in
    let kept : HasPages n s' = HasPages-write_page n page_id s data_ pages h hd in
    ap (λ (p : Result (Unit {0}) × Storage). (read_page other p.1).0)
      (write_page_lem n page_id s data_ pages h hd)
    ∙ ap (λ (p : Result Bytes × Storage). p.0) (read_page_lem n other s' kept h')
    ∙ ap (λ (b : Bytes). ok b)
        (slice-other page_id other (padded data_) s.file (length-padded data_ hd)
          (omega (arith, pages.1)) apart)
    ∙ sym (ap (λ (p : Result Bytes × Storage). p.0) (read_page_lem n other s pages h'))
