-- ===== src/Storage/PageLaws.antt =====
-- Pages of a storage whose file has whole pages: they are read as they were written, and each by itself.
use tinydb_sueprflow.Prelude.{
  ℕ, ◌+◌, ◌-◌, ◌*◌, ◌/◌, ◌%◌, ◌≤◌, ◌<◌, ◌≡◌, refl, sym, ap, ◌∙◌, true, false, not, ◌||◌, ◌==◌, ltb,
  leb, [], ◌∷◌, ◌++◌, append-nil, length, length-append, length-replicate, length-take, length-drop,
  replicate, drop, arith, leb→ltb_false, eq→test,
}
use tinydb_sueprflow.Errors.{ok}
use tinydb_sueprflow.Page.{page_size, normalize_page_data}
use tinydb_sueprflow.Storage.Bytes.{Bytes, slice, write_at}
use tinydb_sueprflow.Storage.Actions.{Storage, require_open}
use tinydb_sueprflow.Storage.Pages.{
  page_offset, page_count, allocate_page, validate_page_id, read_page, write_page,
}

-- An open storage of `n` pages behind the header page.
abbrev pub HasPages : ℕ → Storage → Type 0
HasPages n s = (s.closed ≡ false) × (length s.file ≡ (n + 1) * page_size)

-- What a page holds after `data` was written to it.
abbrev pub padded : Bytes → Bytes
padded data_ = data_ ++ replicate (page_size - length data_) 0

pub length-padded : (data_ : Bytes) → length data_ ≤ page_size → length (padded data_) ≡ page_size
length-padded data_ h =
    let zero_byte : ℕ = 0 in
    omega (
      arith,
      length-append data_ (replicate (4096 - length data_) zero_byte),
      length-replicate (4096 - length data_) zero_byte,
    )

pub require_open_lem : (s : Storage) → s.closed ≡ false → require_open s ≡ (ok tt, s)
unfolding require_open
require_open_lem s opened = rw opened refl

pub write_at-end : (file bytes : Bytes) → write_at (length file) bytes file ≡ file ++ bytes
unfolding write_at
write_at-end [] [] = refl
write_at-end [] (b ∷ bytes) = append-nil (b ∷ bytes)
write_at-end (b ∷ file) bytes = ap (λ (l : Bytes). b ∷ l) (write_at-end file bytes)

pub page_count_lem : (n : ℕ) (s : Storage) → HasPages n s → page_count s ≡ (ok n, s)
unfolding page_count require_open
page_count_lem n s (opened, size) =
    let tests : (ltb (length s.file) 4096 || not (length s.file % 4096 == 0)) ≡ false =
      ground (arith, size) in
    let count : length s.file / 4096 - 1 ≡ n = omega arith in rw (opened, tests, count) refl

pub allocate_page_lem :
    (n : ℕ) (s : Storage) (data_ : Bytes)
    → HasPages n s
    → length data_ ≤ page_size
    → allocate_page data_ s ≡ (ok n, record s { file = s.file ++ padded data_ })
unfolding allocate_page normalize_page_data
allocate_page_lem n s data_ (opened, size) h =
    let offset : (n + 1) * 4096 ≡ length s.file = sym size in
    let written : write_at ((n + 1) * 4096) (padded data_) s.file ≡ s.file ++ padded data_ =
      ap (λ k. write_at k (padded data_) s.file) offset ∙ write_at-end s.file (padded data_) in
    rw
      (
        require_open_lem s opened,
        page_count_lem n s (opened, size),
        leb→ltb_false 4096 (length data_) h,
        written,
      )
      refl

validate_page_id_lem :
    (n page_id : ℕ) (s : Storage)
    → HasPages n s
    → page_id < n
    → validate_page_id page_id s ≡ (ok tt, s)
unfolding validate_page_id
validate_page_id_lem n page_id s pages h =
    let test : leb n page_id ≡ false = ground arith in rw (page_count_lem n s pages, test) refl

pub length-slice :
    (offset n : ℕ) (file : Bytes) → offset + n ≤ length file → length (slice offset n file) ≡ n
length-slice offset n file h =
    omega (arith, length-take n (drop offset file), length-drop offset file)

pub read_page_lem :
    (n page_id : ℕ) (s : Storage)
    → HasPages n s
    → page_id < n
    → read_page page_id s ≡ (ok (slice (page_offset page_id) page_size s.file), s)
unfolding read_page
read_page_lem n page_id s (opened, size) h =
    let whole : (length (slice ((page_id + 1) * 4096) 4096 s.file) == 4096) ≡ true =
      eq→test (length (slice ((page_id + 1) * 4096) 4096 s.file)) 4096
        (length-slice ((page_id + 1) * 4096) 4096 s.file (omega arith)) in
    rw (require_open_lem s opened, validate_page_id_lem n page_id s (opened, size) h, whole) refl

pub write_page_lem :
    (n page_id : ℕ) (s : Storage) (data_ : Bytes)
    → HasPages n s
    → page_id < n
    → length data_ ≤ page_size
    → write_page page_id data_ s
      ≡ (ok tt, record s { file = write_at (page_offset page_id) (padded data_) s.file })
unfolding write_page normalize_page_data
write_page_lem n page_id s data_ (opened, size) h hd =
    rw
      (
        require_open_lem s opened,
        validate_page_id_lem n page_id s (opened, size) h,
        leb→ltb_false 4096 (length data_) hd,
      )
      refl
