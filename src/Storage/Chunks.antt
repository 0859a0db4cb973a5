-- ===== src/Storage/Chunks.antt =====
-- tinydb/storage/file.py: a snapshot is cut into chunks, one page each, and put together from them.
use tinydb_sueprflow.Prelude.{
  ℕ, zero, suc, ◌+◌, ◌-◌, ◌*◌, ◌≤◌, ◌≡◌, refl, sym, ap, ◌∙◌, subst, List, [], ◌∷◌, ◌++◌, append-nil,
  append_assoc, length, length-append, length-take, length-drop, take, drop, replicate, arith,
  leb→ltb_false, drop-drop, take-append-drop,
}
use tinydb_sueprflow.Errors.{ok}
use tinydb_sueprflow.Page.{page_size, pack_size, normalize_page_data, pack_payload, unpack_payload}
use tinydb_sueprflow.Page.RoundTrip.{unpack_payload-pack_payload}
use tinydb_sueprflow.Storage.Bytes.{Bytes}
use tinydb_sueprflow.Storage.Actions.{Storage}
use tinydb_sueprflow.Storage.Pages.{page_offset, allocate_page}
use tinydb_sueprflow.Storage.Snapshot.{
  chunks_from, at_least_one, append_pages, read_chunks, snapshot_chunk_size,
}
use tinydb_sueprflow.Storage.HeaderRoundTrip.{take-all, drop-all}
use tinydb_sueprflow.Storage.PageLaws.{
  HasPages, padded, length-padded, allocate_page_lem, read_page_lem,
}

-- Every chunk fits a page.
abbrev pub Small : List Bytes → Type 0
Small [] = Unit
Small (c ∷ cs) = (length c ≤ snapshot_chunk_size) × Small cs

abbrev pub join : List Bytes → Bytes
join [] = []
join (c ∷ cs) = c ++ join cs

-- The page that a chunk is packed into.
unfoldable pub packed : Bytes → Bytes
packed chunk = padded (pack_size (length chunk) ++ chunk)

abbrev pub page_images : List Bytes → Bytes
page_images [] = []
page_images (c ∷ cs) = packed c ++ page_images cs

-- The bytes begin with pages that hold the chunks.
abbrev pub HoldsChunks : List Bytes → Bytes → Type 0
HoldsChunks [] bytes = Unit
HoldsChunks (c ∷ cs) bytes =
    (unpack_payload (take page_size bytes) ≡ ok c) × HoldsChunks cs (drop page_size bytes)

-- `n` numbers from `start` on
abbrev pub numbers_from : ℕ → ℕ → List ℕ
numbers_from start zero = []
numbers_from start (suc n) = start ∷ numbers_from (suc start) n

join-chunks_from :
    (fuel : ℕ) (bytes : Bytes) → length bytes ≤ fuel → join (chunks_from fuel bytes) ≡ bytes
unfolding chunks_from
join-chunks_from fuel [] h = refl
join-chunks_from zero (b ∷ rest) h = absurd (omega arith)
join-chunks_from (suc fuel) (b ∷ rest) h =
    ap (λ (l : Bytes). take snapshot_chunk_size (b ∷ rest) ++ l)
      (join-chunks_from fuel (drop snapshot_chunk_size (b ∷ rest))
        (omega (arith, length-drop snapshot_chunk_size (b ∷ rest))))
    ∙ take-append-drop snapshot_chunk_size (b ∷ rest)

chunks_from-Small : (fuel : ℕ) (bytes : Bytes) → Small (chunks_from fuel bytes)
unfolding chunks_from
chunks_from-Small fuel [] = tt
chunks_from-Small zero (b ∷ rest) = tt
chunks_from-Small (suc fuel) (b ∷ rest) = (
  omega (arith, length-take snapshot_chunk_size (b ∷ rest)),
  chunks_from-Small fuel (drop snapshot_chunk_size (b ∷ rest)),
)

join-at_least_one : (chunks : List Bytes) → join (at_least_one chunks) ≡ join chunks
join-at_least_one [] = refl
join-at_least_one (c ∷ cs) = refl

at_least_one-Small : (chunks : List Bytes) → Small chunks → Small (at_least_one chunks)
at_least_one-Small [] h = (omega arith, tt)
at_least_one-Small (c ∷ cs) h = h

-- The chunks of a snapshot.
abbrev pub chunks : Bytes → List Bytes
chunks snapshot = at_least_one (chunks_from (length snapshot) snapshot)

pub chunks-Small : (snapshot : Bytes) → Small (chunks snapshot)
chunks-Small snapshot =
    at_least_one-Small (chunks_from (length snapshot) snapshot)
      (chunks_from-Small (length snapshot) snapshot)

pub join-chunks : (snapshot : Bytes) → join (chunks snapshot) ≡ snapshot
join-chunks snapshot =
    join-at_least_one (chunks_from (length snapshot) snapshot)
    ∙ join-chunks_from (length snapshot) snapshot (omega arith)

pub pack_payload_lem :
    (chunk : Bytes) → length chunk ≤ snapshot_chunk_size → pack_payload chunk ≡ ok (packed chunk)
unfolding pack_payload normalize_page_data packed
pack_payload_lem chunk h =
    rw
      (
        leb→ltb_false 4092 (length chunk) h,
        leb→ltb_false 4096 (length (pack_size (length chunk) ++ chunk))
            (omega (arith, length-append (pack_size (length chunk)) chunk)),
      )
      refl

pub length-packed :
    (chunk : Bytes) → length chunk ≤ snapshot_chunk_size → length (packed chunk) ≡ page_size
unfolding packed
length-packed chunk h =
    length-padded (pack_size (length chunk) ++ chunk)
      (omega (arith, length-append (pack_size (length chunk)) chunk))

pub padded-packed :
    (chunk : Bytes) → length chunk ≤ snapshot_chunk_size → padded (packed chunk) ≡ packed chunk
padded-packed chunk h =
    let zero_byte : ℕ = 0 in
    ap (λ n. packed chunk ++ replicate (4096 - n) zero_byte) (length-packed chunk h)
    ∙ append-nil (packed chunk)

pub unpack_payload-packed :
    (chunk : Bytes) → length chunk ≤ snapshot_chunk_size → unpack_payload (packed chunk) ≡ ok chunk
unpack_payload-packed chunk h =
    let (page, e, size, back) = unpack_payload-pack_payload chunk h in
    let same : page ≡ packed chunk = cc (e, pack_payload_lem chunk h) in
    ap unpack_payload (sym same) ∙ back

pub length-page_images :
    (cs : List Bytes) → Small cs → length (page_images cs) ≡ length cs * page_size
length-page_images [] h = refl
length-page_images (c ∷ cs) h = omega (
  arith,
  length-append (packed c) (page_images cs),
  length-packed c h.0,
  length-page_images cs h.1,
)

pub page_images-HoldsChunks :
    (cs : List Bytes) (rest : Bytes) → Small cs → HoldsChunks cs (page_images cs ++ rest)
page_images-HoldsChunks [] rest h = tt
page_images-HoldsChunks (c ∷ cs) rest h =
    let parts : (packed c ++ page_images cs) ++ rest ≡ packed c ++ (page_images cs ++ rest) =
      append_assoc (packed c) (page_images cs) rest in
    let first : take 4096 ((packed c ++ page_images cs) ++ rest) ≡ packed c =
      ap (take 4096) parts
      ∙ take-all 4096 (packed c) (page_images cs ++ rest) (length-packed c h.0) in
    let others : drop 4096 ((packed c ++ page_images cs) ++ rest) ≡ page_images cs ++ rest =
      ap (drop 4096) parts
      ∙ drop-all 4096 (packed c) (page_images cs ++ rest) (length-packed c h.0) in
    (
      ap unpack_payload first ∙ unpack_payload-packed c h.0,
      subst (HoldsChunks cs) (sym others) (page_images-HoldsChunks cs rest h.1),
    )

-- Each chunk is appended as the next page.
pub append_pages_lem :
    (n : ℕ) (cs : List Bytes) (s : Storage)
    → HasPages n s
    → Small cs
    → append_pages cs s
      ≡ (ok (numbers_from n (length cs)), record s { file = s.file ++ page_images cs })
unfolding append_pages
append_pages_lem n [] s pages h =
    ap (λ (b : Bytes). (ok [], record s { file = b })) (sym (append-nil s.file))
append_pages_lem n (c ∷ cs) s (opened, size) h =
    let s' : Storage = record s { file = s.file ++ packed c } in
    let one : allocate_page (packed c) s ≡ (ok n, s') =
      allocate_page_lem n s (packed c) (opened, size) (omega (arith, length-packed c h.0))
      ∙ ap (λ (b : Bytes). (ok n, record s { file = s.file ++ b })) (padded-packed c h.0) in
    let others =
      append_pages_lem (suc n) cs s'
        (opened, omega (arith, length-append s.file (packed c), length-packed c h.0, size)) h.1 in
    rw (pack_payload_lem c h.0, one, others)
      (ap (λ (b : Bytes). (ok (n ∷ numbers_from (suc n) (length cs)), record s { file = b }))
        (append_assoc s.file (packed c) (page_images cs)))

pub read_chunks_lem :
    (n start : ℕ) (cs : List Bytes) (s : Storage)
    → HasPages n s
    → start + length cs ≤ n
    → HoldsChunks cs (drop (page_offset start) s.file)
    → read_chunks (numbers_from start (length cs)) s ≡ (ok (join cs), s)
unfolding read_chunks
read_chunks_lem n start [] s pages h holds = refl
read_chunks_lem n start (c ∷ cs) s pages h holds =
    let next : drop 4096 (drop (page_offset start) s.file) ≡ drop (page_offset (suc start)) s.file =
      drop-drop (page_offset start) 4096 s.file ∙ ap (λ k. drop k s.file) (omega arith) in
    let others =
      read_chunks_lem n (suc start) cs s pages (omega arith)
        (subst (HoldsChunks cs) next holds.1) in
    rw (read_page_lem n start s pages (omega arith), holds.0, others) refl
