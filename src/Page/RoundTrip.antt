-- ===== src/Page/RoundTrip.antt =====
-- A payload that fits a page is read back from it.
use tinydb_sueprflow.Prelude.{
  ℕ, ◌+◌, ◌-◌, ◌≤◌, ◌<◌, ◌≡◌, refl, ap, false, List, ◌++◌, length, length-append, length-replicate,
  take, replicate, take-length-append, ltb, arith,
}
use tinydb_sueprflow.Errors.{ok}
use tinydb_sueprflow.Page.{
  page_size, payload_prefix_size, pack_size, unpack_size, normalize_page_data, pack_payload,
  unpack_payload,
}

pub unpack_size-pack_size :
    (n : ℕ) (rest : List ℕ) → n < 4294967296 → unpack_size (take 4 (pack_size n ++ rest)) ≡ n
unpack_size-pack_size n rest h = omega arith

-- A payload of at most 4092 bytes is packed into a page of exactly 4096 bytes, and unpacking that
-- page gives the payload.
pub unpack_payload-pack_payload :
    (payload : List ℕ)
    → length payload ≤ page_size - payload_prefix_size
    → (page : List ℕ) × (pack_payload payload ≡ ok page)
      × (length page ≡ page_size)
      × (unpack_payload page ≡ ok payload)
unfolding pack_payload unpack_payload normalize_page_data
unpack_payload-pack_payload payload h =
    let packed = pack_size (length payload) ++ payload in
    let zero_byte : ℕ = 0 in
    let padding = replicate (4096 - length packed) zero_byte in
    let page = packed ++ padding in
    let size : length page ≡ 4096 =
      omega
        (arith, length-append payload padding, length-replicate (4096 - length packed) zero_byte) in
    let not_over : ltb 4092 (length payload) ≡ false = ground arith in
    let not_large : ltb 4096 (length packed) ≡ false = ground arith in
    let not_short : ltb (length page) 4 ≡ false = ground (arith, size) in
    let read : unpack_size (take 4 page) ≡ length payload =
      unpack_size-pack_size (length payload) (payload ++ padding) (omega arith) in
    let not_cut : ltb (length page) (4 + length payload) ≡ false = ground (arith, size) in
    (
      page,
      rw (not_over, not_large) refl,
      size,
      rw (not_short, read, not_over, not_cut) (ap ok (take-length-append payload padding)),
    )
