-- ===== src/Page.antt =====
-- tinydb/storage/page.py: a page of fixed size, and a payload with its length in front. Bytes are
-- numbers.
pub mod RoundTrip
use tinydb_sueprflow.Prelude.{
  ℕ, ◌+◌, ◌-◌, ◌*◌, ◌/◌, ◌%◌, Bool, true, false, List, [], ◌∷◌, ◌++◌, length, take, drop, replicate,
  ltb, if◌then◌else◌,
}
use tinydb_sueprflow.Errors.{
  Result, ok, err, ◌>>=◌, ◌>>◌, raise_if, Error, storage_error, data_too_large, payload_too_large,
  payload_truncated, payload_length,
}

abbrev pub page_size : ℕ
page_size = 4096

abbrev pub payload_prefix_size : ℕ
payload_prefix_size = 4

-- `struct.pack(">I", n)`, for an `n` below 2 ^ 32
abbrev pub pack_size : ℕ → List ℕ
pack_size n = n / 16777216 % 256 ∷ n / 65536 % 256 ∷ n / 256 % 256 ∷ n % 256 ∷ []

-- `struct.unpack(">I", data)[0]`, for four bytes
abbrev pub unpack_size : List ℕ → ℕ
unpack_size (a ∷ b ∷ c ∷ d ∷ rest) = ((a * 256 + b) * 256 + c) * 256 + d
unpack_size short = 0

unfoldable pub normalize_page_data : List ℕ → Result (List ℕ)
normalize_page_data data_ = do
  raise_if (ltb page_size (length data_)) (storage_error data_too_large)
  ok (data_ ++ replicate (page_size - length data_) 0)

unfoldable pub pack_payload : List ℕ → Result (List ℕ)
unfolding normalize_page_data
pack_payload payload = do
  raise_if (ltb (page_size - payload_prefix_size) (length payload))
      (storage_error payload_too_large)
  normalize_page_data (pack_size (length payload) ++ payload)

unfoldable pub unpack_payload : List ℕ → Result (List ℕ)
unpack_payload data_ = do
  raise_if (ltb (length data_) payload_prefix_size) (storage_error payload_truncated)
  let payload_size = unpack_size (take payload_prefix_size data_)
  raise_if (ltb (page_size - payload_prefix_size) payload_size) (storage_error payload_length)
  raise_if (ltb (length data_) (payload_prefix_size + payload_size))
      (storage_error payload_truncated)
  ok (take payload_size (drop payload_prefix_size data_))
