-- ===== src/Storage/Bytes.antt =====
-- A file as the list of its bytes: what `seek`, `read`, `write` and `truncate` do to it.
use tinydb_sueprflow.Prelude.{
  ℕ, zero, suc, ◌+◌, ◌-◌, ◌≤◌, ◌≡◌, refl, ap, ◌∙◌, List, [], ◌∷◌, ◌++◌, length, length-append,
  length-drop, take, drop, max, arith, take-length-append, drop-drop, drop-nil,
}

abbrev pub Bytes : Type 0
Bytes = List ℕ

-- `seek(offset)` and `read(n)`
abbrev pub slice : ℕ → ℕ → Bytes → Bytes
slice offset n file = take n (drop offset file)

-- `write` at the start of what is there: it is longer than the bytes, or ends with them.
abbrev pub overlay : Bytes → Bytes → Bytes
overlay bytes file = bytes ++ drop (length bytes) file

-- `seek(offset)` and `write(bytes)`; behind the end of the file the gap is filled with zeros.
unfoldable pub write_at : ℕ → Bytes → Bytes → Bytes
write_at zero bytes file = overlay bytes file
write_at (suc n) bytes [] = 0 ∷ write_at n bytes []
write_at (suc n) bytes (b ∷ file) = b ∷ write_at n bytes file

pub length-write_at :
    (offset : ℕ) (bytes file : Bytes)
    → length (write_at offset bytes file) ≡ max (offset + length bytes) (length file)
unfolding write_at
length-write_at zero bytes file =
    omega (arith, length-append bytes (drop (length bytes) file), length-drop (length bytes) file)
length-write_at (suc n) bytes [] = omega (arith, length-write_at n bytes [])
length-write_at (suc n) bytes (b ∷ file) = omega (arith, length-write_at n bytes file)

-- What was written is read back.
pub slice-write_at_same :
    (offset : ℕ) (bytes file : Bytes)
    → slice offset (length bytes) (write_at offset bytes file) ≡ bytes
unfolding write_at
slice-write_at_same zero bytes file = take-length-append bytes (drop (length bytes) file)
slice-write_at_same (suc n) bytes [] = slice-write_at_same n bytes []
slice-write_at_same (suc n) bytes (b ∷ file) = slice-write_at_same n bytes file

-- What stands before the written bytes stays, ...
pub slice-write_at_before :
    (offset start n : ℕ) (bytes file : Bytes)
    → start + n ≤ offset
    → offset ≤ length file
    → slice start n (write_at offset bytes file) ≡ slice start n file
unfolding write_at
slice-write_at_before zero zero zero bytes file h p = refl
slice-write_at_before zero zero (suc n) bytes file h p = absurd (omega arith)
slice-write_at_before zero (suc start) n bytes file h p = absurd (omega arith)
slice-write_at_before (suc m) start n bytes [] h p = absurd (omega arith)
slice-write_at_before (suc m) zero zero bytes (b ∷ file) h p = refl
slice-write_at_before (suc m) zero (suc n) bytes (b ∷ file) h p =
    ap (λ (l : Bytes). b ∷ l)
      (slice-write_at_before m zero n bytes file (omega arith) (omega arith))
slice-write_at_before (suc m) (suc start) n bytes (b ∷ file) h p =
    slice-write_at_before m start n bytes file (omega arith) (omega arith)

pub drop-append_ge :
    (n : ℕ) (xs ys : Bytes) → length xs ≤ n → drop n (xs ++ ys) ≡ drop (n - length xs) ys
drop-append_ge n [] ys h = ap (λ k. drop k ys) (omega arith)
drop-append_ge zero (x ∷ xs) ys h = absurd (omega arith)
drop-append_ge (suc n) (x ∷ xs) ys h =
    drop-append_ge n xs ys (omega arith) ∙ ap (λ k. drop k ys) (omega arith)

-- ... and what stands behind them.
pub drop-write_at :
    (offset start : ℕ) (bytes file : Bytes)
    → offset + length bytes ≤ start
    → drop start (write_at offset bytes file) ≡ drop start file
unfolding write_at
drop-write_at zero start bytes file h =
    drop-append_ge start bytes (drop (length bytes) file) (omega arith)
    ∙ drop-drop (length bytes) (start - length bytes) file
    ∙ ap (λ k. drop k file) (omega arith)
drop-write_at (suc m) zero bytes file h = absurd (omega arith)
drop-write_at (suc m) (suc start) bytes [] h =
    drop-write_at m start bytes [] (omega arith) ∙ drop-nil start
drop-write_at (suc m) (suc start) bytes (b ∷ file) h =
    drop-write_at m start bytes file (omega arith)
