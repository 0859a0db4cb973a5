-- ===== src/Python/Int.antt =====
-- Python's `int`, over the native numbers, with its order.
use tinydb_sueprflow.Prelude.{ℕ, ◌≡◌, Bool, true, false, arith, ltb, if◌then◌else◌, ◌==◌}

-- `negsuc n` is -(n + 1).
pub data ℤ : Type 0 where
  pos : ℕ → ℤ
  negsuc : ℕ → ℤ

pub data Order : Type 0 where
  less equal greater : Order

abbrev pub flip : Order → Order
flip less = greater
flip equal = equal
flip greater = less

abbrev pub is_less : Order → Bool
is_less less = true
is_less _ = false

abbrev pub is_same : Order → Bool
is_same equal = true
is_same _ = false

abbrev pub is_greater : Order → Bool
is_greater greater = true
is_greater _ = false

abbrev pub compare_ℕ : ℕ → ℕ → Order
compare_ℕ a b = if ltb a b then less else if a == b then equal else greater

unfoldable pub compare_ℤ : ℤ → ℤ → Order
compare_ℤ (pos a) (pos b) = compare_ℕ a b
compare_ℤ (pos a) (negsuc b) = greater
compare_ℤ (negsuc a) (pos b) = less
compare_ℤ (negsuc a) (negsuc b) = compare_ℕ b a

pub compare_ℤ-flip : (a b : ℤ) → compare_ℤ b a ≡ flip (compare_ℤ a b)
unfolding compare_ℤ
compare_ℤ-flip a b = ground arith

pub compare_ℤ-eq : (a b : ℤ) → compare_ℤ a b ≡ equal → a ≡ b
unfolding compare_ℤ
compare_ℤ-eq a b h = ground arith

pub compare_ℤ_refl : (a : ℤ) → compare_ℤ a a ≡ equal
unfolding compare_ℤ
compare_ℤ_refl a = ground arith
