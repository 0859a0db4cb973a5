-- ===== src/Index/Sizes.antt =====
-- The group sizes that a level is cut into: they add up to the level, and each is in bounds.
use native.Mathlib.Nat.{
  mod-lt, div-add-mod, mul-div-le, lt-mul-div-succ, le-div_iff_mul-le, mul-le-mul_right,
  lt_of_mul-lt-mul_left, le_of_mul-le-mul_left,
}
use tinydb_sueprflow.Prelude.{
  ℕ, zero, suc, ◌+◌, ◌-◌, ◌*◌, ◌/◌, ◌%◌, ◌≤◌, ◌<◌, ◌≡◌, refl, ◌∙◌, List, [], ◌∷◌, length, All,
  arith, leb, ltb, if◌then◌else◌, Bool-cases, leb→le, ltb→lt, inl, inr,
}
use tinydb_sueprflow.Index.Bulk.{lower_count, sizes_from, balanced_sizes}

abbrev pub sum : List ℕ → ℕ
sum [] = 0
sum (n ∷ ns) = n + sum ns

sum-sizes_from :
    (base remainder position n : ℕ)
    → remainder ≤ position + n
    → sum (sizes_from base remainder position n) ≡ n * base + (remainder - position)
unfolding sizes_from
sum-sizes_from base remainder position zero h = omega arith
sum-sizes_from base remainder position (suc n) h =
    ground (arith, sum-sizes_from base remainder (position + 1) n (omega arith))

lower_count_pos : (total min_size n : ℕ) → 0 < n → 0 < lower_count total min_size n
unfolding lower_count
lower_count_pos total min_size zero h = absurd (omega arith)
lower_count_pos total min_size (suc zero) h = ground arith
lower_count_pos total min_size (suc (suc n)) h =
    ground (arith, lower_count_pos total min_size (suc n) (omega arith))

-- `(total + max_size - 1) // max_size`, the number of groups of the full size
abbrev groups : ℕ → ℕ → ℕ
groups total max_size = (total + max_size - 1) / max_size

groups_bounds :
    (total max_size : ℕ)
    → 0 < max_size
    → max_size < total
    → (1 < groups total max_size)
      × (total ≤ max_size * groups total max_size)
      × (max_size * groups total max_size + 1 ≤ total + max_size)
groups_bounds total max_size p h =
    let below = mul-div-le (total + max_size - 1) max_size in
    let above = lt-mul-div-succ (total + max_size - 1) p in
    let two : 2 ≤ groups total max_size = (le-div_iff_mul-le p).1 (omega arith) in
    (two, omega (arith, above), omega (arith, below))

-- With so many groups each has `min_size` items: the loop never lowers their number.
groups_fill :
    (total max_size min_size : ℕ)
    → 0 < max_size
    → max_size < total
    → 2 * min_size ≤ max_size + 1
    → min_size * groups total max_size ≤ total
groups_fill total max_size min_size p h m =
    let (two, _, below) = groups_bounds total max_size p h in
    let scaled = mul-le-mul_right (groups total max_size) m in
    fill (groups total max_size) max_size min_size total two p below scaled
  where
    fill : (q n k t : ℕ) → 1 < q → 0 < n → n * q + 1 ≤ t + n → 2 * k * q ≤ (n + 1) * q → k * q ≤ t
    fill zero n k t a b c d = absurd (omega arith)
    fill (suc zero) n k t a b c d = absurd (omega arith)
    fill (suc (suc q)) zero k t a b c d = absurd (omega arith)
    fill (suc (suc q)) (suc n) k t a b c d = omega arith

lower_count-groups :
    (total max_size min_size : ℕ)
    → 0 < max_size
    → max_size < total
    → 2 * min_size ≤ max_size + 1
    → lower_count total min_size (groups total max_size) ≡ groups total max_size
unfolding lower_count
lower_count-groups total max_size min_size p h m =
    let (two, _, _) = groups_bounds total max_size p h in
    keeps (groups total max_size) two (groups_fill total max_size min_size p h m)
  where
    keeps : (q : ℕ) → 1 < q → min_size * q ≤ total → lower_count total min_size q ≡ q
    keeps zero a b = refl
    keeps (suc q) a b =
        let enough : min_size ≤ total / suc q = (le-div_iff_mul-le (omega arith)).1 b in
        ground (arith, enough)

-- The sizes add up to the number of items.
pub sum-balanced_sizes :
    (total max_size min_size : ℕ)
    → 0 < max_size
    → sum (balanced_sizes total max_size min_size) ≡ total
unfolding balanced_sizes
sum-balanced_sizes total max_size min_size h = elim (Bool-cases (leb total max_size)) [
  | inl fits ↦ rw fits (omega arith)
  | inr over ↦
      let n = lower_count total min_size (groups total max_size) in
      let (two, _, _) = groups_bounds total max_size h (ground arith) in
      let some_ : 0 < n = lower_count_pos total min_size (groups total max_size) (omega arith) in
      let small = mod-lt total some_ in
      rw over (
        sum-sizes_from (total / n) (total % n) 0 n (omega arith)
        ∙ omega (arith, div-add-mod total n))
]

abbrev pub Within : ℕ → ℕ → List ℕ → Type 0
Within lo hi sizes = All (λ s. (lo ≤ s) × (s ≤ hi)) sizes

sizes_from-Within :
    (lo hi base remainder position n : ℕ)
    → lo ≤ base
    → base + (if ltb 0 remainder then 1 else 0) ≤ hi
    → Within lo hi (sizes_from base remainder position n)
unfolding sizes_from
sizes_from-Within lo hi base remainder position zero h k = tt
sizes_from-Within lo hi base remainder position (suc n) h k =
    ((ground arith, ground arith), sizes_from-Within lo hi base remainder (position + 1) n h k)

-- `q` groups of at most `hi` hold `total`, so the greater of the sizes is at most `hi`.
greatest_size :
    (total q hi : ℕ)
    → 0 < q
    → total ≤ hi * q
    → total / q + (if ltb 0 (total % q) then 1 else 0) ≤ hi
greatest_size total q hi p h =
    let whole = div-add-mod total q in
    elim (Bool-cases (ltb 0 (total % q))) [
      | inl more ↦ rw more (
          let strict : total / q < hi =
            lt_of_mul-lt-mul_left q (omega (arith, whole, ltb→lt 0 (total % q) more)) in
          omega arith)
      | inr none_left ↦ rw none_left (
          let le =
            le_of_mul-le-mul_left {m = total / q} {n = hi} {k = q} (omega (arith, whole)) p in
          omega arith)
    ]

-- The same for a lower bound `lo` that is at most `min_size`.
pub balanced_sizes-Within_lo :
    (lo total max_size min_size : ℕ)
    → 0 < max_size
    → 2 * min_size ≤ max_size + 1
    → lo ≤ min_size
    → lo ≤ total
    → Within lo max_size (balanced_sizes total max_size min_size)
unfolding balanced_sizes
balanced_sizes-Within_lo lo total max_size min_size p m low enough =
    elim (Bool-cases (leb total max_size)) [
      | inl fits ↦ rw fits ((enough, leb→le total max_size fits), tt)
      | inr over ↦
          let h : max_size < total = ground arith in
          let (two, above, below) = groups_bounds total max_size p h in
          let n = groups total max_size in
          let full : min_size ≤ total / n =
            (le-div_iff_mul-le (omega arith)).1 (groups_fill total max_size min_size p h m) in
          rw over (
            rw (lower_count-groups total max_size min_size p h m) (
              sizes_from-Within lo max_size (total / n) (total % n) 0 n (omega arith)
                (greatest_size total n max_size (omega arith) above)))
    ]

-- Cut into groups by `_balanced_sizes`, a level of at least `min_size` items has no group
-- over `max_size` and none under `min_size`, if `max_size` is positive and `min_size` at most half of
-- it, rounded up; and the sizes of the groups add up to the level.
pub balanced_sizes-Within :
    (total max_size min_size : ℕ)
    → 0 < max_size
    → 2 * min_size ≤ max_size + 1
    → min_size ≤ total
    → Within min_size max_size (balanced_sizes total max_size min_size)
      × (sum (balanced_sizes total max_size min_size) ≡ total)
balanced_sizes-Within total max_size min_size p m enough = (
  balanced_sizes-Within_lo min_size total max_size min_size p m (omega arith) enough,
  sum-balanced_sizes total max_size min_size p,
)

-- Groups of two or more are at most half as many as the items.
pub length-le-sum : (hi : ℕ) (sizes : List ℕ) → Within 2 hi sizes → 2 * length sizes ≤ sum sizes
length-le-sum hi [] h = omega arith
length-le-sum hi (s ∷ sizes) h = omega (arith, length-le-sum hi sizes h.1)
