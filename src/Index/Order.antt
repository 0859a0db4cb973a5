-- ===== src/Index/Order.antt =====
-- The order that the entries of an index stand in, for keys of one domain: keys that are comparable
-- with one another, as the values of one column are.
use tinydb_sueprflow.Prelude.{
  ◌≡◌, refl, Bool, true, false, List, [], ◌∷◌, ◌++◌, All, All-append_left, arith, if◌then◌else◌,
  Bool-cases, inl, inr,
}
use tinydb_sueprflow.Errors.{Result, ok, err}
use tinydb_sueprflow.Python.Int.{Order, equal, flip, compare_ℕ, is_greater}
use tinydb_sueprflow.Python.Float.{FloatOps}
use tinydb_sueprflow.Value.{Value}
use tinydb_sueprflow.Index.Keys.{compare_keys}
use tinydb_sueprflow.Index.Node.{Entry, break_tie, compare_entries}

abbrev order_or_equal : Result Order → Order
order_or_equal (ok o) = o
order_or_equal (err e) = equal

module _ {F : Type 0} ⦃fl : FloatOps F⦄ where
  -- The comparison of two comparable keys.
  unfoldable pub cmp : Value F → Value F → Order
  cmp a b = order_or_equal (compare_keys a b)

  -- A set of keys on which comparison never fails and is a total preorder.
  pub record KeyDomain (P : Value F → Type 0) : Type 0 where
    pub comparable : (a b : Value F) → P a → P b → compare_keys a b ≡ ok (cmp a b)
    pub cmp-flip : (a b : Value F) → P a → P b → cmp b a ≡ flip (cmp a b)
    pub cmp_trans :
        (a b c : Value F)
        → P a
        → P b
        → P c
        → is_greater (cmp a b) ≡ false
        → is_greater (cmp b c) ≡ false
        → is_greater (cmp a c) ≡ false

  -- Entry `x` belongs behind entry `y`.
  unfoldable pub after : Entry F → Entry F → Bool
  after x y = is_greater (break_tie (cmp x.key y.key) (compare_ℕ x.sequence y.sequence))

  abbrev pub IsSorted : List (Entry F) → Type 0
  IsSorted [] = Unit
  IsSorted (x ∷ xs) = All (λ y. after x y ≡ false) xs × IsSorted xs

  -- The specification of an insertion: behind every entry that does not belong behind the new one.
  unfoldable pub insert_sorted : Entry F → List (Entry F) → List (Entry F)
  insert_sorted e [] = e ∷ []
  insert_sorted e (x ∷ xs) = if after x e then e ∷ x ∷ xs else x ∷ insert_sorted e xs

  pub insert_sorted-append_before :
      (e x : Entry F) (xs ys : List (Entry F))
      → after x e ≡ true
      → insert_sorted e ((xs ++ x ∷ []) ++ ys) ≡ insert_sorted e (xs ++ x ∷ []) ++ ys
  unfolding insert_sorted
  insert_sorted-append_before e x [] ys h = rw h refl
  insert_sorted-append_before e x (y ∷ xs) ys h =
      ground (arith, insert_sorted-append_before e x xs ys h)

  pub insert_sorted-append_behind :
      (e : Entry F) (xs ys : List (Entry F))
      → All (λ x. after x e ≡ false) xs
      → insert_sorted e (xs ++ ys) ≡ xs ++ insert_sorted e ys
  unfolding insert_sorted
  insert_sorted-append_behind e [] ys h = refl
  insert_sorted-append_behind e (x ∷ xs) ys h =
      ground (arith, h.0, insert_sorted-append_behind e xs ys h.1)

  pub IsSorted-append_left : (xs ys : List (Entry F)) → IsSorted (xs ++ ys) → IsSorted xs
  IsSorted-append_left [] ys h = tt
  IsSorted-append_left (x ∷ xs) ys h =
      (All-append_left (λ y. after x y ≡ false) xs ys h.0, IsSorted-append_left xs ys h.1)

  pub IsSorted-append_right : (xs ys : List (Entry F)) → IsSorted (xs ++ ys) → IsSorted ys
  IsSorted-append_right [] ys h = h
  IsSorted-append_right (x ∷ xs) ys h = IsSorted-append_right xs ys h.1

  pub All-insert_sorted :
      (Q : Entry F → Type 0) (e : Entry F) (xs : List (Entry F))
      → Q e
      → All Q xs
      → All Q (insert_sorted e xs)
  unfolding insert_sorted
  All-insert_sorted Q e [] q h = (q, tt)
  All-insert_sorted Q e (x ∷ xs) q h = elim (Bool-cases (after x e)) [
    | inl a ↦ rw a (q, h)
    | inr n ↦ rw n (h.0, All-insert_sorted Q e xs q h.1)
  ]

-- The keys of the entries belong to the domain.
abbrev pub Keys : {F : Type 0} → (Value F → Type 0) → List (Entry F) → Type 0
Keys P xs = All (λ (x : Entry _). P x.key) xs

module _ {F : Type 0} ⦃fl : FloatOps F⦄ {P : Value F → Type 0} (dom : KeyDomain P) where
  -- In a domain the code's comparison of entries does not fail, and says what `after` says.
  pub compare_entries-ok :
      (x y : Entry F)
      → P x.key
      → P y.key
      → compare_entries x y ≡ ok (break_tie (cmp x.key y.key) (compare_ℕ x.sequence y.sequence))
  unfolding compare_entries
  compare_entries-ok x y px py = rw (dom.comparable x.key y.key px py)

  pub after_asym : (x y : Entry F) → P x.key → P y.key → after x y ≡ true → after y x ≡ false
  unfolding after break_tie
  after_asym x y px py h = ground (arith, dom.cmp-flip x.key y.key px py)

  pub after_trans :
      (x y z : Entry F)
      → P x.key
      → P y.key
      → P z.key
      → after x y ≡ false
      → after y z ≡ false
      → after x z ≡ false
  unfolding after break_tie
  after_trans x y z px py pz h k = ground (
    arith,
    dom.cmp_trans x.key y.key z.key px py pz,
    dom.cmp_trans y.key z.key x.key py pz px,
    dom.cmp_trans z.key x.key y.key pz px py,
    dom.cmp-flip x.key y.key px py,
    dom.cmp-flip y.key z.key py pz,
    dom.cmp-flip x.key z.key px pz,
  )

  after-All :
      (e x : Entry F) (xs : List (Entry F))
      → P e.key
      → P x.key
      → Keys P xs
      → after e x ≡ false
      → All (λ y. after x y ≡ false) xs
      → All (λ y. after e y ≡ false) xs
  after-All e x [] pe px ps h k = tt
  after-All e x (y ∷ xs) pe px ps h k =
      (after_trans e x y pe px ps.0 h k.0, after-All e x xs pe px ps.1 h k.1)

  -- An insertion keeps the entries in order.
  pub insert_sorted-IsSorted :
      (e : Entry F) (xs : List (Entry F))
      → P e.key
      → Keys P xs
      → IsSorted xs
      → IsSorted (insert_sorted e xs)
  unfolding insert_sorted
  insert_sorted-IsSorted e [] pe ps h = (tt, tt)
  insert_sorted-IsSorted e (x ∷ xs) pe ps h = elim (Bool-cases (after x e)) [
    | inl a ↦ rw a (
      (after_asym x e ps.0 pe a, after-All e x xs pe ps.0 ps.1 (after_asym x e ps.0 pe a) h.0),
      h,
    )
    | inr n ↦ rw n (
      All-insert_sorted (λ y. after x y ≡ false) e xs n h.0,
      insert_sorted-IsSorted e xs pe ps.1 h.1,
    )
  ]
