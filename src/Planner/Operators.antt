-- ===== src/Planner/Operators.antt =====
-- The operators for which the planner has a lookup, and that the lookup accepts each key that stands
-- in the operator's relation to the bound.
use tinydb_sueprflow.Prelude.{
  ◌≡◌, refl, sym, Text, text_eq, text_eq→eq, codes, true, false, some, arith, ◌⊎◌, inl, inr,
}
use mathlib.Core.Path.{subst₂}
use tinydb_sueprflow.Errors.{ok}
use tinydb_sueprflow.Python.Int.{Order}
use tinydb_sueprflow.Python.Float.{FloatOps}
use tinydb_sueprflow.Value.{
  Value, null, bool, text, Comparison, ordered, unordered, incompatible, compare_values, py_eq,
  is_equal,
}
use tinydb_sueprflow.Index.Keys.{
  IndexLookup, equal_to, range, is_none, normalize_key, compare_keys, above_start, below_end,
  in_range, matches_key,
}
use tinydb_sueprflow.Sql.Expressions.{
  value, object_eq, compare_objects, compare_with, evaluate_comparison,
}
use tinydb_sueprflow.Planner.{operator_lookup}

-- The operators that have a lookup.
pub data Indexable {F : Type 0} (w : Value F) : Text → IndexLookup F → Type 0 where
  eq : Indexable w (codes "=") (equal_to w)
  gt : Indexable w (codes ">") (range w null false true)
  ge : Indexable w (codes ">=") (range w null true true)
  lt : Indexable w (codes "<") (range null w true false)
  le : Indexable w (codes "<=") (range null w true true)

module _ {F : Type 0} where
  tests-of-lookup :
      (operator : Text) (w : Value F) (l : IndexLookup F)
      → operator_lookup operator w ≡ some l
      → (text_eq operator (codes "=") ≡ true) × (equal_to w ≡ l)
        ⊎ (text_eq operator (codes ">") ≡ true) × (range w null false true ≡ l)
        ⊎ (text_eq operator (codes ">=") ≡ true) × (range w null true true ≡ l)
        ⊎ (text_eq operator (codes "<") ≡ true) × (range null w true false ≡ l)
        ⊎ (text_eq operator (codes "<=") ≡ true) × (range null w true true ≡ l)
  unfolding operator_lookup
  tests-of-lookup operator w l h = ground arith

  pub lookup-Indexable :
      (operator : Text) (w : Value F) (l : IndexLookup F)
      → operator_lookup operator w ≡ some l
      → Indexable w operator l
  lookup-Indexable operator w l h = elim (tests-of-lookup operator w l h) [
    | inl (t, e) ↦ found (codes "=") t e eq
    | inr (inl (t, e)) ↦ found (codes ">") t e gt
    | inr (inr (inl (t, e))) ↦ found (codes ">=") t e ge
    | inr (inr (inr (inl (t, e)))) ↦ found (codes "<") t e lt
    | inr (inr (inr (inr (t, e)))) ↦ found (codes "<=") t e le
  ]
    where
      found :
          (o : Text) {k : IndexLookup F}
          → text_eq operator o ≡ true
          → k ≡ l
          → Indexable w o k
          → Indexable w operator l
      found o t e i = subst₂ (Indexable w) (sym (text_eq→eq operator o t)) e i

Order-cases :
    (c : Comparison) → ((o : Order) × (c ≡ ordered o)) ⊎ ((c ≡ unordered) ⊎ (c ≡ incompatible))
Order-cases (ordered o) = inl (o, refl)
Order-cases unordered = inr (inl refl)
Order-cases incompatible = inr (inr refl)

-- The comparison of two values that an operator accepted, as the lookup sees it.
module _ {F : Type 0} ⦃fl : FloatOps F⦄ where
  py_eq-key : (v w : Value F) → normalize_key w ≡ ok w → py_eq v w ≡ is_equal (compare_values v w)
  unfolding py_eq normalize_key
  py_eq-key null null h = cc
  py_eq-key null (text s) h = refl
  py_eq-key null w h = refl
  py_eq-key (bool b) w h = refl
  py_eq-key v w h = refl

  is_none-key : (w : Value F) → normalize_key w ≡ ok w → is_none w ≡ false
  unfolding normalize_key
  is_none-key null h = cc
  is_none-key (bool b) h = refl
  is_none-key w h = refl

  ordered-key :
      (v w : Value F) (o : Order) → compare_values v w ≡ ordered o → normalize_key v ≡ ok v
  unfolding compare_values normalize_key
  ordered-key null null o h = cc
  ordered-key null w o h = cc
  ordered-key (bool b) w o h = refl
  ordered-key v w o h = refl

  -- The lookup for an operator accepts each key that stands in the operator's relation to the bound.
  pub Indexable-matches :
      {operator : Text} {w : Value F} {l : IndexLookup F} (v : Value F)
      → normalize_key w ≡ ok w
      → Indexable w operator l
      → evaluate_comparison operator (value v) (value w) ≡ ok (value (bool true))
      → (normalize_key v ≡ ok v) × (matches_key l v ≡ ok true)
  unfolding evaluate_comparison compare_with compare_objects object_eq matches_key in_range
      above_start below_end compare_keys text_eq is_none
  Indexable-matches {w = w} v k eq h = elim (Order-cases (compare_values v w)) [
    | inl (o, c) ↦ ground (arith, k, c, py_eq-key v w k, ordered-key v w o c)
    | inr n ↦ ground (arith, k, n, py_eq-key v w k)
  ]
  Indexable-matches {w = w} v k gt h = elim (Order-cases (compare_values v w)) [
    | inl (o, c) ↦ ground (arith, k, c, is_none-key w k, ordered-key v w o c)
    | inr n ↦ ground (arith, n)
  ]
  Indexable-matches {w = w} v k ge h = elim (Order-cases (compare_values v w)) [
    | inl (o, c) ↦ ground (arith, k, c, is_none-key w k, ordered-key v w o c)
    | inr n ↦ ground (arith, n)
  ]
  Indexable-matches {w = w} v k lt h = elim (Order-cases (compare_values v w)) [
    | inl (o, c) ↦ ground (arith, k, c, is_none-key w k, ordered-key v w o c)
    | inr n ↦ ground (arith, n)
  ]
  Indexable-matches {w = w} v k le h = elim (Order-cases (compare_values v w)) [
    | inl (o, c) ↦ ground (arith, k, c, is_none-key w k, ordered-key v w o c)
    | inr n ↦ ground (arith, n)
  ]
