-- ===== src/Planner/Reverse.antt =====
-- `_reverse_operator`: exchanging the operands of a comparison reverses its operator.
use tinydb_sueprflow.Prelude.{
  ◌≡◌, refl, subst, sym, Text, text_eq, text_eq→eq, codes, true, arith, Bool-cases, ◌⊎◌, inl, inr,
}
use tinydb_sueprflow.Python.Int.{less}
use tinydb_sueprflow.Python.Float.{FloatOps, FloatLaws}
use tinydb_sueprflow.Value.{
  Value, null, Comparison, ordered, swap, compare_values, py_eq, is_equal, compare_values-swap,
}
use tinydb_sueprflow.Sql.Expressions.{
  value, object_eq, compare_objects, compare_with, evaluate_comparison,
}
use tinydb_sueprflow.Planner.{reverse_operator}

module _ {F : Type 0} ⦃fl : FloatOps F⦄ where
  py_eq-compare :
      (v w : Value F) → (v ≡ null) × (w ≡ null) ⊎ (py_eq v w ≡ is_equal (compare_values v w))
  unfolding py_eq
  py_eq-compare null null = inl (refl, refl)
  py_eq-compare null w = inr refl
  py_eq-compare v w = inr refl

is_equal-swap : (c : Comparison) → is_equal (swap c) ≡ is_equal c
is_equal-swap (ordered less) = refl
is_equal-swap (ordered _) = refl
is_equal-swap _ = refl

module _ {F : Type 0} ⦃fl : FloatOps F⦄ ⦃laws : FloatLaws F⦄ where
  py_eq_comm : (v w : Value F) → py_eq w v ≡ py_eq v w
  py_eq_comm v w = ground (
    arith,
    py_eq-compare v w,
    py_eq-compare w v,
    compare_values-swap v w,
    is_equal-swap (compare_values v w),
  )

  abbrev Reverses : Value F → Value F → Text → Type 0
  Reverses a b operator =
      evaluate_comparison (reverse_operator operator) (value b) (value a)
      ≡ evaluate_comparison operator (value a) (value b)

  compare_with-reverse :
      (a b : Value F)
      → Reverses a b (codes "<")
        × Reverses a b (codes "<=")
        × Reverses a b (codes ">")
        × Reverses a b (codes ">=")
  unfolding evaluate_comparison compare_with compare_objects text_eq reverse_operator
  compare_with-reverse a b = (
    ground (arith, compare_values-swap a b),
    ground (arith, compare_values-swap a b),
    ground (arith, compare_values-swap a b),
    ground (arith, compare_values-swap a b),
  )

  -- For every operator and two values, `b (reverse op) a` has the value of `a op b`, or fails as it
  -- does, if exchanging the operands of a float comparison turns its order round.
  pub evaluate_comparison-reverse :
      (operator : Text) (a b : Value F)
      → evaluate_comparison (reverse_operator operator) (value b) (value a)
        ≡ evaluate_comparison operator (value a) (value b)
  unfolding evaluate_comparison object_eq reverse_operator
  evaluate_comparison-reverse operator a b = elim (Bool-cases (text_eq operator (codes "<"))) [
    | inl e ↦ at_operator (codes "<") e (compare_with-reverse a b).0
    | inr n₁ ↦ elim (Bool-cases (text_eq operator (codes "<="))) [
      | inl e ↦ at_operator (codes "<=") e (compare_with-reverse a b).1
      | inr n₂ ↦ elim (Bool-cases (text_eq operator (codes ">"))) [
        | inl e ↦ at_operator (codes ">") e (compare_with-reverse a b).2
        | inr n₃ ↦ elim (Bool-cases (text_eq operator (codes ">="))) [
          | inl e ↦ at_operator (codes ">=") e (compare_with-reverse a b).3
          | inr n₄ ↦ ground (arith, n₁, n₂, n₃, n₄, py_eq_comm a b)
        ]
      ]
    ]
  ]
    where
      at_operator : (o : Text) → text_eq operator o ≡ true → Reverses a b o → Reverses a b operator
      at_operator o e r = subst (Reverses a b) (sym (text_eq→eq operator o e)) r
