-- ===== src/Planner/IndexScan.antt =====
-- An index scan loses no row: the lookup that the planner chooses accepts the key of every row that
-- the WHERE clause keeps.
use tinydb_sueprflow.Prelude.{
  ◌≡◌, refl, sym, subst, ◌∙◌, Text, text_eq, text_eq→eq, codes, true, false, Option, none, some,
  arith, Bool-cases, Option-cases, ◌⊎◌, inl, inr,
}
use tinydb_sueprflow.Errors.{Result, ok, err}
use tinydb_sueprflow.Python.Unicode.{Unicode, upper}
use tinydb_sueprflow.Python.Float.{FloatOps, FloatLaws}
use tinydb_sueprflow.Python.Dict.{lookup}
use tinydb_sueprflow.Value.{Value, Row, bool, truthy}
use tinydb_sueprflow.Index.Keys.{IndexLookup, normalize_key, matches_key}
use tinydb_sueprflow.Sql.Ast.{Expression, identifier, literal, binary}
use tinydb_sueprflow.Sql.Expressions.{
  truth_of, Object, value, whole_row, object_eq, compare_objects, object_truthy, compare_with,
  evaluate_comparison, column_value, evaluate_binary, evaluate_expression, evaluate_predicate,
}
use tinydb_sueprflow.Catalog.{TableSchema}
use tinydb_sueprflow.Planner.Reverse.{evaluate_comparison-reverse}
use tinydb_sueprflow.Planner.{
  is_indexed_constraint_column, reverse_operator, operator_lookup, column_candidate,
  comparison_index_candidate, or_else, find_index_candidate,
}
use tinydb_sueprflow.Planner.Operators.{lookup-Indexable, Indexable-matches}

module _ {F : Type 0} ⦃fl : FloatOps F⦄ where
  -- The expression has a value that counts as true.
  abbrev IsTrue : Result (Object F) → Type 0
  IsTrue r = (o : Object F) × (r ≡ ok o) × (object_truthy o ≡ true)

  conjuncts-IsTrue :
      ⦃u : Unicode⦄ (operator : Text) (left right : Result (Object F)) (o : Object F)
      → text_eq (upper operator) (codes "AND") ≡ true
      → evaluate_binary operator left right ≡ ok o
      → object_truthy o ≡ true
      → IsTrue left × IsTrue right
  unfolding evaluate_binary object_truthy truthy
  conjuncts-IsTrue operator (err e) right o t h k = cc (rw t at h)
  conjuncts-IsTrue operator (ok a) (err e) o t h k = ground (arith, t)
  conjuncts-IsTrue operator (ok a) (ok b) o t h k = elim (Bool-cases (object_truthy a)) [
    | inl ta ↦ elim (Bool-cases (object_truthy b)) [
      | inl tb ↦ ((a, refl, ta), (b, refl, tb))
      | inr fb ↦ absurd (ground (arith, t, ta, fb))
    ]
    | inr fa ↦ absurd (ground (arith, t, fa))
  ]

  comparison-holds :
      ⦃u : Unicode⦄ (operator : Text) (a b o : Object F)
      → text_eq (upper operator) (codes "AND") ≡ false
      → text_eq (upper operator) (codes "OR") ≡ false
      → evaluate_binary operator (ok a) (ok b) ≡ ok o
      → object_truthy o ≡ true
      → evaluate_comparison operator a b ≡ ok (value (bool true))
  unfolding evaluate_binary evaluate_comparison compare_with object_truthy truthy
  comparison-holds operator a b o n₁ n₂ h k = ground (arith, n₁, n₂)

  -- What a candidate for `column operator value` has passed.
  candidate-parts :
      (schema : TableSchema) (column operator : Text) (w : Value F) {c : Text} {l : IndexLookup F}
      → column_candidate schema column operator w ≡ some (c, l)
      → (column ≡ c)
        × (normalize_key w ≡ ok w)
        × (operator_lookup operator w ≡ some l)
        × (is_indexed_constraint_column schema column ≡ true)
  unfolding column_candidate normalize_key
  candidate-parts schema column operator w {l = l} h =
      elim (Option-cases (operator_lookup operator w)) [
        | inl n ↦ absurd (ground (arith, n))
        | inr (l', e) ↦ ground (arith, e)
      ]

  -- A row as a whole compares with a value by `!=` only, which has no lookup.
  whole_row-differs :
      (operator : Text) (w : Value F) (r : Row F)
      → (evaluate_comparison operator (whole_row r) (value w) ≡ ok (value (bool true)))
        ⊎ (evaluate_comparison operator (value w) (whole_row r) ≡ ok (value (bool true)))
      → operator ≡ codes "!="
  unfolding evaluate_comparison compare_with compare_objects object_eq
  whole_row-differs operator w r h =
      text_eq→eq operator (codes "!=") (ground (arith, text_eq→eq operator (codes "=")))

  differs-lookup :
      (operator : Text) (w : Value F) {l : IndexLookup F}
      → operator ≡ codes "!="
      → (operator_lookup operator w ≡ some l)
        ⊎ (operator_lookup (reverse_operator operator) w ≡ some l)
      → ⊥
  unfolding operator_lookup reverse_operator text_eq
  differs-lookup operator w {l} e h =
      subst
        (λ o.
          (operator_lookup o w ≡ some l) ⊎ (operator_lookup (reverse_operator o) w ≡ some l) → ⊥)
        (sym e) (λ k. elim k [ inl p ↦ cc | inr p ↦ cc ]) h

  -- The value of a column that takes part in a comparison.
  column-cases :
      ⦃u : Unicode⦄ (column : Text) (row : Row F) (a : Object F)
      → evaluate_expression (identifier column) row ≡ ok a
      → ((v : Value F) × (lookup column row ≡ some v) × (value v ≡ a)) ⊎ (whole_row row ≡ a)
  unfolding evaluate_expression column_value
  column-cases column row a h = elim (Option-cases (lookup column row)) [
    | inl n ↦ inr (ground (arith, n))
    | inr (v, e) ↦ elim (Bool-cases (text_eq column (codes "*"))) [
      | inl star ↦ inr (ground (arith, star))
      | inr plain ↦ inl (v, e, ground (arith, plain, e))
    ]
  ]

  -- The column is indexed, the row has a key in it, and the lookup accepts the key.
  abbrev pub Covers : TableSchema → IndexLookup F → Text → Row F → Type 0
  Covers schema l column row =
      (v : Value F) × (is_indexed_constraint_column schema column ≡ true)
      × (lookup column row ≡ some v)
      × (normalize_key v ≡ ok v)
      × (matches_key l v ≡ ok true)

module _ {F : Type 0} ⦃fl : FloatOps F⦄ ⦃laws : FloatLaws F⦄ ⦃u : Unicode⦄ where
  -- A candidate from `column operator literal`, of which the comparison came out true.
  column_literal-Covers :
      (schema : TableSchema) (column operator c : Text) (w : Value F) (l : IndexLookup F)
      (row : Row F) (a : Object F)
      → column_candidate schema column operator w ≡ some (c, l)
      → evaluate_expression (identifier column) row ≡ ok a
      → evaluate_comparison operator a (value w) ≡ ok (value (bool true))
      → Covers schema l c row
  column_literal-Covers schema column operator c w l row a found e h =
      let (same, key, chosen, indexed) = candidate-parts schema column operator w found in
      let at_object : (b : Object F)
          → b ≡ a
          → evaluate_comparison operator b (value w) ≡ ok (value (bool true)) =
        λ b p.
          subst (λ x. evaluate_comparison operator x (value w) ≡ ok (value (bool true))) (sym p)
            h in
      elim (column-cases column row a e) [
        | inl (v, there, is_v) ↦
            let (k, m) =
              Indexable-matches v key (lookup-Indexable operator w l chosen)
                (at_object (value v) is_v) in
            (v, rw (← same) indexed, subst (λ n. lookup n row ≡ some v) same there, k, m)
        | inr is_row ↦ absurd (
            differs-lookup operator w
              (whole_row-differs operator w row (inl (at_object (whole_row row) is_row)))
              (inl chosen))
      ]

  -- The same from `literal operator column`, whose operator is reversed.
  literal_column-Covers :
      (schema : TableSchema) (column operator c : Text) (w : Value F) (l : IndexLookup F)
      (row : Row F) (a : Object F)
      → column_candidate schema column (reverse_operator operator) w ≡ some (c, l)
      → evaluate_expression (identifier column) row ≡ ok a
      → evaluate_comparison operator (value w) a ≡ ok (value (bool true))
      → Covers schema l c row
  literal_column-Covers schema column operator c w l row a found e h =
      let (same, key, chosen, indexed) =
        candidate-parts schema column (reverse_operator operator) w found in
      let at_object : (b : Object F)
          → b ≡ a
          → evaluate_comparison operator (value w) b ≡ ok (value (bool true)) =
        λ b p.
          subst (λ x. evaluate_comparison operator (value w) x ≡ ok (value (bool true))) (sym p)
            h in
      elim (column-cases column row a e) [
        | inl (v, there, is_v) ↦
            let (k, m) =
              Indexable-matches v key (lookup-Indexable (reverse_operator operator) w l chosen)
                (evaluate_comparison-reverse operator w v ∙ at_object (value v) is_v) in
            (v, rw (← same) indexed, subst (λ n. lookup n row ≡ some v) same there, k, m)
        | inr is_row ↦ absurd (
            differs-lookup operator w
              (whole_row-differs operator w row (inr (at_object (whole_row row) is_row)))
              (inr chosen))
      ]

  literal-value :
      (w : Value F) (row : Row F) (a : Object F)
      → evaluate_expression (literal w) row ≡ ok a
      → value w ≡ a
  unfolding evaluate_expression
  literal-value w row a h = cc

  comparison-Covers :
      (schema : TableSchema) (left right : Expression F) (operator c : Text) (l : IndexLookup F)
      (row : Row F) (a b : Object F)
      → comparison_index_candidate schema left operator right ≡ some (c, l)
      → evaluate_expression left row ≡ ok a
      → evaluate_expression right row ≡ ok b
      → evaluate_comparison operator a b ≡ ok (value (bool true))
      → Covers schema l c row
  unfolding comparison_index_candidate
  comparison-Covers schema (identifier column) (literal w) operator c l row a b found el er h =
      column_literal-Covers schema column operator c w l row a found el (
        subst (λ x. evaluate_comparison operator a x ≡ ok (value (bool true)))
          (sym (literal-value w row b er)) h)
  comparison-Covers schema (literal w) (identifier column) operator c l row a b found el er h =
      literal_column-Covers schema column operator c w l row b found er (
        subst (λ x. evaluate_comparison operator x b ≡ ok (value (bool true)))
          (sym (literal-value w row a el)) h)
  comparison-Covers schema _ _ operator c l row a b found el er h = cc

  true-predicate :
      (e : Expression F) (row : Row F)
      → IsTrue (evaluate_expression e row)
      → evaluate_predicate (some e) row ≡ ok true
  unfolding evaluate_predicate
  true-predicate e row (o, h, t) = rw h (rw t refl)

  predicate-true :
      (e : Expression F) (row : Row F)
      → evaluate_predicate (some e) row ≡ ok true
      → IsTrue (evaluate_expression e row)
  unfolding evaluate_predicate
  predicate-true e row h = holds (evaluate_expression e row) h
    where
      holds : (r : Result (Object F)) → truth_of r ≡ ok true → IsTrue r
      holds (ok o) t = (o, refl, cc t)
      holds (err raised) t = cc

  evaluated :
      (operator : Text) (left right : Result (Object F)) (o : Object F)
      → text_eq (upper operator) (codes "AND") ≡ false
      → text_eq (upper operator) (codes "OR") ≡ false
      → evaluate_binary operator left right ≡ ok o
      → (a : Object F) × (b : Object F) × (left ≡ ok a) × (right ≡ ok b)
  unfolding evaluate_binary
  evaluated operator (err e) right o n₁ n₂ h = absurd (ground (arith, n₁, n₂))
  evaluated operator (ok a) (err e) o n₁ n₂ h = absurd (ground (arith, n₁, n₂))
  evaluated operator (ok a) (ok b) o n₁ n₂ h = (a, b, refl, refl)

  or_else-cases :
      (a b : Option (Text × IndexLookup F)) {x : Text × IndexLookup F}
      → or_else a b ≡ some x
      → (a ≡ some x) ⊎ (b ≡ some x)
  or_else-cases none b h = inr h
  or_else-cases (some a) b h = inl h

  -- Of every row that a WHERE clause keeps, the column that the planner chose from it for an index
  -- scan is indexed and holds a key, and the chosen lookup accepts that key, if exchanging the
  -- operands of a float comparison turns its order round.
  pub find_index_candidate-Covers :
      (schema : TableSchema) (e : Expression F) (row : Row F) (column : Text) (l : IndexLookup F)
      → find_index_candidate schema e ≡ some (column, l)
      → evaluate_predicate (some e) row ≡ ok true
      → Covers schema l column row
  unfolding find_index_candidate evaluate_expression
  find_index_candidate-Covers schema (binary left operator right) row column l found h =
      let (o, value_of, is_true) = predicate-true (binary left operator right) row h in
      let from_left = find_index_candidate-Covers schema left row column l in
      let from_right = find_index_candidate-Covers schema right row column l in
      elim (Bool-cases (text_eq (upper operator) (codes "AND"))) [
        | inl t ↦
            let (tl, tr) =
              conjuncts-IsTrue operator (evaluate_expression left row)
                (evaluate_expression right row) o t value_of is_true in
            elim (or_else-cases (find_index_candidate schema left)
              (find_index_candidate schema right) (rw t at found)) [
                | inl p ↦ from_left p (true-predicate left row tl)
                | inr p ↦ from_right p (true-predicate right row tr)
              ]
        | inr n₁ ↦ elim (Bool-cases (text_eq (upper operator) (codes "OR"))) [
          | inl t ↦ absurd (ground (arith, n₁, t))
          | inr n₂ ↦
              let (a, b, el, er) =
                evaluated operator (evaluate_expression left row) (evaluate_expression right row) o
                  n₁ n₂ value_of in
              comparison-Covers schema left right operator column l row a b (rw (n₁, n₂) at found)
                el er (comparison-holds operator a b o n₁ n₂ (rw (el, er) at value_of) is_true)
        ]
      ]
  find_index_candidate-Covers schema _ row column l found h = cc
