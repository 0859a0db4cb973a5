-- ===== src/Executor/Join/Product.antt =====
-- tinydb/executor.py, `_join_rows`: joining is choosing from the product of the sources.
use tinydb_sueprflow.Prelude.{
  ◌≡◌, refl, sym, ap, ◌∙◌, Text, text_eq, text_eq→eq, codes, Bool, true, false, ◌&&◌, Option, none,
  some, List, [], ◌∷◌, ◌++◌, filter, arith, All, Bool-cases, Option-cases, inl, inr,
}
use tinydb_sueprflow.Errors.{ok, ◌>>=◌}
use tinydb_sueprflow.Python.Unicode.{Unicode, upper}
use tinydb_sueprflow.Python.Float.{FloatOps}
use tinydb_sueprflow.Python.Dict.{lookup, contains, insert, lookup-insert}
use tinydb_sueprflow.Value.{Value, Row, py_eq, truthy}
use tinydb_sueprflow.Sql.Ast.{ColumnRef, JoinPredicate, binary, column_ref}
use tinydb_sueprflow.Sql.Expressions.{
  value, qualified_name, evaluate_predicate, evaluate_expression, evaluate_binary,
  evaluate_comparison, column_value, object_eq, object_truthy,
}
use tinydb_sueprflow.Executor.Join.{
  update, qualified_row, Source, join_predicates_match, extend_row, extend_rows, join_from,
  join_rows,
}

and-false : (a b : Bool) → b ≡ false → (a && b) ≡ false
and-false a b h = ground (arith, h)

filter-append :
    {A : Type 0} (p : A → Bool) (xs ys : List A) → filter p (xs ++ ys) ≡ filter p xs ++ filter p ys
filter-append p [] ys = refl
filter-append p (x ∷ xs) ys = elim (Bool-cases (p x)) [
  | inl chosen ↦ rw (chosen, filter-append p xs ys) refl
  | inr left_out ↦ rw (left_out, filter-append p xs ys) refl
]

module _ {F : Type 0} ⦃fl : FloatOps F⦄ where
  abbrev same_values : Option (Value F) → Option (Value F) → Bool
  same_values (some a) (some b) = py_eq a b
  same_values _ _ = true

  -- A predicate says nothing of a row that lacks one of its columns.
  abbrev pub holds : Row F → JoinPredicate → Bool
  holds row p =
      same_values (lookup (qualified_name p.left) row) (lookup (qualified_name p.right) row)

  abbrev pub all_hold : List JoinPredicate → Row F → Bool
  all_hold [] row = true
  all_hold (p ∷ ps) row = holds row p && all_hold ps row

  -- The product, in the order of the loops.
  abbrev pub product_row : Row F → Text → List (Row F) → List (Row F)
  product_row joined qualifier [] = []
  product_row joined qualifier (r ∷ rs) =
      update joined (qualified_row qualifier r) ∷ product_row joined qualifier rs

  abbrev pub product_rows : List (Row F) → Source F → List (Row F)
  product_rows [] source = []
  product_rows (joined ∷ rows) source =
      product_row joined source.0 source.1 ++ product_rows rows source

  abbrev pub product_from : List (Row F) → List (Source F) → List (Row F)
  product_from rows [] = rows
  product_from rows (source ∷ sources) = product_from (product_rows rows source) sources

  column_value_lem :
      (name : Text) (row : Row F) (a : Value F)
      → lookup name row ≡ some a
      → column_value name row ≡ ok (value a)
  unfolding column_value
  column_value_lem name row a e = rw (column_value, e) refl

  module _ ⦃u : Unicode⦄ where
    equality_lem :
        (l r : ColumnRef) (row : Row F) (a b : Value F)
        → u.upper_char b'=' ≡ b'=' ∷ []
        → lookup (qualified_name l) row ≡ some a
        → lookup (qualified_name r) row ≡ some b
        → evaluate_predicate (some (binary (column_ref l) (codes "=") (column_ref r))) row
          ≡ ok (py_eq a b)
    unfolding evaluate_predicate evaluate_expression evaluate_binary evaluate_comparison object_eq
        object_truthy text_eq upper truthy
    equality_lem l r row a b equals e e' =
        rw
          (
            equals,
            ◌>>=◌,
            column_value_lem (qualified_name l) row a e,
            ◌>>=◌,
            column_value_lem (qualified_name r) row b e',
          )
          refl

    join_predicates_match_lem :
        (ps : List JoinPredicate) (row : Row F)
        → u.upper_char b'=' ≡ b'=' ∷ []
        → join_predicates_match ps row ≡ ok (all_hold ps row)
    unfolding join_predicates_match contains
    join_predicates_match_lem [] row equals = refl
    join_predicates_match_lem (p ∷ ps) row equals =
        let rest = join_predicates_match_lem ps row equals in
        elim (Option-cases (lookup (qualified_name p.left) row)) [
          | inl e ↦ rw (e, rest) refl
          | inr (a, e) ↦ elim (Option-cases (lookup (qualified_name p.right) row)) [
            | inl e' ↦ rw (e, e', rest) refl
            | inr (b, e') ↦ elim (Bool-cases (py_eq a b)) [
              | inl equal ↦
                  rw (e, e', equality_lem p.left p.right row a b equals e e', equal, rest) refl
              | inr differ ↦
                  rw (e, e', equality_lem p.left p.right row a b equals e e', differ) refl
            ]
          ]
        ]

    -- What a source adds to a joined row is chosen from the product.
    extend_row_lem :
        (ps : List JoinPredicate) (joined : Row F) (qualifier : Text) (rows : List (Row F))
        → u.upper_char b'=' ≡ b'=' ∷ []
        → extend_row ps joined qualifier rows
          ≡ ok (filter (all_hold ps) (product_row joined qualifier rows))
    unfolding extend_row
    extend_row_lem ps joined qualifier [] equals = refl
    extend_row_lem ps joined qualifier (r ∷ rs) equals =
        rw
          (
            join_predicates_match_lem ps (update joined (qualified_row qualifier r)) equals,
            extend_row_lem ps joined qualifier rs equals,
          )
          refl

    extend_rows_lem :
        (ps : List JoinPredicate) (rows : List (Row F)) (source : Source F)
        → u.upper_char b'=' ≡ b'=' ∷ []
        → extend_rows ps rows source ≡ ok (filter (all_hold ps) (product_rows rows source))
    unfolding extend_rows
    extend_rows_lem ps [] source equals = refl
    extend_rows_lem ps (joined ∷ rows) source equals =
        rw
          (extend_row_lem ps joined source.0 source.1 equals, extend_rows_lem ps rows source equals)
          (ap ok (
            sym (
              filter-append (all_hold ps) (product_row joined source.0 source.1)
                (product_rows rows source))))

  -- The columns that a source brings are new.
  abbrev pub BringsNew : Row F → Text → List (Row F) → Type 0
  BringsNew joined qualifier [] = Unit
  BringsNew joined qualifier (r ∷ rs) =
      All (λ (p : Text × Value F). lookup p.0 joined ≡ none) (qualified_row qualifier r)
      × BringsNew joined qualifier rs

  abbrev pub BringNew : List (Row F) → List (Source F) → Type 0
  BringNew rows [] = Unit
  BringNew rows (source ∷ sources) =
      All (λ joined. BringsNew joined source.0 source.1) rows
      × BringNew (product_rows rows source) sources

  -- A value that is there stays when columns are added that are not.
  lookup-update_absent :
      (name : Text) (row more : Row F)
      → All (λ (p : Text × Value F). text_eq p.0 name ≡ false) more
      → lookup name (update row more) ≡ lookup name row
  lookup-update_absent name row [] absent = refl
  lookup-update_absent name row ((k, w) ∷ more) absent =
      lookup-update_absent name (insert k w row) more absent.1
      ∙ lookup-insert k name w row
      ∙ rw absent.0 refl

  new_names :
      (name : Text) (v : Value F) (row more : Row F)
      → lookup name row ≡ some v
      → All (λ (p : Text × Value F). lookup p.0 row ≡ none) more
      → All (λ (p : Text × Value F). text_eq p.0 name ≡ false) more
  new_names name v row [] h new = tt
  new_names name v row ((k, w) ∷ more) h new = (
    elim (Bool-cases (text_eq k name)) [
      | inr other ↦ other
      | inl here ↦ cc (sym h ∙ ap (λ n. lookup n row) (sym (text_eq→eq k name here)) ∙ new.0)
    ],
    new_names name v row more h new.1,
  )

  lookup-update :
      (name : Text) (v : Value F) (row more : Row F)
      → lookup name row ≡ some v
      → All (λ (p : Text × Value F). lookup p.0 row ≡ none) more
      → lookup name (update row more) ≡ some v
  lookup-update name v row more h new =
      lookup-update_absent name row more (new_names name v row more h new) ∙ h

  -- A predicate that fails of a row fails of what is made from it.
  holds-update :
      (p : JoinPredicate) (row more : Row F)
      → All (λ (q : Text × Value F). lookup q.0 row ≡ none) more
      → holds row p ≡ false
      → holds (update row more) p ≡ false
  holds-update p row more new h = elim (Option-cases (lookup (qualified_name p.left) row)) [
    | inl e ↦ cc (rw e at h)
    | inr (a, e) ↦ elim (Option-cases (lookup (qualified_name p.right) row)) [
      | inl e' ↦ cc (rw (e, e') at h)
      | inr (b, e') ↦
          rw
            (
              lookup-update (qualified_name p.left) a row more e new,
              lookup-update (qualified_name p.right) b row more e' new,
            )
            (rw (e, e') at h)
    ]
  ]

  all_hold-update :
      (ps : List JoinPredicate) (row more : Row F)
      → All (λ (q : Text × Value F). lookup q.0 row ≡ none) more
      → all_hold ps row ≡ false
      → all_hold ps (update row more) ≡ false
  all_hold-update [] row more new h = cc h
  all_hold-update (p ∷ ps) row more new h = elim (Bool-cases (holds row p)) [
    | inr fails ↦ rw (holds-update p row more new fails) refl
    | inl good ↦
        and-false (holds (update row more) p) (all_hold ps (update row more))
          (all_hold-update ps row more new (rw good at h))
  ]

  none_chosen :
      (ps : List JoinPredicate) (joined : Row F) (qualifier : Text) (rows : List (Row F))
      → BringsNew joined qualifier rows
      → all_hold ps joined ≡ false
      → filter (all_hold ps) (product_row joined qualifier rows) ≡ []
  none_chosen ps joined qualifier [] new h = refl
  none_chosen ps joined qualifier (r ∷ rs) new h =
      rw (all_hold-update ps joined (qualified_row qualifier r) new.0 h)
        (none_chosen ps joined qualifier rs new.1 h)

  -- Choosing before the product or after it.
  filter-product_rows :
      (ps : List JoinPredicate) (rows : List (Row F)) (source : Source F)
      → All (λ joined. BringsNew joined source.0 source.1) rows
      → filter (all_hold ps) (product_rows (filter (all_hold ps) rows) source)
        ≡ filter (all_hold ps) (product_rows rows source)
  filter-product_rows ps [] source new = refl
  filter-product_rows ps (joined ∷ rows) source new =
      let rest = filter-product_rows ps rows source new.1 in
      let here = product_row joined source.0 source.1 in
      elim (Bool-cases (all_hold ps joined)) [
        | inl good ↦ rw good (
            filter-append (all_hold ps) here (product_rows (filter (all_hold ps) rows) source)
            ∙ ap (λ (l : List (Row F)). filter (all_hold ps) here ++ l) rest
            ∙ sym (filter-append (all_hold ps) here (product_rows rows source)))
        | inr fails ↦ rw fails (
            rest
            ∙ sym (
                ap (λ (l : List (Row F)). l ++ filter (all_hold ps) (product_rows rows source))
                  (none_chosen ps joined source.0 source.1 new.0 fails))
            ∙ sym (filter-append (all_hold ps) here (product_rows rows source)))
      ]

  module _ ⦃u : Unicode⦄ where
    join_from_lem :
        (ps : List JoinPredicate) (rows : List (Row F)) (sources : List (Source F))
        → u.upper_char b'=' ≡ b'=' ∷ []
        → BringNew rows sources
        → join_from ps (filter (all_hold ps) rows) sources
          ≡ ok (filter (all_hold ps) (product_from rows sources))
    unfolding join_from
    join_from_lem ps rows [] equals new = refl
    join_from_lem ps rows (source ∷ sources) equals new =
        rw
          (
            extend_rows_lem ps (filter (all_hold ps) rows) source equals,
            filter-product_rows ps rows source new.0,
          )
          (join_from_lem ps (product_rows rows source) sources equals new.1)

    -- Where `=` is its own capital letter and each source brings columns that are new, a join raises no
    -- error, and its rows are the rows of the product of the sources, in the order of the loops, of which
    -- every predicate holds that has both of its columns: choosing as the rows are made loses
    -- none and adds none.
    pub join_rows-product :
        (ps : List JoinPredicate) (sources : List (Source F))
        → u.upper_char b'=' ≡ b'=' ∷ []
        → BringNew ([] ∷ []) sources
        → join_rows ps sources ≡ ok (filter (all_hold ps) (product_from ([] ∷ []) sources))
    unfolding join_rows lookup
    join_rows-product ps sources equals new =
        ap (λ (rows : List (Row F)). join_from ps rows sources) (sym (empty_chosen ps))
        ∙ join_from_lem ps ([] ∷ []) sources equals new
      where
        empty_holds : (qs : List JoinPredicate) → all_hold qs [] ≡ true
        empty_holds [] = refl
        empty_holds (q ∷ qs) = empty_holds qs

        empty_chosen : (qs : List JoinPredicate) → filter (all_hold qs) ([] ∷ []) ≡ [] ∷ []
        empty_chosen qs = rw (empty_holds qs) refl
