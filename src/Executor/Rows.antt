-- ===== src/Executor/Rows.antt =====
-- The row that an INSERT makes has the columns that it started with.
use tinydb_sueprflow.Prelude.{
  ◌≡◌, refl, ap, ◌∙◌, Text, text_eq, Bool, true, false, not, ◌||◌, List, [], ◌∷◌, map, arith,
  Bool-cases, inl, inr, length, ◌==◌, subst, sym, ◌++◌, append-nil, append_assoc, All,
}
use tinydb_sueprflow.Errors.{Result, ok, err, ◌>>=◌, ◌>>◌, raise_if, Error}
use tinydb_sueprflow.Python.Unicode.{Unicode}
use tinydb_sueprflow.Python.Dict.{Dict, insert}
use tinydb_sueprflow.Python.Float.{FloatOps}
use tinydb_sueprflow.Value.{Value, null, Row}
use tinydb_sueprflow.Catalog.{ColumnSchema, TableSchema, member_of}
use tinydb_sueprflow.Catalog.Schemas.{Fresh, HasDistinctNames}
use tinydb_sueprflow.Sql.Ast.{Expression, Insert}
use tinydb_sueprflow.Sql.Expressions.{Object, value, evaluate_expression}
use tinydb_sueprflow.Executor.{
  column_names, validate_assignment_columns, null_row, fill_row, row_from_insert,
}

abbrev pub keys : {V : Type 0} → Dict V → List Text
keys d = map (λ (p : Text × _). p.0) d

keys-insert :
    {V : Type 0} (k : Text) (v : V) (d : Dict V)
    → member_of k (keys d) ≡ true
    → keys (insert k v d) ≡ keys d
unfolding insert member_of
keys-insert k v [] h = cc
keys-insert k v ((j, w) ∷ d) h = elim (Bool-cases (text_eq j k)) [
  | inl same ↦ rw same refl
  | inr other ↦ rw other (ap (λ (l : List Text). j ∷ l) (keys-insert k v d (rw other at h)))
]

-- The columns that were accepted are all there.
accepted :
    (b : Bool) (e : Error) (later : Result (Unit {0}))
    → (raise_if (not b) e >> later) ≡ ok tt
    → (b ≡ true) × (later ≡ ok tt)
accepted true e later h = (refl, h)
accepted false e later h = cc

module _ {F : Type 0} where
  step :
      (b : Bool) (e : Error) (value_ : Result (Object F))
      (rest : Object F → Result (List (Text × Object F))) {row : List (Text × Object F)}
      → (raise_if b e >> (value_ >>= rest)) ≡ ok row
      → (v : Object F) × (rest v ≡ ok row)
  step true e value_ rest h = cc
  step false e (err raised) rest h = cc
  step false e (ok v) rest h = (v, h)

module _ {F : Type 0} ⦃fl : FloatOps F⦄ ⦃u : Unicode⦄ where
  fill_row-keys :
      (schema : TableSchema) (names : List Text) (es : List (Expression F)) (seen : List Text)
      (row filled : List (Text × Object F))
      → validate_assignment_columns schema names ≡ ok tt
      → keys row ≡ column_names schema
      → fill_row names es seen row ≡ ok filled
      → keys filled ≡ column_names schema
  unfolding fill_row validate_assignment_columns
  fill_row-keys schema [] es seen row filled h k f =
      subst (λ r. keys r ≡ column_names schema) (row-is f) k
    where
      row-is : (ok row) ≡ ok filled → row ≡ filled
      row-is e = cc e
  fill_row-keys schema (name ∷ names) [] seen row filled h k f =
      subst (λ r. keys r ≡ column_names schema) (row-is f) k
    where
      row-is : (ok row) ≡ ok filled → row ≡ filled
      row-is e = cc e
  fill_row-keys schema (name ∷ names) (e ∷ es) seen row filled h k f =
      let (there, later) =
        accepted (member_of name (column_names schema)) _ (validate_assignment_columns schema names)
          h in
      let (v, g) = step (member_of name seen) _ (evaluate_expression e []) _ f in
      fill_row-keys schema names es (name ∷ seen) (insert name v row) filled later
        (keys-insert name v row (subst (λ l. member_of name l ≡ true) (sym k) there) ∙ k) g

keys-insert_new :
    {V : Type 0} (k : Text) (v : V) (d : Dict V)
    → member_of k (keys d) ≡ false
    → keys (insert k v d) ≡ keys d ++ k ∷ []
unfolding insert member_of
keys-insert_new k v [] h = refl
keys-insert_new k v ((j, w) ∷ d) h = elim (Bool-cases (text_eq j k)) [
  | inl same ↦ absurd (ground (arith, same, h))
  | inr other ↦ rw other (ap (λ (l : List Text). j ∷ l) (keys-insert_new k v d (rw other at h)))
]

member_of-append :
    (k j : Text) (names : List Text)
    → member_of k (names ++ j ∷ []) ≡ (member_of k names || text_eq j k)
unfolding member_of
member_of-append k j [] = ground arith
member_of-append k j (n ∷ names) = ground (arith, member_of-append k j names)

-- None of the columns is named in the list.
abbrev Unnamed : List Text → List ColumnSchema → Type 0
Unnamed names cs = All (λ (c : ColumnSchema). member_of c.name names ≡ false) cs

Unnamed-append :
    (names : List Text) (name : Text) (cs : List ColumnSchema)
    → Unnamed names cs
    → Fresh name cs
    → Unnamed (names ++ name ∷ []) cs
Unnamed-append names name [] h f = tt
Unnamed-append names name (c ∷ cs) h f =
    (member_of-append c.name name names ∙ rw (h.0, f.0) refl, Unnamed-append names name cs h.1 f.1)

null_row-keys :
    {F : Type 0} (cs : List ColumnSchema) (row : Row F)
    → HasDistinctNames cs
    → Unnamed (keys row) cs
    → keys (null_row cs row) ≡ keys row ++ map (λ (c : ColumnSchema). c.name) cs
unfolding null_row
null_row-keys [] row h n = sym (append-nil (keys row))
null_row-keys (c ∷ cs) row h n =
    let grown = keys-insert_new c.name null row n.0 in
    null_row-keys cs (insert c.name null row) h.1
      (subst (λ l. Unnamed l cs) (sym grown) (Unnamed-append (keys row) c.name cs n.1 h.0))
    ∙ ap (λ (l : List Text). l ++ map (λ (c : ColumnSchema). c.name) cs) grown
    ∙ append_assoc (keys row) (c.name ∷ []) (map (λ (c : ColumnSchema). c.name) cs)

Unnamed-nil : (cs : List ColumnSchema) → Unnamed [] cs
unfolding member_of
Unnamed-nil [] = tt
Unnamed-nil (c ∷ cs) = (refl, Unnamed-nil cs)

keys-map :
    {F : Type 0} (row : Row F)
    → keys (map (λ ((name, v) : Text × Value F). (name, value v)) row) ≡ keys row
keys-map [] = refl
keys-map ((k, v) ∷ row) = ap (λ (l : List Text). k ∷ l) (keys-map row)

-- Both checks passed, and what they guard came out.
both_checks :
    {A : Type 0} (b : Bool) (e : Error) (check : Result (Unit {0})) (rest : Result A) {a : A}
    → (raise_if b e >> (check >> rest)) ≡ ok a
    → (check ≡ ok tt) × (rest ≡ ok a)
both_checks true e check rest h = cc
both_checks false e (err raised) rest h = cc
both_checks false e (ok tt) rest h = (refl, h)

module _ {F : Type 0} ⦃fl : FloatOps F⦄ ⦃u : Unicode⦄ where
  -- For a table with distinct column names, the row that an INSERT makes has a value for every column
  -- of the table, in the table's order, and for nothing else, whichever columns the statement names.
  pub row_from_insert-keys :
      (schema : TableSchema) (statement : Insert F) (row : List (Text × Object F))
      → HasDistinctNames schema.columns
      → row_from_insert schema statement ≡ ok row
      → keys row ≡ column_names schema
  unfolding row_from_insert
  row_from_insert-keys schema statement row distinct h =
      let start =
        map (λ ((name, v) : Text × Value F). (name, value v)) (null_row schema.columns []) in
      let (checked, filled) =
        both_checks (not (length statement.columns == length statement.values)) _
          (validate_assignment_columns schema statement.columns)
          (fill_row statement.columns statement.values [] start) h in
      fill_row-keys schema statement.columns statement.values [] start row checked
        (keys-map (null_row schema.columns [])
          ∙ null_row-keys schema.columns [] distinct (Unnamed-nil schema.columns))
        filled
