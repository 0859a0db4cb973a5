-- ===== src/Catalog/Schemas.antt =====
-- What CREATE TABLE guarantees of a schema, and that the catalog stays well formed.
use tinydb_sueprflow.Prelude.{
  ℕ, ◌+◌, ◌≤◌, Text, text_eq, ◌≡◌, refl, ap, subst, Bool, true, false, Option, none, some, List, [],
  ◌∷◌, All, ltb, arith, if◌then◌else◌, is_some,
}
use tinydb_sueprflow.Errors.{Result, ok, err, ◌>>=◌, ◌>>◌, raise_if, Error}
use tinydb_sueprflow.Python.Unicode.{Unicode}
use tinydb_sueprflow.Python.Dict.{lookup, contains, insert}
use tinydb_sueprflow.Types.{TinyType, from_name}
use tinydb_sueprflow.Sql.Ast.{ColumnDef, CreateTable}
use tinydb_sueprflow.Catalog.{
  ColumnSchema, TableSchema, Catalog, member_of, column_schema, create_columns, apply_create_table,
}

-- No later column has the name.
abbrev pub Fresh : Text → List ColumnSchema → Type 0
Fresh name columns = All (λ (c : ColumnSchema). text_eq name c.name ≡ false) columns

abbrev pub HasDistinctNames : List ColumnSchema → Type 0
HasDistinctNames [] = Unit
HasDistinctNames (c ∷ cs) = Fresh c.name cs × HasDistinctNames cs

abbrev pub primary_keys : List ColumnSchema → ℕ
primary_keys [] = 0
primary_keys (c ∷ cs) = (if c.primary_key then 1 else 0) + primary_keys cs

-- A primary key column is NOT NULL and UNIQUE.
abbrev pub KeyIsConstrained : ColumnSchema → Type 0
KeyIsConstrained c = c.primary_key ≡ true → (c.not_null ≡ true) × (c.unique ≡ true)

pub record IsValid (schema : TableSchema) : Type 0 where
  pub distinct : HasDistinctNames schema.columns
  pub one_key : primary_keys schema.columns ≤ 1
  pub keys_constrained : All KeyIsConstrained schema.columns

abbrev Unseen : List Text → List ColumnSchema → Type 0
Unseen seen columns = All (λ (c : ColumnSchema). member_of c.name seen ≡ false) columns

Unseen-head :
    (n : Text) (seen : List Text) (cs : List ColumnSchema)
    → Unseen (n ∷ seen) cs
    → Fresh n cs × Unseen seen cs
unfolding member_of
Unseen-head n seen [] h = (tt, tt)
Unseen-head n seen (c ∷ cs) h =
    let rest = Unseen-head n seen cs h.1 in ((ground arith, rest.0), (ground arith, rest.1))

column_schema-KeyIsConstrained :
    (c : ColumnDef) (t : TinyType) → KeyIsConstrained (column_schema c t)
unfolding column_schema
column_schema-KeyIsConstrained c t h = ground arith

round :
    (seen many : Bool) (e₁ e₂ : Error) (type : Result TinyType) (later : Result (List ColumnSchema))
    (schema : TinyType → ColumnSchema) {out : List ColumnSchema}
    → (do raise_if seen e₁; raise_if many e₂; t ← type; cs ← later; ok (schema t ∷ cs)) ≡ ok out
    → (t : TinyType) × (cs : List ColumnSchema) × (seen ≡ false)
      × (many ≡ false)
      × (type ≡ ok t)
      × (later ≡ ok cs)
      × (schema t ∷ cs ≡ out)
round true many e₁ e₂ type later schema h = cc
round false true e₁ e₂ type later schema h = cc
round false false e₁ e₂ (err e) later schema h = cc
round false false e₁ e₂ (ok t) (err e) schema h = cc
round false false e₁ e₂ (ok t) (ok cs) schema h = (t, cs, refl, refl, refl, refl, cc)

module _ ⦃u : Unicode⦄ where
  -- the loop's invariant, with the names seen and the keys counted before it
  abbrev Built : List Text → ℕ → List ColumnSchema → Type 0
  Built seen k cs =
      Unseen seen cs × HasDistinctNames cs × (primary_keys cs + k ≤ 1) × All KeyIsConstrained cs

  -- What a successful round of the loop has tested.
  abbrev Round : ColumnDef → List ColumnDef → List Text → ℕ → List ColumnSchema → Type 0
  Round d defs seen k out =
      (t : TinyType) × (cs : List ColumnSchema) × (member_of d.name seen ≡ false)
      × (k + (if d.primary_key then 1 else 0) ≤ 1)
      × (create_columns defs (d.name ∷ seen) (k + (if d.primary_key then 1 else 0)) ≡ ok cs)
      × (column_schema d t ∷ cs ≡ out)

  create_columns-Round :
      (d : ColumnDef) (defs : List ColumnDef) (seen : List Text) (k : ℕ) (out : List ColumnSchema)
      → create_columns (d ∷ defs) seen k ≡ ok out
      → Round d defs seen k out
  unfolding create_columns
  create_columns-Round d defs seen k out h =
      let count = k + (if d.primary_key then 1 else 0) in
      let (t, cs, unseen, few, typed, later, e) =
        round (member_of d.name seen) (ltb 1 count) _ _ (from_name d.type_name)
          (create_columns defs (d.name ∷ seen) count) (column_schema d) h in
      (t, cs, unseen, ground arith, later, e)

  create_columns-Built :
      (defs : List ColumnDef) (seen : List Text) (k : ℕ) (out : List ColumnSchema)
      → k ≤ 1
      → create_columns defs seen k ≡ ok out
      → Built seen k out
  unfolding column_schema create_columns
  create_columns-Built [] seen k out hk h =
      let e : [] ≡ out = cc in subst (Built seen k) e (tt, tt, omega arith, tt)
  create_columns-Built (d ∷ defs) seen k out hk h =
      let (t, cs, unseen, few, later, e) = create_columns-Round d defs seen k out h in
      let (us, ds, one, ks) = create_columns-Built defs (d.name ∷ seen) _ cs few later in
      let (fresh, us') = Unseen-head d.name seen cs us in
      subst (Built seen k) e
        ((unseen, us'), (fresh, ds), omega arith, (column_schema-KeyIsConstrained d t, ks))

  -- What a successful CREATE TABLE has tested and made.
  abbrev pub Created : CreateTable → Catalog → TableSchema → Catalog → Type 0
  Created statement c schema c' =
      (columns : List ColumnSchema) × (lookup statement.name c.tables ≡ none)
      × (create_columns statement.columns [] 0 ≡ ok columns)
      × (record { name = statement.name; columns = columns } ≡ schema)
      × (record { tables = insert statement.name schema c.tables } ≡ c')

  created :
      (found : Option TableSchema) (built : Result (List ColumnSchema)) (e : Error)
      (make : List ColumnSchema → TableSchema × Catalog) {out : TableSchema × Catalog}
      → (do raise_if (is_some found) e; columns ← built; ok (make columns)) ≡ ok out
      → (columns : List ColumnSchema) × (found ≡ none) × (built ≡ ok columns) × (make columns ≡ out)
  created (some t) built e make h = cc
  created none (err e') e make h = cc
  created none (ok columns) e make h = (columns, refl, refl, cc)

  pub apply_create_table-Created :
      (statement : CreateTable) (c : Catalog) (schema : TableSchema) (c' : Catalog)
      → apply_create_table statement c ≡ ok (schema, c')
      → Created statement c schema c'
  unfolding apply_create_table contains
  apply_create_table-Created statement c schema c' h =
      let (columns, missing, built, e) =
        created (lookup statement.name c.tables) (create_columns statement.columns [] 0) _
          (λ columns. (
            record { name = statement.name; columns = columns },
            record {
              tables =
                  insert statement.name (record { name = statement.name; columns = columns })
                    c.tables;
            },
          ))
          h in
      (
        columns,
        missing,
        built,
        ap (λ (p : TableSchema × Catalog). p.0) e,
        cc (e, ap (λ (p : TableSchema × Catalog). p.0) e),
      )

  -- A table that CREATE TABLE makes has distinct column names, one primary key at most, and primary
  -- keys that are NOT NULL and UNIQUE.
  pub create-IsValid :
      (statement : CreateTable) (c : Catalog) (schema : TableSchema) (c' : Catalog)
      → apply_create_table statement c ≡ ok (schema, c')
      → IsValid schema
  create-IsValid statement c schema c' h =
      let (columns, missing, built, e, _) = apply_create_table-Created statement c schema c' h in
      let (_, distinct, one, keys) =
        create_columns-Built statement.columns [] 0 columns (omega arith) built in
      subst IsValid e
        (record { distinct = distinct; one_key = omega arith; keys_constrained = keys })
