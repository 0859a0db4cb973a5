-- ===== src/Catalog/WellFormed.antt =====
-- CREATE TABLE and DROP TABLE keep the catalog well formed, and undo one another.
use tinydb_sueprflow.Prelude.{
  Text, text_eq, text_eq_iff, text_eq_refl, ◌≡◌, refl, ap, subst, false, none, some, [], ◌∷◌, ◌++◌,
  arith, Option-cases, Bool-cases, ◌⊎◌, inl, inr, if◌then◌else◌,
}
use tinydb_sueprflow.Errors.{ok, err, constraint_error, table_missing}
use tinydb_sueprflow.Python.Unicode.{Unicode}
use tinydb_sueprflow.Python.Dict.{
  Dict, lookup, pop, insert_new, lookup-insert, lookup-append_new, lookup-pop-none, pop-append_new,
}
use tinydb_sueprflow.Sql.Ast.{CreateTable, DropTable}
use tinydb_sueprflow.Catalog.{TableSchema, Catalog, apply_create_table, get_table, apply_drop_table}
use tinydb_sueprflow.Catalog.Schemas.{IsValid, apply_create_table-Created, create-IsValid}

-- Every table stands once, under its own name, with a valid schema.
abbrev pub Tables : Dict TableSchema → Type 0
Tables [] = Unit
Tables ((k, t) ∷ d) = (k ≡ t.name) × IsValid t × (lookup k d ≡ none) × Tables d

abbrev pub IsWellFormed : Catalog → Type 0
IsWellFormed c = Tables c.tables

Tables-append :
    (k : Text) (t : TableSchema) (d : Dict TableSchema)
    → lookup k d ≡ none
    → k ≡ t.name
    → IsValid t
    → Tables d
    → Tables (d ++ (k, t) ∷ [])
unfolding lookup
Tables-append k t [] new name valid h = (name, valid, refl, tt)
Tables-append k t ((j, s) ∷ d) new name valid h =
    let apart : text_eq k j ≡ false = ground (arith, text_eq_iff k j, text_eq_iff j k) in
    let new' : lookup k d ≡ none = ground (arith, text_eq_iff k j, text_eq_iff j k) in
    (h.0, h.1, lookup-append_new j k t d h.2 apart, Tables-append k t d new' name valid h.3)

Tables-pop : (k : Text) (d : Dict TableSchema) → Tables d → Tables (pop k d)
unfolding pop
Tables-pop k [] h = tt
Tables-pop k ((j, s) ∷ d) h = elim (Bool-cases (text_eq j k)) [
  | inl same ↦ rw same h.3
  | inr other ↦ rw other (h.0, h.1, lookup-pop-none j k d h.2, Tables-pop k d h.3)
]

module _ ⦃u : Unicode⦄ where
  -- CREATE TABLE on a well-formed catalog leaves a well-formed catalog, in which the new name stands
  -- for the new schema and every other name for what it stood for before.
  pub create-IsWellFormed :
      (statement : CreateTable) (c : Catalog) (schema : TableSchema) (c' : Catalog)
      → IsWellFormed c
      → apply_create_table statement c ≡ ok (schema, c')
      → IsWellFormed c'
        × ((name : Text)
            → get_table name c'
              ≡ (if text_eq statement.name name then ok schema else get_table name c))
  unfolding get_table
  create-IsWellFormed statement c schema c' h made =
      let (columns, new, built, e, e') = apply_create_table-Created statement c schema c' made in
      let valid = create-IsValid statement c schema c' made in
      let named : statement.name ≡ schema.name = ap (λ (t : TableSchema). t.name) e in
      subst
        (λ (x : Catalog).
          IsWellFormed x
          × ((name : Text)
              → get_table name x
                ≡ (if text_eq statement.name name then ok schema else get_table name c)))
        e'
        (
          rw (insert_new statement.name schema c.tables new)
              (Tables-append statement.name schema c.tables new named valid h),
          λ name. ground (arith, lookup-insert statement.name name schema c.tables),
        )

  -- DROP TABLE right after the CREATE TABLE of the same name gives the schema that was made and the
  -- catalog from before it.
  pub drop-create :
      (statement : CreateTable) (c : Catalog) (schema : TableSchema) (c' : Catalog)
      → apply_create_table statement c ≡ ok (schema, c')
      → apply_drop_table (record { name = statement.name }) c' ≡ ok (schema, c)
  unfolding apply_drop_table
  drop-create statement c schema c' made =
      let (columns, new, built, e, e') = apply_create_table-Created statement c schema c' made in
      let name = statement.name in
      let found : lookup name c'.tables ≡ some schema =
        rw (← e') (rw lookup-insert (rw (text_eq_refl name) refl)) in
      let back : pop name c'.tables ≡ c.tables =
        rw (← e')
          (rw (insert_new name schema c.tables new) (pop-append_new name schema c.tables new)) in
      rw (found, back, apply_drop_table) refl

-- In a well-formed catalog a name stands once, so `pop` takes it out.
lookup-pop :
    (k j : Text) (d : Dict TableSchema)
    → Tables d
    → lookup j (pop k d) ≡ (if text_eq k j then none else lookup j d)
unfolding lookup pop
lookup-pop k j [] h = ground arith
lookup-pop k j ((i, s) ∷ d) h =
    ground (arith, text_eq_iff i k, text_eq_iff i j, text_eq_iff k j, lookup-pop k j d h.3, h.2)

-- What DROP TABLE does with a name: it fails, and the name stands for no table, or the name alone
-- goes from the catalog, which stays well formed.
abbrev pub Dropped : DropTable → Catalog → Type 0
Dropped statement c =
    (get_table statement.name c ≡ err (constraint_error (table_missing statement.name)))
      × (apply_drop_table statement c ≡ err (constraint_error (table_missing statement.name)))
    ⊎ ((schema : TableSchema) × (c' : Catalog) × (get_table statement.name c ≡ ok schema)
        × (apply_drop_table statement c ≡ ok (schema, c'))
        × IsWellFormed c'
        × ((name : Text)
            → get_table name c' ≡ (
                if text_eq statement.name name
                then err (constraint_error (table_missing name))
                else get_table name c)))

-- DROP TABLE on a well-formed catalog either fails with "table does not exist", and then the name
-- stands for no table, or returns the schema that the name stood for and a well-formed catalog, in
-- which that name stands for nothing and every other name for what it stood for before.
pub drop-Dropped : (statement : DropTable) (c : Catalog) → IsWellFormed c → Dropped statement c
unfolding apply_drop_table get_table
drop-Dropped statement c h = elim (Option-cases (lookup statement.name c.tables)) [
  | inl missing ↦ inl (rw (missing, get_table), rw (missing, apply_drop_table))
  | inr (schema, found) ↦ inr (
    schema,
    record { tables = pop statement.name c.tables },
    rw (found, get_table),
    rw (found, apply_drop_table),
    Tables-pop statement.name c.tables h,
    λ name. ground (arith, lookup-pop statement.name name c.tables h),
  )
]
