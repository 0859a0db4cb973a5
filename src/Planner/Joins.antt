-- ===== src/Planner/Joins.antt =====
-- tinydb/planner.py: the columns of a join, bound to the tables that they stand in, and `plan`.
use tinydb_sueprflow.Prelude.{
  Text, text_eq, codes, Bool, not, Option, none, some, List, [], ◌∷◌, ◌++◌, map, any, if◌then◌else◌,
}
use tinydb_sueprflow.Errors.{
  Result, ok, err, ◌>>=◌, ◌>>◌, raise_if, constraint_error, duplicate_alias, unknown_qualifier,
  unknown_column, ambiguous_column, join_projection,
}
use tinydb_sueprflow.Python.Unicode.{Unicode}
use tinydb_sueprflow.Python.Dict.{Dict, lookup, contains, insert}
use tinydb_sueprflow.Catalog.{ColumnSchema, TableSchema, Catalog, get_table}
use tinydb_sueprflow.Sql.Ast.{
  Expression, ColumnRef, JoinSource, JoinPredicate, Select, Ordering, identifier, column_ref,
  literal, binary, function_call,
}
use tinydb_sueprflow.Sql.Expressions.{qualified_name}
use tinydb_sueprflow.Planner.{
  QueryPlan, table_scan, index_scan, join, JoinPlan, constraint_index_name, find_index_candidate,
}

abbrev pub Sources : Type 0
Sources = Dict TableSchema

-- `source.alias or source.table_name`
unfoldable pub qualifier_of : JoinSource → Text
qualifier_of source = elim source.alias [
  | none ↦ source.table_name
  | some alias ↦ elim alias [ [] ↦ source.table_name | c ∷ cs ↦ c ∷ cs ]
]

-- The loop of `_source_schemas`, with the schemas read so far.
unfoldable pub source_schemas : Catalog → List JoinSource → Sources → Result Sources
source_schemas catalog [] schemas = ok schemas
source_schemas catalog (source ∷ rest) schemas = do
  raise_if (contains (qualifier_of source) schemas)
      (constraint_error (duplicate_alias (qualifier_of source)))
  schema ← get_table source.table_name catalog
  source_schemas catalog rest (insert (qualifier_of source) schema schemas)

unfoldable pub has_column : TableSchema → Text → Bool
has_column schema name = any (λ (c : ColumnSchema). text_eq c.name name) schema.columns

-- The qualifiers of the tables that have a column of the name.
unfoldable pub column_matches : Text → Sources → List Text
column_matches name [] = []
column_matches name ((qualifier, schema) ∷ rest) =
    let later = column_matches name rest in
    if has_column schema name then qualifier ∷ later else later

-- the end of `_resolve_column`, for a column with no qualifier
unfoldable pub resolve_match : Text → List Text → Result ColumnRef
resolve_match name [] = err (constraint_error (unknown_column name))
resolve_match name (qualifier ∷ []) = ok (record { qualifier = some qualifier; column_name = name })
resolve_match name (a ∷ b ∷ rest) = err (constraint_error (ambiguous_column name))

unfoldable pub resolve_qualified : Text → Text → Sources → Result ColumnRef
resolve_qualified qualifier name schemas = elim (lookup qualifier schemas) [
  | none ↦ err (constraint_error (unknown_qualifier qualifier))
  | some schema ↦
      if not (has_column schema name)
      then err (
          constraint_error (
            unknown_column
              (qualified_name (record { qualifier = some qualifier; column_name = name }))))
      else ok (record { qualifier = some qualifier; column_name = name })
]

unfoldable pub resolve_column : ColumnRef → Sources → Result ColumnRef
resolve_column column schemas = elim column.qualifier [
  | none ↦ resolve_match column.column_name (column_matches column.column_name schemas)
  | some qualifier ↦ resolve_qualified qualifier column.column_name schemas
]

abbrev unqualified : Text → ColumnRef
unqualified name = record { qualifier = none; column_name = name }

-- Every column of every table, in order.
unfoldable pub all_columns : Sources → List ColumnRef
all_columns [] = []
all_columns ((qualifier, schema) ∷ rest) =
    map
      (λ (c : ColumnSchema).
        let column : ColumnRef = record { qualifier = some qualifier; column_name = c.name } in
        column)
      schema.columns
    ++ all_columns rest

module _ {F : Type 0} where
  unfoldable pub resolve_expression : Expression F → Sources → Result (Expression F)
  resolve_expression (identifier name) schemas = do
    c ← resolve_column (unqualified name) schemas
    ok (column_ref c)
  resolve_expression (column_ref column) schemas = do
    c ← resolve_column column schemas
    ok (column_ref c)
  resolve_expression (binary left operator right) schemas =
      let r = resolve_expression right schemas in
      do l ← resolve_expression left schemas; r' ← r; ok (binary l operator r')
  resolve_expression (literal v) schemas = ok (literal v)
  resolve_expression (function_call name arguments) schemas = ok (function_call name arguments)

  unfoldable pub resolve_where : Option (Expression F) → Sources → Result (Option (Expression F))
  resolve_where none schemas = ok none
  resolve_where (some e) schemas = do e' ← resolve_expression e schemas; ok (some e')

  unfoldable pub resolve_orderings : List (Ordering F) → Sources → Result (List (Ordering F))
  resolve_orderings [] schemas = ok []
  resolve_orderings (o ∷ rest) schemas =
      let later = resolve_orderings rest schemas in
      do
        e ← resolve_expression o.expression schemas
        os ← later
        ok (record o { expression = e } ∷ os)

  -- The columns that one projection of a join adds.
  unfoldable pub output_columns_of : Expression F → Sources → Result (List ColumnRef)
  output_columns_of (identifier name) schemas =
      if text_eq name (codes "*")
      then ok (all_columns schemas)
      else do c ← resolve_column (unqualified name) schemas; ok (c ∷ [])
  output_columns_of (column_ref column) schemas = do c ← resolve_column column schemas; ok (c ∷ [])
  output_columns_of _ schemas = err (constraint_error join_projection)

  unfoldable pub resolve_output_columns : List (Expression F) → Sources → Result (List ColumnRef)
  resolve_output_columns [] schemas = ok []
  resolve_output_columns (p ∷ ps) schemas =
      let later = resolve_output_columns ps schemas in
      do columns ← output_columns_of p schemas; more ← later; ok (columns ++ more)

unfoldable pub resolve_predicates : List JoinPredicate → Sources → Result (List JoinPredicate)
resolve_predicates [] schemas = ok []
resolve_predicates (p ∷ ps) schemas =
    let later = resolve_predicates ps schemas in
    do
      l ← resolve_column p.left schemas
      r ← resolve_column p.right schemas
      more ← later
      ok (record { left = l; right = r } ∷ more)

module _ {F : Type 0} where
  abbrev pub select_sources : Select F → List JoinSource
  select_sources statement =
      record { table_name = statement.table; alias = statement.table_alias }
      ∷ statement.join_sources

  unfoldable pub plan_join : Select F → Catalog → Result JoinPlan
  plan_join statement catalog = do
    schemas ← source_schemas catalog (select_sources statement) []
    predicates ← resolve_predicates statement.join_predicates schemas
    columns ← resolve_output_columns statement.projections schemas
    ok (record {
      sources = select_sources statement;
      predicates = predicates;
      output_columns = columns;
    })

  unfoldable pub bind_join_expressions : Select F → Catalog → Result (Select F)
  bind_join_expressions statement catalog = do
    schemas ← source_schemas catalog (select_sources statement) []
    where' ← resolve_where statement.where_ schemas
    orderings ← resolve_orderings statement.order_by schemas
    ok (record statement { where_ = where'; order_by = orderings })

module _ {F : Type 0} ⦃u : Unicode⦄ where
  -- A scan of one table: by the index of the first conjunct that has one, or of the whole table.
  unfoldable pub plan_scan : Select F → TableSchema → QueryPlan F
  plan_scan statement schema = elim statement.where_ [
    | none ↦ table_scan (record { table = statement.table; predicate = statement.where_ })
    | some e ↦ elim (find_index_candidate schema e) [
      | none ↦ table_scan (record { table = statement.table; predicate = statement.where_ })
      | some (column, l) ↦ index_scan (record {
        table = statement.table;
        index_name = constraint_index_name statement.table column;
        column = column;
        lookup = l;
        predicate = statement.where_;
      })
    ]
  ]

  unfoldable pub plan : Select F → Catalog → Result (QueryPlan F)
  plan statement catalog = elim statement.join_sources [
    | [] ↦ do schema ← get_table statement.table catalog; ok (plan_scan statement schema)
    | j ∷ js ↦ do p ← plan_join statement catalog; ok (join p)
  ]
