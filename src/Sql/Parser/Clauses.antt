-- ===== src/Sql/Parser/Clauses.antt =====
-- tinydb/sql/parser.py: columns, joins, projections, orderings and assignments.
use tinydb_sueprflow.Prelude.{
  ℕ, zero, suc, Text, codes, Bool, true, false, Option, none, some, List, [], ◌∷◌, if◌then◌else◌,
}
use tinydb_sueprflow.Errors.{out_of_fuel}
use tinydb_sueprflow.Python.Float.{FloatOps}
use tinydb_sueprflow.Sql.Ast.{
  Expression, identifier, ColumnDef, JoinSource, JoinPredicate, Ordering, Assignment,
}
use tinydb_sueprflow.Sql.Token.{kind_eq, identifier_kind, null_kind, star_kind}
use tinydb_sueprflow.Sql.Parser.Cursor.{
  Parser, pure, raise, ◌>>=◌, ◌>>◌, value_str, current, advance, fail, is_keyword, keyword_in,
  match_kind, expect_keyword, expect_kind, expect_operator, expect_identifier, comma_separated,
}
use tinydb_sueprflow.Sql.Parser.Expressions.{
  parse_identifier_expression, parse_column_ref, parse_value_expression,
}

abbrev supported_types : List Text
supported_types = codes "INT" ∷ codes "FLOAT" ∷ codes "TEXT" ∷ codes "BOOL" ∷ []

abbrev unsupported_join_keywords : List Text
unsupported_join_keywords =
    codes "LEFT" ∷ codes "RIGHT" ∷ codes "FULL" ∷ codes "CROSS" ∷ codes "NATURAL" ∷ []

-- The three flags of a column: primary key, not null, unique.
abbrev Flags : Type 0
Flags = Bool × Bool × Bool

module _ {F : Type 0} ⦃fl : FloatOps F⦄ where
  unfoldable pub expect_type_name : Parser F Text
  unfolding value_str
  expect_type_name = do
    t ← current
    if keyword_in supported_types t then (do advance; pure (value_str t.value)) else fail

module _ {F : Type 0} where
  unfoldable pub column_flags : ℕ → Flags → Parser F Flags
  column_flags zero flags = raise out_of_fuel
  column_flags (suc fuel) (primary_key, not_null, unique) = do
    t ← current
    if is_keyword (codes "PRIMARY") t
        then (do advance; expect_keyword (codes "KEY"); column_flags fuel (true, not_null, unique))
        else if is_keyword (codes "NOT") t
        then (do advance; expect_kind null_kind; column_flags fuel (primary_key, true, unique))
        else if is_keyword (codes "UNIQUE") t
        then (do advance; column_flags fuel (primary_key, not_null, true))
        else if is_keyword (codes "FOREIGN") t
        then fail
        else pure (primary_key, not_null, unique)

module _ {F : Type 0} ⦃fl : FloatOps F⦄ where
  unfoldable pub parse_column_def : ℕ → Parser F ColumnDef
  unfolding expect_type_name column_flags
  parse_column_def fuel = do
    name ← expect_identifier
    type_name ← expect_type_name
    flags ← column_flags fuel (false, false, false)
    pure (record {
      name = name;
      type_name = type_name;
      primary_key = flags.0;
      not_null = flags.1;
      unique = flags.2;
    })

  unfoldable pub parse_optional_table_alias : Parser F (Option Text)
  parse_optional_table_alias = do
    t ← current
    if is_keyword (codes "AS") t
        then (do advance; name ← expect_identifier; pure (some name))
        else if kind_eq t.kind identifier_kind
        then (do name ← expect_identifier; pure (some name))
        else pure none

  unfoldable pub parse_join_source : Parser F JoinSource
  unfolding parse_optional_table_alias
  parse_join_source = do
    table_name ← expect_identifier
    alias ← parse_optional_table_alias
    pure (record { table_name = table_name; alias = alias })

  unfoldable pub parse_join_predicate : Parser F JoinPredicate
  unfolding parse_column_ref
  parse_join_predicate = do
    left ← parse_column_ref
    expect_operator (codes "=")
    right ← parse_column_ref
    pure (record { left = left; right = right })

  unfoldable pub parse_join_clauses : ℕ → Parser F (List JoinSource × List JoinPredicate)
  unfolding parse_join_source parse_join_predicate
  parse_join_clauses zero = raise out_of_fuel
  parse_join_clauses (suc fuel) = do
    t ← current
    if keyword_in unsupported_join_keywords t
        then fail
        else if is_keyword (codes "JOIN") t
        then fail
        else if is_keyword (codes "INNER") t
        then (do
          advance
          expect_keyword (codes "JOIN")
          source ← parse_join_source
          expect_keyword (codes "ON")
          predicate ← parse_join_predicate
          later ← parse_join_clauses fuel
          pure (source ∷ later.0, predicate ∷ later.1))
        else pure ([], [])

  unfoldable pub parse_select_expression : ℕ → Parser F (Expression F)
  unfolding parse_value_expression
  parse_select_expression fuel = do
    b ← match_kind star_kind
    if b then (do advance; pure (identifier (codes "*"))) else parse_value_expression fuel

  unfoldable pub parse_projection_list : ℕ → Parser F (List (Expression F))
  unfolding parse_select_expression comma_separated
  parse_projection_list fuel = comma_separated fuel (parse_select_expression fuel)

  unfoldable pub parse_identifier_list : ℕ → Parser F (List Text)
  unfolding comma_separated
  parse_identifier_list fuel = comma_separated fuel expect_identifier

  unfoldable pub parse_ordering : Parser F (Ordering F)
  unfolding parse_identifier_expression
  parse_ordering = do
    expression ← parse_identifier_expression
    t ← current
    if is_keyword (codes "ASC") t
        then (do advance; pure (record { expression = expression; descending = false }))
        else if is_keyword (codes "DESC") t
        then (do advance; pure (record { expression = expression; descending = true }))
        else pure (record { expression = expression; descending = false })

  unfoldable pub parse_ordering_list : ℕ → Parser F (List (Ordering F))
  unfolding parse_ordering comma_separated
  parse_ordering_list fuel = comma_separated fuel parse_ordering

  unfoldable pub parse_assignment : ℕ → Parser F (Assignment F)
  unfolding parse_value_expression
  parse_assignment fuel = do
    column ← expect_identifier
    expect_operator (codes "=")
    value ← parse_value_expression fuel
    pure (record { column = column; value = value })
