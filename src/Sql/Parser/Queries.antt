-- ===== src/Sql/Parser/Queries.antt =====
-- tinydb/sql/parser.py: SELECT.
use tinydb_sueprflow.Prelude.{
  ℕ, Text, codes, Bool, true, false, Option, none, some, List, [], ◌∷◌, if◌then◌else◌,
}
use tinydb_sueprflow.Python.Float.{FloatOps}
use tinydb_sueprflow.Sql.Ast.{JoinSource, Select}
use tinydb_sueprflow.Sql.Parser.Cursor.{
  Parser, pure, ◌>>=◌, ◌>>◌, fail, expect_keyword, expect_identifier, expect_non_negative_integer,
  clause,
}
use tinydb_sueprflow.Sql.Parser.Expressions.{parse_predicate_expression}
use tinydb_sueprflow.Sql.Parser.Clauses.{
  parse_projection_list, parse_optional_table_alias, parse_join_clauses, parse_identifier_list,
  parse_ordering_list,
}

-- an alias needs a join
abbrev alias_alone : Option Text → List JoinSource → Bool
alias_alone (some a) [] = true
alias_alone (some a) (s ∷ ss) = false
alias_alone none ss = false

module _ {F : Type 0} ⦃fl : FloatOps F⦄ where
  abbrev optional : {A : Type 0} → Parser F A → Parser F (Option A)
  optional p = do a ← p; pure (some a)

  abbrev refuse_alias_alone : Option Text → List JoinSource → Parser F (Unit {0})
  refuse_alias_alone alias sources = if alias_alone alias sources then fail else pure tt

  unfoldable pub parse_select : ℕ → Parser F (Select F)
  unfolding parse_projection_list parse_optional_table_alias parse_join_clauses
      parse_predicate_expression parse_identifier_list parse_ordering_list
  parse_select fuel = do
    expect_keyword (codes "SELECT")
    projections ← parse_projection_list fuel
    expect_keyword (codes "FROM")
    table ← expect_identifier
    table_alias ← parse_optional_table_alias
    joins ← parse_join_clauses fuel
    refuse_alias_alone table_alias joins.0
    where_ ← clause (codes "WHERE") (optional (parse_predicate_expression fuel)) none
    group_by ←
        clause (codes "GROUP") (do expect_keyword (codes "BY"); parse_identifier_list fuel) []
    order_by ← clause (codes "ORDER") (do expect_keyword (codes "BY"); parse_ordering_list fuel) []
    limit ← clause (codes "LIMIT") (optional expect_non_negative_integer) none
    offset ← clause (codes "OFFSET") (optional expect_non_negative_integer) none
    pure (record {
      projections = projections;
      table = table;
      where_ = where_;
      group_by = group_by;
      order_by = order_by;
      limit = limit;
      offset = offset;
      table_alias = table_alias;
      join_sources = joins.0;
      join_predicates = joins.1;
    })
