-- ===== src/Sql/Parser/Statements.antt =====
-- tinydb/sql/parser.py: the statements but SELECT, and a whole input.
use tinydb_sueprflow.Prelude.{ℕ, codes, ◌||◌, Option, none, some, if◌then◌else◌}
use tinydb_sueprflow.Python.Float.{FloatOps}
use tinydb_sueprflow.Sql.Ast.{
  Expression, CreateTable, DropTable, Insert, Update, Delete, Statement, create_table, drop_table,
  insert, select, update, delete, begin_transaction, commit_transaction, rollback_transaction,
}
use tinydb_sueprflow.Sql.Token.{lparen_kind, rparen_kind, semicolon_kind, eof_kind}
use tinydb_sueprflow.Sql.Parser.Cursor.{
  Parser, pure, ◌>>=◌, ◌>>◌, current, advance, fail, is_keyword, match_kind, expect_keyword,
  expect_kind, expect_identifier, comma_separated, clause,
}
use tinydb_sueprflow.Sql.Parser.Expressions.{parse_value_expression, parse_predicate_expression}
use tinydb_sueprflow.Sql.Parser.Clauses.{parse_column_def, parse_assignment}
use tinydb_sueprflow.Sql.Parser.Queries.{parse_select}

module _ {F : Type 0} ⦃fl : FloatOps F⦄ where
  unfoldable pub parse_create : ℕ → Parser F CreateTable
  unfolding parse_column_def comma_separated
  parse_create fuel = do
    expect_keyword (codes "CREATE")
    t ← current
    if is_keyword (codes "VIEW") t || is_keyword (codes "TRIGGER") t then fail else pure tt
    expect_keyword (codes "TABLE")
    name ← expect_identifier
    expect_kind lparen_kind
    columns ← comma_separated fuel (parse_column_def fuel)
    expect_kind rparen_kind
    pure (record { name = name; columns = columns })

  unfoldable pub parse_drop : Parser F DropTable
  parse_drop = do
    expect_keyword (codes "DROP")
    expect_keyword (codes "TABLE")
    name ← expect_identifier
    pure (record { name = name })

  unfoldable pub parse_insert : ℕ → Parser F (Insert F)
  unfolding parse_value_expression comma_separated
  parse_insert fuel = do
    expect_keyword (codes "INSERT")
    expect_keyword (codes "INTO")
    table ← expect_identifier
    expect_kind lparen_kind
    columns ← comma_separated fuel expect_identifier
    expect_kind rparen_kind
    expect_keyword (codes "VALUES")
    expect_kind lparen_kind
    values ← comma_separated fuel (parse_value_expression fuel)
    expect_kind rparen_kind
    pure (record { table = table; columns = columns; values = values })

  abbrev where_clause : ℕ → Parser F (Option (Expression F))
  where_clause fuel =
      clause (codes "WHERE") (do e ← parse_predicate_expression fuel; pure (some e)) none

  unfoldable pub parse_update : ℕ → Parser F (Update F)
  unfolding parse_assignment comma_separated parse_predicate_expression
  parse_update fuel = do
    expect_keyword (codes "UPDATE")
    table ← expect_identifier
    expect_keyword (codes "SET")
    assignments ← comma_separated fuel (parse_assignment fuel)
    where_ ← where_clause fuel
    pure (record { table = table; assignments = assignments; where_ = where_ })

  unfoldable pub parse_delete : ℕ → Parser F (Delete F)
  unfolding parse_predicate_expression
  parse_delete fuel = do
    expect_keyword (codes "DELETE")
    expect_keyword (codes "FROM")
    table ← expect_identifier
    where_ ← where_clause fuel
    pure (record { table = table; where_ = where_ })

  unfoldable pub parse_statement : ℕ → Parser F (Statement F)
  unfolding parse_create parse_drop parse_insert parse_select parse_update parse_delete
  parse_statement fuel = do
    t ← current
    if is_keyword (codes "CREATE") t
        then (do s ← parse_create fuel; pure (create_table s))
        else if is_keyword (codes "DROP") t
        then (do s ← parse_drop; pure (drop_table s))
        else if is_keyword (codes "INSERT") t
        then (do s ← parse_insert fuel; pure (insert s))
        else if is_keyword (codes "SELECT") t
        then (do s ← parse_select fuel; pure (select s))
        else if is_keyword (codes "UPDATE") t
        then (do s ← parse_update fuel; pure (update s))
        else if is_keyword (codes "DELETE") t
        then (do s ← parse_delete fuel; pure (delete s))
        else if is_keyword (codes "BEGIN") t
        then (do advance; pure begin_transaction)
        else if is_keyword (codes "COMMIT") t
        then (do advance; pure commit_transaction)
        else if is_keyword (codes "ROLLBACK") t
        then (do advance; pure rollback_transaction)
        else fail

  abbrev consume_optional_semicolon : Parser F (Unit {0})
  consume_optional_semicolon = do b ← match_kind semicolon_kind; if b then advance else pure tt

  abbrev expect_eof : Parser F (Unit {0})
  expect_eof = do b ← match_kind eof_kind; if b then pure tt else fail

  unfoldable pub parse_whole : ℕ → Parser F (Statement F)
  unfolding parse_statement
  parse_whole fuel = do
    statement ← parse_statement fuel
    consume_optional_semicolon
    expect_eof
    pure statement
