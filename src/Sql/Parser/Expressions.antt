-- ===== src/Sql/Parser/Expressions.antt =====
-- tinydb/sql/parser.py: expressions and predicates.
use tinydb_sueprflow.Prelude.{
  ℕ, zero, suc, Text, codes, text_eq, Bool, true, false, ◌&&◌, ◌||◌, some, List, [], ◌∷◌,
  if◌then◌else◌,
}
use tinydb_sueprflow.Errors.{out_of_fuel}
use tinydb_sueprflow.Python.Float.{FloatOps}
use tinydb_sueprflow.Value.{null}
use tinydb_sueprflow.Sql.Ast.{
  ColumnRef, Expression, identifier, column_ref, literal, binary, function_call, no_expressions,
  expressions,
}
use tinydb_sueprflow.Sql.Token.{
  Token, kind_eq, boolean_kind, null_kind, identifier_kind, number_kind, string_kind, dot_kind,
  lparen_kind, rparen_kind, star_kind, operator_kind,
}
use tinydb_sueprflow.Sql.Parser.Cursor.{
  Parser, pure, raise, ◌>>=◌, ◌>>◌, value_str, current, advance, fail, value_in, keyword_in,
  match_keyword, match_kind, expect_kind, expect_identifier,
}

abbrev pub comparison_operators : List Text
comparison_operators = codes "=" ∷ codes "!=" ∷ codes "<" ∷ codes "<=" ∷ codes ">" ∷ codes ">=" ∷ []

abbrev pub aggregates : List Text
aggregates = codes "COUNT" ∷ codes "SUM" ∷ codes "AVG" ∷ []

module _ {F : Type 0} ⦃fl : FloatOps F⦄ where
  unfoldable pub parse_identifier_expression : Parser F (Expression F)
  unfolding value_str
  parse_identifier_expression = do
    name ← expect_identifier
    b ← match_kind dot_kind
    if b
        then (do
          advance
          column ← expect_identifier
          pure (column_ref (record { qualifier = some name; column_name = column })))
        else pure (identifier name)

  unfoldable pub parse_column_ref : Parser F ColumnRef
  unfolding parse_identifier_expression
  parse_column_ref = do e ← parse_identifier_expression; of_expression e
    where
      of_expression : Expression F → Parser F ColumnRef
      of_expression (column_ref c) = pure c
      of_expression e = fail

  unfoldable pub parse_function_call : Parser F (Expression F) → Parser F (Expression F)
  unfolding value_str text_eq
  parse_function_call value_expression = do
    t ← current
    advance
    expect_kind lparen_kind
    star ← match_kind star_kind
    argument ← argument_of (value_str t.value) star
    expect_kind rparen_kind
    pure (function_call (value_str t.value) (expressions argument no_expressions))
    where
      argument_of : Text → Bool → Parser F (Expression F)
      argument_of name true =
          if text_eq name (codes "COUNT") then (do advance; pure (identifier (codes "*"))) else fail
      argument_of name false = value_expression

  -- What a value expression begins with decides; `inner` is the parser one level down.
  unfoldable pub value_from : Parser F (Expression F) → Token F → Parser F (Expression F)
  unfolding parse_function_call parse_identifier_expression
  value_from inner t =
      if keyword_in aggregates t
      then parse_function_call inner
      else if kind_eq t.kind identifier_kind
      then parse_identifier_expression
      else if kind_eq t.kind number_kind
          || (kind_eq t.kind string_kind || kind_eq t.kind boolean_kind)
      then (do advance; pure (literal t.value))
      else if kind_eq t.kind null_kind
      then (do advance; pure (literal null))
      else if kind_eq t.kind lparen_kind
      then (do advance; e ← inner; expect_kind rparen_kind; pure e)
      else fail

  unfoldable pub parse_value_expression : ℕ → Parser F (Expression F)
  unfolding value_from
  parse_value_expression zero = raise out_of_fuel
  parse_value_expression (suc fuel) = do t ← current; value_from (parse_value_expression fuel) t

  unfoldable pub parse_comparison_predicate : ℕ → Parser F (Expression F)
  unfolding parse_value_expression value_str
  parse_comparison_predicate fuel = do
    left ← parse_value_expression fuel
    t ← current
    if kind_eq t.kind operator_kind && value_in comparison_operators t.value
        then (do
          advance
          right ← parse_value_expression fuel
          pure (binary left (value_str t.value) right))
        else fail

  -- `while self.match_keyword(name)`: the operands associate to the left.
  unfoldable pub chain : Text → ℕ → Parser F (Expression F) → Expression F → Parser F (Expression F)
  chain name zero operand e = raise out_of_fuel
  chain name (suc fuel) operand e = do
    b ← match_keyword name
    if b
        then (do advance; right ← operand; chain name fuel operand (binary e name right))
        else pure e

  unfoldable pub parse_predicate_leaf : ℕ → Parser F (Expression F) → Parser F (Expression F)
  unfolding parse_comparison_predicate
  parse_predicate_leaf fuel predicate = do
    b ← match_kind lparen_kind
    if b
        then (do advance; e ← predicate; expect_kind rparen_kind; pure e)
        else parse_comparison_predicate fuel

  unfoldable pub parse_and_predicate : ℕ → Parser F (Expression F) → Parser F (Expression F)
  unfolding chain
  parse_and_predicate fuel leaf = do e ← leaf; chain (codes "AND") fuel leaf e

  unfoldable pub parse_or_predicate : ℕ → Parser F (Expression F) → Parser F (Expression F)
  unfolding chain parse_and_predicate
  parse_or_predicate fuel leaf = do
    e ← parse_and_predicate fuel leaf
    chain (codes "OR") fuel (parse_and_predicate fuel leaf) e

  unfoldable pub parse_predicate_expression : ℕ → Parser F (Expression F)
  unfolding parse_or_predicate parse_predicate_leaf
  parse_predicate_expression zero = raise out_of_fuel
  parse_predicate_expression (suc fuel) =
      parse_or_predicate fuel (parse_predicate_leaf fuel (parse_predicate_expression fuel))
