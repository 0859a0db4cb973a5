-- ===== src/Tests/Texts.antt =====
-- The theorems on SQL text and expressions at small inputs.
use tinydb_sueprflow.Prelude.{◌≡◌, ◌≢◌, refl, Text, codes, text_eq, true, false, [], ◌∷◌, arith}
use tinydb_sueprflow.Errors.{ok, err, out_of_fuel}
use tinydb_sueprflow.Python.Int.{pos, compare_ℤ}
use tinydb_sueprflow.Python.Float.{Num}
use tinydb_sueprflow.Python.Unicode.{upper}
use tinydb_sueprflow.Python.Dict.{lookup}
use tinydb_sueprflow.Value.{null, int, float, text, Row, compare_values, truthy}
use tinydb_sueprflow.Types.{TinyType, validate, HasType, validate-HasType}
use tinydb_sueprflow.Catalog.{TableSchema}
use tinydb_sueprflow.Index.Keys.{range, is_none}
use tinydb_sueprflow.Sql.Ast.{Expression, identifier, literal, binary}
use tinydb_sueprflow.Sql.Expressions.{
  value, evaluate_binary, column_value, compare_with, compare_objects, object_truthy,
  evaluate_comparison, evaluate_expression, evaluate_predicate,
}
use tinydb_sueprflow.Sql.Token.{Token, string_kind, eof_kind}
use tinydb_sueprflow.Sql.Lexer.{tokenize}
use tinydb_sueprflow.Sql.Lexer.Progress.{tokenize-not_out_of_fuel}
use tinydb_sueprflow.Sql.Lexer.Quoting.{quote_text, tokenize-quote_text}
use tinydb_sueprflow.Sql.Parser.Expressions.{parse_predicate_expression}
use tinydb_sueprflow.Sql.Parser.Printing.{
  name, string, number, call, count_, eq_, le_, Predicate, comparison, conjunction, emit,
  expression_of, token,
}
use tinydb_sueprflow.Sql.Parser.RoundTrip.{parse_predicate_expression-emit}
use tinydb_sueprflow.Planner.{
  find_index_candidate, reverse_operator, is_indexed_constraint_column, comparison_index_candidate,
  operator_lookup,
}
use tinydb_sueprflow.Planner.Reverse.{evaluate_comparison-reverse}
use tinydb_sueprflow.Planner.IndexScan.{Covers, find_index_candidate-Covers}
use tinydb_sueprflow.Tests.Floats.{Whole, whole, whole_ops, whole_laws, plain, plain_quote}

-- it's
abbrev its : Text
its = codes "it's"

tokenize-quote_text_example :
    tokenize {F = Whole} (quote_text its)
    ≡ ok (record { kind = string_kind; value = text its; position = 0 } ∷ [])
tokenize-quote_text_example = tokenize-quote_text its

tokenize-not_out_of_fuel_example : tokenize {F = Whole} (codes "SELECT * FROM t;") ≢ err out_of_fuel
tokenize-not_out_of_fuel_example = tokenize-not_out_of_fuel Whole (codes "SELECT * FROM t;")

-- (a = 'it''s' AND COUNT(b) <= 3)
abbrev sample : Predicate Whole
sample =
    conjunction (comparison (name (codes "a")) eq_ (string its))
      (comparison (call count_ (name (codes "b"))) le_ (number (Num.int (pos 3))))

abbrev end : Token Whole
end = token eof_kind (text [])

parse_predicate_expression-emit_example :
    parse_predicate_expression 7 (emit sample (end ∷ [])) ≡ ok (expression_of sample, end ∷ [])
parse_predicate_expression-emit_example =
    parse_predicate_expression-emit sample 6 end [] (omega arith) refl refl refl

evaluate_comparison-reverse_example :
    evaluate_comparison
      (reverse_operator (codes "<="))
      (value (int (pos 2)))
      (value (float (whole (pos 5))))
    ≡ evaluate_comparison (codes "<=") (value (float (whole (pos 5)))) (value (int (pos 2)))
evaluate_comparison-reverse_example =
    evaluate_comparison-reverse (codes "<=") (float (whole (pos 5))) (int (pos 2))

validate-HasType_example :
    HasType TinyType.float_type (float (whole (pos 4)))
    × (validate TinyType.float_type (float (whole (pos 4))) ≡ ok (float (whole (pos 4))))
unfolding validate
validate-HasType_example =
    validate-HasType TinyType.float_type (int (pos 4)) (float (whole (pos 4))) refl

abbrev users : TableSchema
users = record {
  name = codes "users";
  columns =
      record {
        name = codes "id";
        type = TinyType.int_type;
        primary_key = true;
        not_null = true;
        unique = true;
      }
      ∷ [];
}

-- 3 < id
abbrev over_three : Expression Whole
over_three = binary (literal (int (pos 3))) (codes "<") (identifier (codes "id"))

abbrev row : Row Whole
row = (codes "id", int (pos 7)) ∷ []

find_index_candidate-Covers_example :
    Covers users (range (int (pos 3)) null false true) (codes "id") row
unfolding find_index_candidate comparison_index_candidate is_indexed_constraint_column
    reverse_operator upper text_eq is_none evaluate_predicate compare_values truthy lookup
    operator_lookup evaluate_expression evaluate_binary column_value evaluate_comparison
    compare_with compare_objects object_truthy compare_ℤ
find_index_candidate-Covers_example =
    find_index_candidate-Covers users over_three row (codes "id")
      (range (int (pos 3)) null false true) refl refl
