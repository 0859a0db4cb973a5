-- ===== src/Sql/Parser.antt =====
-- tinydb/sql/parser.py: the recursive-descent parser.
mod Cursor
pub mod Expressions
mod Clauses
mod Queries
mod Statements
pub mod Printing
pub mod RoundTrip
use tinydb_sueprflow.Prelude.{ℕ, suc, ◌+◌, Text, List, [], ◌∷◌, ◌++◌, length}
use tinydb_sueprflow.Errors.{Result, ok, err, ◌>>=◌, Error, parse_error_text}
use tinydb_sueprflow.Python.Unicode.{Unicode}
use tinydb_sueprflow.Python.Float.{FloatOps}
use tinydb_sueprflow.Value.{text}
use tinydb_sueprflow.Sql.Ast.{Statement}
use tinydb_sueprflow.Sql.Token.{Token, eof_kind}
use tinydb_sueprflow.Sql.Lexer.{tokenize}
use Cursor.{value_str}
use Statements.{parse_whole}

module _ {F : Type 0} ⦃fl : FloatOps F⦄ where
  -- The position behind the last token, and the token that stands there.
  unfoldable pub end_position : Token F → List (Token F) → ℕ
  unfolding value_str
  end_position t [] = t.position + length (value_str t.value)
  end_position t (next ∷ ts) = end_position next ts

  unfoldable pub parser_tokens : Token F → List (Token F) → List (Token F)
  unfolding end_position
  parser_tokens t ts =
      t ∷ ts ++ record { kind = eof_kind; value = text []; position = end_position t ts } ∷ []

module _ {F : Type 0} ⦃fl : FloatOps F⦄ ⦃u : Unicode⦄ where
  unfoldable pub parse_tokens : List (Token F) → Result (Statement F)
  unfolding parser_tokens
  parse_tokens [] = err parse_error_text
  parse_tokens (t ∷ ts) = do
    (statement, rest) ← parse_whole (length (parser_tokens t ts)) (parser_tokens t ts)
    ok statement

  unfoldable pub parse_sql : Text → Result (Statement F)
  unfolding tokenize
  parse_sql sql = do tokens ← tokenize sql; parse_tokens tokens
