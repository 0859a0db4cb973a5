-- ===== src/Sql/Lexer.antt =====
-- tinydb/sql/lexer.py: from the text of a statement to tokens.
mod Words
mod Numbers
mod Quotes
pub mod Progress
pub mod Quoting
use tinydb_sueprflow.Prelude.{
  ℕ, zero, suc, ◌+◌, Text, codes, text_eq, Bool, true, false, not, ◌&&◌, ◌||◌, Option, none, some,
  List, [], ◌∷◌, length, any, if◌then◌else◌, ◌==◌,
}
use tinydb_sueprflow.Errors.{Result, ok, err, ◌>>=◌, Error, parse_error, out_of_fuel}
use tinydb_sueprflow.Python.Unicode.{Unicode}
use tinydb_sueprflow.Python.Float.{FloatOps}
use tinydb_sueprflow.Value.{Value, text}
use tinydb_sueprflow.Sql.Token.{
  Kind, Token, keyword_kind, comma_kind, dot_kind, lparen_kind, rparen_kind, star_kind,
  semicolon_kind, operator_kind, string_kind,
}
use Words.{lex_word}
use Numbers.{lex_number}
use Quotes.{quoted}

-- One turn of the loop: a token or none, what is left of the text, and where it begins.
pub record Step (F : Type 0) : Type 0 where
  pub token : Option (Token F)
  pub rest : Text
  pub position : ℕ

module _ {F : Type 0} where
  abbrev emit : Kind → Text → ℕ → Text → Step F
  emit kind value start rest = record {
    token = some (record { kind = kind; value = text value; position = start });
    rest = rest;
    position = start + length value;
  }

  -- `<`, `>` and `=` stand for themselves, `!` needs an `=` behind it.
  unfoldable pub lex_operator : ℕ → ℕ → Text → Result (Step F)
  lex_operator position c (d ∷ rest) =
      if d == b'=' && (c == b'!' || (c == b'<' || c == b'>'))
      then ok (emit operator_kind (c ∷ d ∷ []) position rest)
      else if c == b'<' || (c == b'>' || c == b'=')
      then ok (emit operator_kind (c ∷ []) position (d ∷ rest))
      else err (parse_error position)
  lex_operator position c [] =
      if c == b'<' || (c == b'>' || c == b'=')
      then ok (emit operator_kind (c ∷ []) position [])
      else err (parse_error position)

  unfoldable pub lex_symbol : ℕ → ℕ → Text → Result (Step F)
  unfolding lex_operator
  lex_symbol position c rest =
      if c == b','
      then ok (emit comma_kind (c ∷ []) position rest)
      else if c == b'.'
      then ok (emit dot_kind (c ∷ []) position rest)
      else if c == b'('
      then ok (emit lparen_kind (c ∷ []) position rest)
      else if c == b')'
      then ok (emit rparen_kind (c ∷ []) position rest)
      else if c == b'*'
      then ok (emit star_kind (c ∷ []) position rest)
      else if c == b';'
      then ok (emit semicolon_kind (c ∷ []) position rest)
      else lex_operator position c rest

  -- A string literal: `start` is the position of the opening quote.
  unfoldable pub lex_string : ℕ → Text → Result (Step F)
  unfolding quoted
  lex_string start rest = do
    (value, after, width) ← quoted start rest
    ok (record {
      token = some (record { kind = string_kind; value = text value; position = start });
      rest = after;
      position = start + 1 + width;
    })

module _ {F : Type 0} ⦃fl : FloatOps F⦄ ⦃u : Unicode⦄ where
  unfoldable pub lex_step : ℕ → ℕ → Text → Result (Step F)
  lex_step position c rest =
      if u.is_space c
      then ok (record { token = none; rest = rest; position = position + 1 })
      else if u.is_alpha c || c == b'_'
      then (let (token, after, width) = lex_word position c rest in
          ok (record { token = some token; rest = after; position = position + width }))
      else if u.is_digit c
      then (do
        (token, after, width) ← lex_number position c rest
        ok (record { token = some token; rest = after; position = position + width }))
      else if c == b'\''
      then lex_string position rest
      else lex_symbol position c rest

  abbrev add : Option (Token F) → List (Token F) → List (Token F)
  add none ts = ts
  add (some t) ts = t ∷ ts

  -- `while position < length`
  unfoldable pub tokenize_from : ℕ → ℕ → Text → Result (List (Token F))
  tokenize_from fuel position [] = ok []
  tokenize_from zero position (c ∷ rest) = err out_of_fuel
  tokenize_from (suc fuel) position (c ∷ rest) = do
    step ← lex_step position c rest
    later ← tokenize_from fuel step.position step.rest
    ok (add step.token later)

  -- A turn takes a character at least, so the length of the text is fuel enough.
  unfoldable pub tokenize : Text → Result (List (Token F))
  tokenize sql = tokenize_from (length sql) 0 sql
