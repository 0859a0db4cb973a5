-- ===== src/Sql/Lexer/Numbers.antt =====
-- tinydb/sql/lexer.py: numbers, without the interpreter's limit on the digits that `int` reads.
use tinydb_sueprflow.Prelude.{
  ℕ, ◌+◌, ◌*◌, Text, Option, none, some, [], ◌∷◌, ◌++◌, length, if◌then◌else◌, ◌==◌,
}
use tinydb_sueprflow.Errors.{Result, ok, err, ◌>>=◌, parse_error, value_error}
use tinydb_sueprflow.Python.Unicode.{Unicode}
use tinydb_sueprflow.Python.Int.{pos}
use tinydb_sueprflow.Python.Float.{FloatOps}
use tinydb_sueprflow.Value.{Value, int, float}
use tinydb_sueprflow.Sql.Token.{Token, number_kind}
use tinydb_sueprflow.Sql.Lexer.Words.{run}

abbrev pub digit_value : Option ℕ → Result ℕ
digit_value none = err value_error
digit_value (some d) = ok d

module _ ⦃u : Unicode⦄ where
  -- `int` of characters that are digits; some that `isdigit` accepts have no value.
  unfoldable pub int_of_digits : ℕ → Text → Result ℕ
  int_of_digits n [] = ok n
  int_of_digits n (c ∷ cs) = do d ← digit_value (u.to_digit c); int_of_digits (n * 10 + d) cs

module _ {F : Type 0} ⦃fl : FloatOps F⦄ ⦃u : Unicode⦄ where
  abbrev number : ℕ → Value F → Token F
  number start value = record { kind = number_kind; value = value; position = start }

  -- Behind the point there must be a digit. `float` refuses the characters that `int` refuses.
  unfoldable pub lex_fraction : ℕ → Text → Text → Result (Token F × Text × ℕ)
  unfolding run
  lex_fraction start whole [] = err (parse_error start)
  lex_fraction start whole (d ∷ rest) =
      let (front, back) = run u.is_digit rest in
      if u.is_digit d
      then (do
        w ← int_of_digits 0 whole
        f ← int_of_digits 0 (d ∷ front)
        ok (
          number start (float (fl.of_text (whole ++ b'.' ∷ d ∷ front))),
          back,
          length whole + 1 + length (d ∷ front),
        ))
      else err (parse_error start)

  unfoldable pub lex_integer : ℕ → Text → Text → Result (Token F × Text × ℕ)
  lex_integer start whole back = do
    n ← int_of_digits 0 whole
    ok (number start (int (pos n)), back, length whole)

  -- A point behind the digits makes it a float.
  unfoldable pub lex_behind_digits : ℕ → Text → Text → Result (Token F × Text × ℕ)
  unfolding lex_integer lex_fraction
  lex_behind_digits start whole [] = lex_integer start whole []
  lex_behind_digits start whole (d ∷ back) =
      if d == b'.' then lex_fraction start whole back else lex_integer start whole (d ∷ back)

  unfoldable pub lex_number : ℕ → ℕ → Text → Result (Token F × Text × ℕ)
  unfolding run lex_behind_digits
  lex_number start c rest =
      let (front, back) = run u.is_digit rest in lex_behind_digits start (c ∷ front) back
