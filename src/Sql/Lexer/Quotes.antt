-- ===== src/Sql/Lexer/Quotes.antt =====
-- tinydb/sql/lexer.py: string literals. A quote inside one is written twice.
use tinydb_sueprflow.Prelude.{ℕ, ◌+◌, Text, [], ◌∷◌, if◌then◌else◌, ◌==◌}
use tinydb_sueprflow.Errors.{Result, ok, err, parse_error}

-- `c` before what a literal turned out to hold, of which it took `width` characters
abbrev pub before : ℕ → ℕ → Result (Text × Text × ℕ) → Result (Text × Text × ℕ)
before c width (ok (value, rest, n)) = ok (c ∷ value, rest, width + n)
before c width (err e) = err e

-- What stands between the quotes, the text behind the closing one, and how many characters both took.
unfoldable pub quoted : ℕ → Text → Result (Text × Text × ℕ)
quoted start [] = err (parse_error start)
quoted start (c ∷ []) = if c == b'\'' then ok ([], [], 1) else err (parse_error start)
quoted start (c ∷ d ∷ rest) =
    let twice = quoted start rest in
    let once = quoted start (d ∷ rest) in
    if c == b'\''
    then (if d == b'\'' then before b'\'' 2 twice else ok ([], d ∷ rest, 1))
    else before c 1 once
