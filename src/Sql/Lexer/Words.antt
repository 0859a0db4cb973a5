-- ===== src/Sql/Lexer/Words.antt =====
-- tinydb/sql/lexer.py: words, which are keywords, the names of constants, or identifiers.
use tinydb_sueprflow.Prelude.{
  ℕ, Text, codes, text_eq, Bool, true, false, ◌||◌, [], ◌∷◌, length, if◌then◌else◌, ◌==◌,
}
use tinydb_sueprflow.Python.Unicode.{Unicode, upper}
use tinydb_sueprflow.Value.{null, bool, text}
use tinydb_sueprflow.Sql.Token.{
  Token, keywords, one_of, boolean_kind, null_kind, keyword_kind, identifier_kind,
}

-- The longest run of characters that pass the test, and the text behind it.
unfoldable pub run : (ℕ → Bool) → Text → Text × Text
run p [] = ([], [])
run p (c ∷ cs) = let (front, back) = run p cs in if p c then (c ∷ front, back) else ([], c ∷ cs)

module _ {F : Type 0} ⦃u : Unicode⦄ where
  unfoldable pub word_token : ℕ → Text → Token F
  unfolding upper text_eq
  word_token start value =
      let normalized = upper value in
      if text_eq normalized (codes "TRUE")
      then record { kind = boolean_kind; value = bool true; position = start }
      else if text_eq normalized (codes "FALSE")
      then record { kind = boolean_kind; value = bool false; position = start }
      else if text_eq normalized (codes "NULL")
      then record { kind = null_kind; value = null; position = start }
      else if one_of keywords normalized
      then record { kind = keyword_kind; value = text normalized; position = start }
      else record { kind = identifier_kind; value = text value; position = start }

  -- The token, the text behind it, and how many characters it took.
  unfoldable pub lex_word : ℕ → ℕ → Text → Token F × Text × ℕ
  lex_word start c rest =
      let (front, back) = run (λ d. u.is_alnum d || d == b'_') rest in
      (word_token start (c ∷ front), back, length (c ∷ front))
