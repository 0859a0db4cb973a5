-- ===== src/Sql/Lexer/Quoting.antt =====
-- String literals: the lexer undoes the doubling of quotes.
use tinydb_sueprflow.Prelude.{
  ℕ, suc, ◌≡◌, refl, sym, ap, ◌∙◌, Text, false, [], ◌∷◌, ◌++◌, length, if◌then◌else◌, ◌==◌, arith,
  Bool-cases, inl, inr,
}
use tinydb_sueprflow.Errors.{ok}
use tinydb_sueprflow.Python.Unicode.{Unicode}
use tinydb_sueprflow.Python.Float.{FloatOps}
use tinydb_sueprflow.Value.{text}
use tinydb_sueprflow.Sql.Token.{string_kind}
use tinydb_sueprflow.Sql.Lexer.Quotes.{quoted}
use tinydb_sueprflow.Sql.Lexer.{lex_step, lex_string, tokenize_from, tokenize}

-- What Python's tables say of the quote.
pub record QuoteLaws ⦃u : Unicode⦄ : Type 0 where
  pub not_space : u.is_space b'\'' ≡ false
  pub not_alpha : u.is_alpha b'\'' ≡ false
  pub not_digit : u.is_digit b'\'' ≡ false

-- A text with its quotes doubled, as SQL writes it.
abbrev pub doubled : Text → Text
doubled [] = []
doubled (c ∷ s) = let rest = doubled s in if c == b'\'' then b'\'' ∷ b'\'' ∷ rest else c ∷ rest

abbrev pub quote_text : Text → Text
quote_text s = b'\'' ∷ doubled s ++ b'\'' ∷ []

snoc-cons : (s : Text) (x : ℕ) → (d : ℕ) × (t : Text) × (s ++ x ∷ [] ≡ d ∷ t)
snoc-cons [] x = (x, [], refl)
snoc-cons (c ∷ s) x = (c, s ++ x ∷ [], refl)

quoted-plain :
    (start c : ℕ) (tail value rest : Text) (n d : ℕ) (t : Text)
    → (c == b'\'') ≡ false
    → tail ≡ d ∷ t
    → quoted start tail ≡ ok (value, rest, n)
    → quoted start (c ∷ tail) ≡ ok (c ∷ value, rest, suc n)
unfolding quoted
quoted-plain start c [] value rest n d t e h k = cc
quoted-plain start c (d' ∷ tail) value rest n d t e h k =
    rw (e, k) (ap (λ (m : ℕ). ok (c ∷ value, rest, m)) (omega arith))

quoted-twice :
    (start : ℕ) (tail value rest : Text) (n : ℕ)
    → quoted start tail ≡ ok (value, rest, n)
    → quoted start (b'\'' ∷ b'\'' ∷ tail) ≡ ok (b'\'' ∷ value, rest, suc (suc n))
unfolding quoted
quoted-twice start tail value rest n k =
    rw k (ap (λ (m : ℕ). ok (b'\'' ∷ value, rest, m)) (omega arith))

quoted-doubled :
    (start : ℕ) (s : Text)
    → quoted start (doubled s ++ b'\'' ∷ []) ≡ ok (s, [], suc (length (doubled s)))
unfolding quoted
quoted-doubled start [] = refl
quoted-doubled start (c ∷ s) = elim (Bool-cases (c == b'\'')) [
  | inl e ↦
      let same : c ≡ b'\'' = ground arith in
      rw e (
        quoted-twice start (doubled s ++ b'\'' ∷ []) s [] (suc (length (doubled s)))
          (quoted-doubled start s)
        ∙ ap (λ (x : ℕ). ok (x ∷ s, [], suc (suc (suc (length (doubled s)))))) (sym same))
  | inr e ↦
      let (d, t, h) = snoc-cons (doubled s) b'\'' in
      rw e (
        quoted-plain start c (doubled s ++ b'\'' ∷ []) s [] (suc (length (doubled s))) d t e h
          (quoted-doubled start s))
]

module _ {F : Type 0} ⦃fl : FloatOps F⦄ ⦃u : Unicode⦄ ⦃laws : QuoteLaws⦄ where
  -- A text in quotes, with each quote inside it written twice, is lexed to one string token at the
  -- start whose value is the text itself, if the quote is no space, letter or digit.
  pub tokenize-quote_text :
      (s : Text)
      → tokenize {F = F} (quote_text s)
        ≡ ok (record { kind = string_kind; value = text s; position = 0 } ∷ [])
  unfolding tokenize tokenize_from lex_step lex_string
  tokenize-quote_text s =
      rw (laws.not_space, laws.not_alpha, laws.not_digit, quoted-doubled 0 s) refl
