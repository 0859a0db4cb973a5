-- ===== src/Sql/Parser/Cursor.antt =====
-- tinydb/sql/parser.py: the cursor of `_Parser`. The state is what is left of the tokens; an index
-- behind the last of them raises IndexError.
use tinydb_sueprflow.Prelude.{
  ℕ, zero, suc, ◌+◌, ◌/◌, ◌%◌, Text, codes, text_eq, Bool, true, false, ◌&&◌, Option, none, some,
  List, [], ◌∷◌, ◌++◌, if◌then◌else◌, ltb,
}
use tinydb_sueprflow.Errors.{Result, ok, err, Error, parse_error, index_error, out_of_fuel}
use tinydb_sueprflow.Python.Int.{pos, negsuc}
use tinydb_sueprflow.Python.Float.{FloatOps}
use tinydb_sueprflow.Value.{Value, null, bool, int, float, text}
use tinydb_sueprflow.Sql.Token.{
  Kind, Token, kind_eq, keyword_kind, identifier_kind, number_kind, operator_kind, comma_kind,
  one_of,
}

abbrev pub Parser : Type 0 → Type 0 → Type 0
Parser F A = List (Token F) → Result (A × List (Token F))

module _ {F A : Type 0} where
  abbrev pub pure : A → Parser F A
  pure a ts = ok (a, ts)

  abbrev pub raise : Error → Parser F A
  raise e ts = err e

infixl 5 ◌>>=◌ ◌>>◌
abbrev pub ◌>>=◌ : {F A B : Type 0} → Parser F A → (A → Parser F B) → Parser F B
◌>>=◌ m f ts = elim (m ts) [ ok r ↦ f r.0 r.1 | err e ↦ err e ]

abbrev pub ◌>>◌ : {F A B : Type 0} → Parser F A → Parser F B → Parser F B
m >> k = m >>= λ _. k

-- `str` of a natural number, with fuel for its digits
unfoldable pub decimal : ℕ → ℕ → Text
decimal zero n = []
decimal (suc fuel) n =
    let front = decimal fuel (n / 10) in
    if ltb n 10 then (b'0' + n) ∷ [] else front ++ (b'0' + n % 10) ∷ []

module _ {F : Type 0} ⦃fl : FloatOps F⦄ where
  -- `str` of a token's value
  unfoldable pub value_str : Value F → Text
  unfolding decimal
  value_str null = codes "None"
  value_str (bool true) = codes "True"
  value_str (bool false) = codes "False"
  value_str (int (pos n)) = decimal (suc n) n
  value_str (int (negsuc n)) = b'-' ∷ decimal (suc (suc n)) (suc n)
  value_str (float x) = fl.to_text x
  value_str (text t) = t

module _ {F : Type 0} where
  abbrev pub current : Parser F (Token F)
  current [] = err index_error
  current (t ∷ ts) = ok (t, t ∷ ts)

  abbrev pub advance : Parser F (Unit {0})
  advance [] = ok (tt, [])
  advance (t ∷ ts) = ok (tt, ts)

  -- `raise self.error(...)`
  abbrev pub fail : {A : Type 0} → Parser F A
  fail [] = err index_error
  fail (t ∷ ts) = err (parse_error t.position)

  abbrev pub value_is : Text → Value F → Bool
  value_is t (text s) = text_eq s t
  value_is t v = false

  abbrev pub value_in : List Text → Value F → Bool
  value_in names (text s) = one_of names s
  value_in names v = false

  abbrev pub is_keyword : Text → Token F → Bool
  is_keyword name t = kind_eq t.kind keyword_kind && value_is name t.value

  abbrev pub keyword_in : List Text → Token F → Bool
  keyword_in names t = kind_eq t.kind keyword_kind && value_in names t.value

  abbrev pub match_keyword : Text → Parser F Bool
  match_keyword name = do t ← current; pure (is_keyword name t)

  abbrev pub match_kind : Kind → Parser F Bool
  match_kind kind = do t ← current; pure (kind_eq t.kind kind)

  abbrev pub expect_keyword : Text → Parser F (Unit {0})
  expect_keyword name = do b ← match_keyword name; if b then advance else fail

  abbrev pub expect_kind : Kind → Parser F (Unit {0})
  expect_kind kind = do b ← match_kind kind; if b then advance else fail

  abbrev pub expect_operator : Text → Parser F (Unit {0})
  expect_operator operator = do
    t ← current
    if kind_eq t.kind operator_kind && value_is operator t.value then advance else fail

module _ {F : Type 0} ⦃fl : FloatOps F⦄ where
  abbrev pub expect_identifier : Parser F Text
  unfolding value_str
  expect_identifier = do
    t ← current
    if kind_eq t.kind identifier_kind then (do advance; pure (value_str t.value)) else fail

module _ {F : Type 0} where
  -- A number token holds an integer that is not negative, or a float.
  abbrev natural : Value F → Option ℕ
  natural (int (pos n)) = some n
  natural v = none

  abbrev pub expect_non_negative_integer : Parser F ℕ
  expect_non_negative_integer = do
    t ← current
    if kind_eq t.kind number_kind
        then elim (natural t.value) [ some n ↦ (do advance; pure n) | none ↦ fail ]
        else fail

module _ {F A : Type 0} where
  -- The loop `while self.match_kind("COMMA")`; a turn takes a token, so the tokens are fuel enough.
  unfoldable pub more : ℕ → Parser F A → Parser F (List A)
  more zero item = raise out_of_fuel
  more (suc fuel) item = do
    b ← match_kind comma_kind
    if b then (do advance; x ← item; xs ← more fuel item; pure (x ∷ xs)) else pure []

  unfoldable pub comma_separated : ℕ → Parser F A → Parser F (List A)
  unfolding more
  comma_separated fuel item = do x ← item; xs ← more fuel item; pure (x ∷ xs)

  -- A clause that begins with a keyword, or its default.
  abbrev pub clause : Text → Parser F A → A → Parser F A
  clause name body default = do
    b ← match_keyword name
    if b then (do advance; body) else pure default
