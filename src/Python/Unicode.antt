-- ===== src/Python/Unicode.antt =====
-- The classes of characters that `str` methods test, and `str.upper`. They are Python's tables, so
-- they are a parameter; `ascii` is the part of them below 128.
use tinydb_sueprflow.Prelude.{
  ℕ, ◌≡◌, refl, ap, All, ◌-◌, Text, Bool, true, ◌&&◌, ◌||◌, Option, none, some, [], ◌∷◌, ◌++◌, leb,
  if◌then◌else◌,
}

pub record Unicode : Type 0 where
  pub is_space : ℕ → Bool
  pub is_alpha : ℕ → Bool
  pub is_digit : ℕ → Bool
  pub is_alnum : ℕ → Bool
  -- the value of a digit for `int`, which refuses some characters that `isdigit` accepts
  pub to_digit : ℕ → Option ℕ
  pub upper_char : ℕ → Text

module _ ⦃u : Unicode⦄ where
  -- `str.upper`
  unfoldable pub upper : Text → Text
  upper [] = []
  upper (c ∷ cs) = u.upper_char c ++ upper cs

abbrev pub is_upper_ascii : ℕ → Bool
is_upper_ascii c = leb b'A' c && leb c b'Z'

abbrev is_lower_ascii : ℕ → Bool
is_lower_ascii c = leb b'a' c && leb c b'z'

abbrev is_digit_ascii : ℕ → Bool
is_digit_ascii c = leb b'0' c && leb c b'9'

-- `str.isspace` below 128: tab to carriage return, the four separators, and the blank.
abbrev pub ascii : Unicode
ascii = record {
  is_space = λ c. leb 9 c && leb c 13 || leb 28 c && leb c 32;
  is_alpha = λ c. is_upper_ascii c || is_lower_ascii c;
  is_digit = is_digit_ascii;
  is_alnum = λ c. is_upper_ascii c || is_lower_ascii c || is_digit_ascii c;
  to_digit = λ c. if is_digit_ascii c then some (c - b'0') else none;
  upper_char = λ c. (if is_lower_ascii c then c - 32 else c) ∷ [];
}

-- What the tables say of the characters below 128.
pub record AsciiLaws ⦃u : Unicode⦄ : Type 0 where
  pub upper_upper : (c : ℕ) → is_upper_ascii c ≡ true → u.upper_char c ≡ c ∷ []

module _ ⦃u : Unicode⦄ ⦃laws : AsciiLaws⦄ where
  -- `upper` leaves a text of capital letters alone.
  pub upper-capitals : (s : Text) → All (λ c. is_upper_ascii c ≡ true) s → upper s ≡ s
  unfolding upper
  upper-capitals [] h = refl
  upper-capitals (c ∷ s) h =
      rw (laws.upper_upper c h.0) (ap (λ (t : Text). c ∷ t) (upper-capitals s h.1))
