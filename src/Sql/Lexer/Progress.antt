-- ===== src/Sql/Lexer/Progress.antt =====
-- The lexer ends: each turn of its loop takes a character, whatever it answers.
use tinydb_sueprflow.Prelude.{
  ℕ, zero, suc, ◌+◌, ◌*◌, ◌≤◌, ◌≡◌, ◌≢◌, refl, Text, Bool, true, false, ◌&&◌, ◌||◌, List, [], ◌∷◌,
  length, if◌then◌else◌, ◌==◌, arith, Bool-cases, Option-cases, inl, inr,
}
use tinydb_sueprflow.Errors.{Result, ok, err, ◌>>=◌, Error, out_of_fuel}
use tinydb_sueprflow.Python.Unicode.{Unicode}
use tinydb_sueprflow.Python.Float.{FloatOps}
use tinydb_sueprflow.Sql.Token.{Token}
use tinydb_sueprflow.Sql.Lexer.Words.{run, lex_word}
use tinydb_sueprflow.Sql.Lexer.Numbers.{
  int_of_digits, lex_fraction, lex_integer, lex_behind_digits, lex_number,
}
use tinydb_sueprflow.Sql.Lexer.Quotes.{quoted, before}
use tinydb_sueprflow.Sql.Lexer.{
  Step, lex_operator, lex_symbol, lex_string, lex_step, add, tokenize_from, tokenize,
}

abbrev fuel_error : Error → Bool
fuel_error out_of_fuel = true
fuel_error e = false

-- A success leaves at most `n` characters, and a failure is the code's own.
abbrev Leaves {ℓ} : {A : Type ℓ} → (A → Text) → ℕ → Result A → Type 0
Leaves rest n (ok a) = length (rest a) ≤ n
Leaves rest n (err e) = fuel_error e ≡ false

abbrev NotFuel {ℓ} : {A : Type ℓ} → Result A → Type 0
NotFuel (ok a) = Unit
NotFuel (err e) = fuel_error e ≡ false

run-rest : (p : ℕ → Bool) (cs : Text) → length (run p cs).1 ≤ length cs
unfolding run
run-rest p [] = omega arith
run-rest p (c ∷ cs) = elim (Bool-cases (p c)) [
  | inl e ↦ rw e (omega (arith, run-rest p cs))
  | inr e ↦ rw e (omega arith)
]

before-Leaves :
    (c w n m : ℕ) (r : Result (Text × Text × ℕ))
    → n ≤ m
    → Leaves (λ t. t.1) n r
    → Leaves (λ t. t.1) m (before c w r)
before-Leaves c w n m (ok (v, r, k)) h l = omega (arith, l)
before-Leaves c w n m (err e) h l = l

quoted-Leaves : (start : ℕ) (s : Text) → Leaves (λ t. t.1) (length s) (quoted start s)
unfolding quoted
quoted-Leaves start [] = refl
quoted-Leaves start (c ∷ []) = elim (Bool-cases (c == b'\'')) [
  | inl e ↦ rw e (omega arith)
  | inr e ↦ rw e refl
]
quoted-Leaves start (c ∷ d ∷ s) =
    let twice = quoted-Leaves start s in
    let once = quoted-Leaves start (d ∷ s) in
    elim (Bool-cases (c == b'\'')) [
      | inl e ↦ rw e (elim (Bool-cases (d == b'\'')) [
        | inl e' ↦ rw e' (
            before-Leaves b'\'' 2 (length s) (suc (suc (length s))) (quoted start s) (omega arith)
              twice)
        | inr e' ↦ rw e' (omega arith)
      ])
      | inr e ↦ rw e (
          before-Leaves c 1 (suc (length s)) (suc (suc (length s))) (quoted start (d ∷ s))
            (omega arith) once)
    ]

module _ ⦃u : Unicode⦄ where
  int_of_digits-NotFuel : (n : ℕ) (s : Text) → NotFuel (int_of_digits n s)
  unfolding int_of_digits
  int_of_digits-NotFuel n [] = tt
  int_of_digits-NotFuel n (c ∷ cs) = elim (Option-cases (u.to_digit c)) [
    | inl e ↦ rw e refl
    | inr (d, e) ↦ rw e (int_of_digits-NotFuel (n * 10 + d) cs)
  ]

-- The same through a step that leaves the text alone, and through one that shortens it.
after-NotFuel :
    {A B : Type 0} (rest : B → Text) (n : ℕ) (m : Result A) (f : A → Result B)
    → NotFuel m
    → ((a : A) → Leaves rest n (f a))
    → Leaves rest n (m >>= f)
after-NotFuel rest n (ok a) f h k = k a
after-NotFuel rest n (err e) f h k = h

after-Leaves :
    {A B : Type 0} (before_ : A → Text) (rest : B → Text) (n : ℕ) (m : Result A) (f : A → Result B)
    → Leaves before_ n m
    → ((a : A) → length (before_ a) ≤ n → Leaves rest n (f a))
    → Leaves rest n (m >>= f)
after-Leaves before_ rest n (ok a) f h k = k a h
after-Leaves before_ rest n (err e) f h k = h

module _ (F : Type 0) ⦃fl : FloatOps F⦄ ⦃u : Unicode⦄ where
  abbrev behind : Token F × Text × ℕ → Text
  behind t = t.1

  lex_fraction-Leaves :
      (start : ℕ) (whole back : Text) → Leaves behind (length back) (lex_fraction start whole back)
  unfolding lex_fraction
  lex_fraction-Leaves start whole [] = refl
  lex_fraction-Leaves start whole (d ∷ rest) = elim (Bool-cases (u.is_digit d)) [
    | inl e ↦ rw e (
        after-NotFuel behind (suc (length rest)) (int_of_digits 0 whole) _
          (int_of_digits-NotFuel 0 whole)
          (λ w.
            after-NotFuel behind (suc (length rest)) (int_of_digits 0 (d ∷ (run u.is_digit rest).0))
              _ (int_of_digits-NotFuel 0 (d ∷ (run u.is_digit rest).0))
              (λ f. omega (arith, run-rest u.is_digit rest))))
    | inr e ↦ rw e refl
  ]

  lex_integer-Leaves :
      (start : ℕ) (whole back : Text)
      → Leaves behind (length back) (lex_integer {F = F} start whole back)
  unfolding lex_integer
  lex_integer-Leaves start whole back =
      after-NotFuel behind (length back) (int_of_digits 0 whole) _ (int_of_digits-NotFuel 0 whole)
        (λ n. omega arith)

  weaken :
      {A : Type 0} (rest : A → Text) (n m : ℕ) (r : Result A)
      → n ≤ m
      → Leaves rest n r
      → Leaves rest m r
  weaken rest n m (ok a) h k = omega (arith, k)
  weaken rest n m (err e) h k = k

  lex_behind_digits-Leaves :
      (start : ℕ) (whole back : Text)
      → Leaves behind (length back) (lex_behind_digits {F = F} start whole back)
  unfolding lex_behind_digits
  lex_behind_digits-Leaves start whole [] = lex_integer-Leaves start whole []
  lex_behind_digits-Leaves start whole (d ∷ back) = elim (Bool-cases (d == b'.')) [
    | inl e ↦ rw e (
        weaken behind (length back) (suc (length back)) (lex_fraction start whole back)
          (omega arith) (lex_fraction-Leaves start whole back))
    | inr e ↦ rw e (lex_integer-Leaves start whole (d ∷ back))
  ]

  lex_number-Leaves :
      (start c : ℕ) (rest : Text) → Leaves behind (length rest) (lex_number {F = F} start c rest)
  unfolding lex_number
  lex_number-Leaves start c rest =
      let (front, back) = run u.is_digit rest in
      weaken behind (length back) (length rest) (lex_behind_digits {F = F} start (c ∷ front) back)
        (run-rest u.is_digit rest) (lex_behind_digits-Leaves start (c ∷ front) back)

  abbrev left : Step F → Text
  left s = s.rest

  lex_operator-Leaves :
      (position c : ℕ) (rest : Text)
      → Leaves left (length rest) (lex_operator {F = F} position c rest)
  unfolding lex_operator
  lex_operator-Leaves position c [] = elim (Bool-cases (c == b'<' || (c == b'>' || c == b'='))) [
    | inl e ↦ rw e (omega arith)
    | inr e ↦ rw e refl
  ]
  lex_operator-Leaves position c (d ∷ rest) =
      elim (Bool-cases (d == b'=' && (c == b'!' || (c == b'<' || c == b'>')))) [
        | inl e ↦ rw e (omega arith)
        | inr e ↦ rw e (elim (Bool-cases (c == b'<' || (c == b'>' || c == b'='))) [
          | inl e' ↦ rw e' (omega arith)
          | inr e' ↦ rw e' refl
        ])
      ]

  either :
      {A : Type 0} (rest : A → Text) (n : ℕ) (b : Bool) (r s : Result A)
      → Leaves rest n r
      → Leaves rest n s
      → Leaves rest n (if b then r else s)
  either rest n true r s h k = h
  either rest n false r s h k = k

  lex_symbol-Leaves :
      (position c : ℕ) (rest : Text)
      → Leaves left (length rest) (lex_symbol {F = F} position c rest)
  unfolding lex_symbol
  lex_symbol-Leaves position c rest = either left (length rest) (c == b',') _ _ (omega arith) (
      either left (length rest) (c == b'.') _ _ (omega arith) (
        either left (length rest) (c == b'(') _ _ (omega arith) (
          either left (length rest) (c == b')') _ _ (omega arith) (
            either left (length rest) (c == b'*') _ _ (omega arith) (
              either left (length rest) (c == b';') _ _ (omega arith)
                (lex_operator-Leaves position c rest))))))

  lex_string-Leaves :
      (position : ℕ) (rest : Text) → Leaves left (length rest) (lex_string {F = F} position rest)
  unfolding lex_string
  lex_string-Leaves position rest =
      after-Leaves (λ t. t.1) left (length rest) (quoted position rest) _
        (quoted-Leaves position rest) (λ t h. h)

  lex_step-Leaves :
      (position c : ℕ) (rest : Text) → Leaves left (length rest) (lex_step {F = F} position c rest)
  unfolding lex_step lex_word
  lex_step-Leaves position c rest = either left (length rest) (u.is_space c) _ _ (omega arith) (
      either left (length rest) (u.is_alpha c || c == b'_') _ _
        (run-rest (λ d. u.is_alnum d || d == b'_') rest)
        (either left (length rest) (u.is_digit c) _ _
          (after-Leaves behind left (length rest) (lex_number {F = F} position c rest) _
            (lex_number-Leaves position c rest) (λ t h. h))
          (either left (length rest) (c == b'\'') _ _ (lex_string-Leaves position rest)
            (lex_symbol-Leaves position c rest))))

  turn-NotFuel :
      (n : ℕ) (r : Result (Step F)) (later : Step F → Result (List (Token F)))
      → Leaves left n r
      → ((s : Step F) → length s.rest ≤ n → NotFuel (later s))
      → NotFuel (r >>= λ s. later s >>= λ ts. ok (add s.token ts))
  turn-NotFuel n (err e) later h k = h
  turn-NotFuel n (ok s) later h k = keep (later s) (k s h)
    where
      keep : (l : Result (List (Token F))) → NotFuel l → NotFuel (l >>= λ ts. ok (add s.token ts))
      keep (ok ts) h = tt
      keep (err e) h = h

  tokenize_from-NotFuel :
      (fuel position : ℕ) (s : Text)
      → length s ≤ fuel
      → NotFuel (tokenize_from {F = F} fuel position s)
  unfolding tokenize_from
  tokenize_from-NotFuel fuel position [] h = tt
  tokenize_from-NotFuel zero position (c ∷ s) h = absurd (omega arith)
  tokenize_from-NotFuel (suc fuel) position (c ∷ s) h =
      turn-NotFuel (length s) (lex_step position c s)
        (λ step. tokenize_from fuel step.position step.rest) (lex_step-Leaves position c s)
        (λ step k. tokenize_from-NotFuel fuel step.position step.rest (omega (arith, k)))

  never : {A : Type 0} (r : Result A) → NotFuel r → r ≢ err out_of_fuel
  never (ok a) h e = cc
  never (err e) h k = cc

  -- The lexer ends on every text: its answer is the tokens or an error of its own, and never that
  -- the model's fuel, the length of the text, ran out.
  pub tokenize-not_out_of_fuel : (sql : Text) → tokenize {F = F} sql ≢ err out_of_fuel
  unfolding tokenize
  tokenize-not_out_of_fuel sql =
      never (tokenize sql) (tokenize_from-NotFuel (length sql) 0 sql (omega arith))
