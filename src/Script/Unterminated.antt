-- ===== src/Script/Unterminated.antt =====
-- A text without the end of a statement is one statement.
use tinydb_sueprflow.Prelude.{
  ◌≡◌, refl, sym, ap, ◌∙◌, Text, Bool, false, [], ◌∷◌, ◌++◌, append-nil, append_assoc, Bool-cases,
  inl, inr, arith,
}
use tinydb_sueprflow.Python.Unicode.{Unicode}
use tinydb_sueprflow.Script.{
  doubled_quote, after_char, ends_statement, add_statement, split_from, split_script,
  terminated_from, statement_is_terminated,
}

module _ ⦃u : Unicode⦄ where
  split_from-unterminated :
      (in_string : Bool) (current text : Text)
      → terminated_from in_string text ≡ false
      → split_from in_string current text ≡ add_statement (current ++ text) []
  unfolding split_from terminated_from
  split_from-unterminated in_string current [] h =
      ap (λ (t : Text). add_statement t []) (sym (append-nil current))
  split_from-unterminated in_string current (c ∷ []) h = rw h refl
  split_from-unterminated in_string current (c ∷ d ∷ rest) h =
      elim (Bool-cases (doubled_quote in_string c d)) [
        | inl twice ↦ rw twice (
            split_from-unterminated in_string (current ++ c ∷ d ∷ []) rest (rw twice at h)
            ∙ ap (λ (t : Text). add_statement t []) (append_assoc current (c ∷ d ∷ []) rest))
        | inr once ↦ elim (Bool-cases (ends_statement in_string c)) [
          | inl ends ↦ absurd (ground (arith, once, ends, h))
          | inr goes ↦
              rw (once, goes)
                (split_from-unterminated (after_char in_string c) (current ++ c ∷ []) (d ∷ rest)
                    (rw (once, goes) at h)
                  ∙ ap (λ (t : Text). add_statement t [])
                      (append_assoc current (c ∷ []) (d ∷ rest)))
        ]
      ]

  -- Where the prompt's test finds no end of a statement in a text, the script splitter makes one
  -- statement of the whole text, stripped, or none if only blanks are left.
  pub split_script-unterminated :
      (text : Text)
      → statement_is_terminated text ≡ false
      → split_script text ≡ add_statement text []
  unfolding statement_is_terminated split_script
  split_script-unterminated text h = split_from-unterminated false [] text h
