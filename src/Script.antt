-- ===== src/Script.antt =====
-- tinydb/cli.py: cutting a script into statements, and the test that ends one at the prompt.
pub mod Unterminated
use tinydb_sueprflow.Prelude.{
  ℕ, Text, Bool, true, false, not, ◌&&◌, List, [], ◌∷◌, ◌++◌, if◌then◌else◌, ◌==◌,
}
use tinydb_sueprflow.Python.Unicode.{Unicode}

abbrev is_quote : ℕ → Bool
is_quote c = c == b'\''

-- a doubled quote inside a string
abbrev pub doubled_quote : Bool → ℕ → ℕ → Bool
doubled_quote in_string c d = is_quote c && (in_string && is_quote d)

abbrev pub after_char : Bool → ℕ → Bool
after_char in_string c = if is_quote c then not in_string else in_string

-- a semicolon outside every string
abbrev pub ends_statement : Bool → ℕ → Bool
ends_statement in_string c = c == b';' && not in_string

module _ ⦃u : Unicode⦄ where
  -- `str.strip`
  unfoldable pub lstrip : Text → Text
  lstrip [] = []
  lstrip (c ∷ s) = let rest = lstrip s in if u.is_space c then rest else c ∷ s

  unfoldable pub rstrip : Text → Text
  rstrip [] = []
  rstrip (c ∷ s) = keep (rstrip s)
    where
      keep : Text → Text
      keep [] = if u.is_space c then [] else c ∷ []
      keep (d ∷ rest) = c ∷ d ∷ rest

  -- `if statement: statements.append(statement)`, for what is left of `current`
  unfoldable pub add_statement : Text → List Text → List Text
  unfolding lstrip rstrip
  add_statement current statements = nonempty (rstrip (lstrip current))
    where
      nonempty : Text → List Text
      nonempty [] = statements
      nonempty (c ∷ s) = (c ∷ s) ∷ statements

  unfoldable pub split_from : Bool → Text → Text → List Text
  unfolding add_statement
  split_from in_string current [] = add_statement current []
  split_from in_string current (c ∷ []) =
      if ends_statement in_string c
      then add_statement current []
      else add_statement (current ++ c ∷ []) []
  split_from in_string current (c ∷ d ∷ rest) =
      let kept = if ends_statement in_string c then [] else current ++ c ∷ [] in
      let next = split_from (after_char in_string c) kept (d ∷ rest) in
      let skip = split_from in_string (current ++ c ∷ d ∷ []) rest in
      if doubled_quote in_string c d
      then skip
      else if ends_statement in_string c
      then add_statement current next
      else next

  unfoldable pub split_script : Text → List Text
  unfolding split_from
  split_script script = split_from false [] script

unfoldable pub terminated_from : Bool → Text → Bool
terminated_from in_string [] = false
terminated_from in_string (c ∷ []) = ends_statement in_string c
terminated_from in_string (c ∷ d ∷ rest) =
    let next = terminated_from (after_char in_string c) (d ∷ rest) in
    let skip = terminated_from in_string rest in
    if doubled_quote in_string c d then skip else if ends_statement in_string c then true else next

unfoldable pub statement_is_terminated : Text → Bool
unfolding terminated_from
statement_is_terminated statement = terminated_from false statement
