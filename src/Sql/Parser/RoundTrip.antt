-- ===== src/Sql/Parser/RoundTrip.antt =====
-- A printed predicate is parsed back.
use tinydb_sueprflow.Prelude.{
  ℕ, zero, suc, ◌≤◌, ◌<◌, ◌≡◌, refl, codes, text_eq, true, false, List, ◌∷◌, arith,
}
use tinydb_sueprflow.Errors.{ok}
use tinydb_sueprflow.Python.Float.{FloatOps, Num}
use tinydb_sueprflow.Value.{text}
use tinydb_sueprflow.Sql.Token.{
  Token, kind_eq, one_of, dot_kind, lparen_kind, rparen_kind, star_kind, keyword_kind,
  operator_kind,
}
use tinydb_sueprflow.Sql.Parser.Cursor.{◌>>=◌, value_str, is_keyword}
use tinydb_sueprflow.Sql.Parser.Expressions.{
  comparison_operators, parse_identifier_expression, parse_function_call, value_from,
  parse_value_expression, parse_comparison_predicate, chain, parse_predicate_leaf,
  parse_and_predicate, parse_or_predicate, parse_predicate_expression,
}
use tinydb_sueprflow.Sql.Parser.Printing.{
  count_, sum_, avg_, Operator, eq_, ne_, lt_, le_, gt_, ge_, Operand, name, qualified, number,
  string, truth, nothing, count_star, call, Predicate, comparison, conjunction, disjunction,
  operator_text, first, others, emit, operand_expression, expression_of, operand_depth, depth,
  token,
}

operator-known : (o : Operator) → one_of comparison_operators (operator_text o) ≡ true
unfolding text_eq
operator-known eq_ = refl
operator-known ne_ = refl
operator-known lt_ = refl
operator-known le_ = refl
operator-known gt_ = refl
operator-known ge_ = refl

module _ {F : Type 0} where
  first-not_lparen : (o : Operand F) → kind_eq (first o).kind lparen_kind ≡ false
  first-not_lparen (name a) = refl
  first-not_lparen (qualified a b) = refl
  first-not_lparen (number a) = refl
  first-not_lparen (string a) = refl
  first-not_lparen (truth a) = refl
  first-not_lparen nothing = refl
  first-not_lparen count_star = refl
  first-not_lparen (call a b) = refl

  first-not_star : (o : Operand F) → kind_eq (first o).kind star_kind ≡ false
  first-not_star (name a) = refl
  first-not_star (qualified a b) = refl
  first-not_star (number a) = refl
  first-not_star (string a) = refl
  first-not_star (truth a) = refl
  first-not_star nothing = refl
  first-not_star count_star = refl
  first-not_star (call a b) = refl

  operand_depth_pos : (o : Operand F) → 0 < operand_depth o
  operand_depth_pos (name a) = omega arith
  operand_depth_pos (qualified a b) = omega arith
  operand_depth_pos (number a) = omega arith
  operand_depth_pos (string a) = omega arith
  operand_depth_pos (truth a) = omega arith
  operand_depth_pos nothing = omega arith
  operand_depth_pos count_star = omega arith
  operand_depth_pos (call a b) = omega arith

module _ {F : Type 0} ⦃fl : FloatOps F⦄ where
  value-emit :
      (o : Operand F) (n : ℕ) (t : Token F) (ts : List (Token F))
      → operand_depth o ≤ n
      → kind_eq t.kind dot_kind ≡ false
      → parse_value_expression n (first o ∷ others o (t ∷ ts)) ≡ ok (operand_expression o, t ∷ ts)
  unfolding parse_value_expression value_from parse_identifier_expression parse_function_call
      value_str text_eq
  value-emit o zero t ts h d = absurd (omega (arith, operand_depth_pos o))
  value-emit (name s) (suc n) t ts h d = rw d refl
  value-emit (qualified q s) (suc n) t ts h d = refl
  value-emit (number (Num.int k)) (suc n) t ts h d = refl
  value-emit (number (Num.float x)) (suc n) t ts h d = refl
  value-emit (string s) (suc n) t ts h d = refl
  value-emit (truth b) (suc n) t ts h d = refl
  value-emit nothing (suc n) t ts h d = refl
  value-emit count_star (suc n) t ts h d = refl
  value-emit (call count_ o) (suc n) t ts h d =
      rw
        (
          first-not_star o,
          ◌>>=◌,
          value-emit o n (token rparen_kind (text (codes ")"))) (t ∷ ts) (omega arith) refl,
        )
        refl
  value-emit (call sum_ o) (suc n) t ts h d =
      rw
        (
          first-not_star o,
          ◌>>=◌,
          value-emit o n (token rparen_kind (text (codes ")"))) (t ∷ ts) (omega arith) refl,
        )
        refl
  value-emit (call avg_ o) (suc n) t ts h d =
      rw
        (
          first-not_star o,
          ◌>>=◌,
          value-emit o n (token rparen_kind (text (codes ")"))) (t ∷ ts) (omega arith) refl,
        )
        refl

  comparison-emit :
      (l : Operand F) (o : Operator) (r : Operand F) (n : ℕ) (t : Token F) (ts : List (Token F))
      → depth (comparison l o r) ≤ n
      → kind_eq t.kind dot_kind ≡ false
      → parse_comparison_predicate n (emit (comparison l o r) (t ∷ ts))
        ≡ ok (expression_of (comparison l o r), t ∷ ts)
  unfolding parse_comparison_predicate value_str
  comparison-emit l o r n t ts h d =
      let left =
        value-emit l n (token operator_kind (text (operator_text o))) (first r ∷ others r (t ∷ ts))
          (omega arith) refl in
      rw
        (
          parse_comparison_predicate,
          ◌>>=◌,
          left,
          operator-known o,
          value-emit r n t ts (omega arith) d,
        )
        refl

  leaf-emit :
      (p : Predicate F) (n : ℕ) (t : Token F) (ts : List (Token F))
      → depth p ≤ n
      → kind_eq t.kind dot_kind ≡ false
      → parse_predicate_leaf n (parse_predicate_expression n) (emit p (t ∷ ts))
        ≡ ok (expression_of p, t ∷ ts)
  unfolding parse_predicate_leaf parse_predicate_expression parse_or_predicate parse_and_predicate
      chain text_eq
  leaf-emit (comparison l o r) n t ts h d =
      rw (first-not_lparen l, comparison-emit l o r n t ts h d) refl
  leaf-emit (conjunction p q) (suc (suc (suc k))) t ts h d =
      let left =
        leaf-emit p (suc (suc k)) (token keyword_kind (text (codes "AND")))
          (emit q (token rparen_kind (text (codes ")")) ∷ t ∷ ts)) (omega arith) refl in
      let right =
        leaf-emit q (suc (suc k)) (token rparen_kind (text (codes ")"))) (t ∷ ts) (omega arith)
          refl in
      rw (◌>>=◌, left, ◌>>=◌, right) refl
  leaf-emit (conjunction p q) (suc (suc zero)) t ts h d = absurd (omega arith)
  leaf-emit (conjunction p q) (suc zero) t ts h d = absurd (omega arith)
  leaf-emit (conjunction p q) zero t ts h d = absurd (omega arith)
  leaf-emit (disjunction p q) (suc (suc (suc k))) t ts h d =
      let left =
        leaf-emit p (suc (suc k)) (token keyword_kind (text (codes "OR")))
          (emit q (token rparen_kind (text (codes ")")) ∷ t ∷ ts)) (omega arith) refl in
      let right =
        leaf-emit q (suc (suc k)) (token rparen_kind (text (codes ")"))) (t ∷ ts) (omega arith)
          refl in
      rw (◌>>=◌, left, ◌>>=◌, right) refl
  leaf-emit (disjunction p q) (suc (suc zero)) t ts h d = absurd (omega arith)
  leaf-emit (disjunction p q) (suc zero) t ts h d = absurd (omega arith)
  leaf-emit (disjunction p q) zero t ts h d = absurd (omega arith)

  -- The tokens that write a predicate, compounds in parentheses, are parsed back to the predicate's
  -- expression, and what follows is left alone, if the fuel is at least two over the predicate's
  -- depth and what follows begins with a token that is no point, AND or OR.
  pub parse_predicate_expression-emit :
      (p : Predicate F) (n : ℕ) (t : Token F) (ts : List (Token F))
      → depth p < n
      → kind_eq t.kind dot_kind ≡ false
      → is_keyword (codes "AND") t ≡ false
      → is_keyword (codes "OR") t ≡ false
      → parse_predicate_expression (suc n) (emit p (t ∷ ts)) ≡ ok (expression_of p, t ∷ ts)
  unfolding parse_predicate_expression parse_or_predicate parse_and_predicate chain
  parse_predicate_expression-emit p zero t ts h d a o = absurd (omega arith)
  parse_predicate_expression-emit p (suc n) t ts h d a o =
      rw (◌>>=◌, leaf-emit p (suc n) t ts (omega arith) d, a, o) refl
