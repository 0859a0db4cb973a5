-- ===== src/Sql/Parser/Printing.antt =====
-- Predicates as an independent syntax, the tokens that write them, and the expressions they are.
-- A compound is in parentheses; the tokens of a predicate are put before those that follow it.
use tinydb_sueprflow.Prelude.{ℕ, suc, ◌+◌, max, Text, codes, Bool, some, List, ◌∷◌}
use tinydb_sueprflow.Value.{Value, null, bool, int, float, text}
use tinydb_sueprflow.Python.Float.{Num}
use tinydb_sueprflow.Sql.Ast.{
  Expression, identifier, column_ref, literal, binary, function_call, no_expressions, expressions,
}
use tinydb_sueprflow.Sql.Token.{
  Kind, Token, boolean_kind, null_kind, keyword_kind, identifier_kind, number_kind, string_kind,
  dot_kind, lparen_kind, rparen_kind, star_kind, operator_kind,
}

pub data Aggregate : Type 0 where
  count_ sum_ avg_ : Aggregate

pub data Operator : Type 0 where
  eq_ ne_ lt_ le_ gt_ ge_ : Operator

pub data Operand (F : Type 0) : Type 0 where
  name : Text → Operand F
  qualified : Text → Text → Operand F
  number : Num F → Operand F
  string : Text → Operand F
  truth : Bool → Operand F
  nothing count_star : Operand F
  call : Aggregate → Operand F → Operand F

pub data Predicate (F : Type 0) : Type 0 where
  comparison : Operand F → Operator → Operand F → Predicate F
  conjunction disjunction : Predicate F → Predicate F → Predicate F

abbrev pub aggregate_text : Aggregate → Text
aggregate_text count_ = codes "COUNT"
aggregate_text sum_ = codes "SUM"
aggregate_text avg_ = codes "AVG"

abbrev pub operator_text : Operator → Text
operator_text eq_ = codes "="
operator_text ne_ = codes "!="
operator_text lt_ = codes "<"
operator_text le_ = codes "<="
operator_text gt_ = codes ">"
operator_text ge_ = codes ">="

module _ {F : Type 0} where
  -- A token; the parser reads positions for its errors alone.
  abbrev pub token : Kind → Value F → Token F
  token kind value = record { kind = kind; value = value; position = 0 }

  abbrev number_value : Num F → Value F
  number_value (Num.int n) = int n
  number_value (Num.float x) = float x

  abbrev lparen : Token F
  lparen = token lparen_kind (text (codes "("))

  abbrev rparen : Token F
  rparen = token rparen_kind (text (codes ")"))

  -- The first token of an operand, and the others before what follows.
  abbrev pub first : Operand F → Token F
  first (name t) = token identifier_kind (text t)
  first (qualified q t) = token identifier_kind (text q)
  first (number n) = token number_kind (number_value n)
  first (string t) = token string_kind (text t)
  first (truth b) = token boolean_kind (bool b)
  first nothing = token null_kind null
  first count_star = token keyword_kind (text (codes "COUNT"))
  first (call f o) = token keyword_kind (text (aggregate_text f))

  abbrev pub others : Operand F → List (Token F) → List (Token F)
  others (qualified q t) rest =
      token dot_kind (text (codes ".")) ∷ token identifier_kind (text t) ∷ rest
  others count_star rest = lparen ∷ token star_kind (text (codes "*")) ∷ rparen ∷ rest
  others (call f o) rest = lparen ∷ first o ∷ others o (rparen ∷ rest)
  others o rest = rest

  abbrev pub emit : Predicate F → List (Token F) → List (Token F)
  emit (comparison l o r) rest =
      first l ∷ others l (token operator_kind (text (operator_text o)) ∷ first r ∷ others r rest)
  emit (conjunction p q) rest =
      lparen ∷ emit p (token keyword_kind (text (codes "AND")) ∷ emit q (rparen ∷ rest))
  emit (disjunction p q) rest =
      lparen ∷ emit p (token keyword_kind (text (codes "OR")) ∷ emit q (rparen ∷ rest))

  abbrev pub operand_expression : Operand F → Expression F
  operand_expression (name t) = identifier t
  operand_expression (qualified q t) = column_ref (record { qualifier = some q; column_name = t })
  operand_expression (number n) = literal (number_value n)
  operand_expression (string t) = literal (text t)
  operand_expression (truth b) = literal (bool b)
  operand_expression nothing = literal null
  operand_expression count_star =
      function_call (codes "COUNT") (expressions (identifier (codes "*")) no_expressions)
  operand_expression (call f o) =
      function_call (aggregate_text f) (expressions (operand_expression o) no_expressions)

  abbrev pub expression_of : Predicate F → Expression F
  expression_of (comparison l o r) =
      binary (operand_expression l) (operator_text o) (operand_expression r)
  expression_of (conjunction p q) = binary (expression_of p) (codes "AND") (expression_of q)
  expression_of (disjunction p q) = binary (expression_of p) (codes "OR") (expression_of q)

  -- The fuel that a predicate takes.
  abbrev pub operand_depth : Operand F → ℕ
  operand_depth (call f o) = suc (operand_depth o)
  operand_depth o = 1

  abbrev pub depth : Predicate F → ℕ
  depth (comparison l o r) = max (operand_depth l) (operand_depth r)
  depth (conjunction p q) = 3 + max (depth p) (depth q)
  depth (disjunction p q) = 3 + max (depth p) (depth q)
