-- ===== src/Sql/Token.antt =====
-- tinydb/sql/lexer.py: tokens and keywords. A token's `kind` is a string there; its `value` is one
-- of the objects that a literal can be.
use tinydb_sueprflow.Prelude.{ℕ, Text, codes, text_eq, Bool, List, [], ◌∷◌, any, ◌==◌}
use tinydb_sueprflow.Value.{Value}

pub data Kind : Type 0 where
  boolean_kind null_kind keyword_kind identifier_kind number_kind string_kind : Kind
  comma_kind dot_kind lparen_kind rparen_kind star_kind semicolon_kind operator_kind eof_kind : Kind

abbrev kind_number : Kind → ℕ
kind_number boolean_kind = 0
kind_number null_kind = 1
kind_number keyword_kind = 2
kind_number identifier_kind = 3
kind_number number_kind = 4
kind_number string_kind = 5
kind_number comma_kind = 6
kind_number dot_kind = 7
kind_number lparen_kind = 8
kind_number rparen_kind = 9
kind_number star_kind = 10
kind_number semicolon_kind = 11
kind_number operator_kind = 12
kind_number eof_kind = 13

abbrev pub kind_eq : Kind → Kind → Bool
kind_eq a b = kind_number a == kind_number b

pub record Token (F : Type 0) : Type 0 where
  pub kind : Kind
  pub value : Value F
  pub position : ℕ

abbrev pub keywords : List Text
keywords =
    codes "ALTER"
    ∷ codes "AND"
    ∷ codes "AS"
    ∷ codes "ASC"
    ∷ codes "AVG"
    ∷ codes "BEGIN"
    ∷ codes "BOOL"
    ∷ codes "BY"
    ∷ codes "COMMIT"
    ∷ codes "COUNT"
    ∷ codes "CREATE"
    ∷ codes "CROSS"
    ∷ codes "DELETE"
    ∷ codes "DESC"
    ∷ codes "DROP"
    ∷ codes "FALSE"
    ∷ codes "FLOAT"
    ∷ codes "FOREIGN"
    ∷ codes "FROM"
    ∷ codes "FULL"
    ∷ codes "GROUP"
    ∷ codes "INSERT"
    ∷ codes "INNER"
    ∷ codes "INT"
    ∷ codes "INTO"
    ∷ codes "JOIN"
    ∷ codes "KEY"
    ∷ codes "LEFT"
    ∷ codes "LIMIT"
    ∷ codes "NATURAL"
    ∷ codes "NOT"
    ∷ codes "NULL"
    ∷ codes "OFFSET"
    ∷ codes "ON"
    ∷ codes "OR"
    ∷ codes "ORDER"
    ∷ codes "OUTER"
    ∷ codes "PRIMARY"
    ∷ codes "RIGHT"
    ∷ codes "ROLLBACK"
    ∷ codes "SELECT"
    ∷ codes "SET"
    ∷ codes "SUM"
    ∷ codes "TABLE"
    ∷ codes "TEXT"
    ∷ codes "TRIGGER"
    ∷ codes "TRUE"
    ∷ codes "UNIQUE"
    ∷ codes "UPDATE"
    ∷ codes "VALUES"
    ∷ codes "VIEW"
    ∷ codes "WHERE"
    ∷ []

-- `text in names`
abbrev pub one_of : List Text → Text → Bool
one_of names t = any (λ n. text_eq n t) names
