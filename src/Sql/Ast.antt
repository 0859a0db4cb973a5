-- ===== src/Sql/Ast.antt =====
-- tinydb/sql/ast.py: the syntax of statements. `Expressions` is a tuple of expressions.
use tinydb_sueprflow.Prelude.{ℕ, Text, Bool, Option, List}
use tinydb_sueprflow.Value.{Value}

pub record ColumnRef : Type 0 where
  pub qualifier : Option Text
  pub column_name : Text

mutual
  pub data Expression (F : Type 0) : Type 0 where
    identifier : Text → Expression F
    column_ref : ColumnRef → Expression F
    literal : Value F → Expression F
    binary : Expression F → Text → Expression F → Expression F
    function_call : Text → Expressions F → Expression F

  pub data Expressions (F : Type 0) : Type 0 where
    no_expressions : Expressions F
    expressions : Expression F → Expressions F → Expressions F

pub record JoinSource : Type 0 where
  pub table_name : Text
  pub alias : Option Text

pub record JoinPredicate : Type 0 where
  pub left : ColumnRef
  pub right : ColumnRef

pub record ColumnDef : Type 0 where
  pub name : Text
  pub type_name : Text
  pub primary_key : Bool
  pub not_null : Bool
  pub unique : Bool

-- The parser puts an identifier or a column reference here.
pub record Ordering (F : Type 0) : Type 0 where
  pub expression : Expression F
  pub descending : Bool

pub record Assignment (F : Type 0) : Type 0 where
  pub column : Text
  pub value : Expression F

pub record CreateTable : Type 0 where
  pub name : Text
  pub columns : List ColumnDef

pub record DropTable : Type 0 where
  pub name : Text

pub record Insert (F : Type 0) : Type 0 where
  pub table : Text
  pub columns : List Text
  pub values : List (Expression F)

pub record Select (F : Type 0) : Type 0 where
  pub projections : List (Expression F)
  pub table : Text
  pub where_ : Option (Expression F)
  pub group_by : List Text
  pub order_by : List (Ordering F)
  pub limit : Option ℕ
  pub offset : Option ℕ
  pub table_alias : Option Text
  pub join_sources : List JoinSource
  pub join_predicates : List JoinPredicate

pub record Update (F : Type 0) : Type 0 where
  pub table : Text
  pub assignments : List (Assignment F)
  pub where_ : Option (Expression F)

pub record Delete (F : Type 0) : Type 0 where
  pub table : Text
  pub where_ : Option (Expression F)

pub data Statement (F : Type 0) : Type 0 where
  create_table : CreateTable → Statement F
  drop_table : DropTable → Statement F
  insert : Insert F → Statement F
  select : Select F → Statement F
  update : Update F → Statement F
  delete : Delete F → Statement F
  begin_transaction commit_transaction rollback_transaction : Statement F
