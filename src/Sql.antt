-- ===== src/Sql.antt =====
-- tinydb/sql: the statements that are parsed, and the evaluation of expressions.
pub mod Ast
pub mod Expressions
pub mod Token
pub mod Lexer
pub mod Parser
