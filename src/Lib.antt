-- ===== src/Lib.antt =====
-- tinydb, an SQL database in Python (tinydb/): a statement's text is lexed (tinydb/sql/lexer.py) and
-- parsed (tinydb/sql/parser.py) into the syntax of tinydb/sql/ast.py; the planner
-- (tinydb/planner.py) chooses a scan from the schemas of the catalog (tinydb/catalog.py); the
-- executor runs it on rows, with the predicates of tinydb/sql/expressions.py and the B-tree indexes
-- of tinydb/index/btree.py; pages, transactions and locks stand below.
--
-- Which file models which part:
--   Prelude, Prelude/*   lists and tests over the native numbers; `Text` is a list of code points
--   Errors               tinydb/errors.py, and `Result`, the outcome of code that can raise
--   Python/*             what the code uses of Python: int (Int), dict (Dict), float (Float) and the
--                        classes of characters (Unicode)
--   Value                the objects of rows and literals, with `==`, `<` and truth
--   Types                tinydb/types.py: `from_name`, `validate`
--   Sql/Ast              tinydb/sql/ast.py
--   Sql/Token, Lexer, Lexer/*   tinydb/sql/lexer.py: `lex_step` is one turn of the loop of
--                        `tokenize`, and `lex_word`, `lex_number`, `lex_string`, `lex_symbol` and
--                        `lex_operator` are its branches
--   Sql/Parser, Parser/*  tinydb/sql/parser.py: a method of `_Parser` is a function of the same name
--                        on the tokens that are left (Cursor has `current`, `advance`, `expect_*`)
--   Sql/Expressions      tinydb/sql/expressions.py: `evaluate_expression`, `evaluate_predicate`
--   Catalog, Catalog/*   tinydb/catalog.py: `apply_create_table`, `apply_drop_table`, `get_table`,
--                        `to_dict`, `from_dict`
--   Index/*              tinydb/index/btree.py: Keys (comparison and lookups), Node, Insert, Bulk and
--                        Tree (the methods of `BTreeIndex`); Order, Filled, Sizes, InsertParts,
--                        InsertWalk, BulkWalk, TreeInsert and TreeDelete are proofs
--   Planner, Planner/*   tinydb/planner.py: `find_index_candidate`, `plan`, and the columns of joins
--   Page, Page/*         tinydb/storage/page.py: `pack_payload`, `unpack_payload`; Index/Serial is the
--                        stored form of an index's nodes
--   Storage, Storage/*   tinydb/storage/file.py: the file is a list of bytes, a storage manager is the
--                        record `Storage`, and its methods are functions of the same names on it, which
--                        keep what was done before an error (Actions). Header, Pages, Snapshot and
--                        Open are the code; HeaderRoundTrip, PageLaws, PageAccess, Restore, Chunks,
--                        Recovery, Reopen, Writes, Crash, Growth and Commit are proofs
--   Rows, Rows/*, Table, Table/*  tinydb/storage/table.py: Rows has `_normalize_row`, and Table the
--                        methods of `TableStore` as methods of the storage, with the schema as an argument
--   Locking, Locking/*   tinydb/locking.py: handles, adapters, and the loop that waits for a lock
--   Transactions, Transactions/*  tinydb/transaction.py: a manager, its storage and what it shares are
--                        the record `Session`; Writers has the managers of a process and the steps
--                        that they take
--   Executor, Executor/*  tinydb/executor.py: the checks of a statement's columns, `row_from_insert`,
--                        `apply_offset_limit`, and `_join_rows` (Join), with the scanned rows given
--   Script, Script/*     tinydb/cli.py: `split_script`, `statement_is_terminated`
--   Explain, Commands     tinydb/explain.py, and the dot commands of tinydb/cli_commands.py
--   Tests/*              the theorems at concrete inputs
--
-- Parameters of the model: `FloatOps` stands for Python's float, `FloatLaws` says that exchanging
-- the operands of a comparison turns its order round; `Unicode` stands for the tables behind
-- `str.isspace`, `isalpha`, `isdigit`, `isalnum`, `upper` and the digits of `int`, `AsciiLaws` and
-- `QuoteLaws` say what the tables hold for capital letters and for the quote. An index's keys
-- belong to a `KeyDomain`, on which comparison succeeds and is a total preorder; the integers are
-- one. `Casts` stands for the calls of int, float and str that read a stored key, and `CastLaws`
-- says that each leaves an object of its own type alone. `Codec` stands for JSON, and `StateLaws`
-- says that what is dumped of a file's metadata is not empty, and that metadata with the same
-- members is loaded from it: the catalog is a list and keeps its order, and the tables, an object
-- that is written with sorted keys, may come back in another order. `PayloadLaws` says the same of
-- the JSON of a row. `Os` stands for the calls of the operating system that lock a file and tell
-- the time, and `ClockLaws` says that the clock goes on while a thread sleeps.
--
-- Fuel: the lexer has the length of the text, of which each turn takes a character; a tree of nodes
-- is raised level by level with the number of its leaves, as each level has fewer nodes; a parser's
-- loop or nesting has the number of tokens, of which each turn takes one. A snapshot is cut with
-- its length, of which each chunk takes a byte. Waiting for a lock has a number of rounds, and one
-- more than the timeout is enough.
--
-- Not modelled: the text of JSON, flushing a file to the disk and a write that is cut off in the middle,
-- the running of statements by the executor, and the terminal.
-- An index is the tree in memory; writing it to the storage, after each change, is left out. The
-- interpreter's limit on the digits that `int` reads is left out. Unlocking a file does not fail.
pub mod Prelude
pub mod Errors
pub mod Python
pub mod Value
pub mod Types
pub mod Sql
pub mod Catalog
pub mod Index
pub mod Planner
pub mod Page
pub mod Storage
pub mod Rows
pub mod Table
pub mod Locking
pub mod Transactions
pub mod Script
pub mod Explain
pub mod Commands
pub mod Executor
pub mod Tests
