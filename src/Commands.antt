-- ===== src/Commands.antt =====
-- tinydb/cli_commands.py: the dot commands of the command line, on the catalog that the context gives.
use tinydb_sueprflow.Prelude.{
  Text, codes, text_eq, text_lt, Bool, true, false, not, ◌==◌, Option, none, some, List, [], ◌∷◌,
  ◌++◌, map, filter, if◌then◌else◌,
}
use tinydb_sueprflow.Errors.{
  Error, Result, ok, err, ◌>>=◌, ◌>>◌, raise_if, value_error, type_error, overflow_error,
  index_error, out_of_fuel,
}
use tinydb_sueprflow.Python.Unicode.{Unicode}
use tinydb_sueprflow.Python.Float.{FloatOps}
use tinydb_sueprflow.Python.Dict.{Dict, lookup, insert}
use tinydb_sueprflow.Catalog.{ColumnData, TableData, Catalog, to_dict}
use tinydb_sueprflow.Sql.Ast.{Select}
use tinydb_sueprflow.Planner.{QueryPlan}
use tinydb_sueprflow.Planner.Joins.{plan}
use tinydb_sueprflow.Script.{lstrip, rstrip}
use tinydb_sueprflow.Explain.{join_texts, explain}

pub record CommandResult : Type 0 where
  pub exit_requested : Bool
  pub output : Text

abbrev newline : Text
newline = 10 ∷ []

abbrev pub output_of : Text → CommandResult
output_of text = record { exit_requested = false; output = text }

-- A handler, on a context `C`.
abbrev pub Handler : Type 0 → Type 0
Handler C = Text → C → Result CommandResult

abbrev pub CommandRegistry : Type 0 → Type 0
CommandRegistry C = Dict (Handler C)

abbrev starts_with_dot : Text → Bool
starts_with_dot [] = false
starts_with_dot (c ∷ cs) = c == b'.'

-- `text.partition(" ")`, without the blank
unfoldable pub partition : Text → Text × Text
partition [] = ([], [])
partition (c ∷ cs) =
    let (name, rest) = partition cs in if c == b' ' then ([], cs) else (c ∷ name, rest)

module _ ⦃u : Unicode⦄ where
  unfoldable pub strip : Text → Text
  unfolding lstrip rstrip
  strip text = rstrip (lstrip text)

module _ {C : Type 0} where
  unfoldable pub register : Text → Handler C → CommandRegistry C → Result (CommandRegistry C)
  unfolding insert
  register name handler registry = do
    raise_if (not (starts_with_dot name)) value_error
    ok (insert name handler registry)

  module _ ⦃u : Unicode⦄ where
    abbrev run_handler : Option (Handler C) → Text → Text → C → Result CommandResult
    run_handler none name argument context =
        ok (output_of (codes "error: unknown command: " ++ name ++ newline))
    run_handler (some handler) name argument context = handler (strip argument) context

    unfoldable pub dispatch : CommandRegistry C → Text → C → Result CommandResult
    unfolding partition lookup strip
    dispatch registry line context =
        let (name, argument) = partition (strip line) in
        run_handler (lookup name registry) name argument context

-- `sorted`, by a name
unfoldable pub insert_sorted : {A : Type 0} → (A → Text) → A → List A → List A
insert_sorted name a [] = a ∷ []
insert_sorted name a (b ∷ bs) =
    if text_lt (name b) (name a) then b ∷ insert_sorted name a bs else a ∷ b ∷ bs

unfoldable pub sorted_by : {A : Type 0} → (A → Text) → List A → List A
unfolding insert_sorted
sorted_by name [] = []
sorted_by name (a ∷ as') = insert_sorted name a (sorted_by name as')

abbrev constraints_of : ColumnData → List Text
constraints_of column =
    if column.primary_key
    then codes "PRIMARY KEY" ∷ []
    else (if column.not_null then codes "NOT NULL" ∷ [] else [])
      ++ (if column.unique then codes "UNIQUE" ∷ [] else [])

-- `_format_column`
unfoldable pub format_column : ColumnData → Text
unfolding join_texts
format_column column = join_texts (codes " ") (column.name ∷ column.type ∷ constraints_of column)

-- Every column's line, with a comma but after the last one.
abbrev pub column_lines : List ColumnData → List Text
column_lines [] = []
column_lines (c ∷ []) = (codes "  " ++ format_column c) ∷ []
column_lines (c ∷ d ∷ ds) = (codes "  " ++ format_column c ++ codes ",") ∷ column_lines (d ∷ ds)

unfoldable pub format_table_schema : TableData → Text
unfolding format_column join_texts
format_table_schema table = join_texts newline (
    (codes "CREATE TABLE " ++ table.name ++ codes " (")
    ∷ (column_lines table.columns ++ codes ")" ∷ []))

abbrev table_name : TableData → Text
table_name table = table.name

unfoldable pub select_schema_tables : List TableData → Text → List TableData
unfolding sorted_by text_eq
select_schema_tables tables [] = sorted_by table_name tables
select_schema_tables tables (c ∷ cs) =
    filter (λ (table : TableData). text_eq table.name (c ∷ cs)) tables

-- A context gives its catalog, or raises.
abbrev pub Context : Type 0
Context = Result Catalog

abbrev lines_of : List Text → Text
lines_of [] = []
lines_of (t ∷ ts) = t ++ newline ++ lines_of ts

unfoldable pub handle_tables : Handler Context
unfolding to_dict sorted_by
handle_tables argument context = do
  catalog ← context
  ok (output_of (listed (sorted_by (λ t. t) (map table_name (to_dict catalog)))))
  where
    listed : List Text → Text
    listed [] = codes "no tables" ++ newline
    listed (t ∷ ts) = lines_of (t ∷ ts)

unfoldable pub handle_schema : Handler Context
unfolding to_dict select_schema_tables format_table_schema join_texts
handle_schema argument context = do
  catalog ← context
  ok (output_of (shown (select_schema_tables (to_dict catalog) argument)))
  where
    target : Text → Text
    target [] = codes "database"
    target (c ∷ cs) = c ∷ cs

    shown : List TableData → Text
    shown [] = codes "error: no schema found for " ++ target argument ++ newline
    shown (t ∷ ts) = join_texts newline (map format_table_schema (t ∷ ts)) ++ newline

abbrev pub handle_quit : {C : Type 0} → Handler C
handle_quit argument context = ok (record { exit_requested = true; output = [] })

abbrev pub handle_help : {C : Type 0} → Handler C
handle_help argument context = ok (
    output_of (
      lines_of (
        codes "Available commands:"
        ∷ codes "  .help           Show available dot commands."
        ∷ codes "  .tables         List tables in the current database."
        ∷ codes "  .schema [table] Show CREATE TABLE schema for one or all tables."
        ∷ codes "  .explain SQL    Show the SQL execution plan without running it."
        ∷ codes "  .quit           Exit the REPL."
        ∷ [])))

-- Whether an exception is a TinyDBError; Python's own are not.
abbrev pub is_tinydb_error : Error → Bool
is_tinydb_error type_error = false
is_tinydb_error value_error = false
is_tinydb_error overflow_error = false
is_tinydb_error index_error = false
is_tinydb_error out_of_fuel = false
is_tinydb_error other = true

-- `except TinyDBError as exc`; `message` is the text of an exception.
abbrev pub report : (Error → Text) → Result Text → Result CommandResult
report message (ok text) = ok (output_of (text ++ newline))
report message (err e) =
    if is_tinydb_error e then ok (output_of (codes "error: " ++ message e ++ newline)) else err e

module _ {F : Type 0} ⦃fl : FloatOps F⦄ ⦃u : Unicode⦄ where
  abbrev planned : Catalog → Select F → Result (QueryPlan F)
  planned catalog statement = plan statement catalog

module _ (F : Type 0) ⦃fl : FloatOps F⦄ ⦃u : Unicode⦄ where
  unfoldable pub handle_explain : (Error → Text) → Handler Context
  unfolding explain
  handle_explain message argument context =
      report message (context >>= λ catalog. explain (planned {F = F} catalog) argument)

  unfoldable pub with_builtins : (Error → Text) → Result (CommandRegistry Context)
  unfolding register handle_tables handle_schema handle_explain
  with_builtins message = do
    help ← register (codes ".help") handle_help []
    quit ← register (codes ".quit") handle_quit help
    tables ← register (codes ".tables") handle_tables quit
    schema ← register (codes ".schema") handle_schema tables
    register (codes ".explain") (handle_explain message) schema
