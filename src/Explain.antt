-- ===== src/Explain.antt =====
-- tinydb/explain.py: a query plan as text.
use tinydb_sueprflow.Prelude.{Text, codes, Option, none, some, List, [], ◌∷◌, ◌++◌, map}
use tinydb_sueprflow.Errors.{Result, ok, err, ◌>>=◌, execution_error, not_select}
use tinydb_sueprflow.Python.Unicode.{Unicode}
use tinydb_sueprflow.Python.Float.{FloatOps}
use tinydb_sueprflow.Sql.Ast.{ColumnRef, JoinSource, JoinPredicate, Statement, Select, select}
use tinydb_sueprflow.Sql.Parser.{parse_sql}
use tinydb_sueprflow.Planner.{QueryPlan, JoinPlan, table_scan, index_scan, join}

-- `separator.join(parts)`
unfoldable pub join_texts : Text → List Text → Text
join_texts separator [] = []
join_texts separator (t ∷ []) = t
join_texts separator (t ∷ u ∷ us) = t ++ separator ++ join_texts separator (u ∷ us)

abbrev pub prefixed : Option Text → Text → Text
prefixed none name = name
prefixed (some qualifier) name = qualifier ++ codes "." ++ name

-- `_format_column`
abbrev pub format_column_ref : ColumnRef → Text
format_column_ref column = prefixed column.qualifier column.column_name

abbrev renamed : Option Text → Text → Text
renamed none name = name
renamed (some alias) name = name ++ codes " AS " ++ alias

abbrev pub format_source : JoinSource → Text
format_source source = renamed source.alias source.table_name

abbrev format_predicate : JoinPredicate → Text
format_predicate p = format_column_ref p.left ++ codes " = " ++ format_column_ref p.right

unfoldable pub format_join_plan : JoinPlan → Text
unfolding join_texts
format_join_plan plan =
    with_predicates (join_texts (codes " AND ") (map format_predicate plan.predicates))
  where
    named : Text
    named = codes "JOIN " ++ join_texts (codes ", ") (map format_source plan.sources)

    with_predicates : Text → Text
    with_predicates [] = named
    with_predicates (c ∷ cs) = named ++ codes " ON " ++ (c ∷ cs)

module _ {F : Type 0} where
  unfoldable pub explain_plan : QueryPlan F → Text
  unfolding format_join_plan
  explain_plan (table_scan p) = codes "SCAN " ++ p.table
  explain_plan (index_scan p) = codes "INDEX SCAN " ++ p.table ++ codes " USING " ++ p.index_name
  explain_plan (join p) = format_join_plan p

  abbrev require_select : Statement F → Result (Select F)
  require_select (select s) = ok s
  require_select other = err (execution_error not_select)

module _ {F : Type 0} ⦃fl : FloatOps F⦄ ⦃u : Unicode⦄ where
  -- `PlanExplainer(planner).explain(sql)`, of which the planner is given by its `plan`
  unfoldable pub explain : (Select F → Result (QueryPlan F)) → Text → Result Text
  unfolding parse_sql explain_plan
  explain plan sql = do
    statement ← parse_sql sql
    query ← require_select statement
    p ← plan query
    ok (explain_plan p)
