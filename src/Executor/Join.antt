-- ===== src/Executor/Join.antt =====
-- tinydb/executor.py, `_join_rows`: the rows of a join, source by source.
pub mod Product
use tinydb_sueprflow.Prelude.{
  Text, codes, Bool, true, false, not, ◌&&◌, Option, none, some, List, [], ◌∷◌, ◌++◌, map,
  if◌then◌else◌,
}
use tinydb_sueprflow.Errors.{Result, ok, err, ◌>>=◌}
use tinydb_sueprflow.Python.Unicode.{Unicode}
use tinydb_sueprflow.Python.Float.{FloatOps}
use tinydb_sueprflow.Python.Dict.{Dict, lookup, contains, insert}
use tinydb_sueprflow.Value.{Value, Row}
use tinydb_sueprflow.Sql.Ast.{Expression, ColumnRef, JoinPredicate, binary, column_ref}
use tinydb_sueprflow.Sql.Expressions.{qualified_name, evaluate_predicate}

-- `dict.update`
abbrev pub update : {V : Type 0} → Dict V → Dict V → Dict V
update row [] = row
update row ((k, v) ∷ more) = update (insert k v row) more

module _ {F : Type 0} where
  -- f"{qualifier}.{column_name}" for each column
  abbrev pub qualified_row : Text → Row F → Row F
  qualified_row qualifier row =
      map (λ (p : Text × Value F). (qualifier ++ codes "." ++ p.0, p.1)) row

  -- Both columns of a predicate are in the row.
  abbrev pub applies : JoinPredicate → Row F → Bool
  applies p row = contains (qualified_name p.left) row && contains (qualified_name p.right) row

-- A source of a join: its qualifier, and its rows as they are scanned.
abbrev pub Source : Type 0 → Type 0
Source F = Text × List (Row F)

module _ {F : Type 0} ⦃fl : FloatOps F⦄ ⦃u : Unicode⦄ where
  -- `_join_predicates_match`
  unfoldable pub join_predicates_match : List JoinPredicate → Row F → Result Bool
  unfolding contains evaluate_predicate
  join_predicates_match [] row = ok true
  join_predicates_match (p ∷ ps) row =
      let rest = join_predicates_match ps row in
      if not (applies p row) then rest else do
        equal ←
            evaluate_predicate (some (binary (column_ref p.left) (codes "=") (column_ref p.right)))
              row
        if equal then rest else ok false

  -- the rows that one joined row makes with the rows of a source
  unfoldable pub extend_row :
      List JoinPredicate → Row F → Text → List (Row F) → Result (List (Row F))
  unfolding join_predicates_match
  extend_row predicates joined qualifier [] = ok []
  extend_row predicates joined qualifier (source_row ∷ rows) = do
    matches ← join_predicates_match predicates (update joined (qualified_row qualifier source_row))
    candidates ← extend_row predicates joined qualifier rows
    ok (
        if matches
        then update joined (qualified_row qualifier source_row) ∷ candidates
        else candidates)

  unfoldable pub extend_rows : List JoinPredicate → List (Row F) → Source F → Result (List (Row F))
  unfolding extend_row
  extend_rows predicates [] source = ok []
  extend_rows predicates (joined ∷ joined_rows) source = do
    candidates ← extend_row predicates joined source.0 source.1
    more ← extend_rows predicates joined_rows source
    ok (candidates ++ more)

  -- the loop over the sources
  unfoldable pub join_from :
      List JoinPredicate → List (Row F) → List (Source F) → Result (List (Row F))
  unfolding extend_rows
  join_from predicates joined [] = ok joined
  join_from predicates joined (source ∷ sources) = do
    candidates ← extend_rows predicates joined source
    join_from predicates candidates sources

  -- `_join_rows`
  unfoldable pub join_rows : List JoinPredicate → List (Source F) → Result (List (Row F))
  unfolding join_from
  join_rows predicates sources = join_from predicates ([] ∷ []) sources
