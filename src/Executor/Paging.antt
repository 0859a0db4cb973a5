-- ===== src/Executor/Paging.antt =====
-- tinydb/executor.py: the rows of a result that OFFSET and LIMIT select.
use tinydb_sueprflow.Prelude.{
  ℕ, ◌-◌, ◌≡◌, sym, ap, ◌∙◌, Option, none, some, List, [], ◌++◌, append-nil, length, length-take,
  length-drop, take, drop, take-append-drop, or_default,
}
use Prim.Native.Nat.{min}
use tinydb_sueprflow.Executor.{apply_offset_limit}

-- How many of `n` rows a LIMIT leaves.
abbrev pub limited : Option ℕ → ℕ → ℕ
limited none n = n
limited (some limit) n = min limit n

-- The selected rows stand side by side in the result: in front of them are as many rows as the OFFSET says, none
-- where there is no OFFSET, or all rows where there are fewer; the selected rows are as many as the LIMIT says,
-- or all that are left where there is no LIMIT or fewer are left; the other rows stand behind them.
pub apply_offset_limit-Between :
    {A : Type 0} (offset limit : Option ℕ) (rows : List A)
    → let page = apply_offset_limit offset limit rows in
      (front : List A) × (back : List A) × (rows ≡ front ++ (page ++ back))
      × (length front ≡ min (or_default 0 offset) (length rows))
      × (length page ≡ limited limit (length rows - or_default 0 offset))
unfolding apply_offset_limit
apply_offset_limit-Between offset none rows =
    let start = or_default 0 offset in
    (
      take start rows,
      [],
      sym (
          ap (λ l. take start rows ++ l) (append-nil (drop start rows))
          ∙ take-append-drop start rows),
      length-take start rows,
      length-drop start rows,
    )
apply_offset_limit-Between offset (some limit) rows =
    let start = or_default 0 offset in
    (
      take start rows,
      drop limit (drop start rows),
      sym (
          ap (λ l. take start rows ++ l) (take-append-drop limit (drop start rows))
          ∙ take-append-drop start rows),
      length-take start rows,
      length-take limit (drop start rows) ∙ ap (min limit) (length-drop start rows),
    )
