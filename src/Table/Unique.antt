-- ===== src/Table/Unique.antt =====
-- tinydb/storage/table.py: the values of a unique column stay different from each other.
use tinydb_sueprflow.Prelude.{
  ℕ, ◌+◌, ◌*◌, length, some, ◌≡◌, refl, ap, Text, text_eq, text_eq→eq, Bool, true, false, ◌||◌,
  none, List, [], ◌∷◌, ◌++◌, map, filter, any, text_eq_refl, arith, All, All-append, Bool-cases,
  inl, inr, or_default,
}
use tinydb_sueprflow.Errors.{Result, ok}
use tinydb_sueprflow.Page.{page_size}
use tinydb_sueprflow.Python.Float.{FloatOps}
use tinydb_sueprflow.Python.Dict.{lookup}
use tinydb_sueprflow.Value.{null, Row}
use tinydb_sueprflow.Catalog.{ColumnSchema, TableSchema}
use tinydb_sueprflow.Index.Node.{RecordPointer}
use tinydb_sueprflow.Rows.{get_value, ordered_row}
use tinydb_sueprflow.Storage.State.{Record, State, Codec, StateLaws}
use tinydb_sueprflow.Storage.Actions.{Storage}
use tinydb_sueprflow.Table.{Payload, scan, check_unique_constraints, unique_columns, insert_row}
use tinydb_sueprflow.Table.Laws.{PayloadLaws}
use tinydb_sueprflow.Table.Acceptance.{insert_row-Accepted}
use tinydb_sueprflow.Table.Uniqueness.{Differs, Clear, check_rows-Clear}
use tinydb_sueprflow.Table.Appending.{Stored, scan-insert_row}

-- A name of a column.
abbrev Named : List ColumnSchema → Text → Type 0
Named cs name = any (λ (c : ColumnSchema). text_eq c.name name) cs ≡ true

Named-more :
    (c : ColumnSchema) (cs : List ColumnSchema) (names : List Text)
    → All (Named cs) names
    → All (Named (c ∷ cs)) names
Named-more c cs [] h = tt
Named-more c cs (name ∷ names) h = (ground (arith, h.0), Named-more c cs names h.1)

chosen-Named :
    (p : ColumnSchema → Bool) (cs : List ColumnSchema)
    → All (Named cs) (map (λ (c : ColumnSchema). c.name) (filter p cs))
chosen-Named p [] = tt
chosen-Named p (c ∷ cs) =
    let rest =
      Named-more c cs (map (λ (d : ColumnSchema). d.name) (filter p cs)) (chosen-Named p cs) in
    elim (Bool-cases (p c)) [
      | inl chosen ↦ rw chosen (rw (text_eq_refl c.name) refl, rest)
      | inr left_out ↦ rw left_out rest
    ]

-- The ordered row has a column's value under its name.
get_value-ordered_row :
    {F : Type 0} (cs : List ColumnSchema) (row : Row F) (name : Text)
    → Named cs name
    → get_value (ordered_row cs row) name ≡ get_value row name
unfolding ordered_row get_value lookup
get_value-ordered_row [] row name h = cc h
get_value-ordered_row (c ∷ cs) row name h = elim (Bool-cases (text_eq c.name name)) [
  | inl here ↦ rw here (ap (λ n. or_default null (lookup n row)) (text_eq→eq c.name name here))
  | inr later ↦ rw later (get_value-ordered_row cs row name (rw later at h))
]

-- The columns of which a value stands in one row only.
abbrev pub constrained_columns : TableSchema → List Text
constrained_columns schema =
    map (λ (c : ColumnSchema). c.name)
      (filter (λ (c : ColumnSchema). c.primary_key || c.unique) schema.columns)

module _ {F : Type 0} ⦃fl : FloatOps F⦄ where
  Differs-ordered_row :
      (cs : List ColumnSchema) (columns : List Text) (row existing : Row F)
      → All (Named cs) columns
      → Differs columns row existing
      → Differs columns (ordered_row cs row) existing
  Differs-ordered_row cs [] row existing h d = tt
  Differs-ordered_row cs (c ∷ columns) row existing h d = (
    rw (get_value-ordered_row cs row c h.0) d.0,
    Differs-ordered_row cs columns row existing h.1 d.1,
  )

  each_Differs :
      (cs : List ColumnSchema) (columns : List Text) (row : Row F)
      (rows : List (RecordPointer × Row F))
      → All (Named cs) columns
      → All (Clear columns row none) rows
      → All (λ (r : RecordPointer × Row F). Differs columns (ordered_row cs row) r.1) rows
  each_Differs cs columns row [] h clear = tt
  each_Differs cs columns row ((pointer, existing) ∷ rows) h clear = elim clear.0 [
    | inl excluded ↦ cc excluded
    | inr differs ↦ (
      Differs-ordered_row cs columns row existing h differs,
      each_Differs cs columns row rows h clear.1,
    )
  ]

  no_columns : (row : Row F) (rows : List (RecordPointer × Row F)) → All (Clear [] row none) rows
  no_columns row [] = tt
  no_columns row (r ∷ rows) = (inr tt, no_columns row rows)

  -- Each row differs from the ones before it.
  abbrev pub UniqueRows : List Text → List (RecordPointer × Row F) → Type 0
  UniqueRows columns [] = Unit
  UniqueRows columns (r ∷ rs) =
      All (λ (later : RecordPointer × Row F). Differs columns later.1 r.1) rs
      × UniqueRows columns rs

  UniqueRows-append :
      (columns : List Text) (rows : List (RecordPointer × Row F)) (new : RecordPointer × Row F)
      → UniqueRows columns rows
      → All (λ (r : RecordPointer × Row F). Differs columns new.1 r.1) rows
      → UniqueRows columns (rows ++ new ∷ [])
  UniqueRows-append columns [] new u d = (tt, tt)
  UniqueRows-append columns (r ∷ rs) new u d = (
    All-append (λ (later : RecordPointer × Row F). Differs columns later.1 r.1) rs (new ∷ []) u.0
        (d.0, tt),
    UniqueRows-append columns rs new u.1 d.1,
  )

  module _ ⦃payloads : Codec (Payload F)⦄ where
    -- What a check that went well has tested.
    check_unique-Clear :
        (schema : TableSchema) (row : Row F) (s : Storage) (rows : List (RecordPointer × Row F))
        → scan {F = F} schema s ≡ (ok rows, s)
        → check_unique_constraints schema row none s ≡ (ok tt, s)
        → All (Clear (unique_columns schema) row none) rows
    unfolding check_unique_constraints
    check_unique-Clear schema row s rows scanned h = each (unique_columns schema) refl
      where
        each :
            (columns : List Text)
            → unique_columns schema ≡ columns
            → All (Clear columns row none) rows
        each [] e = no_columns row rows
        each (c ∷ cs) e = check_rows-Clear (c ∷ cs) row none rows (
            ap (λ (p : Result (Unit {0}) × Storage). p.0)
              (rw (check_unique_constraints, e, scanned) at h))

    module _ ⦃codec : Codec State⦄ ⦃laws : StateLaws⦄ ⦃payload_laws : PayloadLaws F⦄ where
      -- In an open storage of `n` pages, let the records of a table be of these pages, let the table be scanned,
      -- and let its rows differ from each other in the columns that are a primary key or unique. After any
      -- insertion that returns a pointer the table is scanned again, and its rows differ from each other there:
      -- no later row has the value of an earlier one in such a column, unless the later one is null there.
      pub insert_row-UniqueRows :
          (n : ℕ) (schema : TableSchema) (row : Row F) (records : List Record) (s : Storage)
          (rows : List (RecordPointer × Row F)) (pointer : RecordPointer)
          → (s.closed ≡ false) × (length s.file ≡ (n + 1) * page_size)
          → lookup schema.name s.state.tables ≡ some records
          → All (Stored n) records
          → scan {F = F} schema s ≡ (ok rows, s)
          → UniqueRows (constrained_columns schema) rows
          → (insert_row schema row s).0 ≡ ok pointer
          → let s' = (insert_row schema row s).1 in
            (rows' : List (RecordPointer × Row F)) × (scan schema s' ≡ (ok rows', s'))
            × UniqueRows (constrained_columns schema) rows'
      insert_row-UniqueRows n schema row records s rows pointer pages found stored e u inserted =
          let (normalized, a) =
            insert_row-Accepted n schema row records s rows pointer pages found stored e inserted in
          let new : RecordPointer × Row F = (
            record { table = schema.name; page_id = n; slot = 0 },
            ordered_row schema.columns normalized,
          ) in
          let clear = check_unique-Clear schema normalized s rows e a.distinct in
          let named =
            chosen-Named (λ (c : ColumnSchema). c.primary_key || c.unique) schema.columns in
          (
            rows ++ new ∷ [],
            (scan-insert_row n schema row normalized records s rows a stored e).1,
            UniqueRows-append (unique_columns schema) rows new u
                (each_Differs schema.columns (unique_columns schema) normalized rows named clear),
          )
