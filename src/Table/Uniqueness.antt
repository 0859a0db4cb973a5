-- ===== src/Table/Uniqueness.antt =====
-- tinydb/storage/table.py, `_check_unique_constraints`: which rows a new one is refused for.
use tinydb_sueprflow.Prelude.{
  ◌≡◌, refl, ◌↔◌, ◌⊎◌, Text, true, false, not, ◌&&◌, Option, List, [], ◌∷◌, All, Bool-cases, inl,
  inr,
}
use tinydb_sueprflow.Errors.{Error, Result, ok, err}
use tinydb_sueprflow.Python.Float.{FloatOps}
use tinydb_sueprflow.Value.{Row, py_eq}
use tinydb_sueprflow.Index.Node.{RecordPointer}
use tinydb_sueprflow.Rows.{is_null, get_value}
use tinydb_sueprflow.Table.{is_excluded, check_columns, check_rows}

outcome_of : (r : Result (Unit {0})) → (r ≡ ok tt) ⊎ ((e : Error) × (r ≡ err e))
outcome_of (ok _) = inl refl
outcome_of (err e) = inr (e, refl)

module _ {F : Type 0} ⦃fl : FloatOps F⦄ where
  -- The rows agree in no column, but in ones where the new row is null.
  abbrev pub Differs : List Text → Row F → Row F → Type 0
  Differs columns row existing =
      All
        (λ c.
          (not (is_null (get_value row c)) && py_eq (get_value row c) (get_value existing c))
          ≡ false)
        columns

  check_columns-Differs :
      (columns : List Text) (row existing : Row F)
      → check_columns columns row existing ≡ ok tt
      → Differs columns row existing
  unfolding check_columns
  check_columns-Differs [] row existing h = tt
  check_columns-Differs (c ∷ cs) row existing h =
      elim (Bool-cases
        (not (is_null (get_value row c)) && py_eq (get_value row c) (get_value existing c))) [
          | inl clash ↦ cc (rw (check_columns, clash) at h)
          | inr free ↦ (free, check_columns-Differs cs row existing (rw (check_columns, free) at h))
        ]

  Differs-check_columns :
      (columns : List Text) (row existing : Row F)
      → Differs columns row existing
      → check_columns columns row existing ≡ ok tt
  unfolding check_columns
  Differs-check_columns [] row existing h = refl
  Differs-check_columns (c ∷ cs) row existing h =
      rw (check_columns, h.0) (Differs-check_columns cs row existing h.1)

  -- A stored row is left out, or the new row differs from it.
  abbrev pub Clear : List Text → Row F → Option RecordPointer → RecordPointer × Row F → Type 0
  Clear columns row excluding (pointer, existing) =
      (is_excluded excluding pointer ≡ true) ⊎ Differs columns row existing

  pub check_rows-Clear :
      (columns : List Text) (row : Row F) (excluding : Option RecordPointer)
      (rows : List (RecordPointer × Row F))
      → check_rows columns row excluding rows ≡ ok tt
      → All (Clear columns row excluding) rows
  unfolding check_rows
  check_rows-Clear columns row excluding [] h = tt
  check_rows-Clear columns row excluding ((pointer, existing) ∷ rows) h =
      elim (Bool-cases (is_excluded excluding pointer)) [
        | inl excluded ↦ (
          inl excluded,
          check_rows-Clear columns row excluding rows (rw (check_rows, excluded) at h),
        )
        | inr included ↦ elim (outcome_of (check_columns columns row existing)) [
          | inl e ↦ (
            inr (check_columns-Differs columns row existing e),
            check_rows-Clear columns row excluding rows (rw (check_rows, included, e) at h),
          )
          | inr (error, e) ↦ cc (rw (check_rows, included, e) at h)
        ]
      ]

  Clear-check_rows :
      (columns : List Text) (row : Row F) (excluding : Option RecordPointer)
      (rows : List (RecordPointer × Row F))
      → All (Clear columns row excluding) rows
      → check_rows columns row excluding rows ≡ ok tt
  unfolding check_rows
  Clear-check_rows columns row excluding [] h = refl
  Clear-check_rows columns row excluding ((pointer, existing) ∷ rows) h =
      elim (Bool-cases (is_excluded excluding pointer)) [
        | inl excluded ↦ rw (check_rows, excluded) (Clear-check_rows columns row excluding rows h.1)
        | inr included ↦ elim h.0 [
          | inl excluded ↦ cc (excluded, included)
          | inr differs ↦
              rw (check_rows, included, Differs-check_columns columns row existing differs)
                (Clear-check_rows columns row excluding rows h.1)
        ]
      ]

  -- A row passes the check of some columns against stored rows exactly when, for each stored row that is not
  -- the excluded one and each of the columns, the new row is null in the column or the two values are not
  -- equal.
  pub check_rows_iff :
      (columns : List Text) (row : Row F) (excluding : Option RecordPointer)
      (rows : List (RecordPointer × Row F))
      → (check_rows columns row excluding rows ≡ ok tt) ↔ All (Clear columns row excluding) rows
  check_rows_iff columns row excluding rows =
      (check_rows-Clear columns row excluding rows, Clear-check_rows columns row excluding rows)
