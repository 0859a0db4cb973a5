-- ===== src/Rows/Typed.antt =====
-- tinydb/storage/table.py, `_normalize_row`: what a row that was accepted holds.
use tinydb_sueprflow.Prelude.{
  ◌≡◌, refl, sym, ap, ◌∙◌, Text, text_eq, text_eq_iff, Bool, true, false, not, ◌&&◌, none, some,
  List, [], ◌∷◌, filter, arith, All,
}
use tinydb_sueprflow.Errors.{Error, Result, ok, err, ◌>>=◌, ◌>>◌, raise_if}
use tinydb_sueprflow.Python.Float.{FloatOps}
use tinydb_sueprflow.Python.Dict.{lookup, insert, lookup-insert, lookup-insert_self}
use tinydb_sueprflow.Types.{TinyType, validate, HasType, validate-HasType}
use tinydb_sueprflow.Value.{Value, null, bool, int, float, text, Row}
use tinydb_sueprflow.Catalog.{ColumnSchema, TableSchema, member_of}
use tinydb_sueprflow.Catalog.Schemas.{Fresh, HasDistinctNames}
use tinydb_sueprflow.Rows.{
  is_null, get_value, column_names, keys_of, raise_unknown, normalize_columns, normalize_row,
}

text_eq-swapped : (a b : Text) → text_eq a b ≡ false → text_eq b a ≡ false
text_eq-swapped a b h = ground (arith, text_eq_iff a b, text_eq_iff b a, h)

module _ {F : Type 0} where
  -- A test and a call that both went well.
  went_well :
      (b : Bool) (e : Error) (value : Result (Value F)) (rest : Value F → Result (Row F))
      (row : Row F)
      → (raise_if b e >> (value >>= rest)) ≡ ok row
      → (v : Value F) × (b ≡ false) × (value ≡ ok v) × (rest v ≡ ok row)
  went_well true e value rest row h = cc h
  went_well false e (err raised) rest row h = cc h
  went_well false e (ok v) rest row h = (v, refl, refl, h)

  known :
      (unknown : List Text) (rest : Result (Row F)) (row : Row F)
      → (raise_unknown unknown >> rest) ≡ ok row
      → (unknown ≡ []) × (rest ≡ ok row)
  known [] rest row h = (refl, h)
  known (t ∷ ts) rest row h = cc h

module _ {F : Type 0} ⦃fl : FloatOps F⦄ where
  -- A column that is not among those that are left keeps its value.
  normalize_columns-Fresh :
      (cs : List ColumnSchema) (row done result : Row F) (name : Text)
      → Fresh name cs
      → normalize_columns cs row done ≡ ok result
      → lookup name result ≡ lookup name done
  unfolding normalize_columns
  normalize_columns-Fresh [] row done result name fresh h = sym (ap (lookup name) (same h))
    where
      same : ok done ≡ ok result → done ≡ result
      same e = cc e
  normalize_columns-Fresh (c ∷ cs) row done result name fresh h =
      let (v, _, _, later) =
        went_well (is_null (get_value row c.name) && c.not_null) _
          (validate c.type (get_value row c.name))
          (λ value. normalize_columns cs row (insert c.name value done)) result h in
      normalize_columns-Fresh cs row (insert c.name v done) result name fresh.1 later
      ∙ lookup-insert c.name name v done
      ∙ rw (text_eq-swapped name c.name fresh.0) refl

  validate-is_null : (t : TinyType) (v w : Value F) → validate t v ≡ ok w → is_null w ≡ is_null v
  unfolding validate
  validate-is_null t null w h = ground arith
  validate-is_null TinyType.int_type (int n) w h = ground arith
  validate-is_null TinyType.float_type (float x) w h = ground arith
  validate-is_null TinyType.float_type (int n) w h = ground arith
  validate-is_null TinyType.text_type (text s) w h = ground arith
  validate-is_null TinyType.bool_type (bool b) w h = ground arith
  validate-is_null t v w h = cc

  -- What is said of a column and its value in a row.
  abbrev pub Holds : Row F → ColumnSchema → Type 0
  Holds row c =
      (v : Value F) × (lookup c.name row ≡ some v)
      × HasType c.type v
      × ((is_null v && c.not_null) ≡ false)

  normalize_columns-Holds :
      (cs : List ColumnSchema) (row done result : Row F)
      → HasDistinctNames cs
      → normalize_columns cs row done ≡ ok result
      → All (Holds result) cs
  unfolding normalize_columns
  normalize_columns-Holds [] row done result distinct h = tt
  normalize_columns-Holds (c ∷ cs) row done result distinct h =
      let (v, no_null, valid, later) =
        went_well (is_null (get_value row c.name) && c.not_null) _
          (validate c.type (get_value row c.name))
          (λ value. normalize_columns cs row (insert c.name value done)) result h in
      let kept : lookup c.name result ≡ some v =
        normalize_columns-Fresh cs row (insert c.name v done) result c.name distinct.0 later
        ∙ lookup-insert_self c.name v done in
      let no_null' : (is_null v && c.not_null) ≡ false =
        ap (λ b. b && c.not_null) (validate-is_null c.type (get_value row c.name) v valid)
        ∙ no_null in
      (
        (v, kept, (validate-HasType c.type (get_value row c.name) v valid).0, no_null'),
        normalize_columns-Holds cs row (insert c.name v done) result distinct.1 later,
      )

  -- For a schema with distinct column names: a row that is accepted has no column but the schema's, and
  -- what is stored holds for each column a value of its type, which is not null where the column
  -- is NOT NULL, and for no other name a value.
  pub normalize_row-Holds :
      (schema : TableSchema) (row normalized : Row F) (other : Text)
      → HasDistinctNames schema.columns
      → normalize_row schema row ≡ ok normalized
      → Fresh other schema.columns
      → (filter (λ k. not (member_of k (column_names schema))) (keys_of row) ≡ [])
        × All (Holds normalized) schema.columns
        × (lookup other normalized ≡ none)
  unfolding normalize_row lookup
  normalize_row-Holds schema row normalized other distinct h fresh =
      let (none_unknown, later) =
        known (filter (λ k. not (member_of k (column_names schema))) (keys_of row))
          (normalize_columns schema.columns row []) normalized h in
      (
        none_unknown,
        normalize_columns-Holds schema.columns row [] normalized distinct later,
        normalize_columns-Fresh schema.columns row [] normalized other fresh later,
      )
