-- ===== src/Catalog/RoundTrip.antt =====
-- Reading back a catalog that was written: `from_dict (to_dict catalog)`.
use tinydb_sueprflow.Prelude.{
  Text, text_eq_iff, codes, ◌≡◌, refl, ap, sym, ◌∙◌, subst, none, List, [], ◌∷◌, ◌++◌, map,
  append-nil, append_assoc, arith,
}
use tinydb_sueprflow.Errors.{ok}
use tinydb_sueprflow.Python.Unicode.{Unicode, AsciiLaws, upper-capitals}
use tinydb_sueprflow.Python.Dict.{Dict, lookup, contains, insert_new, lookup-append_none}
use tinydb_sueprflow.Types.{TinyType, type_value, member, from_name}
use tinydb_sueprflow.Catalog.{
  ColumnSchema, TableSchema, TableData, Catalog, column_to_dict, table_to_dict, to_dict,
  columns_from_dict, tables_from_dict, from_dict,
}
use tinydb_sueprflow.Catalog.WellFormed.{Tables, IsWellFormed}

-- What stands in the middle of well-formed tables has its own name, and is new behind those before.
Tables-middle :
    (done : Dict TableSchema) (k : Text) (t : TableSchema) (rest : Dict TableSchema)
    → Tables (done ++ (k, t) ∷ rest)
    → (k ≡ t.name) × (lookup k done ≡ none)
unfolding lookup
Tables-middle [] k t rest h = (h.0, refl)
Tables-middle ((j, s) ∷ done) k t rest h =
    let (name, new) = Tables-middle done k t rest h.3 in
    (name, ground (arith, text_eq_iff j k, lookup-append_none j k t done rest h.2, new))

module _ ⦃u : Unicode⦄ ⦃laws : AsciiLaws⦄ where
  from_name-type_value : (t : TinyType) → from_name (type_value t) ≡ ok t
  unfolding from_name member
  from_name-type_value TinyType.int_type =
      rw (upper-capitals (codes "INT") (refl, (refl, (refl, tt))), from_name)
  from_name-type_value TinyType.float_type =
      rw (upper-capitals (codes "FLOAT") (refl, (refl, (refl, (refl, (refl, tt))))), from_name)
  from_name-type_value TinyType.text_type =
      rw (upper-capitals (codes "TEXT") (refl, (refl, (refl, (refl, tt)))), from_name)
  from_name-type_value TinyType.bool_type =
      rw (upper-capitals (codes "BOOL") (refl, (refl, (refl, (refl, tt)))), from_name)

  columns_from_dict-to_dict :
      (cs : List ColumnSchema) → columns_from_dict (map column_to_dict cs) ≡ ok cs
  unfolding columns_from_dict column_to_dict
  columns_from_dict-to_dict [] = refl
  columns_from_dict-to_dict (c ∷ cs) =
      rw (from_name-type_value c.type, columns_from_dict-to_dict cs)

  -- One round of the loop: a new table goes behind those read so far.
  tables_from_dict_step :
      (t : TableSchema) (written : List TableData) (done : Dict TableSchema)
      → lookup t.name done ≡ none
      → tables_from_dict (table_to_dict t ∷ written) done
        ≡ tables_from_dict written (done ++ (t.name, t) ∷ [])
  unfolding tables_from_dict table_to_dict contains
  tables_from_dict_step t written done new =
      rw (columns_from_dict-to_dict t.columns, new, insert_new t.name t done new)

  -- The tables read so far and those that are left make up the catalog.
  tables_from_dict-to_dict :
      (done rest : Dict TableSchema)
      → Tables (done ++ rest)
      → tables_from_dict (map (λ (name, table). table_to_dict table) rest) done ≡ ok (done ++ rest)
  unfolding tables_from_dict
  tables_from_dict-to_dict done [] h = rw (append-nil done) refl
  tables_from_dict-to_dict done ((k, t) ∷ rest) h =
      let (name, new) = Tables-middle done k t rest h in
      let assoc = append_assoc done ((k, t) ∷ []) rest in
      let next = tables_from_dict-to_dict (done ++ (k, t) ∷ []) rest (rw assoc h) in
      let key = ap (λ (n : Text). done ++ (n, t) ∷ []) name in
      let new' = subst (λ n. lookup n done ≡ none) name new in
      tables_from_dict_step t (map (λ (n, table). table_to_dict table) rest) done new'
      ∙ ap (tables_from_dict (map (λ (n, table). table_to_dict table) rest)) (sym key)
      ∙ next
      ∙ ap ok assoc

  -- Writing a well-formed catalog and reading it back gives the same catalog, with its tables and
  -- columns in the same order, if `upper` leaves the capital letters alone.
  pub from_dict-to_dict : (c : Catalog) → IsWellFormed c → from_dict (to_dict c) ≡ ok c
  unfolding from_dict to_dict
  from_dict-to_dict c h = rw (tables_from_dict-to_dict [] c.tables h) refl
