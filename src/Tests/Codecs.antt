-- ===== src/Tests/Codecs.antt =====
-- A way to write the metadata of a file as bytes, which the theorems on the storage are tried with.
use tinydb_sueprflow.Prelude.{
  ℕ, zero, suc, ◌≡◌, ◌≢◌, refl, sym, ap, ◌∙◌, Bool, true, false, Option, none, some, List, [], ◌∷◌,
  ◌++◌, append_assoc, append-nil, length, Text, text_eq, text_eq_iff, text_lt, text_lt_irrefl,
  arith, if◌then◌else◌,
}
use tinydb_sueprflow.Python.Dict.{Dict, lookup}
use tinydb_sueprflow.Catalog.{ColumnData, TableData}
use tinydb_sueprflow.Storage.Bytes.{Bytes}
use tinydb_sueprflow.Storage.State.{Record, Marker, State, Codec, StateLaws}

-- An object is read from the front of the bytes; the rest is given back.
pub record Code (A : Type 0) : Type 0 where
  pub write : A → Bytes
  pub read : Bytes → Option (A × Bytes)
  pub read-write : (a : A) (rest : Bytes) → read (write a ++ rest) ≡ some (a, rest)

abbrev pub read_number : Bytes → Option (ℕ × Bytes)
read_number [] = none
read_number (n ∷ rest) = some (n, rest)

abbrev pub number : Code ℕ
number = record { write = λ n. n ∷ []; read = read_number; read-write = λ n rest. refl }

module _ {A B : Type 0} (a : Code A) (b : Code B) where
  abbrev pub with_first : A → Option (B × Bytes) → Option ((A × B) × Bytes)
  with_first x none = none
  with_first x (some (y, rest)) = some ((x, y), rest)

  abbrev pub then_second : Option (A × Bytes) → Option ((A × B) × Bytes)
  then_second none = none
  then_second (some (x, rest)) = with_first x (b.read rest)

  abbrev pub pair : Code (A × B)
  pair = record {
    write = λ (x, y). a.write x ++ b.write y;
    read = λ bytes. then_second (a.read bytes);
    read-write = λ (x, y) rest.
        rw (append_assoc (a.write x) (b.write y) rest, a.read-write x (b.write y ++ rest))
          (ap (with_first x) (b.read-write y rest));
  }

module _ {A : Type 0} (a : Code A) where
  abbrev pub write_all : List A → Bytes
  write_all [] = []
  write_all (x ∷ xs) = a.write x ++ write_all xs

  abbrev pub cons_first : A → Option (List A × Bytes) → Option (List A × Bytes)
  cons_first x none = none
  cons_first x (some (xs, rest)) = some (x ∷ xs, rest)

  abbrev pub read_all : ℕ → Bytes → Option (List A × Bytes)
  read_all zero bytes = some ([], bytes)
  read_all (suc n) bytes = elim (a.read bytes) [
    | none ↦ none
    | some (x, rest) ↦ cons_first x (read_all n rest)
  ]

  pub read_all-write_all :
      (xs : List A) (rest : Bytes) → read_all (length xs) (write_all xs ++ rest) ≡ some (xs, rest)
  read_all-write_all [] rest = refl
  read_all-write_all (x ∷ xs) rest =
      rw
        (
          append_assoc (a.write x) (write_all xs) rest,
          a.read-write x (write_all xs ++ rest),
          read_all-write_all xs rest,
        )
        refl

  abbrev pub read_list : Bytes → Option (List A × Bytes)
  read_list [] = none
  read_list (n ∷ bytes) = read_all n bytes

  abbrev pub list_of : Code (List A)
  list_of = record {
    write = λ xs. length xs ∷ write_all xs;
    read = read_list;
    read-write = read_all-write_all;
  }

module _ {A B : Type 0} (a : Code A) (to : A → B) (from : B → A)
    (back : (b : B) → to (from b) ≡ b) where
  abbrev pub convert : Option (A × Bytes) → Option (B × Bytes)
  convert none = none
  convert (some (x, rest)) = some (to x, rest)

  abbrev pub via : Code B
  via = record {
    write = λ b. a.write (from b);
    read = λ bytes. convert (a.read bytes);
    read-write =
        λ b rest. rw (a.read-write (from b) rest) (ap (λ (c : B). some (c, rest)) (back b));
  }

abbrev pub is_one : ℕ → Bool
is_one (suc zero) = true
is_one _ = false

abbrev pub one_if : Bool → ℕ
one_if true = 1
one_if false = 0

pub flag_back : (b : Bool) → is_one (one_if b) ≡ b
flag_back true = refl
flag_back false = refl

abbrev pub flag : Code Bool
flag = via number is_one one_if flag_back

abbrev pub first_of : {A : Type 0} → List A → Option A
first_of [] = none
first_of (x ∷ xs) = some x

abbrev pub at_most_one : {A : Type 0} → Option A → List A
at_most_one none = []
at_most_one (some x) = x ∷ []

pub option_back : {A : Type 0} (o : Option A) → first_of (at_most_one o) ≡ o
option_back none = refl
option_back (some x) = refl

abbrev pub option_of : {A : Type 0} → Code A → Code (Option A)
option_of a = via (list_of a) first_of at_most_one option_back

abbrev pub text_code : Code Text
text_code = list_of number

abbrev pub column_code : Code ColumnData
column_code =
    via (pair text_code (pair text_code (pair flag (pair flag flag))))
      (λ (name, (type, (primary_key, (not_null, unique)))). record {
        name = name;
        type = type;
        primary_key = primary_key;
        not_null = not_null;
        unique = unique;
      })
      (λ c. (c.name, (c.type, (c.primary_key, (c.not_null, c.unique))))) (λ c. refl)

abbrev pub table_code : Code TableData
table_code =
    via (pair text_code (list_of column_code))
      (λ (name, columns). record { name = name; columns = columns }) (λ t. (t.name, t.columns))
      (λ t. refl)

abbrev pub record_code : Code Record
record_code =
    via (pair number (pair number flag))
      (λ (page_id, (slot, deleted)). record { page_id = page_id; slot = slot; deleted = deleted })
      (λ r. (r.page_id, (r.slot, r.deleted))) (λ r. refl)

abbrev pub marker_code : Code Marker
marker_code =
    via (pair number (pair flag (pair number (list_of number))))
      (λ (version, (pending, (size, page_ids))). record {
        version = version;
        pending = pending;
        snapshot_size = size;
        snapshot_page_ids = page_ids;
      })
      (λ m. (m.version, (m.pending, (m.snapshot_size, m.snapshot_page_ids)))) (λ m. refl)

abbrev pub state_code : Code State
state_code =
    via
      (pair (list_of table_code)
        (pair (list_of (pair text_code (list_of record_code))) (option_of marker_code)))
      (λ (catalog, (tables, transaction)). record {
        catalog = catalog;
        tables = tables;
        transaction = transaction;
      })
      (λ s. (s.catalog, (s.tables, s.transaction))) (λ s. refl)

abbrev pub only : {A : Type 0} → Option (A × Bytes) → Option A
only none = none
only (some (a, rest)) = some a

-- The tables in the order of their names.
abbrev pub put_sorted : Text → List Record → Dict (List Record) → Dict (List Record)
put_sorted k v [] = (k, v) ∷ []
put_sorted k v ((j, w) ∷ d) =
    let rest = put_sorted k v d in if text_lt j k then (j, w) ∷ rest else (k, v) ∷ (j, w) ∷ d

abbrev pub sorted : Dict (List Record) → Dict (List Record)
sorted [] = []
sorted ((k, v) ∷ d) = put_sorted k v (sorted d)

lookup-put_sorted :
    (i k : Text) (v : List Record) (d : Dict (List Record))
    → lookup i (put_sorted k v d) ≡ (if text_eq k i then some v else lookup i d)
unfolding lookup
lookup-put_sorted i k v [] = refl
lookup-put_sorted i k v ((j, w) ∷ d) =
    ground (arith, text_eq_iff k i, text_eq_iff j i, text_lt_irrefl i, lookup-put_sorted i k v d)

pub lookup-sorted : (i : Text) (d : Dict (List Record)) → lookup i (sorted d) ≡ lookup i d
unfolding lookup
lookup-sorted i [] = refl
lookup-sorted i ((k, v) ∷ d) =
    lookup-put_sorted i k v (sorted d)
    ∙ ap (λ rest. if text_eq k i then some v else rest) (lookup-sorted i d)

abbrev pub sorted_state : State → State
sorted_state s = record s { tables = sorted s.tables }

instance abbrev pub state_codec : Codec State
state_codec = record {
  dumps = λ s. state_code.write (sorted_state s);
  loads = λ bytes. only (state_code.read bytes);
}

pub loads_dumps : (s : State) → only (state_code.read (state_code.write s)) ≡ some s
loads_dumps s =
    ap (λ bytes. only (state_code.read bytes)) (sym (append-nil (state_code.write s)))
    ∙ ap (λ (o : Option (State × Bytes)). only o) (state_code.read-write s [])

pub dumps_not_empty : (s : State) → state_code.write s ≢ []
dumps_not_empty s e = cc e

instance abbrev pub state_laws : StateLaws
state_laws = record {
  loaded = sorted_state;
  loads-dumps = λ s. loads_dumps (sorted_state s);
  loaded-SameState = λ s. record {
    same_catalog = refl;
    same_transaction = refl;
    same_tables = λ name. lookup-sorted name s.tables;
  };
  not_empty = λ s. dumps_not_empty (sorted_state s);
}
