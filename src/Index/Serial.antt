-- ===== src/Index/Serial.antt =====
-- tinydb/index/btree.py: the form in which the nodes of an index are stored. A dict with known fields
-- is a record, a list of a kind and a key is a pair; the JSON text of it is not modelled.
pub mod RoundTrip
use tinydb_sueprflow.Prelude.{
  ℕ, ◌≡◌, Text, codes, text_eq, Bool, true, false, List, [], ◌∷◌, map, if◌then◌else◌,
}
use tinydb_sueprflow.Errors.{Result, ok, err, ◌>>=◌, Error, storage_error, bad_key_encoding}
use tinydb_sueprflow.Python.Float.{FloatOps}
use tinydb_sueprflow.Value.{Value, null, bool, int, float, text, truthy}
use tinydb_sueprflow.Index.Node.{RecordPointer, Entry, Node, node, Nodes, nil, cons}

-- Python's `int(x)`, `float(x)` and `str(x)`.
pub record Casts (F : Type 0) : Type 0 where
  pub to_int : Value F → Result (Value F)
  pub to_float : Value F → Result (Value F)
  pub to_str : Value F → Result (Value F)

-- Each leaves an object of its own type alone.
pub record CastLaws (F : Type 0) ⦃casts : Casts F⦄ : Type 0 where
  pub to_int-int : (n : _) → casts.to_int (int n) ≡ ok (int n)
  pub to_float-float : (x : F) → casts.to_float (float x) ≡ ok (float x)
  pub to_str-text : (s : Text) → casts.to_str (text s) ≡ ok (text s)

abbrev pub KeyData : Type 0 → Type 0
KeyData F = Text × Value F

pub record EntryData (F : Type 0) : Type 0 where
  pub key : KeyData F
  pub pointer : RecordPointer
  pub sequence : ℕ

mutual
  pub data NodeData (F : Type 0) : Type 0 where
    node_data : List (KeyData F) → List (EntryData F) → NodesData F → NodeData F

  pub data NodesData (F : Type 0) : Type 0 where
    no_nodes : NodesData F
    nodes : NodeData F → NodesData F → NodesData F

module _ {F : Type 0} where
  unfoldable pub serialize_key : Value F → KeyData F
  serialize_key (bool b) = (codes "bool", bool b)
  serialize_key (int n) = (codes "int", int n)
  serialize_key (float x) = (codes "float", float x)
  serialize_key v = (codes "str", v)

  unfoldable pub serialize_entry : Entry F → EntryData F
  unfolding serialize_key
  serialize_entry e = record {
    key = serialize_key e.key;
    pointer = e.pointer;
    sequence = e.sequence;
  }

unfoldable mutual
  pub serialize_node : {F : Type 0} → Node F → NodeData F
  serialize_node (node keys entries children) =
      node_data (map serialize_key keys) (map serialize_entry entries) (serialize_nodes children)

  pub serialize_nodes : {F : Type 0} → Nodes F → NodesData F
  serialize_nodes nil = no_nodes
  serialize_nodes (cons c cs) = nodes (serialize_node c) (serialize_nodes cs)

module _ {F : Type 0} ⦃fl : FloatOps F⦄ ⦃casts : Casts F⦄ where
  unfoldable pub deserialize_key : KeyData F → Result (Value F)
  unfolding text_eq truthy
  deserialize_key (kind, value) =
      if text_eq kind (codes "bool")
      then ok (bool (truthy value))
      else if text_eq kind (codes "int")
      then casts.to_int value
      else if text_eq kind (codes "float")
      then casts.to_float value
      else if text_eq kind (codes "str")
      then casts.to_str value
      else err (storage_error bad_key_encoding)

  unfoldable pub deserialize_entry : EntryData F → Result (Entry F)
  unfolding deserialize_key
  deserialize_entry raw = do
    key ← deserialize_key raw.key
    ok (record { key = key; pointer = raw.pointer; sequence = raw.sequence })

  unfoldable pub deserialize_keys : List (KeyData F) → Result (List (Value F))
  unfolding deserialize_key
  deserialize_keys [] = ok []
  deserialize_keys (k ∷ ks) =
      let later = deserialize_keys ks in do key ← deserialize_key k; keys ← later; ok (key ∷ keys)

  unfoldable pub deserialize_entries : List (EntryData F) → Result (List (Entry F))
  unfolding deserialize_entry
  deserialize_entries [] = ok []
  deserialize_entries (e ∷ es) =
      let later = deserialize_entries es in
      do entry ← deserialize_entry e; entries ← later; ok (entry ∷ entries)

unfoldable mutual
  pub deserialize_node :
      {F : Type 0} ⦃fl : FloatOps F⦄ ⦃casts : Casts F⦄ → NodeData F → Result (Node F)
  deserialize_node (node_data keys_data entries_data children_data) = do
    keys ← deserialize_keys keys_data
    entries ← deserialize_entries entries_data
    children ← deserialize_nodes children_data
    ok (node keys entries children)

  pub deserialize_nodes :
      {F : Type 0} ⦃fl : FloatOps F⦄ ⦃casts : Casts F⦄ → NodesData F → Result (Nodes F)
  deserialize_nodes no_nodes = ok nil
  deserialize_nodes (nodes n ns) = do
    c ← deserialize_node n
    cs ← deserialize_nodes ns
    ok (cons c cs)
