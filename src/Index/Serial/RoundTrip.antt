-- ===== src/Index/Serial/RoundTrip.antt =====
-- A stored node is read back as it was.
use tinydb_sueprflow.Prelude.{◌≡◌, refl, text_eq, false, List, [], ◌∷◌, map, All}
use tinydb_sueprflow.Errors.{ok}
use tinydb_sueprflow.Python.Float.{FloatOps}
use tinydb_sueprflow.Value.{Value, null, bool, int, float, text, truthy}
use tinydb_sueprflow.Index.Keys.{is_none}
use tinydb_sueprflow.Index.Node.{Entry, Node, node, Nodes, nil, cons}
use tinydb_sueprflow.Index.Serial.{
  Casts, CastLaws, serialize_key, serialize_entry, serialize_node, deserialize_key,
  deserialize_entry, deserialize_keys, deserialize_entries, deserialize_node, deserialize_nodes,
  serialize_nodes,
}

-- No key of the tree is None.
unfoldable mutual
  pub HasKeys : {F : Type 0} → Node F → Type 0
  HasKeys (node keys entries children) =
      All (λ k. is_none k ≡ false) keys
      × All (λ (e : Entry _). is_none e.key ≡ false) entries
      × HaveKeys children

  pub HaveKeys : {F : Type 0} → Nodes F → Type 0
  HaveKeys nil = Unit
  HaveKeys (cons c cs) = HasKeys c × HaveKeys cs

module _ {F : Type 0} ⦃fl : FloatOps F⦄ ⦃casts : Casts F⦄ ⦃laws : CastLaws F⦄ where
  key-back : (k : Value F) → is_none k ≡ false → deserialize_key (serialize_key k) ≡ ok k
  unfolding deserialize_key serialize_key text_eq truthy is_none
  key-back null h = cc
  key-back (bool b) h = refl
  key-back (int n) h = laws.to_int-int n
  key-back (float x) h = laws.to_float-float x
  key-back (text s) h = laws.to_str-text s

  keys-back :
      (ks : List (Value F))
      → All (λ k. is_none k ≡ false) ks
      → deserialize_keys (map serialize_key ks) ≡ ok ks
  unfolding deserialize_keys
  keys-back [] h = refl
  keys-back (k ∷ ks) h = rw (key-back k h.0, keys-back ks h.1) refl

  entries-back :
      (es : List (Entry F))
      → All (λ (e : Entry F). is_none e.key ≡ false) es
      → deserialize_entries (map serialize_entry es) ≡ ok es
  unfolding deserialize_entries deserialize_entry serialize_entry
  entries-back [] h = refl
  entries-back (e ∷ es) h = rw (key-back e.key h.0, entries-back es h.1) refl

mutual
  unfolding serialize_node deserialize_node HasKeys

  node-back :
      {F : Type 0} ⦃fl : FloatOps F⦄ ⦃casts : Casts F⦄ ⦃laws : CastLaws F⦄ (n : Node F)
      → HasKeys n
      → deserialize_node (serialize_node n) ≡ ok n
  node-back (node keys entries children) h =
      rw (keys-back keys h.0, entries-back entries h.1, nodes-back children h.2) refl

  nodes-back :
      {F : Type 0} ⦃fl : FloatOps F⦄ ⦃casts : Casts F⦄ ⦃laws : CastLaws F⦄ (cs : Nodes F)
      → HaveKeys cs
      → deserialize_nodes (serialize_nodes cs) ≡ ok cs
  nodes-back nil h = refl
  nodes-back (cons c cs) h = rw (node-back c h.0, nodes-back cs h.1) refl

module _ {F : Type 0} ⦃fl : FloatOps F⦄ ⦃casts : Casts F⦄ ⦃laws : CastLaws F⦄ where
  -- Storing a tree without a None key and reading it back gives the same tree, if `int`, `float` and
  -- `str` leave objects of their own types alone.
  pub deserialize_node-serialize_node :
      (n : Node F) → HasKeys n → deserialize_node (serialize_node n) ≡ ok n
  deserialize_node-serialize_node n h = node-back n h
