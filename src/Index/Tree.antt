-- ===== src/Index/Tree.antt =====
-- tinydb/index/btree.py: the index in memory and its operations. Writing it to the storage, which
-- each change ends with, is not part of the model.
use tinydb_sueprflow.Prelude.{
  ℕ, ◌+◌, text_eq, Bool, true, false, not, ◌&&◌, ◌||◌, Option, none, some, List, [], ◌∷◌, map,
  if◌then◌else◌, ◌==◌,
}
use tinydb_sueprflow.Errors.{Result, ok, ◌>>=◌}
use tinydb_sueprflow.Python.Int.{is_same}
use tinydb_sueprflow.Python.Float.{FloatOps}
use tinydb_sueprflow.Value.{Value}
use tinydb_sueprflow.Index.Keys.{
  normalize_key, compare_keys, IndexLookup, equal_to, range, matches_key,
}
use tinydb_sueprflow.Index.Node.{
  RecordPointer, Entry, Node, node, Nodes, nil, cons, walk, make_leaf, make_internal, is_empty_node,
  empty_node,
}
use tinydb_sueprflow.Index.Insert.{insert_into_node}
use tinydb_sueprflow.Index.Bulk.{bulk_load_entries}

pub record BTreeIndex (F : Type 0) : Type 0 where
  pub order : ℕ
  pub next_sequence_value : ℕ
  pub root : Node F

abbrev pub pointer_eq : RecordPointer → RecordPointer → Bool
pointer_eq p q = text_eq p.table q.table && (p.page_id == q.page_id && p.slot == q.slot)

-- `pointer is None or entry.pointer == pointer`
abbrev pub pointer_matches : Option RecordPointer → RecordPointer → Bool
pointer_matches none p = true
pointer_matches (some q) p = pointer_eq p q

module _ {F : Type 0} where
  abbrev pub new_entry : BTreeIndex F → Value F → RecordPointer → Entry F
  new_entry index key pointer = record {
    key = key;
    pointer = pointer;
    sequence = index.next_sequence_value;
  }

  -- The root over what an insertion returned: a new one if the old root was split.
  unfoldable pub grow_root : Node F × Option (Node F) → Result (Node F)
  unfolding make_internal
  grow_root (root, none) = ok root
  grow_root (root, some split) = make_internal (cons root (cons split nil))

module _ {F : Type 0} ⦃fl : FloatOps F⦄ where
  unfoldable pub insert : BTreeIndex F → Value F → RecordPointer → Result (BTreeIndex F)
  unfolding normalize_key insert_into_node grow_root
  insert index key pointer = do
    scalar ← normalize_key key
    inserted ← insert_into_node index.order index.root (new_entry index scalar pointer)
    root ← grow_root inserted
    ok (record {
      order = index.order;
      next_sequence_value = index.next_sequence_value + 1;
      root = root;
    })

  -- The entries of a leaf that stay, and whether one went.
  unfoldable pub delete_from_leaf :
      List (Entry F) → Value F → Option RecordPointer → Result (List (Entry F) × Bool)
  delete_from_leaf [] key pointer = ok ([], false)
  delete_from_leaf (e ∷ es) key pointer =
      let later = delete_from_leaf es key pointer in
      do
        o ← compare_keys e.key key
        (remaining, removed) ← later
        ok (
            if is_same o && pointer_matches pointer e.pointer
            then (remaining, true)
            else (e ∷ remaining, removed))

module _ {F : Type 0} where
  -- An internal node over what is left of its children: none, one that takes its place, or more.
  unfoldable pub shrink : Nodes F → Result (Node F)
  unfolding make_internal
  shrink nil = ok empty_node
  shrink (cons c nil) = ok c
  shrink (cons c (cons d ds)) = make_internal (cons c (cons d ds))

  -- `if not _is_empty_node(new_child): children.append(new_child)`
  unfoldable pub keep_child : Node F → Nodes F → Nodes F
  unfolding is_empty_node
  keep_child c cs = if is_empty_node c then cs else cons c cs

unfoldable mutual
  pub delete_from_node :
      {F : Type 0} ⦃fl : FloatOps F⦄
      → Node F
      → Value F
      → Option RecordPointer
      → Result (Node F × Bool)
  delete_from_node (node keys entries nil) key pointer = do
    (remaining, removed) ← delete_from_leaf entries key pointer
    ok (make_leaf remaining, removed)
  delete_from_node (node keys entries children) key pointer = do
    (left, removed) ← delete_from_nodes children key pointer
    n ← shrink left
    ok (n, removed)

  pub delete_from_nodes :
      {F : Type 0} ⦃fl : FloatOps F⦄
      → Nodes F
      → Value F
      → Option RecordPointer
      → Result (Nodes F × Bool)
  delete_from_nodes nil key pointer = ok (nil, false)
  delete_from_nodes (cons c cs) key pointer = do
    (child, child_removed) ← delete_from_node c key pointer
    (later, removed) ← delete_from_nodes cs key pointer
    ok (keep_child child later, child_removed || removed)

module _ {F : Type 0} ⦃fl : FloatOps F⦄ where
  unfoldable pub delete : BTreeIndex F → Value F → Option RecordPointer → Result (BTreeIndex F)
  unfolding normalize_key delete_from_node walk bulk_load_entries
  delete index key pointer = do
    scalar ← normalize_key key
    (left, removed) ← delete_from_node index.root scalar pointer
    if not removed then ok index else do
      root ← bulk_load_entries (walk left) index.order
      ok (record {
        order = index.order;
        next_sequence_value = index.next_sequence_value;
        root = root;
      })

  -- The pointers of the entries that a lookup matches, in their order.
  unfoldable pub matching : IndexLookup F → List (Entry F) → Result (List RecordPointer)
  unfolding matches_key
  matching lookup [] = ok []
  matching lookup (e ∷ es) =
      let later = matching lookup es in
      do b ← matches_key lookup e.key; ps ← later; ok (if b then e.pointer ∷ ps else ps)

  -- `equal`, `range` and `IndexLookup.matches`. The key is normalized before any entry is read.
  unfoldable pub matches : IndexLookup F → BTreeIndex F → Result (List RecordPointer)
  unfolding matching normalize_key walk
  matches (equal_to key) index = do
    scalar ← normalize_key key
    matching (equal_to scalar) (walk index.root)
  matches (range start end include_start include_end) index =
      matching (range start end include_start include_end) (walk index.root)

module _ {F : Type 0} where
  unfoldable pub traverse : BTreeIndex F → List (Value F × RecordPointer)
  unfolding walk
  traverse index = map (λ (e : Entry F). (e.key, e.pointer)) (walk index.root)
