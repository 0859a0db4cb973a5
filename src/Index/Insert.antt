-- ===== src/Index/Insert.antt =====
-- tinydb/index/btree.py: insertion of an entry into a tree.
use tinydb_sueprflow.Prelude.{
  ℕ, zero, suc, Option, none, some, List, [], ◌∷◌, ◌++◌, length, take, drop, leb, if◌then◌else◌,
}
use tinydb_sueprflow.Errors.{Result, ok, err, ◌>>=◌, index_error}
use tinydb_sueprflow.Python.Int.{is_greater, is_less}
use tinydb_sueprflow.Python.Float.{FloatOps}
use tinydb_sueprflow.Value.{Value}
use tinydb_sueprflow.Index.Keys.{compare_keys}
use tinydb_sueprflow.Index.Node.{
  Entry, Node, node, Nodes, nil, cons, count, compare_entries, make_leaf, make_internal, split_leaf,
  split_internal, max_leaf_entries,
}

module _ {F : Type 0} ⦃fl : FloatOps F⦄ where
  -- The loop of `_entry_insert_position`: how many entries stand before the first greater one.
  unfoldable pub entry_insert_position : List (Entry F) → Entry F → Result ℕ
  entry_insert_position [] entry = ok 0
  entry_insert_position (e ∷ es) entry =
      let later = entry_insert_position es entry in
      do o ← compare_entries e entry; if is_greater o then ok 0 else do p ← later; ok (suc p)

  -- The loop of `_child_index_for_key`: how many separators are at most the key.
  unfoldable pub child_index_for_key : List (Value F) → Value F → Result ℕ
  child_index_for_key [] key = ok 0
  child_index_for_key (k ∷ ks) key =
      let later = child_index_for_key ks key in
      do o ← compare_keys key k; if is_less o then ok 0 else do p ← later; ok (suc p)

  -- A leaf, split in two if it has grown too large.
  unfoldable pub insert_into_leaf : ℕ → List (Entry F) → Entry F → Result (Node F × Option (Node F))
  unfolding make_leaf split_leaf
  insert_into_leaf order entries entry = do
    position ← entry_insert_position entries entry
    let grown = take position entries ++ entry ∷ drop position entries
    ok (
        if leb (length grown) (max_leaf_entries order)
        then (make_leaf grown, none)
        else ((split_leaf grown).0, some (split_leaf grown).1))

module _ {F : Type 0} where
  -- An internal node over new children, split in two if there are too many.
  unfoldable pub rebuild : ℕ → Nodes F → Result (Node F × Option (Node F))
  unfolding make_internal split_internal
  rebuild order children = do
    internal ← make_internal children
    if leb (count children) order
        then ok (internal, none)
        else do halves ← split_internal children; ok (halves.0, some halves.1)

  -- `children[child_index] = child`, and the new sibling behind it.
  abbrev pub put_child : Node F × Option (Node F) → Nodes F → Nodes F
  put_child (child, none) rest = cons child rest
  put_child (child, some split) rest = cons child (cons split rest)

unfoldable mutual
  pub insert_into_node :
      {F : Type 0} ⦃fl : FloatOps F⦄ → ℕ → Node F → Entry F → Result (Node F × Option (Node F))
  insert_into_node order (node keys entries nil) entry = insert_into_leaf order entries entry
  insert_into_node order (node keys entries children) entry = do
    i ← child_index_for_key keys entry.key
    grown ← insert_into_child order children i entry
    rebuild order grown

  -- `children[child_index]`, which has to be there
  pub insert_into_child :
      {F : Type 0} ⦃fl : FloatOps F⦄ → ℕ → Nodes F → ℕ → Entry F → Result (Nodes F)
  insert_into_child order nil i entry = err index_error
  insert_into_child order (cons c cs) zero entry = do
    inserted ← insert_into_node order c entry
    ok (put_child inserted cs)
  insert_into_child order (cons c cs) (suc i) entry = do
    rest ← insert_into_child order cs i entry
    ok (cons c rest)
