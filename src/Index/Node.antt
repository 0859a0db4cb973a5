-- ===== src/Index/Node.antt =====
-- tinydb/index/btree.py: entries, nodes, and how a node is put together.
use tinydb_sueprflow.Prelude.{
  ℕ, zero, suc, ◌+◌, ◌-◌, ◌/◌, Text, Bool, true, false, List, [], ◌∷◌, ◌++◌, map, length, take,
  drop, max,
}
use tinydb_sueprflow.Errors.{Result, ok, err, ◌>>=◌, index_error}
use tinydb_sueprflow.Python.Int.{Order, less, equal, greater, compare_ℕ}
use tinydb_sueprflow.Python.Float.{FloatOps}
use tinydb_sueprflow.Value.{Value}
use tinydb_sueprflow.Index.Keys.{compare_keys}

-- tinydb/storage/table.py
pub record RecordPointer : Type 0 where
  pub table : Text
  pub page_id : ℕ
  pub slot : ℕ

pub record Entry (F : Type 0) : Type 0 where
  pub key : Value F
  pub pointer : RecordPointer
  pub sequence : ℕ

-- A node has keys, entries and children; a leaf is a node with no children.
mutual
  pub data Node (F : Type 0) : Type 0 where
    node : List (Value F) → List (Entry F) → Nodes F → Node F

  pub data Nodes (F : Type 0) : Type 0 where
    nil : Nodes F
    cons : Node F → Nodes F → Nodes F

-- the sequence numbers decide between equal keys
unfoldable pub break_tie : Order → Order → Order
break_tie equal o = o
break_tie less o = less
break_tie greater o = greater

module _ {F : Type 0} ⦃fl : FloatOps F⦄ where
  unfoldable pub compare_entries : Entry F → Entry F → Result Order
  compare_entries left right = do
    key_order ← compare_keys left.key right.key
    ok (break_tie key_order (compare_ℕ left.sequence right.sequence))

module _ {F : Type 0} where
  abbrev pub entry_key : Entry F → Value F
  entry_key e = e.key

  -- The empty tree, `_Node(())`.
  abbrev pub empty_node : Node F
  empty_node = node [] [] nil

  unfoldable pub is_empty_node : Node F → Bool
  is_empty_node (node keys [] nil) = true
  is_empty_node (node keys entries children) = false

  abbrev pub count : Nodes F → ℕ
  count nil = 0
  count (cons c cs) = suc (count cs)

  abbrev pub append_nodes : Nodes F → Nodes F → Nodes F
  append_nodes nil ds = ds
  append_nodes (cons c cs) ds = cons c (append_nodes cs ds)

  -- `children[:n]` and `children[n:]`
  abbrev pub take_nodes : ℕ → Nodes F → Nodes F
  take_nodes zero cs = nil
  take_nodes (suc n) nil = nil
  take_nodes (suc n) (cons c cs) = cons c (take_nodes n cs)

  abbrev pub drop_nodes : ℕ → Nodes F → Nodes F
  drop_nodes zero cs = cs
  drop_nodes (suc n) nil = nil
  drop_nodes (suc n) (cons c cs) = drop_nodes n cs

  -- `entries[-1].key`
  abbrev pub last_key : List (Entry F) → Result (Value F)
  last_key [] = err index_error
  last_key (e ∷ []) = ok e.key
  last_key (e ∷ f ∷ es) = last_key (f ∷ es)

-- The entries of a tree from left to right.
unfoldable mutual
  pub walk : {F : Type 0} → Node F → List (Entry F)
  walk (node keys entries nil) = entries
  walk (node keys entries children) = walk_nodes children

  pub walk_nodes : {F : Type 0} → Nodes F → List (Entry F)
  walk_nodes nil = []
  walk_nodes (cons c cs) = walk c ++ walk_nodes cs

unfoldable mutual
  pub max_key : {F : Type 0} → Node F → Result (Value F)
  max_key (node keys entries nil) = last_key entries
  max_key (node keys entries children) = max_key_of_last children

  -- `_max_key(node.children[-1])`
  pub max_key_of_last : {F : Type 0} → Nodes F → Result (Value F)
  max_key_of_last nil = err index_error
  max_key_of_last (cons c nil) = max_key c
  max_key_of_last (cons c cs) = max_key_of_last cs

module _ {F : Type 0} where
  -- The greatest key of each child but the last.
  unfoldable pub separator_keys : Nodes F → Result (List (Value F))
  separator_keys nil = ok []
  separator_keys (cons c nil) = ok []
  separator_keys (cons c (cons d ds)) =
      let later = separator_keys (cons d ds) in do k ← max_key c; ks ← later; ok (k ∷ ks)

  unfoldable pub make_leaf : List (Entry F) → Node F
  make_leaf entries = node (map entry_key entries) entries nil

  unfoldable pub make_internal : Nodes F → Result (Node F)
  make_internal children = do keys ← separator_keys children; ok (node keys [] children)

  unfoldable pub split_leaf : List (Entry F) → Node F × Node F
  unfolding make_leaf
  split_leaf entries =
      let split_at = length entries / 2 in
      (make_leaf (take split_at entries), make_leaf (drop split_at entries))

  unfoldable pub split_internal : Nodes F → Result (Node F × Node F)
  unfolding make_internal
  split_internal children =
      let split_at = count children / 2 in
      do
        left ← make_internal (take_nodes split_at children)
        right ← make_internal (drop_nodes split_at children)
        ok (left, right)

unfoldable pub max_leaf_entries : ℕ → ℕ
max_leaf_entries order = order - 1

unfoldable pub min_children : ℕ → ℕ
min_children order = (order + 1) / 2

unfoldable pub min_leaf_entries : ℕ → ℕ
unfolding min_children
min_leaf_entries order = max 1 (min_children order - 1)
