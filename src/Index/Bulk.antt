-- ===== src/Index/Bulk.antt =====
-- tinydb/index/btree.py: building a tree from sorted entries, level by level.
use tinydb_sueprflow.Prelude.{
  ℕ, zero, suc, ◌+◌, ◌-◌, ◌/◌, ◌%◌, ◌&&◌, List, [], ◌∷◌, length, take, drop, leb, ltb,
  if◌then◌else◌,
}
use tinydb_sueprflow.Errors.{Result, ok, err, ◌>>=◌, index_error, out_of_fuel}
use tinydb_sueprflow.Index.Node.{
  Entry, Node, Nodes, nil, cons, count, take_nodes, drop_nodes, empty_node, make_leaf,
  make_internal, max_leaf_entries, min_leaf_entries, min_children,
}

-- `while count > 1 and total // count < min_size: count -= 1`
unfoldable pub lower_count : ℕ → ℕ → ℕ → ℕ
lower_count total min_size zero = zero
lower_count total min_size (suc c) =
    let lower = lower_count total min_size c in
    if ltb 1 (suc c) && ltb (total / suc c) min_size then lower else suc c

-- `base + (1 if position < remainder else 0)` for `n` positions on from `position`
unfoldable pub sizes_from : ℕ → ℕ → ℕ → ℕ → List ℕ
sizes_from base remainder position zero = []
sizes_from base remainder position (suc n) =
    (base + (if ltb position remainder then 1 else 0)) ∷ sizes_from base remainder (position + 1) n

unfoldable pub balanced_sizes : ℕ → ℕ → ℕ → List ℕ
balanced_sizes total max_size min_size =
    if leb total max_size
    then total ∷ []
    else let n = lower_count total min_size ((total + max_size - 1) / max_size) in
      sizes_from (total / n) (total % n) 0 n

-- The loop of `_sized_offsets`, with the running offset.
unfoldable pub offsets_from : ℕ → List ℕ → List (ℕ × ℕ)
offsets_from offset [] = []
offsets_from offset (size ∷ sizes) = (offset, size) ∷ offsets_from (offset + size) sizes

unfoldable pub sized_offsets : List ℕ → List (ℕ × ℕ)
sized_offsets sizes = offsets_from 0 sizes

module _ {F : Type 0} where
  -- `[_make_leaf(entries[offset : offset + size]) for offset, size in ...]`
  unfoldable pub leaf_level : List (Entry F) → List (ℕ × ℕ) → Nodes F
  leaf_level entries [] = nil
  leaf_level entries ((offset, size) ∷ rest) =
      cons (make_leaf (take size (drop offset entries))) (leaf_level entries rest)

  -- `[_make_internal(tuple(level[offset : offset + size])) for offset, size in ...]`
  unfoldable pub internal_level : Nodes F → List (ℕ × ℕ) → Result (Nodes F)
  internal_level level [] = ok nil
  internal_level level ((offset, size) ∷ rest) =
      let later = internal_level level rest in
      do n ← make_internal (take_nodes size (drop_nodes offset level)); ns ← later; ok (cons n ns)

  unfoldable pub next_level : ℕ → Nodes F → Result (Nodes F)
  unfolding internal_level
  next_level order level =
      internal_level level (sized_offsets (balanced_sizes (count level) order (min_children order)))

  -- `while len(level) > 1`, and then `level[0]`
  unfoldable pub raise_levels : ℕ → ℕ → Nodes F → Result (Node F)
  raise_levels fuel order nil = err index_error
  raise_levels fuel order (cons n nil) = ok n
  raise_levels zero order (cons n (cons m ns)) = err out_of_fuel
  raise_levels (suc fuel) order (cons n (cons m ns)) = do
    level ← next_level order (cons n (cons m ns))
    raise_levels fuel order level

  -- A level has fewer nodes than the one below it, so that many rounds are enough.
  unfoldable pub bulk_load_entries : List (Entry F) → ℕ → Result (Node F)
  bulk_load_entries [] order = ok empty_node
  bulk_load_entries (e ∷ es) order =
      let entries = e ∷ es in
      let level = leaf_level entries (
        sized_offsets
          (balanced_sizes (length entries) (max_leaf_entries order) (min_leaf_entries order))) in
      raise_levels (count level) order level
