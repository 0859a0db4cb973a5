-- ===== src/Index/BulkWalk.antt =====
-- A tree that is built from sorted entries holds exactly these entries, and building it succeeds.
use native.Mathlib.Nat.{suc-add}
use tinydb_sueprflow.Prelude.{
  ℕ, zero, suc, ◌+◌, ◌-◌, ◌/◌, ◌≤◌, ◌<◌, ◌≡◌, refl, sym, ap, ◌∙◌, List, [], ◌∷◌, ◌++◌, length,
  length-take, length-drop, take, drop, take-add, drop-drop, take-length, append-nil, append_assoc,
  arith, max, ◌⊎◌, inl, inr,
}
use tinydb_sueprflow.Errors.{Result, ok}
use tinydb_sueprflow.Index.Node.{
  Entry, Node, Nodes, nil, cons, count, take_nodes, drop_nodes, walk, walk_nodes, empty_node,
  make_leaf, max_leaf_entries, min_leaf_entries, min_children,
}
use tinydb_sueprflow.Index.Bulk.{
  balanced_sizes, offsets_from, sized_offsets, leaf_level, internal_level, next_level, raise_levels,
  bulk_load_entries,
}
use tinydb_sueprflow.Index.Sizes.{
  sum, sum-balanced_sizes, Within, balanced_sizes-Within_lo, length-le-sum,
}
use tinydb_sueprflow.Index.Filled.{
  Filled, AllFilled, make_internal-Filled, AllFilled-take, AllFilled-drop, count-take, count-drop,
}

some_size : (sizes : List ℕ) (n : ℕ) → n ≡ length sizes → 0 < sum sizes → 0 < n
some_size [] n e p = absurd (omega arith)
some_size (s ∷ sizes) n e p = omega (arith, e)

module _ {F : Type 0} where
  -- The groups of a list, side by side, are the list.
  walk-leaf_level :
      (entries : List (Entry F)) (offset : ℕ) (sizes : List ℕ)
      → walk_nodes (leaf_level entries (offsets_from offset sizes))
        ≡ take (sum sizes) (drop offset entries)
  unfolding leaf_level offsets_from walk make_leaf
  walk-leaf_level entries offset [] = refl
  walk-leaf_level entries offset (s ∷ sizes) =
      ap (λ (l : List (Entry F)). take s (drop offset entries) ++ l)
        (walk-leaf_level entries (offset + s) sizes
          ∙ ap (take (sum sizes)) (sym (drop-drop offset s entries)))
      ∙ take-add s (sum sizes) (drop offset entries)

  leaf_level-AllFilled :
      (entries : List (Entry F)) (offset hi : ℕ) (sizes : List ℕ)
      → Within 1 hi sizes
      → offset + sum sizes ≤ length entries
      → AllFilled (leaf_level entries (offsets_from offset sizes))
  unfolding leaf_level offsets_from Filled make_leaf
  leaf_level-AllFilled entries offset hi [] h p = tt
  leaf_level-AllFilled entries offset hi (s ∷ sizes) h p = (
    omega (arith, length-take s (drop offset entries), length-drop offset entries),
    leaf_level-AllFilled entries (offset + s) hi sizes h.1 (omega arith),
  )

  count-leaf_level :
      (entries : List (Entry F)) (offset : ℕ) (sizes : List ℕ)
      → count (leaf_level entries (offsets_from offset sizes)) ≡ length sizes
  unfolding leaf_level offsets_from
  count-leaf_level entries offset [] = refl
  count-leaf_level entries offset (s ∷ sizes) = ap suc (count-leaf_level entries (offset + s) sizes)

  drop_nodes-nil : (n : ℕ) → drop_nodes {F = F} n nil ≡ nil
  drop_nodes-nil zero = refl
  drop_nodes-nil (suc n) = refl

  take_nodes-nil : (n : ℕ) → take_nodes {F = F} n nil ≡ nil
  take_nodes-nil zero = refl
  take_nodes-nil (suc n) = refl

  drop_nodes-drop_nodes :
      (m n : ℕ) (cs : Nodes F) → drop_nodes n (drop_nodes m cs) ≡ drop_nodes (m + n) cs
  drop_nodes-drop_nodes zero n cs = ap (λ k. drop_nodes k cs) (omega arith)
  drop_nodes-drop_nodes (suc m) n nil = rw (suc-add m n) (drop_nodes-nil n)
  drop_nodes-drop_nodes (suc m) n (cons c cs) = rw (suc-add m n) (drop_nodes-drop_nodes m n cs)

  walk-take_nodes_add :
      (m n : ℕ) (cs : Nodes F)
      → walk_nodes (take_nodes m cs) ++ walk_nodes (take_nodes n (drop_nodes m cs))
        ≡ walk_nodes (take_nodes (m + n) cs)
  unfolding walk
  walk-take_nodes_add zero n cs = ap (λ k. walk_nodes (take_nodes k cs)) (omega arith)
  walk-take_nodes_add (suc m) n nil = rw (suc-add m n) (ap walk_nodes (take_nodes-nil n))
  walk-take_nodes_add (suc m) n (cons c cs) = rw (suc-add m n) (
      append_assoc (walk c) (walk_nodes (take_nodes m cs))
        (walk_nodes (take_nodes n (drop_nodes m cs)))
      ∙ ap (λ (l : List (Entry F)). walk c ++ l) (walk-take_nodes_add m n cs))

  -- The entries of the nodes `offset` to `offset + n` of a level.
  abbrev span : Nodes F → ℕ → ℕ → List (Entry F)
  span level offset n = walk_nodes (take_nodes n (drop_nodes offset level))

  span-add :
      (level : Nodes F) (offset m n : ℕ)
      → span level offset m ++ span level (offset + m) n ≡ span level offset (m + n)
  span-add level offset m n =
      ap (λ (cs : Nodes F). span level offset m ++ walk_nodes (take_nodes n cs))
        (sym (drop_nodes-drop_nodes offset m level))
      ∙ walk-take_nodes_add m n (drop_nodes offset level)

  -- One level above: as many nodes as groups, over the same entries.
  abbrev Above : Nodes F → ℕ → List ℕ → Type 0
  Above level offset sizes =
      (ns : Nodes F) × (internal_level level (offsets_from offset sizes) ≡ ok ns)
      × (walk_nodes ns ≡ span level offset (sum sizes))
      × AllFilled ns
      × (count ns ≡ length sizes)

  internal_level-Above :
      (level : Nodes F) (offset hi : ℕ) (sizes : List ℕ)
      → AllFilled level
      → Within 2 hi sizes
      → offset + sum sizes ≤ count level
      → Above level offset sizes
  unfolding internal_level offsets_from walk Filled
  internal_level-Above level offset hi [] filled h p = (nil, refl, refl, tt, refl)
  internal_level-Above level offset hi (s ∷ sizes) filled h p =
      let group = take_nodes s (drop_nodes offset level) in
      let wide = count-drop offset level in
      let size = count-take s (drop_nodes offset level) (omega (arith, wide)) in
      let (n, made, fn, wn) =
        make_internal-Filled group
          (AllFilled-take s (drop_nodes offset level) (AllFilled-drop offset level filled))
          (omega (arith, size)) in
      let (ns, later, ws, fs, cs) =
        internal_level-Above level (offset + s) hi sizes filled h.1 (omega arith) in
      (
        cons n ns,
        rw (made, later),
        ap (λ (l : List (Entry F)). l ++ walk_nodes ns) wn
            ∙ ap (λ (l : List (Entry F)). span level offset s ++ l) ws
            ∙ span-add level offset s (sum sizes),
        (fn, fs),
        ap suc cs,
      )

  take_nodes-count : (cs : Nodes F) → take_nodes (count cs) cs ≡ cs
  take_nodes-count nil = refl
  take_nodes-count (cons c cs) = ap (cons c) (take_nodes-count cs)

  -- What is asked of a level on the way up, and what comes of it.
  abbrev Raised : Nodes F → Result (Node F) → Type 0
  Raised level r = (n : Node F) × (r ≡ ok n) × (walk n ≡ walk_nodes level) × Filled n

  next_level-Above :
      (order : ℕ) (level : Nodes F)
      → 3 ≤ order
      → AllFilled level
      → 2 ≤ count level
      → (ns : Nodes F) × (next_level order level ≡ ok ns)
        × (walk_nodes ns ≡ walk_nodes level)
        × AllFilled ns
        × (0 < count ns)
        × (count ns < count level)
  unfolding next_level sized_offsets min_children
  next_level-Above order level h filled many =
      let half = (order + 1) / 2 in
      let sizes = balanced_sizes (count level) order half in
      let total = sum-balanced_sizes (count level) order half (omega arith) in
      let within =
        balanced_sizes-Within_lo 2 (count level) order half (omega arith) (omega arith)
          (omega arith) many in
      let (ns, made, ws, fs, cs) =
        internal_level-Above level 0 order sizes filled within (omega (arith, total)) in
      let fewer = length-le-sum order sizes within in
      (
        ns,
        made,
        ws ∙ ap (span level 0) total ∙ ap walk_nodes (take_nodes-count level),
        fs,
        some_size sizes (count ns) cs (omega (arith, total)),
        omega (arith, fewer, total, cs),
      )

  raise_levels-Raised :
      (fuel order : ℕ) (level : Nodes F)
      → 3 ≤ order
      → AllFilled level
      → 0 < count level
      → count level ≤ fuel + 1
      → Raised level (raise_levels fuel order level)
  unfolding raise_levels walk Filled
  raise_levels-Raised fuel order nil h filled p q = absurd (omega arith)
  raise_levels-Raised fuel order (cons n nil) h filled p q =
      (n, refl, sym (append-nil (walk n)), filled.0)
  raise_levels-Raised zero order (cons n (cons m ns)) h filled p q = absurd (omega arith)
  raise_levels-Raised (suc fuel) order (cons n (cons m ns)) h filled p q =
      let (level, made, w, f, some_, fewer) =
        next_level-Above order (cons n (cons m ns)) h filled (omega arith) in
      let (root, done_, wr, fr) = raise_levels-Raised fuel order level h f some_ (omega arith) in
      (root, rw (made, done_), wr ∙ w, fr)

  -- Entries that are bulk loaded into a tree of an order of at least three give a tree, never an
  -- error, and its walk from left to right yields exactly these entries in their order. If there
  -- are any, every leaf of the tree has an entry and every internal node has a child.
  pub bulk_load_entries-walk :
      (order : ℕ) (entries : List (Entry F))
      → 3 ≤ order
      → (n : Node F) × (bulk_load_entries entries order ≡ ok n)
        × (walk n ≡ entries)
        × ((entries ≡ []) ⊎ Filled n)
  unfolding bulk_load_entries walk sized_offsets max_leaf_entries min_leaf_entries min_children
  bulk_load_entries-walk order [] h = (empty_node, refl, refl, inl refl)
  bulk_load_entries-walk order (e ∷ es) h =
      let entries = e ∷ es in
      let least = max 1 ((order + 1) / 2 - 1) in
      let sizes = balanced_sizes (length entries) (order - 1) least in
      let level = leaf_level entries (offsets_from 0 sizes) in
      let total = sum-balanced_sizes (length entries) (order - 1) least (omega arith) in
      let within =
        balanced_sizes-Within_lo 1 (length entries) (order - 1) least (omega arith) (omega arith)
          (omega arith) (omega arith) in
      let filled = leaf_level-AllFilled entries 0 (order - 1) sizes within (omega (arith, total)) in
      let wide = count-leaf_level entries 0 sizes in
      let (n, made, w, f) =
        raise_levels-Raised (count level) order level h filled
          (some_size sizes (count level) wide (omega (arith, total))) (omega arith) in
      (
        n,
        made,
        w ∙ walk-leaf_level entries 0 sizes ∙ ap (λ k. take k entries) total ∙ take-length entries,
        inr f,
      )
