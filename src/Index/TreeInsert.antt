-- ===== src/Index/TreeInsert.antt =====
-- An insertion into an index keeps it in order.
use tinydb_sueprflow.Prelude.{
  ℕ, ◌+◌, ◌≤◌, ◌<◌, ◌≡◌, refl, sym, ap, ◌∙◌, subst, false, Option, none, some, List, [], ◌∷◌, ◌++◌,
  All, arith, ◌⊎◌, inl, inr, append-nil,
}
use tinydb_sueprflow.Errors.{ok}
use tinydb_sueprflow.Python.Float.{FloatOps}
use tinydb_sueprflow.Value.{Value}
use tinydb_sueprflow.Index.Keys.{is_none, normalize_key}
use tinydb_sueprflow.Index.Node.{RecordPointer, Entry, Node, nil, cons, walk, empty_node}
use tinydb_sueprflow.Index.Order.{
  KeyDomain, IsSorted, insert_sorted, insert_sorted-IsSorted, All-insert_sorted, Keys,
}
use tinydb_sueprflow.Index.Insert.{insert_into_node}
use tinydb_sueprflow.Index.Filled.{Filled, make_internal-Filled}
use tinydb_sueprflow.Index.InsertParts.{Makes, Ready, pair_walk, PairFilled, leaf-Makes}
use tinydb_sueprflow.Index.InsertWalk.{insert_into_node-Makes}
use tinydb_sueprflow.Index.Tree.{BTreeIndex, new_entry, grow_root, insert}

module _ {F : Type 0} ⦃fl : FloatOps F⦄ where
  -- The invariant of an index: an order of at least three; a root that is empty, or whose leaves have
  -- entries and whose separators are the greatest keys of the children; keys of one domain; entries
  -- in order; and sequence numbers below the next one.
  pub record IsValid (P : Value F → Type 0) (index : BTreeIndex F) : Type 0 where
    pub wide : 3 ≤ index.order
    pub filled : (index.root ≡ empty_node) ⊎ Filled index.root
    pub keys : Keys P (walk index.root)
    pub sorted : IsSorted (walk index.root)
    pub older : All (λ (x : Entry F). x.sequence < index.next_sequence_value) (walk index.root)

  grow_root-Makes :
      (r : Node F × Option (Node F))
      → PairFilled r
      → (n : Node F) × (grow_root r ≡ ok n) × (walk n ≡ pair_walk r) × Filled n
  unfolding grow_root walk
  grow_root-Makes (n, none) h = (n, refl, refl, h)
  grow_root-Makes (n, some s) h =
      let (root, made, filled, same) =
        make_internal-Filled (cons n (cons s nil)) (unfold Filled in (h.0, (h.1, tt)))
          (omega arith) in
      (root, made, same ∙ ap (λ (l : List (Entry F)). walk n ++ l) (append-nil (walk s)), filled)

older-suc :
    {F : Type 0} (n : ℕ) (xs : List (Entry F))
    → All (λ (x : Entry F). x.sequence < n) xs
    → All (λ (x : Entry F). x.sequence < n + 1) xs
older-suc n [] h = tt
older-suc n (x ∷ xs) h = (omega (arith, h.0), older-suc n xs h.1)

module _ {F : Type 0} ⦃fl : FloatOps F⦄ {P : Value F → Type 0} (dom : KeyDomain P) where
  root-Makes :
      (order : ℕ) (e : Entry F) (n : Node F)
      → 3 ≤ order
      → (n ≡ empty_node) ⊎ Filled n
      → Ready P e (walk n)
      → Makes (insert_into_node order n e) (insert_sorted e (walk n))
  root-Makes order e n big (inr filled) ready =
      insert_into_node-Makes dom order e n big filled ready
  root-Makes order e n big (inl empty) ready =
      subst (λ m. Makes (insert_into_node order m e) (insert_sorted e (walk m))) (sym empty)
        (unfold insert_into_node in unfold walk in leaf-Makes dom order e [] big ready.new_key tt)

  -- Inserting a key that is not None and belongs to the keys' domain into a valid index succeeds.
  -- The new index is valid again, and its entries from left to right are the old ones with the new
  -- one behind every entry whose key is not greater.
  pub insert-IsValid :
      (index : BTreeIndex F) (key : Value F) (pointer : RecordPointer)
      → IsValid P index
      → P key
      → is_none key ≡ false
      → (grown : BTreeIndex F) × (insert index key pointer ≡ ok grown)
        × (walk grown.root ≡ insert_sorted (new_entry index key pointer) (walk index.root))
        × IsValid P grown
  unfolding insert normalize_key
  insert-IsValid index key pointer valid p some_key =
      let e = new_entry index key pointer in
      let ready : Ready P e (walk index.root) = record {
        new_key = p;
        keys = valid.keys;
        sorted = valid.sorted;
        older = valid.older;
      } in
      let (r, made, same, filled) =
        root-Makes index.order e index.root valid.wide valid.filled ready in
      let (root, grown, flat, full) = grow_root-Makes r filled in
      let whole : walk root ≡ insert_sorted e (walk index.root) = flat ∙ same in
      let Older : Entry F → Type 0 = λ x. x.sequence < index.next_sequence_value + 1 in
      (
        record {
          order = index.order;
          next_sequence_value = index.next_sequence_value + 1;
          root = root;
        },
        rw (some_key, made, grown) refl,
        whole,
        record {
          wide = valid.wide;
          filled = inr full;
          keys =
              subst (Keys P) (sym whole)
                (All-insert_sorted (λ (x : Entry F). P x.key) e (walk index.root) p valid.keys);
          sorted =
              subst IsSorted (sym whole)
                (insert_sorted-IsSorted dom e (walk index.root) p valid.keys valid.sorted);
          older =
              subst (λ l. All Older l) (sym whole)
                (All-insert_sorted Older e (walk index.root) (omega arith)
                  (older-suc index.next_sequence_value (walk index.root) valid.older));
        },
      )
