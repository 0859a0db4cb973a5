-- ===== src/Index/TreeDelete.antt =====
-- A deletion from an index removes exactly the entries that match.
use tinydb_sueprflow.Prelude.{
  ℕ, ◌≤◌, ◌<◌, ◌≡◌, refl, sym, ap, ◌∙◌, subst, Bool, true, false, not, ◌&&◌, ◌||◌, Option, List, [],
  ◌∷◌, ◌++◌, All, filter, arith, ◌⊎◌, inl, inr, append-nil, Bool-cases, All-append_left,
  All-append_right,
}
use tinydb_sueprflow.Errors.{Result, ok}
use tinydb_sueprflow.Python.Int.{is_same}
use tinydb_sueprflow.Python.Float.{FloatOps}
use tinydb_sueprflow.Value.{Value}
use tinydb_sueprflow.Index.Keys.{is_none, normalize_key}
use tinydb_sueprflow.Index.Node.{
  RecordPointer, Entry, Node, node, Nodes, nil, cons, count, walk, walk_nodes, empty_node,
  is_empty_node, make_leaf,
}
use tinydb_sueprflow.Index.Order.{cmp, KeyDomain, after, IsSorted, Keys}
use tinydb_sueprflow.Index.Filled.{Filled, AllFilled, make_internal-Filled}
use tinydb_sueprflow.Index.Bulk.{bulk_load_entries}
use tinydb_sueprflow.Index.BulkWalk.{bulk_load_entries-walk}
use tinydb_sueprflow.Index.Tree.{
  BTreeIndex, pointer_matches, delete_from_leaf, shrink, keep_child, delete_from_node,
  delete_from_nodes, delete,
}
use tinydb_sueprflow.Index.TreeInsert.{IsValid}

module _ {A : Type 0} (p : A → Bool) where
  filter-append : (xs ys : List A) → filter p (xs ++ ys) ≡ filter p xs ++ filter p ys
  filter-append [] ys = refl
  filter-append (x ∷ xs) ys = elim (Bool-cases (p x)) [
    | inl e ↦ rw e (ap (λ (l : List A). x ∷ l) (filter-append xs ys))
    | inr e ↦ rw e (filter-append xs ys)
  ]

  filter-All : (Q : A → Type 0) (xs : List A) → All Q xs → All Q (filter p xs)
  filter-All Q [] h = tt
  filter-All Q (x ∷ xs) h = elim (Bool-cases (p x)) [
    | inl e ↦ rw e (h.0, filter-All Q xs h.1)
    | inr e ↦ rw e (filter-All Q xs h.1)
  ]

module _ {F : Type 0} ⦃fl : FloatOps F⦄ where
  filter-IsSorted :
      (p : Entry F → Bool) (xs : List (Entry F)) → IsSorted xs → IsSorted (filter p xs)
  filter-IsSorted p [] h = tt
  filter-IsSorted p (x ∷ xs) h = elim (Bool-cases (p x)) [
    | inl e ↦ rw e (filter-All p (λ y. after x y ≡ false) xs h.0, filter-IsSorted p xs h.1)
    | inr e ↦ rw e (filter-IsSorted p xs h.1)
  ]

  -- An entry stays if its key is another one or its pointer is not the one asked for.
  abbrev pub stays : Value F → Option RecordPointer → Entry F → Bool
  stays key pointer e = not (is_same (cmp e.key key) && pointer_matches pointer e.pointer)

module _ {F : Type 0} where
  -- A tree that is empty or filled.
  abbrev Loose : Node F → Type 0
  Loose n = (n ≡ empty_node) ⊎ Filled n

  make_leaf-Loose : (entries : List (Entry F)) → Loose (make_leaf entries)
  unfolding make_leaf Filled
  make_leaf-Loose [] = inl refl
  make_leaf-Loose (e ∷ es) = inr (omega arith)

  Filled-not_empty : (n : Node F) → Filled n → is_empty_node n ≡ false
  unfolding Filled is_empty_node
  Filled-not_empty (node keys [] nil) h = absurd (omega arith)
  Filled-not_empty (node keys (e ∷ es) nil) h = refl
  Filled-not_empty (node keys [] (cons c cs)) h = refl
  Filled-not_empty (node keys (e ∷ es) (cons c cs)) h = refl

  keep_child-walk :
      (c : Node F) (cs : Nodes F)
      → Loose c
      → AllFilled cs
      → (walk_nodes (keep_child c cs) ≡ walk c ++ walk_nodes cs) × AllFilled (keep_child c cs)
  unfolding keep_child walk Filled
  keep_child-walk c cs (inl e) h = rw e (unfold is_empty_node in (refl, h))
  keep_child-walk c cs (inr f) h = rw (Filled-not_empty c f) (refl, (f, h))

  shrink-walk :
      (cs : Nodes F)
      → AllFilled cs
      → (n : Node F) × (shrink cs ≡ ok n) × (walk n ≡ walk_nodes cs) × Loose n
  unfolding shrink walk Filled
  shrink-walk nil h = (empty_node, refl, refl, inl refl)
  shrink-walk (cons c nil) h = (c, refl, sym (append-nil (walk c)), inr h.0)
  shrink-walk (cons c (cons d ds)) h =
      let (n, made, filled, same) = make_internal-Filled (cons c (cons d ds)) h (omega arith) in
      (n, made, same, inr filled)

  bulk-Loose :
      (order : ℕ) (xs : List (Entry F))
      → 3 ≤ order
      → (n : Node F) × (bulk_load_entries xs order ≡ ok n) × (walk n ≡ xs) × Loose n
  bulk-Loose order xs big =
      let (n, built, whole, some_) = bulk_load_entries-walk order xs big in
      elim some_ [
        | inl none_ ↦ (
          empty_node,
          rw none_ (unfold bulk_load_entries in refl),
          unfold walk in sym none_,
          inl refl,
        )
        | inr full ↦ (n, built, whole, inr full)
      ]

-- The outcome of a deletion: what stays, and whether anything went.
module _ {F : Type 0} ⦃fl : FloatOps F⦄ where
  abbrev Leaf : Result (List (Entry F) × Bool) → List (Entry F) → List (Entry F) → Type 0
  Leaf result old new = (b : Bool) × (result ≡ ok (new, b)) × ((b ≡ false) → new ≡ old)

  abbrev Pruned : Result (Node F × Bool) → List (Entry F) → List (Entry F) → Type 0
  Pruned result old new =
      (n : Node F) × (b : Bool) × (result ≡ ok (n, b))
      × (walk n ≡ new)
      × ((b ≡ false) → new ≡ old)
      × Loose n

  abbrev PrunedAll : Result (Nodes F × Bool) → List (Entry F) → List (Entry F) → Type 0
  PrunedAll result old new =
      (cs : Nodes F) × (b : Bool) × (result ≡ ok (cs, b))
      × (walk_nodes cs ≡ new)
      × ((b ≡ false) → new ≡ old)
      × AllFilled cs

module _ {F : Type 0} ⦃fl : FloatOps F⦄ {P : Value F → Type 0} (dom : KeyDomain P) (key : Value F)
    (pointer : Option RecordPointer) (pk : P key) where
  delete_from_leaf-Leaf :
      (es : List (Entry F))
      → Keys P es
      → Leaf (delete_from_leaf es key pointer) es (filter (stays key pointer) es)
  unfolding delete_from_leaf
  delete_from_leaf-Leaf [] ps = (false, refl, λ h. refl)
  delete_from_leaf-Leaf (e ∷ es) ps =
      let (b, later, same) = delete_from_leaf-Leaf es ps.1 in
      let compared = dom.comparable e.key key ps.0 pk in
      elim (Bool-cases (is_same (cmp e.key key) && pointer_matches pointer e.pointer)) [
        | inl gone ↦ (true, rw (compared, later, gone) refl, λ h. cc)
        | inr kept ↦ (
          b,
          rw (compared, later, kept) refl,
          rw kept (λ h. ap (λ (l : List (Entry F)). e ∷ l) (same h)),
        )
      ]

  abbrev Deletes : Node F → Type 0
  Deletes n = Pruned (delete_from_node n key pointer) (walk n) (filter (stays key pointer) (walk n))

  abbrev DeletesAll : Nodes F → Type 0
  DeletesAll cs =
      PrunedAll (delete_from_nodes cs key pointer) (walk_nodes cs)
        (filter (stays key pointer) (walk_nodes cs))

  leaf-Deletes :
      (keys : List (Value F)) (es : List (Entry F)) → Keys P es → Deletes (node keys es nil)
  unfolding delete_from_node walk make_leaf
  leaf-Deletes keys es ps =
      let (b, made, same) = delete_from_leaf-Leaf es ps in
      let kept = filter (stays key pointer) es in
      (make_leaf kept, b, rw made refl, refl, same, make_leaf-Loose kept)

  node-Deletes :
      (keys : List (Value F)) (es : List (Entry F)) (cs : Nodes F)
      → 0 < count cs
      → DeletesAll cs
      → Deletes (node keys es cs)
  unfolding delete_from_node walk
  node-Deletes keys es nil p all = absurd (omega arith)
  node-Deletes keys es (cons c cs) p (left, b, made, flat, same, filled) =
      let (n, shrunk, whole, loose) = shrink-walk left filled in
      (n, b, rw (made, shrunk) refl, whole ∙ flat, same, loose)

  both-false : (a b : Bool) → (a || b) ≡ false → (a ≡ false) × (b ≡ false)
  both-false true b h = cc
  both-false false b h = (refl, h)

  children-Deletes :
      (c : Node F) (cs : Nodes F) → Deletes c → DeletesAll cs → DeletesAll (cons c cs)
  unfolding delete_from_node walk
  children-Deletes c cs (n, b, made, flat, same, loose) (left, d, later, flats, sames, filled) =
      let (joined, all) = keep_child-walk n left loose filled in
      let cut = filter-append (stays key pointer) (walk c) (walk_nodes cs) in
      (
        keep_child n left,
        b || d,
        rw (made, later) refl,
        joined ∙ rw (flat, flats) (sym cut),
        λ h. let (no_b, no_d) = both-false b d h in cut ∙ rw (same no_b, sames no_d) refl,
        all,
      )

mutual
  unfolding walk delete_from_node Filled

  delete_from_node-Deletes :
      {F : Type 0} ⦃fl : FloatOps F⦄ {P : Value F → Type 0} (dom : KeyDomain P) (key : Value F)
      (pointer : Option RecordPointer) (pk : P key) (n : Node F)
      → Keys P (walk n)
      → Deletes dom key pointer pk n
  delete_from_node-Deletes dom key pointer pk (node keys entries nil) ps =
      leaf-Deletes dom key pointer pk keys entries ps
  delete_from_node-Deletes dom key pointer pk (node keys entries children) ps =
      node-Deletes dom key pointer pk keys entries children (omega arith)
        (delete_from_nodes-DeletesAll dom key pointer pk children ps)

  delete_from_nodes-DeletesAll :
      {F : Type 0} ⦃fl : FloatOps F⦄ {P : Value F → Type 0} (dom : KeyDomain P) (key : Value F)
      (pointer : Option RecordPointer) (pk : P key) (cs : Nodes F)
      → Keys P (walk_nodes cs)
      → DeletesAll dom key pointer pk cs
  delete_from_nodes-DeletesAll dom key pointer pk nil ps = (nil, false, refl, refl, λ h. refl, tt)
  delete_from_nodes-DeletesAll {P = P} dom key pointer pk (cons c cs) ps =
      children-Deletes dom key pointer pk c cs
        (delete_from_node-Deletes dom key pointer pk c
          (All-append_left (λ (x : Entry _). P x.key) (walk c) (walk_nodes cs) ps))
        (delete_from_nodes-DeletesAll dom key pointer pk cs
          (All-append_right (λ (x : Entry _). P x.key) (walk c) (walk_nodes cs) ps))

module _ {F : Type 0} ⦃fl : FloatOps F⦄ {P : Value F → Type 0} (dom : KeyDomain P) where
  filtered-IsValid :
      (index : BTreeIndex F) (p : Entry F → Bool) (n : Node F)
      → IsValid P index
      → walk n ≡ filter p (walk index.root)
      → Loose n
      → IsValid P (record {
        order = index.order;
        next_sequence_value = index.next_sequence_value;
        root = n;
      })
  filtered-IsValid index p n valid same loose =
      let xs = walk index.root in
      let Older : Entry F → Type 0 = λ x. x.sequence < index.next_sequence_value in
      record {
        wide = valid.wide;
        filled = loose;
        keys = subst (Keys P) (sym same) (filter-All p (λ (x : Entry F). P x.key) xs valid.keys);
        sorted = subst IsSorted (sym same) (filter-IsSorted p xs valid.sorted);
        older = subst (λ l. All Older l) (sym same) (filter-All p Older xs valid.older);
      }

  -- Deleting a key that is not None and belongs to the keys' domain from a valid index succeeds,
  -- with a pointer or without one. The entries of the new index are the old ones, in their order,
  -- less those with an equal key and, where a pointer is given, that pointer; and it is valid.
  pub delete-IsValid :
      (index : BTreeIndex F) (key : Value F) (pointer : Option RecordPointer)
      → IsValid P index
      → P key
      → is_none key ≡ false
      → (left : BTreeIndex F) × (delete index key pointer ≡ ok left)
        × (walk left.root ≡ filter (stays key pointer) (walk index.root))
        × IsValid P left
  unfolding delete normalize_key
  delete-IsValid index key pointer valid p some_key =
      let (n, b, made, flat, same, loose) =
        delete_from_node-Deletes dom key pointer p index.root valid.keys in
      let (root, built, whole, full) = bulk-Loose index.order (walk n) valid.wide in
      elim (Bool-cases b) [
        | inl gone ↦ (
          record {
            order = index.order;
            next_sequence_value = index.next_sequence_value;
            root = root;
          },
          rw (some_key, made, gone, built) refl,
          whole ∙ flat,
          filtered-IsValid index (stays key pointer) root valid (whole ∙ flat) full,
        )
        | inr none_gone ↦ (index, rw (some_key, made, none_gone) refl, sym (same none_gone), valid)
      ]
