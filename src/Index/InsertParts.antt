-- ===== src/Index/InsertParts.antt =====
-- What an insertion does to one node: the parts of the theorem on whole trees.
use tinydb_sueprflow.Prelude.{
  ℕ, suc, ◌-◌, ◌/◌, ◌≤◌, ◌<◌, ◌≡◌, refl, sym, ap, ◌∙◌, true, false, Option, none, some, List, [],
  ◌∷◌, ◌++◌, All, length, length-append, length-take, length-drop, take, drop, take-append-drop,
  append_assoc, All-append_left, All-append_right, arith, leb, Bool-cases, inl, inr,
}
use tinydb_sueprflow.Errors.{Result, ok}
use tinydb_sueprflow.Python.Int.{compare_ℕ, is_greater, is_less}
use tinydb_sueprflow.Python.Float.{FloatOps}
use tinydb_sueprflow.Value.{Value}
use tinydb_sueprflow.Index.Node.{
  Entry, Node, Nodes, count, take_nodes, drop_nodes, walk, walk_nodes, break_tie, make_leaf,
  split_leaf, max_leaf_entries,
}
use tinydb_sueprflow.Index.Order.{
  cmp, KeyDomain, after, IsSorted, insert_sorted, IsSorted-append_left, IsSorted-append_right,
  compare_entries-ok, after_trans, Keys,
}
use tinydb_sueprflow.Index.Insert.{entry_insert_position, insert_into_leaf, rebuild, put_child}
use tinydb_sueprflow.Index.Filled.{
  Filled, AllFilled, make_internal-Filled, AllFilled-take, AllFilled-drop, walk_nodes-take-drop,
  count-take, count-drop,
}

module _ {F : Type 0} where
  -- The one or two trees that an insertion returns: their entries, and that they are filled.
  abbrev pub pair_walk : Node F × Option (Node F) → List (Entry F)
  pair_walk (n, none) = walk n
  pair_walk (n, some s) = walk n ++ walk s

  abbrev pub PairFilled : Node F × Option (Node F) → Type 0
  PairFilled (n, none) = Filled n
  PairFilled (n, some s) = Filled n × Filled s

  pub walk-put_child :
      (r : Node F × Option (Node F)) (cs : Nodes F)
      → walk_nodes (put_child r cs) ≡ pair_walk r ++ walk_nodes cs
  unfolding walk
  walk-put_child (n, none) cs = refl
  walk-put_child (n, some s) cs = sym (append_assoc (walk n) (walk s) (walk_nodes cs))

  pub AllFilled-put_child :
      (r : Node F × Option (Node F)) (cs : Nodes F)
      → PairFilled r
      → AllFilled cs
      → AllFilled (put_child r cs) × (0 < count (put_child r cs))
  unfolding Filled
  AllFilled-put_child (n, none) cs h k = ((h, k), omega arith)
  AllFilled-put_child (n, some s) cs h k = ((h.0, (h.1, k)), omega arith)

module _ {F : Type 0} ⦃fl : FloatOps F⦄ where
  -- The trees that came out hold the entries in `es`.
  abbrev pub Makes : Result (Node F × Option (Node F)) → List (Entry F) → Type 0
  Makes result es =
      (r : Node F × Option (Node F)) × (result ≡ ok r) × (pair_walk r ≡ es) × PairFilled r

  pub rebuild-Makes :
      (order : ℕ) (cs : Nodes F)
      → 3 ≤ order
      → AllFilled cs
      → 0 < count cs
      → Makes (rebuild order cs) (walk_nodes cs)
  unfolding rebuild
  rebuild-Makes order cs big h p =
      let (n, e, filled, same) = make_internal-Filled cs h p in
      elim (Bool-cases (leb (count cs) order)) [
        | inl fits ↦ ((n, none), rw (e, fits), same, filled)
        | inr over ↦
            let at = count cs / 2 in
            let many : 3 < count cs = ground arith in
            let (a, ea, fa, wa) =
              make_internal-Filled (take_nodes at cs) (AllFilled-take at cs h)
                (omega (arith, many, count-take at cs (omega (arith, many)))) in
            let (b, eb, fb, wb) =
              make_internal-Filled (drop_nodes at cs) (AllFilled-drop at cs h)
                (omega (arith, many, count-drop at cs)) in
            ((a, some b), rw (e, over, ea, eb), rw (wa, wb) (walk_nodes-take-drop at cs), (fa, fb))
      ]

  -- The new entry is to go into the entries `xs`: these are in order, and older than it.
  pub record Ready (P : Value F → Type 0) (e : Entry F) (xs : List (Entry F)) : Type 0 where
    pub new_key : P e.key
    pub keys : Keys P xs
    pub sorted : IsSorted xs
    pub older : All (λ (x : Entry F). x.sequence < e.sequence) xs

module _ {F : Type 0} ⦃fl : FloatOps F⦄ {P : Value F → Type 0} where
  pub Ready-left : (e : Entry F) (xs ys : List (Entry F)) → Ready P e (xs ++ ys) → Ready P e xs
  Ready-left e xs ys h = record {
    new_key = h.new_key;
    keys = All-append_left (λ (x : Entry F). P x.key) xs ys h.keys;
    sorted = IsSorted-append_left xs ys h.sorted;
    older = All-append_left (λ (x : Entry F). x.sequence < e.sequence) xs ys h.older;
  }

  pub Ready-right : (e : Entry F) (xs ys : List (Entry F)) → Ready P e (xs ++ ys) → Ready P e ys
  Ready-right e xs ys h = record {
    new_key = h.new_key;
    keys = All-append_right (λ (x : Entry F). P x.key) xs ys h.keys;
    sorted = IsSorted-append_right xs ys h.sorted;
    older = All-append_right (λ (x : Entry F). x.sequence < e.sequence) xs ys h.older;
  }

module _ {F : Type 0} ⦃fl : FloatOps F⦄ {P : Value F → Type 0} (dom : KeyDomain P) where
  -- The scan of a leaf finds the place of `insert_sorted`.
  pub position-insert_sorted :
      (e : Entry F) (es : List (Entry F))
      → P e.key
      → Keys P es
      → (i : ℕ) × (entry_insert_position es e ≡ ok i)
        × (take i es ++ e ∷ drop i es ≡ insert_sorted e es)
  unfolding entry_insert_position insert_sorted after
  position-insert_sorted e [] pe ps = (0, refl, refl)
  position-insert_sorted e (x ∷ es) pe ps =
      let (i, found, same) = position-insert_sorted e es pe ps.1 in
      let c = compare_entries-ok dom x e ps.0 pe in
      elim (Bool-cases
        (is_greater (break_tie (cmp x.key e.key) (compare_ℕ x.sequence e.sequence)))) [
          | inl a ↦ (0, rw (c, a), rw a refl)
          | inr n ↦ (suc i, rw (c, n, found), rw n (ap (λ (l : List (Entry F)). x ∷ l) same))
        ]

  pub leaf-Makes :
      (order : ℕ) (e : Entry F) (es : List (Entry F))
      → 3 ≤ order
      → P e.key
      → Keys P es
      → Makes (insert_into_leaf order es e) (insert_sorted e es)
  unfolding insert_into_leaf max_leaf_entries walk Filled
  leaf-Makes order e es big pe ps =
      let (i, found, same) = position-insert_sorted e es pe ps in
      let grown = take i es ++ e ∷ drop i es in
      elim (Bool-cases (leb (length grown) (order - 1))) [
        | inl fits ↦ (
          (make_leaf grown, none),
          rw (found, fits),
          same,
          omega (arith, length-append (take i es) (e ∷ drop i es)),
        )
        | inr over ↦
            let many : 2 < length grown = ground arith in
            (
              ((split_leaf grown).0, some (split_leaf grown).1),
              rw (found, over),
              take-append-drop (length grown / 2) grown ∙ same,
              (
                omega (arith, many, length-take (length grown / 2) grown),
                omega (arith, many, length-drop (length grown / 2) grown),
              ),
            )
      ]

  -- What the code compares with the new key: the greatest key of a child, that of its last entry.
  pub separator-before :
      (e x : Entry F) → P e.key → P x.key → is_less (cmp e.key x.key) ≡ true → after x e ≡ true
  unfolding after break_tie
  separator-before e x pe px h = ground (arith, dom.cmp-flip e.key x.key pe px)

  pub separator-behind :
      (e x : Entry F)
      → P e.key
      → P x.key
      → x.sequence < e.sequence
      → is_less (cmp e.key x.key) ≡ false
      → after x e ≡ false
  unfolding after break_tie
  separator-behind e x pe px old h = ground (arith, dom.cmp-flip e.key x.key pe px)

  -- If the last of sorted entries does not belong behind `e`, none does.
  pub none-after :
      (e x : Entry F) (xs : List (Entry F))
      → P e.key
      → P x.key
      → Keys P xs
      → IsSorted (xs ++ x ∷ [])
      → after x e ≡ false
      → All (λ y. after y e ≡ false) (xs ++ x ∷ [])
  none-after e x [] pe px ps h a = (a, tt)
  none-after e x (y ∷ xs) pe px ps h a =
      let below = All-append_right (λ z. after y z ≡ false) xs (x ∷ []) h.0 in
      (after_trans dom y x e ps.0 px pe below.0 a, none-after e x xs pe px ps.1 h.1 a)
