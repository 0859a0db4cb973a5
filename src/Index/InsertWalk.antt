-- ===== src/Index/InsertWalk.antt =====
-- An insertion into a tree, read from left to right, is an insertion into a sorted list.
use tinydb_sueprflow.Prelude.{
  ℕ, suc, ◌≤◌, ◌<◌, ◌≡◌, refl, sym, ap, ◌∙◌, subst, false, List, [], ◌∷◌, ◌++◌, All, append-nil,
  All-append_left, All-append_right, arith, Bool-cases, inl, inr,
}
use tinydb_sueprflow.Errors.{ok}
use tinydb_sueprflow.Python.Int.{is_less}
use tinydb_sueprflow.Python.Float.{FloatOps}
use tinydb_sueprflow.Value.{Value}
use tinydb_sueprflow.Index.Node.{
  Entry, Node, node, Nodes, nil, cons, count, walk, walk_nodes, max_key, separator_keys,
}
use tinydb_sueprflow.Index.Order.{
  cmp, KeyDomain, after, IsSorted, insert_sorted, insert_sorted-append_before,
  insert_sorted-append_behind, Keys,
}
use tinydb_sueprflow.Index.Insert.{
  child_index_for_key, put_child, insert_into_node, insert_into_child,
}
use tinydb_sueprflow.Index.Filled.{Filled, AllFilled, max_key-EndsIn, separator_keys-total}
use tinydb_sueprflow.Index.InsertParts.{
  AllFilled-put_child, Makes, Ready, Ready-left, Ready-right, leaf-Makes, none-after, pair_walk,
  rebuild-Makes, separator-before, separator-behind, walk-put_child,
}

module _ {F : Type 0} ⦃fl : FloatOps F⦄ {P : Value F → Type 0} (dom : KeyDomain P) where
  abbrev NodeInserts : ℕ → Node F → Entry F → Type 0
  NodeInserts order n e = Makes (insert_into_node order n e) (insert_sorted e (walk n))

  -- The children after the insertion hold the old entries and the new one, in order.
  abbrev ChildrenInsert : ℕ → Nodes F → Entry F → Type 0
  ChildrenInsert order cs e =
      (ks : List (Value F))
      → separator_keys cs ≡ ok ks
      → (i : ℕ) × (grown : Nodes F) × (child_index_for_key ks e.key ≡ ok i)
        × (insert_into_child order cs i e ≡ ok grown)
        × (walk_nodes grown ≡ insert_sorted e (walk_nodes cs))
        × AllFilled grown
        × (0 < count grown)

  only-child :
      (order : ℕ) (e : Entry F) (c : Node F)
      → NodeInserts order c e
      → ChildrenInsert order (cons c nil) e
  unfolding separator_keys child_index_for_key insert_into_node walk
  only-child order e c (r, made, same, filled) ks seps =
      let (all, some_) = AllFilled-put_child r nil filled (unfold Filled in tt) in
      let no_keys : [] ≡ ks = cc in
      (
        0,
        put_child r nil,
        subst (λ l. child_index_for_key l e.key ≡ ok 0) no_keys refl,
        rw made,
        walk-put_child r nil
            ∙ append-nil (pair_walk r)
            ∙ same
            ∙ ap (insert_sorted e) (sym (append-nil (walk c))),
        all,
        some_,
      )

  -- The last entry of a filled child, and what is known of it.
  abbrev LastOf : Entry F → Node F → Type 0
  LastOf e c =
      (init : List (Entry F)) × (x : Entry F) × (walk c ≡ init ++ x ∷ [])
      × (max_key c ≡ ok x.key)
      × P x.key
      × (x.sequence < e.sequence)
      × Keys P init
      × IsSorted (init ++ x ∷ [])

  last-of : (e : Entry F) (c : Node F) → Filled c → Ready P e (walk c) → LastOf e c
  last-of e c filled ready =
      let (k, top, last) = max_key-EndsIn c filled in
      let (init, x, ends, key) = last in
      let r = subst (Ready P e) ends ready in
      let at_x = All-append_right (λ (y : Entry F). P y.key) init (x ∷ []) r.keys in
      let old_x =
        All-append_right (λ (y : Entry F). y.sequence < e.sequence) init (x ∷ []) r.older in
      (
        init,
        x,
        ends,
        top ∙ ap ok (sym key),
        at_x.0,
        old_x.0,
        All-append_left (λ (y : Entry F). P y.key) init (x ∷ []) r.keys,
        r.sorted,
      )

  more-children :
      (order : ℕ) (e : Entry F) (c d : Node F) (ds : Nodes F)
      → P e.key
      → LastOf e c
      → AllFilled (cons c (cons d ds))
      → NodeInserts order c e
      → ChildrenInsert order (cons d ds) e
      → ChildrenInsert order (cons c (cons d ds)) e
  unfolding separator_keys child_index_for_key insert_into_node Filled walk
  more-children order e c d ds pe (init, x, ends, top, px, old, ps, sorted) filled
        (r, made, same, fr) later ks seps =
      let (ks', seps') = separator_keys-total (cons d ds) filled.1 in
      let all_keys : x.key ∷ ks' ≡ ks = cc (rw (top, seps') at seps) in
      let rest = walk_nodes (cons d ds) in
      let compared = dom.comparable e.key x.key pe px in
      elim (Bool-cases (is_less (cmp e.key x.key))) [
        | inl here ↦
            let (all, some_) = AllFilled-put_child r (cons d ds) fr filled.1 in
            let before =
              insert_sorted-append_before e x init rest (separator-before dom e x pe px here) in
            (
              0,
              put_child r (cons d ds),
              subst (λ l. child_index_for_key l e.key ≡ ok 0) all_keys (rw (compared, here)),
              rw made,
              walk-put_child r (cons d ds)
                  ∙ ap (λ (l : List (Entry F)). l ++ rest) same
                  ∙ subst (λ l. insert_sorted e l ++ rest ≡ insert_sorted e (l ++ rest)) (sym ends)
                      (sym before),
              all,
              some_,
            )
        | inr there ↦
            let (i, grown, found, put, walked, all, some_) = later ks' seps' in
            let none_after =
              none-after dom e x init pe px ps sorted (separator-behind dom e x pe px old there) in
            let behind =
              insert_sorted-append_behind e (walk c) rest
                (subst (λ l. All (λ y. after y e ≡ false) l) (sym ends) none_after) in
            (
              suc i,
              cons c grown,
              subst (λ l. child_index_for_key l e.key ≡ ok (suc i)) all_keys
                  (rw (compared, there, found)),
              rw put,
              ap (λ (l : List (Entry F)). walk c ++ l) walked ∙ sym behind,
              (filled.0, all),
              omega arith,
            )
      ]

  node-Makes :
      (order : ℕ) (e : Entry F) (keys : List (Value F)) (entries : List (Entry F))
      (children : Nodes F)
      → 3 ≤ order
      → 0 < count children
      → separator_keys children ≡ ok keys
      → ChildrenInsert order children e
      → NodeInserts order (node keys entries children) e
  unfolding insert_into_node walk
  node-Makes order e keys entries nil big p seps inserted = absurd (omega arith)
  node-Makes order e keys entries (cons c cs) big p seps inserted =
      let (i, grown, found, put, walked, all, some_) = inserted keys seps in
      let (r, made, same, filled) = rebuild-Makes order grown big all some_ in
      (r, rw (found, put, made), same ∙ walked, filled)

  child-step :
      (order : ℕ) (e : Entry F) (c : Node F) (cs : Nodes F)
      → 0 < count cs
      → Filled c
      → AllFilled cs
      → Ready P e (walk c ++ walk_nodes cs)
      → NodeInserts order c e
      → ChildrenInsert order cs e
      → ChildrenInsert order (cons c cs) e
  unfolding Filled
  child-step order e c nil p fc fcs ready here later = absurd (omega arith)
  child-step order e c (cons d ds) p fc fcs ready here later =
      more-children order e c d ds ready.new_key
        (last-of e c fc (Ready-left e (walk c) (walk_nodes (cons d ds)) ready)) (fc, fcs) here later

-- By induction on the tree: its entries after the insertion are those of `insert_sorted`.
mutual
  unfolding Filled walk insert_into_node

  pub insert_into_node-Makes :
      {F : Type 0} ⦃fl : FloatOps F⦄ {P : Value F → Type 0} (dom : KeyDomain P) (order : ℕ)
      (e : Entry F) (n : Node F)
      → 3 ≤ order
      → Filled n
      → Ready P e (walk n)
      → Makes (insert_into_node order n e) (insert_sorted e (walk n))
  insert_into_node-Makes dom order e (node keys entries nil) big filled ready =
      leaf-Makes dom order e entries big ready.new_key ready.keys
  insert_into_node-Makes dom order e (node keys entries children) big filled ready =
      node-Makes dom order e keys entries children big (omega arith) filled.0
        (insert_into_child-ChildrenInsert dom order e children big filled.1 ready (omega arith))

  insert_into_child-ChildrenInsert :
      {F : Type 0} ⦃fl : FloatOps F⦄ {P : Value F → Type 0} (dom : KeyDomain P) (order : ℕ)
      (e : Entry F) (cs : Nodes F)
      → 3 ≤ order
      → AllFilled cs
      → Ready P e (walk_nodes cs)
      → 0 < count cs
      → ChildrenInsert dom order cs e
  insert_into_child-ChildrenInsert dom order e nil big filled ready p = absurd (omega arith)
  insert_into_child-ChildrenInsert dom order e (cons c nil) big filled ready p =
      only-child dom order e c
        (insert_into_node-Makes dom order e c big filled.0 (Ready-left e (walk c) [] ready))
  insert_into_child-ChildrenInsert dom order e (cons c cs) big filled ready p =
      child-step dom order e c cs (omega arith) filled.0 filled.1 ready
        (insert_into_node-Makes dom order e c big filled.0
          (Ready-left e (walk c) (walk_nodes cs) ready))
        (insert_into_child-ChildrenInsert dom order e cs big filled.1
          (Ready-right e (walk c) (walk_nodes cs) ready) (omega arith))
