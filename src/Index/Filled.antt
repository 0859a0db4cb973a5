-- ===== src/Index/Filled.antt =====
-- Trees with no empty leaf, in which `_max_key` never fails and separators are in place.
use tinydb_sueprflow.Prelude.{
  ℕ, zero, suc, ◌-◌, ◌≤◌, ◌<◌, ◌≡◌, refl, sym, ap, ◌∙◌, subst, List, [], ◌∷◌, ◌++◌, length,
  append_assoc, append-nil, arith,
}
use tinydb_sueprflow.Errors.{ok}
use tinydb_sueprflow.Value.{Value}
use tinydb_sueprflow.Index.Node.{
  Entry, Node, node, Nodes, nil, cons, count, take_nodes, drop_nodes, last_key, walk, walk_nodes,
  max_key, max_key_of_last, separator_keys, make_internal,
}

-- No leaf below is empty, and each internal node has the separators of its children.
unfoldable mutual
  pub Filled : {F : Type 0} → Node F → Type 0
  Filled (node keys entries nil) = 0 < length entries
  Filled (node keys entries children) = (separator_keys children ≡ ok keys) × AllFilled children

  pub AllFilled : {F : Type 0} → Nodes F → Type 0
  AllFilled nil = Unit
  AllFilled (cons c cs) = Filled c × AllFilled cs

module _ {F : Type 0} where
  -- The last entry of a list that has one.
  abbrev pub EndsIn : List (Entry F) → Value F → Type 0
  EndsIn es k = (init : List (Entry F)) × (x : Entry F) × (es ≡ init ++ x ∷ []) × (x.key ≡ k)

  EndsIn-append : (xs ys : List (Entry F)) (k : Value F) → EndsIn ys k → EndsIn (xs ++ ys) k
  EndsIn-append xs ys k (init, x, e, q) = (
    xs ++ init,
    x,
    ap (λ (l : List (Entry F)). xs ++ l) e ∙ sym (append_assoc xs init (x ∷ [])),
    q,
  )

  last_key-EndsIn :
      (es : List (Entry F)) → 0 < length es → (k : Value F) × (last_key es ≡ ok k) × EndsIn es k
  last_key-EndsIn [] h = absurd (omega arith)
  last_key-EndsIn (e ∷ []) h = (e.key, refl, ([], e, refl, refl))
  last_key-EndsIn (e ∷ f ∷ es) h =
      let (k, p, ends) = last_key-EndsIn (f ∷ es) (omega arith) in
      (k, p, EndsIn-append (e ∷ []) (f ∷ es) k ends)

mutual
  unfolding max_key walk Filled

  -- `_max_key` of a filled tree is the key of its last entry.
  pub max_key-EndsIn :
      {F : Type 0} (c : Node F) → Filled c → (k : Value F) × (max_key c ≡ ok k) × EndsIn (walk c) k
  max_key-EndsIn (node keys entries nil) h = last_key-EndsIn entries h
  max_key-EndsIn (node keys entries children) h = max_key_of_last-EndsIn children h.1 (omega arith)

  max_key_of_last-EndsIn :
      {F : Type 0} (cs : Nodes F)
      → AllFilled cs
      → 0 < count cs
      → (k : Value F) × (max_key_of_last cs ≡ ok k) × EndsIn (walk_nodes cs) k
  max_key_of_last-EndsIn nil h p = absurd (omega arith)
  max_key_of_last-EndsIn (cons c nil) h p =
      let (k, e, ends) = max_key-EndsIn c h.0 in
      (k, e, subst (λ l. EndsIn l k) (sym (append-nil (walk c))) ends)
  max_key_of_last-EndsIn (cons c cs) h p =
      let (k, e, ends) = max_key_of_last-EndsIn cs h.1 (omega arith) in
      (k, e, EndsIn-append (walk c) (walk_nodes cs) k ends)

-- So the separators of filled children exist.
pub separator_keys-total :
    {F : Type 0} (cs : Nodes F) → AllFilled cs → (ks : List (Value F)) × (separator_keys cs ≡ ok ks)
unfolding separator_keys Filled
separator_keys-total nil h = ([], refl)
separator_keys-total (cons c nil) h = ([], refl)
separator_keys-total (cons c (cons d ds)) h =
    let (k, e, _) = max_key-EndsIn c h.0 in
    let (ks, es) = separator_keys-total (cons d ds) h.1 in (k ∷ ks, rw (e, es))

module _ {F : Type 0} where
  pub make_internal-Filled :
      (cs : Nodes F)
      → AllFilled cs
      → 0 < count cs
      → (n : Node F) × (make_internal cs ≡ ok n) × Filled n × (walk n ≡ walk_nodes cs)
  unfolding make_internal Filled walk
  make_internal-Filled nil h p = absurd (omega arith)
  make_internal-Filled (cons c cs) h p =
      let (ks, e) = separator_keys-total (cons c cs) h in
      (node ks [] (cons c cs), rw e, (e, h), refl)

  pub AllFilled-take : (n : ℕ) (cs : Nodes F) → AllFilled cs → AllFilled (take_nodes n cs)
  unfolding Filled
  AllFilled-take zero cs h = tt
  AllFilled-take (suc n) nil h = tt
  AllFilled-take (suc n) (cons c cs) h = (h.0, AllFilled-take n cs h.1)

  pub AllFilled-drop : (n : ℕ) (cs : Nodes F) → AllFilled cs → AllFilled (drop_nodes n cs)
  unfolding Filled
  AllFilled-drop zero cs h = h
  AllFilled-drop (suc n) nil h = tt
  AllFilled-drop (suc n) (cons c cs) h = AllFilled-drop n cs h.1

  pub walk_nodes-take-drop :
      (n : ℕ) (cs : Nodes F)
      → walk_nodes (take_nodes n cs) ++ walk_nodes (drop_nodes n cs) ≡ walk_nodes cs
  unfolding walk
  walk_nodes-take-drop zero cs = refl
  walk_nodes-take-drop (suc n) nil = refl
  walk_nodes-take-drop (suc n) (cons c cs) =
      append_assoc (walk c) (walk_nodes (take_nodes n cs)) (walk_nodes (drop_nodes n cs))
      ∙ ap (λ (l : List (Entry F)). walk c ++ l) (walk_nodes-take-drop n cs)

  pub count-take : (n : ℕ) (cs : Nodes F) → n ≤ count cs → count (take_nodes n cs) ≡ n
  count-take zero cs h = refl
  count-take (suc n) nil h = omega arith
  count-take (suc n) (cons c cs) h = ap suc (count-take n cs (omega arith))

  pub count-drop : (n : ℕ) (cs : Nodes F) → count (drop_nodes n cs) ≡ count cs - n
  count-drop zero cs = omega arith
  count-drop (suc n) nil = omega arith
  count-drop (suc n) (cons c cs) = omega (arith, count-drop n cs)
