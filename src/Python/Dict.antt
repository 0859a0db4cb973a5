-- ===== src/Python/Dict.antt =====
-- Python's `dict` with text keys, in insertion order.
use tinydb_sueprflow.Prelude.{
  Text, text_eq, text_eq_iff, text_eq_refl, ◌≡◌, refl, Bool, false, Option, none, some, List, [],
  ◌∷◌, ◌++◌, arith, if◌then◌else◌, is_some,
}

abbrev pub Dict {ℓ} : Type ℓ → Type ℓ
Dict V = List (Text × V)

module _ {ℓ} {V : Type ℓ} where
  -- `d.get(k)`; `d[k]` raises KeyError where this is `none`.
  unfoldable pub lookup : Text → Dict V → Option V
  lookup k [] = none
  lookup k ((j, v) ∷ d) = if text_eq j k then some v else lookup k d

  -- `k in d`
  unfoldable pub contains : Text → Dict V → Bool
  contains k d = is_some (lookup k d)

  -- `d[k] = v`: a key that is there keeps its place.
  unfoldable pub insert : Text → V → Dict V → Dict V
  insert k v [] = (k, v) ∷ []
  insert k v ((j, w) ∷ d) = if text_eq j k then (j, v) ∷ d else (j, w) ∷ insert k v d

  -- `d.pop(k)`, for a key that is there
  unfoldable pub pop : Text → Dict V → Dict V
  pop k [] = []
  pop k ((j, w) ∷ d) = if text_eq j k then d else (j, w) ∷ pop k d

  pub lookup-insert :
      (k j : Text) (v : V) (d : Dict V)
      → lookup j (insert k v d) ≡ (if text_eq k j then some v else lookup j d)
  unfolding lookup insert
  lookup-insert k j v [] = refl
  lookup-insert k j v ((i, w) ∷ d) =
      ground (arith, text_eq_iff k j, text_eq_iff i k, text_eq_iff i j, lookup-insert k j v d)

  pub lookup-insert_self : (k : Text) (v : V) (d : Dict V) → lookup k (insert k v d) ≡ some v
  lookup-insert_self k v d = rw (lookup-insert k k v d) (rw (text_eq_refl k) refl)

  pub lookup-pop_ne :
      (k j : Text) (d : Dict V) → text_eq k j ≡ false → lookup j (pop k d) ≡ lookup j d
  unfolding lookup pop
  lookup-pop_ne k j [] h = refl
  lookup-pop_ne k j ((i, w) ∷ d) h =
      ground (arith, text_eq_iff k j, text_eq_iff i k, text_eq_iff i j, lookup-pop_ne k j d h)

  -- A key that is not there is put behind the others.
  pub insert_new :
      (k : Text) (v : V) (d : Dict V) → lookup k d ≡ none → insert k v d ≡ d ++ (k, v) ∷ []
  unfolding lookup insert
  insert_new k v [] h = refl
  insert_new k v ((j, w) ∷ d) h = ground (arith, insert_new k v d)

  pub lookup-append_new :
      (j k : Text) (v : V) (d : Dict V)
      → lookup j d ≡ none
      → text_eq k j ≡ false
      → lookup j (d ++ (k, v) ∷ []) ≡ none
  unfolding lookup
  lookup-append_new j k v [] h ne = rw ne refl
  lookup-append_new j k v ((i, w) ∷ d) h ne = ground (arith, lookup-append_new j k v d)

  pub lookup-pop-none : (j k : Text) (d : Dict V) → lookup j d ≡ none → lookup j (pop k d) ≡ none
  unfolding lookup pop
  lookup-pop-none j k [] h = refl
  lookup-pop-none j k ((i, w) ∷ d) h = ground (arith, lookup-pop-none j k d)

  -- Taking out the key that was put in last gives the dict from before.
  pub pop-append_new :
      (k : Text) (v : V) (d : Dict V) → lookup k d ≡ none → pop k (d ++ (k, v) ∷ []) ≡ d
  unfolding lookup pop
  pop-append_new k v [] h = rw (text_eq_refl k) refl
  pop-append_new k v ((i, w) ∷ d) h = ground (arith, pop-append_new k v d)

  -- A key that a dict lacks is none of its keys.
  pub lookup-append_none :
      (j k : Text) (v : V) (d e : Dict V) → lookup j (d ++ (k, v) ∷ e) ≡ none → text_eq j k ≡ false
  unfolding lookup
  lookup-append_none j k v [] e h = ground (arith, text_eq_iff j k, text_eq_iff k j)
  lookup-append_none j k v ((i, w) ∷ d) e h = ground (arith, lookup-append_none j k v d e)
