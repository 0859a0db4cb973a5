-- ===== src/Tests/Pages.antt =====
-- The theorems on pages and stored nodes at small inputs.
use tinydb_sueprflow.Prelude.{ℕ, ◌≡◌, refl, codes, List, [], ◌∷◌, length, arith}
use tinydb_sueprflow.Errors.{ok}
use tinydb_sueprflow.Value.{text}
use tinydb_sueprflow.Index.Keys.{is_none}
use tinydb_sueprflow.Index.Node.{Node, make_leaf}
use tinydb_sueprflow.Index.Serial.{Casts, CastLaws, serialize_node, deserialize_node}
use tinydb_sueprflow.Index.Serial.RoundTrip.{HasKeys, deserialize_node-serialize_node}
use tinydb_sueprflow.Page.{page_size, pack_payload, unpack_payload}
use tinydb_sueprflow.Page.RoundTrip.{unpack_payload-pack_payload}
use tinydb_sueprflow.Tests.Floats.{Whole, whole_ops}

-- Casts that leave every object alone.
instance abbrev same_casts : Casts Whole
same_casts = record { to_int = λ v. ok v; to_float = λ v. ok v; to_str = λ v. ok v }

instance same_laws : CastLaws Whole
same_laws = record { to_int-int = λ n. refl; to_float-float = λ x. refl; to_str-text = λ s. refl }

abbrev leaf : Node Whole
leaf = make_leaf (
    record {
      key = text (codes "a");
      pointer = record { table = codes "t"; page_id = 3; slot = 1 };
      sequence = 0;
    }
    ∷ [])

deserialize_node-serialize_node_example : deserialize_node (serialize_node leaf) ≡ ok leaf
unfolding make_leaf is_none HasKeys
deserialize_node-serialize_node_example =
    deserialize_node-serialize_node leaf ((refl, tt), (refl, tt), tt)

unpack_payload-pack_payload_example :
    (page : List ℕ) × (pack_payload (7 ∷ 8 ∷ 9 ∷ []) ≡ ok page)
    × (length page ≡ page_size)
    × (unpack_payload page ≡ ok (7 ∷ 8 ∷ 9 ∷ []))
unpack_payload-pack_payload_example = unpack_payload-pack_payload (7 ∷ 8 ∷ 9 ∷ []) (omega arith)
