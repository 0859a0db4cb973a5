-- ===== src/Tests/Trees.antt =====
-- The theorems on the index at small trees.
use tinydb_sueprflow.Prelude.{ℕ, ◌≡◌, refl, none, List, [], ◌∷◌, filter, codes, arith, ◌⊎◌, inr}
use tinydb_sueprflow.Errors.{ok}
use tinydb_sueprflow.Python.Int.{pos, compare_ℤ}
use tinydb_sueprflow.Value.{int, compare_values}
use tinydb_sueprflow.Index.Keys.{is_none, compare_keys}
use tinydb_sueprflow.Index.Node.{RecordPointer, Entry, Node, walk, make_leaf, break_tie}
use tinydb_sueprflow.Index.Order.{cmp, after, insert_sorted}
use tinydb_sueprflow.Index.Domains.{IsInt, IsInt-KeyDomain}
use tinydb_sueprflow.Index.Filled.{Filled}
use tinydb_sueprflow.Index.Bulk.{balanced_sizes, bulk_load_entries}
use tinydb_sueprflow.Index.Sizes.{Within, sum, balanced_sizes-Within}
use tinydb_sueprflow.Index.BulkWalk.{bulk_load_entries-walk}
use tinydb_sueprflow.Index.Tree.{BTreeIndex, new_entry, insert, delete}
use tinydb_sueprflow.Index.TreeInsert.{IsValid, insert-IsValid}
use tinydb_sueprflow.Index.TreeDelete.{stays, delete-IsValid}
use tinydb_sueprflow.Tests.Floats.{Whole, whole_ops}

abbrev pointer : ℕ → RecordPointer
pointer n = record { table = codes "t"; page_id = n; slot = 0 }

abbrev entry : ℕ → ℕ → Entry Whole
entry key sequence = record { key = int (pos key); pointer = pointer sequence; sequence = sequence }

-- A full leaf of an index of order four.
abbrev full_leaf : BTreeIndex Whole
full_leaf = record {
  order = 4;
  next_sequence_value = 3;
  root = make_leaf (entry 2 1 ∷ entry 5 0 ∷ entry 5 2 ∷ []);
}

full_leaf-IsValid : IsValid IsInt full_leaf
unfolding walk make_leaf Filled after cmp compare_keys compare_values break_tie compare_ℤ
full_leaf-IsValid = record {
  wide = omega arith;
  filled = inr (omega arith);
  keys = ((pos 2, refl), ((pos 5, refl), ((pos 5, refl), tt)));
  sorted = ((refl, (refl, tt)), ((refl, tt), (tt, tt)));
  older = (omega arith, (omega arith, (omega arith, tt)));
}

insert-IsValid_example :
    (grown : BTreeIndex Whole) × (insert full_leaf (int (pos 3)) (pointer 9) ≡ ok grown)
    × (walk grown.root
        ≡ insert_sorted (new_entry full_leaf (int (pos 3)) (pointer 9)) (walk full_leaf.root))
    × IsValid IsInt grown
unfolding is_none
insert-IsValid_example =
    insert-IsValid (IsInt-KeyDomain Whole) full_leaf (int (pos 3)) (pointer 9) full_leaf-IsValid
      (pos 3, refl) refl

delete-IsValid_example :
    (left : BTreeIndex Whole) × (delete full_leaf (int (pos 5)) none ≡ ok left)
    × (walk left.root ≡ filter (stays (int (pos 5)) none) (walk full_leaf.root))
    × IsValid IsInt left
unfolding is_none
delete-IsValid_example =
    delete-IsValid (IsInt-KeyDomain Whole) full_leaf (int (pos 5)) none full_leaf-IsValid
      (pos 5, refl) refl

abbrev five : List (Entry Whole)
five = entry 1 0 ∷ entry 2 1 ∷ entry 3 2 ∷ entry 4 3 ∷ entry 5 4 ∷ []

bulk_load_entries-walk_example :
    (n : Node Whole) × (bulk_load_entries five 3 ≡ ok n)
    × (walk n ≡ five)
    × ((five ≡ []) ⊎ Filled n)
bulk_load_entries-walk_example = bulk_load_entries-walk 3 five (omega arith)

balanced_sizes-Within_example : Within 2 4 (balanced_sizes 9 4 2) × (sum (balanced_sizes 9 4 2) ≡ 9)
balanced_sizes-Within_example =
    balanced_sizes-Within 9 4 2 (omega arith) (omega arith) (omega arith)
