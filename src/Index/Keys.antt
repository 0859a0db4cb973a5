-- ===== src/Index/Keys.antt =====
-- tinydb/index/btree.py: the keys of an index, their comparison, and the lookups.
use tinydb_sueprflow.Prelude.{Bool, true, false, not, ◌&&◌, ◌||◌, if◌then◌else◌}
use tinydb_sueprflow.Errors.{Result, ok, err, ◌>>=◌, type_error}
use tinydb_sueprflow.Python.Int.{Order, equal, is_less, is_same, is_greater}
use tinydb_sueprflow.Python.Float.{FloatOps}
use tinydb_sueprflow.Value.{
  Value, null, bool, int, float, text, ordered, unordered, incompatible, compare_values,
}

-- `value is None`
unfoldable pub is_none : {F : Type 0} → Value F → Bool
is_none null = true
is_none (bool b) = false
is_none (int n) = false
is_none (float f) = false
is_none (text s) = false

module _ {F : Type 0} where
  -- A key is a bool, an int, a float or a string; `None` is none.
  unfoldable pub normalize_key : Value F → Result (Value F)
  unfolding is_none
  normalize_key v = if is_none v then err type_error else ok v

module _ {F : Type 0} ⦃fl : FloatOps F⦄ where
  -- `(left > right) - (left < right)`: 0 also where a NaN makes both tests false
  unfoldable pub compare_keys : Value F → Value F → Result Order
  compare_keys left right = elim (compare_values left right) [
    | ordered o ↦ ok o
    | unordered ↦ ok equal
    | incompatible ↦ err type_error
  ]

  -- The two bounds of `_in_range`, of which an absent one is `None`.
  unfoldable pub above_start : Value F → Value F → Bool → Result Bool
  unfolding normalize_key
  above_start key start include_start = if is_none start then ok true else do
    bound ← normalize_key start
    lower ← compare_keys key bound
    ok (not (is_less lower || is_same lower && not include_start))

  unfoldable pub below_end : Value F → Value F → Bool → Result Bool
  unfolding normalize_key
  below_end key end include_end = if is_none end then ok true else do
    bound ← normalize_key end
    upper ← compare_keys key bound
    ok (not (is_greater upper || is_same upper && not include_end))

  unfoldable pub in_range : Value F → Value F → Value F → Bool → Bool → Result Bool
  in_range key start end include_start include_end = do
    above ← above_start key start include_start
    if above then below_end key end include_end else ok false

-- The two kinds of lookup; an absent bound is `None`.
pub data IndexLookup (F : Type 0) : Type 0 where
  equal_to : Value F → IndexLookup F
  range : Value F → Value F → Bool → Bool → IndexLookup F

module _ {F : Type 0} ⦃fl : FloatOps F⦄ where
  -- The test that `BTreeIndex.equal` and `BTreeIndex.range` make of one entry's key.
  unfoldable pub matches_key : IndexLookup F → Value F → Result Bool
  matches_key (equal_to key) k = do
    scalar ← normalize_key key
    o ← compare_keys k scalar
    ok (is_same o)
  matches_key (range start end include_start include_end) k =
      in_range k start end include_start include_end
