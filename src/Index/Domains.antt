-- ===== src/Index/Domains.antt =====
-- The keys of a column of integers and of a column of texts are comparable with one another.
use tinydb_sueprflow.Prelude.{◌≡◌, refl, sym, ap, ◌∙◌, false, arith}
use tinydb_sueprflow.Errors.{ok}
use tinydb_sueprflow.Python.Int.{ℤ, compare_ℤ, compare_ℤ-flip, is_greater}
use tinydb_sueprflow.Python.Float.{FloatOps}
use tinydb_sueprflow.Value.{Value, int, compare_values}
use tinydb_sueprflow.Index.Keys.{compare_keys}
use tinydb_sueprflow.Index.Order.{cmp, KeyDomain}

compare_ℤ_trans :
    (a b c : ℤ)
    → is_greater (compare_ℤ a b) ≡ false
    → is_greater (compare_ℤ b c) ≡ false
    → is_greater (compare_ℤ a c) ≡ false
unfolding compare_ℤ
compare_ℤ_trans a b c h k = ground arith

abbrev pub IsInt : {F : Type 0} → Value F → Type 0
IsInt v = (n : ℤ) × (v ≡ int n)

module _ (F : Type 0) ⦃fl : FloatOps F⦄ where
  cmp-int : (a b : ℤ) → cmp {F = F} (int a) (int b) ≡ compare_ℤ a b
  unfolding cmp compare_keys compare_values
  cmp-int a b = refl

  compare_keys-int : (a b : ℤ) → compare_keys {F = F} (int a) (int b) ≡ ok (compare_ℤ a b)
  unfolding compare_keys compare_values
  compare_keys-int a b = refl

  -- Integer keys are comparable with one another, in the order of the integers.
  pub IsInt-KeyDomain : KeyDomain {F = F} IsInt
  IsInt-KeyDomain = record {
    comparable = λ a b (m, e) (n, k). rw (e, k) (compare_keys-int m n ∙ ap ok (sym (cmp-int m n)));
    cmp-flip = λ a b (m, e) (n, k). rw (e, k, cmp-int m n, cmp-int n m) (compare_ℤ-flip m n);
    cmp_trans = λ a b c (m, e) (n, k) (o, l).
        rw (e, k, l, cmp-int m n, cmp-int n o, cmp-int m o) (compare_ℤ_trans m n o);
  }
