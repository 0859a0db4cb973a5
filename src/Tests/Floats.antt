-- ===== src/Tests/Floats.antt =====
-- Numbers to run the model on: floats that are whole.
use tinydb_sueprflow.Prelude.{zero, refl, ap, Bool, true, false, some, [], arith}
use tinydb_sueprflow.Python.Int.{ℤ, pos, compare_ℤ, compare_ℤ-flip}
use tinydb_sueprflow.Python.Float.{Num, FloatOps, FloatLaws}
use tinydb_sueprflow.Python.Unicode.{Unicode, AsciiLaws, ascii}
use tinydb_sueprflow.Sql.Lexer.Quoting.{QuoteLaws}

pub data Whole : Type 0 where
  whole : ℤ → Whole

abbrev as_int : Num Whole → ℤ
as_int (Num.int n) = n
as_int (Num.float (whole n)) = n

abbrev no_fraction : Whole → Bool
no_fraction (whole (pos zero)) = true
no_fraction x = false

instance abbrev pub whole_ops : FloatOps Whole
whole_ops = record {
  of_int = λ n. some (whole n);
  of_text = λ t. whole (pos 0);
  compare = λ a b. some (compare_ℤ (as_int a) (as_int b));
  to_text = λ x. [];
  is_zero = no_fraction;
}

instance pub whole_laws : FloatLaws Whole
whole_laws = record { compare-flip = λ a b. ap some (compare_ℤ-flip (as_int a) (as_int b)) }

instance abbrev pub plain : Unicode
plain = ascii

instance pub plain_ascii : AsciiLaws
plain_ascii = record { upper_upper = λ c h. ground (arith, h) }

instance pub plain_quote : QuoteLaws
plain_quote = record { not_space = refl; not_alpha = refl; not_digit = refl }
