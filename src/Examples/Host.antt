-- ===== src/Examples/Host.antt =====
-- A host whose floating-point numbers are integers.
use intelligent_odoo_dev_too.Prelude.{zero, suc}
use intelligent_odoo_dev_too.Prelude.Int.{ℤ, pos, negsuc, ◌+ℤ◌, eqb_ℤ, ltb_ℤ}
use intelligent_odoo_dev_too.Acl.Host.{Host}
use intelligent_odoo_dev_too.Acl.Any.{decimal}
use intelligent_odoo_dev_too.Domain.Parser.{parse_int64}

abbrev opposite : ℤ → ℤ
opposite (pos zero) = pos 0
opposite (pos (suc n)) = negsuc n
opposite (negsuc n) = pos (suc n)

abbrev pub whole_host : Host
whole_host = record {
  Float64 = ℤ;
  Float32 = ℤ;
  of_int = λ n. n;
  widen = λ n. n;
  to_int = λ n. n;
  float_eq = eqb_ℤ;
  is_zero = eqb_ℤ (pos 0);
  minus = λ a b. a +ℤ opposite b;
  is_tiny = eqb_ℤ (pos 0);
  is_negative = λ a. ltb_ℤ a (pos 0);
  parse_float = parse_int64;
  print64 = decimal;
  print32 = decimal;
  unicode_lower = λ s. s;
}
