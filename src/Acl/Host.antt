-- ===== src/Acl/Host.antt =====
-- Go's floating-point numbers and Unicode case mapping, which the model does not define: `float64`
-- and `float32` are types with the operations that internal/acl uses.
use intelligent_odoo_dev_too.Prelude.{Bool, Option}
use intelligent_odoo_dev_too.Prelude.Int.{ℤ}
use intelligent_odoo_dev_too.Prelude.Text.{Bytes}

pub record Host : Type 1 where
  pub Float64 : Type 0
  pub Float32 : Type 0
  -- `float64(n)`, `float64(f)` of a `float32`, and `int(f)`.
  pub of_int : ℤ → Float64
  pub widen : Float32 → Float64
  pub to_int : Float64 → ℤ
  -- `a == b`, `a == 0`, `a - b`, `math.Abs(a) < 1e-9` and `a < 0`.
  pub float_eq : Float64 → Float64 → Bool
  pub is_zero : Float64 → Bool
  pub minus : Float64 → Float64 → Float64
  pub is_tiny : Float64 → Bool
  pub is_negative : Float64 → Bool
  -- `strconv.ParseFloat(s, 64)`, and `%v` of the two types.
  pub parse_float : Bytes → Option Float64
  pub print64 : Float64 → Bytes
  pub print32 : Float32 → Bytes
  -- `strings.ToLower` of a string with a byte above 127.
  pub unicode_lower : Bytes → Bytes
