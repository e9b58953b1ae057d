-- ===== src/Acl/Compare.antt =====
-- internal/acl/domain_evaluator.go: how a record's value is compared with a domain's.
use intelligent_odoo_dev_too.Prelude.{
  ℕ, ◌+◌, Bool, true, false, not, ◌&&◌, Option, none, some, List, [], ◌∷◌, map, leb, ltb,
  if◌then◌else◌, all,
}
use intelligent_odoo_dev_too.Prelude.Int.{ℤ, pos, negsuc, eqb_ℤ, ltb_ℤ, leb_ℤ}
use intelligent_odoo_dev_too.Prelude.Text.{Bytes, eqb}
use intelligent_odoo_dev_too.Domain.Ast.{
  Operator, op_equal, op_not_equal, op_less, op_less_eq, op_greater, op_greater_eq, op_in,
  op_not_in, op_like, op_not_like, op_ilike, op_not_ilike, op_eq_like, op_eq_ilike, op_child_of,
  op_parent_of,
}
use intelligent_odoo_dev_too.Acl.Host.{Host}
use intelligent_odoo_dev_too.Acl.Any.{
  Any, Anys, nil_any, bool_any, int_any, int64_any, float64_any, float32_any, string_any, slice_any,
  ints_any, int64s_any, float64s_any, strings_any, no_anys, any, sprint_v,
}
use intelligent_odoo_dev_too.Acl.Like.{match_like}

abbrev pub anys_of {ℓ} : {F G : Type 0} {A : Type ℓ} → (A → Any F G) → List A → Anys F G
anys_of f [] = no_anys
anys_of f (x ∷ xs) = any (f x) (anys_of f xs)

-- `toSlice`.
unfoldable pub to_slice : {F G : Type 0} → Any F G → Option (Anys F G)
to_slice (slice_any vs) = some vs
to_slice (ints_any ns) = some (anys_of int_any ns)
to_slice (int64s_any ns) = some (anys_of int64_any ns)
to_slice (float64s_any fs) = some (anys_of float64_any fs)
to_slice (strings_any ss) = some (anys_of string_any ss)
to_slice _ = none

-- The text of a value that holds a string, and the truth of one that holds a bool.
abbrev pub as_string : {F G : Type 0} → Any F G → Option Bytes
as_string (string_any s) = some s
as_string _ = none

abbrev pub as_bool : {F G : Type 0} → Any F G → Option Bool
as_bool (bool_any b) = some b
as_bool _ = none

abbrev pub same_bool : Bool → Bool → Bool
same_bool true b = b
same_bool false b = not b

-- Runs the test when both values are there.
abbrev pub both {ℓ κ} : {A : Type ℓ} {B : Type κ} → Option A → Option A → (A → A → B) → Option B
both (some a) (some b) f = some (f a b)
both _ _ f = none

abbrev pub or_else {ℓ} : {A : Type ℓ} → Option A → A → A
or_else none d = d
or_else (some a) d = a

-- ASCII letters in lower case.
abbrev pub ascii_lower : ℕ → ℕ
ascii_lower c = if leb b'A' c && leb c b'Z' then c + 32 else c

module _ (h : Host) where
  open h use {
    Float64, Float32, of_int, widen, float_eq, is_zero, minus, is_tiny, is_negative, unicode_lower,
  }

  -- `isNilOrFalse`.
  unfoldable pub is_nil_or_false : Any Float64 Float32 → Bool
  is_nil_or_false nil_any = true
  is_nil_or_false (bool_any b) = not b
  is_nil_or_false (int_any n) = eqb_ℤ n (pos 0)
  is_nil_or_false (int64_any n) = eqb_ℤ n (pos 0)
  is_nil_or_false (float64_any f) = is_zero f
  is_nil_or_false _ = false

  -- `toFloat64`.
  unfoldable pub to_float64 : Any Float64 Float32 → Option Float64
  to_float64 (int_any n) = some (of_int n)
  to_float64 (int64_any n) = some (of_int n)
  to_float64 (float64_any f) = some f
  to_float64 (float32_any f) = some (widen f)
  to_float64 _ = none

  -- `valuesEqual`.
  unfoldable pub values_equal : Any Float64 Float32 → Any Float64 Float32 → Bool
  unfolding is_nil_or_false to_float64 sprint_v
  values_equal a b =
      if is_nil_or_false a && is_nil_or_false b
      then true
      else if not (same_bool (is_nil_or_false a) (is_nil_or_false b))
      then false
      else or_else (both (to_float64 a) (to_float64 b) float_eq) (
          or_else (both (as_string a) (as_string b) eqb)
            (or_else (both (as_bool a) (as_bool b) same_bool) (eqb (sprint_v h a) (sprint_v h b))))

  -- `numericCompare`.
  abbrev pub sign_of : Float64 → ℤ
  sign_of diff = if is_tiny diff then pos 0 else if is_negative diff then negsuc 0 else pos 1

  unfoldable pub numeric_compare : Any Float64 Float32 → Any Float64 Float32 → ℤ
  unfolding to_float64
  numeric_compare a b =
      or_else (both (to_float64 a) (to_float64 b) (λ x y. sign_of (minus x y))) (pos 0)

  -- `valueIn`.
  unfoldable pub in_items : Any Float64 Float32 → Anys Float64 Float32 → Bool
  unfolding values_equal
  in_items v no_anys = false
  in_items v (any w ws) = if values_equal v w then true else in_items v ws

  abbrev pub in_slice :
      Any Float64 Float32 → Any Float64 Float32 → Option (Anys Float64 Float32) → Bool
  in_slice actual expected none = values_equal actual expected
  in_slice actual expected (some items) = in_items actual items

  unfoldable pub value_in : Any Float64 Float32 → Any Float64 Float32 → Bool
  unfolding in_items to_slice
  value_in actual expected = in_slice actual expected (to_slice expected)

  -- `strings.ToLower`: byte by byte for ASCII, and the host's mapping for other strings.
  unfoldable pub to_lower : Bytes → Bytes
  to_lower s = if all (λ c. ltb c 128) s then map ascii_lower s else unicode_lower s

  -- `stringLike`.
  unfoldable pub string_like : Any Float64 Float32 → Any Float64 Float32 → Bool → Bool
  unfolding to_lower match_like
  string_like (string_any s) (string_any p) true = match_like s p
  string_like (string_any s) (string_any p) false = match_like (to_lower s) (to_lower p)
  string_like _ _ case_sensitive = false

  -- `operatorFuncs` and `compare`.
  unfoldable pub compare : Operator → Any Float64 Float32 → Any Float64 Float32 → Bool
  unfolding values_equal numeric_compare value_in string_like
  compare op_equal a e = values_equal a e
  compare op_not_equal a e = not (values_equal a e)
  compare op_less a e = ltb_ℤ (numeric_compare a e) (pos 0)
  compare op_less_eq a e = leb_ℤ (numeric_compare a e) (pos 0)
  compare op_greater a e = ltb_ℤ (pos 0) (numeric_compare a e)
  compare op_greater_eq a e = leb_ℤ (pos 0) (numeric_compare a e)
  compare op_in a e = value_in a e
  compare op_not_in a e = not (value_in a e)
  compare op_like a e = string_like a e true
  compare op_not_like a e = not (string_like a e true)
  compare op_ilike a e = string_like a e false
  compare op_not_ilike a e = not (string_like a e false)
  compare op_eq_like a e = string_like a e true
  compare op_eq_ilike a e = string_like a e false
  compare op_child_of a e = true
  compare op_parent_of a e = true
