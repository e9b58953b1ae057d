-- ===== src/Acl/Resolve.antt =====
-- internal/acl/domain_evaluator.go: the values of a condition, with references to the user and the
-- companies replaced.
use intelligent_odoo_dev_too.Prelude.{◌||◌, Option, none, some, if◌then◌else◌}
use intelligent_odoo_dev_too.Prelude.Text.{Bytes, codes, eqb}
use intelligent_odoo_dev_too.Domain.Ast.{
  Value, string_value, int_value, float_value, bool_value, none_value, list_value, tuple_value,
  ref_value, Values, no_values, value,
}
use intelligent_odoo_dev_too.Acl.Any.{
  Any, Anys, nil_any, bool_any, int64_any, float64_any, string_any, slice_any, no_anys,
  any as any_item,
}
use intelligent_odoo_dev_too.Acl.Compare.{anys_of}
use intelligent_odoo_dev_too.Acl.Types.{EvalContext}

-- `resolveRef`; `none` is the error.
unfoldable pub resolve_ref : {F G : Type 0} → Bytes → EvalContext → Option (Any F G)
resolve_ref ref ctx =
    if eqb ref (codes "user.id")
    then some (int64_any ctx.user_id)
    else if eqb ref (codes "user.company_id") || eqb ref (codes "user.company_id.id")
    then some (int64_any ctx.company_id)
    else if eqb ref (codes "company_ids") || eqb ref (codes "user.company_ids")
    then some (slice_any (anys_of int64_any ctx.company_ids))
    else none

-- The reference that cannot be resolved, or the value.
pub data Resolved (A : Type 0) : Type 0 where
  resolved : A → Resolved A
  unresolved : Bytes → Resolved A

infixl 5 ◌>>=◌
abbrev pub ◌>>=◌ : {A B : Type 0} → Resolved A → (A → Resolved B) → Resolved B
resolved a >>= f = f a
unresolved ref >>= f = unresolved ref

abbrev pub or_unresolved : {A : Type 0} → Bytes → Option A → Resolved A
or_unresolved ref none = unresolved ref
or_unresolved ref (some a) = resolved a

module _ {F G : Type 0} (ctx : EvalContext) where
  -- `resolveValue`.
  unfoldable mutual
    unfolding resolve_ref

    pub resolve_value : Value F → Resolved (Any F G)
    resolve_value (string_value s) = resolved (string_any s)
    resolve_value (int_value n) = resolved (int64_any n)
    resolve_value (float_value f) = resolved (float64_any f)
    resolve_value (bool_value b) = resolved (bool_any b)
    resolve_value none_value = resolved nil_any
    resolve_value (ref_value ref) = or_unresolved ref (resolve_ref ref ctx)
    resolve_value (list_value vs) = do items ← resolve_values vs; resolved (slice_any items)
    resolve_value (tuple_value vs) = do items ← resolve_values vs; resolved (slice_any items)

    pub resolve_values : Values F → Resolved (Anys F G)
    resolve_values no_values = resolved no_anys
    resolve_values (value v vs) = do
      item ← resolve_value v
      items ← resolve_values vs
      resolved (any_item item items)
