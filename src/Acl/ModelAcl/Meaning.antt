-- ===== src/Acl/ModelAcl/Meaning.antt =====
-- internal/acl/model_acl_checker.go: when the ir.model.access stage lets a user pass.
use intelligent_odoo_dev_too.Prelude.{
  not, ◌≡◌, ◌↔◌, ◌⊎◌, refl, Bool, true, false, ◌&&◌, Option, none, some, List, [], ◌∷◌, any, map,
  arith,
}
use intelligent_odoo_dev_too.Prelude.Text.{Bytes}
use intelligent_odoo_dev_too.Acl.Types.{
  stops, ok, ResolvedUser, ResolvedGroups, Operation, AclRuleMatch, SchemaAccessRule, SchemaModel,
  SchemaModels, lookup_model,
}
use intelligent_odoo_dev_too.Acl.ModelAcl.{
  rule_applies, perm_for_op, match_rule, conclude, check_rules, check_model, check,
}

-- Some access rule of the model applies to the user's groups and grants the operation.
abbrev pub grants_access : ResolvedGroups → Operation → Option SchemaModel → Bool
grants_access groups op none = false
grants_access groups op (some m) =
    any (λ r. rule_applies r.group_id groups && perm_for_op r op) m.accesses

any-map_match :
    (groups : ResolvedGroups) (op : Operation) (rs : List SchemaAccessRule)
    → any (λ m. m.grants) (map (match_rule groups op) rs)
      ≡ any (λ r. rule_applies r.group_id groups && perm_for_op r op) rs
unfolding match_rule
any-map_match groups op [] = refl
any-map_match groups op (r ∷ rs) = ground (arith, any-map_match groups op rs)

conclude-verdict :
    (model : Bytes) (op : Operation) (ms : List AclRuleMatch)
    → ((conclude model op ms).verdict ≡ ok) ↔ (any (λ m. m.grants) ms ≡ true)
conclude-verdict model op ms = ground arith

stops-check_rules :
    (groups : ResolvedGroups) (model : Bytes) (op : Operation) (rs : List SchemaAccessRule)
    → stops (check_rules groups model op rs).verdict
      ≡ not (any (λ r. rule_applies r.group_id groups && perm_for_op r op) rs)
stops-check_rules groups model op [] = refl
stops-check_rules groups model op (r ∷ rs) = ground (arith, any-map_match groups op (r ∷ rs))

check_rules-verdict :
    (groups : ResolvedGroups) (model : Bytes) (op : Operation) (rs : List SchemaAccessRule)
    → ((check_rules groups model op rs).verdict ≡ ok)
      ↔ (any (λ r. rule_applies r.group_id groups && perm_for_op r op) rs ≡ true)
check_rules-verdict groups model op [] = (λ e. cc, λ e. cc)
check_rules-verdict groups model op (r ∷ rs) = ground (arith, any-map_match groups op (r ∷ rs))

check_model-verdict :
    (groups : ResolvedGroups) (model : Bytes) (op : Operation) (m : Option SchemaModel)
    → ((check_model groups model op m).verdict ≡ ok) ↔ (grants_access groups op m ≡ true)
check_model-verdict groups model op none = (λ e. cc, λ e. cc)
check_model-verdict groups model op (some m) = check_rules-verdict groups model op m.accesses

-- A user passes the stage exactly when the user is the superuser or some ir.model.access rule of
-- the model applies to the user's groups and grants the operation; without rules nobody else does.
pub check_verdict_iff :
    (schema : SchemaModels) (user : ResolvedUser) (groups : ResolvedGroups) (model : Bytes)
    (op : Operation)
    → ((check schema user groups model op).verdict ≡ ok)
      ↔ ((user.super_user ≡ true) ⊎ (grants_access groups op (lookup_model model schema) ≡ true))
unfolding check
check_verdict_iff schema user groups model op =
    ground (arith, check_model-verdict groups model op (lookup_model model schema))

-- For a plain user and a model of the schema, the stage lets the trace go on exactly if some rule
-- grants access.
pub stops-check :
    (schema : SchemaModels) (user : ResolvedUser) (groups : ResolvedGroups) (model : Bytes)
    (op : Operation) (m : SchemaModel)
    → user.super_user ≡ false
    → lookup_model model schema ≡ some m
    → stops (check schema user groups model op).verdict ≡ not (grants_access groups op (some m))
unfolding check
stops-check schema user groups model op m plain there =
    rw (plain, there) (stops-check_rules groups model op m.accesses)
