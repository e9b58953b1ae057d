-- ===== src/Acl/ModelAcl.antt =====
-- internal/acl/model_acl_checker.go: the ir.model.access stage. Its reasons are constructors with
-- the numbers that they show.
use intelligent_odoo_dev_too.Prelude.{
  ℕ, Bool, true, false, ◌&&◌, ◌||◌, Option, none, some, List, [], ◌∷◌, if◌then◌else◌, any, map,
  count_if, length, ◌==◌,
}
use intelligent_odoo_dev_too.Prelude.Text.{Bytes, codes, eqb}
use intelligent_odoo_dev_too.Prelude.Int.{ℤ}
use intelligent_odoo_dev_too.Domain.Parser.{parse_int64}
use intelligent_odoo_dev_too.Acl.Types.{
  Verdict, ok, denied, error, ResolvedUser, is_super_user, ResolvedGroups, has_group, Operation,
  op_read, op_write, op_create, op_unlink, other_operation, AclRuleMatch, SchemaAccessRule,
  SchemaModel, SchemaModels, lookup_model,
}
pub mod Meaning

-- `ModelACLDetail`.
pub record ModelAclDetail : Type 0 where
  pub model : Bytes
  pub operation : Operation
  pub rules : List AclRuleMatch
  pub granted : Bool

pub data Reason : Type 0 where
  super_user model_not_found no_access_rules : Reason
  allowed : ℕ → ℕ → Reason
  none_apply : ℕ → Reason
  none_grant : ℕ → Reason

pub record ModelAclResult : Type 0 where
  pub verdict : Verdict
  pub reason : Reason
  pub detail : Option ModelAclDetail

-- `strconv.Atoi` and `HasGroup`.
abbrev pub has_parsed_group : Option ℤ → ResolvedGroups → Bool
has_parsed_group none groups = false
has_parsed_group (some id) groups = has_group groups id

-- `ruleApplies`.
unfoldable pub rule_applies : Bytes → ResolvedGroups → Bool
unfolding parse_int64
rule_applies group_id groups =
    if eqb group_id (codes "0") || eqb group_id []
    then true
    else has_parsed_group (parse_int64 group_id) groups

-- `permForOp`.
unfoldable pub perm_for_op : SchemaAccessRule → Operation → Bool
perm_for_op r op_read = r.perm_read
perm_for_op r op_write = r.perm_write
perm_for_op r op_create = r.perm_create
perm_for_op r op_unlink = r.perm_unlink
perm_for_op r (other_operation _) = false

-- The body of the loop of `Check`.
unfoldable pub match_rule : ResolvedGroups → Operation → SchemaAccessRule → AclRuleMatch
unfolding rule_applies perm_for_op
match_rule groups op r = record {
  group_id = r.group_id;
  grants = rule_applies r.group_id groups && perm_for_op r op;
  applies = rule_applies r.group_id groups;
  perm_read = r.perm_read;
  perm_write = r.perm_write;
  perm_create = r.perm_create;
  perm_unlink = r.perm_unlink;
}

-- The end of `Check`, from the matches on.
abbrev pub conclude : Bytes → Operation → List AclRuleMatch → ModelAclResult
conclude model op matches =
    let granted = any (λ m. m.grants) matches in
    let applicable = count_if (λ m. m.applies) matches in
    let detail : ModelAclDetail = record {
      model = model;
      operation = op;
      rules = matches;
      granted = granted;
    } in
    if granted
    then record {
      verdict = ok;
      reason = allowed (count_if (λ m. m.grants) matches) (length matches);
      detail = some detail;
    }
    else record {
      verdict = denied;
      reason = if applicable == 0 then none_apply (length matches) else none_grant applicable;
      detail = some detail;
    }

abbrev pub check_rules : ResolvedGroups → Bytes → Operation → List SchemaAccessRule → ModelAclResult
check_rules groups model op rules =
    if length rules == 0
    then record {
      verdict = denied;
      reason = no_access_rules;
      detail = some (record { model = model; operation = op; rules = []; granted = false });
    }
    else conclude model op (map (match_rule groups op) rules)

abbrev pub check_model : ResolvedGroups → Bytes → Operation → Option SchemaModel → ModelAclResult
check_model groups model op none = record {
  verdict = error;
  reason = model_not_found;
  detail = none;
}
check_model groups model op (some m) = check_rules groups model op m.accesses

-- `Check`.
unfoldable pub check :
    SchemaModels → ResolvedUser → ResolvedGroups → Bytes → Operation → ModelAclResult
unfolding lookup_model match_rule
check schema user groups model op =
    if is_super_user user
    then record {
      verdict = ok;
      reason = super_user;
      detail = some (record { model = model; operation = op; rules = []; granted = true });
    }
    else check_model groups model op (lookup_model model schema)
