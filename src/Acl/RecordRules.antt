-- ===== src/Acl/RecordRules.antt =====
-- internal/acl/record_rule_finder.go: the ir.rule stage. Its reasons are constructors with the
-- numbers that they show.
use intelligent_odoo_dev_too.Prelude.{
  ℕ, zero, ◌+◌, Bool, true, false, not, ◌&&◌, ◌||◌, Option, none, some, List, [], ◌∷◌,
  if◌then◌else◌, any, keep, map, count_if, length, ◌==◌, ltb,
}
use intelligent_odoo_dev_too.Prelude.Text.{Bytes}
use intelligent_odoo_dev_too.Prelude.Int.{ℤ}
use intelligent_odoo_dev_too.Acl.Types.{
  Verdict, ok, denied, skipped, error, ResolvedUser, is_super_user, ResolvedGroups, has_group,
  Operation, op_read, op_write, op_create, op_unlink, other_operation, SchemaRecordRule,
  SchemaModel, SchemaModels, lookup_model, RecordRuleMatch,
}
use intelligent_odoo_dev_too.Acl.Evaluate.{RecordRuleDetail}
pub mod Meaning

pub data Reason : Type 0 where
  super_user model_not_found no_record_rules no_rule_for_operation : Reason
  no_group_rule_matches : ℕ → Reason
  rules_apply : ℕ → ℕ → ℕ → Reason

pub record RecordRuleResult : Type 0 where
  pub verdict : Verdict
  pub reason : Reason
  pub detail : Option RecordRuleDetail

-- `recordRulePermForOp`.
unfoldable pub perm_for_op : SchemaRecordRule → Operation → Bool
perm_for_op r op =
    if not r.perm_read && not r.perm_write && not r.perm_create && not r.perm_unlink
    then true
    else elim op [
      | op_read ↦ r.perm_read
      | op_write ↦ r.perm_write
      | op_create ↦ r.perm_create
      | op_unlink ↦ r.perm_unlink
      | other_operation _ ↦ false
    ]

-- `userInRuleGroups`.
unfoldable pub user_in_rule_groups : List ℤ → ResolvedGroups → Bool
user_in_rule_groups ids groups = any (has_group groups) ids

-- The body of the loop of `Find` on a rule that covers the operation.
unfoldable pub match_rule : ResolvedGroups → SchemaRecordRule → RecordRuleMatch
unfolding user_in_rule_groups
match_rule groups r = record {
  name = r.name;
  domain = r.domain;
  is_global = length r.group_ids == 0;
  applies = length r.group_ids == 0 || user_in_rule_groups r.group_ids groups;
  group_ids = r.group_ids;
}

-- The matches of the rules that cover the operation, in order.
unfoldable pub matches : ResolvedGroups → Operation → List SchemaRecordRule → List RecordRuleMatch
unfolding perm_for_op match_rule
matches groups op rules = map (match_rule groups) (keep (λ r. perm_for_op r op) rules)

abbrev pub empty_detail : Bytes → Operation → RecordRuleDetail
empty_detail model op = record {
  model = model;
  operation = op;
  global_rules = [];
  group_rules = [];
  total_rules = 0;
  applied_count = 0;
}

-- What the loop leaves: `globalRules`, `groupRules` and `appliedCount`.
abbrev pub detail_of : Bytes → Operation → List RecordRuleMatch → RecordRuleDetail
detail_of model op ms = record {
  model = model;
  operation = op;
  global_rules = keep (λ m. m.is_global) ms;
  group_rules = keep (λ m. not m.is_global) ms;
  total_rules = length (keep (λ m. m.is_global) ms) + length (keep (λ m. not m.is_global) ms);
  applied_count = count_if (λ m. m.applies) ms;
}

-- The end of `Find`, from `detail` on.
abbrev pub conclude : RecordRuleDetail → RecordRuleResult
conclude d =
    if d.total_rules == 0
    then record { verdict = skipped; reason = no_rule_for_operation; detail = some d }
    else if ltb 0 (length d.group_rules) && not (any (λ m. m.applies) d.group_rules)
    then record {
      verdict = denied;
      reason = no_group_rule_matches (length d.group_rules);
      detail = some d;
    }
    else record {
      verdict = ok;
      reason =
          rules_apply d.applied_count (length d.global_rules)
            (count_if (λ m. m.applies) d.group_rules);
      detail = some d;
    }

-- `Find` from the test of the model's rules on.
abbrev pub find_rules :
    ResolvedGroups → Bytes → Operation → List SchemaRecordRule → RecordRuleResult
find_rules groups model op rules =
    if length rules == 0
    then record {
      verdict = skipped;
      reason = no_record_rules;
      detail = some (empty_detail model op);
    }
    else conclude (detail_of model op (matches groups op rules))

abbrev pub find_in : ResolvedGroups → Bytes → Operation → Option SchemaModel → RecordRuleResult
find_in groups model op none = record { verdict = error; reason = model_not_found; detail = none }
find_in groups model op (some m) = find_rules groups model op m.rules

-- `Find`.
unfoldable pub find :
    SchemaModels → ResolvedUser → ResolvedGroups → Bytes → Operation → RecordRuleResult
unfolding lookup_model matches
find schema user groups model op =
    if is_super_user user
    then record { verdict = ok; reason = super_user; detail = some (empty_detail model op) }
    else find_in groups model op (lookup_model model schema)
