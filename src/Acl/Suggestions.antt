-- ===== src/Acl/Suggestions.antt =====
-- internal/acl/suggestion.go: the fixes proposed for a denied trace. Texts are constructors with
-- the values that they show, except the reason of the user stage, which the code searches.
use intelligent_odoo_dev_too.Prelude.{
  ℕ, ◌+◌, Bool, true, false, not, ◌&&◌, ◌||◌, Option, none, some, List, [], ◌∷◌, ◌++◌,
  if◌then◌else◌, any, keep, map, length, ltb, ◌==◌,
}
use intelligent_odoo_dev_too.Prelude.Int.{ℤ}
use intelligent_odoo_dev_too.Prelude.Text.{Bytes, codes, contains}
use intelligent_odoo_dev_too.Domain.Parser.{ParseError}
use intelligent_odoo_dev_too.Acl.Host.{Host}
use intelligent_odoo_dev_too.Acl.Any.{decimal}
use intelligent_odoo_dev_too.Acl.Compare.{to_lower}
use intelligent_odoo_dev_too.Acl.Types.{
  Verdict, ok, denied, skipped, error, ResolvedUser, Operation, AclRuleMatch, RecordRuleMatch,
}
use intelligent_odoo_dev_too.Acl.Users.{
  UserReason, users_not_in_schema, user_not_found, user_inactive, user_resolved, user_is_superuser,
  UserResult,
}
use intelligent_odoo_dev_too.Acl.Groups.{GroupResult}
use intelligent_odoo_dev_too.Acl.ModelAcl.{ModelAclDetail, ModelAclResult}
use intelligent_odoo_dev_too.Acl.RecordRules.{RecordRuleResult}
use intelligent_odoo_dev_too.Acl.Suggestions.Texts.{
  sanitize_model_name, dedup_strings, rule_group_ids, user_reason_text,
}
use intelligent_odoo_dev_too.Acl.Evaluate.{
  RecordRuleDetail, ConditionResult, RuleDomainResult, DomainEvalDetail, DomainStageResult,
}
pub mod Texts

abbrev pub is_denied : Verdict → Bool
is_denied denied = true
is_denied _ = false

abbrev pub is_error : Verdict → Bool
is_error error = true
is_error _ = false

-- `Severity`.
pub data Severity : Type 0 where
  low medium high : Severity

module _ (F G : Type 0) where
  -- `StageResult`, one constructor for each value of its `Stage`; `domain_not_evaluated` is the
  -- skipped domain stage.
  pub data StageResult : Type 0 where
    user_stage : UserResult → StageResult
    groups_stage : GroupResult → StageResult
    model_acl_stage : ModelAclResult → StageResult
    record_rule_stage : RecordRuleResult → StageResult
    domain_stage : DomainStageResult F G → StageResult
    domain_not_evaluated : StageResult

  -- What `collectFailedConditions` describes.
  pub data FailedConditions : Type 0 where
    failed_conditions : List (ConditionResult F G) → FailedConditions
    parse_failed : ParseError → FailedConditions
    unknown_failure : FailedConditions

  -- The summaries and details of the suggestions, with what they show.
  pub data Fix : Type 0 where
    check_schema_snapshot : StageResult → Fix
    reactivate_user verify_user_exists : Fix
    user_validation_failed : Bytes → Fix
    check_security_groups : Fix
    update_access_rules : Fix
    create_access_rule : Bytes → Bytes → Fix
    grant_permission : ℕ → Bytes → Operation → Fix
    add_to_access_group : ℕ → Bytes → Operation → List Bytes → Fix
    review_record_rules : Fix
    add_to_rule_group : Bytes → List Bytes → List Bytes → Fix
    fix_global_rule : Bytes → Bytes → FailedConditions → Fix
    fix_group_rules : List (Bytes × Bytes × FailedConditions) → Fix

  pub record Suggestion : Type 0 where
    pub fix : Fix
    pub severity : Severity

module _ {F G : Type 0} where
  -- `stage.Verdict`.
  abbrev pub verdict_of : StageResult F G → Verdict
  verdict_of (user_stage r) = r.verdict
  verdict_of (groups_stage r) = r.verdict
  verdict_of (model_acl_stage r) = r.verdict
  verdict_of (record_rule_stage r) = r.verdict
  verdict_of (domain_stage r) = r.verdict
  verdict_of domain_not_evaluated = skipped

  abbrev suggest : Severity → Fix F G → Suggestion F G
  suggest severity fix = record { fix = fix; severity = severity }

  -- `suggestForError`.
  abbrev pub suggest_for_error : StageResult F G → List (Suggestion F G)
  suggest_for_error stage = suggest medium (check_schema_snapshot stage) ∷ []

  -- `suggestGroupFixes`.
  abbrev pub suggest_group_fixes : List (Suggestion F G)
  suggest_group_fixes = suggest medium check_security_groups ∷ []

  -- `suggestModelACLFixes`.
  abbrev pub suggest_access : ModelAclDetail → List Bytes → List Bytes → List (Suggestion F G)
  suggest_access d applicable_no_grant not_applicable =
      (if ltb 0 (length applicable_no_grant)
        then suggest low (grant_permission (length applicable_no_grant) d.model d.operation) ∷ []
        else [])
      ++ (if ltb 0 (length not_applicable) && length applicable_no_grant == 0
          then suggest medium
              (add_to_access_group (length not_applicable) d.model d.operation not_applicable)
            ∷ []
          else [])

  unfoldable pub suggest_model_acl_fixes : Option ModelAclDetail → List (Suggestion F G)
  unfolding sanitize_model_name
  suggest_model_acl_fixes none = suggest medium update_access_rules ∷ []
  suggest_model_acl_fixes (some d) =
      if length d.rules == 0
      then suggest medium (create_access_rule d.model (sanitize_model_name d.model)) ∷ []
      else suggest_access d (map (λ r. r.group_id) (keep (λ r. r.applies && not r.grants) d.rules))
          (map (λ r. r.group_id) (keep (λ r. not r.applies) d.rules))

  -- `suggestRecordRuleFixes`.
  abbrev pub suggest_rule_groups : Bytes → List RecordRuleMatch → List (Suggestion F G)
  suggest_rule_groups model rs =
      if ltb 0 (length rs)
      then suggest medium
          (add_to_rule_group model (map (λ r. r.name) rs) (dedup_strings (rule_group_ids rs)))
        ∷ []
      else []

  unfoldable pub suggest_record_rule_fixes : Option RecordRuleDetail → List (Suggestion F G)
  unfolding dedup_strings rule_group_ids
  suggest_record_rule_fixes none = suggest medium review_record_rules ∷ []
  suggest_record_rule_fixes (some d) =
      if ltb 0 (length d.group_rules)
      then suggest_rule_groups d.model (keep (λ r. not r.applies) d.group_rules)
      else []

  -- `collectFailedConditions`.
  abbrev pub describe_parse : Option ParseError → FailedConditions F G
  describe_parse none = unknown_failure
  describe_parse (some e) = parse_failed e

  unfoldable pub collect_failed_conditions : RuleDomainResult F G → FailedConditions F G
  collect_failed_conditions rr =
      let failing = keep (λ c. not c.pass) rr.conditions in
      if length failing == 0 then describe_parse rr.parse_error else failed_conditions failing

  -- `suggestDomainFixes`; the detail of a domain stage is always there.
  unfoldable pub suggest_global_rules : List (RuleDomainResult F G) → List (Suggestion F G)
  unfolding collect_failed_conditions
  suggest_global_rules [] = []
  suggest_global_rules (rr ∷ results) =
      if rr.is_global && not rr.pass
      then suggest high (fix_global_rule rr.rule_name rr.domain (collect_failed_conditions rr))
        ∷ suggest_global_rules results
      else suggest_global_rules results

  abbrev failed_rule : RuleDomainResult F G → Bytes × Bytes × FailedConditions F G
  failed_rule rr = (rr.rule_name, rr.domain, collect_failed_conditions rr)

  abbrev pub suggest_group_rules : List (RuleDomainResult F G) → List (Suggestion F G)
  suggest_group_rules failing =
      if ltb 0 (length failing)
      then suggest medium (fix_group_rules (map failed_rule failing)) ∷ []
      else []

  unfoldable pub suggest_domain_fixes : DomainEvalDetail F G → List (Suggestion F G)
  unfolding suggest_global_rules
  suggest_domain_fixes d =
      suggest_global_rules d.rule_results
      ++ (if d.group_pass
          then []
          else suggest_group_rules (keep (λ rr. not rr.is_global && not rr.pass) d.rule_results))

module _ (h : Host) where
  open h use {Float64, Float32}

  abbrev Suggestions : Type 0
  Suggestions = List (Suggestion Float64 Float32)

  -- `suggestUserFixes`.
  abbrev pub or_invalid : Bytes → Suggestions → Suggestions
  or_invalid reason [] = suggest low (user_validation_failed reason) ∷ []
  or_invalid reason (s ∷ ss) = s ∷ ss

  unfoldable pub suggest_user_fixes : Bytes → Suggestions
  unfolding contains to_lower
  suggest_user_fixes text =
      let reason = to_lower h text in
      or_invalid text (
        (if contains reason (codes "inactive") then suggest low reactivate_user ∷ [] else [])
        ++ (if contains reason (codes "not found") || contains reason (codes "no data")
            then suggest low verify_user_exists ∷ []
            else []))

  -- `suggestForDenied`.
  unfoldable pub suggest_for_denied : StageResult Float64 Float32 → Suggestions
  unfolding suggest_user_fixes user_reason_text suggest_model_acl_fixes suggest_record_rule_fixes
      suggest_domain_fixes
  suggest_for_denied (user_stage r) = suggest_user_fixes (user_reason_text r)
  suggest_for_denied (groups_stage r) = suggest_group_fixes
  suggest_for_denied (model_acl_stage r) = suggest_model_acl_fixes r.detail
  suggest_for_denied (record_rule_stage r) = suggest_record_rule_fixes r.detail
  suggest_for_denied (domain_stage r) = suggest_domain_fixes r.detail
  suggest_for_denied domain_not_evaluated = []

  -- The `switch` of `Generate`.
  abbrev pub suggest_at : Verdict → StageResult Float64 Float32 → Suggestions
  suggest_at denied stage = suggest_for_denied stage
  suggest_at error stage = suggest_for_error stage
  suggest_at ok stage = []
  suggest_at skipped stage = []

  -- `Generate`.
  unfoldable pub generate : List (StageResult Float64 Float32) → Suggestions
  unfolding suggest_for_denied
  generate [] = []
  generate (stage ∷ stages) = suggest_at (verdict_of stage) stage ++ generate stages
