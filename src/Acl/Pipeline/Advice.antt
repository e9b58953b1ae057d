-- ===== src/Acl/Pipeline/Advice.antt =====
-- internal/acl/suggestion.go with acl_service.go: every denied trace comes with a suggestion.
use intelligent_odoo_dev_too.Prelude.{
  ◌+◌, ◌<◌, ◌≡◌, refl, Bool, true, false, not, ◌&&◌, Option, none, some, List, [], ◌∷◌, ◌++◌,
  if◌then◌else◌, any, keep, map, length, length-append, any-append, arith, ◌==◌, Bool-cases, inl,
  inr,
}
use intelligent_odoo_dev_too.Prelude.Text.{Bytes}
use intelligent_odoo_dev_too.Acl.Host.{Host}
use intelligent_odoo_dev_too.Acl.Any.{Entries}
use intelligent_odoo_dev_too.Acl.Types.{
  stops, Verdict, ok, denied, skipped, error, ResolvedUser, ResolvedGroups, Operation, AclRuleMatch,
  SchemaAccessRule, SchemaRecordRule, SchemaModel, SchemaModels, lookup_model, RecordRuleMatch,
  EvalContext,
}
use intelligent_odoo_dev_too.Acl.Users.{UserResult}
use intelligent_odoo_dev_too.Acl.ModelAcl
use intelligent_odoo_dev_too.Acl.ModelAcl.{ModelAclDetail, ModelAclResult, check}
use intelligent_odoo_dev_too.Acl.RecordRules
use intelligent_odoo_dev_too.Acl.RecordRules.{RecordRuleResult, find}
use intelligent_odoo_dev_too.Acl.Evaluate.{
  RecordRuleDetail, RuleDomainResult, evaluate, evaluate_global_rules, group_results,
  evaluate_group_rules,
}
use intelligent_odoo_dev_too.Acl.Evaluate.Meaning.{global-eval_rule}
use intelligent_odoo_dev_too.Acl.Suggestions.{
  StageResult, user_stage, model_acl_stage, record_rule_stage, domain_stage, verdict_of, is_denied,
  suggest_for_denied, suggest_at, generate, suggest_model_acl_fixes, suggest_record_rule_fixes,
  suggest_global_rules, suggest_domain_fixes, suggest_user_fixes,
}
use intelligent_odoo_dev_too.Acl.Pipeline.{Stages}

-- Without a rule that grants, every rule either applies and does not grant or does not apply.
ungranted-length :
    (ms : List AclRuleMatch)
    → any (λ m. m.grants) ms ≡ false
    → length (map (λ r. r.group_id) (keep (λ r. r.applies && not r.grants) ms))
        + length (map (λ r. r.group_id) (keep (λ r. not r.applies) ms))
      ≡ length ms
ungranted-length [] e = omega arith
ungranted-length (m ∷ ms) e = ground (arith, ungranted-length ms)

unmatched-length :
    (ms : List RecordRuleMatch)
    → any (λ m. m.applies) ms ≡ false
    → length (keep (λ r. not r.applies) ms) ≡ length ms
unmatched-length [] e = refl
unmatched-length (m ∷ ms) e = ground (arith, unmatched-length ms)

nonempty_left {ℓ} : {A : Type ℓ} (xs ys : List A) → 0 < length xs → 0 < length (xs ++ ys)
nonempty_left xs ys p = omega (arith, length-append xs ys)

nonempty_right {ℓ} : {A : Type ℓ} (xs ys : List A) → 0 < length ys → 0 < length (xs ++ ys)
nonempty_right xs ys p = omega (arith, length-append xs ys)

module _ (h : Host) where
  open h use {Float64, Float32}

  -- A stage that denies has a suggestion.
  abbrev pub IsAdvised : StageResult Float64 Float32 → Type 0
  IsAdvised s = is_denied (verdict_of s) ≡ true → 0 < length (suggest_for_denied h s)

  abbrev pub AllAdvised : Stages h → Type 0
  AllAdvised [] = Unit
  AllAdvised (s ∷ ss) = IsAdvised s × AllAdvised ss

  pub AllAdvised-snoc :
      (ss : Stages h) (s : StageResult Float64 Float32)
      → AllAdvised ss
      → IsAdvised s
      → AllAdvised (ss ++ (s ∷ []))
  AllAdvised-snoc [] s a b = (b, tt)
  AllAdvised-snoc (t ∷ ss) s a b = (a.0, AllAdvised-snoc ss s a.1 b)

  suggest_at-advised :
      (v : Verdict) (s : StageResult Float64 Float32)
      → (is_denied v ≡ true → 0 < length (suggest_for_denied h s))
      → stops v ≡ true
      → 0 < length (suggest_at h v s)
  suggest_at-advised denied s a e = a refl
  suggest_at-advised error s a e = omega arith
  suggest_at-advised ok s a e = cc
  suggest_at-advised skipped s a e = cc

  pub generate-advised :
      (ss : Stages h)
      → AllAdvised ss
      → any (λ s. stops (verdict_of s)) ss ≡ true
      → 0 < length (generate h ss)
  unfolding generate
  generate-advised [] a e = cc
  generate-advised (s ∷ ss) a e =
      let sum = length-append (suggest_at h (verdict_of s) s) (generate h ss) in
      elim (Bool-cases (stops (verdict_of s))) [
        | inl here ↦ omega (arith, sum, suggest_at-advised (verdict_of s) s a.0 here)
        | inr there ↦
            let later : any (λ s. stops (verdict_of s)) ss ≡ true = ground arith in
            omega (arith, sum, generate-advised ss a.1 later)
      ]

  pub user_stage-IsAdvised : (r : UserResult) → IsAdvised (user_stage r)
  unfolding suggest_for_denied suggest_user_fixes
  user_stage-IsAdvised r e = ground arith

  check_rules-IsAdvised :
      (groups : ResolvedGroups) (model : Bytes) (op : Operation) (rules : List SchemaAccessRule)
      → IsAdvised (model_acl_stage (ModelAcl.check_rules groups model op rules))
  unfolding suggest_for_denied suggest_model_acl_fixes
  check_rules-IsAdvised groups model op [] e = omega arith
  check_rules-IsAdvised groups model op (r ∷ rules) e =
      ground (arith, ungranted-length (map (ModelAcl.match_rule groups op) (r ∷ rules)))

  check_model-IsAdvised :
      (groups : ResolvedGroups) (model : Bytes) (op : Operation) (m : Option SchemaModel)
      → IsAdvised (model_acl_stage (ModelAcl.check_model groups model op m))
  check_model-IsAdvised groups model op none e = cc
  check_model-IsAdvised groups model op (some m) e =
      check_rules-IsAdvised groups model op m.accesses e

  IsAdvised-if {ℓ} :
      {R : Type ℓ} (stage : R → StageResult Float64 Float32) (b : Bool) (x y : R)
      → IsAdvised (stage x)
      → IsAdvised (stage y)
      → IsAdvised (stage (if b then x else y))
  IsAdvised-if stage true x y hx hy = hx
  IsAdvised-if stage false x y hx hy = hy

  pub model_acl_stage-IsAdvised :
      (schema : SchemaModels) (user : ResolvedUser) (groups : ResolvedGroups) (model : Bytes)
      (op : Operation)
      → IsAdvised (model_acl_stage (check schema user groups model op))
  unfolding check
  model_acl_stage-IsAdvised schema user groups model op =
      IsAdvised-if model_acl_stage user.super_user _ _ (λ e. cc)
        (check_model-IsAdvised groups model op (lookup_model model schema))

  conclude-IsAdvised :
      (d : RecordRuleDetail) → IsAdvised (record_rule_stage (RecordRules.conclude d))
  unfolding suggest_for_denied suggest_record_rule_fixes
  conclude-IsAdvised d e = ground (arith, unmatched-length d.group_rules)

  find_rules-IsAdvised :
      (groups : ResolvedGroups) (model : Bytes) (op : Operation) (rules : List SchemaRecordRule)
      → IsAdvised (record_rule_stage (RecordRules.find_rules groups model op rules))
  find_rules-IsAdvised groups model op rules =
      IsAdvised-if record_rule_stage (length rules == 0) _ _ (λ e. cc)
        (conclude-IsAdvised (RecordRules.detail_of model op (RecordRules.matches groups op rules)))

  find_in-IsAdvised :
      (groups : ResolvedGroups) (model : Bytes) (op : Operation) (m : Option SchemaModel)
      → IsAdvised (record_rule_stage (RecordRules.find_in groups model op m))
  find_in-IsAdvised groups model op none e = cc
  find_in-IsAdvised groups model op (some m) e = find_rules-IsAdvised groups model op m.rules e

  pub record_rule_stage-IsAdvised :
      (schema : SchemaModels) (user : ResolvedUser) (groups : ResolvedGroups) (model : Bytes)
      (op : Operation)
      → IsAdvised (record_rule_stage (find schema user groups model op))
  unfolding find
  record_rule_stage-IsAdvised schema user groups model op =
      IsAdvised-if record_rule_stage user.super_user _ _ (λ e. cc)
        (find_in-IsAdvised groups model op (lookup_model model schema))

  module _ (record_data : Entries Float64 Float32) (ctx : EvalContext) where
    abbrev Results : Type 0
    Results = List (RuleDomainResult Float64 Float32)

    -- A global pass that is false comes from a global result that is false.
    failed_global :
        (rules : List RecordRuleMatch)
        → (evaluate_global_rules h record_data ctx rules).0 ≡ false
        → any (λ rr. rr.is_global && not rr.pass) (evaluate_global_rules h record_data ctx rules).1
          ≡ true
    unfolding evaluate_global_rules
    failed_global [] e = cc
    failed_global (r ∷ rules) e =
        ground (arith, failed_global rules, global-eval_rule h record_data ctx r.name r.domain true)

    suggest_global_rules-advised :
        (results : Results)
        → any (λ rr. rr.is_global && not rr.pass) results ≡ true
        → 0 < length (suggest_global_rules results)
    unfolding suggest_global_rules
    suggest_global_rules-advised [] e = cc
    suggest_global_rules-advised (rr ∷ results) e =
        ground (arith, suggest_global_rules-advised results)

    applicable_group :
        (rules : List RecordRuleMatch)
        → any (λ r. r.applies) rules ≡ true
        → any (λ rr. not rr.is_global) (group_results h record_data ctx rules) ≡ true
    unfolding group_results
    applicable_group [] e = cc
    applicable_group (r ∷ rules) e =
        ground
          (arith, applicable_group rules, global-eval_rule h record_data ctx r.name r.domain false)

    failed_group :
        (results : Results)
        → any (λ rr. not rr.is_global) results ≡ true
        → any (λ rr. not rr.is_global && rr.pass) results ≡ false
        → 0 < length (keep (λ rr. not rr.is_global && not rr.pass) results)
    failed_group [] e n = cc
    failed_group (rr ∷ results) e n = ground (arith, failed_group results)

    suggest_domain_fixes-advised :
        (global_pass group_pass : Bool) (results : Results) (model : Bytes) (op : Operation)
        → (global_pass ≡ false → any (λ rr. rr.is_global && not rr.pass) results ≡ true)
        → (group_pass ≡ false → 0 < length (keep (λ rr. not rr.is_global && not rr.pass) results))
        → (global_pass && group_pass) ≡ false
        → 0
          < length (
              suggest_domain_fixes (record {
                model = model;
                operation = op;
                global_pass = global_pass;
                group_pass = group_pass;
                rule_results = results;
              }))
    unfolding suggest_domain_fixes
    suggest_domain_fixes-advised false group_pass results model op hg hr e =
        nonempty_left _ _ (suggest_global_rules-advised results (hg refl))
    suggest_domain_fixes-advised true false results model op hg hr e =
        nonempty_right (suggest_global_rules results) _ (ground (arith, hr refl))
    suggest_domain_fixes-advised true true results model op hg hr e = cc

    pub domain_stage-IsAdvised :
        (d : RecordRuleDetail) → IsAdvised (domain_stage (evaluate h record_data ctx d))
    unfolding evaluate suggest_for_denied evaluate_group_rules
    domain_stage-IsAdvised d e =
        let (global_pass, before) = evaluate_global_rules h record_data ctx d.global_rules in
        let after = group_results h record_data ctx d.group_rules in
        suggest_domain_fixes-advised _ _ (before ++ after) d.model d.operation
          (λ (f : global_pass ≡ false). ground (
            arith,
            failed_global d.global_rules f,
            any-append (λ rr. rr.is_global && not rr.pass) before after,
          ))
          (λ (f : (evaluate_group_rules h record_data ctx before d.group_rules).0 ≡ false). ground (
            arith,
            failed_group (before ++ after),
            applicable_group d.group_rules,
            any-append (λ rr. not rr.is_global) before after,
          ))
          (ground arith)
