-- ===== src/Acl/RecordRules/Meaning.antt =====
-- internal/acl/record_rule_finder.go with domain_evaluator.go: the two stages together give Odoo's
-- record rules.
use intelligent_odoo_dev_too.Prelude.{
  ◌+◌, ◌≡◌, refl, ◌∙◌, Bool, true, false, not, ◌&&◌, ◌||◌, Option, none, some, List, [], ◌∷◌,
  if◌then◌else◌, any, all, keep, map, length, ◌==◌, ltb, arith, Bool-cases, inl, inr,
}
use intelligent_odoo_dev_too.Prelude.Text.{Bytes}
use intelligent_odoo_dev_too.Acl.Host.{Host}
use intelligent_odoo_dev_too.Acl.Any.{Entries}
use intelligent_odoo_dev_too.Acl.Types.{
  stops, ok, denied, skipped, error, is_ok, ResolvedUser, ResolvedGroups, Operation,
  SchemaRecordRule, SchemaModel, SchemaModels, lookup_model, RecordRuleMatch, EvalContext,
}
use intelligent_odoo_dev_too.Acl.Evaluate.{RecordRuleDetail, evaluate}
use intelligent_odoo_dev_too.Acl.Evaluate.Meaning.{
  satisfies, all_global, some_group, is_ok-evaluate,
}
use intelligent_odoo_dev_too.Acl.RecordRules.{
  RecordRuleResult, perm_for_op, user_in_rule_groups, match_rule, matches, detail_of, conclude,
  find_rules, find,
}

combine :
    (g exist applies satisfied : Bool)
    → (exist ≡ false → applies ≡ false)
    → (applies ≡ false → satisfied ≡ false)
    → (if exist && not applies then false else g && (not applies || satisfied))
      ≡ (g && (not exist || satisfied))
combine g exist applies satisfied h k = ground arith

module _ (h : Host) (record_data : Entries h.Float64 h.Float32) (ctx : EvalContext) where
  abbrev domain_passes : Option RecordRuleDetail → Bool
  domain_passes none = false
  domain_passes (some d) = is_ok (evaluate h record_data ctx d).verdict

  -- The answer of the two stages: a skipped stage leaves access open, and an OK one leaves it to the
  -- domain stage.
  abbrev pub rules_allow : RecordRuleResult → Bool
  rules_allow r = elim r.verdict [
    | skipped ↦ true
    | ok ↦ domain_passes r.detail
    | denied ↦ false
    | error ↦ false
  ]

  conclude-rules :
      (d : RecordRuleDetail)
      → (d.total_rules == 0) ≡ false
      → rules_allow (conclude d) ≡ (
          if ltb 0 (length d.group_rules) && not (any (λ m. m.applies) d.group_rules)
          then false
          else is_ok (evaluate h record_data ctx d).verdict)
  conclude-rules d e =
      rw e
        (elim (Bool-cases
          (ltb 0 (length d.group_rules) && not (any (λ m. m.applies) d.group_rules))) [
            | inl none_match ↦ rw none_match
            | inr some_match ↦ rw some_match
          ])

  -- Odoo's rules: of those that cover the operation, every global one is satisfied, and if there
  -- are group rules, one that has a group of the user is satisfied.
  abbrev pub is_global_rule : SchemaRecordRule → Bool
  is_global_rule r = length r.group_ids == 0

  abbrev pub global_part : List SchemaRecordRule → Bool
  global_part rules =
      all (λ r. not (is_global_rule r) || satisfies h record_data ctx r.domain) rules

  abbrev pub group_part : ResolvedGroups → List SchemaRecordRule → Bool
  group_part groups rules =
      any
        (λ r.
          not (is_global_rule r)
          && user_in_rule_groups r.group_ids groups
          && satisfies h record_data ctx r.domain)
        rules

  abbrev pub odoo_rules : ResolvedGroups → Operation → List SchemaRecordRule → Bool
  odoo_rules groups op rules =
      let covering = keep (λ r. perm_for_op r op) rules in
      global_part covering
      && (not (any (λ r. not (is_global_rule r)) covering) || group_part groups covering)

  module _ (groups : ResolvedGroups) where
    abbrev globals_of : List SchemaRecordRule → List RecordRuleMatch
    globals_of rs = keep (λ m. m.is_global) (map (match_rule groups) rs)

    abbrev groups_of : List SchemaRecordRule → List RecordRuleMatch
    groups_of rs = keep (λ m. not m.is_global) (map (match_rule groups) rs)

    globals-all :
        (rs : List SchemaRecordRule) → all_global h record_data ctx (globals_of rs) ≡ global_part rs
    unfolding match_rule
    globals-all [] = refl
    globals-all (r ∷ rs) = ground (arith, globals-all rs)

    groups-apply :
        (rs : List SchemaRecordRule)
        → any (λ m. m.applies) (groups_of rs)
          ≡ any (λ r. not (is_global_rule r) && user_in_rule_groups r.group_ids groups) rs
    unfolding match_rule
    groups-apply [] = refl
    groups-apply (r ∷ rs) = ground (arith, groups-apply rs)

    groups-some :
        (rs : List SchemaRecordRule)
        → some_group h record_data ctx (groups_of rs) ≡ group_part groups rs
    unfolding match_rule
    groups-some [] = refl
    groups-some (r ∷ rs) = ground (arith, groups-some rs)

    groups-exist :
        (rs : List SchemaRecordRule)
        → ltb 0 (length (groups_of rs)) ≡ any (λ r. not (is_global_rule r)) rs
    unfolding match_rule
    groups-exist [] = refl
    groups-exist (r ∷ rs) = ground (arith, groups-exist rs)

    total-length :
        (rs : List SchemaRecordRule) → (length (globals_of rs) + length (groups_of rs)) ≡ length rs
    unfolding match_rule
    total-length [] = refl
    total-length (r ∷ rs) = ground (arith, total-length rs)

    covered_nil :
        (rs : List SchemaRecordRule) → length rs ≡ 0 → any (λ r. not (is_global_rule r)) rs ≡ false
    covered_nil [] e = refl
    covered_nil (r ∷ rs) e = absurd (omega arith)

    -- Without an applicable group rule none is both applicable and satisfied.
    group_part-applies :
        (rs : List SchemaRecordRule)
        → any (λ r. not (is_global_rule r) && user_in_rule_groups r.group_ids groups) rs ≡ false
        → group_part groups rs ≡ false
    group_part-applies [] e = refl
    group_part-applies (r ∷ rs) e = ground (arith, group_part-applies rs)

    -- A group rule that applies is there.
    applies-exist :
        (rs : List SchemaRecordRule)
        → any (λ r. not (is_global_rule r)) rs ≡ false
        → any (λ r. not (is_global_rule r) && user_in_rule_groups r.group_ids groups) rs ≡ false
    applies-exist [] e = refl
    applies-exist (r ∷ rs) e = ground (arith, applies-exist rs)

    conclude-allow :
        (model : Bytes) (op : Operation) (rs : List SchemaRecordRule)
        → rules_allow (conclude (detail_of model op (map (match_rule groups) rs)))
          ≡ (global_part rs && (not (any (λ r. not (is_global_rule r)) rs) || group_part groups rs))
    conclude-allow model op [] = refl
    conclude-allow model op (r ∷ rs) =
        let all_rules = r ∷ rs in
        let d = detail_of model op (map (match_rule groups) all_rules) in
        let some_cover : (d.total_rules == 0) ≡ false = ground (arith, total-length all_rules) in
        conclude-rules d some_cover
        ∙ rw
            (
              is_ok-evaluate h record_data ctx d,
              globals-all all_rules,
              groups-exist all_rules,
              groups-apply all_rules,
              groups-some all_rules,
            )
            (combine (global_part all_rules) _ _ (group_part groups all_rules)
              (applies-exist all_rules) (group_part-applies all_rules))

    covered-allow :
        (model : Bytes) (op : Operation) (rules : List SchemaRecordRule)
        → rules_allow (find_rules groups model op rules) ≡ odoo_rules groups op rules
    unfolding matches
    covered-allow model op [] = refl
    covered-allow model op (r ∷ rs) =
        let rules_left : (length (r ∷ rs) == 0) ≡ false = ground arith in
        rw rules_left (conclude-allow model op (keep (λ q. perm_for_op q op) (r ∷ rs)))

    -- The record rule stage alone: a user passes unless group rules cover the operation and none has
    -- a group of the user.
    abbrev pub rules_open : Operation → List SchemaRecordRule → Bool
    rules_open op rules =
        let covering = keep (λ r. perm_for_op r op) rules in
        not (any (λ r. not (is_global_rule r)) covering)
        || any (λ r. not (is_global_rule r) && user_in_rule_groups r.group_ids groups) covering

    stops-conclude :
        (model : Bytes) (op : Operation) (rs : List SchemaRecordRule)
        → stops (conclude (detail_of model op (map (match_rule groups) rs))).verdict ≡ (
            any (λ r. not (is_global_rule r)) rs
            && not (any (λ r. not (is_global_rule r) && user_in_rule_groups r.group_ids groups) rs))
    stops-conclude model op rs =
        ground (arith, groups-exist rs, groups-apply rs, total-length rs, covered_nil rs)

    stops-find_rules :
        (model : Bytes) (op : Operation) (rules : List SchemaRecordRule)
        → stops (find_rules groups model op rules).verdict ≡ not (rules_open op rules)
    unfolding matches
    stops-find_rules model op [] = refl
    stops-find_rules model op (r ∷ rs) =
        let rules_left : (length (r ∷ rs) == 0) ≡ false = ground arith in
        rw rules_left
          (stops-conclude model op (keep (λ q. perm_for_op q op) (r ∷ rs)) ∙ ground arith)

  -- For a user who is not the superuser and a model of the schema, the record rule stage and the
  -- domain stage together allow access exactly as Odoo's record rules do: of the rules that cover
  -- the operation, every one without groups is satisfied by the record and, if some have groups, one
  -- of those has a group of the user and is satisfied.
  pub find-odoo_rules :
      (schema : SchemaModels) (user : ResolvedUser) (groups : ResolvedGroups) (model : Bytes)
      (op : Operation) (m : SchemaModel)
      → user.super_user ≡ false
      → lookup_model model schema ≡ some m
      → rules_allow (find schema user groups model op) ≡ odoo_rules groups op m.rules
  unfolding find
  find-odoo_rules schema user groups model op m plain there =
      rw (plain, there) (covered-allow groups model op m.rules)

  pub stops-find :
      (schema : SchemaModels) (user : ResolvedUser) (groups : ResolvedGroups) (model : Bytes)
      (op : Operation) (m : SchemaModel)
      → user.super_user ≡ false
      → lookup_model model schema ≡ some m
      → stops (find schema user groups model op).verdict ≡ not (rules_open groups op m.rules)
  unfolding find
  stops-find schema user groups model op m plain there =
      rw (plain, there) (stops-find_rules groups model op m.rules)
