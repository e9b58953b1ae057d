-- ===== src/Acl/Evaluate.antt =====
-- internal/acl/domain_evaluator.go: the rules of a record, from their domain strings to a verdict.
-- Error texts are constructors with the values that they show.
use intelligent_odoo_dev_too.Prelude.{
  ℕ, suc, Bool, true, false, not, ◌&&◌, ◌||◌, Option, none, some, List, [], ◌∷◌, ◌++◌,
  if◌then◌else◌, any, count_if,
}
use intelligent_odoo_dev_too.Prelude.Int.{ℤ}
use intelligent_odoo_dev_too.Prelude.Text.{Bytes, codes, eqb}
use intelligent_odoo_dev_too.Domain.Ast.{
  Operator, op_equal, LogicOp, logic_and, logic_or, logic_not, Value, string_value, int_value,
  float_value, bool_value, none_value, list_value, tuple_value, ref_value, Values, no_values, value,
  Condition, Node, Nodes, condition, bool_op, match_all, no_nodes, node,
}
use intelligent_odoo_dev_too.Domain.Parser
use intelligent_odoo_dev_too.Domain.Parser.{ParseError, parse}
use intelligent_odoo_dev_too.Acl.Host.{Host}
use intelligent_odoo_dev_too.Acl.Any.{
  Any, Anys, Entries, nil_any, bool_any, int64_any, float64_any, string_any, slice_any, no_anys,
  any as any_item, lookup_any,
}
use intelligent_odoo_dev_too.Acl.Resolve.{Resolved, resolved, unresolved, resolve_value}
use intelligent_odoo_dev_too.Acl.Compare.{anys_of, compare}
use intelligent_odoo_dev_too.Acl.Types.{
  EvalContext, RecordRuleMatch, Operation, Verdict, ok, denied,
}
pub mod Meaning

-- The errors that a `ConditionResult` carries as text.
pub data ConditionError : Type 0 where
  unresolvable_reference : Bytes → ConditionError
  field_not_found : Bytes → ConditionError
  not_arity : ConditionError
  rule_does_not_apply : ConditionError

-- `RecordRuleDetail`.
pub record RecordRuleDetail : Type 0 where
  pub model : Bytes
  pub operation : Operation
  pub global_rules : List RecordRuleMatch
  pub group_rules : List RecordRuleMatch
  pub total_rules : ℕ
  pub applied_count : ℕ

module _ (F G : Type 0) where
  -- `ConditionResult`; an unset operator is the empty string of the source.
  pub record ConditionResult : Type 0 where
    pub field : Bytes
    pub operator : Option Operator
    pub expected : Any F G
    pub actual : Any F G
    pub pass : Bool
    pub error : Option ConditionError

  pub record RuleDomainResult : Type 0 where
    pub rule_name : Bytes
    pub domain : Bytes
    pub is_global : Bool
    pub pass : Bool
    pub parse_error : Option ParseError
    pub conditions : List ConditionResult

  -- `DomainEvalDetail`.
  pub record DomainEvalDetail : Type 0 where
    pub model : Bytes
    pub operation : Operation
    pub global_pass : Bool
    pub group_pass : Bool
    pub rule_results : List RuleDomainResult

-- The reasons of the domain stage: satisfied with the two passes, or denied with the number of
-- global rules that failed, when some did, and whether no group rule passed.
pub data DomainReason : Type 0 where
  satisfied : Bool → Bool → DomainReason
  unsatisfied : Option ℕ → Bool → DomainReason

pub record DomainStageResult (F G : Type 0) : Type 0 where
  pub verdict : Verdict
  pub reason : DomainReason
  pub detail : DomainEvalDetail F G

module _ (h : Host) (record_data : Entries h.Float64 h.Float32) (ctx : EvalContext) where
  open h use {Float64, Float32, parse_float}

  abbrev pub Result : Type 0
  Result = ConditionResult Float64 Float32

  -- A result with an error and nothing else set.
  abbrev pub only_error : ConditionError → Result
  only_error e = record {
    field = [];
    operator = none;
    expected = nil_any;
    actual = nil_any;
    pass = false;
    error = some e;
  }

  -- `evalCondition`: the value is resolved first, then the field is looked up, then they are
  -- compared.
  abbrev pub with_actual :
      Condition Float64 → Any Float64 Float32 → Option (Any Float64 Float32) → Result
  with_actual c expected none = record {
    field = c.field;
    operator = some c.op;
    expected = expected;
    actual = nil_any;
    pass = false;
    error = some (field_not_found c.field);
  }
  with_actual c expected (some actual) = record {
    field = c.field;
    operator = some c.op;
    expected = expected;
    actual = actual;
    pass = compare h c.op actual expected;
    error = none;
  }

  abbrev pub with_expected : Condition Float64 → Resolved (Any Float64 Float32) → Result
  with_expected c (unresolved ref) = record {
    field = c.field;
    operator = some c.op;
    expected = nil_any;
    actual = nil_any;
    pass = false;
    error = some (unresolvable_reference ref);
  }
  with_expected c (resolved expected) = with_actual c expected (lookup_any c.field record_data)

  unfoldable pub eval_condition : Condition Float64 → Result
  unfolding lookup_any resolve_value compare
  eval_condition c = with_expected c (resolve_value ctx c.val)

  -- `evalNode`: all children are evaluated, also after one that decides.
  unfoldable mutual
    unfolding eval_condition

    pub eval_node : Node Float64 → Bool × List Result
    eval_node match_all = (true, [])
    eval_node (condition c) = ((eval_condition c).pass, eval_condition c ∷ [])
    eval_node (bool_op logic_and ns) = eval_all ns
    eval_node (bool_op logic_or ns) = eval_any ns
    eval_node (bool_op logic_not (node n no_nodes)) =
        let (pass, conds) = eval_node n in (not pass, conds)
    eval_node (bool_op logic_not _) = (false, only_error not_arity ∷ [])

    pub eval_all : Nodes Float64 → Bool × List Result
    eval_all no_nodes = (true, [])
    eval_all (node n ns) =
        let (pass, conds) = eval_node n in
        let (all_pass, all_conds) = eval_all ns in (pass && all_pass, conds ++ all_conds)

    pub eval_any : Nodes Float64 → Bool × List Result
    eval_any no_nodes = (false, [])
    eval_any (node n ns) =
        let (pass, conds) = eval_node n in
        let (any_pass, all_conds) = eval_any ns in (pass || any_pass, conds ++ all_conds)

  abbrev pub RuleResult : Type 0
  RuleResult = RuleDomainResult Float64 Float32

  -- `evalRule`.
  abbrev pub rule_result : Bytes → Bytes → Bool → Parser.Result (Node Float64) → RuleResult
  rule_result name domain is_global (Parser.err e) = record {
    rule_name = name;
    domain = domain;
    is_global = is_global;
    pass = false;
    parse_error = some e;
    conditions = [];
  }
  rule_result name domain is_global (Parser.ok match_all) = record {
    rule_name = name;
    domain = domain;
    is_global = is_global;
    pass = true;
    parse_error = none;
    conditions = [];
  }
  rule_result name domain is_global (Parser.ok ast) = record {
    rule_name = name;
    domain = domain;
    is_global = is_global;
    pass = (eval_node ast).0;
    parse_error = none;
    conditions = (eval_node ast).1;
  }

  unfoldable pub eval_rule : Bytes → Bytes → Bool → RuleResult
  unfolding parse eval_node
  eval_rule name domain is_global = rule_result name domain is_global (parse parse_float domain)

  -- `evaluateGlobalRules`: the pass, and the results of the rules that apply.
  unfoldable pub evaluate_global_rules : List RecordRuleMatch → Bool × List RuleResult
  unfolding eval_rule
  evaluate_global_rules [] = (true, [])
  evaluate_global_rules (r ∷ rules) =
      let (pass, results) = evaluate_global_rules rules in
      let rr = eval_rule r.name r.domain true in
      if r.applies then (rr.pass && pass, rr ∷ results) else (pass, results)

  -- The loop of `evaluateGroupRules`: a result for each rule, and whether one applies.
  abbrev pub group_result : RecordRuleMatch → RuleResult
  group_result r = if r.applies then eval_rule r.name r.domain false else record {
    rule_name = r.name;
    domain = r.domain;
    is_global = false;
    pass = false;
    parse_error = none;
    conditions = only_error rule_does_not_apply ∷ [];
  }

  unfoldable pub group_results : List RecordRuleMatch → List RuleResult
  unfolding eval_rule
  group_results [] = []
  group_results (r ∷ rules) = group_result r ∷ group_results rules

  -- `evaluateGroupRules`, given the results so far: with a rule that applies, some result of a
  -- group rule must pass.
  unfoldable pub evaluate_group_rules :
      List RuleResult → List RecordRuleMatch → Bool × List RuleResult
  unfolding group_results
  evaluate_group_rules before rules =
      let results = before ++ group_results rules in
      (
        (if any (λ r. r.applies) rules
            then any (λ rr. not rr.is_global && rr.pass) results
            else true),
        results,
      )

  -- `evaluateRules` and `Evaluate`, with `createSuccessResult` and `createFailureResult`.
  abbrev pub reason_for : Bool → Bool → List RuleResult → DomainReason
  reason_for global_pass group_pass results =
      if global_pass && group_pass
      then satisfied global_pass group_pass
      else unsatisfied
          (if global_pass
            then none
            else some (count_if (λ rr. rr.is_global && not rr.pass) results))
          (not group_pass)

  unfoldable pub evaluate : RecordRuleDetail → DomainStageResult Float64 Float32
  unfolding evaluate_global_rules evaluate_group_rules
  evaluate d =
      let (global_pass, before) = evaluate_global_rules d.global_rules in
      let (group_pass, results) = evaluate_group_rules before d.group_rules in
      record {
        verdict = if global_pass && group_pass then ok else denied;
        reason = reason_for global_pass group_pass results;
        detail = record {
          model = d.model;
          operation = d.operation;
          global_pass = global_pass;
          group_pass = group_pass;
          rule_results = results;
        };
      }
