-- ===== src/Acl/Pipeline.antt =====
-- internal/service/acl_service.go: the stages in their order, from a schema and a request to a
-- trace. The schema is the one that `TraceAccess` reads from the store.
use intelligent_odoo_dev_too.Prelude.{
  ℕ, zero, suc, ◌+◌, Bool, true, false, ◌||◌, Option, none, some, List, [], ◌∷◌, ◌++◌,
  if◌then◌else◌, any,
}
use intelligent_odoo_dev_too.Prelude.Text.{Bytes, codes, eqb}
use intelligent_odoo_dev_too.Acl.Host.{Host}
use intelligent_odoo_dev_too.Acl.Any.{Entries, no_entries, entry}
use intelligent_odoo_dev_too.Acl.Types.{
  Verdict, ok, denied, skipped, error, ResolvedUser, is_super_user, stops, ResolvedGroups,
  Operation, op_read, op_write, op_create, op_unlink, other_operation, SchemaModels, EvalContext,
}
use intelligent_odoo_dev_too.Acl.Users.{
  ExtractError, Extracted, extracted, failed, UserResult, resolve_user,
}
use intelligent_odoo_dev_too.Acl.Groups.{GroupResult, resolve_groups}
use intelligent_odoo_dev_too.Acl.ModelAcl.{ModelAclResult, check}
use intelligent_odoo_dev_too.Acl.RecordRules.{RecordRuleResult, find}
use intelligent_odoo_dev_too.Acl.Evaluate.{RecordRuleDetail, DomainStageResult, evaluate}
use intelligent_odoo_dev_too.Acl.Suggestions.{
  StageResult, user_stage, groups_stage, model_acl_stage, record_rule_stage, domain_stage,
  domain_not_evaluated, verdict_of, is_denied, is_error, Suggestion, generate,
}
pub mod Endings
pub mod Verdicts
pub mod Advice
pub mod Completes

-- `acl.Operation(req.Operation)`.
unfoldable pub operation_of : Bytes → Operation
operation_of s =
    if eqb s (codes "read")
    then op_read
    else if eqb s (codes "write")
    then op_write
    else if eqb s (codes "create")
    then op_create
    else if eqb s (codes "unlink")
    then op_unlink
    else other_operation s

module _ (h : Host) where
  open h use {Float64, Float32}

  -- The part of `ACLTraceRequest` that the stages read.
  pub record TraceRequest : Type 0 where
    pub model : Bytes
    pub operation : Bytes
    pub user_data : Entries Float64 Float32
    pub group_data : List (Entries Float64 Float32)
    pub record_data : Entries Float64 Float32

  abbrev pub Stages : Type 0
  Stages = List (StageResult Float64 Float32)

  -- `ACLTraceResponse`, with its verdict as whether access is allowed.
  pub record TraceResponse : Type 0 where
    pub allowed : Bool
    pub stages : Stages
    pub suggestions : List (Suggestion Float64 Float32)

  -- What a run ends with. `panicked` is the use of a nil user or nil groups; `out_of_fuel` has no
  -- counterpart in the source.
  pub data Outcome : Type 0 where
    responded : TraceResponse → Outcome
    user_failed groups_failed : ExtractError → Outcome
    panicked out_of_fuel : Outcome

  -- `buildResponse`.
  unfoldable pub build_response : Stages → TraceResponse
  unfolding generate
  build_response stages =
      let refused = any (λ s. stops (verdict_of s)) stages in
      if refused
      then record { allowed = false; stages = stages; suggestions = generate h stages }
      else record { allowed = true; stages = stages; suggestions = [] }

  abbrev pub respond : Stages → Outcome
  respond stages = responded (build_response stages)

  -- `evaluateDomain`. The detail of the last stage is the record rules'.
  abbrev pub context_of : ResolvedUser → EvalContext
  context_of u = record { user_id = u.uid; company_id = u.company_id; company_ids = u.company_ids }

  abbrev pub evaluate_record :
      Stages → ResolvedUser → RecordRuleDetail → Entries Float64 Float32 → Outcome
  evaluate_record stages user d no_entries = respond (stages ++ (domain_not_evaluated ∷ []))
  evaluate_record stages user d (entry k v m) =
      respond (stages ++ (domain_stage (evaluate h (entry k v m) (context_of user) d) ∷ []))

  abbrev pub evaluate_domain :
      Stages → TraceRequest → ResolvedUser → Option RecordRuleDetail → Outcome
  evaluate_domain stages req user none = respond stages
  evaluate_domain stages req user (some d) = evaluate_record stages user d req.record_data

  -- `findRecordRules`, and what follows it.
  abbrev pub at_verdict :
      Verdict → Stages → TraceRequest → ResolvedUser → Option RecordRuleDetail → Outcome
  at_verdict ok stages req user d = evaluate_domain stages req user d
  at_verdict denied stages req user d = respond stages
  at_verdict skipped stages req user d = respond stages
  at_verdict error stages req user d = respond stages

  abbrev pub after_rules : Stages → TraceRequest → ResolvedUser → RecordRuleResult → Outcome
  after_rules stages req user r =
      at_verdict r.verdict (stages ++ (record_rule_stage r ∷ [])) req user r.detail

  -- `checkModelACL`, and what follows it.
  abbrev pub after_model_acl :
      SchemaModels
      → TraceRequest
      → ResolvedUser
      → ResolvedGroups
      → Stages
      → ModelAclResult
      → Outcome
  after_model_acl schema req user groups stages r =
      let stages' = stages ++ (model_acl_stage r ∷ []) in
      if stops r.verdict
      then respond stages'
      else after_rules stages' req user
          (find schema user groups req.model (operation_of req.operation))

  -- `resolveGroups`, and what follows it.
  abbrev pub with_groups :
      SchemaModels → TraceRequest → ResolvedUser → Stages → Option ResolvedGroups → Outcome
  with_groups schema req user stages none = panicked
  with_groups schema req user stages (some groups) =
      after_model_acl schema req user groups stages
        (check schema user groups req.model (operation_of req.operation))

  abbrev pub after_groups :
      SchemaModels → TraceRequest → ResolvedUser → Stages → Extracted (Option GroupResult) → Outcome
  after_groups schema req user stages (failed e) = groups_failed e
  after_groups schema req user stages (extracted none) = out_of_fuel
  after_groups schema req user stages (extracted (some r)) =
      let stages' = stages ++ (groups_stage r ∷ []) in
      if stops r.verdict then respond stages' else with_groups schema req user stages' r.groups

  -- `resolveUser`, and what follows it: `IsSuperUser` is asked of the user if the verdict goes on.
  abbrev pub with_user : SchemaModels → TraceRequest → Stages → Option ResolvedUser → Outcome
  with_user schema req stages none = panicked
  with_user schema req stages (some user) =
      if is_super_user user
      then respond stages
      else after_groups schema req user stages (resolve_groups h schema user req.group_data)

  abbrev pub after_user : SchemaModels → TraceRequest → Extracted UserResult → Outcome
  after_user schema req (failed e) = user_failed e
  after_user schema req (extracted r) =
      let stages = user_stage r ∷ [] in
      if stops r.verdict then respond stages else with_user schema req stages r.user

  -- `run`.
  unfoldable pub run : SchemaModels → TraceRequest → Outcome
  unfolding build_response resolve_user resolve_groups check find evaluate operation_of
  run schema req = after_user schema req (resolve_user h schema req.user_data)
