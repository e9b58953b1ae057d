-- ===== src/Acl/Pipeline/Endings.antt =====
-- internal/service/acl_service.go: how the last stages of the pipeline end it.
use intelligent_odoo_dev_too.Prelude.{
  ◌≡◌, ◌≢◌, refl, ◌∙◌, Bool, true, false, not, Option, none, some, List, [], ◌∷◌, ◌++◌,
  if◌then◌else◌, any, any-append, arith,
}
use intelligent_odoo_dev_too.Prelude.Text.{Bytes}
use intelligent_odoo_dev_too.Acl.Host.{Host}
use intelligent_odoo_dev_too.Acl.Any.{Entries, no_entries, entry}
use intelligent_odoo_dev_too.Acl.Types.{
  Verdict, ok, denied, skipped, error, is_ok, stops, ResolvedUser, ResolvedGroups, Operation,
  SchemaRecordRule, SchemaModel, SchemaModels, lookup_model,
}
use intelligent_odoo_dev_too.Acl.RecordRules.{RecordRuleResult, find_in, find}
use intelligent_odoo_dev_too.Acl.RecordRules.Meaning.{rules_allow, rules_open, odoo_rules}
use intelligent_odoo_dev_too.Acl.Evaluate.{RecordRuleDetail, evaluate}
use intelligent_odoo_dev_too.Acl.Suggestions.{
  StageResult, domain_stage, domain_not_evaluated, verdict_of,
}
use intelligent_odoo_dev_too.Acl.Pipeline.{
  TraceRequest, Stages, TraceResponse, Outcome, responded, build_response, respond, context_of,
  evaluate_record, at_verdict,
}

-- The stage finds rules in detail whenever it answers OK.
abbrev pub HasDetail : RecordRuleResult → Type 0
HasDetail r = r.verdict ≡ ok → r.detail ≢ none

HasDetail-if :
    (b : Bool) (x y : RecordRuleResult) → HasDetail x → HasDetail y → HasDetail (if b then x else y)
HasDetail-if true x y hx hy = hx
HasDetail-if false x y hx hy = hy

find_in-HasDetail :
    (groups : ResolvedGroups) (model : Bytes) (op : Operation) (m : Option SchemaModel)
    → HasDetail (find_in groups model op m)
find_in-HasDetail groups model op none e n = cc
find_in-HasDetail groups model op (some m) e n = ground arith

pub find-HasDetail :
    (schema : SchemaModels) (user : ResolvedUser) (groups : ResolvedGroups) (model : Bytes)
    (op : Operation)
    → HasDetail (find schema user groups model op)
unfolding find
find-HasDetail schema user groups model op =
    HasDetail-if user.super_user _ _ (λ e n. cc)
      (find_in-HasDetail groups model op (lookup_model model schema))

module _ (h : Host) where
  open h use {Float64, Float32}

  -- Some stage so far has stopped.
  abbrev pub any_stops : Stages h → Bool
  any_stops ss = any (λ s. stops (verdict_of s)) ss

  -- The outcome is a response with the given verdict.
  abbrev pub Answers : Bool → Outcome h → Type 0
  Answers b o = (out : TraceResponse h) × (o ≡ responded out) × (out.allowed ≡ b)

  respond-Answers :
      (ss : Stages h) (s : StageResult Float64 Float32)
      → any_stops ss ≡ false
      → Answers (not (stops (verdict_of s))) (respond h (ss ++ (s ∷ [])))
  unfolding build_response
  respond-Answers ss s go_on = (
    build_response h (ss ++ (s ∷ [])),
    refl,
    ground (arith, any-append (λ t. stops (verdict_of t)) ss (s ∷ [])),
  )

  -- What the record rules and the record say: the stages after the model's access rules.
  abbrev pub record_access :
      Entries Float64 Float32
      → ResolvedUser
      → ResolvedGroups
      → Operation
      → List SchemaRecordRule
      → Bool
  record_access no_entries user groups op rules =
      rules_open h no_entries (context_of h user) groups op rules
  record_access (entry k v m) user groups op rules =
      odoo_rules h (entry k v m) (context_of h user) groups op rules

  abbrev pub record_answer : Entries Float64 Float32 → ResolvedUser → RecordRuleResult → Bool
  record_answer no_entries user r = not (stops r.verdict)
  record_answer (entry k v m) user r = rules_allow h (entry k v m) (context_of h user) r

  abbrev record_passes : Entries Float64 Float32 → ResolvedUser → RecordRuleDetail → Bool
  record_passes no_entries user d = true
  record_passes (entry k v m) user d =
      is_ok (evaluate h (entry k v m) (context_of h user) d).verdict

  stops-evaluate :
      (m : Entries Float64 Float32) (user : ResolvedUser) (d : RecordRuleDetail)
      → not (stops (evaluate h m (context_of h user) d).verdict)
        ≡ is_ok (evaluate h m (context_of h user) d).verdict
  unfolding evaluate
  stops-evaluate m user d = ground arith

  evaluate_record-Answers :
      (ss : Stages h) (user : ResolvedUser) (d : RecordRuleDetail) (m : Entries Float64 Float32)
      → any_stops ss ≡ false
      → Answers (record_passes m user d) (evaluate_record h ss user d m)
  evaluate_record-Answers ss user d no_entries go_on = respond-Answers ss domain_not_evaluated go_on
  evaluate_record-Answers ss user d (entry k v m) go_on =
      let (out, same, allowed) =
        respond-Answers ss (domain_stage (evaluate h (entry k v m) (context_of h user) d)) go_on in
      (out, same, allowed ∙ stops-evaluate (entry k v m) user d)

  -- The answer in terms of the verdict and the detail of the record rule stage.
  abbrev answer_at :
      Verdict → Option RecordRuleDetail → Entries Float64 Float32 → ResolvedUser → Bool
  answer_at ok none m user = true
  answer_at ok (some d) m user = record_passes m user d
  answer_at skipped d m user = true
  answer_at denied d m user = false
  answer_at error d m user = false

  pub record_answer-eq :
      (m : Entries Float64 Float32) (user : ResolvedUser) (r : RecordRuleResult)
      → HasDetail r
      → answer_at r.verdict r.detail m user ≡ record_answer m user r
  record_answer-eq no_entries user r has = ground (arith, has)
  record_answer-eq (entry k v m) user r has = ground (arith, has)

  pub respond-any_stops :
      (ss : Stages h) (b : Bool) → any_stops ss ≡ b → Answers (not b) (respond h ss)
  unfolding build_response
  respond-any_stops ss b e = (build_response h ss, refl, ground arith)

  pub any_stops-snoc :
      (ss : Stages h) (s : StageResult Float64 Float32)
      → any_stops ss ≡ false
      → any_stops (ss ++ (s ∷ [])) ≡ stops (verdict_of s)
  any_stops-snoc ss s go_on = ground (arith, any-append (λ t. stops (verdict_of t)) ss (s ∷ []))

  pub at_verdict-Answers :
      (v : Verdict) (ss : Stages h) (req : TraceRequest h) (user : ResolvedUser)
      (d : Option RecordRuleDetail)
      → any_stops ss ≡ stops v
      → Answers (answer_at v d req.record_data user) (at_verdict h v ss req user d)
  at_verdict-Answers ok ss req user none e = respond-any_stops ss false e
  at_verdict-Answers ok ss req user (some d) e = evaluate_record-Answers ss user d req.record_data e
  at_verdict-Answers denied ss req user d e = respond-any_stops ss true e
  at_verdict-Answers skipped ss req user d e = respond-any_stops ss false e
  at_verdict-Answers error ss req user d e = respond-any_stops ss true e
