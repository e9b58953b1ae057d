-- ===== src/Acl/Pipeline/Verdicts.antt =====
-- internal/service/acl_service.go: the verdict of the whole pipeline is Odoo's access rule.
use intelligent_odoo_dev_too.Prelude.{
  ◌≡◌, ◌↔◌, refl, ap, ◌∙◌, Bool, true, false, not, ◌&&◌, Option, some, [], ◌∷◌, ◌++◌, if◌then◌else◌,
  arith, Bool-cases, inl, inr,
}
use intelligent_odoo_dev_too.Prelude.Int.{ℤ}
use intelligent_odoo_dev_too.Prelude.Text.{codes}
use intelligent_odoo_dev_too.Acl.Host.{Host}
use intelligent_odoo_dev_too.Acl.Any.{Entries, no_entries, entry}
use intelligent_odoo_dev_too.Acl.Types.{
  Verdict, ok, stops, ResolvedUser, ResolvedGroups, has_group, GroupRecord, Operation, SchemaModel,
  SchemaModels, lookup_model,
}
use intelligent_odoo_dev_too.Acl.Users.{
  Extracted, extracted, user_resolved, UserResult, resolve_user,
}
use intelligent_odoo_dev_too.Acl.Groups.{GroupMap, GroupResult, resolve_groups, parse_group_records}
use intelligent_odoo_dev_too.Acl.Groups.Closure.{Reachable}
use intelligent_odoo_dev_too.Acl.Groups.Resolved.{resolve_groups-Reachable}
use intelligent_odoo_dev_too.Acl.ModelAcl.{check}
use intelligent_odoo_dev_too.Acl.ModelAcl.Meaning.{grants_access, stops-check}
use intelligent_odoo_dev_too.Acl.RecordRules.{RecordRuleResult, find}
use intelligent_odoo_dev_too.Acl.RecordRules.Meaning.{stops-find, find-odoo_rules}
use intelligent_odoo_dev_too.Acl.Suggestions.{
  user_stage, groups_stage, model_acl_stage, record_rule_stage,
}
use intelligent_odoo_dev_too.Acl.Pipeline.{
  operation_of, TraceRequest, Stages, TraceResponse, Outcome, responded, respond, context_of,
  after_rules, after_model_acl, with_groups, after_groups, with_user, after_user, run,
}
use intelligent_odoo_dev_too.Acl.Pipeline.Endings.{
  any_stops, Answers, record_access, record_answer, record_answer-eq, respond-any_stops,
  any_stops-snoc, at_verdict-Answers, HasDetail, find-HasDetail,
}

module _ (h : Host) where
  open h use {Float64, Float32}

  Answers-congr : {b c : Bool} (o : Outcome h) → b ≡ c → Answers h b o → Answers h c o
  Answers-congr o e (out, same, allowed) = (out, same, allowed ∙ e)

  after_rules-Answers :
      (ss : Stages h) (req : TraceRequest h) (user : ResolvedUser) (r : RecordRuleResult)
      → any_stops h ss ≡ false
      → HasDetail r
      → Answers h (record_answer h req.record_data user r) (after_rules h ss req user r)
  after_rules-Answers ss req user r go_on has =
      Answers-congr _ (record_answer-eq h req.record_data user r has) (
        at_verdict-Answers h r.verdict _ req user r.detail
          (any_stops-snoc h ss (record_rule_stage r) go_on))

  module _ (schema : SchemaModels) (req : TraceRequest h) (user : ResolvedUser)
      (plain : user.super_user ≡ false) where
    abbrev op : Operation
    op = operation_of req.operation

    record_answer-find :
        (fields : Entries Float64 Float32) (groups : ResolvedGroups) (m : SchemaModel)
        → lookup_model req.model schema ≡ some m
        → record_answer h fields user (find schema user groups req.model op)
          ≡ record_access h fields user groups op m.rules
    record_answer-find no_entries groups m there =
        ap not (
          stops-find h no_entries (context_of h user) schema user groups req.model op m plain there)
        ∙ ground arith
    record_answer-find (entry k v e) groups m there =
        find-odoo_rules h (entry k v e) (context_of h user) schema user groups req.model op m plain
          there

    after_model_acl-Answers :
        (ss : Stages h) (groups : ResolvedGroups) (m : SchemaModel)
        → any_stops h ss ≡ false
        → lookup_model req.model schema ≡ some m
        → Answers h
            (grants_access groups op (some m)
              && record_access h req.record_data user groups op m.rules)
            (after_model_acl h schema req user groups ss (check schema user groups req.model op))
    after_model_acl-Answers ss groups m go_on there =
        let checked = stops-check schema user groups req.model op m plain there in
        let after =
          any_stops-snoc h ss (model_acl_stage (check schema user groups req.model op)) go_on in
        elim (Bool-cases (grants_access groups op (some m))) [
          | inl granted ↦
              let goes_on : stops (check schema user groups req.model op).verdict ≡ false =
                checked ∙ ap not granted in
              rw (goes_on, granted)
                (Answers-congr _ (record_answer-find req.record_data groups m there) (
                  after_rules-Answers _ req user _ (after ∙ goes_on)
                    (find-HasDetail schema user groups req.model op)))
          | inr refused ↦
              let halts : stops (check schema user groups req.model op).verdict ≡ true =
                checked ∙ ap not refused in
              rw (halts, refused) (respond-any_stops h _ true (after ∙ halts))
        ]

    with_groups-Answers :
        (halted : Outcome h) (v : Verdict) (found : Option ResolvedGroups) (ss : Stages h)
        (groups : ResolvedGroups) (m : SchemaModel)
        → v ≡ ok
        → found ≡ some groups
        → any_stops h ss ≡ false
        → lookup_model req.model schema ≡ some m
        → Answers h
            (grants_access groups op (some m)
              && record_access h req.record_data user groups op m.rules)
            (if stops v then halted else with_groups h schema req user ss found)
    with_groups-Answers halted v found ss groups m goes_on some_groups none_stopped there =
        rw (goes_on, some_groups) (after_model_acl-Answers ss groups m none_stopped there)

    after_groups-Answers :
        (ss : Stages h) (x : Extracted (Option GroupResult)) (r : GroupResult)
        (groups : ResolvedGroups) (m : SchemaModel)
        → x ≡ extracted (some r)
        → r.verdict ≡ ok
        → r.groups ≡ some groups
        → any_stops h ss ≡ false
        → lookup_model req.model schema ≡ some m
        → Answers h
            (grants_access groups op (some m)
              && record_access h req.record_data user groups op m.rules)
            (after_groups h schema req user ss x)
    after_groups-Answers ss x r groups m e goes_on some_groups none_stopped there = rw e (
        with_groups-Answers _ r.verdict r.groups (ss ++ (groups_stage r ∷ [])) groups m goes_on
          some_groups (any_stops-snoc h ss (groups_stage r) none_stopped ∙ ap stops goes_on) there)

    with_user-Answers :
        (b : Bool) (ss : Stages h)
        → Answers h b
            (after_groups h schema req user ss (resolve_groups h schema user req.group_data))
        → Answers h b (with_user h schema req ss (some user))
    with_user-Answers b ss a = go user.super_user plain
      where
        go :
            (super : Bool)
            → super ≡ false
            → Answers h b (
                if super
                then respond h ss
                else after_groups h schema req user ss
                    (resolve_groups h schema user req.group_data))
        go super e = rw e a

    after_user-Answers :
        (b : Bool) (x : Extracted UserResult)
        → x ≡ extracted (record { user = some user; verdict = ok; reason = user_resolved })
        → Answers h b (
            with_user h schema req
              (user_stage (record { user = some user; verdict = ok; reason = user_resolved }) ∷ [])
              (some user))
        → Answers h b (after_user h schema req x)
    after_user-Answers b x e a = rw e a

    -- For an active user who is not the superuser, where the schema has `res.groups` and the
    -- request's model and the group records parse to at least one group, the pipeline responds, and
    -- its verdict is ALLOWED exactly if some ir.model.access rule of the model that applies to the
    -- user's groups grants the operation and the record rules let the record through: Odoo's rules
    -- on the record if the request has one, and otherwise that some covering group rule has a group
    -- of the user if there are covering group rules. The user's groups are those reachable from the
    -- direct ones.
    pub run-access :
        (m groups_model : SchemaModel) (g : ℤ × GroupRecord) (records : GroupMap)
        → resolve_user h schema req.user_data
          ≡ extracted (record { user = some user; verdict = ok; reason = user_resolved })
        → lookup_model (codes "res.groups") schema ≡ some groups_model
        → parse_group_records h req.group_data [] ≡ extracted (g ∷ records)
        → lookup_model req.model schema ≡ some m
        → (groups : ResolvedGroups) × ((id : ℤ)
            → (has_group groups id ≡ true) ↔ Reachable (g ∷ records) user.group_ids id)
          × (out : TraceResponse h) × (run h schema req ≡ responded out)
          × (out.allowed ≡ (
              grants_access groups op (some m)
              && record_access h req.record_data user groups op m.rules))
    unfolding run
    run-access m groups_model g records user_ok groups_there parsed there =
        let (r, groups, resolved, some_groups, goes_on, reach, _) =
          resolve_groups-Reachable h schema user req.group_data groups_model g records plain
            groups_there parsed in
        let stage =
          user_stage (record { user = some user; verdict = ok; reason = user_resolved }) in
        let (out, same, allowed) =
          after_user-Answers _ (resolve_user h schema req.user_data) user_ok (
            with_user-Answers _ (stage ∷ []) (
              after_groups-Answers (stage ∷ []) (resolve_groups h schema user req.group_data) r
                groups m resolved goes_on some_groups refl there)) in
        (groups, reach, out, same, allowed)
