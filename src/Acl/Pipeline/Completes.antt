-- ===== src/Acl/Pipeline/Completes.antt =====
-- internal/service/acl_service.go: every run of the pipeline ends in a response or a Go error, and
-- a denial comes with a suggestion.
use intelligent_odoo_dev_too.Prelude.{
  ◌<◌, ◌≡◌, refl, Bool, true, false, Option, none, some, List, [], ◌∷◌, if◌then◌else◌, length,
  arith, Bool-cases, inl, inr,
}
use intelligent_odoo_dev_too.Prelude.Int.{ℤ}
use intelligent_odoo_dev_too.Acl.Host.{Host}
use intelligent_odoo_dev_too.Acl.Any.{Entries, no_entries, entry}
use intelligent_odoo_dev_too.Acl.Types.{
  stops, Verdict, ok, denied, skipped, error, ResolvedUser, ResolvedGroups, SchemaModel,
  SchemaModels, lookup_model,
}
use intelligent_odoo_dev_too.Acl.Users.{Extracted, extracted, failed, UserResult, resolve_user}
use intelligent_odoo_dev_too.Acl.Groups.{GroupResult, resolve_groups}
use intelligent_odoo_dev_too.Acl.ModelAcl.{check}
use intelligent_odoo_dev_too.Acl.Evaluate.{RecordRuleDetail}
use intelligent_odoo_dev_too.Acl.Suggestions.{
  user_stage, groups_stage, domain_not_evaluated, suggest_for_denied,
}
use intelligent_odoo_dev_too.Acl.Pipeline.{
  TraceRequest, Outcome, responded, user_failed, groups_failed, panicked, out_of_fuel, Stages,
  build_response, operation_of, evaluate_record, evaluate_domain, at_verdict, with_groups,
  after_groups, with_user, after_user, run, context_of,
}
use intelligent_odoo_dev_too.Acl.Groups.{
  GroupMap, with_records, with_groups_model, parse_group_records,
}
use intelligent_odoo_dev_too.Acl.Groups.Closure.{effective_set_iff}
use intelligent_odoo_dev_too.Acl.Users.{with_users_model, with_uid, extract_int}
use intelligent_odoo_dev_too.Prelude.{◌≢◌}
use intelligent_odoo_dev_too.Prelude.Text.{codes}
use intelligent_odoo_dev_too.Acl.Pipeline.Advice.{
  AllAdvised, AllAdvised-snoc, generate-advised, user_stage-IsAdvised, model_acl_stage-IsAdvised,
  record_rule_stage-IsAdvised, domain_stage-IsAdvised,
}

module _ (h : Host) where
  open h use {Float64, Float32}

  -- The trace of an outcome: its stages are advised, and so its verdict is.
  build_response-advised :
      (ss : Stages h)
      → AllAdvised h ss
      → (build_response h ss).allowed ≡ false
      → 0 < length (build_response h ss).suggestions
  unfolding build_response
  build_response-advised ss a e = ground (arith, generate-advised h ss a)

  -- A run that ends as the source does, and with a suggestion if its response denies access.
  abbrev pub Completes : Outcome h → Type 0
  Completes (responded r) = r.allowed ≡ false → 0 < length r.suggestions
  Completes (user_failed e) = Unit
  Completes (groups_failed e) = Unit
  Completes panicked = ⊥
  Completes out_of_fuel = ⊥

  Completes-if :
      (b : Bool) (x y : Outcome h) → Completes x → Completes y → Completes (if b then x else y)
  Completes-if true x y hx hy = hx
  Completes-if false x y hx hy = hy

  evaluate_record-Completes :
      (ss : Stages h) (user : ResolvedUser) (d : RecordRuleDetail) (m : Entries Float64 Float32)
      → AllAdvised h ss
      → Completes (evaluate_record h ss user d m)
  evaluate_record-Completes ss user d no_entries a =
      build_response-advised _ (AllAdvised-snoc h ss domain_not_evaluated a (λ e. cc))
  evaluate_record-Completes ss user d (entry k v m) a =
      build_response-advised _
        (AllAdvised-snoc h ss _ a (domain_stage-IsAdvised h (entry k v m) (context_of h user) d))

  evaluate_domain-Completes :
      (ss : Stages h) (req : TraceRequest h) (user : ResolvedUser) (d : Option RecordRuleDetail)
      → AllAdvised h ss
      → Completes (evaluate_domain h ss req user d)
  evaluate_domain-Completes ss req user none a = build_response-advised ss a
  evaluate_domain-Completes ss req user (some d) a =
      evaluate_record-Completes ss user d req.record_data a

  at_verdict-Completes :
      (v : Verdict) (ss : Stages h) (req : TraceRequest h) (user : ResolvedUser)
      (d : Option RecordRuleDetail)
      → AllAdvised h ss
      → Completes (at_verdict h v ss req user d)
  at_verdict-Completes ok ss req user d a = evaluate_domain-Completes ss req user d a
  at_verdict-Completes denied ss req user d a = build_response-advised ss a
  at_verdict-Completes skipped ss req user d a = build_response-advised ss a
  at_verdict-Completes error ss req user d a = build_response-advised ss a

  module _ (schema : SchemaModels) (req : TraceRequest h) (user : ResolvedUser) where
    with_groups-Completes :
        (ss : Stages h) (groups : Option ResolvedGroups)
        → groups ≢ none
        → AllAdvised h ss
        → Completes (with_groups h schema req user ss groups)
    with_groups-Completes ss none ne a = ne refl
    with_groups-Completes ss (some groups) ne a =
        let op = operation_of req.operation in
        let checked =
          AllAdvised-snoc h ss _ a (model_acl_stage-IsAdvised h schema user groups req.model op) in
        Completes-if (stops (check schema user groups req.model op).verdict) _ _
          (build_response-advised _ checked)
          (at_verdict-Completes _ _ req user _ (
            AllAdvised-snoc h _ _ checked
              (record_rule_stage-IsAdvised h schema user groups req.model op)))

    -- What the groups stage gives to the next one.
    abbrev GroupsGoOn : Extracted (Option GroupResult) → Type 0
    GroupsGoOn (failed e) = Unit
    GroupsGoOn (extracted none) = ⊥
    GroupsGoOn (extracted (some r)) = stops r.verdict ≡ false → r.groups ≢ none

    after_groups-Completes :
        (ss : Stages h) (r : Extracted (Option GroupResult))
        → GroupsGoOn r
        → AllAdvised h ss
        → Completes (after_groups h schema req user ss r)
    unfolding suggest_for_denied
    after_groups-Completes ss (failed e) g a = tt
    after_groups-Completes ss (extracted none) g a = g
    after_groups-Completes ss (extracted (some r)) g a =
        let a' = AllAdvised-snoc h ss (groups_stage r) a (λ e. omega arith) in
        elim (Bool-cases (stops r.verdict)) [
          | inl stop ↦ rw stop (build_response-advised _ a')
          | inr go_on ↦ rw go_on (with_groups-Completes _ r.groups (g go_on) a')
        ]

    with_records-GoesOn :
        (direct : List ℤ) (r : Extracted GroupMap) → GroupsGoOn (with_records h direct r)
    with_records-GoesOn direct (failed e) = tt
    with_records-GoesOn direct (extracted []) = λ e. cc
    with_records-GoesOn direct (extracted (g ∷ groups)) =
        let (out, ended, _) = effective_set_iff (g ∷ groups) direct in rw ended (λ e n. cc)

    with_groups_model-GoesOn :
        (raw : List (Entries Float64 Float32)) (m : Option SchemaModel)
        → GroupsGoOn (with_groups_model h user raw m)
    with_groups_model-GoesOn raw none = λ e. cc
    with_groups_model-GoesOn raw (some _) =
        with_records-GoesOn user.group_ids (parse_group_records h raw [])

    GroupsGoOn-if :
        (b : Bool) (x y : Extracted (Option GroupResult))
        → GroupsGoOn x
        → GroupsGoOn y
        → GroupsGoOn (if b then x else y)
    GroupsGoOn-if true x y hx hy = hx
    GroupsGoOn-if false x y hx hy = hy

    resolve_groups-GoesOn : GroupsGoOn (resolve_groups h schema user req.group_data)
    unfolding resolve_groups
    resolve_groups-GoesOn =
        GroupsGoOn-if user.super_user _ _ (λ e n. cc)
          (with_groups_model-GoesOn req.group_data (lookup_model (codes "res.groups") schema))

  module _ (schema : SchemaModels) (req : TraceRequest h) where
    with_user-Completes :
        (ss : Stages h) (user : Option ResolvedUser)
        → user ≢ none
        → AllAdvised h ss
        → Completes (with_user h schema req ss user)
    with_user-Completes ss none ne a = ne refl
    with_user-Completes ss (some user) ne a =
        Completes-if user.super_user _ _ (build_response-advised ss a) (
          after_groups-Completes schema req user ss (resolve_groups h schema user req.group_data)
            (resolve_groups-GoesOn schema req user) a)

    -- What the user stage gives to the next one.
    abbrev UserGoesOn : Extracted UserResult → Type 0
    UserGoesOn (failed e) = Unit
    UserGoesOn (extracted r) = stops r.verdict ≡ false → r.user ≢ none

    with_uid-GoesOn : (m : Entries Float64 Float32) (r : Extracted ℤ) → UserGoesOn (with_uid h m r)
    with_uid-GoesOn m (failed e) = tt
    with_uid-GoesOn m (extracted uid) = λ e n. ground arith

    with_users_model-GoesOn :
        (m : Entries Float64 Float32) (model : Option SchemaModel)
        → UserGoesOn (with_users_model h m model)
    with_users_model-GoesOn m none = λ e. cc
    with_users_model-GoesOn no_entries (some _) = λ e. cc
    with_users_model-GoesOn (entry k v m) (some _) =
        with_uid-GoesOn (entry k v m) (extract_int h (entry k v m) (codes "id"))

    resolve_user-GoesOn : (m : Entries Float64 Float32) → UserGoesOn (resolve_user h schema m)
    unfolding resolve_user
    resolve_user-GoesOn m = with_users_model-GoesOn m (lookup_model (codes "res.users") schema)

    after_user-Completes :
        (r : Extracted UserResult) → UserGoesOn r → Completes (after_user h schema req r)
    after_user-Completes (failed e) g = tt
    after_user-Completes (extracted r) g =
        let a : AllAdvised h (user_stage r ∷ []) = (user_stage-IsAdvised h r, tt) in
        elim (Bool-cases (stops r.verdict)) [
          | inl stop ↦ rw stop (build_response-advised _ a)
          | inr go_on ↦ rw go_on (with_user-Completes _ r.user (g go_on) a)
        ]

    -- For every schema and request the pipeline ends with a response or with the Go error of a
    -- user or group record that has no usable id: it never uses a nil user or nil groups, and the
    -- model's fuel suffices. A response that denies access has at least one suggestion.
    pub run-Completes : Completes (run h schema req)
    unfolding run
    run-Completes =
        after_user-Completes (resolve_user h schema req.user_data)
          (resolve_user-GoesOn req.user_data)
