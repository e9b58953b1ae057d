-- ===== src/Acl/Fields/Relevant.antt =====
-- internal/agent/collector/recordfetcher.go and internal/acl/domain_evaluator.go: the fields that are
-- fetched for the rules are all that their evaluation looks at.
use intelligent_odoo_dev_too.Prelude.{
  ◌≡◌, refl, sym, inl, inr, Bool, true, false, Option, none, some, List, [], ◌∷◌, Bool-cases, In,
  here, there, In-append_left, In-append_right,
}
use intelligent_odoo_dev_too.Prelude.Int.{ℤ}
use intelligent_odoo_dev_too.Prelude.Text.{Bytes}
use intelligent_odoo_dev_too.Domain.Ast.{Node}
use intelligent_odoo_dev_too.Domain.Parser
use intelligent_odoo_dev_too.Domain.Parser.{parse}
use intelligent_odoo_dev_too.Acl.Host.{Host}
use intelligent_odoo_dev_too.Acl.Any.{Entries, lookup_any}
use intelligent_odoo_dev_too.Acl.Types.{EvalContext, RecordRuleMatch}
use intelligent_odoo_dev_too.Acl.Evaluate.{
  RecordRuleDetail, eval_rule, evaluate_global_rules, group_results, evaluate_group_rules, evaluate,
}
use intelligent_odoo_dev_too.Acl.Fields.{
  extract_parsed, extract_from, fetched, fetch_record, first_record, applied_domains, domains_of,
  fetch_record_for_rules,
}
use intelligent_odoo_dev_too.Acl.Fields.Alike.{Agrees, rule_result-same, extract_fields-keeps}

module _ (h : Host) (r full : Entries h.Float64 h.Float32) (ctx : EvalContext) where
  open h use {Float64, Float32, parse_float}

  extract_parsed-keeps :
      (p : Parser.Result (Node Float64)) (g : Bytes) (seen : List Bytes)
      → In g seen
      → In g (extract_parsed p seen)
  unfolding extract_parsed
  extract_parsed-keeps (Parser.err e) g seen m = m
  extract_parsed-keeps (Parser.ok n) g seen m = extract_fields-keeps n g seen m

  extract_from-keeps :
      (ds : List Bytes) (g : Bytes) (seen : List Bytes) → In g seen → In g (extract_from h ds seen)
  unfolding extract_from
  extract_from-keeps [] g seen m = m
  extract_from-keeps (d ∷ ds) g seen m =
      extract_from-keeps ds g _ (extract_parsed-keeps (parse parse_float d) g seen m)

  -- The rules with some domains evaluate alike on the two records.
  abbrev SameOn : List Bytes → Type 0
  SameOn ds =
      (name d : Bytes) (g : Bool)
      → In d ds
      → eval_rule h r ctx name d g ≡ eval_rule h full ctx name d g

  SameOn-extract_from :
      (ds seen : List Bytes) → Agrees h r full ctx (extract_from h ds seen) → SameOn ds
  unfolding extract_from eval_rule
  SameOn-extract_from [] seen a name e g m = elim m [ ]
  SameOn-extract_from (d ∷ ds) seen a name e g here =
      rule_result-same h r full ctx name d g (parse parse_float d) seen
        (λ f m. a f (extract_from-keeps ds f _ m))
  SameOn-extract_from (d ∷ ds) seen a name e g (there m) =
      SameOn-extract_from ds (extract_parsed (parse parse_float d) seen) a name e g m

  evaluate_global_rules-same :
      (rules : List RecordRuleMatch)
      → SameOn (applied_domains rules)
      → evaluate_global_rules h r ctx rules ≡ evaluate_global_rules h full ctx rules
  unfolding evaluate_global_rules applied_domains
  evaluate_global_rules-same [] s = refl
  evaluate_global_rules-same (q ∷ rules) s = elim (Bool-cases q.applies) [
    | inl e ↦
        let s' : SameOn (q.domain ∷ applied_domains rules) = (rw e at s) in
        rw e (
          rw (s' q.name q.domain true here)
            (rw (evaluate_global_rules-same rules (λ n d g m. s' n d g (there m))) refl))
    | inr e ↦ rw e (rw (evaluate_global_rules-same rules (rw e at s)) refl)
  ]

  group_results-same :
      (rules : List RecordRuleMatch)
      → SameOn (applied_domains rules)
      → group_results h r ctx rules ≡ group_results h full ctx rules
  unfolding group_results applied_domains
  group_results-same [] s = refl
  group_results-same (q ∷ rules) s = elim (Bool-cases q.applies) [
    | inl e ↦
        let s' : SameOn (q.domain ∷ applied_domains rules) = (rw e at s) in
        rw e (
          rw (s' q.name q.domain false here)
            (rw (group_results-same rules (λ n d g m. s' n d g (there m))) refl))
    | inr e ↦ rw e (rw (group_results-same rules (rw e at s)) refl)
  ]

  evaluate-same :
      (d : RecordRuleDetail)
      → Agrees h r full ctx (extract_from h (domains_of d) [])
      → evaluate h r ctx d ≡ evaluate h full ctx d
  unfolding evaluate evaluate_group_rules domains_of
  evaluate-same d a =
      let s = SameOn-extract_from (domains_of d) [] a in
      rw (evaluate_global_rules-same d.global_rules (λ n e g m. s n e g (In-append_left _ m)))
        (rw (group_results-same d.group_rules (λ n e g m. s n e g (In-append_right _ m))) refl)

module _ (h : Host) (full : Entries h.Float64 h.Float32)
    (call : Bytes → ℤ → List Bytes → Option (List (Entries h.Float64 h.Float32)))
    (answers : (model : Bytes) (id : ℤ) (fields : List Bytes) (x : Entries h.Float64 h.Float32)
        (rs : _)
      → call model id fields ≡ some (x ∷ rs)
      → (f : Bytes) → In f fields
      → lookup_any f x ≡ lookup_any f full) where
  fetch_record-same :
      (model : Bytes) (id : ℤ) (fields : List Bytes) (r : Entries h.Float64 h.Float32)
      (ctx : EvalContext)
      → fetch_record h call model id fields ≡ fetched r
      → Agrees h r full ctx fields
  fetch_record-same model id [] r ctx e = λ f m. elim m [ ]
  fetch_record-same model id (f ∷ fields) r ctx e = from_answer (call model id (f ∷ fields)) refl e
    where
      from_answer :
          (ans : _)
          → call model id (f ∷ fields) ≡ ans
          → first_record h ans ≡ fetched r
          → Agrees h r full ctx (f ∷ fields)
      from_answer none q e = cc
      from_answer (some []) q e = cc
      from_answer (some (x ∷ rs)) q e =
          let same : x ≡ r = cc in rw (sym same) (answers model id (f ∷ fields) x rs q)

  -- If the answers of Odoo have the values of the whole record for the fields asked for, and
  -- `FetchRecordForRules` gives a record, then the rules evaluate on it as on the whole record.
  pub fetch_record_for_rules-evaluate :
      (model : Bytes) (id : ℤ) (d : RecordRuleDetail) (ctx : EvalContext)
      (r : Entries h.Float64 h.Float32)
      → fetch_record_for_rules h call model id d ≡ fetched r
      → evaluate h r ctx d ≡ evaluate h full ctx d
  unfolding fetch_record_for_rules
  fetch_record_for_rules-evaluate model id d ctx r e =
      evaluate-same h r full ctx d
        (fetch_record-same model id (extract_from h (domains_of d) []) r ctx e)
