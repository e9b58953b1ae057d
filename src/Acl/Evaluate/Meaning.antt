-- ===== src/Acl/Evaluate/Meaning.antt =====
-- internal/acl/domain_evaluator.go: what the verdict of the domain stage means.
use intelligent_odoo_dev_too.Prelude.{
  any-append, ◌≡◌, ◌↔◌, ◌⊎◌, refl, ap, ap₂, ◌∙◌, Bool, true, false, not, ◌&&◌, ◌||◌, List, [], ◌∷◌,
  if◌then◌else◌, any, all, arith, inl, inr,
}
use intelligent_odoo_dev_too.Prelude.Text.{Bytes}
use intelligent_odoo_dev_too.Domain.Ast.{
  Node, condition, bool_op, match_all, logic_and, no_nodes, node,
}
use intelligent_odoo_dev_too.Domain.Parser
use intelligent_odoo_dev_too.Domain.Parser.{parse}
use intelligent_odoo_dev_too.Domain.Tree
use intelligent_odoo_dev_too.Domain.Tree.{Element, build_tree}
use intelligent_odoo_dev_too.Domain.Tree.Juxtaposed.{conjoin, SideBySide, build_tree-conjoin}
use intelligent_odoo_dev_too.Acl.Host.{Host}
use intelligent_odoo_dev_too.Acl.Any.{Entries}
use intelligent_odoo_dev_too.Acl.Types.{EvalContext, RecordRuleMatch, ok, denied, is_ok}
use intelligent_odoo_dev_too.Acl.Evaluate.{
  RecordRuleDetail, eval_node, rule_result, eval_rule, evaluate_global_rules, group_results,
  evaluate_group_rules, evaluate,
}

decide_verdict :
    (global applies group : Bool)
    → ((if global && (if applies then group else true) then ok else denied) ≡ ok)
      ↔ ((global ≡ true) × ((applies ≡ false) ⊎ (group ≡ true)))
decide_verdict true true true = (λ _. (refl, inr refl), λ _. refl)
decide_verdict true true false = (λ e. cc, λ (_, e). ground arith)
decide_verdict true false group = (λ _. (refl, inl refl), λ _. refl)
decide_verdict false applies group = (λ e. cc, λ (e, _). cc)

is_ok-verdict :
    (global applies group : Bool)
    → is_ok (if global && (if applies then group else true) then ok else denied)
      ≡ (global && (not applies || group))
is_ok-verdict global applies group = ground arith

module _ (h : Host) (record_data : Entries h.Float64 h.Float32) (ctx : EvalContext) where
  -- The record satisfies a domain: the domain parses, and its tree holds of the record.
  holds_if_parsed : Parser.Result (Node h.Float64) → Bool
  holds_if_parsed (Parser.ok n) = (eval_node h record_data ctx n).0
  holds_if_parsed (Parser.err e) = false

  unfoldable pub satisfies : Bytes → Bool
  unfolding holds_if_parsed
  satisfies domain = holds_if_parsed (parse h.parse_float domain)

  pass-eval_rule :
      (name domain : Bytes) (g : Bool)
      → (eval_rule h record_data ctx name domain g).pass ≡ satisfies domain
  unfolding eval_rule satisfies
  pass-eval_rule name domain g = go (parse h.parse_float domain)
    where
      go :
          (r : Parser.Result (Node h.Float64))
          → (rule_result h record_data ctx name domain g r).pass ≡ holds_if_parsed r
      go (Parser.err e) = refl
      go (Parser.ok match_all) = refl
      go (Parser.ok (condition c)) = refl
      go (Parser.ok (bool_op op ns)) = refl

  pub global-eval_rule :
      (name domain : Bytes) (g : Bool) → (eval_rule h record_data ctx name domain g).is_global ≡ g
  unfolding eval_rule
  global-eval_rule name domain g = go (parse h.parse_float domain)
    where
      go :
          (r : Parser.Result (Node h.Float64))
          → (rule_result h record_data ctx name domain g r).is_global ≡ g
      go (Parser.err e) = refl
      go (Parser.ok match_all) = refl
      go (Parser.ok (condition c)) = refl
      go (Parser.ok (bool_op op ns)) = refl

  -- Every global rule that applies is satisfied.
  abbrev pub all_global : List RecordRuleMatch → Bool
  all_global rules = all (λ r. not r.applies || satisfies r.domain) rules

  -- Some group rule applies and is satisfied.
  abbrev pub some_group : List RecordRuleMatch → Bool
  some_group rules = any (λ r. r.applies && satisfies r.domain) rules

  global_pass-eq :
      (rules : List RecordRuleMatch)
      → (evaluate_global_rules h record_data ctx rules).0 ≡ all_global rules
  unfolding evaluate_global_rules
  global_pass-eq [] = refl
  global_pass-eq (r ∷ rules) =
      ground (arith, global_pass-eq rules, pass-eval_rule r.name r.domain true)

  -- No result of a global rule counts for the group rules.
  no_group_in_globals :
      (rules : List RecordRuleMatch)
      → any (λ rr. not rr.is_global && rr.pass) (evaluate_global_rules h record_data ctx rules).1
        ≡ false
  unfolding evaluate_global_rules
  no_group_in_globals [] = refl
  no_group_in_globals (r ∷ rules) =
      ground (arith, no_group_in_globals rules, global-eval_rule r.name r.domain true)

  group_results-some_group :
      (rules : List RecordRuleMatch)
      → any (λ rr. not rr.is_global && rr.pass) (group_results h record_data ctx rules)
        ≡ some_group rules
  unfolding group_results
  group_results-some_group [] = refl
  group_results-some_group (r ∷ rules) = ground (
    arith,
    group_results-some_group rules,
    global-eval_rule r.name r.domain false,
    pass-eval_rule r.name r.domain false,
  )

  group_pass-eq :
      (globals rules : List RecordRuleMatch)
      → (evaluate_group_rules h record_data ctx
          (evaluate_global_rules h record_data ctx globals).1
          rules).0
        ≡ (if any (λ r. r.applies) rules then some_group rules else true)
  unfolding evaluate_group_rules
  group_pass-eq globals rules =
      ap (λ b. if any (λ r. r.applies) rules then b else true)
        (any-append (λ rr. not rr.is_global && rr.pass)
            (evaluate_global_rules h record_data ctx globals).1
            (group_results h record_data ctx rules)
          ∙ ap₂ ◌||◌ (no_group_in_globals globals) (group_results-some_group rules))

  pub is_ok-evaluate :
      (d : RecordRuleDetail)
      → is_ok (evaluate h record_data ctx d).verdict ≡ (
          all_global d.global_rules
          && (not (any (λ r. r.applies) d.group_rules) || some_group d.group_rules))
  unfolding evaluate
  is_ok-evaluate d =
      rw (global_pass-eq d.global_rules, group_pass-eq d.global_rules d.group_rules)
        (is_ok-verdict (all_global d.global_rules) (any (λ r. r.applies) d.group_rules)
          (some_group d.group_rules))

  -- The domain stage answers OK exactly when the record satisfies every global rule that applies
  -- and, if some group rule applies, satisfies a group rule that applies.
  pub evaluate_verdict_iff :
      (d : RecordRuleDetail)
      → ((evaluate h record_data ctx d).verdict ≡ ok) ↔ (
          (all_global d.global_rules ≡ true)
          × ((any (λ r. r.applies) d.group_rules ≡ false) ⊎ (some_group d.group_rules ≡ true)))
  unfolding evaluate
  evaluate_verdict_iff d =
      let globals = global_pass-eq d.global_rules in
      let groups = group_pass-eq d.global_rules d.group_rules in
      rw (globals, groups)
        (decide_verdict (all_global d.global_rules) (any (λ r. r.applies) d.group_rules)
          (some_group d.group_rules))

  conjoin-holds :
      (n : Node h.Float64) (ns : List (Node h.Float64))
      → (eval_node h record_data ctx (conjoin n ns)).0
        ≡ all (λ m. (eval_node h record_data ctx m).0) (n ∷ ns)
  unfolding eval_node conjoin
  conjoin-holds n [] = ground arith
  conjoin-holds n (m ∷ ms) =
      conjoin-holds (bool_op logic_and (node n (node m no_nodes))) ms ∙ ground arith

  -- If the elements of a domain are one or more whole trees in prefix notation side by side, with
  -- no operator joining them, then `buildTree` returns a tree, and the record passes that tree
  -- exactly when it passes every one of those trees.
  pub eval_node-build_tree :
      (n : Node h.Float64) (ns : List (Node h.Float64)) (els : List (Element h.Float64))
      → SideBySide (n ∷ ns) els
      → (m : Node h.Float64) × (build_tree els ≡ Tree.ok m)
        × ((eval_node h record_data ctx m).0
            ≡ all (λ k. (eval_node h record_data ctx k).0) (n ∷ ns))
  eval_node-build_tree n ns els s =
      (conjoin n ns, build_tree-conjoin n ns els s, conjoin-holds n ns)
