-- ===== src/Acl/Fields/Alike.antt =====
-- internal/agent/collector/recordfetcher.go and internal/acl/domain_evaluator.go: a node evaluates alike
-- on two records with the same values for its fields.
use intelligent_odoo_dev_too.Prelude.{
  ◌≡◌, refl, ap, ap₂, ◌∙◌, inl, inr, Bool, true, ◌&&◌, ◌||◌, not, Option, none, some, List, [], ◌∷◌,
  ◌++◌, any, Bool-cases, In, here, there,
}
use intelligent_odoo_dev_too.Prelude.Text.{Bytes, eqb, eqb_iff}
use intelligent_odoo_dev_too.Domain.Ast.{
  Condition, Node, Nodes, condition, bool_op, match_all, no_nodes, node, logic_and, logic_or,
  logic_not,
}
use intelligent_odoo_dev_too.Domain.Parser
use intelligent_odoo_dev_too.Domain.Parser.{parse}
use intelligent_odoo_dev_too.Acl.Host.{Host}
use intelligent_odoo_dev_too.Acl.Any.{Entries, lookup_any}
use intelligent_odoo_dev_too.Acl.Resolve.{Resolved, resolved, unresolved, resolve_value}
use intelligent_odoo_dev_too.Acl.Types.{EvalContext}
use intelligent_odoo_dev_too.Acl.Evaluate.{
  eval_condition, with_expected, with_actual, eval_node, eval_all, eval_any, rule_result,
}
use intelligent_odoo_dev_too.Acl.Fields.{add_field, extract_fields, extract_all, extract_parsed}

any-In : (f : Bytes) (seen : List Bytes) → any (eqb f) seen ≡ true → In f seen
any-In f [] e = cc
any-In f (g ∷ seen) e = elim (Bool-cases (eqb f g)) [
  | inl b ↦ let same : f ≡ g = (eqb_iff f g).0 b in rw same here
  | inr b ↦ there (any-In f seen (rw b at e))
]

add_field-here : (f : Bytes) (seen : List Bytes) → In f (add_field f seen)
add_field-here f seen = elim (Bool-cases (any (eqb f) seen)) [
  | inl e ↦ rw e (any-In f seen e)
  | inr e ↦ rw e here
]

add_field-keeps : (f g : Bytes) (seen : List Bytes) → In g seen → In g (add_field f seen)
add_field-keeps f g seen m = elim (Bool-cases (any (eqb f) seen)) [
  | inl e ↦ rw e m
  | inr e ↦ rw e (there m)
]

module _ {F : Type 0} where
  mutual
    unfolding extract_fields

    pub extract_fields-keeps :
        (n : Node F) (g : Bytes) (seen : List Bytes) → In g seen → In g (extract_fields n seen)
    extract_fields-keeps (condition c) g seen m = add_field-keeps c.field g seen m
    extract_fields-keeps (bool_op op ns) g seen m = extract_all-keeps ns g seen m
    extract_fields-keeps match_all g seen m = m

    extract_all-keeps :
        (ns : Nodes F) (g : Bytes) (seen : List Bytes) → In g seen → In g (extract_all ns seen)
    extract_all-keeps no_nodes g seen m = m
    extract_all-keeps (node n ns) g seen m =
        extract_all-keeps ns g (extract_fields n seen) (extract_fields-keeps n g seen m)

module _ (h : Host) (r full : Entries h.Float64 h.Float32) (ctx : EvalContext) where
  open h use {Float64, Float32, parse_float}

  -- Two records with the same values for some fields.
  abbrev pub Agrees : List Bytes → Type 0
  Agrees fields = (f : Bytes) → In f fields → lookup_any f r ≡ lookup_any f full

  with_actual-same :
      (c : Condition Float64) (v : _) (o : Option _)
      → with_actual h r ctx c v o ≡ with_actual h full ctx c v o
  with_actual-same c v none = refl
  with_actual-same c v (some a) = refl

  with_expected-same :
      (c : Condition Float64) (v : Resolved _)
      → lookup_any c.field r ≡ lookup_any c.field full
      → with_expected h r ctx c v ≡ with_expected h full ctx c v
  with_expected-same c (unresolved ref) e = refl
  with_expected-same c (resolved v) e =
      ap (with_actual h r ctx c v) e ∙ with_actual-same c v (lookup_any c.field full)

  eval_condition-same :
      (c : Condition Float64)
      → lookup_any c.field r ≡ lookup_any c.field full
      → eval_condition h r ctx c ≡ eval_condition h full ctx c
  unfolding eval_condition
  eval_condition-same c e = with_expected-same c (resolve_value ctx c.val) e

  -- The fields are those added to some earlier ones.
  mutual
    unfolding extract_fields eval_node

    eval_node-same :
        (n : Node Float64) (seen : List Bytes)
        → Agrees (extract_fields n seen)
        → eval_node h r ctx n ≡ eval_node h full ctx n
    eval_node-same match_all seen a = refl
    eval_node-same (condition c) seen a =
        ap (λ x. (x.pass, x ∷ [])) (eval_condition-same c (a c.field (add_field-here c.field seen)))
    eval_node-same (bool_op logic_and ns) seen a = eval_all-same ns seen a
    eval_node-same (bool_op logic_or ns) seen a = eval_any-same ns seen a
    eval_node-same (bool_op logic_not no_nodes) seen a = refl
    eval_node-same (bool_op logic_not (node n no_nodes)) seen a =
        ap (λ x. (not x.0, x.1)) (eval_node-same n seen a)
    eval_node-same (bool_op logic_not (node n (node m ns))) seen a = refl

    eval_all-same :
        (ns : Nodes Float64) (seen : List Bytes)
        → Agrees (extract_all ns seen)
        → eval_all h r ctx ns ≡ eval_all h full ctx ns
    eval_all-same no_nodes seen a = refl
    eval_all-same (node n ns) seen a =
        ap₂ (λ x y. (x.0 && y.0, x.1 ++ y.1))
          (eval_node-same n seen (λ f m. a f (extract_all-keeps ns f _ m)))
          (eval_all-same ns (extract_fields n seen) a)

    eval_any-same :
        (ns : Nodes Float64) (seen : List Bytes)
        → Agrees (extract_all ns seen)
        → eval_any h r ctx ns ≡ eval_any h full ctx ns
    eval_any-same no_nodes seen a = refl
    eval_any-same (node n ns) seen a =
        ap₂ (λ x y. (x.0 || y.0, x.1 ++ y.1))
          (eval_node-same n seen (λ f m. a f (extract_all-keeps ns f _ m)))
          (eval_any-same ns (extract_fields n seen) a)

  pub rule_result-same :
      (name dom : Bytes) (g : Bool) (p : Parser.Result (Node Float64)) (seen : List Bytes)
      → Agrees (extract_parsed p seen)
      → rule_result h r ctx name dom g p ≡ rule_result h full ctx name dom g p
  unfolding extract_parsed
  rule_result-same name dom g (Parser.err e) seen a = refl
  rule_result-same name dom g (Parser.ok match_all) seen a = refl
  rule_result-same name dom g (Parser.ok (condition c)) seen a =
      rw (eval_node-same (condition c) seen a) refl
  rule_result-same name dom g (Parser.ok (bool_op op ns)) seen a =
      rw (eval_node-same (bool_op op ns) seen a) refl
