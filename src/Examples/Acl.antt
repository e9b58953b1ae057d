-- ===== src/Examples/Acl.antt =====
-- internal/acl on a small schema: the model `sale.order` with an access rule, a global record rule
-- and a record rule of the group 7.
use intelligent_odoo_dev_too.Prelude.{
  List, ◌≡◌, ◌↔◌, ◌⊎◌, refl, true, false, some, [], ◌∷◌, any, all,
}
use intelligent_odoo_dev_too.Prelude.Int.{ℤ, pos, ◌+ℤ◌}
use intelligent_odoo_dev_too.Prelude.Text.{Bytes, codes}
use intelligent_odoo_dev_too.Domain.Ast.{
  Node, condition, op_equal, op_greater, int_value, ref_value,
}
use intelligent_odoo_dev_too.Domain.Token.{same_type}
use intelligent_odoo_dev_too.Domain.Tree
use intelligent_odoo_dev_too.Domain.Tree.{Element, operand, build_tree}
use intelligent_odoo_dev_too.Domain.Tree.Prefix.{leaf}
use intelligent_odoo_dev_too.Domain.Tree.Juxtaposed.{SideBySide, none_left, beside}
use intelligent_odoo_dev_too.Acl.Any.{Entries, no_entries, entry, int_any}
use intelligent_odoo_dev_too.Acl.Like.{match_like}
use intelligent_odoo_dev_too.Acl.Like.Spec.{Like}
use intelligent_odoo_dev_too.Acl.Like.Correct.{match_like_iff}
use intelligent_odoo_dev_too.Acl.Types.{
  ok, ResolvedUser, ResolvedGroups, op_read, SchemaModel, SchemaModels, lookup_model, EvalContext,
}
use intelligent_odoo_dev_too.Acl.Types.{mem_ℤ, has_group, GroupRecord}
use intelligent_odoo_dev_too.Acl.Any.{slice_any, no_anys, any as any_item}
use intelligent_odoo_dev_too.Acl.Users.{extracted}
use intelligent_odoo_dev_too.Acl.Groups.{
  GroupMap, GroupResult, parse_group_records, effective_set, resolve_groups,
}
use intelligent_odoo_dev_too.Acl.Groups.Closure.{Reachable, effective_set_iff}
use intelligent_odoo_dev_too.Acl.Groups.Resolved.{resolve_groups-Reachable}
use intelligent_odoo_dev_too.Acl.ModelAcl.{check}
use intelligent_odoo_dev_too.Acl.ModelAcl.Meaning.{grants_access, check_verdict_iff}
use intelligent_odoo_dev_too.Acl.Evaluate.{RecordRuleDetail, evaluate, eval_node}
use intelligent_odoo_dev_too.Acl.Evaluate.Meaning.{
  all_global, some_group, evaluate_verdict_iff, eval_node-build_tree,
}
use intelligent_odoo_dev_too.Acl.RecordRules.{find}
use intelligent_odoo_dev_too.Acl.RecordRules.Meaning.{rules_allow, odoo_rules, find-odoo_rules}
use intelligent_odoo_dev_too.Examples.Host.{whole_host}

match_like_iff_example :
    (match_like (codes "SO0042") (codes "SO%4_") ≡ true) ↔ Like (codes "SO%4_") (codes "SO0042")
match_like_iff_example = match_like_iff (codes "SO0042") (codes "SO%4_")

match_like_test : match_like (codes "SO0042") (codes "SO%4_") ≡ true
unfolding match_like
match_like_test = refl

abbrev clerk : ResolvedUser
clerk = record {
  uid = pos 5;
  login = codes "clerk";
  name = codes "Clerk";
  active = true;
  company_id = pos 1;
  company_ids = pos 1 ∷ [];
  group_ids = pos 7 ∷ [];
  share = false;
  super_user = false;
}

abbrev clerk_groups : ResolvedGroups
clerk_groups = record {
  direct_ids = pos 7 ∷ [];
  implied_ids = [];
  effective_ids = pos 7 ∷ [];
  effective_set = pos 7 ∷ [];
  groups = [];
}

abbrev sale_order : Bytes
sale_order = codes "sale.order"

abbrev own_orders : Bytes
own_orders = codes "[('user_id', '=', user.id)]"

abbrev large_orders : Bytes
large_orders = codes "[('amount', '>', 100)]"

abbrev sale_model : SchemaModel
sale_model = record {
  model = sale_order;
  name = codes "Order";
  fields = [];
  accesses =
      record {
        group_id = codes "7";
        perm_read = true;
        perm_write = false;
        perm_create = false;
        perm_unlink = false;
      }
      ∷ [];
  rules =
      record {
        name = codes "large";
        group_ids = [];
        domain = large_orders;
        perm_read = true;
        perm_write = true;
        perm_create = true;
        perm_unlink = true;
      }
      ∷ record {
        name = codes "own";
        group_ids = pos 7 ∷ [];
        domain = own_orders;
        perm_read = true;
        perm_write = false;
        perm_create = false;
        perm_unlink = false;
      }
      ∷ [];
}

abbrev schema : SchemaModels
schema = (sale_order, sale_model) ∷ []

abbrev clerk_context : EvalContext
clerk_context = record { user_id = pos 5; company_id = pos 1; company_ids = pos 1 ∷ [] }

abbrev order_of_clerk : Entries ℤ ℤ
order_of_clerk =
    entry (codes "amount") (int_any (pos 250))
      (entry (codes "user_id") (int_any (pos 5)) no_entries)

lookup_sale_model : lookup_model sale_order schema ≡ some sale_model
unfolding lookup_model
lookup_sale_model = refl

check_verdict_iff_example : ((check schema clerk clerk_groups sale_order op_read).verdict ≡ ok) ↔ (
    (clerk.super_user ≡ true)
    ⊎ (grants_access clerk_groups op_read (lookup_model sale_order schema) ≡ true))
check_verdict_iff_example = check_verdict_iff schema clerk clerk_groups sale_order op_read

find-odoo_rules_example :
    rules_allow whole_host order_of_clerk clerk_context
      (find schema clerk clerk_groups sale_order op_read)
    ≡ odoo_rules whole_host order_of_clerk clerk_context clerk_groups op_read sale_model.rules
find-odoo_rules_example =
    find-odoo_rules whole_host order_of_clerk clerk_context schema clerk clerk_groups sale_order
      op_read sale_model refl lookup_sale_model

abbrev clerk_rules : RecordRuleDetail
clerk_rules = record {
  model = sale_order;
  operation = op_read;
  global_rules =
      record {
        name = codes "large";
        domain = large_orders;
        is_global = true;
        applies = true;
        group_ids = [];
      }
      ∷ [];
  group_rules =
      record {
        name = codes "own";
        domain = own_orders;
        is_global = false;
        applies = true;
        group_ids = pos 7 ∷ [];
      }
      ∷ [];
  total_rules = 2;
  applied_count = 2;
}

evaluate_verdict_iff_example :
    ((evaluate whole_host order_of_clerk clerk_context clerk_rules).verdict ≡ ok) ↔ (
      (all_global whole_host order_of_clerk clerk_context clerk_rules.global_rules ≡ true)
      × ((any (λ r. r.applies) clerk_rules.group_rules ≡ false)
          ⊎ (some_group whole_host order_of_clerk clerk_context clerk_rules.group_rules ≡ true)))
evaluate_verdict_iff_example =
    evaluate_verdict_iff whole_host order_of_clerk clerk_context clerk_rules

evaluate_test : (evaluate whole_host order_of_clerk clerk_context clerk_rules).verdict ≡ ok
unfolding evaluate same_type ◌+ℤ◌
evaluate_test = refl

abbrev own : Node ℤ
own =
    condition (record { field = codes "user_id"; op = op_equal; val = ref_value (codes "user.id") })

abbrev large : Node ℤ
large = condition (record { field = codes "amount"; op = op_greater; val = int_value (pos 100) })

abbrev both_conditions : List (Element ℤ)
both_conditions = operand own ∷ operand large ∷ []

both_conditions-SideBySide : SideBySide (own ∷ large ∷ []) both_conditions
both_conditions-SideBySide = beside (leaf own) (beside (leaf large) none_left)

eval_node-build_tree_example :
    (m : Node ℤ) × (build_tree both_conditions ≡ Tree.ok m)
    × ((eval_node whole_host order_of_clerk clerk_context m).0
        ≡ all (λ k. (eval_node whole_host order_of_clerk clerk_context k).0) (own ∷ large ∷ []))
eval_node-build_tree_example =
    eval_node-build_tree whole_host order_of_clerk clerk_context own (large ∷ []) both_conditions
      both_conditions-SideBySide

-- Three groups: 7 implies 8, which implies 9, which implies 7 again.
abbrev group_7 : Entries ℤ ℤ
group_7 =
    entry (codes "id") (int_any (pos 7))
      (entry (codes "implied_ids") (slice_any (any_item (int_any (pos 8)) no_anys)) no_entries)

abbrev group_8 : Entries ℤ ℤ
group_8 =
    entry (codes "id") (int_any (pos 8))
      (entry (codes "implied_ids") (slice_any (any_item (int_any (pos 9)) no_anys)) no_entries)

abbrev group_9 : Entries ℤ ℤ
group_9 =
    entry (codes "id") (int_any (pos 9))
      (entry (codes "implied_ids") (slice_any (any_item (int_any (pos 7)) no_anys)) no_entries)

abbrev group_record : ℤ → List ℤ → ℤ × GroupRecord
group_record n implied =
    (n, record { id = n; name = []; full_name = []; implied_ids = implied; category_id = pos 0 })

abbrev cycle_left : GroupMap
cycle_left = group_record (pos 8) (pos 9 ∷ []) ∷ group_record (pos 7) (pos 8 ∷ []) ∷ []

abbrev cycle : GroupMap
cycle = group_record (pos 9) (pos 7 ∷ []) ∷ cycle_left

abbrev groups_schema : SchemaModels
groups_schema = (codes "res.groups", sale_model) ∷ []

lookup_groups_model : lookup_model (codes "res.groups") groups_schema ≡ some sale_model
unfolding lookup_model
lookup_groups_model = refl

parse_cycle : parse_group_records whole_host (group_7 ∷ group_8 ∷ group_9 ∷ []) [] ≡ extracted cycle
unfolding parse_group_records
parse_cycle = refl

effective_set_test : effective_set cycle (pos 7 ∷ []) ≡ some (pos 7 ∷ pos 8 ∷ pos 9 ∷ [])
unfolding effective_set
effective_set_test = refl

effective_set_iff_example :
    (out : List ℤ) × (effective_set cycle (pos 7 ∷ []) ≡ some out)
    × ((id : ℤ) → (mem_ℤ id out ≡ true) ↔ Reachable cycle (pos 7 ∷ []) id)
effective_set_iff_example = effective_set_iff cycle (pos 7 ∷ [])

resolve_groups-Reachable_example :
    (out : GroupResult) × (r : ResolvedGroups) × (resolve_groups whole_host groups_schema clerk
        (group_7 ∷ group_8 ∷ group_9 ∷ [])
      ≡ extracted (some out))
    × (out.groups ≡ some r)
    × (out.verdict ≡ ok)
    × ((id : ℤ) → (has_group r id ≡ true) ↔ Reachable cycle clerk.group_ids id)
    × ((id : ℤ) → mem_ℤ id r.effective_ids ≡ has_group r id)
resolve_groups-Reachable_example =
    resolve_groups-Reachable whole_host groups_schema clerk (group_7 ∷ group_8 ∷ group_9 ∷ [])
      sale_model (group_record (pos 9) (pos 7 ∷ [])) cycle_left refl lookup_groups_model parse_cycle
