-- ===== src/Examples/Pipeline.antt =====
-- internal/service/acl_service.go on a small schema: the model `sale.order` with an access rule, a
-- global record rule and a record rule of the group 7.
use intelligent_odoo_dev_too.Prelude.{◌≡◌, ◌↔◌, refl, true, false, ◌&&◌, some, [], ◌∷◌}
use intelligent_odoo_dev_too.Prelude.Int.{ℤ, pos}
use intelligent_odoo_dev_too.Prelude.Text.{Bytes, codes}
use intelligent_odoo_dev_too.Acl.Any.{
  Entries, no_entries, entry, int_any, bool_any, slice_any, no_anys, any as any_item,
}
use intelligent_odoo_dev_too.Acl.Types.{
  ok, ResolvedUser, ResolvedGroups, has_group, GroupRecord, SchemaModel, SchemaModels, lookup_model,
}
use intelligent_odoo_dev_too.Acl.Users.{extracted, user_resolved, resolve_user}
use intelligent_odoo_dev_too.Acl.Groups.{parse_group_records}
use intelligent_odoo_dev_too.Acl.Groups.Closure.{Reachable}
use intelligent_odoo_dev_too.Acl.ModelAcl.Meaning.{grants_access}
use intelligent_odoo_dev_too.Acl.Pipeline.{
  TraceRequest, TraceResponse, responded, run, operation_of,
}
use intelligent_odoo_dev_too.Acl.Pipeline.Endings.{record_access}
use intelligent_odoo_dev_too.Acl.Pipeline.Verdicts.{run-access}
use intelligent_odoo_dev_too.Acl.Pipeline.Completes.{Completes, run-Completes}
use intelligent_odoo_dev_too.Examples.Host.{whole_host}

abbrev sale_order : Bytes
sale_order = codes "sale.order"

abbrev sale_model : SchemaModel
sale_model = record {
  model = sale_order;
  name = codes "Order";
  fields = [];
  accesses =
      record {
        group_id = codes "7";
        perm_read = true;
        perm_write = false;
        perm_create = false;
        perm_unlink = false;
      }
      ∷ [];
  rules =
      record {
        name = codes "own";
        group_ids = pos 7 ∷ [];
        domain = codes "[('user_id', '=', user.id)]";
        perm_read = true;
        perm_write = false;
        perm_create = false;
        perm_unlink = false;
      }
      ∷ [];
}

abbrev empty_model : SchemaModel
empty_model = record { model = []; name = []; fields = []; accesses = []; rules = [] }

abbrev schema : SchemaModels
schema =
    (codes "res.users", empty_model)
    ∷ (codes "res.groups", empty_model)
    ∷ (sale_order, sale_model)
    ∷ []

abbrev clerk : ResolvedUser
clerk = record {
  uid = pos 5;
  login = [];
  name = [];
  active = true;
  company_id = pos 0;
  company_ids = [];
  group_ids = pos 6 ∷ [];
  share = false;
  super_user = false;
}

abbrev ids : ℤ → Entries ℤ ℤ → Entries ℤ ℤ
ids n rest = entry (codes "implied_ids") (slice_any (any_item (int_any n) no_anys)) rest

-- The clerk is in the group 6, which implies the group 7.
abbrev request : TraceRequest whole_host
request = record {
  model = sale_order;
  operation = codes "read";
  user_data = entry (codes "id") (int_any (pos 5)) (
      entry (codes "active") (bool_any true)
        (entry (codes "groups_id") (slice_any (any_item (int_any (pos 6)) no_anys)) no_entries));
  group_data = entry (codes "id") (int_any (pos 6)) (ids (pos 7) no_entries) ∷ [];
  record_data = entry (codes "user_id") (int_any (pos 5)) no_entries;
}

abbrev group_6 : ℤ × GroupRecord
group_6 = (
  pos 6,
  record { id = pos 6; name = []; full_name = []; implied_ids = pos 7 ∷ []; category_id = pos 0 },
)

resolve_clerk :
    resolve_user whole_host schema request.user_data
    ≡ extracted (record { user = some clerk; verdict = ok; reason = user_resolved })
unfolding resolve_user
resolve_clerk = refl

parse_group_6 : parse_group_records whole_host request.group_data [] ≡ extracted (group_6 ∷ [])
unfolding parse_group_records
parse_group_6 = refl

lookup_groups : lookup_model (codes "res.groups") schema ≡ some empty_model
unfolding lookup_model
lookup_groups = refl

lookup_sale_order : lookup_model sale_order schema ≡ some sale_model
unfolding lookup_model
lookup_sale_order = refl

run-access_example :
    (groups : ResolvedGroups) × ((id : ℤ)
      → (has_group groups id ≡ true) ↔ Reachable (group_6 ∷ []) clerk.group_ids id)
    × (out : TraceResponse whole_host) × (run whole_host schema request ≡ responded out)
    × (out.allowed ≡ (
        grants_access groups (operation_of request.operation) (some sale_model)
        && record_access whole_host request.record_data clerk groups
            (operation_of request.operation)
            sale_model.rules))
run-access_example =
    run-access whole_host schema request clerk refl sale_model empty_model group_6 [] resolve_clerk
      lookup_groups parse_group_6 lookup_sale_order

run-Completes_example : Completes whole_host (run whole_host schema request)
run-Completes_example = run-Completes whole_host schema request
