-- ===== src/Acl/Groups.antt =====
-- internal/acl/group_resolver.go: the groups stage. The map of groups by id is an association list
-- with the last record of an id in front; a set of ids is the list of its members.
use intelligent_odoo_dev_too.Prelude.{
  ℕ, zero, suc, ◌+◌, Bool, true, false, not, Option, none, some, List, [], ◌∷◌, ◌++◌, if◌then◌else◌,
  keep, length,
}
use intelligent_odoo_dev_too.Prelude.Int.{ℤ, eqb_ℤ, ltb_ℤ}
use intelligent_odoo_dev_too.Prelude.Text.{Bytes, codes}
use intelligent_odoo_dev_too.Acl.Host.{Host}
use intelligent_odoo_dev_too.Acl.Any.{Entries}
use intelligent_odoo_dev_too.Acl.Types.{
  Verdict, ok, error, ResolvedUser, is_super_user, mem_ℤ, GroupRecord, ResolvedGroups, SchemaModel,
  SchemaModels, lookup_model,
}
use intelligent_odoo_dev_too.Acl.Users.{
  Extracted, extracted, failed, extract_int, extract_string, extract_int_slice, extract_many2one_id,
}
pub mod Closure
pub mod Resolved

abbrev pub GroupMap : Type 0
GroupMap = List (ℤ × GroupRecord)

-- `groupByID[id]`.
unfoldable pub lookup_group : ℤ → GroupMap → Option GroupRecord
lookup_group id [] = none
lookup_group id ((k, g) ∷ groups) =
    let rest = lookup_group id groups in if eqb_ℤ k id then some g else rest

abbrev pub implied_or_none : Option GroupRecord → List ℤ
implied_or_none none = []
implied_or_none (some g) = g.implied_ids

-- The ids over which the loop goes for `current`: none for a group that is not in the data.
unfoldable pub implied_of : GroupMap → ℤ → List ℤ
unfolding lookup_group
implied_of groups id = implied_or_none (lookup_group id groups)

-- The inner loop: the new set and queue.
unfoldable pub add_implied : List ℤ → List ℤ → List ℤ → List ℤ × List ℤ
add_implied [] set queue = (set, queue)
add_implied (id ∷ ids) set queue =
    let set' = if mem_ℤ id set then set else set ++ (id ∷ []) in
    let queue' = if mem_ℤ id set then queue else queue ++ (id ∷ []) in add_implied ids set' queue'

-- The outer loop; `none` says that the fuel ran out.
unfoldable pub expand : ℕ → GroupMap → List ℤ → List ℤ → Option (List ℤ)
unfolding implied_of add_implied
expand fuel groups set [] = some set
expand zero groups set (current ∷ queue) = none
expand (suc fuel) groups set (current ∷ queue) =
    let (set', queue') = add_implied (implied_of groups current) set queue in
    expand fuel groups set' queue'

unfoldable pub all_implied : GroupMap → List ℤ
all_implied [] = []
all_implied ((_, g) ∷ groups) = g.implied_ids ++ all_implied groups

-- The effective set of `Resolve`: a round for each direct group, and one for each implied id.
unfoldable pub effective_set : GroupMap → List ℤ → Option (List ℤ)
unfolding expand all_implied
effective_set groups direct =
    expand (length direct + length (all_implied groups)) groups direct direct

-- The keys of the set in increasing order, each once.
unfoldable pub insert_id : ℤ → List ℤ → List ℤ
insert_id n [] = n ∷ []
insert_id n (k ∷ ks) =
    let rest = insert_id n ks in
    if eqb_ℤ n k then k ∷ ks else if ltb_ℤ n k then n ∷ k ∷ ks else k ∷ rest

unfoldable pub sorted_ids : List ℤ → List ℤ
unfolding insert_id
sorted_ids [] = []
sorted_ids (n ∷ ns) = insert_id n (sorted_ids ns)

abbrev pub with_group : Option GroupRecord → List GroupRecord → List GroupRecord
with_group none gs = gs
with_group (some g) gs = g ∷ gs

unfoldable pub collect_groups : GroupMap → List ℤ → List GroupRecord
unfolding lookup_group
collect_groups groups [] = []
collect_groups groups (id ∷ ids) = with_group (lookup_group id groups) (collect_groups groups ids)

pub data GroupReason : Type 0 where
  superuser_skipped groups_not_in_schema no_group_records no_groups : GroupReason
  groups_resolved : ℕ → ℕ → ℕ → GroupReason

pub record GroupResult : Type 0 where
  pub groups : Option ResolvedGroups
  pub verdict : Verdict
  pub reason : GroupReason

abbrev pub resolved_groups : GroupMap → List ℤ → List ℤ → ResolvedGroups
resolved_groups groups direct set = record {
  direct_ids = direct;
  implied_ids = sorted_ids (keep (λ id. not (mem_ℤ id direct)) set);
  effective_ids = sorted_ids set;
  effective_set = set;
  groups = collect_groups groups (sorted_ids set);
}

abbrev pub reason_of : ResolvedGroups → GroupReason
reason_of r = elim r.effective_ids [
  | [] ↦ no_groups
  | _ ∷ _ ↦ groups_resolved (length r.direct_ids) (length r.implied_ids) (length r.effective_ids)
]

module _ (h : Host) where
  open h use {Float64, Float32}

  abbrev group_of : Entries Float64 Float32 → ℤ → GroupRecord
  group_of r id = record {
    id = id;
    name = extract_string h r (codes "name");
    full_name = extract_string h r (codes "full_name");
    implied_ids = extract_int_slice h r (codes "implied_ids");
    category_id = extract_many2one_id h r (codes "category_id");
  }

  -- `parseGroupRecords`, with the map that is built so far.
  unfoldable pub parse_group_records :
      List (Entries Float64 Float32) → GroupMap → Extracted GroupMap
  unfolding extract_int extract_string extract_int_slice extract_many2one_id
  parse_group_records [] groups = extracted groups
  parse_group_records (r ∷ raw) groups = elim (extract_int h r (codes "id")) [
    | failed e ↦ failed e
    | extracted id ↦ parse_group_records raw ((id, group_of r id) ∷ groups)
  ]

  -- The end of `Resolve`. `none` has no counterpart in the source.
  abbrev with_set : GroupMap → List ℤ → Option (List ℤ) → Option GroupResult
  with_set groups direct none = none
  with_set groups direct (some set) = some (record {
    groups = some (resolved_groups groups direct set);
    verdict = ok;
    reason = reason_of (resolved_groups groups direct set);
  })

  abbrev pub with_records : List ℤ → Extracted GroupMap → Extracted (Option GroupResult)
  with_records direct (failed e) = failed e
  with_records direct (extracted []) =
      extracted (some (record { groups = none; verdict = error; reason = no_group_records }))
  with_records direct (extracted (g ∷ groups)) =
      extracted (with_set (g ∷ groups) direct (effective_set (g ∷ groups) direct))

  abbrev pub with_groups_model :
      ResolvedUser
      → List (Entries Float64 Float32)
      → Option SchemaModel
      → Extracted (Option GroupResult)
  with_groups_model user raw none =
      extracted (some (record { groups = none; verdict = error; reason = groups_not_in_schema }))
  with_groups_model user raw (some _) = with_records user.group_ids (parse_group_records raw [])

  -- `Resolve`; `extracted none` says that the fuel ran out.
  unfoldable pub resolve_groups :
      SchemaModels → ResolvedUser → List (Entries Float64 Float32) → Extracted (Option GroupResult)
  unfolding lookup_model effective_set sorted_ids collect_groups parse_group_records
  resolve_groups schema user raw =
      if is_super_user user
      then extracted (
          some (record {
            groups = some (record {
              direct_ids = user.group_ids;
              implied_ids = [];
              effective_ids = user.group_ids;
              effective_set = user.group_ids;
              groups = [];
            });
            verdict = ok;
            reason = superuser_skipped;
          }))
      else with_groups_model user raw (lookup_model (codes "res.groups") schema)
