-- ===== src/Acl/Groups/Resolved.antt =====
-- internal/acl/group_resolver.go: what `Resolve` returns for a user who is not the superuser.
use intelligent_odoo_dev_too.Prelude.{
  ◌≡◌, ◌↔◌, refl, ap, ◌∙◌, true, false, ◌||◌, some, List, [], ◌∷◌, arith, Bool-cases, inl, inr,
}
use intelligent_odoo_dev_too.Prelude.Int.{ℤ, eqb_ℤ, eqb_ℤ_iff}
use intelligent_odoo_dev_too.Prelude.Text.{codes}
use intelligent_odoo_dev_too.Acl.Host.{Host}
use intelligent_odoo_dev_too.Acl.Any.{Entries}
use intelligent_odoo_dev_too.Acl.Types.{
  ok, ResolvedUser, ResolvedGroups, mem_ℤ, has_group, GroupRecord, SchemaModel, SchemaModels,
  lookup_model,
}
use intelligent_odoo_dev_too.Acl.Users.{extracted}
use intelligent_odoo_dev_too.Acl.Groups.{
  GroupMap, insert_id, sorted_ids, resolved_groups, reason_of, GroupResult, parse_group_records,
  resolve_groups,
}
use intelligent_odoo_dev_too.Acl.Groups.Closure.{Reachable, effective_set_iff}

mem_ℤ-insert_id : (x n : ℤ) (ks : List ℤ) → mem_ℤ x (insert_id n ks) ≡ (eqb_ℤ x n || mem_ℤ x ks)
unfolding insert_id
mem_ℤ-insert_id x n [] = refl
mem_ℤ-insert_id x n (k ∷ ks) = elim (Bool-cases (eqb_ℤ n k)) [
  | inl same ↦ let is_k : n ≡ k = (eqb_ℤ_iff n k).0 same in ground (arith, ap (eqb_ℤ x) is_k)
  | inr other ↦ ground (arith, mem_ℤ-insert_id x n ks)
]

mem_ℤ-sorted_ids : (x : ℤ) (ns : List ℤ) → mem_ℤ x (sorted_ids ns) ≡ mem_ℤ x ns
unfolding sorted_ids
mem_ℤ-sorted_ids x [] = refl
mem_ℤ-sorted_ids x (n ∷ ns) =
    mem_ℤ-insert_id x n (sorted_ids ns) ∙ ap (λ b. eqb_ℤ x n || b) (mem_ℤ-sorted_ids x ns)

-- If the user is not the superuser, the schema has `res.groups` and the group records parse to at
-- least one group, then the groups stage returns groups with the verdict OK; the user has a group
-- exactly when it is a direct group or implied, through any number of groups, by one; and the
-- effective ids that are reported are those groups.
pub resolve_groups-Reachable :
    (h : Host) (schema : SchemaModels) (user : ResolvedUser)
    (raw : List (Entries h.Float64 h.Float32)) (m : SchemaModel) (g : ℤ × GroupRecord)
    (groups : GroupMap)
    → user.super_user ≡ false
    → lookup_model (codes "res.groups") schema ≡ some m
    → parse_group_records h raw [] ≡ extracted (g ∷ groups)
    → (out : GroupResult) × (r : ResolvedGroups) × (resolve_groups h schema user raw
        ≡ extracted (some out))
      × (out.groups ≡ some r)
      × (out.verdict ≡ ok)
      × ((id : ℤ) → (has_group r id ≡ true) ↔ Reachable (g ∷ groups) user.group_ids id)
      × ((id : ℤ) → mem_ℤ id r.effective_ids ≡ has_group r id)
unfolding resolve_groups
resolve_groups-Reachable h schema user raw m g groups plain there parsed =
    let (set, ended, reach) = effective_set_iff (g ∷ groups) user.group_ids in
    let r = resolved_groups (g ∷ groups) user.group_ids set in
    let out : GroupResult = record { groups = some r; verdict = ok; reason = reason_of r } in
    (
      out,
      r,
      rw (plain, there, parsed, ended) refl,
      refl,
      refl,
      reach,
      λ id. mem_ℤ-sorted_ids id set,
    )
