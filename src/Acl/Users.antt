-- ===== src/Acl/Users.antt =====
-- internal/acl/user_resolver.go: the user stage, and the fields of a raw Odoo record. Error texts
-- and reasons are constructors.
use intelligent_odoo_dev_too.Prelude.{
  Bool, false, not, Option, none, some, List, [], ◌∷◌, if◌then◌else◌,
}
use intelligent_odoo_dev_too.Prelude.Int.{ℤ, pos, eqb_ℤ}
use intelligent_odoo_dev_too.Prelude.Text.{Bytes, codes}
use intelligent_odoo_dev_too.Domain.Parser.{parse_int64}
use intelligent_odoo_dev_too.Acl.Host.{Host}
use intelligent_odoo_dev_too.Acl.Any.{
  Any, bool_any, int_any, int64_any, float64_any, string_any, slice_any, Anys, no_anys,
  any as any_item, Entries, no_entries, entry, lookup_any,
}
use intelligent_odoo_dev_too.Acl.Types.{
  Verdict, ok, denied, error, ResolvedUser, SchemaModel, SchemaModels, lookup_model,
}

-- The errors of `extractInt`.
pub data ExtractError : Type 0 where
  missing_field not_a_number unexpected_type : Bytes → ExtractError

pub data Extracted (A : Type 0) : Type 0 where
  extracted : A → Extracted A
  failed : ExtractError → Extracted A

pub data UserReason : Type 0 where
  users_not_in_schema user_not_found user_inactive user_resolved user_is_superuser : UserReason

pub record UserResult : Type 0 where
  pub user : Option ResolvedUser
  pub verdict : Verdict
  pub reason : UserReason

abbrev from_atoi : Bytes → Option ℤ → Extracted ℤ
from_atoi key none = failed (not_a_number key)
from_atoi key (some n) = extracted n

module _ (h : Host) where
  open h use {Float64, Float32, to_int}

  abbrev int_of : Bytes → Option (Any Float64 Float32) → Extracted ℤ
  int_of key none = failed (missing_field key)
  int_of key (some (int_any n)) = extracted n
  int_of key (some (float64_any f)) = extracted (to_int f)
  int_of key (some (int64_any n)) = extracted n
  int_of key (some (string_any s)) = from_atoi key (parse_int64 s)
  int_of key (some _) = failed (unexpected_type key)

  -- `extractInt`.
  unfoldable pub extract_int : Entries Float64 Float32 → Bytes → Extracted ℤ
  unfolding lookup_any parse_int64
  extract_int m key = int_of key (lookup_any key m)

  abbrev string_of : Option (Any Float64 Float32) → Bytes
  string_of (some (string_any s)) = s
  string_of _ = []

  -- `extractString`.
  unfoldable pub extract_string : Entries Float64 Float32 → Bytes → Bytes
  unfolding lookup_any
  extract_string m key = string_of (lookup_any key m)

  abbrev bool_of : Option (Any Float64 Float32) → Bool
  bool_of (some (bool_any b)) = b
  bool_of _ = false

  -- `extractBool`.
  unfoldable pub extract_bool : Entries Float64 Float32 → Bytes → Bool
  unfolding lookup_any
  extract_bool m key = bool_of (lookup_any key m)

  -- `anyToInt`.
  abbrev pub any_to_int : Any Float64 Float32 → ℤ
  any_to_int (float64_any f) = to_int f
  any_to_int (int_any n) = n
  any_to_int (int64_any n) = n
  any_to_int _ = pos 0

  abbrev many2one_of : Option (Any Float64 Float32) → ℤ
  many2one_of (some (float64_any f)) = to_int f
  many2one_of (some (int_any n)) = n
  many2one_of (some (slice_any (any_item v _))) = any_to_int v
  many2one_of _ = pos 0

  -- `extractMany2OneID`.
  unfoldable pub extract_many2one_id : Entries Float64 Float32 → Bytes → ℤ
  unfolding lookup_any
  extract_many2one_id m key = many2one_of (lookup_any key m)

  -- The loop of `extractIntSlice`.
  unfoldable pub nonzero_ints : Anys Float64 Float32 → List ℤ
  nonzero_ints no_anys = []
  nonzero_ints (any_item v vs) =
      let rest = nonzero_ints vs in
      if eqb_ℤ (any_to_int v) (pos 0) then rest else any_to_int v ∷ rest

  abbrev int_slice_of : Option (Any Float64 Float32) → List ℤ
  int_slice_of (some (slice_any vs)) = nonzero_ints vs
  int_slice_of _ = []

  -- `extractIntSlice`.
  unfoldable pub extract_int_slice : Entries Float64 Float32 → Bytes → List ℤ
  unfolding lookup_any nonzero_ints
  extract_int_slice m key = int_slice_of (lookup_any key m)

  -- `Resolve` from the extraction of the fields on.
  abbrev pub user_of : Entries Float64 Float32 → ℤ → ResolvedUser
  user_of m uid = record {
    uid = uid;
    login = extract_string m (codes "login");
    name = extract_string m (codes "name");
    active = extract_bool m (codes "active");
    company_id = extract_many2one_id m (codes "company_id");
    company_ids = extract_int_slice m (codes "company_ids");
    group_ids = extract_int_slice m (codes "groups_id");
    share = extract_bool m (codes "share");
    super_user = eqb_ℤ uid (pos 1);
  }

  abbrev pub user_result : ResolvedUser → UserResult
  user_result u =
      if not u.active
      then record { user = some u; verdict = denied; reason = user_inactive }
      else if u.super_user
      then record { user = some u; verdict = ok; reason = user_is_superuser }
      else record { user = some u; verdict = ok; reason = user_resolved }

  abbrev pub with_uid : Entries Float64 Float32 → Extracted ℤ → Extracted UserResult
  with_uid m (failed e) = failed e
  with_uid m (extracted uid) = extracted (user_result (user_of m uid))

  abbrev pub with_users_model : Entries Float64 Float32 → Option SchemaModel → Extracted UserResult
  with_users_model m none =
      extracted (record { user = none; verdict = error; reason = users_not_in_schema })
  with_users_model no_entries (some _) =
      extracted (record { user = none; verdict = denied; reason = user_not_found })
  with_users_model (entry k v m) (some _) =
      with_uid (entry k v m) (extract_int (entry k v m) (codes "id"))

  -- `Resolve`.
  unfoldable pub resolve_user : SchemaModels → Entries Float64 Float32 → Extracted UserResult
  unfolding lookup_model extract_int extract_string extract_bool extract_many2one_id
      extract_int_slice
  resolve_user schema user_data =
      with_users_model user_data (lookup_model (codes "res.users") schema)
