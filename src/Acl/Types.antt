-- ===== src/Acl/Types.antt =====
-- internal/acl/types.go: what the stages of the pipeline exchange. Go maps keyed by model name are
-- association lists; the set of effective groups is the list of its members.
use intelligent_odoo_dev_too.Prelude.{
  Bool, true, false, Option, none, some, List, [], ◌∷◌, any, if◌then◌else◌,
}
use intelligent_odoo_dev_too.Prelude.Int.{ℤ, eqb_ℤ}
use intelligent_odoo_dev_too.Prelude.Text.{Bytes, eqb}

pub data Verdict : Type 0 where
  ok denied skipped error : Verdict

abbrev pub is_ok : Verdict → Bool
is_ok ok = true
is_ok _ = false

-- `Denied` or `Error`.
abbrev pub stops : Verdict → Bool
stops denied = true
stops error = true
stops _ = false

-- The value of `StageResult.Stage`.
pub data Stage : Type 0 where
  user_stage groups_stage model_acl_stage record_rule_stage domain_stage : Stage

pub record ResolvedUser : Type 0 where
  pub uid : ℤ
  pub login : Bytes
  pub name : Bytes
  pub active : Bool
  pub company_id : ℤ
  pub company_ids : List ℤ
  pub group_ids : List ℤ
  pub share : Bool
  pub super_user : Bool

-- `IsSuperUser`.
abbrev pub is_super_user : ResolvedUser → Bool
is_super_user u = u.super_user

abbrev pub mem_ℤ : ℤ → List ℤ → Bool
mem_ℤ n ns = any (eqb_ℤ n) ns

pub record GroupRecord : Type 0 where
  pub id : ℤ
  pub name : Bytes
  pub full_name : Bytes
  pub implied_ids : List ℤ
  pub category_id : ℤ

pub record ResolvedGroups : Type 0 where
  pub direct_ids : List ℤ
  pub implied_ids : List ℤ
  pub effective_ids : List ℤ
  pub effective_set : List ℤ
  pub groups : List GroupRecord

-- `ResolvedGroups.HasGroup`.
abbrev pub has_group : ResolvedGroups → ℤ → Bool
has_group g id = mem_ℤ id g.effective_set

-- `Operation`: the four constants, and any other string.
pub data Operation : Type 0 where
  op_read op_write op_create op_unlink : Operation
  other_operation : Bytes → Operation

pub record AclRuleMatch : Type 0 where
  pub group_id : Bytes
  pub grants : Bool
  pub applies : Bool
  pub perm_read : Bool
  pub perm_write : Bool
  pub perm_create : Bool
  pub perm_unlink : Bool

pub record SchemaModelField : Type 0 where
  pub typ : Bytes
  pub string : Bytes
  pub required : Bool

pub record SchemaAccessRule : Type 0 where
  pub group_id : Bytes
  pub perm_read : Bool
  pub perm_write : Bool
  pub perm_create : Bool
  pub perm_unlink : Bool

pub record SchemaRecordRule : Type 0 where
  pub name : Bytes
  pub group_ids : List ℤ
  pub domain : Bytes
  pub perm_read : Bool
  pub perm_write : Bool
  pub perm_create : Bool
  pub perm_unlink : Bool

pub record SchemaModel : Type 0 where
  pub model : Bytes
  pub name : Bytes
  pub fields : List (Bytes × SchemaModelField)
  pub accesses : List SchemaAccessRule
  pub rules : List SchemaRecordRule

abbrev pub SchemaModels : Type 0
SchemaModels = List (Bytes × SchemaModel)

-- `schema[model]`.
unfoldable pub lookup_model : Bytes → SchemaModels → Option SchemaModel
lookup_model key [] = none
lookup_model key ((k, m) ∷ schema) =
    let rest = lookup_model key schema in if eqb k key then some m else rest

pub record EvalContext : Type 0 where
  pub user_id : ℤ
  pub company_id : ℤ
  pub company_ids : List ℤ

-- `RecordRuleMatch` and `RecordRuleDetail` of record_rule_finder.go.
pub record RecordRuleMatch : Type 0 where
  pub name : Bytes
  pub domain : Bytes
  pub is_global : Bool
  pub applies : Bool
  pub group_ids : List ℤ
