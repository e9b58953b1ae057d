-- ===== src/Migration.antt =====
-- internal/migration/deprecations.go: the rules between two versions of Odoo. The table `Rules` is
-- an argument, and no slice is the empty list.
use intelligent_odoo_dev_too.Prelude.{
  ℕ, zero, suc, ◌-◌, Bool, true, false, ◌&&◌, ◌||◌, Option, none, some, List, [], ◌∷◌, ◌++◌, keep,
  get_or, if◌then◌else◌, ltb,
}
use intelligent_odoo_dev_too.Prelude.Text.{Bytes, codes, eqb}
pub mod Path
pub mod Schema
pub mod Source

-- The `Kind*` and `Severity*` constants.
pub data Kind : Type 0 where
  model_removed : Kind
  model_renamed : Kind
  field_removed : Kind
  field_renamed : Kind
  field_type_changed : Kind
  method_deprecated : Kind
  xmlid_changed : Kind
  api_decorator : Kind
  xml_pattern : Kind

pub data Severity : Type 0 where
  breaking : Severity
  warning : Severity
  minor : Severity

pub record Rule : Type 0 where
  pub from_version : Bytes
  pub to_version : Bytes
  pub kind : Kind
  pub severity : Severity
  pub model : Bytes
  pub field : Bytes
  pub old_name : Bytes
  pub new_name : Bytes
  pub message : Bytes
  pub fix : Bytes

-- `ByTransition` and `ByModel`.
abbrev pub is_between : Bytes → Bytes → Rule → Bool
is_between from to r = eqb r.from_version from && eqb r.to_version to

unfoldable pub by_transition : List Rule → Bytes → Bytes → List Rule
by_transition rules from to = keep (is_between from to) rules

unfoldable pub by_model : List Rule → Bytes → List Rule
by_model rules model = keep (λ r. eqb r.model model || eqb r.old_name model) rules

-- The versions of `PathBetween`, and the pairs of `Transitions`.
abbrev pub versions : List Bytes
versions =
    codes "14.0" ∷ codes "15.0" ∷ codes "16.0" ∷ codes "17.0" ∷ codes "18.0" ∷ codes "19.0" ∷ []

abbrev pub transitions : List (Bytes × Bytes)
transitions =
    (codes "14.0", codes "15.0")
    ∷ (codes "15.0", codes "16.0")
    ∷ (codes "16.0", codes "17.0")
    ∷ (codes "17.0", codes "18.0")
    ∷ (codes "18.0", codes "19.0")
    ∷ []

-- The loop of `PathBetween` that looks for a version, of which the last place counts; -1 is `none`.
unfoldable pub index_from : Bytes → List Bytes → ℕ → Option ℕ → Option ℕ
index_from v [] i found = found
index_from v (w ∷ order) i found = index_from v order (suc i) (if eqb w v then some i else found)

abbrev pub index_of : Bytes → Option ℕ
index_of v = index_from v versions 0 none

-- The loop over `steps` transitions from the index `i` on.
unfoldable pub collect : List Rule → ℕ → ℕ → List Rule
unfolding by_transition
collect rules i zero = []
collect rules i (suc steps) =
    by_transition rules (get_or versions i []) (get_or versions (suc i) [])
    ++ collect rules (suc i) steps

abbrev pub path_of : List Rule → Option ℕ → Option ℕ → List Rule
path_of rules none to = []
path_of rules (some i) none = []
path_of rules (some i) (some j) = if ltb i j then collect rules i (j - i) else []

-- `PathBetween`.
unfoldable pub path_between : List Rule → Bytes → Bytes → List Rule
unfolding collect index_from
path_between rules from to = path_of rules (index_of from) (index_of to)
