-- ===== src/Migration/Schema.antt =====
-- internal/migration/scanner.go: the scan of a schema. The decoded JSON and `strings.ToLower` are
-- arguments; a map's entries come in the order of its iteration.
use intelligent_odoo_dev_too.Prelude.{
  ℕ, suc, Bool, true, false, Option, none, some, List, [], ◌∷◌, ◌++◌, any, if◌then◌else◌,
}
use intelligent_odoo_dev_too.Prelude.Text.{Bytes, eqb}
use intelligent_odoo_dev_too.Migration.{
  Kind, Severity, Rule, path_between, model_removed, model_renamed, field_removed, field_renamed,
  field_type_changed, method_deprecated, xmlid_changed, api_decorator, xml_pattern, breaking,
  warning, minor,
}
pub mod Legs

pub record Issue : Type 0 where
  pub severity : Severity
  pub kind : Kind
  pub model : Bytes
  pub field : Bytes
  pub old_name : Bytes
  pub new_name : Bytes
  pub message : Bytes
  pub fix : Bytes
  pub from_version : Bytes
  pub to_version : Bytes

pub record ScanResult : Type 0 where
  pub issues : List Issue
  pub breaking_count : ℕ
  pub warning_count : ℕ
  pub minor_count : ℕ

abbrev pub no_issues : ScanResult
no_issues = record { issues = []; breaking_count = 0; warning_count = 0; minor_count = 0 }

-- `modelFieldSet`; an entry hides the later ones with its name.
abbrev pub ModelFieldSet : Type 0
ModelFieldSet = List (Bytes × List Bytes)

unfoldable pub fields_of : Bytes → ModelFieldSet → Option (List Bytes)
fields_of model [] = none
fields_of model ((name, fields) ∷ idx) =
    let rest = fields_of model idx in if eqb name model then some fields else rest

-- The JSON of the models: nothing or `null`, not an object, or the models with their fields, of which
-- `none` is a malformed entry.
pub data ModelsJson : Type 0 where
  no_models : ModelsJson
  malformed_models : ModelsJson
  models_json : List (Bytes × Option (List Bytes)) → ModelsJson

abbrev pub lower_all : (Bytes → Bytes) → List Bytes → List Bytes
lower_all lower [] = []
lower_all lower (f ∷ fields) = lower f ∷ lower_all lower fields

abbrev pub field_set : (Bytes → Bytes) → Option (List Bytes) → List Bytes
field_set lower none = []
field_set lower (some fields) = lower_all lower fields

-- The loop of `buildIndex`.
unfoldable pub index_models :
    (Bytes → Bytes) → List (Bytes × Option (List Bytes)) → ModelFieldSet → ModelFieldSet
index_models lower [] idx = idx
index_models lower ((name, fields) ∷ entries) idx =
    index_models lower entries ((lower name, field_set lower fields) ∷ idx)

unfoldable pub build_index : (Bytes → Bytes) → ModelsJson → Option ModelFieldSet
unfolding index_models
build_index lower no_models = some []
build_index lower malformed_models = none
build_index lower (models_json entries) = some (index_models lower entries [])

unfoldable pub make_issue : Rule → Issue
make_issue r = record {
  severity = r.severity;
  kind = r.kind;
  model = r.model;
  field = r.field;
  old_name = r.old_name;
  new_name = r.new_name;
  message = r.message;
  fix = r.fix;
  from_version = r.from_version;
  to_version = r.to_version;
}

abbrev pub coalesce : Bytes → Bytes → Bytes
coalesce [] fallback = fallback
coalesce (c ∷ primary) fallback = c ∷ primary

-- `evalModelExists` and `evalFieldExists`, with what the index has for the model.
abbrev pub when_model : Rule → Option (List Bytes) → Option Issue
when_model r none = none
when_model r (some fields) = some (make_issue r)

abbrev pub when_field : Rule → Bytes → Option (List Bytes) → Option Issue
when_field r field none = none
when_field r field (some fields) = if any (eqb field) fields then some (make_issue r) else none

-- `evaluate`.
abbrev pub evaluate_kind : Kind → Rule → ModelFieldSet → Option Issue
evaluate_kind model_removed r idx = when_model r (fields_of (coalesce r.old_name r.model) idx)
evaluate_kind model_renamed r idx = when_model r (fields_of (coalesce r.old_name r.model) idx)
evaluate_kind field_removed r idx = when_field r r.field (fields_of r.model idx)
evaluate_kind field_renamed r idx =
    when_field r (coalesce r.field r.old_name) (fields_of r.model idx)
evaluate_kind field_type_changed r idx =
    when_field r (coalesce r.old_name r.field) (fields_of r.model idx)
evaluate_kind method_deprecated r idx = some (make_issue r)
evaluate_kind xmlid_changed r idx = some (make_issue r)
evaluate_kind api_decorator r idx = none
evaluate_kind xml_pattern r idx = none

unfoldable pub evaluate : Rule → ModelFieldSet → Option Issue
unfolding fields_of make_issue
evaluate r idx = evaluate_kind r.kind r idx

-- The body of the loop of `Scan`.
abbrev pub count_severity : Severity → ScanResult → ScanResult
count_severity breaking s = record s { breaking_count = suc s.breaking_count }
count_severity warning s = record s { warning_count = suc s.warning_count }
count_severity minor s = record s { minor_count = suc s.minor_count }

abbrev pub add_issue : Option Issue → ScanResult → ScanResult
add_issue none s = s
add_issue (some i) s = count_severity i.severity (record s { issues = s.issues ++ (i ∷ []) })

unfoldable pub scan_rules : ModelFieldSet → List Rule → ScanResult → ScanResult
unfolding evaluate
scan_rules idx [] s = s
scan_rules idx (r ∷ rules) s = scan_rules idx rules (add_issue (evaluate r idx) s)

pub data Scanned : Type 0 where
  unsupported_path : Scanned
  parse_failed : Scanned
  scanned : ScanResult → Scanned

abbrev pub scan_path : List Rule → Option ModelFieldSet → Scanned
scan_path [] idx = unsupported_path
scan_path (r ∷ rules) none = parse_failed
scan_path (r ∷ rules) (some idx) = scanned (scan_rules idx (r ∷ rules) no_issues)

-- `Scan`.
unfoldable pub scan : (Bytes → Bytes) → List Rule → ModelsJson → Bytes → Bytes → Scanned
unfolding path_between build_index scan_rules
scan lower rules json from to = scan_path (path_between rules from to) (build_index lower json)
