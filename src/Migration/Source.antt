-- ===== src/Migration/Source.antt =====
-- internal/migration/codescan.go: findings in source files, their keys, and what is counted of them.
use intelligent_odoo_dev_too.Prelude.{
  ℕ, zero, suc, ◌+◌, ◌-◌, Bool, true, false, not, ◌&&◌, ◌||◌, Option, none, some, List, [], ◌∷◌,
  ◌++◌, any, keep, reverse, length, take, drop, if◌then◌else◌, ltb, ◌==◌, count_if,
}
use intelligent_odoo_dev_too.Prelude.Int.{pos}
use intelligent_odoo_dev_too.Prelude.Text.{
  Bytes, codes, eqb, has_prefix, after_last, span, split_at,
}
use intelligent_odoo_dev_too.Acl.Any.{decimal}
use intelligent_odoo_dev_too.Migration.{
  Kind, Severity, Rule, path_between, model_removed, model_renamed, field_removed, field_renamed,
  field_type_changed, method_deprecated, xmlid_changed, api_decorator, xml_pattern, breaking,
  warning, minor,
}
pub mod Files
pub mod First
pub mod Lines

pub record CodeFinding : Type 0 where
  pub file : Bytes
  pub line : ℕ
  pub snippet : Bytes
  pub severity : Severity
  pub kind : Kind
  pub model : Bytes
  pub field : Bytes
  pub old_name : Bytes
  pub new_name : Bytes
  pub message : Bytes
  pub fix : Bytes
  pub from_version : Bytes
  pub to_version : Bytes

pub record CodeScanResult : Type 0 where
  pub findings : List CodeFinding
  pub breaking_count : ℕ
  pub warning_count : ℕ
  pub minor_count : ℕ
  pub files_scanned : ℕ

-- The constants of the kinds.
abbrev pub kind_text : Kind → Bytes
kind_text model_removed = codes "model_removed"
kind_text model_renamed = codes "model_renamed"
kind_text field_removed = codes "field_removed"
kind_text field_renamed = codes "field_renamed"
kind_text field_type_changed = codes "field_type_changed"
kind_text method_deprecated = codes "method_deprecated"
kind_text xmlid_changed = codes "xmlid_changed"
kind_text api_decorator = codes "api_decorator"
kind_text xml_pattern = codes "xml_pattern"

abbrev pub join_bars : List Bytes → Bytes
join_bars [] = []
join_bars (s ∷ []) = s
join_bars (s ∷ t ∷ parts) = s ++ codes "|" ++ join_bars (t ∷ parts)

-- `ruleIdentity`.
unfoldable pub rule_identity : Rule → Bytes
rule_identity r =
    join_bars
      (r.from_version ∷ r.to_version ∷ kind_text r.kind ∷ r.model ∷ r.field ∷ r.old_name ∷ [])

-- The key of `deduplicateFindings`.
unfoldable pub finding_key : CodeFinding → Bytes
finding_key f = join_bars (f.file ∷ decimal (pos f.line) ∷ f.old_name ∷ f.field ∷ f.model ∷ [])

-- `deduplicateFindings`, with the keys that were seen.
unfoldable pub deduplicate : List CodeFinding → List Bytes → List CodeFinding
deduplicate [] seen = []
deduplicate (f ∷ findings) seen =
    let old = any (eqb (finding_key f)) seen in
    let out = deduplicate findings (if old then seen else finding_key f ∷ seen) in
    if old then out else f ∷ out

abbrev pub capped : Bytes → Bytes
capped snippet =
    if ltb 200 (length snippet) then take 200 snippet ++ (226 ∷ 128 ∷ 166 ∷ []) else snippet

-- The finding of a rule at a line.
unfoldable pub finding_of : Bytes → ℕ → Bytes → Rule → CodeFinding
finding_of file line trimmed r = record {
  file = file;
  line = line;
  snippet = capped trimmed;
  severity = r.severity;
  kind = r.kind;
  model = r.model;
  field = r.field;
  old_name = r.old_name;
  new_name = r.new_name;
  message = r.message;
  fix = r.fix;
  from_version = r.from_version;
  to_version = r.to_version;
}

abbrev pub is_comment_line : Bytes → Bool
is_comment_line trimmed =
    has_prefix (codes "#") trimmed
    || has_prefix (codes "<!--") trimmed
    || has_prefix (codes "//") trimmed

-- The line around an offset in `scanContent`.
abbrev pub or_whole : Option Bytes → Bytes → Bytes
or_whole none s = s
or_whole (some t) s = t

abbrev pub line_around : Bytes → ℕ → Bytes
line_around content start =
    or_whole (after_last (10 ∷ []) (take start content)) (take start content)
    ++ (span (λ c. not (c == 10)) (drop start content)).0

abbrev pub line_number : Bytes → ℕ → ℕ
line_number content start = 1 + count_if (λ c. c == 10) (take start content)

abbrev pub is_multi_line : Rule → Bool
is_multi_line r = eqb r.old_name (codes "BaseModel.read_group (lazy=False)")

-- The loop that counts the severities.
abbrev pub count_finding : Severity → CodeScanResult → CodeScanResult
count_finding breaking s = record s { breaking_count = suc s.breaking_count }
count_finding warning s = record s { warning_count = suc s.warning_count }
count_finding minor s = record s { minor_count = suc s.minor_count }

unfoldable pub count_findings : List CodeFinding → CodeScanResult → CodeScanResult
count_findings [] s = s
count_findings (f ∷ findings) s = count_findings findings (count_finding f.severity s)

abbrev pub result_of : List CodeFinding → ℕ → CodeScanResult
result_of findings files = count_findings findings (record {
  findings = findings;
  breaking_count = 0;
  warning_count = 0;
  minor_count = 0;
  files_scanned = files;
})
