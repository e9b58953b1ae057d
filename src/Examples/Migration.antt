-- ===== src/Examples/Migration.antt =====
-- internal/migration on a table of two rules, a schema with both old names, and one source file.
use intelligent_odoo_dev_too.Prelude.{
  ◌≤◌, none, some, List, ◌≡◌, refl, [], ◌∷◌, length, count_if, if◌then◌else◌,
}
use intelligent_odoo_dev_too.Prelude.Text.{Bytes, codes, contains, split_at}
use intelligent_odoo_dev_too.Migration.{
  Rule, model_renamed, field_removed, breaking, warning, path_between,
}
use intelligent_odoo_dev_too.Migration.Schema.{
  ScanResult, ModelsJson, models_json, make_issue, scan, scanned,
}
use intelligent_odoo_dev_too.Migration.Schema.Legs.{join, scan-join}
use intelligent_odoo_dev_too.Migration.Source.{CodeScanResult, finding_of, rule_identity}
use intelligent_odoo_dev_too.Migration.Source.Files.{
  Patterns, Lang, lang_python, compile_patterns, scan_lines, scan_source, scan_files,
}
use intelligent_odoo_dev_too.Migration.Source.First.{
  first_with, count_with, total, scan_source-first_with,
}
use intelligent_odoo_dev_too.Migration.Source.Lines.{
  is_for, line_from, reports_on, count-scan_lines,
}

abbrev acquirer : Rule
acquirer = record {
  from_version = codes "15.0";
  to_version = codes "16.0";
  kind = model_renamed;
  severity = breaking;
  model = [];
  field = [];
  old_name = codes "payment.acquirer";
  new_name = codes "payment.provider";
  message = codes "renamed";
  fix = codes "rename it";
}

abbrev user_type : Rule
user_type = record {
  from_version = codes "16.0";
  to_version = codes "17.0";
  kind = field_removed;
  severity = warning;
  model = codes "account.account";
  field = codes "user_type_id";
  old_name = [];
  new_name = [];
  message = codes "removed";
  fix = codes "use account_type";
}

abbrev rules : List Rule
rules = acquirer ∷ user_type ∷ []

abbrev schema : ModelsJson
schema = models_json (
    (codes "payment.acquirer", none)
    ∷ (codes "account.account", some (codes "code" ∷ codes "user_type_id" ∷ []))
    ∷ [])

abbrev first_leg : ScanResult
first_leg = record {
  issues = make_issue acquirer ∷ [];
  breaking_count = 1;
  warning_count = 0;
  minor_count = 0;
}

abbrev second_leg : ScanResult
second_leg = record {
  issues = make_issue user_type ∷ [];
  breaking_count = 0;
  warning_count = 1;
  minor_count = 0;
}

abbrev as_is : Bytes → Bytes
as_is s = s

first_scan : scan as_is rules schema (codes "15.0") (codes "16.0") ≡ scanned first_leg
unfolding scan
first_scan = refl

second_scan : scan as_is rules schema (codes "16.0") (codes "17.0") ≡ scanned second_leg
unfolding scan
second_scan = refl

scan-join_example :
    scan as_is rules schema (codes "15.0") (codes "17.0") ≡ scanned (join first_leg second_leg)
scan-join_example =
    scan-join as_is rules schema (codes "15.0") (codes "16.0") (codes "17.0") first_leg second_leg
      first_scan second_scan

-- Patterns that look for the old name, or the field.
abbrev pattern_texts : Lang → Rule → List Bytes
pattern_texts l r = r.old_name ∷ []

abbrev patterns : Patterns
patterns = record {
  Regexp = Bytes;
  compiled = pattern_texts;
  matches = λ re line. contains line re;
  find_all = λ re content. [];
  trim_space = as_is;
  lower = as_is;
}

abbrev source : Bytes
source = codes "# payment.acquirer\nenv['payment.acquirer']\n"

abbrev found : CodeScanResult
found = record {
  findings = finding_of (codes "a.py") 2 (codes "env['payment.acquirer']") acquirer ∷ [];
  breaking_count = 1;
  warning_count = 0;
  minor_count = 0;
  files_scanned = 1;
}

source_scan :
    scan_source patterns rules ((codes "a.py", source) ∷ []) (codes "15.0") (codes "16.0")
    ≡ some found
unfolding scan_source split_at contains
source_scan = refl

abbrev key : Bytes
key = codes "a.py|2|payment.acquirer||"

scan_source-first_with_example :
    (first_with key found.findings
      ≡ first_with key (
          scan_files patterns
            (path_between rules (codes "15.0") (codes "16.0"))
            ((codes "a.py", source) ∷ [])))
    × (count_with key found.findings ≤ 1)
    × (total found ≡ length found.findings)
scan_source-first_with_example =
    scan_source-first_with patterns rules ((codes "a.py", source) ∷ []) (codes "15.0")
      (codes "16.0") found key source_scan

count-scan_lines_example :
    count_if
      (is_for 2 (rule_identity acquirer))
      (scan_lines patterns (codes "a.py") source (compile_patterns patterns rules lang_python))
    ≡ (if reports_on patterns lang_python rules
          (rule_identity acquirer)
          (line_from (split_at 10 source) 1 2)
        then 1
        else 0)
count-scan_lines_example =
    count-scan_lines patterns (codes "a.py") source lang_python rules 2 (rule_identity acquirer)
