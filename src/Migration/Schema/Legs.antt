-- ===== src/Migration/Schema/Legs.antt =====
-- internal/migration/scanner.go: a scan over several versions is the scans of its legs.
use intelligent_odoo_dev_too.Prelude.{
  suc, ◌+◌, Option, none, some, List, [], ◌∷◌, ◌++◌, ◌≡◌, ◌≢◌, refl, sym, ap, ◌∙◌, arith,
  append_assoc, append-nil,
}
use intelligent_odoo_dev_too.Prelude.Text.{Bytes}
use intelligent_odoo_dev_too.Migration.{Rule, Severity, breaking, warning, minor, path_between}
use intelligent_odoo_dev_too.Migration.Path.{path_between-append}
use intelligent_odoo_dev_too.Migration.Schema.{
  Issue, ScanResult, no_issues, ModelFieldSet, count_severity, add_issue, evaluate, scan_rules,
  scanned, scan_path, scan, ModelsJson, build_index,
}

-- The results of two scans together.
abbrev pub join : ScanResult → ScanResult → ScanResult
join s t = record {
  issues = s.issues ++ t.issues;
  breaking_count = s.breaking_count + t.breaking_count;
  warning_count = s.warning_count + t.warning_count;
  minor_count = s.minor_count + t.minor_count;
}

join-no_issues : (s : ScanResult) → join s no_issues ≡ s
join-no_issues s =
    let b : s.breaking_count + 0 ≡ s.breaking_count = omega arith in
    let w : s.warning_count + 0 ≡ s.warning_count = omega arith in
    let m : s.minor_count + 0 ≡ s.minor_count = omega arith in
    rw b (rw w (rw m (rw (append-nil s.issues) refl)))

count_severity-join :
    (v : Severity) (s t : ScanResult) → count_severity v (join s t) ≡ join s (count_severity v t)
count_severity-join breaking s t =
    let e : suc (s.breaking_count + t.breaking_count) ≡ s.breaking_count + suc t.breaking_count =
      omega arith in
    rw e refl
count_severity-join warning s t =
    let e : suc (s.warning_count + t.warning_count) ≡ s.warning_count + suc t.warning_count =
      omega arith in
    rw e refl
count_severity-join minor s t =
    let e : suc (s.minor_count + t.minor_count) ≡ s.minor_count + suc t.minor_count = omega arith in
    rw e refl

add_issue-join :
    (o : Option Issue) (s t : ScanResult) → add_issue o (join s t) ≡ join s (add_issue o t)
add_issue-join none s t = refl
add_issue-join (some i) s t =
    rw (append_assoc s.issues t.issues (i ∷ []))
      (count_severity-join i.severity s (record t { issues = t.issues ++ (i ∷ []) }))

scan_rules-join :
    (idx : ModelFieldSet) (rules : List Rule) (s t : ScanResult)
    → scan_rules idx rules (join s t) ≡ join s (scan_rules idx rules t)
unfolding scan_rules
scan_rules-join idx [] s t = refl
scan_rules-join idx (r ∷ rules) s t =
    rw (add_issue-join (evaluate r idx) s t)
      (scan_rules-join idx rules s (add_issue (evaluate r idx) t))

scan_rules-append :
    (idx : ModelFieldSet) (xs ys : List Rule) (s : ScanResult)
    → scan_rules idx (xs ++ ys) s ≡ scan_rules idx ys (scan_rules idx xs s)
unfolding scan_rules
scan_rules-append idx [] ys s = refl
scan_rules-append idx (r ∷ xs) ys s = scan_rules-append idx xs ys (add_issue (evaluate r idx) s)

scan_path-append :
    (xs ys : List Rule) (o : Option ModelFieldSet) (s t : ScanResult)
    → scan_path xs o ≡ scanned s
    → scan_path ys o ≡ scanned t
    → (xs ≢ []) × (ys ≢ []) × (scan_path (xs ++ ys) o ≡ scanned (join s t))
scan_path-append [] ys o s t e f = cc
scan_path-append (x ∷ xs) ys none s t e f = cc
scan_path-append (x ∷ xs) [] (some idx) s t e f = cc
scan_path-append (x ∷ xs) (y ∷ ys) (some idx) s t e f =
    let first : scan_rules idx (x ∷ xs) no_issues ≡ s = cc in
    let second : scan_rules idx (y ∷ ys) no_issues ≡ t = cc in
    let both =
      scan_rules-append idx (x ∷ xs) (y ∷ ys) no_issues
      ∙ ap (scan_rules idx (y ∷ ys)) (first ∙ sym (join-no_issues s))
      ∙ scan_rules-join idx (y ∷ ys) s no_issues
      ∙ ap (join s) second in
    (λ n. cc, λ n. cc, ap scanned both)

-- If the scans from `a` to `b` and from `b` to `c` succeed, then the scan from `a` to `c` gives the
-- issues of the first and then those of the second, and the sums of their counts.
pub scan-join :
    (lower : Bytes → Bytes) (rules : List Rule) (json : ModelsJson) (a b c : Bytes)
    (s t : ScanResult)
    → scan lower rules json a b ≡ scanned s
    → scan lower rules json b c ≡ scanned t
    → scan lower rules json a c ≡ scanned (join s t)
unfolding scan
scan-join lower rules json a b c s t e f =
    let (p, q, r) =
      scan_path-append (path_between rules a b) (path_between rules b c) (build_index lower json) s
        t e f in
    rw (path_between-append rules a b c p q) r
