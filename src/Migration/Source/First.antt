-- ===== src/Migration/Source/First.antt =====
-- internal/migration/codescan.go: what deduplication keeps, and what is counted.
use intelligent_odoo_dev_too.Prelude.{
  ℕ, suc, ◌+◌, ◌≤◌, true, Option, none, some, List, [], ◌∷◌, ◌≡◌, refl, sym, ap, ◌∙◌, any, length,
  if◌then◌else◌, count_if, arith, inl, inr, Bool-cases,
}
use intelligent_odoo_dev_too.Prelude.Text.{Bytes, eqb, eqb_iff}
use intelligent_odoo_dev_too.Migration.{Rule, Severity, breaking, warning, minor, path_between}
use intelligent_odoo_dev_too.Migration.Source.{
  CodeFinding, CodeScanResult, finding_key, deduplicate, count_finding, count_findings, result_of,
}
use intelligent_odoo_dev_too.Migration.Source.Files.{
  Patterns, scan_files, is_scanned, scan_with, scan_source,
}

-- The first finding with a key, and how many have it.
abbrev pub first_with : Bytes → List CodeFinding → Option CodeFinding
first_with k [] = none
first_with k (f ∷ fs) = let rest = first_with k fs in if eqb k (finding_key f) then some f else rest

abbrev pub count_with : Bytes → List CodeFinding → ℕ
count_with k fs = count_if (λ f. eqb k (finding_key f)) fs

pub same_key :
    (k l : Bytes) (seen : List Bytes) → eqb k l ≡ true → any (eqb l) seen ≡ any (eqb k) seen
same_key k l seen e = let same : k ≡ l = (eqb_iff k l).0 e in rw same refl

deduplicate-first_with :
    (k : Bytes) (fs : List CodeFinding) (seen : List Bytes)
    → (first_with k (deduplicate fs seen) ≡ (if any (eqb k) seen then none else first_with k fs))
      × (count_with k (deduplicate fs seen) ≤ (if any (eqb k) seen then 0 else 1))
unfolding deduplicate
deduplicate-first_with k [] seen = (ground arith, ground arith)
deduplicate-first_with k (f ∷ fs) seen = elim (Bool-cases (any (eqb (finding_key f)) seen)) [
  | inl old ↦
      let (a, b) = deduplicate-first_with k fs seen in
      let s = same_key k (finding_key f) seen in rw old (ground arith)
  | inr new ↦
      let (a, b) = deduplicate-first_with k fs (finding_key f ∷ seen) in
      let s = same_key k (finding_key f) seen in rw new (ground arith)
]

abbrev pub total : CodeScanResult → ℕ
total s = s.breaking_count + s.warning_count + s.minor_count

total-count_finding :
    (v : Severity) (s : CodeScanResult) → total (count_finding v s) ≡ suc (total s)
total-count_finding breaking s = omega arith
total-count_finding warning s = omega arith
total-count_finding minor s = omega arith

total-count_findings :
    (fs : List CodeFinding) (s : CodeScanResult) → total (count_findings fs s) ≡ total s + length fs
unfolding count_findings
total-count_findings [] s = omega arith
total-count_findings (f ∷ fs) s =
    omega (
      arith,
      total-count_findings fs (count_finding f.severity s),
      total-count_finding f.severity s,
    )

count_finding-findings :
    (v : Severity) (s : CodeScanResult) → (count_finding v s).findings ≡ s.findings
count_finding-findings breaking s = refl
count_finding-findings warning s = refl
count_finding-findings minor s = refl

count_findings-findings :
    (fs : List CodeFinding) (s : CodeScanResult) → (count_findings fs s).findings ≡ s.findings
unfolding count_findings
count_findings-findings [] s = refl
count_findings-findings (f ∷ fs) s =
    count_findings-findings fs (count_finding f.severity s) ∙ count_finding-findings f.severity s

-- If `ScanSource` succeeds, then for every key the first finding with it among those of all files is
-- in the result, which has no other finding with this key, and the three counts sum to its length.
pub scan_source-first_with :
    (p : Patterns) (rules : List Rule) (files : List (Bytes × Bytes)) (from to : Bytes)
    (s : CodeScanResult) (k : Bytes)
    → scan_source p rules files from to ≡ some s
    → (first_with k s.findings ≡ first_with k (scan_files p (path_between rules from to) files))
      × (count_with k s.findings ≤ 1)
      × (total s ≡ length s.findings)
unfolding scan_source
scan_source-first_with p rules files from to s k e = of_path (path_between rules from to) e
  where
    of_path :
        (path : List Rule)
        → scan_with p path files ≡ some s
        → (first_with k s.findings ≡ first_with k (scan_files p path files))
          × (count_with k s.findings ≤ 1)
          × (total s ≡ length s.findings)
    of_path [] e = cc
    of_path (r ∷ path) e =
        let out = deduplicate (scan_files p (r ∷ path) files) [] in
        let n = count_if (is_scanned p) files in
        let q : result_of out n ≡ s = cc in
        let kept : s.findings ≡ out =
          sym (ap (λ x. x.findings) q) ∙ count_findings-findings out _ in
        let sums : total s ≡ 0 + length out = sym (ap total q) ∙ total-count_findings out _ in
        let (first, count) = deduplicate-first_with k (scan_files p (r ∷ path) files) [] in
        rw kept (first, count, omega arith)
