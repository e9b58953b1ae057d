-- ===== src/Migration/Source/Files.antt =====
-- internal/migration/codescan.go: the scan of source files. `Patterns` holds the regular expressions
-- and what the scan uses of Go's packages.
use intelligent_odoo_dev_too.Prelude.{
  ℕ, suc, Bool, not, ◌&&◌, ◌||◌, Option, none, some, List, [], ◌∷◌, ◌++◌, any, keep, reverse,
  if◌then◌else◌, ◌==◌, count_if,
}
use intelligent_odoo_dev_too.Prelude.Int.{pos}
use intelligent_odoo_dev_too.Prelude.Text.{Bytes, codes, eqb, split_at}
use intelligent_odoo_dev_too.Acl.Any.{decimal}
use intelligent_odoo_dev_too.Migration.{Rule, path_between}
use intelligent_odoo_dev_too.Migration.Source.{
  CodeFinding, CodeScanResult, join_bars, rule_identity, deduplicate, finding_of, is_comment_line,
  line_around, line_number, is_multi_line, count_findings, result_of,
}

pub data Lang : Type 0 where
  lang_python : Lang
  lang_xml : Lang

-- `regexp.Compile` of the texts of `pythonPatterns` and `xmlPatterns`, of which those that do not
-- compile are left out; `MatchString`; the starts that `FindAllStringIndex` gives;
-- `strings.TrimSpace` and `strings.ToLower`.
pub record Patterns : Type 1 where
  pub Regexp : Type 0
  pub compiled : Lang → Rule → List Regexp
  pub matches : Regexp → Bytes → Bool
  pub find_all : Regexp → Bytes → List ℕ
  pub trim_space : Bytes → Bytes
  pub lower : Bytes → Bytes

module _ (p : Patterns) where
  open p use {Regexp, compiled, matches, find_all, trim_space, lower}

  pub record CompiledRule : Type 0 where
    pub re : Regexp
    pub rule : Rule
    pub rule_key : Bytes

  -- `compilePatterns`.
  abbrev pub with_rule : Rule → List Regexp → List CompiledRule → List CompiledRule
  with_rule r [] rest = rest
  with_rule r (re ∷ res) rest =
      record { re = re; rule = r; rule_key = rule_identity r } ∷ with_rule r res rest

  unfoldable pub compile_patterns : List Rule → Lang → List CompiledRule
  compile_patterns [] l = []
  compile_patterns (r ∷ rules) l = with_rule r (compiled l r) (compile_patterns rules l)

  -- The patterns on one line in `scanLines`, with the rule keys that have fired.
  unfoldable pub scan_line : Bytes → ℕ → Bytes → List CompiledRule → List Bytes → List CodeFinding
  unfolding finding_of
  scan_line file n line [] fired = []
  scan_line file n line (cr ∷ patterns) fired =
      let hit = not (any (eqb cr.rule_key) fired) && matches cr.re line in
      let rest = scan_line file n line patterns (if hit then cr.rule_key ∷ fired else fired) in
      if hit then finding_of file n (trim_space line) cr.rule ∷ rest else rest

  -- `scanLines`, from the line `n` on.
  unfoldable pub scan_lines_from : Bytes → List CompiledRule → List Bytes → ℕ → List CodeFinding
  unfolding scan_line
  scan_lines_from file patterns [] n = []
  scan_lines_from file patterns (line ∷ lines) n =
      let rest = scan_lines_from file patterns lines (suc n) in
      if is_comment_line (trim_space line) then rest else scan_line file n line patterns [] ++ rest

  unfoldable pub scan_lines : Bytes → Bytes → List CompiledRule → List CodeFinding
  unfolding scan_lines_from
  scan_lines file content patterns = scan_lines_from file patterns (split_at 10 content) 1

  -- The two loops of `scanContent`, with the keys that were seen.
  unfoldable pub scan_matches :
      Bytes → Bytes → CompiledRule → List ℕ → List Bytes → List CodeFinding × List Bytes
  unfolding finding_of
  scan_matches file content cr [] seen = ([], seen)
  scan_matches file content cr (start ∷ starts) seen =
      let n = line_number content start in
      let key = join_bars (file ∷ decimal (pos n) ∷ cr.rule_key ∷ []) in
      let old = any (eqb key) seen in
      let (out, seen') = scan_matches file content cr starts (if old then seen else key ∷ seen) in
      (
        (if old
            then out
            else finding_of file n (trim_space (line_around content start)) cr.rule ∷ out),
        seen',
      )

  unfoldable pub scan_content : Bytes → Bytes → List CompiledRule → List Bytes → List CodeFinding
  unfolding scan_matches
  scan_content file content [] seen = []
  scan_content file content (cr ∷ patterns) seen =
      let (found, seen') = scan_matches file content cr (find_all cr.re content) seen in
      found ++ scan_content file content patterns seen'

  -- `fileExt`, from the last byte back, with the bytes after it.
  unfoldable pub ext_from : Bytes → Bytes → Bytes
  ext_from [] after = []
  ext_from (c ∷ before) after =
      let more = ext_from before (c ∷ after) in
      if c == b'.' then lower (c ∷ after) else if c == b'/' || c == 92 then [] else more

  abbrev pub file_ext : Bytes → Bytes
  file_ext filename = ext_from (reverse filename) []

  abbrev pub is_python : Bytes → Bool
  is_python filename = eqb (file_ext filename) (codes ".py")

  abbrev pub is_xml : Bytes → Bool
  is_xml filename = eqb (file_ext filename) (codes ".xml")

  -- The findings of one file in `ScanSource`.
  unfoldable pub scan_file : List Rule → Bytes × Bytes → List CodeFinding
  unfolding compile_patterns scan_lines scan_content ext_from
  scan_file rules (filename, content) =
      if is_python filename
      then scan_lines filename content
          (compile_patterns (keep (λ r. not (is_multi_line r)) rules) lang_python)
        ++ scan_content filename content (compile_patterns (keep is_multi_line rules) lang_python)
            []
      else if is_xml filename
      then scan_lines filename content (compile_patterns rules lang_xml)
      else []

  unfoldable pub scan_files : List Rule → List (Bytes × Bytes) → List CodeFinding
  unfolding scan_file
  scan_files rules [] = []
  scan_files rules (f ∷ files) = scan_file rules f ++ scan_files rules files

  abbrev pub is_scanned : Bytes × Bytes → Bool
  is_scanned f = is_python f.0 || is_xml f.0

  -- `ScanSource`, with the rules of the path; with none it is an error.
  abbrev pub scan_with : List Rule → List (Bytes × Bytes) → Option CodeScanResult
  scan_with [] files = none
  scan_with (r ∷ rules) files =
      some (result_of (deduplicate (scan_files (r ∷ rules) files) []) (count_if is_scanned files))

  unfoldable pub scan_source :
      List Rule → List (Bytes × Bytes) → Bytes → Bytes → Option CodeScanResult
  unfolding path_between scan_files deduplicate count_findings
  scan_source rules files from to = scan_with (path_between rules from to) files
