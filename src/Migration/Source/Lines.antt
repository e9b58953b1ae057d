-- ===== src/Migration/Source/Lines.antt =====
-- internal/migration/codescan.go: the rules that `scanLines` reports on a line.
use intelligent_odoo_dev_too.Prelude.{
  ℕ, suc, ◌<◌, Bool, false, not, ◌&&◌, ◌||◌, Option, none, some, List, [], ◌∷◌, ◌≡◌, refl, ap, ◌∙◌,
  any, if◌then◌else◌, count_if, count_if-append, arith, inl, inr, Bool-cases, ◌==◌, ==_iff,
}
use intelligent_odoo_dev_too.Prelude.Text.{Bytes, eqb, split_at}
use intelligent_odoo_dev_too.Migration.{Rule}
use intelligent_odoo_dev_too.Migration.Source.First.{same_key}
use intelligent_odoo_dev_too.Migration.Source.{
  CodeFinding, join_bars, kind_text, rule_identity, finding_of, is_comment_line,
}
use intelligent_odoo_dev_too.Migration.Source.Files.{
  Patterns, Lang, CompiledRule, with_rule, compile_patterns, scan_line, scan_lines_from, scan_lines,
}

-- The identity of the rule of a finding.
unfoldable pub finding_rule : CodeFinding → Bytes
finding_rule f =
    join_bars
      (f.from_version ∷ f.to_version ∷ kind_text f.kind ∷ f.model ∷ f.field ∷ f.old_name ∷ [])

-- Whether a finding is for a line and a rule.
abbrev pub is_for : ℕ → Bytes → CodeFinding → Bool
is_for m k f = (f.line == m) && eqb k (finding_rule f)

is_for-finding_of :
    (file : Bytes) (n m : ℕ) (k t : Bytes) (r : Rule)
    → is_for m k (finding_of file n t r) ≡ ((n == m) && eqb k (rule_identity r))
unfolding finding_rule finding_of rule_identity
is_for-finding_of file n m k t r = refl

-- The line with a number, if the first has the number `i`.
abbrev pub line_from : List Bytes → ℕ → ℕ → Option Bytes
line_from [] i m = none
line_from (l ∷ lines) i m = let rest = line_from lines (suc i) m in if i == m then some l else rest

module _ (p : Patterns) where
  open p use {Regexp, compiled, matches, trim_space}

  -- The keys of compiled rules are those of their rules.
  data Keyed : List (CompiledRule p) → Type 0 where
    none_keyed : Keyed []
    keyed :
        {cr : CompiledRule p} {patterns : _}
        → rule_identity cr.rule ≡ cr.rule_key
        → Keyed patterns
        → Keyed (cr ∷ patterns)

  with_rule-Keyed :
      (r : Rule) (res : List Regexp) (rest : List (CompiledRule p))
      → Keyed rest
      → Keyed (with_rule p r res rest)
  with_rule-Keyed r [] rest k = k
  with_rule-Keyed r (re ∷ res) rest k = keyed refl (with_rule-Keyed r res rest k)

  compile_patterns-Keyed : (rules : List Rule) (l : Lang) → Keyed (compile_patterns p rules l)
  unfolding compile_patterns
  compile_patterns-Keyed [] l = none_keyed
  compile_patterns-Keyed (r ∷ rules) l =
      with_rule-Keyed r (compiled l r) (compile_patterns p rules l) (compile_patterns-Keyed rules l)

  abbrev hits : Bytes → Bytes → List (CompiledRule p) → Bool
  hits k line patterns = any (λ cr. eqb k cr.rule_key && matches cr.re line) patterns

  count-scan_line :
      (file : Bytes) (n m : ℕ) (k line : Bytes) (patterns : List (CompiledRule p))
      (fired : List Bytes)
      → Keyed patterns
      → count_if (is_for m k) (scan_line p file n line patterns fired)
        ≡ (if (n == m) && not (any (eqb k) fired) && hits k line patterns then 1 else 0)
  unfolding scan_line
  count-scan_line file n m k line [] fired w = ground arith
  count-scan_line file n m k line (cr ∷ patterns) fired (keyed e w) =
      let same = same_key k cr.rule_key fired in
      let here = is_for-finding_of file n m k (trim_space line) cr.rule in
      elim (Bool-cases (any (eqb cr.rule_key) fired)) [
        | inl old ↦
            let ih = count-scan_line file n m k line patterns fired w in rw old (ground arith)
        | inr new ↦ elim (Bool-cases (matches cr.re line)) [
          | inl hit ↦
              let ih = count-scan_line file n m k line patterns (cr.rule_key ∷ fired) w in
              rw new (rw hit (rw here (rw e (ground arith))))
          | inr miss ↦
              let ih = count-scan_line file n m k line patterns fired w in
              rw new (rw miss (ground arith))
        ]
      ]

  -- Whether a rule with an identity has a pattern that matches a line.
  abbrev pub reports : Lang → List Rule → Bytes → Bytes → Bool
  reports l rules k line =
      any (λ r. eqb k (rule_identity r) && any (λ re. matches re line) (compiled l r)) rules

  hits-with_rule :
      (k line : Bytes) (r : Rule) (res : List Regexp) (rest : List (CompiledRule p))
      → hits k line (with_rule p r res rest)
        ≡ ((eqb k (rule_identity r) && any (λ re. matches re line) res) || hits k line rest)
  hits-with_rule k line r [] rest = ground arith
  hits-with_rule k line r (re ∷ res) rest = ground (arith, hits-with_rule k line r res rest)

  hits-compile_patterns :
      (l : Lang) (rules : List Rule) (k line : Bytes)
      → hits k line (compile_patterns p rules l) ≡ reports l rules k line
  unfolding compile_patterns
  hits-compile_patterns l [] k line = refl
  hits-compile_patterns l (r ∷ rules) k line =
      hits-with_rule k line r (compiled l r) (compile_patterns p rules l)
      ∙ ap (λ b. (eqb k (rule_identity r) && any (λ re. matches re line) (compiled l r)) || b)
          (hits-compile_patterns l rules k line)

  abbrev pub reports_on : Lang → List Rule → Bytes → Option Bytes → Bool
  reports_on l rules k none = false
  reports_on l rules k (some line) =
      not (is_comment_line (trim_space line)) && reports l rules k line

  line_from-past : (lines : List Bytes) (i m : ℕ) → m < i → line_from lines i m ≡ none
  line_from-past [] i m h = refl
  line_from-past (l ∷ lines) i m h = ground (arith, line_from-past lines (suc i) m (omega arith))

  count-scan_lines_from :
      (file : Bytes) (l : Lang) (rules : List Rule) (lines : List Bytes) (i m : ℕ) (k : Bytes)
      → count_if (is_for m k) (scan_lines_from p file (compile_patterns p rules l) lines i)
        ≡ (if reports_on l rules k (line_from lines i m) then 1 else 0)
  unfolding scan_lines_from
  count-scan_lines_from file l rules [] i m k = refl
  count-scan_lines_from file l rules (line ∷ lines) i m k =
      let ih = count-scan_lines_from file l rules lines (suc i) m k in
      let past : i ≡ m → line_from lines (suc i) m ≡ none =
        (λ e. line_from-past lines (suc i) m (omega arith)) in
      let step =
        count-scan_line file i m k line (compile_patterns p rules l) []
          (compile_patterns-Keyed rules l) in
      let all = hits-compile_patterns l rules k line in
      elim (Bool-cases (is_comment_line (trim_space line))) [
        | inl c ↦ rw c (elim (Bool-cases (i == m)) [
          | inl here ↦ rw here (rw c (rw ih (rw (past ((==_iff i m).0 here)) refl)))
          | inr away ↦ rw away ih
        ])
        | inr c ↦ rw c (
            rw
              (count_if-append (is_for m k)
                (scan_line p file i line (compile_patterns p rules l) [])
                (scan_lines_from p file (compile_patterns p rules l) lines (suc i)))
              (rw step (
                rw all (
                  rw ih (elim (Bool-cases (i == m)) [
                    | inl here ↦ rw here (rw c (rw (past ((==_iff i m).0 here)) (ground arith)))
                    | inr away ↦ rw away (omega arith)
                  ])))))
      ]

  -- For every line number and rule identity, `scanLines` gives one finding if the line exists, is not a
  -- comment and a pattern of a rule with this identity matches it, and else none.
  pub count-scan_lines :
      (file content : Bytes) (l : Lang) (rules : List Rule) (m : ℕ) (k : Bytes)
      → count_if (is_for m k) (scan_lines p file content (compile_patterns p rules l))
        ≡ (if reports_on l rules k (line_from (split_at 10 content) 1 m) then 1 else 0)
  unfolding scan_lines
  count-scan_lines file content l rules m k =
      count-scan_lines_from file l rules (split_at 10 content) 1 m k
