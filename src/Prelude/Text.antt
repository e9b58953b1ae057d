-- ===== src/Prelude/Text.antt =====
-- Go strings: lists of bytes. The literals of the source are written as texts, whose code points
-- are their bytes.
use Prim.Native.Nat.{ℕ}
use Prim.Native.Char.{code}
use Prim.Native.String.{String}
use mathlib.Core.Path.{◌≡◌, refl}
use mathlib.Core.Logic.{◌↔◌}
use mathlib.Core.Bool.{Bool, true, false, ◌&&◌, ◌||◌}
use mathlib.Core.List.{List, [], ◌∷◌, ◌++◌}
use mathlib.Core.Option
use mathlib.Core.Option.{Option, none, some}
use native.Mathlib.Omega.{arith}
use intelligent_odoo_dev_too.Prelude.Tests.{◌==◌, if◌then◌else◌}

abbrev pub Bytes : Type 0
Bytes = List ℕ

abbrev pub codes : String → Bytes
codes String.[] = []
codes (String.◌∷◌ c s) = code c ∷ codes s

-- `==` of two strings.
abbrev pub eqb : Bytes → Bytes → Bool
eqb [] [] = true
eqb (a ∷ s) (b ∷ t) = (a == b) && eqb s t
eqb _ _ = false

pub eqb_iff : (s t : Bytes) → (eqb s t ≡ true) ↔ (s ≡ t)
eqb_iff [] [] = (λ _. refl, λ _. refl)
eqb_iff [] (b ∷ t) = (λ e. cc, λ e. cc)
eqb_iff (a ∷ s) [] = (λ e. cc, λ e. cc)
eqb_iff (a ∷ s) (b ∷ t) = ground (arith, eqb_iff s t)

pub eqb_refl : (s : Bytes) → eqb s s ≡ true
eqb_refl s = (eqb_iff s s).1 refl

-- `strings.Contains`.
abbrev pub has_prefix : Bytes → Bytes → Bool
has_prefix [] s = true
has_prefix (p ∷ ps) [] = false
has_prefix (p ∷ ps) (c ∷ s) = (p == c) && has_prefix ps s

unfoldable pub contains : Bytes → Bytes → Bool
contains [] part = has_prefix part []
contains (c ∷ s) part = has_prefix part (c ∷ s) || contains s part

-- What follows a prefix, if the text has it.
abbrev pub strip_prefix : Bytes → Bytes → Option Bytes
strip_prefix [] s = some s
strip_prefix (p ∷ ps) [] = none
strip_prefix (p ∷ ps) (c ∷ s) = let rest = strip_prefix ps s in if p == c then rest else none

pub strip_prefix-append : (p s : Bytes) → strip_prefix p (p ++ s) ≡ some s
strip_prefix-append [] s = refl
strip_prefix-append (c ∷ p) s = ground (arith, strip_prefix-append p s)

-- `strings.LastIndex`, with what follows the last occurrence of a text that is not empty.
unfoldable pub after_last : Bytes → Bytes → Option Bytes
after_last mark [] = none
after_last mark (c ∷ s) = elim (after_last mark s) [
  | some t ↦ some t
  | none ↦ strip_prefix mark (c ∷ s)
]

-- `strings.Index`, with the text before and after the first occurrence.
unfoldable pub cut : Bytes → Bytes → Option (Bytes × Bytes)
cut mark [] = none
cut mark (c ∷ s) = elim (strip_prefix mark (c ∷ s)) [
  | some t ↦ some ([], t)
  | none ↦ Option.map (λ (before, after). (c ∷ before, after)) (cut mark s)
]

-- The longest prefix of bytes that pass the test, and the rest.
unfoldable pub span : (ℕ → Bool) → Bytes → Bytes × Bytes
span p [] = ([], [])
span p (c ∷ s) = let (taken, rest) = span p s in if p c then (c ∷ taken, rest) else ([], c ∷ s)

-- `strings.Split` at a byte.
abbrev pub head_line : ℕ → List Bytes → List Bytes
head_line c [] = (c ∷ []) ∷ []
head_line c (l ∷ ls) = (c ∷ l) ∷ ls

unfoldable pub split_at : ℕ → Bytes → List Bytes
split_at sep [] = [] ∷ []
split_at sep (c ∷ s) = if c == sep then [] ∷ split_at sep s else head_line c (split_at sep s)
