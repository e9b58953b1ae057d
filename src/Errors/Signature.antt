-- ===== src/Errors/Signature.antt =====
-- internal/agent/errors/signature.go and event.go: where an error comes from and what groups it.
-- `Library` holds what the standard library does that the model leaves open.
use mathlib.Core.Option
use intelligent_odoo_dev_too.Prelude.{
  ℕ, zero, suc, ◌+◌, Bool, true, false, not, ◌&&◌, ◌||◌, Option, none, some, List, [], ◌∷◌, ◌++◌,
  reverse, all, length, if◌then◌else◌, ◌==◌, leb, ltb,
}
use intelligent_odoo_dev_too.Prelude.Text.{
  Bytes, codes, eqb, contains, has_prefix, strip_prefix, after_last, cut, span, split_at,
}
pub mod Frames
pub mod Collapse
pub mod Grouping

-- `regexp` with the patterns of `normalizers`, applied one after another; `sha256` in hexadecimal,
-- cut at 16 digits; `strings.TrimSpace` and `strings.Fields` joined by spaces, for text outside ASCII.
pub record Library : Type 0 where
  pub replace_dynamic : Bytes → Bytes
  pub hash16 : Bytes → Bytes
  pub unicode_trim : Bytes → Bytes
  pub unicode_fields : Bytes → Bytes

pub record OriginFrame : Type 0 where
  pub file : Bytes
  pub line : Bytes
  pub function : Bytes

abbrev pub newline : ℕ
newline = 10

abbrev pub quote : ℕ
quote = 34

-- `\s` of `regexp`, and the ASCII part of `unicode.IsSpace`.
abbrev pub is_blank : ℕ → Bool
is_blank c = c == 9 || c == 10 || c == 12 || c == 13 || c == 32

abbrev pub is_space : ℕ → Bool
is_space c = is_blank c || c == 11

abbrev pub is_digit : ℕ → Bool
is_digit c = leb b'0' c && leb c b'9'

abbrev pub line_mark : Bytes
line_mark = codes "\", line "

abbrev pub in_mark : Bytes
in_mark = codes ", in "

-- `frameRe` on one line: the file, the line and the function.
abbrev pub with_line : Bytes → Bytes × Bytes → Option OriginFrame
with_line file ([], rest) = none
with_line file (d ∷ ds, rest) = elim (strip_prefix in_mark rest) [
  | some (c ∷ name) ↦ some (record { file = file; line = d ∷ ds; function = c ∷ name })
  | some [] ↦ none
  | none ↦ none
]

abbrev pub after_file : Bytes → Option Bytes → Option OriginFrame
after_file file none = none
after_file file (some rest) = with_line file (span is_digit rest)

abbrev pub with_file : Bytes × Bytes → Option OriginFrame
with_file ([], rest) = none
with_file (c ∷ file, rest) = after_file (c ∷ file) (strip_prefix line_mark rest)

abbrev pub after_mark : Option Bytes → Option OriginFrame
after_mark none = none
after_mark (some rest) = with_file (span (λ c. not (c == quote)) rest)

unfoldable pub match_frame : Bytes → Option OriginFrame
unfolding span
match_frame line = after_mark (strip_prefix (codes "File \"") (span is_blank line).1)

abbrev pub no_frame : OriginFrame
no_frame = record { file = []; line = []; function = [] }

-- `ExtractOriginFrame`: the last line that matches.
abbrev pub or_keep : Option OriginFrame → OriginFrame → OriginFrame
or_keep none last = last
or_keep (some f) last = f

unfoldable pub last_frame : List Bytes → OriginFrame → OriginFrame
unfolding match_frame
last_frame [] last = last
last_frame (line ∷ lines) last = last_frame lines (or_keep (match_frame line) last)

unfoldable pub extract_origin_frame : Bytes → OriginFrame
unfolding last_frame split_at
extract_origin_frame traceback = last_frame (split_at newline traceback) no_frame

abbrev pub or_text : Option Bytes → Bytes → Bytes
or_text none s = s
or_text (some t) s = t

-- `ShortFile` and `ModulePath`.
unfoldable pub short_file : OriginFrame → Bytes
unfolding after_last
short_file f = or_text (after_last (codes "/") f.file) f.file

unfoldable pub module_path : OriginFrame → Bytes
unfolding after_last short_file
module_path f =
    or_text (after_last (codes "/addons/") f.file)
      (or_text (after_last (codes "/odoo/") f.file) (short_file f))

-- `ShortExceptionType`.
unfoldable pub short_exception_type : Bytes → Bytes
unfolding after_last
short_exception_type s = or_text (after_last (codes ".") s) s

-- `ExtractTraceback`.
unfoldable pub extract_traceback : Bytes → Bytes
extract_traceback message = from message
  where
    from : Bytes → Bytes
    from [] = message
    from (c ∷ s) =
        if has_prefix (codes "Traceback (most recent call last):") (c ∷ s) then c ∷ s else from s

-- The markers of the loop of `NormalizeMessage`: what it looks for, what it replaces, and by what.
abbrev pub placeholder : Bytes
placeholder = codes "<?>"

abbrev pub pair : Bytes
pair = codes "<?><?>"

abbrev pub spaced_pair : Bytes
spaced_pair = codes "<?>< ?>"

-- `strings.ReplaceAll(s, "<?>< ?>", "<?>")`, with fuel for the bytes of the text.
abbrev pub replace_step : (Bytes → Bytes) → ℕ → Bytes → Option Bytes → Bytes
replace_step replace c s none = c ∷ replace s
replace_step replace c s (some t) = placeholder ++ replace t

unfoldable pub replace_from : ℕ → Bytes → Bytes
replace_from fuel [] = []
replace_from zero (c ∷ s) = c ∷ s
replace_from (suc fuel) (c ∷ s) =
    replace_step (replace_from fuel) c s (strip_prefix spaced_pair (c ∷ s))

unfoldable pub replace_spaced : Bytes → Bytes
unfolding replace_from
replace_spaced s = replace_from (length s) s

-- The loop that collapses placeholders: `none` if it has not ended after `rounds`.
unfoldable pub collapse : ℕ → Bytes → Option Bytes
unfolding contains replace_spaced
collapse zero s = if contains s pair then none else some s
collapse (suc rounds) s =
    let next = collapse rounds (replace_spaced s) in if contains s pair then next else some s

-- `strings.TrimSpace`, and `strings.Join(strings.Fields(s), " ")`.
abbrev pub is_ascii : Bytes → Bool
is_ascii s = all (λ c. ltb c 128) s

abbrev pub trim_left : Bytes → Bytes
trim_left [] = []
trim_left (c ∷ s) = let rest = trim_left s in if is_space c then rest else c ∷ s

abbrev pub trim_space : Library → Bytes → Bytes
trim_space lib s =
    if is_ascii s then reverse (trim_left (reverse (trim_left s))) else lib.unicode_trim s

-- The words of a text, given whether the byte before was a space.
abbrev pub words_from : Bool → Bytes → Bytes
words_from spaced [] = []
words_from spaced (c ∷ s) =
    let after_space = words_from true s in
    let after_byte = words_from false s in
    if is_space c
    then after_space
    else if spaced
    then codes " " ++ (c ∷ after_byte)
    else c ∷ after_byte

abbrev pub join_fields : Library → Bytes → Bytes
join_fields lib s = if is_ascii s then words_from false (trim_left s) else lib.unicode_fields s

-- `firstNonEmpty`.
abbrev pub is_empty : Bytes → Bool
is_empty [] = true
is_empty _ = false

abbrev pub first_line : Library → List Bytes → Bytes → Bytes
first_line lib [] s = s
first_line lib (line ∷ lines) s =
    let rest = first_line lib lines s in
    let trimmed = trim_space lib line in if is_empty trimmed then rest else trimmed

unfoldable pub first_non_empty : Library → Bytes → Bytes
unfolding split_at
first_non_empty lib s = first_line lib (split_at newline s) s

-- `NormalizeMessage`: `none` if its loop has not ended after `rounds`.
unfoldable pub normalize_message : Library → ℕ → Bytes → Option Bytes
unfolding collapse first_non_empty
normalize_message lib rounds msg =
    Option.map (join_fields lib) (collapse rounds (lib.replace_dynamic (first_non_empty lib msg)))

-- `strings.Join(parts, "\x00")`.
abbrev pub join_zero : List Bytes → Bytes
join_zero [] = []
join_zero (p ∷ []) = p
join_zero (p ∷ q ∷ ps) = p ++ (0 ∷ join_zero (q ∷ ps))

-- `GenerateSignature`.
abbrev pub signature_parts : Bytes → OriginFrame → Bytes → List Bytes
signature_parts error_type origin normalized =
    if is_empty origin.file
    then error_type ∷ normalized ∷ []
    else error_type ∷ module_path origin ∷ origin.function ∷ normalized ∷ []

unfoldable pub generate_signature : Library → ℕ → Bytes → Bytes → Bytes → Option Bytes
unfolding normalize_message extract_origin_frame module_path
generate_signature lib rounds error_type message traceback =
    let origin = extract_origin_frame traceback in
    Option.map (λ normalized. lib.hash16 (join_zero (signature_parts error_type origin normalized)))
      (normalize_message lib rounds message)

-- `ComputeSignature`.
unfoldable pub compute_signature : Library → Bytes → Bytes → Bytes
unfolding first_non_empty
compute_signature lib error_type message =
    lib.hash16 (error_type ++ codes ":" ++ first_non_empty lib message)
