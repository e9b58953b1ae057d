-- ===== src/Errors/Signature/Frames.antt =====
-- internal/agent/errors/signature.go: the frames of a traceback are read back as they are printed.
use intelligent_odoo_dev_too.Prelude.{
  ℕ, ◌≡◌, refl, ap, ◌∙◌, Bool, true, false, not, Option, none, some, List, [], ◌∷◌, ◌++◌, arith,
  ◌==◌, &&-eq-true_iff, all,
}
use intelligent_odoo_dev_too.Prelude.Text.{Bytes, codes, span, split_at, strip_prefix}
use intelligent_odoo_dev_too.Errors.Signature.{
  OriginFrame, match_frame, last_frame, extract_origin_frame, is_blank, is_digit, quote, newline,
  line_mark, in_mark, after_mark, with_file, with_line, no_frame, or_keep,
}

-- What `span` takes from a text that the test splits.
span-append :
    (p : ℕ → Bool) (xs : Bytes) (c : ℕ) (s : Bytes)
    → all p xs ≡ true
    → p c ≡ false
    → span p (xs ++ (c ∷ s)) ≡ (xs, c ∷ s)
unfolding span
span-append p [] c s h e = rw e
span-append p (x ∷ xs) c s h e = ground (arith, span-append p xs c s)

-- The texts of a frame and of a traceback, as Python prints them.
abbrev print_frame : Bytes → OriginFrame → Bytes
print_frame indent f =
    indent ++ (codes "File \"" ++ (f.file ++ (line_mark ++ (f.line ++ (in_mark ++ f.function)))))

abbrev join_lines : List Bytes → Bytes
join_lines [] = []
join_lines (l ∷ []) = l
join_lines (l ∷ m ∷ ls) = l ++ (newline ∷ join_lines (m ∷ ls))

-- A traceback: lines, the line of a frame with its indentation, and lines.
pub record Traceback : Type 0 where
  pub before : List Bytes
  pub indent : Bytes
  pub frame : OriginFrame
  pub after : List Bytes

abbrev lines_of : Traceback → List Bytes
lines_of t = t.before ++ (print_frame t.indent t.frame ∷ t.after)

unfoldable pub print : Traceback → Bytes
print t = join_lines (lines_of t)

abbrev not_byte : ℕ → ℕ → Bool
not_byte b c = not (c == b)

abbrev is_file : Bytes → Bool
is_file [] = false
is_file (c ∷ s) = all (not_byte quote) (c ∷ s)

abbrev is_number : Bytes → Bool
is_number [] = false
is_number (c ∷ s) = all is_digit (c ∷ s)

abbrev is_name : Bytes → Bool
is_name [] = false
is_name (c ∷ s) = true

-- The pattern reads the three parts of a line as they were printed.
with_line-print :
    (file line name : Bytes)
    → is_number line ≡ true
    → is_name name ≡ true
    → with_line file (span is_digit (line ++ (in_mark ++ name)))
      ≡ some (record { file = file; line = line; function = name })
with_line-print file [] name n h = cc
with_line-print file (d ∷ ds) [] n h = cc
with_line-print file (d ∷ ds) (c ∷ cs) n h =
    ap (with_line file) (span-append is_digit (d ∷ ds) 44 (32 ∷ 105 ∷ 110 ∷ 32 ∷ c ∷ cs) n refl)

with_file-print :
    (file line name : Bytes)
    → is_file file ≡ true
    → is_number line ≡ true
    → is_name name ≡ true
    → with_file (span (not_byte quote) (file ++ (line_mark ++ (line ++ (in_mark ++ name)))))
      ≡ some (record { file = file; line = line; function = name })
with_file-print [] line name f n h = cc
with_file-print (c ∷ cs) line name f n h =
    let rest = line ++ (in_mark ++ name) in
    ap with_file (
      span-append (not_byte quote) (c ∷ cs) 34 (44 ∷ 32 ∷ 108 ∷ 105 ∷ 110 ∷ 101 ∷ 32 ∷ rest) f refl)
    ∙ with_line-print (c ∷ cs) line name n h

match_frame-print :
    (indent : Bytes) (f : OriginFrame)
    → all is_blank indent ≡ true
    → is_file f.file ≡ true
    → is_number f.line ≡ true
    → is_name f.function ≡ true
    → match_frame (print_frame indent f) ≡ some f
unfolding match_frame
match_frame-print indent f b l n h =
    let rest = f.file ++ (line_mark ++ (f.line ++ (in_mark ++ f.function))) in
    ap (λ (r : Bytes × Bytes). after_mark (strip_prefix (codes "File \"") r.1))
      (span-append is_blank indent 70 (105 ∷ 108 ∷ 101 ∷ 32 ∷ 34 ∷ rest) b refl)
    ∙ with_file-print f.file f.line f.function l n h

-- Lines without newlines are split where they were joined.
split_at-line :
    (xs s : Bytes)
    → all (not_byte newline) xs ≡ true
    → split_at newline (xs ++ (newline ∷ s)) ≡ xs ∷ split_at newline s
unfolding split_at
split_at-line [] s h = refl
split_at-line (x ∷ xs) s h = ground (arith, split_at-line xs s)

split_at-plain : (xs : Bytes) → all (not_byte newline) xs ≡ true → split_at newline xs ≡ xs ∷ []
unfolding split_at
split_at-plain [] h = refl
split_at-plain (x ∷ xs) h = ground (arith, split_at-plain xs)

split_at-join :
    (l : Bytes) (ls : List Bytes)
    → all (all (not_byte newline)) (l ∷ ls) ≡ true
    → split_at newline (join_lines (l ∷ ls)) ≡ l ∷ ls
split_at-join l [] h = split_at-plain l (ground arith)
split_at-join l (m ∷ ls) h =
    split_at-line l (join_lines (m ∷ ls)) (ground arith)
    ∙ ap (λ r. l ∷ r) (split_at-join m ls (ground arith))

-- A line that the pattern does not match.
abbrev is_absent : Option OriginFrame → Bool
is_absent none = true
is_absent (some f) = false

abbrev is_other : Bytes → Bool
is_other l = is_absent (match_frame l)

-- The frame is well formed, no line holds a newline, and the lines after the frame hold none.
pub record IsPrinted (t : Traceback) : Type 0 where
  pub blank_indent : all is_blank t.indent ≡ true
  pub file_named : is_file t.frame.file ≡ true
  pub line_numbered : is_number t.frame.line ≡ true
  pub function_named : is_name t.frame.function ≡ true
  pub one_line_each : all (all (not_byte newline)) (lines_of t) ≡ true
  pub last : all is_other t.after ≡ true

or_keep-absent : (o : Option OriginFrame) (f : OriginFrame) → is_absent o ≡ true → or_keep o f ≡ f
or_keep-absent none f h = refl
or_keep-absent (some g) f h = cc

last_frame-other :
    (ls : List Bytes) (f : OriginFrame) → all is_other ls ≡ true → last_frame ls f ≡ f
unfolding last_frame
last_frame-other [] f h = refl
last_frame-other (l ∷ ls) f h =
    let absent : is_absent (match_frame l) ≡ true = ((&&-eq-true_iff _ _).0 h).0 in
    ap (last_frame ls) (or_keep-absent (match_frame l) f absent)
    ∙ last_frame-other ls f ((&&-eq-true_iff _ _).0 h).1

last_frame-append :
    (xs : List Bytes) (l : Bytes) (ys : List Bytes) (f start : OriginFrame)
    → match_frame l ≡ some f
    → all is_other ys ≡ true
    → last_frame (xs ++ (l ∷ ys)) start ≡ f
unfolding last_frame
last_frame-append [] l ys f start m h =
    ap (λ o. last_frame ys (or_keep o start)) m ∙ last_frame-other ys f h
last_frame-append (x ∷ xs) l ys f start m h =
    last_frame-append xs l ys f (or_keep (match_frame x) start) m h

split_at-lines :
    (xs : List Bytes) (l : Bytes) (ys : List Bytes)
    → all (all (not_byte newline)) (xs ++ (l ∷ ys)) ≡ true
    → split_at newline (join_lines (xs ++ (l ∷ ys))) ≡ xs ++ (l ∷ ys)
split_at-lines [] l ys h = split_at-join l ys h
split_at-lines (x ∷ xs) l ys h = split_at-join x (xs ++ (l ∷ ys)) h

-- For a traceback with a well-formed frame, of lines without newlines, with no frame after that
-- one, `ExtractOriginFrame` reads back the file, the line number and the function of the frame.
pub extract_origin_frame-print :
    (t : Traceback) → IsPrinted t → extract_origin_frame (print t) ≡ t.frame
unfolding extract_origin_frame print
extract_origin_frame-print t p =
    let line = print_frame t.indent t.frame in
    ap (λ ls. last_frame ls no_frame) (split_at-lines t.before line t.after p.one_line_each)
    ∙ last_frame-append t.before line t.after t.frame no_frame
        (match_frame-print t.indent t.frame p.blank_indent p.file_named p.line_numbered
          p.function_named)
        p.last
