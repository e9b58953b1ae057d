-- ===== src/Agent/LogTailer/Pieces.antt =====
-- internal/agent/hook/logparser.go: the lines of a text that ends with a newline.
use intelligent_odoo_dev_too.Prelude.{
  ℕ, zero, suc, ◌≤◌, Bool, true, false, not, ◌&&◌, Option, none, some, List, [], ◌∷◌, ◌++◌, ◌≡◌,
  refl, sym, ap, ◌∙◌, all, length, take, leb, leb→le, arith, ◌==◌, &&-eq-true_iff, append_assoc,
}
use intelligent_odoo_dev_too.Prelude.Text.{Bytes}
use intelligent_odoo_dev_too.Agent.LogTailer.{
  LogEntry, EntryAccumulator, feed, strip_last, strip_newline, pieces, emit, feed_pieces,
  read_lines, flush, tail_file,
}

-- The text of some lines.
abbrev pub text_of : List Bytes → Bytes
text_of [] = []
text_of (l ∷ ls) = l ++ (10 ∷ text_of ls)

abbrev pub ends_with : ℕ → Bytes → Bool
ends_with c [] = false
ends_with c (x ∷ []) = x == c
ends_with c (x ∷ y ∷ s) = ends_with c (y ∷ s)

-- Lines that are read as they are.
abbrev pub is_plain : ℕ → Bytes → Bool
is_plain max l = all (λ c. not (c == 10)) l && (not (ends_with 13 l) && leb (length l) max)

pieces-line :
    (l s : Bytes)
    → all (λ c. not (c == 10)) l ≡ true
    → pieces (l ++ (10 ∷ s)) ≡ (l ++ (10 ∷ [])) ∷ pieces s
unfolding pieces
pieces-line [] s h = refl
pieces-line (c ∷ l) s h =
    let (a, b) = (&&-eq-true_iff (not (c == 10)) (all (λ x. not (x == 10)) l)).0 h in
    let other : (c == 10) ≡ false = ground arith in rw other (rw (pieces-line l s b) refl)

strip_last-snoc : (c : ℕ) (l : Bytes) → strip_last c (l ++ (c ∷ [])) ≡ l
unfolding strip_last
strip_last-snoc c [] = ground arith
strip_last-snoc c (x ∷ []) = ground arith
strip_last-snoc c (x ∷ y ∷ l) = ap (λ s. x ∷ s) (strip_last-snoc c (y ∷ l))

strip_last-other : (c : ℕ) (l : Bytes) → ends_with c l ≡ false → strip_last c l ≡ l
unfolding strip_last
strip_last-other c [] h = refl
strip_last-other c (x ∷ []) h = rw h refl
strip_last-other c (x ∷ y ∷ l) h = ap (λ s. x ∷ s) (strip_last-other c (y ∷ l) h)

take-all : (n : ℕ) (l : Bytes) → length l ≤ n → take n l ≡ l
take-all zero [] h = refl
take-all zero (x ∷ l) h = absurd (omega arith)
take-all (suc n) [] h = refl
take-all (suc n) (x ∷ l) h = ap (λ s. x ∷ s) (take-all n l (omega arith))

read-plain :
    (max : ℕ) (l : Bytes) → is_plain max l ≡ true → take max (strip_newline (l ++ (10 ∷ []))) ≡ l
read-plain max l h =
    let (a, b) = (&&-eq-true_iff (all (λ c. not (c == 10)) l) _).0 h in
    let (c, d) = (&&-eq-true_iff (not (ends_with 13 l)) (leb (length l) max)).0 b in
    let other : ends_with 13 l ≡ false = ground arith in
    rw (strip_last-snoc 10 l)
      (rw (strip_last-other 13 l other) (take-all max l (leb→le (length l) max d)))

emit-append : (o : Option LogEntry) (xs ys : List LogEntry) → emit o xs ++ ys ≡ emit o (xs ++ ys)
emit-append none xs ys = refl
emit-append (some e) xs ys = refl

-- The lines of all polls, one after another.
abbrev pub join_polls : List (List Bytes) → List Bytes
join_polls [] = []
join_polls (ls ∷ polls) = ls ++ join_polls polls

abbrev pub texts_of : List (List Bytes) → List Bytes
texts_of [] = []
texts_of (ls ∷ polls) = text_of ls ∷ texts_of polls

abbrev pub finish : List LogEntry × EntryAccumulator → List LogEntry
finish (entries, acc) = entries ++ emit (flush acc).0 []

all-append_parts :
    (p : Bytes → Bool) (xs ys : List Bytes)
    → all p (xs ++ ys) ≡ true
    → (all p xs ≡ true) × (all p ys ≡ true)
all-append_parts p [] ys h = (refl, h)
all-append_parts p (x ∷ xs) ys h =
    let (a, b) = (&&-eq-true_iff (p x) (all p (xs ++ ys))).0 h in
    let (c, d) = all-append_parts p xs ys b in (rw a c, d)

-- The lines fed one after another.
module _ (parse_header : Bytes → Option LogEntry) where
  unfoldable pub feed_all : EntryAccumulator → List Bytes → List LogEntry × EntryAccumulator
  unfolding feed
  feed_all acc [] = ([], acc)
  feed_all acc (l ∷ ls) =
      let (done, next) = feed parse_header acc l in
      let (entries, final) = feed_all next ls in (emit done entries, final)

  read_lines-text_of :
      (max : ℕ) (acc : EntryAccumulator) (ls : List Bytes)
      → all (is_plain max) ls ≡ true
      → read_lines parse_header max acc (text_of ls) ≡ feed_all acc ls
  unfolding feed_pieces feed_all pieces
  read_lines-text_of max acc [] h = refl
  read_lines-text_of max acc (l ∷ ls) h =
      let (plain, rest) = (&&-eq-true_iff (is_plain max l) (all (is_plain max) ls)).0 h in
      let (no_newline, _) = (&&-eq-true_iff (all (λ c. not (c == 10)) l) _).0 plain in
      let next = (feed parse_header acc l).1 in
      ap (feed_pieces parse_header max acc) (pieces-line l (text_of ls) no_newline)
      ∙ rw (read-plain max l plain) (
          ap (λ r. (emit (feed parse_header acc l).0 r.0, r.1))
            (read_lines-text_of max next ls rest))

  feed_all-append :
      (acc : EntryAccumulator) (xs ys : List Bytes)
      → feed_all acc (xs ++ ys) ≡ (
        (feed_all acc xs).0 ++ (feed_all (feed_all acc xs).1 ys).0,
        (feed_all (feed_all acc xs).1 ys).1,
      )
  unfolding feed_all
  feed_all-append acc [] ys = refl
  feed_all-append acc (x ∷ xs) ys =
      let (done, next) = feed parse_header acc x in
      ap (λ r. (emit done r.0, r.1)) (feed_all-append next xs ys)
      ∙ ap (λ es. (es, (feed_all (feed_all next xs).1 ys).1))
          (sym (emit-append done (feed_all next xs).0 (feed_all (feed_all next xs).1 ys).0))

  pub finish-append :
      (acc : EntryAccumulator) (xs ys : List Bytes)
      → finish (feed_all acc (xs ++ ys))
        ≡ (feed_all acc xs).0 ++ finish (feed_all (feed_all acc xs).1 ys)
  finish-append acc xs ys =
      ap finish (feed_all-append acc xs ys) ∙ append_assoc (feed_all acc xs).0 _ _

  pub finish-line :
      (acc : EntryAccumulator) (l : Bytes) (ls : List Bytes)
      → finish (feed_all acc (l ∷ ls))
        ≡ emit (feed parse_header acc l).0 (finish (feed_all (feed parse_header acc l).1 ls))
  unfolding feed_all
  finish-line acc l ls = emit-append (feed parse_header acc l).0 _ _

  pub tail_file-feed_all :
      (max : ℕ) (acc : EntryAccumulator) (polls : List (List Bytes))
      → all (is_plain max) (join_polls polls) ≡ true
      → tail_file parse_header max acc (texts_of polls) ≡ finish (feed_all acc (join_polls polls))
  unfolding tail_file feed_all
  tail_file-feed_all max acc [] h = refl
  tail_file-feed_all max acc (ls ∷ polls) h =
      let (a, b) = all-append_parts (is_plain max) ls (join_polls polls) h in
      let (entries, next) = feed_all acc ls in
      ap (λ r. r.0 ++ tail_file parse_header max r.1 (texts_of polls))
        (read_lines-text_of max acc ls a)
      ∙ ap (λ es. entries ++ es) (tail_file-feed_all max next polls b)
      ∙ sym (finish-append acc ls (join_polls polls))
