-- ===== src/Acl/Like/Correct.antt =====
-- internal/acl/domain_evaluator.go: `matchLike` decides LIKE.
use intelligent_odoo_dev_too.Prelude.{
  ℕ, ◌≡◌, ◌↔◌, refl, sym, ap, ap₂, ◌∙◌, Bool, true, false, List, [], ◌∷◌, ◌++◌, reverse, ◌==◌,
  arith, Bool-cases, inl, inr,
}
use mathlib.Core.List.{reverse-cons, append_assoc, append-nil}
use intelligent_odoo_dev_too.Prelude.Text.{Bytes}
use intelligent_odoo_dev_too.Acl.Like.{
  percent, all_false, leading, cell, cells, rows, last_cell, match_like,
}
use intelligent_odoo_dev_too.Acl.Like.Spec.{Like, like_test, like_test_iff, Like-reverse_iff}

-- The row of the table for a text read backwards, `rc`: the prefixes of the pattern from `rp`,
-- read backwards, on.
spec_cells : Bytes → Bytes → Bytes → List Bool
spec_cells rp [] rc = []
spec_cells rp (p ∷ ps) rc = like_test (p ∷ rp) rc ∷ spec_cells (p ∷ rp) ps rc

spec_row : Bytes → Bytes → Bytes → List Bool
spec_row rp ps rc = like_test rp rc ∷ spec_cells rp ps rc

all_false-spec : (rp ps : Bytes) → like_test rp [] ≡ false → spec_cells rp ps [] ≡ all_false ps
unfolding spec_cells all_false like_test
all_false-spec rp [] h = refl
all_false-spec rp (p ∷ ps) h =
    let below : like_test (p ∷ rp) [] ≡ false = ground arith in
    ap₂ ◌∷◌ below (all_false-spec (p ∷ rp) ps below)

leading-spec : (rp ps : Bytes) → like_test rp [] ≡ true → leading true ps ≡ spec_cells rp ps []
unfolding leading spec_cells all_false
leading-spec rp [] h = refl
leading-spec rp (p ∷ ps) h = elim (Bool-cases (p == percent)) [
  | inl e ↦
      let here : like_test (p ∷ rp) [] ≡ true = unfold like_test in ground arith in
      rw (e, here) (ap (◌∷◌ true) (leading-spec (p ∷ rp) ps here))
  | inr e ↦
      let here : like_test (p ∷ rp) [] ≡ false = unfold like_test in ground arith in
      rw e (sym (ap₂ ◌∷◌ here (all_false-spec (p ∷ rp) ps here)))
]

cell_lem :
    (c p : ℕ) (rp rc : Bytes)
    → cell c p (like_test rp rc) (like_test (p ∷ rp) rc) (like_test rp (c ∷ rc))
      ≡ like_test (p ∷ rp) (c ∷ rc)
unfolding like_test
cell_lem c p rp rc = refl

cells-spec :
    (c : ℕ) (rp ps rc : Bytes)
    → cells c (like_test rp (c ∷ rc)) (spec_row rp ps rc) ps ≡ spec_cells rp ps (c ∷ rc)
unfolding cells spec_cells spec_row
cells-spec c rp [] rc = refl
cells-spec c rp (p ∷ ps) rc =
    rw (cell_lem c p rp rc) (ap (◌∷◌ (like_test (p ∷ rp) (c ∷ rc))) (cells-spec c (p ∷ rp) ps rc))

next_row-spec :
    (c : ℕ) (ps rc : Bytes)
    → (false ∷ cells c false (spec_row [] ps rc) ps) ≡ spec_row [] ps (c ∷ rc)
unfolding spec_row like_test
next_row-spec c ps rc = ap (◌∷◌ false) (cells-spec c [] ps rc)

first_row-spec : (ps : Bytes) → (true ∷ leading true ps) ≡ spec_row [] ps []
unfolding spec_row like_test
first_row-spec ps = ap (◌∷◌ true) (leading-spec [] ps refl)

rows-spec : (ps s rc : Bytes) → rows ps (spec_row [] ps rc) s ≡ spec_row [] ps (reverse s ++ rc)
unfolding rows
rows-spec ps [] rc = refl
rows-spec ps (c ∷ s) rc =
    ap (λ r. rows ps r s) (next_row-spec c ps rc)
    ∙ rows-spec ps s (c ∷ rc)
    ∙ ap (spec_row [] ps)
        (sym (append_assoc (reverse s) (c ∷ []) rc) ∙ ap (λ t. t ++ rc) (sym (reverse-cons c s)))

last_cell-spec :
    (rp ps rc : Bytes) → last_cell (spec_row rp ps rc) ≡ like_test (reverse ps ++ rp) rc
unfolding last_cell spec_row spec_cells
last_cell-spec rp [] rc = refl
last_cell-spec rp (p ∷ ps) rc =
    last_cell-spec (p ∷ rp) ps rc
    ∙ ap (λ t. like_test t rc)
        (sym (append_assoc (reverse ps) (p ∷ []) rp) ∙ ap (λ t. t ++ rp) (sym (reverse-cons p ps)))

-- `matchLike` answers true exactly when the text matches the pattern, `%` standing for any bytes,
-- `_` for any one byte, and every other byte for itself.
pub match_like_iff : (s pattern : Bytes) → (match_like s pattern ≡ true) ↔ Like pattern s
unfolding match_like
match_like_iff s pattern =
    let table : match_like s pattern ≡ like_test (reverse pattern) (reverse s) =
      ap (λ r. last_cell (rows pattern r s)) (first_row-spec pattern)
      ∙ ap last_cell (rows-spec pattern s [])
      ∙ last_cell-spec [] pattern (reverse s ++ [])
      ∙ ap₂ like_test (append-nil (reverse pattern)) (append-nil (reverse s)) in
    let (sound, complete) = like_test_iff (reverse pattern) (reverse s) in
    let (from, to) = Like-reverse_iff pattern s in
    (λ e. from (sound (sym table ∙ e)), λ l. table ∙ complete (to l))
