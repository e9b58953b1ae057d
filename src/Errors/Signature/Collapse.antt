-- ===== src/Errors/Signature/Collapse.antt =====
-- internal/agent/errors/signature.go: when the loop of `NormalizeMessage` ends.
use intelligent_odoo_dev_too.Prelude.{
  ℕ, zero, suc, ◌≡◌, refl, sym, ap, ◌∙◌, inl, inr, true, false, none, some, [], ◌∷◌, ◌++◌, arith,
  if◌then◌else◌, ◌==◌, Bool-cases, Option-cases, length,
}
use intelligent_odoo_dev_too.Prelude.Text.{Bytes, contains, has_prefix, strip_prefix}
use intelligent_odoo_dev_too.Errors.Signature.{
  replace_step, placeholder, pair, spaced_pair, replace_from, replace_spaced, collapse,
  normalize_message, Library, first_non_empty, join_fields,
}

-- A text with a prefix is the prefix and what follows.
has_prefix-split : (p s : Bytes) → has_prefix p s ≡ true → (t : Bytes) × (s ≡ p ++ t)
has_prefix-split [] s h = (s, refl)
has_prefix-split (p ∷ ps) [] h = cc
has_prefix-split (p ∷ ps) (c ∷ s) h =
    let head : p ≡ c = ground arith in let (t, e) = has_prefix-split ps s (ground arith) in (t, cc)

strip_prefix-split : (p s t : Bytes) → strip_prefix p s ≡ some t → s ≡ p ++ t
strip_prefix-split [] s t h = cc
strip_prefix-split (p ∷ ps) [] t h = cc
strip_prefix-split (p ∷ ps) (c ∷ s) t h = elim (Bool-cases (p == c)) [
  | inl e ↦
      let head : p ≡ c = ground arith in let tail = strip_prefix-split ps s t (ground arith) in cc
  | inr e ↦ ground arith
]

-- One step of the replacement.
replace-hit :
    (fuel c : ℕ) (s t : Bytes)
    → strip_prefix spaced_pair (c ∷ s) ≡ some t
    → replace_from (suc fuel) (c ∷ s) ≡ placeholder ++ replace_from fuel t
unfolding replace_from
replace-hit fuel c s t h = ap (replace_step (replace_from fuel) c s) h

replace-miss :
    (fuel c : ℕ) (s : Bytes)
    → strip_prefix spaced_pair (c ∷ s) ≡ none
    → replace_from (suc fuel) (c ∷ s) ≡ c ∷ replace_from fuel s
unfolding replace_from
replace-miss fuel c s h = ap (replace_step (replace_from fuel) c s) h

replace-keeps :
    (fuel c : ℕ) (s : Bytes)
    → strip_prefix spaced_pair (c ∷ s) ≡ none
    → (n : ℕ) × (replace_from fuel (c ∷ s) ≡ c ∷ replace_from n s)
unfolding replace_from
replace-keeps zero c [] h = (0, refl)
replace-keeps zero c (d ∷ s) h = (0, refl)
replace-keeps (suc fuel) c s h = (fuel, replace-miss fuel c s h)

-- Replacing keeps a placeholder at the start, and a pair of them.
replace-placeholder :
    (fuel : ℕ) (t : Bytes) → (u : Bytes) × (replace_from fuel (placeholder ++ t) ≡ placeholder ++ u)
unfolding replace_from
replace-placeholder zero t = (t, refl)
replace-placeholder (suc fuel) t =
    elim (Option-cases (strip_prefix spaced_pair (placeholder ++ t))) [
      | inr (u, h) ↦ (replace_from fuel u, replace-hit fuel 60 (63 ∷ 62 ∷ t) u h)
      | inl h ↦
          let (m, a) = replace-keeps (suc fuel) 60 (63 ∷ 62 ∷ t) h in
          let (n, b) = replace-keeps m 63 (62 ∷ t) refl in
          let (k, c) = replace-keeps n 62 t refl in
          (replace_from k t, a ∙ ap (λ r. 60 ∷ r) (b ∙ ap (λ r. 63 ∷ r) c))
    ]

replace-pair : (fuel : ℕ) (t : Bytes) → (u : Bytes) × (replace_from fuel (pair ++ t) ≡ pair ++ u)
replace-pair fuel t =
    let (m, a) = replace-keeps fuel 60 (63 ∷ 62 ∷ 60 ∷ 63 ∷ 62 ∷ t) refl in
    let (n, b) = replace-keeps m 63 (62 ∷ 60 ∷ 63 ∷ 62 ∷ t) refl in
    let (k, c) = replace-keeps n 62 (60 ∷ 63 ∷ 62 ∷ t) refl in
    let (u, e) = replace-placeholder k t in
    (u, a ∙ ap (λ r. 60 ∷ r) (b ∙ ap (λ r. 63 ∷ r) (c ∙ ap (λ r. 62 ∷ r) e)))

contains-pair : (u : Bytes) → contains (pair ++ u) pair ≡ true
unfolding contains
contains-pair u = refl

-- A pair that stands after other bytes.
contains-spaced : (t : Bytes) → contains (spaced_pair ++ t) pair ≡ contains t pair
unfolding contains
contains-spaced t = refl

contains-placeholder :
    (u : Bytes) → contains u pair ≡ true → contains (placeholder ++ u) pair ≡ true
unfolding contains
contains-placeholder u h = ground (arith, h)

contains-cons : (c : ℕ) (s : Bytes) → contains s pair ≡ true → contains (c ∷ s) pair ≡ true
unfolding contains
contains-cons c s h = ground (arith, h)

contains-cons_inv :
    (c : ℕ) (s : Bytes)
    → contains (c ∷ s) pair ≡ true
    → has_prefix pair (c ∷ s) ≡ false
    → contains s pair ≡ true
unfolding contains
contains-cons_inv c s h p = ground (arith, h)

replace-contains :
    (fuel : ℕ) (s : Bytes) → contains s pair ≡ true → contains (replace_from fuel s) pair ≡ true
unfolding replace_from
replace-contains fuel [] h = h
replace-contains zero (c ∷ s) h = h
replace-contains (suc fuel) (c ∷ s) h = elim (Option-cases (strip_prefix spaced_pair (c ∷ s))) [
  | inr (t, e) ↦
      let split = strip_prefix-split spaced_pair (c ∷ s) t e in
      let inside : contains t pair ≡ true =
        sym (contains-spaced t) ∙ (sym (ap (λ r. contains r pair) split) ∙ h) in
      ap (λ r. contains r pair) (replace-hit fuel c s t e)
      ∙ contains-placeholder (replace_from fuel t) (replace-contains fuel t inside)
  | inl e ↦ elim (Bool-cases (has_prefix pair (c ∷ s))) [
    | inl p ↦
        let (t, split) = has_prefix-split pair (c ∷ s) p in
        let (u, r) = replace-pair (suc fuel) t in
        ap (λ r. contains r pair) (ap (replace_from (suc fuel)) split ∙ r) ∙ contains-pair u
    | inr p ↦
        ap (λ r. contains r pair) (replace-miss fuel c s e)
        ∙ contains-cons c (replace_from fuel s)
            (replace-contains fuel s (contains-cons_inv c s h p))
  ]
]

replace_spaced-contains :
    (s : Bytes) → contains s pair ≡ true → contains (replace_spaced s) pair ≡ true
unfolding replace_spaced
replace_spaced-contains s h = replace-contains (length s) s h

collapse-never : (rounds : ℕ) (s : Bytes) → contains s pair ≡ true → collapse rounds s ≡ none
unfolding collapse
collapse-never zero s h = rw h
collapse-never (suc rounds) s h =
    rw h (collapse-never rounds (replace_spaced s) (replace_spaced-contains s h))

collapse-none_pair : (rounds : ℕ) (s : Bytes) → contains s pair ≡ false → collapse rounds s ≡ some s
unfolding collapse
collapse-none_pair zero s h = rw h
collapse-none_pair (suc rounds) s h = rw h

-- Whatever the patterns of `normalizers` make of a message, `NormalizeMessage` ends at once, with
-- the text's fields joined by spaces, if no two placeholders stand next to each other in it; and if
-- two do, its loop does not end after any number of rounds.
pub normalize_message-ends :
    (lib : Library) (rounds : ℕ) (msg : Bytes)
    → normalize_message lib rounds msg ≡ (
        let s = lib.replace_dynamic (first_non_empty lib msg) in
        if contains s pair then none else some (join_fields lib s))
unfolding normalize_message
normalize_message-ends lib rounds msg =
    let s = lib.replace_dynamic (first_non_empty lib msg) in
    elim (Bool-cases (contains s pair)) [
      | inl h ↦ rw (h, collapse-never rounds s h)
      | inr h ↦ rw (h, collapse-none_pair rounds s h)
    ]
