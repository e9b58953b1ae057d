-- ===== src/Acl/Like/Spec.antt =====
-- internal/acl/domain_evaluator.go: what LIKE means, with no table in it.
use intelligent_odoo_dev_too.Prelude.{
  ℕ, ◌≡◌, ◌≢◌, ◌↔◌, refl, sym, ap, ◌∙◌, subst, Bool, true, false, ◌&&◌, ◌||◌, [], ◌∷◌, ◌++◌,
  reverse, append-nil, append_assoc, ◌==◌, if◌then◌else◌, arith, Bool-cases, inl, inr, ==_iff,
}
use mathlib.Core.List.{reverse-append, reverse-cons, reverse-reverse}
use intelligent_odoo_dev_too.Prelude.Text.{Bytes}
use intelligent_odoo_dev_too.Acl.Like.{percent, underscore}

-- `Like pattern s`: `%` stands for any bytes, `_` for one byte, any other byte for itself.
pub data Like : Bytes → Bytes → Type 0 where
  like_end : Like [] []
  like_percent :
      {c : ℕ} {p s u : Bytes} (t : Bytes) → c ≡ percent → u ≡ t ++ s → Like p s → Like (c ∷ p) u
  like_any : {c d : ℕ} {p s : Bytes} → c ≡ underscore → Like p s → Like (c ∷ p) (d ∷ s)
  like_byte :
      {c d : ℕ} {p s : Bytes}
      → c ≢ percent
      → c ≢ underscore
      → d ≡ c
      → Like p s
      → Like (c ∷ p) (d ∷ s)

pub Like-append : {p q s t : Bytes} → Like p s → Like q t → Like (p ++ q) (s ++ t)
Like-append like_end l = l
Like-append {t} (like_percent {s} u e split k) l =
    like_percent u e (ap (λ x. x ++ t) split ∙ append_assoc u s t) (Like-append k l)
Like-append (like_any e k) l = like_any e (Like-append k l)
Like-append (like_byte n m e k) l = like_byte n m e (Like-append k l)

reverse-Like : {p s : Bytes} → Like p s → Like (reverse p) (reverse s)
reverse-Like like_end = like_end
reverse-Like (like_percent {c} {p} {s} t e split k) =
    rw (reverse-cons c p, split, reverse-append t s)
      (Like-append (reverse-Like k)
        (like_percent (reverse t) e (sym (append-nil (reverse t))) like_end))
reverse-Like (like_any {c} {d} {p} {s} e k) =
    rw (reverse-cons c p, reverse-cons d s) (Like-append (reverse-Like k) (like_any e like_end))
reverse-Like (like_byte {c} {d} {p} {s} n m e k) =
    rw (reverse-cons c p, reverse-cons d s)
      (Like-append (reverse-Like k) (like_byte n m e like_end))

-- A pattern may be read from either end.
pub Like-reverse_iff : (p s : Bytes) → Like (reverse p) (reverse s) ↔ Like p s
Like-reverse_iff p s = (
  λ l.
      subst (λ x. Like x s) (reverse-reverse p)
        (subst (λ x. Like (reverse (reverse p)) x) (reverse-reverse s) (reverse-Like l)),
  reverse-Like,
)

-- The recurrence of the table as a function: whether a pattern matches a text, byte by byte.
unfoldable pub like_test : Bytes → Bytes → Bool
like_test [] [] = true
like_test [] (d ∷ s) = false
like_test (c ∷ p) [] = if c == percent then like_test p [] else false
like_test (c ∷ p) (d ∷ s) =
    let in_percent = like_test (c ∷ p) s || like_test p (d ∷ s) in
    let one = like_test p s in
    if c == percent then in_percent else if c == underscore then one else one && d == c

-- A `%` takes one byte more.
percent-take : {c d : ℕ} {p s : Bytes} → c ≡ percent → Like (c ∷ p) s → Like (c ∷ p) (d ∷ s)
percent-take {d} e (like_percent t e' split k) = like_percent (d ∷ t) e (ap (◌∷◌ d) split) k
percent-take e (like_any e' k) = absurd (omega arith)
percent-take e (like_byte n m e' k) = absurd (n e)

like_test_sound : (p s : Bytes) → like_test p s ≡ true → Like p s
unfolding like_test
like_test_sound [] [] h = like_end
like_test_sound [] (d ∷ s) h = cc
like_test_sound (c ∷ p) [] h = elim (Bool-cases (c == percent)) [
  | inl e ↦ like_percent [] ((==_iff c percent).0 e) refl (like_test_sound p [] (ground arith))
  | inr e ↦ absurd (ground arith)
]
like_test_sound (c ∷ p) (d ∷ s) h = elim (Bool-cases (c == percent)) [
  | inl e ↦ elim (Bool-cases (like_test (c ∷ p) s)) [
    | inl more ↦ percent-take ((==_iff c percent).0 e) (like_test_sound (c ∷ p) s more)
    | inr none ↦
        like_percent [] ((==_iff c percent).0 e) refl (like_test_sound p (d ∷ s) (ground arith))
  ]
  | inr e ↦ elim (Bool-cases (c == underscore)) [
    | inl u ↦ like_any ((==_iff c underscore).0 u) (like_test_sound p s (ground arith))
    | inr u ↦
        like_byte (ground arith) (ground arith) (ground arith) (like_test_sound p s (ground arith))
  ]
]

like_test-percent :
    (c : ℕ) (p s : Bytes) (t : Bytes)
    → c ≡ percent
    → like_test p s ≡ true
    → like_test (c ∷ p) (t ++ s) ≡ true
unfolding like_test
like_test-percent c p [] [] e h = ground arith
like_test-percent c p (d ∷ s) [] e h = ground (arith)
like_test-percent c p s (d ∷ t) e h = ground (arith, like_test-percent c p s t e h)

like_test_complete : {p s : Bytes} → Like p s → like_test p s ≡ true
unfolding like_test
like_test_complete like_end = refl
like_test_complete (like_percent {c} {p} {s} t e split k) =
    rw split (like_test-percent c p s t e (like_test_complete k))
like_test_complete (like_any {c} {d} {p} {s} e k) = ground (arith, like_test_complete k)
like_test_complete (like_byte {c} {d} {p} {s} n m e k) = ground (arith, like_test_complete k)

pub like_test_iff : (p s : Bytes) → (like_test p s ≡ true) ↔ Like p s
like_test_iff p s = (like_test_sound p s, like_test_complete)
