-- ===== src/Migration/Path.antt =====
-- internal/migration/deprecations.go: the rules of a path are those of its legs.
use intelligent_odoo_dev_too.Prelude.{
  ℕ, zero, suc, ◌+◌, ◌-◌, ◌<◌, true, Option, none, some, List, [], ◌++◌, ◌≡◌, ◌≢◌, refl, sym, arith,
  append_assoc, inl, inr, Bool-cases, ltb, ltb→lt, lt→ltb,
}
use intelligent_odoo_dev_too.Prelude.Text.{Bytes}
use intelligent_odoo_dev_too.Migration.{Rule, collect, path_of, path_between, index_of}

collect-add :
    (rules : List Rule) (i m n : ℕ)
    → collect rules i (m + n) ≡ collect rules i m ++ collect rules (i + m) n
unfolding collect
collect-add rules i zero n =
    let e : i + 0 ≡ i = omega arith in let z : 0 + n ≡ n = omega arith in rw e (rw z refl)
collect-add rules i (suc m) n =
    let e : i + suc m ≡ suc i + m = omega arith in
    let z : suc m + n ≡ suc (m + n) = omega arith in
    rw e
      (rw z (rw (collect-add rules (suc i) m n) (sym (append_assoc _ (collect rules (suc i) m) _))))

collect-legs :
    (rules : List Rule) (i j k : ℕ)
    → i < j
    → j < k
    → collect rules i (k - i) ≡ collect rules i (j - i) ++ collect rules j (k - j)
collect-legs rules i j k h l =
    let e : k - i ≡ (j - i) + (k - j) = omega arith in
    let f : i + (j - i) ≡ j = omega arith in
    let g = collect-add rules i (j - i) (k - j) in rw e ((rw f at g))

path_of-forward :
    (rules : List Rule) (i j : ℕ)
    → path_of rules (some i) (some j) ≢ []
    → (i < j) × (path_of rules (some i) (some j) ≡ collect rules i (j - i))
path_of-forward rules i j h = elim (Bool-cases (ltb i j)) [
  | inl e ↦ (ltb→lt i j e, rw e refl)
  | inr e ↦ absurd (h (rw e refl))
]

pub path_of-append :
    (rules : List Rule) (a b c : Option ℕ)
    → path_of rules a b ≢ []
    → path_of rules b c ≢ []
    → path_of rules a c ≡ path_of rules a b ++ path_of rules b c
path_of-append rules none b c p q = absurd (p refl)
path_of-append rules (some i) none c p q = absurd (p refl)
path_of-append rules (some i) (some j) none p q = absurd (q refl)
path_of-append rules (some i) (some j) (some k) p q =
    let (ij, pij) = path_of-forward rules i j p in
    let (jk, pjk) = path_of-forward rules j k q in
    let ik : ltb i k ≡ true = lt→ltb i k (omega arith) in
    rw pij (rw pjk (rw ik (collect-legs rules i j k ij jk)))

pub path_between-append :
    (rules : List Rule) (a b c : Bytes)
    → path_between rules a b ≢ []
    → path_between rules b c ≢ []
    → path_between rules a c ≡ path_between rules a b ++ path_between rules b c
unfolding path_between
path_between-append rules a b c p q =
    path_of-append rules (index_of a) (index_of b) (index_of c) p q
