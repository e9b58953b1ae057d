-- ===== src/Agent/N1Tracker/Held.antt =====
-- internal/agent/hook/ormcollector.go: the times that the detector holds for one signature.
use intelligent_odoo_dev_too.Prelude.{
  ℕ, ◌+◌, ◌≤◌, ◌≡◌, refl, sym, ap, ◌∙◌, inl, inr, Bool, true, false, not, ◌&&◌, List, [], ◌∷◌, ◌++◌,
  all, keep, keep-append, if◌then◌else◌, ltb, leb, arith, Bool-cases, &&-eq-true_iff,
}
use intelligent_odoo_dev_too.Agent.N1Tracker.{drop_old}

-- A time that is not before the cutoff of a check.
abbrev pub in_window : ℕ → ℕ → ℕ → Bool
in_window w ts t = not (ltb (t + w) ts)

abbrev is_sorted : List ℕ → Bool
is_sorted [] = true
is_sorted (t ∷ times) = all (leb t) times && is_sorted times

all-in_window :
    (w ts t : ℕ) (times : List ℕ)
    → in_window w ts t ≡ true
    → all (leb t) times ≡ true
    → keep (in_window w ts) times ≡ times
all-in_window w ts t [] e h = refl
all-in_window w ts t (u ∷ times) e h =
    let (first, rest) = (&&-eq-true_iff (leb t u) (all (leb t) times)).0 h in
    let inside : in_window w ts u ≡ true = ground (arith, first, e) in
    rw inside (ap (λ l. u ∷ l) (all-in_window w ts t times e rest))

-- Skipping the old times of a sorted list keeps those in the window.
drop_old-keep :
    (w ts : ℕ) (times : List ℕ)
    → is_sorted times ≡ true
    → drop_old w ts times ≡ keep (in_window w ts) times
unfolding drop_old
drop_old-keep w ts [] h = refl
drop_old-keep w ts (t ∷ times) h =
    let (least, rest) = (&&-eq-true_iff _ _).0 h in
    elim (Bool-cases (ltb (t + w) ts)) [
      | inl e ↦ rw e (drop_old-keep w ts times rest)
      | inr e ↦
          let inside : in_window w ts t ≡ true = ap not e in
          rw e (ap (λ l. t ∷ l) (sym (all-in_window w ts t times inside least)))
    ]

all-keep : (p q : ℕ → Bool) (times : List ℕ) → all p times ≡ true → all p (keep q times) ≡ true
all-keep p q [] h = refl
all-keep p q (t ∷ times) h = ground (arith, h, all-keep p q times)

keep-sorted :
    (q : ℕ → Bool) (times : List ℕ) → is_sorted times ≡ true → is_sorted (keep q times) ≡ true
keep-sorted q [] h = refl
keep-sorted q (t ∷ times) h =
    let (least, rest) = (&&-eq-true_iff (all (leb t) times) (is_sorted times)).0 h in
    ground (arith, all-keep (leb t) q times least, keep-sorted q times rest)

-- A later window is part of an earlier one.
keep-keep :
    (w c ts : ℕ) (times : List ℕ)
    → c ≤ ts
    → keep (in_window w ts) (keep (in_window w c) times) ≡ keep (in_window w ts) times
keep-keep w c ts [] h = refl
keep-keep w c ts (t ∷ times) h = elim (Bool-cases (in_window w c t)) [
  | inl e ↦ rw e (ap (λ l. if in_window w ts t then t ∷ l else l) (keep-keep w c ts times h))
  | inr e ↦
      let outside : in_window w ts t ≡ false = ground (arith, e, h) in
      rw (e, outside) (keep-keep w c ts times h)
]

sorted_snoc :
    (times : List ℕ) (ts : ℕ)
    → is_sorted times ≡ true
    → all (λ t. leb t ts) times ≡ true
    → is_sorted (times ++ (ts ∷ [])) ≡ true
sorted_snoc [] ts h k = refl
sorted_snoc (t ∷ times) ts h k =
    let (least, rest) = (&&-eq-true_iff _ _).0 h in
    let (below, later) = (&&-eq-true_iff _ _).0 k in
    (&&-eq-true_iff _ _).1 (all_snoc t times ts least below, sorted_snoc times ts rest later)
  where
    all_snoc :
        (a : ℕ) (xs : List ℕ) (b : ℕ)
        → all (leb a) xs ≡ true
        → leb a b ≡ true
        → all (leb a) (xs ++ (b ∷ [])) ≡ true
    all_snoc a [] b h k = ground (arith, k)
    all_snoc a (x ∷ xs) b h k = ground (arith, all_snoc a xs b, h, k)

-- What a tracker holds for a signature whose times have been these: those in a window that has been
-- looked at, of times in order, none of which is later than now.
pub record Holds (w now : ℕ) (held times : List ℕ) : Type 0 where
  pub cutoff : ℕ
  pub cutoff_past : cutoff ≤ now
  pub sorted : is_sorted times ≡ true
  pub past : all (λ t. leb t now) times ≡ true
  pub windowed : held ≡ keep (in_window w cutoff) times

pub drop_old-eq-kept :
    (w now ts : ℕ) (held times : List ℕ)
    → now ≤ ts
    → Holds w now held times
    → drop_old w ts held ≡ keep (in_window w ts) times
drop_old-eq-kept w now ts held times l h =
    ap (drop_old w ts) h.windowed
    ∙ drop_old-keep w ts (keep (in_window w h.cutoff) times)
        (keep-sorted (in_window w h.cutoff) times h.sorted)
    ∙ keep-keep w h.cutoff ts times (omega (arith, h.cutoff_past, l))

all-le_trans :
    (now ts : ℕ) (times : List ℕ)
    → now ≤ ts
    → all (λ t. leb t now) times ≡ true
    → all (λ t. leb t ts) times ≡ true
all-le_trans now ts [] l h = refl
all-le_trans now ts (t ∷ times) l h = ground (arith, l, h, all-le_trans now ts times l)

all-le_snoc :
    (ts : ℕ) (times : List ℕ)
    → all (λ t. leb t ts) times ≡ true
    → all (λ t. leb t ts) (times ++ (ts ∷ [])) ≡ true
all-le_snoc ts [] h = ground arith
all-le_snoc ts (t ∷ times) h = ground (arith, h, all-le_snoc ts times)

pub Holds-later :
    (w now ts : ℕ) (held times : List ℕ) → now ≤ ts → Holds w now held times → Holds w ts held times
Holds-later w now ts held times l h = record {
  cutoff = h.cutoff;
  cutoff_past = omega (arith, h.cutoff_past, l);
  sorted = h.sorted;
  past = all-le_trans now ts times l h.past;
  windowed = h.windowed;
}

pub drop_old-Holds :
    (w now ts : ℕ) (held times : List ℕ)
    → now ≤ ts
    → Holds w now held times
    → Holds w ts (drop_old w ts held) times
drop_old-Holds w now ts held times l h = record {
  cutoff = ts;
  cutoff_past = omega arith;
  sorted = h.sorted;
  past = all-le_trans now ts times l h.past;
  windowed = drop_old-eq-kept w now ts held times l h;
}

pub keep_snoc :
    (w ts : ℕ) (times : List ℕ)
    → keep (in_window w ts) times ++ (ts ∷ []) ≡ keep (in_window w ts) (times ++ (ts ∷ []))
keep_snoc w ts times =
    let inside : in_window w ts ts ≡ true = ground arith in
    let alone : keep (in_window w ts) (ts ∷ []) ≡ ts ∷ [] = rw inside refl in
    sym (
      keep-append (in_window w ts) times (ts ∷ [])
      ∙ ap (λ l. keep (in_window w ts) times ++ l) alone)

pub push-Holds :
    (w now ts : ℕ) (held times : List ℕ)
    → now ≤ ts
    → Holds w now held times
    → Holds w ts (drop_old w ts held ++ (ts ∷ [])) (times ++ (ts ∷ []))
push-Holds w now ts held times l h =
    let past = all-le_trans now ts times l h.past in
    record {
      cutoff = ts;
      cutoff_past = omega arith;
      sorted = sorted_snoc times ts h.sorted past;
      past = all-le_snoc ts times past;
      windowed =
          ap (λ k. k ++ (ts ∷ [])) (drop_old-eq-kept w now ts held times l h)
          ∙ keep_snoc w ts times;
    }
