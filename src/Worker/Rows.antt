-- ===== src/Worker/Rows.antt =====
-- internal/worker/notification.go: a poll settles each of the oldest pending rows once.
use intelligent_odoo_dev_too.Prelude.{
  ℕ, zero, suc, min, Bool, true, false, not, ◌&&◌, ◌||◌, List, [], ◌∷◌, ◌++◌, ◌≡◌, refl, sym, ap,
  ◌∙◌, keep, take, any, map, append_assoc, if◌then◌else◌, arith, inl, inr, Bool-cases, ◌==◌,
  ==_refl, &&-eq-true_iff,
}
use intelligent_odoo_dev_too.Worker.{
  Delivery, NotificationWorker, Outcome, is_registered, is_pending, set_sent, set_failed, update_id,
  dispatch, dispatch_all, deliver_pending,
}

-- No two rows have one id.
abbrev pub has : ℕ → List ℕ → Bool
has i ids = any (λ j. j == i) ids

abbrev pub distinct : List ℕ → Bool
distinct [] = true
distinct (i ∷ ids) = not (has i ids) && distinct ids

abbrev pub ids : List Delivery → List ℕ
ids table = map (λ d. d.id) table

-- What a poll does to a row that it reaches.
abbrev pub settle : NotificationWorker → (ℕ → Outcome) → Delivery → Delivery
settle w outcome d =
    if not (outcome d.id).stored
    then d
    else if is_registered d.channel_type w.dispatchers && (outcome d.id).delivered
    then set_sent d
    else set_failed d

-- The first `n` pending rows are settled.
unfoldable pub settle_first : NotificationWorker → (ℕ → Outcome) → ℕ → List Delivery → List Delivery
settle_first w outcome n [] = []
settle_first w outcome zero (d ∷ table) = d ∷ table
settle_first w outcome (suc n) (d ∷ table) =
    let done = settle w outcome d ∷ settle_first w outcome n table in
    let rest = d ∷ settle_first w outcome (suc n) table in if is_pending d then done else rest

pub id-settle :
    (w : NotificationWorker) (outcome : ℕ → Outcome) (d : Delivery) → (settle w outcome d).id ≡ d.id
id-settle w outcome d = elim (Bool-cases (outcome d.id).stored) [
  | inl s ↦
      elim (Bool-cases (is_registered d.channel_type w.dispatchers && (outcome d.id).delivered)) [
        | inl k ↦ rw s (rw k refl)
        | inr k ↦ rw s (rw k refl)
      ]
  | inr s ↦ rw s refl
]

has-middle :
    (i : ℕ) (xs : List Delivery) (d : Delivery) (ys : List Delivery)
    → has i (ids (xs ++ (d ∷ ys))) ≡ (has i (ids xs) || (d.id == i) || has i (ids ys))
has-middle i [] d ys = refl
has-middle i (x ∷ xs) d ys = ground (arith, has-middle i xs d ys)

distinct-middle :
    (xs : List Delivery) (d : Delivery) (ys : List Delivery)
    → distinct (ids (xs ++ (d ∷ ys))) ≡ true
    → (has d.id (ids xs) ≡ false) × (has d.id (ids ys) ≡ false)
distinct-middle [] d ys h = (refl, ground arith)
distinct-middle (x ∷ xs) d ys h =
    let (apart, rest) = (&&-eq-true_iff _ _).0 h in
    let (l, r) = distinct-middle xs d ys rest in
    let there = has-middle x.id xs d ys in (ground arith, r)

module _ (change : Delivery → Delivery) (i : ℕ) where
  update_id-append :
      (xs ys : List Delivery)
      → update_id change i (xs ++ ys) ≡ update_id change i xs ++ update_id change i ys
  unfolding update_id
  update_id-append [] ys = refl
  update_id-append (x ∷ xs) ys = ground (arith, update_id-append xs ys)

  update_id-absent : (xs : List Delivery) → has i (ids xs) ≡ false → update_id change i xs ≡ xs
  unfolding update_id
  update_id-absent [] h = refl
  update_id-absent (x ∷ xs) h = ground (arith, update_id-absent xs)

update_id-middle :
    (change : Delivery → Delivery) (xs : List Delivery) (d : Delivery) (ys : List Delivery)
    → distinct (ids (xs ++ (d ∷ ys))) ≡ true
    → update_id change d.id (xs ++ (d ∷ ys)) ≡ xs ++ (change d ∷ ys)
unfolding update_id
update_id-middle change xs d ys h =
    let (l, r) = distinct-middle xs d ys h in
    rw (update_id-append change d.id xs (d ∷ ys)) (
      rw (update_id-absent change d.id xs l)
        (rw (==_refl d.id) (rw (update_id-absent change d.id ys r) refl)))

dispatch-middle :
    (w : NotificationWorker) (outcome : ℕ → Outcome) (xs : List Delivery) (d : Delivery)
    (ys : List Delivery)
    → distinct (ids (xs ++ (d ∷ ys))) ≡ true
    → dispatch w outcome d (xs ++ (d ∷ ys)) ≡ xs ++ (settle w outcome d ∷ ys)
unfolding dispatch
dispatch-middle w outcome xs d ys h = elim (Bool-cases (outcome d.id).stored) [
  | inl s ↦
      elim (Bool-cases (is_registered d.channel_type w.dispatchers && (outcome d.id).delivered)) [
        | inl k ↦ rw s (rw k (update_id-middle set_sent xs d ys h))
        | inr k ↦ rw s (rw k (update_id-middle set_failed xs d ys h))
      ]
  | inr s ↦ rw s refl
]

ids-middle :
    (xs : List Delivery) (d e : Delivery) (ys : List Delivery)
    → e.id ≡ d.id
    → ids (xs ++ (e ∷ ys)) ≡ ids (xs ++ (d ∷ ys))
ids-middle [] d e ys h = ap (λ i. i ∷ ids ys) h
ids-middle (x ∷ xs) d e ys h = ap (λ is. x.id ∷ is) (ids-middle xs d e ys h)

dispatch_all-settle_first :
    (w : NotificationWorker) (outcome : ℕ → Outcome) (n : ℕ) (table done : List Delivery)
    → distinct (ids (done ++ table)) ≡ true
    → dispatch_all w outcome (take n (keep is_pending table)) (done ++ table)
      ≡ done ++ settle_first w outcome n table
unfolding dispatch_all settle_first
dispatch_all-settle_first w outcome zero [] done h = refl
dispatch_all-settle_first w outcome (suc n) [] done h = refl
dispatch_all-settle_first w outcome zero (d ∷ table) done h = refl
dispatch_all-settle_first w outcome (suc n) (d ∷ table) done h = elim (Bool-cases (is_pending d)) [
  | inl e ↦
      let now = settle w outcome d in
      let one = dispatch-middle w outcome done d table h in
      let same : ids (done ++ (now ∷ table)) ≡ ids (done ++ (d ∷ table)) =
        ids-middle done d now table (id-settle w outcome d) in
      let assoc = append_assoc done (now ∷ []) table in
      let h' : distinct (ids ((done ++ (now ∷ [])) ++ table)) ≡ true =
        ap (λ t. distinct (ids t)) assoc ∙ ap distinct same ∙ h in
      rw e (
        ap (dispatch_all w outcome (take n (keep is_pending table))) (one ∙ sym assoc)
        ∙ dispatch_all-settle_first w outcome n table (done ++ (now ∷ [])) h'
        ∙ append_assoc done (now ∷ []) (settle_first w outcome n table))
  | inr e ↦
      let assoc = append_assoc done (d ∷ []) table in
      let h' : distinct (ids ((done ++ (d ∷ [])) ++ table)) ≡ true =
        ap (λ t. distinct (ids t)) assoc ∙ h in
      rw e (
        ap (dispatch_all w outcome (take (suc n) (keep is_pending table))) (sym assoc)
        ∙ dispatch_all-settle_first w outcome (suc n) table (done ++ (d ∷ [])) h'
        ∙ append_assoc done (d ∷ []) (settle_first w outcome (suc n) table))
]

take-take : {A : Type 0} (m n : ℕ) (xs : List A) → take m (take n xs) ≡ take (min m n) xs
take-take zero n xs = let e : min 0 n ≡ 0 = omega arith in rw e refl
take-take (suc m) zero xs = let e : min (suc m) 0 ≡ 0 = omega arith in rw e refl
take-take (suc m) (suc n) [] =
    let e : min (suc m) (suc n) ≡ suc (min m n) = omega arith in rw e refl
take-take (suc m) (suc n) (x ∷ xs) =
    let e : min (suc m) (suc n) ≡ suc (min m n) = omega arith in
    rw e (ap (λ ys. x ∷ ys) (take-take m n xs))

-- If the ids of a table are distinct and the query succeeds, then a poll settles once each of the
-- first pending rows, as many as the batch size and the rows reached allow, and changes no other.
pub deliver_pending-settle_first :
    (w : NotificationWorker) (reached : ℕ) (outcome : ℕ → Outcome) (table : List Delivery)
    → distinct (ids table) ≡ true
    → deliver_pending w true reached outcome table
      ≡ settle_first w outcome (min reached w.batch_size) table
unfolding deliver_pending
deliver_pending-settle_first w reached outcome table h =
    rw (take-take reached w.batch_size (keep is_pending table))
      (dispatch_all-settle_first w outcome (min reached w.batch_size) table [] h)
