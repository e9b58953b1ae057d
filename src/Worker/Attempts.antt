-- ===== src/Worker/Attempts.antt =====
-- internal/worker/notification.go: what every run keeps of the attempts and of what is sent.
use intelligent_odoo_dev_too.Prelude.{
  ℕ, zero, suc, min, Bool, true, false, ◌&&◌, ◌||◌, List, [], ◌∷◌, ◌++◌, ◌≡◌, refl, sym, ap, ap₂,
  ◌∙◌, any, all, arith, inl, inr, Bool-cases, ◌==◌, &&-eq-true_iff, any-append, ltb, leb,
}
use intelligent_odoo_dev_too.Worker.{
  Delivery, pending, sent, failed, NotificationWorker, Outcome, is_pending, deliver_pending,
  retries, retry_failed_deliveries, reset_retryable, new_delivery, create_alert_delivery, Step,
  polled, retried, created, step, run,
}
use intelligent_odoo_dev_too.Worker.Rows.{
  has, distinct, ids, settle, settle_first, id-settle, deliver_pending-settle_first,
}

-- The bound on the attempts of a row: a new row starts with one.
abbrev pub within : ℕ → Delivery → Bool
within m d = elim d.status [
  | pending ↦ leb d.attempt 1 || ltb d.attempt m
  | sent ↦ leb d.attempt 1 || ltb d.attempt m
  | failed ↦ leb d.attempt 2 || leb d.attempt m
]

abbrev pub is_sent : Delivery → Bool
is_sent d = elim d.status [ pending ↦ false | sent ↦ true | failed ↦ false ]

abbrev pub sent_row : ℕ → Delivery → Bool
sent_row i d = (d.id == i) && is_sent d

-- What every run keeps: distinct ids and bounded attempts.
pub record Kept (m : ℕ) (table : List Delivery) : Type 0 where
  pub unique : distinct (ids table) ≡ true
  pub bounded : all (within m) table ≡ true

||-true : (b : Bool) → (b || true) ≡ true
||-true b = ground arith

settle-within :
    (w : NotificationWorker) (outcome : ℕ → Outcome) (m : ℕ) (d : Delivery)
    → is_pending d ≡ true
    → within m d ≡ true
    → within m (settle w outcome d) ≡ true
settle-within w outcome m d p h = ground arith

pub ids-settle_first :
    (w : NotificationWorker) (outcome : ℕ → Outcome) (n : ℕ) (table : List Delivery)
    → ids (settle_first w outcome n table) ≡ ids table
unfolding settle_first
ids-settle_first w outcome n [] = refl
ids-settle_first w outcome zero (d ∷ table) = refl
ids-settle_first w outcome (suc n) (d ∷ table) = elim (Bool-cases (is_pending d)) [
  | inl p ↦ rw p (ap₂ (λ i is. i ∷ is) (id-settle w outcome d) (ids-settle_first w outcome n table))
  | inr p ↦ rw p (ap (λ is. d.id ∷ is) (ids-settle_first w outcome (suc n) table))
]

settle_first-within :
    (w : NotificationWorker) (outcome : ℕ → Outcome) (m n : ℕ) (table : List Delivery)
    → all (within m) table ≡ true
    → all (within m) (settle_first w outcome n table) ≡ true
unfolding settle_first
settle_first-within w outcome m n [] h = refl
settle_first-within w outcome m zero (d ∷ table) h = h
settle_first-within w outcome m (suc n) (d ∷ table) h =
    let (here, there) = (&&-eq-true_iff (within m d) (all (within m) table)).0 h in
    elim (Bool-cases (is_pending d)) [
      | inl p ↦
          rw p (
            rw (settle-within w outcome m d p here) (settle_first-within w outcome m n table there))
      | inr p ↦ rw p (rw here (settle_first-within w outcome m (suc n) table there))
    ]

settle_first-sent_row :
    (w : NotificationWorker) (outcome : ℕ → Outcome) (i n : ℕ) (table : List Delivery)
    → any (sent_row i) table ≡ true
    → any (sent_row i) (settle_first w outcome n table) ≡ true
unfolding settle_first
settle_first-sent_row w outcome i n [] h = h
settle_first-sent_row w outcome i zero (d ∷ table) h = h
settle_first-sent_row w outcome i (suc n) (d ∷ table) h = elim (Bool-cases (is_pending d)) [
  | inl p ↦
      let other : any (sent_row i) table ≡ true = ground arith in
      let rest = settle_first-sent_row w outcome i n table other in
      rw p (rw rest (||-true (sent_row i (settle w outcome d))))
  | inr p ↦ rw p (ground (arith, settle_first-sent_row w outcome i (suc n) table))
]

retry-within :
    (m now : ℕ) (d : Delivery)
    → within m d ≡ true
    → retries m now d ≡ true
    → within m (record d { status = pending }) ≡ true
retry-within m now d h r = ground arith

ids-retry_failed_deliveries :
    (m now : ℕ) (table : List Delivery) → ids (retry_failed_deliveries m now table) ≡ ids table
unfolding retry_failed_deliveries
ids-retry_failed_deliveries m now [] = refl
ids-retry_failed_deliveries m now (d ∷ table) = elim (Bool-cases (retries m now d)) [
  | inl r ↦ rw r (ap (λ is. d.id ∷ is) (ids-retry_failed_deliveries m now table))
  | inr r ↦ rw r (ap (λ is. d.id ∷ is) (ids-retry_failed_deliveries m now table))
]

retry_failed_deliveries-within :
    (m now : ℕ) (table : List Delivery)
    → all (within m) table ≡ true
    → all (within m) (retry_failed_deliveries m now table) ≡ true
unfolding retry_failed_deliveries
retry_failed_deliveries-within m now [] h = refl
retry_failed_deliveries-within m now (d ∷ table) h =
    let (here, there) = (&&-eq-true_iff (within m d) (all (within m) table)).0 h in
    elim (Bool-cases (retries m now d)) [
      | inl r ↦
          rw r (rw (retry-within m now d here r) (retry_failed_deliveries-within m now table there))
      | inr r ↦ rw r (rw here (retry_failed_deliveries-within m now table there))
    ]

retry_failed_deliveries-sent_row :
    (m now i : ℕ) (table : List Delivery)
    → any (sent_row i) table ≡ true
    → any (sent_row i) (retry_failed_deliveries m now table) ≡ true
unfolding retry_failed_deliveries
retry_failed_deliveries-sent_row m now i [] h = h
retry_failed_deliveries-sent_row m now i (d ∷ table) h = elim (Bool-cases (retries m now d)) [
  | inl r ↦
      let other : any (sent_row i) table ≡ true = ground arith in
      rw r (ground (arith, retry_failed_deliveries-sent_row m now i table other))
  | inr r ↦ rw r (ground (arith, retry_failed_deliveries-sent_row m now i table))
]

-- A new row, whose id is not taken.
distinct-snoc :
    (is : List ℕ) (i : ℕ) → distinct is ≡ true → has i is ≡ false → distinct (is ++ (i ∷ [])) ≡ true
distinct-snoc [] i h a = refl
distinct-snoc (j ∷ is) i h a =
    let apart : has j (is ++ (i ∷ [])) ≡ (has j is || ((i == j) || false)) =
      any-append (λ k. k == j) is (i ∷ []) in
    ground (arith, distinct-snoc is i)

ids-snoc :
    (table : List Delivery) (d : Delivery) → ids (table ++ (d ∷ [])) ≡ ids table ++ (d.id ∷ [])
ids-snoc [] d = refl
ids-snoc (x ∷ table) d = ap (λ is. x.id ∷ is) (ids-snoc table d)

has-ids : (i : ℕ) (table : List Delivery) → any (λ d. d.id == i) table ≡ has i (ids table)
has-ids i [] = refl
has-ids i (d ∷ table) = ap (λ b. (d.id == i) || b) (has-ids i table)

all-append :
    (p : Delivery → Bool) (xs ys : List Delivery) → all p (xs ++ ys) ≡ (all p xs && all p ys)
all-append p [] ys = refl
all-append p (x ∷ xs) ys = ground (arith, all-append p xs ys)

step-Kept :
    (w : NotificationWorker) (s : Step) (table : List Delivery)
    → Kept w.max_attempts table
    → Kept w.max_attempts (step w s table)
unfolding deliver_pending reset_retryable create_alert_delivery
step-Kept w (polled true reached outcome) table k =
    let n = min reached w.batch_size in
    rw (deliver_pending-settle_first w reached outcome table k.unique) (record {
      unique = ap distinct (ids-settle_first w outcome n table) ∙ k.unique;
      bounded = settle_first-within w outcome w.max_attempts n table k.bounded;
    })
step-Kept w (polled false reached outcome) table k = k
step-Kept w (retried true now) table k = record {
  unique = ap distinct (ids-retry_failed_deliveries w.max_attempts now table) ∙ k.unique;
  bounded = retry_failed_deliveries-within w.max_attempts now table k.bounded;
}
step-Kept w (retried false now) table k = k
step-Kept w (created i channel now) table k = elim (Bool-cases (any (λ d. d.id == i) table)) [
  | inl taken ↦ rw taken k
  | inr free ↦ rw free (record {
    unique =
        ap distinct (ids-snoc table (new_delivery i channel now))
        ∙ distinct-snoc (ids table) i k.unique (sym (has-ids i table) ∙ free);
    bounded = all-append (within w.max_attempts) table _ ∙ rw k.bounded refl;
  })
]

step-sent_row :
    (w : NotificationWorker) (s : Step) (i : ℕ) (table : List Delivery)
    → distinct (ids table) ≡ true
    → any (sent_row i) table ≡ true
    → any (sent_row i) (step w s table) ≡ true
unfolding deliver_pending reset_retryable create_alert_delivery
step-sent_row w (polled true reached outcome) i table u h =
    rw (deliver_pending-settle_first w reached outcome table u)
      (settle_first-sent_row w outcome i (min reached w.batch_size) table h)
step-sent_row w (polled false reached outcome) i table u h = h
step-sent_row w (retried true now) i table u h =
    retry_failed_deliveries-sent_row w.max_attempts now i table h
step-sent_row w (retried false now) i table u h = h
step-sent_row w (created j channel now) i table u h =
    elim (Bool-cases (any (λ d. d.id == j) table)) [
      | inl taken ↦ rw taken h
      | inr free ↦ rw free (any-append (sent_row i) table _ ∙ rw h refl)
    ]

-- If the ids of a table are distinct and its attempts within the bounds, then so they are after every
-- run: a row that waits is new or has had fewer attempts than the maximum counts.
pub run-Kept :
    (w : NotificationWorker) (steps : List Step) (table : List Delivery)
    → Kept w.max_attempts table
    → Kept w.max_attempts (run w steps table)
unfolding run
run-Kept w [] table k = k
run-Kept w (s ∷ steps) table k = run-Kept w steps (step w s table) (step-Kept w s table k)

-- If the ids of a table are distinct and its attempts within the bounds, then a row that is sent is
-- sent after every run.
pub run-sent_row :
    (w : NotificationWorker) (steps : List Step) (i : ℕ) (table : List Delivery)
    → Kept w.max_attempts table
    → any (sent_row i) table ≡ true
    → any (sent_row i) (run w steps table) ≡ true
unfolding run
run-sent_row w [] i table k h = h
run-sent_row w (s ∷ steps) i table k h =
    run-sent_row w steps i (step w s table) (step-Kept w s table k)
      (step-sent_row w s i table k.unique h)
