-- ===== src/Worker/Drain.antt =====
-- internal/worker/notification.go: polls without errors send everything that waits, if its channel
-- types are registered.
use intelligent_odoo_dev_too.Prelude.{
  ℕ, zero, suc, ◌+◌, ◌*◌, ◌-◌, ◌≤◌, min, Bool, true, not, ◌||◌, List, [], ◌∷◌, ◌≡◌, refl, ap, ◌∙◌,
  all, count_if, replicate, arith, inl, inr, Bool-cases, &&-eq-true_iff,
}
use intelligent_odoo_dev_too.Prelude.Text.{Bytes, eqb, eqb_iff}
use intelligent_odoo_dev_too.Worker.{
  Delivery, NotificationConfig, NotificationWorker, new_notification_worker, register, register_all,
  is_registered, built_in, Outcome, is_pending, set_sent, Step, polled, run,
}
use intelligent_odoo_dev_too.Worker.Rows.{
  distinct, ids, settle, settle_first, deliver_pending-settle_first,
}
use intelligent_odoo_dev_too.Worker.Attempts.{is_sent, ids-settle_first}

is_registered-register :
    (c channel : Bytes) (cs : List Bytes)
    → is_registered c (register channel cs) ≡ (eqb channel c || is_registered c cs)
unfolding register
is_registered-register c channel [] = refl
is_registered-register c channel (x ∷ cs) = elim (Bool-cases (eqb x channel)) [
  | inl e ↦
      let same : x ≡ channel = (eqb_iff x channel).0 e in
      let b = ap (λ t. eqb t c) same in rw e (ground arith)
  | inr e ↦ let ih = is_registered-register c channel cs in rw e (ground arith)
]

is_registered-register_all :
    (c : Bytes) (channels cs : List Bytes)
    → is_registered c (register_all channels cs) ≡ (is_registered c channels || is_registered c cs)
unfolding register_all
is_registered-register_all c [] cs = refl
is_registered-register_all c (x ∷ channels) cs =
    let ih = is_registered-register_all c channels (register x cs) in
    let one = is_registered-register c x cs in ground arith

-- The channel type of a row that waits has a dispatcher.
abbrev waits_for : (Bytes → Bool) → Delivery → Bool
waits_for known d = not (is_pending d) || known d.channel_type

module _ (w : NotificationWorker) (outcome : ℕ → Outcome)
    (stored : (i : ℕ) → (outcome i).stored ≡ true)
    (delivered : (i : ℕ) → (outcome i).delivered ≡ true) where
  abbrev Reaches : List Delivery → Type 0
  Reaches table = all (waits_for (λ c. is_registered c w.dispatchers)) table ≡ true

  settle-set_sent :
      (d : Delivery)
      → is_registered d.channel_type w.dispatchers ≡ true
      → settle w outcome d ≡ set_sent d
  settle-set_sent d known = rw (stored d.id) (rw known (rw (delivered d.id) refl))

  head-known :
      (d : Delivery) (table : List Delivery)
      → Reaches (d ∷ table)
      → is_pending d ≡ true
      → is_registered d.channel_type w.dispatchers ≡ true
  head-known d table h p =
      let here : waits_for (λ c. is_registered c w.dispatchers) d ≡ true =
        ((&&-eq-true_iff _ _).0 h).0 in
      ground arith

  tail-Reaches : (d : Delivery) (table : List Delivery) → Reaches (d ∷ table) → Reaches table
  tail-Reaches d table h = ((&&-eq-true_iff _ _).0 h).1

  settle_first-Reaches :
      (n : ℕ) (table : List Delivery) → Reaches table → Reaches (settle_first w outcome n table)
  unfolding settle_first
  settle_first-Reaches n [] h = h
  settle_first-Reaches zero (d ∷ table) h = h
  settle_first-Reaches (suc n) (d ∷ table) h = elim (Bool-cases (is_pending d)) [
    | inl p ↦ rw p (
        rw (settle-set_sent d (head-known d table h p))
          (settle_first-Reaches n table (tail-Reaches d table h)))
    | inr p ↦ rw p (
        (&&-eq-true_iff _ _).1 (
          ((&&-eq-true_iff _ _).0 h).0,
          settle_first-Reaches (suc n) table (tail-Reaches d table h),
        ))
  ]

  count-settle_first :
      (n : ℕ) (table : List Delivery)
      → Reaches table
      → (count_if is_pending (settle_first w outcome n table) ≡ count_if is_pending table - n)
        × (count_if is_sent (settle_first w outcome n table)
            ≡ count_if is_sent table + min n (count_if is_pending table))
  unfolding settle_first
  count-settle_first n [] h = (omega arith, omega arith)
  count-settle_first zero (d ∷ table) h = (omega arith, omega arith)
  count-settle_first (suc n) (d ∷ table) h = elim (Bool-cases (is_pending d)) [
    | inl p ↦
        let (a, b) = count-settle_first n table (tail-Reaches d table h) in
        let done = settle-set_sent d (head-known d table h p) in rw p (rw done (ground arith))
    | inr p ↦
        let (a, b) = count-settle_first (suc n) table (tail-Reaches d table h) in
        rw p (ground arith)
  ]

  run-polled :
      (reached : ℕ) (steps : List Step) (table : List Delivery)
      → distinct (ids table) ≡ true
      → run w (polled true reached outcome ∷ steps) table
        ≡ run w steps (settle_first w outcome (min reached w.batch_size) table)
  unfolding run
  run-polled reached steps table u =
      ap (run w steps) (deliver_pending-settle_first w reached outcome table u)

  abbrev AllSent : ℕ → ℕ → List Delivery → Type 0
  AllSent reached k table =
      (count_if is_pending (run w (replicate k (polled true reached outcome)) table) ≡ 0)
      × (count_if is_sent (run w (replicate k (polled true reached outcome)) table)
          ≡ count_if is_sent table + count_if is_pending table)

  run-AllSent :
      (reached k : ℕ) (table : List Delivery)
      → distinct (ids table) ≡ true
      → Reaches table
      → w.batch_size ≤ reached
      → count_if is_pending table ≤ k * w.batch_size
      → AllSent reached k table
  unfolding run
  run-AllSent reached zero table u known r h = (omega arith, omega arith)
  run-AllSent reached (suc k) table u known r h =
      let n = min reached w.batch_size in
      let more : suc k * w.batch_size ≡ w.batch_size + k * w.batch_size = omega arith in
      let (a, b) = count-settle_first n table known in
      let u' : distinct (ids (settle_first w outcome n table)) ≡ true =
        ap distinct (ids-settle_first w outcome n table) ∙ u in
      let (c, d) =
        run-AllSent reached k (settle_first w outcome n table) u'
          (settle_first-Reaches n table known) r (omega arith) in
      rw (run-polled reached (replicate k (polled true reached outcome)) table u) (c, omega arith)

is_registered-new_notification_worker :
    (cfg : NotificationConfig) (extra : List Bytes) (c : Bytes)
    → is_registered c (new_notification_worker cfg extra).dispatchers
      ≡ (is_registered c extra || is_registered c built_in)
unfolding new_notification_worker
is_registered-new_notification_worker cfg extra c =
    let a = is_registered-register_all c extra (register_all built_in []) in
    let b = is_registered-register_all c built_in [] in ground arith

new_notification_worker-Reaches :
    (cfg : NotificationConfig) (extra : List Bytes) (table : List Delivery)
    → all (waits_for (λ c. is_registered c extra || is_registered c built_in)) table ≡ true
    → all (waits_for (λ c. is_registered c (new_notification_worker cfg extra).dispatchers)) table
      ≡ true
new_notification_worker-Reaches cfg extra [] h = refl
new_notification_worker-Reaches cfg extra (d ∷ table) h =
    rw (is_registered-new_notification_worker cfg extra d.channel_type) (
      (&&-eq-true_iff _ _).1 (
        ((&&-eq-true_iff _ _).0 h).0,
        new_notification_worker-Reaches cfg extra table ((&&-eq-true_iff _ _).0 h).1,
      ))

-- Take a worker that `NewNotificationWorker` makes and a table with distinct ids, whose waiting rows
-- have a channel type that is built in ("slack", "webhook", "email") or that of an extra dispatcher.
-- If the query of every poll succeeds, every poll reaches its whole batch, every `Send` succeeds and
-- the store takes every update, and `k` batches hold all the rows that wait, then after `k` polls no
-- row waits, and those that waited are sent.
pub run-sends_all :
    (cfg : NotificationConfig) (extra : List Bytes) (outcome : ℕ → Outcome) (reached k : ℕ)
    (table : List Delivery)
    → ((i : ℕ) → (outcome i).delivered ≡ true)
    → ((i : ℕ) → (outcome i).stored ≡ true)
    → distinct (ids table) ≡ true
    → all (waits_for (λ c. is_registered c extra || is_registered c built_in)) table ≡ true
    → (new_notification_worker cfg extra).batch_size ≤ reached
    → count_if is_pending table ≤ k * (new_notification_worker cfg extra).batch_size
    → (let left =
          run
            (new_notification_worker cfg extra)
            (replicate k (polled true reached outcome))
            table in
        (count_if is_pending left ≡ 0)
        × (count_if is_sent left ≡ count_if is_sent table + count_if is_pending table))
run-sends_all cfg extra outcome reached k table delivered stored u known r h =
    run-AllSent (new_notification_worker cfg extra) outcome stored delivered reached k table u
      (new_notification_worker-Reaches cfg extra table known) r h
