-- ===== src/Middleware/RateLimit/Burst.antt =====
-- internal/middleware/ratelmit.go: how many requests of a key are served within the length of a window.
use intelligent_odoo_dev_too.Prelude.{
  ℕ, zero, suc, ◌+◌, ◌-◌, ◌≤◌, ◌<◌, Bool, true, false, not, ◌&&◌, Option, none, some, List, [], ◌∷◌,
  ◌≡◌, refl, if◌then◌else◌, count_if, ltb, leb, ltb→lt, leb→le, arith, inl, inr, Bool-cases,
  &&-eq-true_iff,
}
use intelligent_odoo_dev_too.Prelude.Int.{ℤ, pos, negsuc, leb_ℤ}
use intelligent_odoo_dev_too.Prelude.Text.{Bytes, eqb}
use intelligent_odoo_dev_too.Middleware.RateLimit.{
  RateLimitConfig, RateLimitEntry, Answer, Entries, is_expired, new_entry, count_entry, allow_entry,
  Handled, skipped, served, rate_limited, Request, answered, Event, requested, cleaned, run,
}
use intelligent_odoo_dev_too.Middleware.RateLimit.PerKey.{of_key, run_key, ordered, of_key-run}

-- Requests that were checked and served.
abbrev pub is_served : Handled → Bool
is_served skipped = false
is_served (served a) = true
is_served (rate_limited a n) = false

-- The requests that a window serves: one even if the limit is not positive.
abbrev pub capacity : ℤ → ℕ
capacity (pos (suc n)) = suc n
capacity _ = 1

abbrev pub room : ℤ → Option RateLimitEntry → ℕ
room limit none = 0
room limit (some e) = capacity limit - e.count

-- No event is later than a time.
abbrev pub until : ℕ → List Event → Bool
until t [] = true
until t (requested q ∷ events) = leb q.at t && until t events
until t (cleaned now ∷ events) = leb now t && until t events

is_served-answered : (q : Request) (a : Answer) → is_served (answered q a) ≡ a.allowed
is_served-answered q a = elim (Bool-cases a.allowed) [ inl e ↦ rw e refl | inr e ↦ rw e refl ]

leb_ℤ-capacity : (limit : ℤ) (c : ℕ) → 1 ≤ c → leb_ℤ limit (pos c) ≡ not (ltb c (capacity limit))
leb_ℤ-capacity (pos zero) c h = ground arith
leb_ℤ-capacity (pos (suc n)) c h = ground arith
leb_ℤ-capacity (negsuc n) c h = ground arith

capacity-pos : (limit : ℤ) → 1 ≤ capacity limit
capacity-pos (pos zero) = omega arith
capacity-pos (pos (suc n)) = omega arith
capacity-pos (negsuc n) = omega arith

count_entry-free :
    (cfg : RateLimitConfig) (e : RateLimitEntry)
    → 1 ≤ e.count
    → e.count < capacity cfg.limit
    → ((count_entry cfg e).0.allowed ≡ true)
      × ((count_entry cfg e).1 ≡ record e { count = suc e.count })
count_entry-free cfg e c l =
    let full = leb_ℤ-capacity cfg.limit e.count c in
    let free : leb_ℤ cfg.limit (pos e.count) ≡ false = ground arith in rw free (refl, refl)

count_entry-full :
    (cfg : RateLimitConfig) (e : RateLimitEntry)
    → 1 ≤ e.count
    → capacity cfg.limit ≤ e.count
    → ((count_entry cfg e).0.allowed ≡ false) × ((count_entry cfg e).1 ≡ e)
count_entry-full cfg e c l =
    let full = leb_ℤ-capacity cfg.limit e.count c in
    let taken : leb_ℤ cfg.limit (pos e.count) ≡ true = ground arith in rw taken (refl, refl)

-- The entries that the limiter makes have a positive count.
abbrev pub is_counted : Option RateLimitEntry → Bool
is_counted none = true
is_counted (some e) = leb 1 e.count

module _ (cfg : RateLimitConfig) (k : Bytes) where
  -- How many requests of a window are served.
  abbrev served_in : Option RateLimitEntry → List Event → ℕ
  served_in o events = count_if is_served (run_key cfg k o events)

  served_with : Answer × RateLimitEntry → List Event → ℕ
  served_with (a, e) events = (if a.allowed then 1 else 0) + served_in (some e) events

  served_in-requested :
      (o : Option RateLimitEntry) (q : Request) (events : List Event)
      → served_in o (requested q ∷ events) ≡ (
          if eqb k q.key && not q.skip
          then served_with (allow_entry cfg q.at o) events
          else served_in o events)
  unfolding run_key served_with
  served_in-requested o q events = elim (Bool-cases (eqb k q.key)) [
    | inr other ↦ rw other refl
    | inl mine ↦ elim (Bool-cases q.skip) [
      | inl skip ↦ rw mine (rw skip refl)
      | inr check ↦
          rw mine (rw check (rw (is_served-answered q (allow_entry cfg q.at o).0) (ground arith)))
    ]
  ]

  served_with-count_entry :
      (e : RateLimitEntry) (events : List Event)
      → 1 ≤ e.count
      → served_with (count_entry cfg e) events ≡ (
          if ltb e.count (capacity cfg.limit)
          then suc (served_in (some (record e { count = suc e.count })) events)
          else served_in (some e) events)
  unfolding served_with
  served_with-count_entry e events c = elim (Bool-cases (ltb e.count (capacity cfg.limit))) [
    | inl free ↦
        let (a, b) = count_entry-free cfg e c (ltb→lt e.count (capacity cfg.limit) free) in
        rw free (rw a (rw b (omega arith)))
    | inr taken ↦
        let (a, b) = count_entry-full cfg e c (ground arith) in rw taken (rw a (rw b (omega arith)))
  ]

  -- In a window that lasts, what is served fits in what it has left.
  window-le :
      (e : RateLimitEntry) (b : ℕ) (events : List Event)
      → 1 ≤ e.count
      → b ≤ e.reset_time
      → until b events ≡ true
      → served_in (some e) events ≤ capacity cfg.limit - e.count
  unfolding run_key
  window-le e b [] c r h = omega arith
  window-le e b (cleaned now ∷ events) c r h =
      window-le e b events c r ((&&-eq-true_iff (leb now b) (until b events)).0 h).1
  window-le e b (requested q ∷ events) c r h =
      let (le, later) = (&&-eq-true_iff (leb q.at b) (until b events)).0 h in
      let ih = window-le e b events c r later in
      let next = window-le (record e { count = suc e.count }) b events (omega arith) r later in
      let lasts : is_expired q.at e ≡ false = ground arith in
      let first = served_in-requested (some e) q events in
      let counted = served_with-count_entry e events c in
      rw first (rw lasts (rw counted (ground arith)))

  served_with-new_entry :
      (at b : ℕ) (events : List Event)
      → until b events ≡ true
      → b ≤ at + cfg.window
      → served_with (new_entry cfg at) events ≤ capacity cfg.limit
  unfolding served_with
  served_with-new_entry at b events u r =
      let rest = window-le (new_entry cfg at).1 b events (omega arith) r u in
      let one = capacity-pos cfg.limit in ground arith

  burst-le :
      (o : Option RateLimitEntry) (t b : ℕ) (events : List Event)
      → is_counted o ≡ true
      → ordered t events ≡ true
      → until b events ≡ true
      → b ≤ t + cfg.window
      → served_in o events ≤ room cfg.limit o + capacity cfg.limit
  unfolding run_key
  burst-le o t b [] c h u r = omega arith
  burst-le o t b (cleaned now ∷ events) c h u r =
      let (le, later) = (&&-eq-true_iff (leb t now) (ordered now events)).0 h in
      let (_, until_b) = (&&-eq-true_iff (leb now b) (until b events)).0 u in
      let t_le = leb→le t now le in burst-le o now b events c later until_b (omega arith)
  burst-le none t b (requested q ∷ events) c h u r =
      let (le, later) = (&&-eq-true_iff (leb t q.at) (ordered q.at events)).0 h in
      let (_, until_b) = (&&-eq-true_iff (leb q.at b) (until b events)).0 u in
      let t_le = leb→le t q.at le in
      let same = burst-le none q.at b events c later until_b (omega arith) in
      let fresh = served_with-new_entry q.at b events until_b (omega arith) in
      rw (served_in-requested none q events) (ground arith)
  burst-le (some e) t b (requested q ∷ events) c h u r =
      let (le, later) = (&&-eq-true_iff (leb t q.at) (ordered q.at events)).0 h in
      let (_, until_b) = (&&-eq-true_iff (leb q.at b) (until b events)).0 u in
      let t_le = leb→le t q.at le in
      let one = leb→le 1 e.count c in
      let same = burst-le (some e) q.at b events c later until_b (omega arith) in
      let next =
        burst-le (some (record e { count = suc e.count })) q.at b events (ground arith) later
          until_b (omega arith) in
      let fresh = served_with-new_entry q.at b events until_b (omega arith) in
      let counted = served_with-count_entry e events one in
      rw (served_in-requested (some e) q events) (elim (Bool-cases (is_expired q.at e)) [
        | inl over ↦ rw over (ground arith)
        | inr lasts ↦ rw lasts (rw counted (ground arith))
      ])

-- If the times of the events do not go back, all are within the length of a window and the entry of a
-- key is none or counts a request, then of the requests of the key that are checked no more are served
-- than its entry has left and one window serves.
pub run-served :
    (cfg : RateLimitConfig) (k : Bytes) (t : ℕ) (entries : Entries) (events : List Event)
    → is_counted (entries k) ≡ true
    → ordered t events ≡ true
    → until (t + cfg.window) events ≡ true
    → count_if is_served (of_key k (run cfg entries events))
      ≤ room cfg.limit (entries k) + capacity cfg.limit
run-served cfg k t entries events c h u =
    rw (of_key-run cfg k t entries events h)
      (burst-le cfg k (entries k) t (t + cfg.window) events c h u (omega arith))
