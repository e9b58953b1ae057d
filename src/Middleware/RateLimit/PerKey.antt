-- ===== src/Middleware/RateLimit/PerKey.antt =====
-- internal/middleware/ratelmit.go: what a key gets depends on its own requests alone.
use intelligent_odoo_dev_too.Prelude.{
  ℕ, ◌≤◌, ◌<◌, Bool, true, false, not, ◌&&◌, Option, none, some, List, [], ◌∷◌, ◌≡◌, refl, sym, ap,
  ap₂, ◌∙◌, if◌then◌else◌, leb, leb→le, lt→ltb, arith, inl, inr, Bool-cases, &&-eq-true_iff,
}
use intelligent_odoo_dev_too.Prelude.Text.{Bytes, eqb, eqb_iff}
use intelligent_odoo_dev_too.Middleware.RateLimit.{
  RateLimitConfig, RateLimitEntry, Entries, is_expired, allow_entry, allow, unless_expired, cleanup,
  Handled, skipped, answered, Event, requested, cleaned, run,
}

-- The results of one key.
abbrev pub of_key : Bytes → List (Bytes × Handled) → List Handled
of_key k [] = []
of_key k ((key, h) ∷ results) = let rest = of_key k results in if eqb k key then h ∷ rest else rest

-- A window of one key: the requests of other keys and the ticks pass it by.
unfoldable pub run_key : RateLimitConfig → Bytes → Option RateLimitEntry → List Event → List Handled
run_key cfg k o [] = []
run_key cfg k o (cleaned now ∷ events) = run_key cfg k o events
run_key cfg k o (requested q ∷ events) =
    let (answer, e) = allow_entry cfg q.at o in
    let rest = run_key cfg k (if eqb k q.key && not q.skip then some e else o) events in
    if eqb k q.key then (if q.skip then skipped else answered q answer) ∷ rest else rest

-- The times of the events do not go back, from a time on.
abbrev pub ordered : ℕ → List Event → Bool
ordered t [] = true
ordered t (requested q ∷ events) = leb t q.at && ordered q.at events
ordered t (cleaned now ∷ events) = leb t now && ordered now events

-- The entry of a key in the map, and in its window: an expired one may have been cleaned up.
data Agrees (t : ℕ) : Option RateLimitEntry → Option RateLimitEntry → Type 0 where
  kept : {o : _} → Agrees t o o
  dropped : {e : RateLimitEntry} → e.reset_time < t → Agrees t none (some e)

Agrees-later : {t u : ℕ} {o p : _} → t ≤ u → Agrees t o p → Agrees u o p
Agrees-later h kept = kept
Agrees-later h (dropped l) = dropped (omega arith)

Agrees-unless_expired : {t : ℕ} {o p : _} → Agrees t o p → Agrees t (unless_expired t o) p
Agrees-unless_expired {o = none} kept = kept
Agrees-unless_expired {t = t} {o = some e} kept = elim (Bool-cases (is_expired t e)) [
  | inl x ↦ rw x (dropped (ground arith))
  | inr x ↦ rw x kept
]
Agrees-unless_expired (dropped l) = dropped l

allow_entry-Agrees :
    {t : ℕ} {o p : _} (cfg : RateLimitConfig)
    → Agrees t o p
    → allow_entry cfg t o ≡ allow_entry cfg t p
allow_entry-Agrees cfg kept = refl
allow_entry-Agrees {t = t} cfg (dropped {e = e} l) = rw (lt→ltb e.reset_time t l) refl

allow-same_key :
    (cfg : RateLimitConfig) (now : ℕ) (k key : Bytes) (entries : Entries)
    → eqb k key ≡ true
    → (allow cfg now key entries).1 k ≡ some (allow_entry cfg now (entries key)).1
unfolding allow
allow-same_key cfg now k key entries e = rw e refl

allow-other_key :
    (cfg : RateLimitConfig) (now : ℕ) (k key : Bytes) (entries : Entries)
    → eqb k key ≡ false
    → (allow cfg now key entries).1 k ≡ entries k
unfolding allow
allow-other_key cfg now k key entries e = rw e refl

run-run_key :
    (cfg : RateLimitConfig) (k : Bytes) (t : ℕ) (entries : Entries) (o : Option RateLimitEntry)
    (events : List Event)
    → Agrees t (entries k) o
    → ordered t events ≡ true
    → of_key k (run cfg entries events) ≡ run_key cfg k o events
unfolding run run_key
run-run_key cfg k t entries o [] a h = refl
run-run_key cfg k t entries o (cleaned now ∷ events) a h =
    let (le, later) = (&&-eq-true_iff (leb t now) (ordered now events)).0 h in
    run-run_key cfg k now (cleanup now entries) o events
      (Agrees-unless_expired (Agrees-later (leb→le t now le) a)) later
run-run_key cfg k t entries o (requested q ∷ events) a h =
    let (le, later) = (&&-eq-true_iff (leb t q.at) (ordered q.at events)).0 h in
    let a' : Agrees q.at (entries k) o = Agrees-later (leb→le t q.at le) a in
    elim (Bool-cases q.skip) [
      | inl skip ↦ elim (Bool-cases (eqb k q.key)) [
        | inl mine ↦
            rw mine
              (rw skip (ap (λ r. skipped ∷ r) (run-run_key cfg k q.at entries o events a' later)))
        | inr other ↦ rw other (rw skip (run-run_key cfg k q.at entries o events a' later))
      ]
      | inr check ↦ elim (Bool-cases (eqb k q.key)) [
        | inl mine ↦
            let same : k ≡ q.key = (eqb_iff k q.key).0 mine in
            let step : allow_entry cfg q.at (entries q.key) ≡ allow_entry cfg q.at o =
              ap (λ j. allow_entry cfg q.at (entries j)) (sym same) ∙ allow_entry-Agrees cfg a' in
            let now : Agrees q.at ((allow cfg q.at q.key entries).1 k)
                (some (allow_entry cfg q.at o).1) =
              rw (allow-same_key cfg q.at k q.key entries mine) (rw step kept) in
            rw mine (
              rw check (
                ap₂ (λ x r. answered q x.0 ∷ r) step
                  (run-run_key cfg k q.at (allow cfg q.at q.key entries).1
                    (some (allow_entry cfg q.at o).1) events now later)))
        | inr other ↦
            let now : Agrees q.at ((allow cfg q.at q.key entries).1 k) o =
              rw (allow-other_key cfg q.at k q.key entries other) a' in
            rw other (
              rw check (run-run_key cfg k q.at (allow cfg q.at q.key entries).1 o events now later))
      ]
    ]

-- If the times of the events do not go back, then what a key gets depends on its own entry and requests
-- alone: the requests of other keys and the ticks of `cleanup` do not change it.
pub of_key-run :
    (cfg : RateLimitConfig) (k : Bytes) (t : ℕ) (entries : Entries) (events : List Event)
    → ordered t events ≡ true
    → of_key k (run cfg entries events) ≡ run_key cfg k (entries k) events
of_key-run cfg k t entries events h = run-run_key cfg k t entries (entries k) events kept h
