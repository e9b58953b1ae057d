-- ===== src/Middleware/RateLimit.antt =====
-- internal/middleware/ratelmit.go: the limiter in memory and the handler around it. Times and durations are
-- nanoseconds; the map of entries is a function, and each operation, which holds the mutex, is one
-- step.
use intelligent_odoo_dev_too.Prelude.{
  ℕ, suc, ◌+◌, ◌-◌, ◌/◌, Bool, true, false, Option, none, some, List, [], ◌∷◌, if◌then◌else◌, ltb,
}
use intelligent_odoo_dev_too.Prelude.Int.{ℤ, pos, negsuc, add64, leb_ℤ}
use intelligent_odoo_dev_too.Prelude.Text.{Bytes, eqb}
pub mod PerKey
pub mod Burst

-- `RateLimitConfig` without its functions and header names.
pub record RateLimitConfig : Type 0 where
  pub limit : ℤ
  pub window : ℕ

-- `rateLimitEntry`, and the answer of `Allow`.
pub record RateLimitEntry : Type 0 where
  pub count : ℕ
  pub reset_time : ℕ

pub record Answer : Type 0 where
  pub allowed : Bool
  pub remaining : ℤ
  pub reset_time : ℕ

-- `InMemoryRateLimiter.entries`.
abbrev pub Entries : Type 0
Entries = Bytes → Option RateLimitEntry

abbrev pub set_entry : Bytes → RateLimitEntry → Entries → Entries
set_entry key e entries k = if eqb k key then some e else entries k

abbrev pub is_expired : ℕ → RateLimitEntry → Bool
is_expired now e = ltb e.reset_time now

-- `Allow`, on the entry of the key.
abbrev pub new_entry : RateLimitConfig → ℕ → Answer × RateLimitEntry
new_entry cfg now = (
  record { allowed = true; remaining = add64 cfg.limit (negsuc 0); reset_time = now + cfg.window },
  record { count = 1; reset_time = now + cfg.window },
)

abbrev pub count_entry : RateLimitConfig → RateLimitEntry → Answer × RateLimitEntry
count_entry cfg e =
    if leb_ℤ cfg.limit (pos e.count)
    then (record { allowed = false; remaining = pos 0; reset_time = e.reset_time }, e)
    else (
      record {
        allowed = true;
        remaining = add64 cfg.limit (negsuc e.count);
        reset_time = e.reset_time;
      },
      record e { count = suc e.count },
    )

abbrev pub allow_entry : RateLimitConfig → ℕ → Option RateLimitEntry → Answer × RateLimitEntry
allow_entry cfg now none = new_entry cfg now
allow_entry cfg now (some e) = if is_expired now e then new_entry cfg now else count_entry cfg e

unfoldable pub allow : RateLimitConfig → ℕ → Bytes → Entries → Answer × Entries
allow cfg now key entries =
    let (answer, e) = allow_entry cfg now (entries key) in (answer, set_entry key e entries)

-- `cleanup` at one tick.
abbrev pub unless_expired : ℕ → Option RateLimitEntry → Option RateLimitEntry
unless_expired now none = none
unless_expired now (some e) = if is_expired now e then none else some e

unfoldable pub cleanup : ℕ → Entries → Entries
cleanup now entries k = unless_expired now (entries k)

-- What `RateLimit` does with a request: it is served, without a check when it is skipped, or refused
-- with the seconds to wait.
pub data Handled : Type 0 where
  skipped : Handled
  served : Answer → Handled
  rate_limited : Answer → ℕ → Handled

abbrev pub retry_after : ℕ → ℕ → ℕ
retry_after now reset =
    let seconds = (reset - now) / 1000000000 in if ltb seconds 1 then 1 else seconds

-- A request comes with whether it is skipped, its key, its time, and the time when it is refused.
pub record Request : Type 0 where
  pub skip : Bool
  pub key : Bytes
  pub at : ℕ
  pub refused_at : ℕ

abbrev pub answered : Request → Answer → Handled
answered q a =
    if a.allowed then served a else rate_limited a (retry_after q.refused_at a.reset_time)

unfoldable pub handle : RateLimitConfig → Request → Entries → Handled × Entries
unfolding allow
handle cfg q entries =
    let (answer, entries') = allow cfg q.at q.key entries in
    if q.skip then (skipped, entries) else (answered q answer, entries')

-- The requests and the ticks of `cleanup`, one after another, with what each request gets.
pub data Event : Type 0 where
  requested : Request → Event
  cleaned : ℕ → Event

unfoldable pub run : RateLimitConfig → Entries → List Event → List (Bytes × Handled)
unfolding handle cleanup
run cfg entries [] = []
run cfg entries (requested q ∷ events) =
    let (handled, entries') = handle cfg q entries in (q.key, handled) ∷ run cfg entries' events
run cfg entries (cleaned now ∷ events) = run cfg (cleanup now entries) events
