-- ===== src/Examples/RateLimiter.antt =====
-- internal/agent/transport/ratelimiter.go on concrete batches.
use intelligent_odoo_dev_too.Prelude.{ℕ, ◌≤◌, ◌≡◌, refl, true, false, List, [], ◌∷◌, arith}
use intelligent_odoo_dev_too.Prelude.Int.{pos}
use intelligent_odoo_dev_too.RateLimiter.{RateLimiter, reset}
use intelligent_odoo_dev_too.RateLimiter.Window.{
  allow_all, throttle, passed_bytes, passed_batches, allow_all-throttle,
}

abbrev limiter : RateLimiter
limiter = record {
  max_bytes = pos 100;
  max_batches = pos 2;
  current_bytes = pos 90;
  current_batches = pos 2;
  stopped = false;
}

abbrev sizes : List ℕ
sizes = 60 ∷ 50 ∷ 40 ∷ 0 ∷ []

allow_all-throttle_example :
    (allow_all (reset limiter) sizes ≡ throttle 100 2 0 0 sizes)
    × (passed_bytes (allow_all (reset limiter) sizes) sizes ≤ 100)
    × (passed_batches (allow_all (reset limiter) sizes) ≤ 2)
allow_all-throttle_example =
    allow_all-throttle limiter 100 2 sizes refl refl (omega arith) (omega arith) (omega arith) refl

throttle_test : throttle 100 2 0 0 sizes ≡ true ∷ false ∷ true ∷ false ∷ []
unfolding throttle
throttle_test = refl
