-- ===== src/Examples/Middleware.antt =====
-- internal/middleware with two requests per window of 60 units.
use intelligent_odoo_dev_too.Prelude.{ℕ, ◌+◌, ◌≤◌, false, none, List, ◌≡◌, refl, [], ◌∷◌, count_if}
use intelligent_odoo_dev_too.Prelude.Int.{pos}
use intelligent_odoo_dev_too.Prelude.Text.{Bytes, codes}
use intelligent_odoo_dev_too.Middleware.RateLimit.{
  RateLimitConfig, Entries, Event, requested, cleaned, run,
}
use intelligent_odoo_dev_too.Middleware.RateLimit.PerKey.{of_key, run_key, of_key-run}
use intelligent_odoo_dev_too.Middleware.RateLimit.Burst.{is_served, room, capacity, run-served}

abbrev config : RateLimitConfig
config = record { limit = pos 2; window = 60 }

abbrev no_entries : Entries
no_entries k = none

abbrev from : Bytes → ℕ → Event
from key at = requested (record { skip = false; key = key; at = at; refused_at = at })

abbrev alice : Bytes
alice = codes "alice"

abbrev events : List Event
events =
    from alice 10
    ∷ from (codes "bob") 11
    ∷ from alice 12
    ∷ from alice 70
    ∷ from alice 71
    ∷ cleaned 72
    ∷ from alice 73
    ∷ from alice 74
    ∷ []

of_key-run_example :
    of_key alice (run config no_entries events) ≡ run_key config alice (no_entries alice) events
of_key-run_example = of_key-run config alice 0 no_entries events refl

-- At the end of the window itself the old one still counts.
abbrev early_events : List Event
early_events = from alice 10 ∷ from alice 12 ∷ from alice 70 ∷ []

run-served_example :
    count_if is_served (of_key alice (run config no_entries early_events))
    ≤ room (pos 2) (no_entries alice) + capacity (pos 2)
run-served_example = run-served config alice 10 no_entries early_events refl refl refl

served_test : count_if is_served (of_key alice (run config no_entries events)) ≡ 4
unfolding run
served_test = refl
