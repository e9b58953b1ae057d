-- ===== src/Examples/Agent.antt =====
-- internal/agent/aggregator on a window of four events, with the sampler of production.
use intelligent_odoo_dev_too.Prelude.{
  length, ◌++◌, ℕ, ◌*◌, ◌≤◌, ◌<◌, ◌≡◌, refl, Bool, true, false, not, some, List, [], ◌∷◌, map, keep,
  count_if, arith,
}
use intelligent_odoo_dev_too.Prelude.Int.{ℤ, pos, ltb_ℤ, leb_ℤ}
use intelligent_odoo_dev_too.Prelude.Text.{Bytes, codes}
use intelligent_odoo_dev_too.Agent.Sampler.{Host, new_sampler, default_production}
use intelligent_odoo_dev_too.Agent.Aggregator.{
  Aggregator, always_keep, reset_window, ingest_all, percentile, Selected, event_received, ticked,
  run,
}
use intelligent_odoo_dev_too.Agent.Stats.{Event, no_summary}
use intelligent_odoo_dev_too.Agent.Aggregator.Raw.{ingest_all-Bounded}
use intelligent_odoo_dev_too.Agent.Aggregator.Grouped.{lookup, describe, ingest_all-describe}
use intelligent_odoo_dev_too.Agent.Aggregator.Windows.{window_batches, run-eq-window_batches}
use intelligent_odoo_dev_too.Agent.N1Tracker.{check, check_all, new_tracker}
use intelligent_odoo_dev_too.Agent.N1Tracker.Held.{in_window}
use intelligent_odoo_dev_too.Agent.N1Tracker.Counts.{times_of, check-counts}
use intelligent_odoo_dev_too.Agent.Aggregator.Rank.{percentile-rank}

-- Rates are in percent, and a draw is a number below a hundred.
abbrev pub percent_host : Host ℤ
percent_host = record {
  to_lower = λ s. s;
  trim_space = λ s. s;
  below = λ draw rate. ltb_ℤ (pos draw) rate;
  whole = pos 100;
  quarter = pos 25;
  twentieth = pos 5;
}

abbrev aggregator : Aggregator ℤ
aggregator = record {
  config_env_id = codes "env";
  max_raw_per_flush = pos 1;
  sampler = some (new_sampler percent_host (default_production percent_host));
  stats = [];
  raw_buf = [];
  window_summary = no_summary;
  window_start = 0;
}

abbrev search : ℤ → Bool → Bool → Event
search ms failed repeated = record {
  category = codes "orm";
  model = codes "sale.order";
  method = codes "search";
  duration_ms = ms;
  is_error = failed;
  is_n1 = repeated;
  sql = [];
  module_name = [];
  traceback = [];
  user_id = pos 2;
  timestamp = 0;
  field_name = [];
  is_compute = false;
  depends_on = [];
  trigger_field = [];
}

abbrev window : List (ℕ × Event)
window =
    (50, search (pos 900) false false)
    ∷ (50, search (pos 10) true false)
    ∷ (50, search (pos 30) false true)
    ∷ (50, search (pos 20) false false)
    ∷ []

ingest_all-Bounded_example :
    (keep always_keep (ingest_all percent_host (reset_window 7 aggregator) window).raw_buf
      ≡ search (pos 10) true false ∷ [])
    × (count_if
          (λ ev. not (always_keep ev))
          (ingest_all percent_host (reset_window 7 aggregator) window).raw_buf
        ≤ 1)
ingest_all-Bounded_example =
    ingest_all-Bounded percent_host 1 (omega arith) aggregator 7 window refl

ingest_all-describe_example :
    lookup
      (codes "sale.order:search")
      (ingest_all percent_host (reset_window 7 aggregator) window).stats
    ≡ describe (map (λ e. e.1) window)
ingest_all-describe_example =
    ingest_all-describe percent_host aggregator 7 window (codes "sale.order:search")

abbrev times : List ℤ
times = pos 900 ∷ pos 10 ∷ pos 30 ∷ pos 20 ∷ []

percentile-rank_example :
    (100 * count_if (λ x. ltb_ℤ x (percentile times 50)) times ≤ 200)
    × (200 < 100 * count_if (λ x. leb_ℤ x (percentile times 50)) times)
percentile-rank_example = percentile-rank times 50 (omega arith) (omega arith)

abbrev steps : List Selected
steps =
    event_received 50 (search (pos 900) false false)
    ∷ ticked 30000 (pos 30000) true
    ∷ event_received 50 (search (pos 10) true false)
    ∷ ticked 60000 (pos 30000) false
    ∷ []

-- Averages as totals and counts.
abbrev as_pair : ℤ → ℤ → ℤ × ℤ
as_pair total calls = (total, calls)

run-eq-window_batches_example :
    (run percent_host as_pair (pos 0, pos 0) aggregator steps).0
    ≡ window_batches percent_host as_pair (pos 0, pos 0) aggregator [] steps
run-eq-window_batches_example =
    run-eq-window_batches percent_host as_pair (pos 0, pos 0) aggregator steps

-- Three equal queries, of which the first is out of the window of the last.
abbrev queries : List (Bytes × ℕ)
queries = (codes "SELECT 1", 100) ∷ (codes "SELECT 2", 150) ∷ (codes "SELECT 1", 160) ∷ []

check-counts_example :
    (check
      (λ sql. sql)
      (check_all (λ sql. sql) (new_tracker 50 (pos 3)) queries)
      (codes "SELECT 1", 170)).0
    ≡ leb_ℤ (pos 3) (
        pos (
          length (
            keep (in_window 50 170) (
              times_of
                (λ sql. sql)
                (codes "SELECT 1")
                (queries ++ ((codes "SELECT 1", 170) ∷ []))))))
check-counts_example = check-counts (λ sql. sql) 50 (pos 3) queries (codes "SELECT 1") 170 refl refl
