-- ===== src/Agent/Aggregator.antt =====
-- internal/agent/aggregator: the statistics, the raw events and the batches of a window. Times are
-- numbers of milliseconds; the map of statistics is an association list.
use intelligent_odoo_dev_too.Prelude.{
  ℕ, zero, suc, ◌*◌, ◌/◌, ◌-◌, Bool, true, false, not, ◌&&◌, ◌||◌, Option, none, some, List, [],
  ◌∷◌, ◌++◌, map, length, get_or, if◌then◌else◌, ◌==◌, leb,
}
use intelligent_odoo_dev_too.Prelude.Int.{ℤ, pos, add64, ltb_ℤ, leb_ℤ, eqb_ℤ}
use intelligent_odoo_dev_too.Prelude.Text.{Bytes, codes, eqb}
use intelligent_odoo_dev_too.Errors.Signature.{is_empty}
use intelligent_odoo_dev_too.Agent.Sampler.{Host, Sampler, EventInfo, allow}
use intelligent_odoo_dev_too.Agent.Stats.{
  Event, StatAccum, BatchSummary, no_summary, Stats, key_of, fresh, bump, has_nothing, bump_key,
  update_stats, add_if, update_summary,
}
pub mod Raw
pub mod Grouped
pub mod Rank
pub mod Windows

-- `ORMModelStat` and `AggregatedBatch`; an average is a number of the host.
module _ (Float64 : Type 0) where
  pub record OrmModelStat : Type 0 where
    pub orm_model : Bytes
    pub orm_method : Bytes
    pub call_count : ℤ
    pub orm_total_ms : ℤ
    pub avg_ms : Float64
    pub orm_max_ms : ℤ
    pub p95_ms : ℤ
    pub n1_detected : Bool
    pub orm_sample_sql : Bytes

  pub record AggregatedBatch : Type 0 where
    pub env_id : Bytes
    pub period : ℕ
    pub window_ms : ℤ
    pub orm_stats : List OrmModelStat
    pub raw_events : List Event
    pub summary : BatchSummary

-- `sort.Ints`.
unfoldable pub insert : ℤ → List ℤ → List ℤ
insert a [] = a ∷ []
insert a (b ∷ xs) = let rest = insert a xs in if leb_ℤ a b then a ∷ b ∷ xs else b ∷ rest

unfoldable pub sort : List ℤ → List ℤ
unfolding insert
sort [] = []
sort (a ∷ xs) = insert a (sort xs)

-- `percentile`, for `p` from 0 on.
abbrev pub rank_of : ℕ → ℕ → ℕ
rank_of n p = let rank = p * n / 100 in if leb n rank then n - 1 else rank

unfoldable pub percentile : List ℤ → ℕ → ℤ
unfolding sort
percentile [] p = pos 0
percentile (v ∷ vs) p = get_or (sort (v ∷ vs)) (rank_of (length (v ∷ vs)) p) (pos 0)

module _ (Rate : Type 0) where
  -- `Aggregator` without its channels: the configuration it reads, the sampler and the window.
  pub record Aggregator : Type 0 where
    pub config_env_id : Bytes
    pub max_raw_per_flush : ℤ
    pub sampler : Option (Sampler Rate)
    pub stats : Stats
    pub raw_buf : List Event
    pub window_summary : BatchSummary
    pub window_start : ℕ

-- `resetWindow`.
abbrev pub reset_window : {Rate : Type 0} → ℕ → Aggregator Rate → Aggregator Rate
reset_window now a = record a {
  stats = [];
  raw_buf = [];
  window_summary = no_summary;
  window_start = now;
}

abbrev pub info_of : Event → EventInfo
info_of ev = record {
  category = ev.category;
  duration_ms = ev.duration_ms;
  is_error = ev.is_error;
  is_n1 = ev.is_n1;
}

abbrev pub threshold_of : {Rate : Type 0} → Option (Sampler Rate) → ℤ
threshold_of none = pos 0
threshold_of (some s) = s.config.slow_threshold_ms

-- The events that `ingest` keeps whatever the sampler and the cap say.
abbrev pub always_keep : Event → Bool
always_keep ev = ev.is_compute || ev.is_error

module _ {Rate : Type 0} (h : Host Rate) where
  -- `shouldKeepRaw`, with the number that is drawn.
  unfoldable pub keep_with : Option (Sampler Rate) → ℕ → Event → Bool
  unfolding allow
  keep_with none draw ev = true
  keep_with (some s) draw ev = allow h s draw (info_of ev)

  -- Whether `ingest` appends the event.
  unfoldable pub appends : Aggregator Rate → ℕ → Event → Bool
  unfolding keep_with
  appends a draw ev =
      (always_keep ev || keep_with a.sampler draw ev)
      && (always_keep ev
          || (leb_ℤ a.max_raw_per_flush (pos 0)
              || ltb_ℤ (pos (length a.raw_buf)) a.max_raw_per_flush))

  -- `ingest`.
  unfoldable pub ingest : Aggregator Rate → ℕ × Event → Aggregator Rate
  unfolding update_stats update_summary appends
  ingest a (draw, ev) = record a {
    stats = update_stats ev a.stats;
    window_summary = update_summary (threshold_of a.sampler) ev a.window_summary;
    raw_buf = if appends a draw ev then a.raw_buf ++ (ev ∷ []) else a.raw_buf;
  }

  -- `drainChannel`, and the events of a window one after another.
  unfoldable pub ingest_all : Aggregator Rate → List (ℕ × Event) → Aggregator Rate
  unfolding ingest
  ingest_all a [] = a
  ingest_all a (e ∷ events) = ingest_all (ingest a e) events

module _ {Float64 : Type 0} (average : ℤ → ℤ → Float64) (zero_avg : Float64) where
  unfoldable pub stat_of : Bytes × StatAccum → OrmModelStat Float64
  unfolding percentile
  stat_of (_, st) = record {
    orm_model = st.stat_model;
    orm_method = st.stat_method;
    call_count = st.count;
    orm_total_ms = st.total_ms;
    avg_ms = if ltb_ℤ (pos 0) st.count then average st.total_ms st.count else zero_avg;
    orm_max_ms = st.max_ms;
    p95_ms = percentile st.durations 95;
    n1_detected = st.n1;
    orm_sample_sql = st.sample_sql;
  }

  -- `flush` at a time, with the milliseconds since the start of the window.
  unfoldable pub flush :
      {Rate : Type 0} → ℕ → ℤ → Aggregator Rate → Option (AggregatedBatch Float64) × Aggregator Rate
  unfolding stat_of
  flush now elapsed a =
      if eqb_ℤ a.window_summary.total_queries (pos 0) && (length a.raw_buf == 0)
      then (none, reset_window now a)
      else (
        some (record {
          env_id = a.config_env_id;
          period = a.window_start;
          window_ms = elapsed;
          orm_stats = map stat_of a.stats;
          raw_events = a.raw_buf;
          summary = a.window_summary;
        }),
        reset_window now a,
      )

-- The batch that `SendCh` takes, if it has room: a batch that it does not take is dropped.
abbrev pub taken :
    {Float64 : Type 0} → Bool → Option (AggregatedBatch Float64) → List (AggregatedBatch Float64)
taken room none = []
taken room (some batch) = if room then batch ∷ [] else []

-- What `Run` selects: an event, or a tick. When the context ends, `drainChannel` takes in the
-- events that are left, and the last tick follows.
pub data Selected : Type 0 where
  event_received : ℕ → Event → Selected
  ticked : ℕ → ℤ → Bool → Selected

-- `flushAndSend`, with whether `SendCh` has room.
module _ {Rate Float64 : Type 0} (h : Host Rate) (average : ℤ → ℤ → Float64)
    (zero_avg : Float64) where
  unfoldable pub flush_and_send :
      ℕ → ℤ → Bool → Aggregator Rate → List (AggregatedBatch Float64) × Aggregator Rate
  unfolding flush
  flush_and_send now elapsed room a =
      let (batch, a') = flush average zero_avg now elapsed a in (taken room batch, a')

  -- `Run`: the batches that are sent, and the window that is left.
  unfoldable pub run :
      Aggregator Rate → List Selected → List (AggregatedBatch Float64) × Aggregator Rate
  unfolding ingest flush_and_send
  run a [] = ([], a)
  run a (event_received draw ev ∷ steps) = run (ingest h a (draw, ev)) steps
  run a (ticked now elapsed room ∷ steps) =
      let (sent, a') = flush_and_send now elapsed room a in
      let (later, a'') = run a' steps in (sent ++ later, a'')
