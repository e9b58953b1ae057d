-- ===== src/Agent/Stats.antt =====
-- internal/agent/aggregator/types.go and aggregator.go: events, and the statistics of a window.
use intelligent_odoo_dev_too.Prelude.{
  ℕ, Bool, true, false, not, ◌&&◌, List, [], ◌∷◌, ◌++◌, if◌then◌else◌,
}
use intelligent_odoo_dev_too.Prelude.Int.{ℤ, pos, add64, ltb_ℤ}
use intelligent_odoo_dev_too.Prelude.Text.{Bytes, codes, eqb}
use intelligent_odoo_dev_too.Errors.Signature.{is_empty}

-- `Event`.
pub record Event : Type 0 where
  pub category : Bytes
  pub model : Bytes
  pub method : Bytes
  pub duration_ms : ℤ
  pub is_error : Bool
  pub is_n1 : Bool
  pub sql : Bytes
  pub module_name : Bytes
  pub traceback : Bytes
  pub user_id : ℤ
  pub timestamp : ℕ
  pub field_name : Bytes
  pub is_compute : Bool
  pub depends_on : List Bytes
  pub trigger_field : Bytes

-- `statAccum`.
pub record StatAccum : Type 0 where
  pub stat_model : Bytes
  pub stat_method : Bytes
  pub count : ℤ
  pub total_ms : ℤ
  pub max_ms : ℤ
  pub n1 : Bool
  pub sample_sql : Bytes
  pub durations : List ℤ

-- `BatchSummary`.
pub record BatchSummary : Type 0 where
  pub total_queries : ℤ
  pub total_duration_ms : ℤ
  pub slow_queries : ℤ
  pub n1_patterns : ℤ
  pub errors : ℤ

abbrev pub no_summary : BatchSummary
no_summary = record {
  total_queries = pos 0;
  total_duration_ms = pos 0;
  slow_queries = pos 0;
  n1_patterns = pos 0;
  errors = pos 0;
}

abbrev pub Stats : Type 0
Stats = List (Bytes × StatAccum)

abbrev pub key_of : Event → Bytes
key_of ev = ev.model ++ (codes ":" ++ ev.method)

abbrev pub fresh : Event → StatAccum
fresh ev = record {
  stat_model = ev.model;
  stat_method = ev.method;
  count = pos 0;
  total_ms = pos 0;
  max_ms = pos 0;
  n1 = false;
  sample_sql = [];
  durations = [];
}

-- What one event adds to the statistics of its key.
unfoldable pub bump : StatAccum → Event → StatAccum
bump st ev = record st {
  count = add64 st.count (pos 1);
  total_ms = add64 st.total_ms ev.duration_ms;
  max_ms = if ltb_ℤ st.max_ms ev.duration_ms then ev.duration_ms else st.max_ms;
  n1 = if ev.is_n1 then true else st.n1;
  sample_sql = if not (is_empty ev.sql) && is_empty st.sample_sql then ev.sql else st.sample_sql;
  durations = st.durations ++ (ev.duration_ms ∷ []);
}

abbrev pub has_nothing : Event → Bool
has_nothing ev = is_empty ev.model && is_empty ev.method

-- `a.stats[key]`, created if it is not there.
unfoldable pub bump_key : Bytes → Event → Stats → Stats
unfolding bump
bump_key key ev [] = (key, bump (fresh ev) ev) ∷ []
bump_key key ev ((k, st) ∷ stats) =
    let rest = bump_key key ev stats in
    if eqb k key then (k, bump st ev) ∷ stats else (k, st) ∷ rest

-- `updateStats`.
unfoldable pub update_stats : Event → Stats → Stats
unfolding bump_key
update_stats ev stats = if has_nothing ev then stats else bump_key (key_of ev) ev stats

abbrev pub add_if : Bool → ℤ → ℤ
add_if b n = if b then add64 n (pos 1) else n

-- `updateSummary`, with the threshold of the sampler.
unfoldable pub update_summary : ℤ → Event → BatchSummary → BatchSummary
update_summary threshold ev s = record {
  total_queries = add64 s.total_queries (pos 1);
  total_duration_ms = add64 s.total_duration_ms ev.duration_ms;
  slow_queries = add_if (ltb_ℤ (pos 0) threshold && ltb_ℤ threshold ev.duration_ms) s.slow_queries;
  n1_patterns = add_if ev.is_n1 s.n1_patterns;
  errors = add_if ev.is_error s.errors;
}
