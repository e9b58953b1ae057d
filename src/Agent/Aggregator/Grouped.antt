-- ===== src/Agent/Aggregator/Grouped.antt =====
-- internal/agent/aggregator/aggregator.go: the statistics of a window, key by key.
use intelligent_odoo_dev_too.Prelude.{
  ℕ, ◌≡◌, refl, sym, ap, ◌∙◌, inl, inr, Bool, true, false, not, ◌&&◌, ◌||◌, Option, none, some,
  List, [], ◌∷◌, ◌++◌, map, any, arith, keep, if◌then◌else◌, Bool-cases, append_assoc, append-nil,
}
use intelligent_odoo_dev_too.Prelude.Int.{ℤ, pos, add64, ltb_ℤ}
use intelligent_odoo_dev_too.Prelude.Text.{Bytes, eqb, eqb_iff}
use intelligent_odoo_dev_too.Errors.Signature.{is_empty}
use intelligent_odoo_dev_too.Agent.Sampler.{Host}
use intelligent_odoo_dev_too.Agent.Aggregator.{Aggregator, ingest, ingest_all, reset_window}
use intelligent_odoo_dev_too.Agent.Stats.{
  Event, StatAccum, Stats, key_of, fresh, bump, has_nothing, bump_key, update_stats,
}

-- The statistics that a map holds for a key.
pub lookup : Bytes → Stats → Option StatAccum
lookup q [] = none
lookup q ((k, st) ∷ stats) = let rest = lookup q stats in if eqb k q then some st else rest

abbrev or_fresh : Option StatAccum → Event → StatAccum
or_fresh none ev = fresh ev
or_fresh (some st) ev = st

add_event : Option StatAccum → Event → Option StatAccum
add_event o ev = some (bump (or_fresh o ev) ev)

lookup-bump_key :
    (q key : Bytes) (ev : Event) (stats : Stats)
    → lookup q (bump_key key ev stats)
      ≡ (if eqb key q then add_event (lookup q stats) ev else lookup q stats)
unfolding bump_key lookup add_event
lookup-bump_key q key ev [] = refl
lookup-bump_key q key ev ((k, st) ∷ stats) = elim (Bool-cases (eqb k key)) [
  | inl e ↦
      let same : k ≡ key = (eqb_iff k key).0 e in
      elim (Bool-cases (eqb k q)) [
        | inl b ↦ let b' : eqb key q ≡ true = cc in rw (e, b, b') refl
        | inr b ↦ let b' : eqb key q ≡ false = cc in rw (e, b, b') refl
      ]
  | inr e ↦ elim (Bool-cases (eqb k q)) [
    | inl b ↦ elim (Bool-cases (eqb key q)) [
      | inl c ↦
          let here : k ≡ q = (eqb_iff k q).0 b in
          let there : key ≡ q = (eqb_iff key q).0 c in
          let meet : eqb k key ≡ true = (eqb_iff k key).1 (here ∙ sym there) in cc
      | inr c ↦ rw (e, b, c) refl
    ]
    | inr b ↦ rw (e, b) (lookup-bump_key q key ev stats)
  ]
]

-- The events that count for a key.
abbrev belongs : Bytes → Event → Bool
belongs q ev = not (has_nothing ev) && eqb (key_of ev) q

abbrev if_belongs : Bool → Option StatAccum → Event → Option StatAccum
unfolding add_event
if_belongs b o ev = if b then add_event o ev else o

lookup-update_stats :
    (q : Bytes) (ev : Event) (stats : Stats)
    → lookup q (update_stats ev stats)
      ≡ (if belongs q ev then add_event (lookup q stats) ev else lookup q stats)
unfolding update_stats
lookup-update_stats q ev stats = elim (Bool-cases (has_nothing ev)) [
  | inl e ↦ rw e refl
  | inr e ↦ rw e (lookup-bump_key q (key_of ev) ev stats)
]

-- Events added one after another.
add_events : Option StatAccum → List Event → Option StatAccum
add_events o [] = o
add_events o (ev ∷ evs) = add_events (add_event o ev) evs

add_if-events :
    (b : Bool) (o : Option StatAccum) (ev : Event) (evs : List Event)
    → add_events (if b then add_event o ev else o) evs ≡ add_events o (if b then ev ∷ evs else evs)
unfolding add_events
add_if-events true o ev evs = refl
add_if-events false o ev evs = refl

module _ {Rate : Type 0} (h : Host Rate) (q : Bytes) where
  ingest_all-events :
      (a : Aggregator Rate) (events : List (ℕ × Event))
      → lookup q (ingest_all h a events).stats
        ≡ add_events (lookup q a.stats) (keep (belongs q) (map (λ e. e.1) events))
  unfolding ingest_all ingest add_events
  ingest_all-events a [] = refl
  ingest_all-events a ((draw, ev) ∷ events) =
      let later = keep (belongs q) (map (λ e. e.1) events) in
      ingest_all-events (ingest h a (draw, ev)) events
      ∙ ap (λ o. add_events o later) (lookup-update_stats q ev a.stats)
      ∙ add_if-events (belongs q ev) (lookup q a.stats) ev later

-- The sums, the maximum and the sample of the events of a key, as `int` arithmetic gives them.
pub calls_from : ℤ → List Event → ℤ
calls_from n [] = n
calls_from n (ev ∷ evs) = calls_from (add64 n (pos 1)) evs

pub total_from : ℤ → List Event → ℤ
total_from n [] = n
total_from n (ev ∷ evs) = total_from (add64 n ev.duration_ms) evs

pub longest_from : ℤ → List Event → ℤ
longest_from n [] = n
longest_from n (ev ∷ evs) = longest_from (if ltb_ℤ n ev.duration_ms then ev.duration_ms else n) evs

pub first_sql : List Event → Bytes
first_sql [] = []
first_sql (ev ∷ evs) = let rest = first_sql evs in if is_empty ev.sql then rest else ev.sql

-- A description of the statistics of the events of a key.
pub describe : List Event → Option StatAccum
describe [] = none
describe (ev ∷ evs) = some (record {
  stat_model = ev.model;
  stat_method = ev.method;
  count = calls_from (pos 0) (ev ∷ evs);
  total_ms = total_from (pos 0) (ev ∷ evs);
  max_ms = longest_from (pos 0) (ev ∷ evs);
  n1 = any (λ v. v.is_n1) (ev ∷ evs);
  sample_sql = first_sql (ev ∷ evs);
  durations = map (λ v. v.duration_ms) (ev ∷ evs);
})

abbrev sql_from : Bytes → Bytes → Bytes
sql_from s rest = if is_empty s then rest else s

-- Statistics with the three fields that the proof rewrites.
abbrev stat_with : StatAccum → List Event → Bool → Bytes → List ℤ → Option StatAccum
stat_with st evs slow sql taken = some (record {
  stat_model = st.stat_model;
  stat_method = st.stat_method;
  count = calls_from st.count evs;
  total_ms = total_from st.total_ms evs;
  max_ms = longest_from st.max_ms evs;
  n1 = slow;
  sample_sql = sql;
  durations = taken;
})

or_last : (b n c : Bool) → ((if b then true else n) || c) ≡ (n || (b || c))
or_last true n c = ground arith
or_last false n c = refl

or_none : (n : Bool) → (n || false) ≡ n
or_none n = ground arith

sql_none : (s : Bytes) → sql_from s [] ≡ s
sql_none [] = refl
sql_none (c ∷ s) = refl

sql_next :
    (s t rest : Bytes)
    → sql_from (if not (is_empty t) && is_empty s then t else s) rest
      ≡ sql_from s (if is_empty t then rest else t)
sql_next [] [] rest = refl
sql_next [] (d ∷ t) rest = refl
sql_next (c ∷ s) [] rest = refl
sql_next (c ∷ s) (d ∷ t) rest = refl

add_events-some :
    (st : StatAccum) (evs : List Event)
    → add_events (some st) evs
      ≡ stat_with st evs
          (st.n1 || any (λ v. v.is_n1) evs)
          (sql_from st.sample_sql (first_sql evs))
          (st.durations ++ map (λ v. v.duration_ms) evs)
unfolding add_events calls_from total_from longest_from first_sql add_event bump
add_events-some st [] =
    ap (λ d. stat_with st [] st.n1 st.sample_sql d) (sym (append-nil st.durations))
    ∙ ap (λ s. stat_with st [] st.n1 s (st.durations ++ [])) (sym (sql_none st.sample_sql))
    ∙ ap (λ n. stat_with st [] n (sql_from st.sample_sql []) (st.durations ++ []))
        (sym (or_none st.n1))
add_events-some st (ev ∷ evs) =
    let st' = bump st ev in
    let more = map (λ v. v.duration_ms) evs in
    let marked = any (λ v. v.is_n1) evs in
    add_events-some st' evs
    ∙ ap (λ d. stat_with st' evs (st'.n1 || marked) (sql_from st'.sample_sql (first_sql evs)) d)
        (append_assoc st.durations (ev.duration_ms ∷ []) more)
    ∙ ap (λ s. stat_with st' evs (st'.n1 || marked) s (st.durations ++ (ev.duration_ms ∷ more)))
        (sql_next st.sample_sql ev.sql (first_sql evs))
    ∙ ap
        (λ n.
          stat_with st' evs n (sql_from st.sample_sql (first_sql (ev ∷ evs)))
            (st.durations ++ (ev.duration_ms ∷ more)))
        (or_last ev.is_n1 st.n1 marked)

add_events-describe : (evs : List Event) → add_events none evs ≡ describe evs
unfolding add_events add_event bump describe calls_from total_from longest_from first_sql
add_events-describe [] = refl
add_events-describe (ev ∷ evs) = add_events-some (fresh ev) (ev ∷ evs)

-- After any events, taken in from the start of a window, the statistics under a key are those of
-- the events that have this key and a model or a method, taken by themselves: their number, their
-- total and longest duration in `int` arithmetic, whether one is an N+1 pattern, the first SQL text
-- that is not empty, and their durations in order; and there are none if there is no such event.
pub ingest_all-describe :
    {Rate : Type 0} (h : Host Rate) (a : Aggregator Rate) (now : ℕ) (events : List (ℕ × Event))
    (q : Bytes)
    → lookup q (ingest_all h (reset_window now a) events).stats
      ≡ describe (keep (λ ev. not (has_nothing ev) && eqb (key_of ev) q) (map (λ e. e.1) events))
unfolding lookup
ingest_all-describe h a now events q =
    ingest_all-events h q (reset_window now a) events
    ∙ add_events-describe (keep (belongs q) (map (λ e. e.1) events))
