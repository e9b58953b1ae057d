-- ===== src/Errors/Collector.antt =====
-- internal/agent/errors/collector.go: the polls of the table `ir.logging` and the mark that they keep.
-- The search in Odoo (`FetchRecordsWithDomain`) and `time.Parse` are parameters; the zero time is 0.
use mathlib.Core.Option
use intelligent_odoo_dev_too.Prelude.{ℕ, Option, none, some, List, [], ◌∷◌, if◌then◌else◌}
use intelligent_odoo_dev_too.Prelude.Int.{ℤ, pos, ltb_ℤ}
use intelligent_odoo_dev_too.Prelude.Text.{Bytes, codes}
use intelligent_odoo_dev_too.Ringbuf.{RingBuffer, push}
use intelligent_odoo_dev_too.Acl.Any.{
  Any, int_any, string_any, slice_any, Anys, no_anys, any, Entries, lookup_any,
}
use intelligent_odoo_dev_too.Errors.Signature.{
  Library, is_empty, extract_traceback, generate_signature,
}
use intelligent_odoo_dev_too.Errors.Exceptions.{parse_error_type}
use intelligent_odoo_dev_too.Errors.Flusher.{ErrorEvent}
pub mod Complete

-- `Collector`: its buffer and `lastLogID`.
pub record Collector : Type 0 where
  pub buf : RingBuffer ErrorEvent
  pub last_log_id : ℤ

-- What `poll` asks of `search_read`.
pub record Request (F G : Type 0) : Type 0 where
  pub model_name : Bytes
  pub fields : List Bytes
  pub domain : Anys F G
  pub order : Bytes
  pub limit : ℕ

abbrev pub or_default {ℓ} : {A : Type ℓ} → A → Option A → A
or_default a none = a
or_default a (some b) = b

-- `lastLogID` after a record.
abbrev pub raise : ℤ → Option ℤ → ℤ
raise last none = last
raise last (some id) = if ltb_ℤ last id then id else last

-- A search in Odoo: `none` is an error of it.
abbrev pub Search : Type 0 → Type 0 → Type 0
Search F G = Request F G → Option (List (Entries F G))

module _ {F G : Type 0} where
  -- `[]any{field, operator, value}`.
  abbrev pub clause : Bytes → Bytes → Any F G → Any F G
  clause field operator value =
      slice_any (any (string_any field) (any (string_any operator) (any value no_anys)))

  abbrev pub errors_with : Anys F G → Anys F G
  errors_with more = any (clause (codes "type") (codes "=") (string_any (codes "server"))) (
      any
        (clause (codes "level") (codes "in") (
          slice_any
            (any (string_any (codes "ERROR")) (any (string_any (codes "CRITICAL")) no_anys))))
        more)

  abbrev pub after_id : ℤ → Anys F G
  after_id last = any (clause (codes "id") (codes ">") (int_any last)) no_anys

  abbrev pub request_of : Anys F G → Request F G
  request_of domain = record {
    model_name = codes "ir.logging";
    fields =
        codes "id"
        ∷ codes "name"
        ∷ codes "message"
        ∷ codes "level"
        ∷ codes "create_date"
        ∷ codes "create_uid"
        ∷ [];
    domain = domain;
    order = codes "id asc";
    limit = 200;
  }

  abbrev pub poll_request : ℤ → Request F G
  poll_request last =
      request_of (errors_with (if ltb_ℤ (pos 0) last then after_id last else no_anys))

  -- `v.(int)` and `v.(string)` of what a map holds.
  abbrev pub as_int : Option (Any F G) → Option ℤ
  as_int (some (int_any n)) = some n
  as_int _ = none

  abbrev pub as_text : Option (Any F G) → Option Bytes
  as_text (some (string_any s)) = some s
  as_text _ = none

  unfoldable pub int_field : Bytes → Entries F G → Option ℤ
  unfolding lookup_any
  int_field key r = as_int (lookup_any key r)

  unfoldable pub text_field : Bytes → Entries F G → Option Bytes
  unfolding lookup_any
  text_field key r = as_text (lookup_any key r)

  unfoldable pub advance : ℤ → Entries F G → ℤ
  unfolding int_field
  advance last r = raise last (int_field (codes "id") r)

  module _ (lib : Library) (parse_time : Bytes → Option ℕ) (rounds : ℕ) where
    -- `recordToErrorEvent`: `some none` for a record without a message, `none` if the normalization of
    -- the message has not ended after `rounds`.
    abbrev event_of : Entries F G → Bytes → Option (Option ErrorEvent)
    event_of r msg =
        let error_type = parse_error_type lib msg in
        let traceback = extract_traceback msg in
        Option.map
          (λ signature. some (record {
            signature = signature;
            error_type = error_type;
            message = msg;
            module_name = [];
            model = [];
            traceback = traceback;
            user_id = or_default (pos 0) (int_field (codes "create_uid") r);
            request_url = [];
            log_id = or_default (pos 0) (int_field (codes "id") r);
            captured_at =
                or_default 0 (parse_time (or_default [] (text_field (codes "create_date") r)));
          }))
          (generate_signature lib rounds error_type msg traceback)

    unfoldable pub record_to_error_event : Entries F G → Option (Option ErrorEvent)
    unfolding int_field text_field
    record_to_error_event r =
        let msg = or_default [] (text_field (codes "message") r) in
        if is_empty msg then some none else event_of r msg

    -- One round of the loop over the records.
    abbrev pub collect : Collector → Entries F G → Option ErrorEvent → Collector
    collect c r none = record c { last_log_id = advance c.last_log_id r }
    collect c r (some event) = record {
      buf = push c.buf event;
      last_log_id = advance c.last_log_id r;
    }

    unfoldable pub collect_all : List (Entries F G) → Collector → Option Collector
    unfolding record_to_error_event push advance
    collect_all [] c = some c
    collect_all (r ∷ records) c = elim (record_to_error_event r) [
      | none ↦ none
      | some event ↦ collect_all records (collect c r event)
    ]

    -- `poll`: a failed search leaves the collector as it is.
    abbrev pub or_failed : Collector → Option (List (Entries F G)) → Option Collector
    or_failed c none = some c
    or_failed c (some records) = collect_all records c

    unfoldable pub poll : Search F G → Collector → Option Collector
    unfolding collect_all
    poll find c = or_failed c (find (poll_request c.last_log_id))

    -- `runPollLoop`: the first poll and one at every tick, whose errors are only logged.
    unfoldable pub run_polls : List (Search F G) → Collector → Option Collector
    unfolding poll
    run_polls [] c = some c
    run_polls (find ∷ ticks) c = elim (poll find c) [ none ↦ none | some c' ↦ run_polls ticks c' ]

    unfoldable pub run_poll_loop : Search F G → List (Search F G) → Collector → Option Collector
    unfolding run_polls
    run_poll_loop first ticks c = run_polls (first ∷ ticks) c
