-- ===== src/Examples/Collector.antt =====
-- internal/agent/errors/collector.go on a table of two entries, whose first search fails.
use intelligent_odoo_dev_too.Prelude.{ℕ, Option, none, some, List, [], ◌∷◌, ◌≡◌, refl, arith, take}
use intelligent_odoo_dev_too.Prelude.Int.{pos}
use intelligent_odoo_dev_too.Prelude.Text.{Bytes, codes}
use intelligent_odoo_dev_too.Acl.Any.{
  Anys, any, int_any, string_any, slice_any, Entries, no_entries, entry, lookup_any,
}
use intelligent_odoo_dev_too.Errors.Signature.{generate_signature}
use intelligent_odoo_dev_too.Errors.Flusher.{ErrorEvent, no_event, push_all}
use intelligent_odoo_dev_too.Errors.Collector.{
  Collector, Request, int_field, text_field, record_to_error_event, run_poll_loop,
}
use intelligent_odoo_dev_too.Errors.Collector.Complete.{
  Serves, later, above, none_above, failed, answered, no_polls, with_message, without_message,
  no_events, run_poll_loop-push_all,
}
use intelligent_odoo_dev_too.Examples.LogTailer.{plain_text, buffer}

-- Entries without floating-point numbers.
abbrev Log : Type 0
Log = List (Entries Bytes Bytes)

abbrev failure : Entries Bytes Bytes
failure =
    entry (codes "id") (int_any (pos 4))
      (entry (codes "message") (string_any (codes "ValueError: x")) no_entries)

abbrev silent : Entries Bytes Bytes
silent = entry (codes "id") (int_any (pos 7)) no_entries

abbrev table : Log
table = failure ∷ silent ∷ []

-- The answer to a domain of two clauses, or of a third one on the id.
abbrev answer : Anys Bytes Bytes → Log
unfolding later
answer (any a (any b (any (slice_any (any f (any op (any (int_any (pos n)) vs)))) more))) =
    later n table
answer domain = table

abbrev find : Request Bytes Bytes → Option Log
find q = some (take q.limit (answer q.domain))

find-Serves : Serves find table
unfolding answer
find-Serves = record { from_start = refl; from_id = λ n. refl }

abbrev collector : Collector
collector = record { buf = buffer; last_log_id = pos 0 }

abbrev or_no_event : Option (Option ErrorEvent) → ErrorEvent
or_no_event (some (some event)) = event
or_no_event _ = no_event

abbrev parse_time : Bytes → Option ℕ
parse_time s = none

abbrev failure_event : ErrorEvent
failure_event = or_no_event (record_to_error_event plain_text parse_time 3 failure)

failure_converted :
    record_to_error_event plain_text parse_time 3 failure ≡ some (some failure_event)
unfolding record_to_error_event int_field text_field lookup_any generate_signature
failure_converted = refl

silent_converted : record_to_error_event plain_text parse_time 3 silent ≡ some none
unfolding record_to_error_event int_field text_field lookup_any
silent_converted = refl

failure_id : int_field (codes "id") failure ≡ some (pos 4)
unfolding int_field lookup_any
failure_id = refl

silent_id : int_field (codes "id") silent ≡ some (pos 7)
unfolding int_field lookup_any
silent_id = refl

run_poll_loop-push_all_example :
    (c' : Collector) × (run_poll_loop plain_text parse_time 3 (λ q. none) (find ∷ []) collector
      ≡ some c')
    × (c'.buf ≡ push_all buffer (failure_event ∷ []))
run_poll_loop-push_all_example =
    run_poll_loop-push_all plain_text parse_time 3 1 (λ q. none) (find ∷ []) collector table
      (failure_event ∷ []) (failed (λ q. refl) (answered find-Serves no_polls))
      (above failure_id (omega arith) (above silent_id (omega arith) none_above)) refl
      (with_message failure_converted (without_message silent_converted no_events)) (omega arith)
