-- ===== src/Examples/Worker.antt =====
-- internal/worker on a table of three rows.
use intelligent_odoo_dev_too.Prelude.{
  ℕ, ◌+◌, min, true, false, List, ◌≡◌, refl, [], ◌∷◌, any, count_if, replicate, ltb, arith,
}
use intelligent_odoo_dev_too.Prelude.Text.{codes}
use intelligent_odoo_dev_too.Prelude.Int.{pos, negsuc}
use intelligent_odoo_dev_too.Worker.{
  Delivery, pending, sent, failed, NotificationConfig, NotificationWorker, new_notification_worker,
  Outcome, Step, polled, retried, created, deliver_pending, is_pending, run,
}
use intelligent_odoo_dev_too.Worker.Rows.{settle_first, deliver_pending-settle_first}
use intelligent_odoo_dev_too.Worker.Attempts.{Kept, is_sent, sent_row, run-Kept, run-sent_row}
use intelligent_odoo_dev_too.Worker.Drain.{run-sends_all}

abbrev row : ℕ → Delivery
row i = record {
  id = i;
  channel_type = codes "slack";
  status = pending;
  attempt = 1;
  created_at = 100;
}

abbrev sent_one : Delivery
sent_one = record {
  id = 9;
  channel_type = codes "email";
  status = sent;
  attempt = 2;
  created_at = 90;
}

abbrev table : List Delivery
table = sent_one ∷ row 1 ∷ row 2 ∷ []

abbrev config : NotificationConfig
config = record {
  poll_interval = pos 0;
  retry_interval = negsuc 4;
  batch_size = pos 1;
  max_attempts = pos 0;
}

abbrev worker : NotificationWorker
worker = record {
  dispatchers = codes "slack" ∷ codes "webhook" ∷ codes "email" ∷ codes "sms" ∷ [];
  poll_interval = 30;
  retry_interval = 300;
  batch_size = 1;
  max_attempts = 3;
}

-- An extra dispatcher is registered, or overrides the one of its type.
worker_test : new_notification_worker config (codes "sms" ∷ codes "webhook" ∷ []) ≡ worker
unfolding new_notification_worker
worker_test = refl

-- The first row cannot be sent.
abbrev mixed : ℕ → Outcome
mixed i = record { delivered = ltb 1 i; stored = true }

deliver_pending-settle_first_example :
    deliver_pending worker true 5 mixed table ≡ settle_first worker mixed (min 5 1) table
deliver_pending-settle_first_example = deliver_pending-settle_first worker 5 mixed table refl

abbrev steps : List Step
steps =
    polled true 5 mixed
    ∷ retried true 200
    ∷ created 3 (codes "webhook") 210
    ∷ polled true 5 mixed
    ∷ retried true 500
    ∷ polled false 5 mixed
    ∷ []

run-Kept_example : Kept 3 (run worker steps table)
run-Kept_example = run-Kept worker steps table (record { unique = refl; bounded = refl })

run-sent_row_example : any (sent_row 9) (run worker steps table) ≡ true
run-sent_row_example =
    run-sent_row worker steps 9 table (record { unique = refl; bounded = refl }) refl

-- Two failed sends use up a maximum of three attempts.
twice_failed_test :
    run worker steps table
    ≡ sent_one
      ∷ (record (row 1) { status = failed; attempt = 3 })
      ∷ row 2
      ∷ (record (row 3) { channel_type = codes "webhook"; created_at = 210 })
      ∷ []
unfolding run
twice_failed_test = refl

abbrev all_well : ℕ → Outcome
all_well i = record { delivered = true; stored = true }

abbrev default_worker : NotificationWorker
default_worker = new_notification_worker config []

batch_of_one : default_worker.batch_size ≡ 1
unfolding new_notification_worker
batch_of_one = refl

run-sends_all_example :
    (count_if is_pending (run default_worker (replicate 2 (polled true 4 all_well)) table) ≡ 0)
    × (count_if is_sent (run default_worker (replicate 2 (polled true 4 all_well)) table)
        ≡ count_if is_sent table + count_if is_pending table)
run-sends_all_example =
    run-sends_all config [] all_well 4 2 table (λ i. refl) (λ i. refl) refl refl
      (omega (arith, batch_of_one)) (omega (arith, batch_of_one))

-- A channel type without a dispatcher uses up its attempts.
unknown_channel_test :
    run worker
      (polled true 1 all_well ∷ retried true 200 ∷ polled true 1 all_well ∷ [])
      (record (row 1) { channel_type = codes "fax" } ∷ [])
    ≡ record (row 1) { channel_type = codes "fax"; status = failed; attempt = 3 } ∷ []
unfolding run
unknown_channel_test = refl
