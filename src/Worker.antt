-- ===== src/Worker.antt =====
-- internal/worker/notification.go, with the queries of db/query/alerts.sql that it uses: the worker
-- that delivers alerts. A table is the list of its rows in the order of `created_at`. What the
-- channels and the store answer is an argument of each step.
use intelligent_odoo_dev_too.Prelude.{
  ℕ, suc, ◌+◌, ◌-◌, Bool, true, false, not, ◌&&◌, List, [], ◌∷◌, ◌++◌, any, keep, take, map,
  if◌then◌else◌, ltb, ◌==◌,
}
use intelligent_odoo_dev_too.Prelude.Int.{ℤ, pos, negsuc}
use intelligent_odoo_dev_too.Prelude.Text.{Bytes, codes, eqb}
pub mod Rows
pub mod Attempts
pub mod Drain

-- `NotificationConfig`, with the intervals in seconds.
pub record NotificationConfig : Type 0 where
  pub poll_interval : ℤ
  pub retry_interval : ℤ
  pub batch_size : ℤ
  pub max_attempts : ℤ

abbrev pub default_notification_config : NotificationConfig
default_notification_config = record {
  poll_interval = pos 30;
  retry_interval = pos 300;
  batch_size = pos 100;
  max_attempts = pos 3;
}

-- `alert_deliveries.status`, and the columns that the worker reads or writes.
pub data Status : Type 0 where
  pending : Status
  sent : Status
  failed : Status

pub record Delivery : Type 0 where
  pub id : ℕ
  pub channel_type : Bytes
  pub status : Status
  pub attempt : ℕ
  pub created_at : ℕ

abbrev pub is_pending : Delivery → Bool
is_pending d = elim d.status [ pending ↦ true | sent ↦ false | failed ↦ false ]

-- `NotificationWorker`, with its config after the defaults. Of the map of dispatchers it has the keys,
-- since what the `Send` of a dispatcher answers is an argument of each step.
pub record NotificationWorker : Type 0 where
  pub dispatchers : List Bytes
  pub poll_interval : ℕ
  pub retry_interval : ℕ
  pub batch_size : ℕ
  pub max_attempts : ℕ

abbrev pub or_default : ℤ → ℕ → ℕ
or_default (pos (suc n)) d = suc n
or_default _ d = d

-- `w.dispatchers[d.ChannelType()] = d`, and whether a key is there.
unfoldable pub register : Bytes → List Bytes → List Bytes
register channel [] = channel ∷ []
register channel (c ∷ cs) =
    let rest = register channel cs in if eqb c channel then c ∷ cs else c ∷ rest

unfoldable pub register_all : List Bytes → List Bytes → List Bytes
unfolding register
register_all [] dispatchers = dispatchers
register_all (channel ∷ channels) dispatchers = register_all channels (register channel dispatchers)

abbrev pub is_registered : Bytes → List Bytes → Bool
is_registered channel dispatchers = any (λ c. eqb c channel) dispatchers

abbrev pub built_in : List Bytes
built_in = codes "slack" ∷ codes "webhook" ∷ codes "email" ∷ []

-- `NewNotificationWorker`, with the channel types of the extra dispatchers.
unfoldable pub new_notification_worker : NotificationConfig → List Bytes → NotificationWorker
unfolding register_all
new_notification_worker cfg extra = record {
  dispatchers = register_all extra (register_all built_in []);
  poll_interval = or_default cfg.poll_interval 30;
  retry_interval = or_default cfg.retry_interval 300;
  batch_size = or_default cfg.batch_size 100;
  max_attempts = or_default cfg.max_attempts 3;
}

-- `ListPendingDeliveries`, `MarkDeliverySent`, `MarkDeliveryFailed` and `RetryFailedDeliveries`.
unfoldable pub list_pending_deliveries : ℕ → List Delivery → List Delivery
list_pending_deliveries limit table = take limit (keep is_pending table)

abbrev pub set_sent : Delivery → Delivery
set_sent d = record d { status = sent }

abbrev pub set_failed : Delivery → Delivery
set_failed d = record d { status = failed; attempt = d.attempt + 1 }

-- The rows with an id are updated.
unfoldable pub update_id : (Delivery → Delivery) → ℕ → List Delivery → List Delivery
update_id change id [] = []
update_id change id (d ∷ table) =
    let rest = update_id change id table in if d.id == id then change d ∷ rest else d ∷ rest

abbrev pub mark_delivery_sent : ℕ → List Delivery → List Delivery
mark_delivery_sent = update_id set_sent

abbrev pub mark_delivery_failed : ℕ → List Delivery → List Delivery
mark_delivery_failed = update_id set_failed

-- Times are in seconds.
abbrev pub retries : ℕ → ℕ → Delivery → Bool
retries max now d = elim d.status [
  | failed ↦ ltb d.attempt max && ltb now (d.created_at + 86400)
  | pending ↦ false
  | sent ↦ false
]

unfoldable pub retry_failed_deliveries : ℕ → ℕ → List Delivery → List Delivery
retry_failed_deliveries max now [] = []
retry_failed_deliveries max now (d ∷ table) =
    let rest = retry_failed_deliveries max now table in
    if retries max now d then record d { status = pending } ∷ rest else d ∷ rest

-- `CreateAlertDelivery`, with the defaults of the table, of which the id is the primary key.
abbrev pub new_delivery : ℕ → Bytes → ℕ → Delivery
new_delivery id channel now = record {
  id = id;
  channel_type = channel;
  status = pending;
  attempt = 1;
  created_at = now;
}

unfoldable pub create_alert_delivery : ℕ → Bytes → ℕ → List Delivery → List Delivery
create_alert_delivery id channel now table =
    if any (λ d. d.id == id) table then table else table ++ (new_delivery id channel now ∷ [])

-- What happens to a row: whether `Send` succeeds, and whether the store takes the update after it.
pub record Outcome : Type 0 where
  pub delivered : Bool
  pub stored : Bool

-- `dispatch`: the update that it makes.
unfoldable pub dispatch :
    NotificationWorker → (ℕ → Outcome) → Delivery → List Delivery → List Delivery
unfolding update_id
dispatch w outcome row table =
    if not (outcome row.id).stored
    then table
    else if is_registered row.channel_type w.dispatchers && (outcome row.id).delivered
    then mark_delivery_sent row.id table
    else mark_delivery_failed row.id table

-- The loop of `deliverPending`.
unfoldable pub dispatch_all :
    NotificationWorker → (ℕ → Outcome) → List Delivery → List Delivery → List Delivery
unfolding dispatch
dispatch_all w outcome [] table = table
dispatch_all w outcome (row ∷ rows) table =
    dispatch_all w outcome rows (dispatch w outcome row table)

-- A poll: whether the query succeeds, how many rows are reached before the context is canceled, and
-- the outcomes; or a reset of what can be retried, at a time: whether its query succeeds; or a new
-- delivery between them.
pub data Step : Type 0 where
  polled : Bool → ℕ → (ℕ → Outcome) → Step
  retried : Bool → ℕ → Step
  created : ℕ → Bytes → ℕ → Step

-- `deliverPending` and `resetRetryable`.
unfoldable pub deliver_pending :
    NotificationWorker → Bool → ℕ → (ℕ → Outcome) → List Delivery → List Delivery
unfolding list_pending_deliveries dispatch_all
deliver_pending w listed reached outcome table =
    if listed
    then dispatch_all w outcome (take reached (list_pending_deliveries w.batch_size table)) table
    else table

unfoldable pub reset_retryable : NotificationWorker → Bool → ℕ → List Delivery → List Delivery
unfolding retry_failed_deliveries
reset_retryable w stored now table =
    if stored then retry_failed_deliveries w.max_attempts now table else table

-- `Run`: the cases that its loop selects, one after another.
abbrev pub step : NotificationWorker → Step → List Delivery → List Delivery
step w (polled listed reached outcome) table = deliver_pending w listed reached outcome table
step w (retried stored now) table = reset_retryable w stored now table
step w (created id channel now) table = create_alert_delivery id channel now table

unfoldable pub run : NotificationWorker → List Step → List Delivery → List Delivery
unfolding deliver_pending reset_retryable create_alert_delivery
run w [] table = table
run w (s ∷ steps) table = run w steps (step w s table)
