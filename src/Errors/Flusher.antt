-- ===== src/Errors/Flusher.antt =====
-- internal/agent/errors/flusher.go and event.go: the batches of error events. The server, the
-- credentials and `json.Marshal` are a parameter; a time is a number of it.
use intelligent_odoo_dev_too.Prelude.{
  ℕ, Bool, true, false, not, ◌||◌, ◌&&◌, Option, none, some, List, [], ◌∷◌, ◌++◌, map,
  if◌then◌else◌, ◌==◌, leb, ltb,
}
use intelligent_odoo_dev_too.Prelude.Int.{ℤ, pos, eqb_ℤ}
use intelligent_odoo_dev_too.Prelude.Text.{Bytes, codes}
use intelligent_odoo_dev_too.Ringbuf.{RingBuffer, push, drain_all}
use intelligent_odoo_dev_too.Errors.Signature.{is_empty}
pub mod Outcome
pub mod Rounds

-- `ErrorEvent`.
pub record ErrorEvent : Type 0 where
  pub signature : Bytes
  pub error_type : Bytes
  pub message : Bytes
  pub module_name : Bytes
  pub model : Bytes
  pub traceback : Bytes
  pub user_id : ℤ
  pub request_url : Bytes
  pub log_id : ℤ
  pub captured_at : ℕ

abbrev pub no_event : ErrorEvent
no_event = record {
  signature = [];
  error_type = [];
  message = [];
  module_name = [];
  model = [];
  traceback = [];
  user_id = pos 0;
  request_url = [];
  log_id = pos 0;
  captured_at = 0;
}

-- `eventContext`, `eventPayload` and `batchPayload`.
pub record EventContext : Type 0 where
  pub uid : ℤ
  pub url : Bytes

pub record EventPayload : Type 0 where
  pub event_signature : Bytes
  pub kind : Bytes
  pub text : Bytes
  pub from_module : Bytes
  pub from_model : Bytes
  pub timestamp : ℕ
  pub trace : Bytes
  pub context : Option EventContext

pub record BatchPayload : Type 0 where
  pub env_id : Bytes
  pub events : List EventPayload
  pub spike_threshold : ℤ

abbrev pub context_of : ErrorEvent → Option EventContext
context_of ev =
    if not (eqb_ℤ ev.user_id (pos 0)) || not (is_empty ev.request_url)
    then some (record { uid = ev.user_id; url = ev.request_url })
    else none

abbrev pub payload_of : ErrorEvent → EventPayload
payload_of ev = record {
  event_signature = ev.signature;
  kind = ev.error_type;
  text = ev.message;
  from_module = ev.module_name;
  from_model = ev.model;
  timestamp = ev.captured_at;
  trace = ev.traceback;
  context = context_of ev;
}

-- The server during one flush: what `doPost` answers to the first and to the second request, with
-- its body and key (`none` for an error), and `RefreshOnUnauthorized`.
pub record Server : Type 0 where
  pub marshal : BatchPayload → Option Bytes
  pub first_post : Bytes → Bytes → Bytes → Option ℕ
  pub second_post : Bytes → Bytes → Bytes → Option ℕ
  pub api_key : Bytes
  pub refresh : Option Bytes

-- `Flusher` without its buffer.
pub record Flusher : Type 0 where
  pub server_url : Bytes
  pub flusher_env_id : Bytes
  pub threshold : ℤ

pub data PostError : Type 0 where
  request_failed : PostError
  refresh_failed : PostError
  server_returned : ℕ → PostError

-- `post`: the error, if there is one.
abbrev pub check_status : ℕ → Option PostError
check_status status =
    if ltb status 200 || leb 300 status then some (server_returned status) else none

abbrev pub after_retry : Option ℕ → Option PostError
after_retry none = some request_failed
after_retry (some status) = check_status status

abbrev pub retry : Server → Bytes → Bytes → Option Bytes → Option PostError
retry s endpoint body none = some refresh_failed
retry s endpoint body (some key) = after_retry (s.second_post endpoint body key)

abbrev pub after_post : Server → Bytes → Bytes → Option ℕ → Option PostError
after_post s endpoint body none = some request_failed
after_post s endpoint body (some status) =
    if status == 401 then retry s endpoint body s.refresh else check_status status

unfoldable pub post : Flusher → Server → Bytes → Option PostError
post f s body =
    let endpoint = f.server_url ++ codes "/api/v1/agent/errors" in
    after_post s endpoint body (s.first_post endpoint body s.api_key)

-- `Flush`: nothing to send, an error, or the batch that the server has accepted.
pub data FlushResult : Type 0 where
  nothing : FlushResult
  marshal_failed : FlushResult
  post_failed : PostError → FlushResult
  sent : BatchPayload → FlushResult

unfoldable pub push_all {ℓ} : {A : Type ℓ} → RingBuffer A → List A → RingBuffer A
push_all r [] = r
push_all r (x ∷ xs) = push_all (push r x) xs

abbrev pub batch_of : Flusher → List ErrorEvent → BatchPayload
batch_of f events = record {
  env_id = f.flusher_env_id;
  events = map payload_of events;
  spike_threshold = f.threshold;
}

abbrev Buffer : Type 0
Buffer = RingBuffer ErrorEvent

unfoldable pub after_send :
    List ErrorEvent → BatchPayload → Buffer → Option PostError → FlushResult × Buffer
unfolding push_all
after_send events payload r (some e) = (post_failed e, push_all r events)
after_send events payload r none = (sent payload, r)

unfoldable pub send :
    Flusher → Server → List ErrorEvent → BatchPayload → Buffer → Option Bytes → FlushResult × Buffer
unfolding post after_send
send f s events payload r none = (marshal_failed, r)
send f s events payload r (some body) = after_send events payload r (post f s body)

-- The events that the collectors push while the request is under way are an argument.
unfoldable pub flush_events :
    Flusher → Server → List ErrorEvent → List ErrorEvent → Buffer → FlushResult × Buffer
unfolding send push_all
flush_events f s arrived [] r = (nothing, push_all r arrived)
flush_events f s arrived (ev ∷ events) r =
    let payload = batch_of f (ev ∷ events) in
    send f s (ev ∷ events) payload (push_all r arrived) (s.marshal payload)

unfoldable pub flush : Flusher → Server → List ErrorEvent → Buffer → FlushResult × Buffer
unfolding flush_events drain_all
flush f s arrived r = flush_events f s arrived (drain_all no_event r).0 (drain_all no_event r).1

-- `RunLoop`: at each tick, the events that were pushed since the last one, the server, and the
-- events that are pushed during the flush. The tick after the context ends is the last one.
pub record Tick : Type 0 where
  pub pushed_before : List ErrorEvent
  pub server : Server
  pub pushed_during : List ErrorEvent

abbrev pub accepted : FlushResult → List EventPayload
accepted (sent payload) = payload.events
accepted _ = []

-- What the server has accepted, and the buffer.
unfoldable pub run_loop : Flusher → List Tick → Buffer → List EventPayload × Buffer
unfolding flush push_all
run_loop f [] r = ([], r)
run_loop f (t ∷ ticks) r =
    let (result, r') = flush f t.server t.pushed_during (push_all r t.pushed_before) in
    let (later, r'') = run_loop f ticks r' in (accepted result ++ later, r'')
