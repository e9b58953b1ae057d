-- ===== src/Examples/LogTailer.antt =====
-- internal/agent/hook on a log of two entries, read in two polls.
use intelligent_odoo_dev_too.Prelude.{
  Option, none, some, List, ◌≡◌, refl, sym, arith, [], ◌∷◌, if◌then◌else◌,
}
use intelligent_odoo_dev_too.Prelude.Text.{Bytes, codes, has_prefix}
use intelligent_odoo_dev_too.Prelude.Int.{pos}
use intelligent_odoo_dev_too.Ringbuf.{RingBuffer, drain_all}
use intelligent_odoo_dev_too.Ringbuf.Slots.{IsValid}
use intelligent_odoo_dev_too.Ringbuf.Refine.{contents, drain_all-eq-contents}
use intelligent_odoo_dev_too.Errors.Signature.{Library, generate_signature}
use intelligent_odoo_dev_too.Errors.Flusher.{
  ErrorEvent, no_event, Server, Flusher, post, flush, sent, batch_of,
}
use intelligent_odoo_dev_too.Agent.LogTailer.{
  LogEntry, no_entry, tail_file, to_error_event, capture,
}
use intelligent_odoo_dev_too.Agent.LogTailer.Delivered.{
  reported, passed_over, nothing_reported, capture-flush,
}
use intelligent_odoo_dev_too.Examples.Agent.{percent_host}
use intelligent_odoo_dev_too.Agent.LogTailer.Pieces.{texts_of}
use intelligent_odoo_dev_too.Agent.LogTailer.Blocks.{
  Block, block_entry, block_entries, nothing_written, written, tail_file-blocks,
}

abbrev entry_at : Bytes → LogEntry
entry_at line = record {
  timestamp = 0;
  pid = codes "1";
  level = if has_prefix (codes "2024 f") line then codes "ERROR" else codes "INFO";
  db_name = codes "db";
  logger = codes "odoo.http";
  message = line;
  contiguous = [];
}

-- Headers start with a digit.
abbrev parse_header : Bytes → Option LogEntry
parse_header line = if has_prefix (codes "2024") line then some (entry_at line) else none

abbrev failure : Block
failure = record {
  header = codes "2024 failed";
  entry = entry_at (codes "2024 failed");
  continuation = codes "Traceback" ∷ [] ∷ codes "ValueError" ∷ [];
}

abbrev success : Block
success = record {
  header = codes "2024 done";
  entry = entry_at (codes "2024 done");
  continuation = [];
}

abbrev polls : List (List Bytes)
polls =
    (codes "the end of an older entry" ∷ codes "2024 failed" ∷ codes "Traceback" ∷ [])
    ∷ ([] ∷ codes "ValueError" ∷ codes "2024 done" ∷ [])
    ∷ []

tail_file-blocks_example :
    tail_file parse_header 1048576 no_entry (texts_of polls)
    ≡ block_entries (failure ∷ success ∷ [])
tail_file-blocks_example =
    tail_file-blocks parse_header 1048576 polls (codes "the end of an older entry" ∷ [])
      (failure ∷ success ∷ []) refl refl refl
      (written refl refl refl (written refl refl refl nothing_written))

-- A header that a poll reads in two parts is cut short, and its rest becomes a continuation.
cut_header_test :
    tail_file parse_header 1048576 no_entry (codes "2024 fai" ∷ codes "led\n" ∷ [])
    ≡ record (entry_at (codes "2024 fai")) { contiguous = codes "led" } ∷ []
unfolding tail_file
cut_header_test = refl

abbrev pub plain_text : Library
plain_text = record {
  replace_dynamic = λ s. s;
  hash16 = λ s. s;
  unicode_trim = λ s. s;
  unicode_fields = λ s. s;
}

abbrev or_no_event : Option ErrorEvent → ErrorEvent
or_no_event none = no_event
or_no_event (some ev) = ev

abbrev failure_event : ErrorEvent
failure_event = or_no_event (to_error_event plain_text 3 (block_entry failure))

failure_reported : to_error_event plain_text 3 (block_entry failure) ≡ some failure_event
unfolding to_error_event generate_signature
failure_reported = refl

abbrev pub buffer : RingBuffer ErrorEvent
buffer = record { items = no_event ∷ no_event ∷ []; head = 0; count = 0 }

buffer-IsValid : IsValid buffer
buffer-IsValid = record { nonempty = omega arith; head_in = omega arith; count_in = omega arith }

contents-buffer : contents no_event buffer ≡ []
unfolding drain_all
contents-buffer = let (drained, left, same) = drain_all-eq-contents no_event buffer in sym drained

abbrev server : Server
server = record {
  marshal = λ payload. some (codes "batch");
  first_post = λ endpoint body key. some 200;
  second_post = λ endpoint body key. some 200;
  api_key = codes "key";
  refresh = none;
}

abbrev flusher : Flusher
flusher = record {
  server_url = codes "https://host";
  flusher_env_id = codes "env";
  threshold = pos 0;
}

accepts : (body : Bytes) → post flusher server body ≡ none
unfolding post
accepts body = refl

capture-flush_example :
    (flush flusher server [] (
      capture percent_host none plain_text parse_header 1048576 3
        (λ n. n)
        (texts_of polls)
        buffer)).0
    ≡ sent (batch_of flusher (failure_event ∷ []))
capture-flush_example =
    capture-flush percent_host none plain_text parse_header 1048576 3 (λ n. n) polls
      (codes "the end of an older entry" ∷ []) (failure ∷ success ∷ []) (failure_event ∷ []) buffer
      flusher server refl refl refl
      (written refl refl refl (written refl refl refl nothing_written))
      (reported refl failure_reported (passed_over refl nothing_reported)) (λ e. cc) buffer-IsValid
      contents-buffer (omega arith) (λ payload. (codes "batch", refl)) accepts
