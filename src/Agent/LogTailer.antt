-- ===== src/Agent/LogTailer.antt =====
-- internal/agent/hook/traceback.go and logparser.go: entries of the log of Odoo, and the errors that the
-- tailer captures from it. The file is what each poll reads; rotation, which flushes and opens the
-- file again, is a new run.
use mathlib.Core.Option
use intelligent_odoo_dev_too.Prelude.{
  ℕ, suc, Bool, true, false, not, ◌&&◌, ◌||◌, Option, none, some, List, [], ◌∷◌, ◌++◌, take,
  if◌then◌else◌, ◌==◌,
}
use intelligent_odoo_dev_too.Prelude.Int.{pos}
use intelligent_odoo_dev_too.Prelude.Text.{Bytes, codes, eqb, strip_prefix, span}
use intelligent_odoo_dev_too.Errors.Signature.{Library, extract_traceback, generate_signature}
use intelligent_odoo_dev_too.Errors.Exceptions.{parse_error_type}
use intelligent_odoo_dev_too.Errors.Flusher.{ErrorEvent, push_all}
use intelligent_odoo_dev_too.Ringbuf.{RingBuffer}
use intelligent_odoo_dev_too.Agent.Sampler
pub mod Pieces
pub mod Blocks
pub mod Delivered

-- `LogEntry`.
pub record LogEntry : Type 0 where
  pub timestamp : ℕ
  pub pid : Bytes
  pub level : Bytes
  pub db_name : Bytes
  pub logger : Bytes
  pub message : Bytes
  pub contiguous : Bytes

abbrev pub is_empty : Bytes → Bool
is_empty [] = true
is_empty (c ∷ s) = false

-- `FullMessage` and `IsError`.
abbrev pub full_message : LogEntry → Bytes
full_message e = if is_empty e.contiguous then e.message else e.message ++ (10 ∷ e.contiguous)

abbrev pub is_error : LogEntry → Bool
is_error e = eqb e.level (codes "ERROR") || eqb e.level (codes "CRITICAL")

-- `EntryAccumulator`.
pub record EntryAccumulator : Type 0 where
  pub current : Option LogEntry
  pub cont_buf : Bytes

abbrev pub no_entry : EntryAccumulator
no_entry = record { current = none; cont_buf = [] }

abbrev pub finished : Bytes → Option LogEntry → Option LogEntry
finished buf none = none
finished buf (some e) = some (record e { contiguous = buf })

-- `Feed`, with what `logLineRe` and `parseOdooTimestamp` make of the line: a new entry, or none.
abbrev pub continued : Bytes → Bytes → Bytes
continued buf line = if is_empty buf then line else buf ++ (10 ∷ line)

abbrev pub feed_continuation : Bytes → EntryAccumulator → EntryAccumulator
feed_continuation line acc = elim acc.current [
  | none ↦ acc
  | some e ↦ record acc { cont_buf = continued acc.cont_buf line }
]

abbrev pub feed_parsed :
    Bytes → EntryAccumulator → Option LogEntry → Option LogEntry × EntryAccumulator
feed_parsed line acc none = (none, feed_continuation line acc)
feed_parsed line acc (some e) =
    (finished acc.cont_buf acc.current, record { current = some e; cont_buf = [] })

unfoldable pub feed :
    (Bytes → Option LogEntry) → EntryAccumulator → Bytes → Option LogEntry × EntryAccumulator
feed parse_header acc line = feed_parsed line acc (parse_header line)

-- `Flush`.
unfoldable pub flush : EntryAccumulator → Option LogEntry × EntryAccumulator
flush acc = elim acc.current [
  | none ↦ (none, acc)
  | some e ↦ (finished acc.cont_buf acc.current, no_entry)
]

-- `splitLogger`.
abbrev pub trim_prefix : Bytes → Bytes → Bytes
trim_prefix p s = elim (strip_prefix p s) [ some rest ↦ rest | none ↦ s ]

abbrev pub after_dot : Bytes × Bytes → Bytes × Bytes
after_dot (module_name, []) = (module_name, [])
after_dot (module_name, dot ∷ model) = (module_name, model)

abbrev pub split_logger : Bytes → Bytes × Bytes
split_logger logger = after_dot (
    span (λ c. not (c == b'.'))
      (trim_prefix (codes "odoo.") (trim_prefix (codes "odoo.addons.") logger)))

-- `ToErrorEvent`; it is none when the signature takes more rounds than given, as it does for ever on
-- some messages.
unfoldable pub to_error_event : Library → ℕ → LogEntry → Option ErrorEvent
to_error_event lib rounds e =
    let full = full_message e in
    let error_type = parse_error_type lib full in
    let traceback = extract_traceback full in
    let (module_name, model) = split_logger e.logger in
    Option.map
      (λ signature. record {
        signature = signature;
        error_type = error_type;
        message = full;
        module_name = module_name;
        model = model;
        traceback = traceback;
        user_id = pos 0;
        request_url = [];
        log_id = pos 0;
        captured_at = e.timestamp;
      })
      (generate_signature lib rounds error_type full traceback)

-- `stripNewline`.
unfoldable pub strip_last : ℕ → Bytes → Bytes
strip_last c [] = []
strip_last c (x ∷ []) = if x == c then [] else x ∷ []
strip_last c (x ∷ y ∷ s) = x ∷ strip_last c (y ∷ s)

abbrev pub strip_newline : Bytes → Bytes
strip_newline s = strip_last 13 (strip_last 10 s)

-- What the calls of `ReadString` give until the end of the data: a last piece may lack its newline.
abbrev pub on_first : ℕ → List Bytes → List Bytes
on_first c [] = (c ∷ []) ∷ []
on_first c (p ∷ ps) = (c ∷ p) ∷ ps

unfoldable pub pieces : Bytes → List Bytes
pieces [] = []
pieces (c ∷ s) = if c == 10 then (c ∷ []) ∷ pieces s else on_first c (pieces s)

abbrev pub emit : Option LogEntry → List LogEntry → List LogEntry
emit none rest = rest
emit (some e) rest = e ∷ rest

-- `readLines`, with the entries that are complete; a line is cut at `MaxLineLength`.
unfoldable pub feed_pieces :
    (Bytes → Option LogEntry) → ℕ → EntryAccumulator → List Bytes → List LogEntry × EntryAccumulator
unfolding feed strip_last
feed_pieces parse_header max acc [] = ([], acc)
feed_pieces parse_header max acc (p ∷ ps) =
    let (done, next) = feed parse_header acc (take max (strip_newline p)) in
    let (entries, final) = feed_pieces parse_header max next ps in (emit done entries, final)

abbrev pub read_lines :
    (Bytes → Option LogEntry) → ℕ → EntryAccumulator → Bytes → List LogEntry × EntryAccumulator
read_lines parse_header max acc text = feed_pieces parse_header max acc (pieces text)

-- `tailFile`: the entries of the polls, and the one that is flushed at the end.
unfoldable pub tail_file :
    (Bytes → Option LogEntry) → ℕ → EntryAccumulator → List Bytes → List LogEntry
unfolding feed_pieces pieces flush
tail_file parse_header max acc [] = emit (flush acc).0 []
tail_file parse_header max acc (text ∷ polls) =
    let (entries, next) = read_lines parse_header max acc text in
    entries ++ tail_file parse_header max next polls

module _ {Rate : Type 0} (h : Sampler.Host Rate) (sampler : Option (Sampler.Sampler Rate))
    (lib : Library) where
  -- `handleEntry`, with the draw of the sampler; with no sampler every error is kept.
  abbrev pub error_info : Sampler.EventInfo
  error_info = record {
    category = codes "error";
    duration_ms = pos 0;
    is_error = true;
    is_n1 = false;
  }

  abbrev pub allows : ℕ → Bool
  allows draw = elim sampler [ some s ↦ Sampler.allow h s draw error_info | none ↦ true ]

  -- The events of some entries; after one whose event does not come there are none.
  abbrev pub then_events : Option ErrorEvent → List ErrorEvent → List ErrorEvent
  then_events none rest = []
  then_events (some ev) rest = ev ∷ rest

  unfoldable pub handle_entries : ℕ → (ℕ → ℕ) → ℕ → List LogEntry → List ErrorEvent
  unfolding to_error_event Sampler.allow
  handle_entries rounds draws n [] = []
  handle_entries rounds draws n (e ∷ entries) =
      let rest = handle_entries rounds draws (suc n) entries in
      if is_error e && allows (draws n)
      then then_events (to_error_event lib rounds e) rest
      else rest

  -- A run of the tailer, which pushes its events to the buffer.
  unfoldable pub capture :
      (Bytes → Option LogEntry)
      → ℕ
      → ℕ
      → (ℕ → ℕ)
      → List Bytes
      → RingBuffer ErrorEvent
      → RingBuffer ErrorEvent
  unfolding tail_file handle_entries push_all
  capture parse_header max rounds draws polls r =
      push_all r (handle_entries rounds draws 0 (tail_file parse_header max no_entry polls))
