-- ===== src/Agent/LogTailer/Delivered.antt =====
-- internal/agent/hook and internal/agent/errors together: the errors of the log reach the server.
use intelligent_odoo_dev_too.Prelude.{
  ℕ, suc, ◌≤◌, ◌≡◌, ◌≢◌, refl, sym, ap, ◌∙◌, true, false, Option, none, some, List, [], ◌∷◌, ◌++◌,
  all, length,
}
use intelligent_odoo_dev_too.Prelude.Text.{Bytes}
use intelligent_odoo_dev_too.Ringbuf.{RingBuffer}
use intelligent_odoo_dev_too.Ringbuf.Slots.{IsValid}
use intelligent_odoo_dev_too.Ringbuf.Recent.{recent}
use intelligent_odoo_dev_too.Ringbuf.Refine.{contents}
use intelligent_odoo_dev_too.Errors.Signature.{Library}
use intelligent_odoo_dev_too.Errors.Flusher.{
  ErrorEvent, no_event, Flusher, Server, FlushResult, sent, batch_of, post, flush, push_all,
}
use intelligent_odoo_dev_too.Errors.Flusher.Outcome.{
  recent-fits, push_all-IsValid, push_all-recent, Settled, was_empty, was_sent, was_kept, Marshals,
  flush-Settled,
}
use intelligent_odoo_dev_too.Agent.Sampler
use intelligent_odoo_dev_too.Agent.LogTailer.{
  LogEntry, is_error, to_error_event, allows, handle_entries, capture, tail_file, no_entry,
}
use intelligent_odoo_dev_too.Agent.LogTailer.Pieces.{is_plain, join_polls, texts_of}
use intelligent_odoo_dev_too.Agent.LogTailer.Blocks.{
  Block, block_lines, block_entries, is_continuation, Written, tail_file-blocks,
}

-- The events of the errors among some entries.
pub data Reported (lib : Library) (rounds : ℕ) : List LogEntry → List ErrorEvent → Type 0 where
  nothing_reported : Reported lib rounds [] []
  reported :
      {e : LogEntry} {ev : ErrorEvent} {es : List LogEntry} {evs : List ErrorEvent}
      → is_error e ≡ true
      → to_error_event lib rounds e ≡ some ev
      → Reported lib rounds es evs
      → Reported lib rounds (e ∷ es) (ev ∷ evs)
  passed_over :
      {e : LogEntry} {es : List LogEntry} {evs : List ErrorEvent}
      → is_error e ≡ false
      → Reported lib rounds es evs
      → Reported lib rounds (e ∷ es) evs

accepted-Settled :
    (f : Flusher) (s : Server) (c : ℕ) (events : List ErrorEvent)
    (x : FlushResult × RingBuffer ErrorEvent)
    → Settled f s c events [] x
    → events ≢ []
    → ((body : Bytes) → post f s body ≡ none)
    → x.0 ≡ sent (batch_of f events)
accepted-Settled f s c events (_, r) (was_empty e h) some_events accepts = absurd (some_events e)
accepted-Settled f s c events (_, r) (was_sent m p h) some_events accepts = refl
accepted-Settled f s c events (_, r) (was_kept {body = body} m p h) some_events accepts =
    let clash = sym p ∙ accepts body in cc

module _ {Rate : Type 0} (h : Sampler.Host Rate) (sampler : Option (Sampler.Sampler Rate))
    (lib : Library) where
  allows-errors : (sm : Option (Sampler.Sampler Rate)) (draw : ℕ) → allows h sm lib draw ≡ true
  unfolding Sampler.allow
  allows-errors none draw = refl
  allows-errors (some s) draw = refl

  handle_entries-Reported :
      (rounds : ℕ) (draws : ℕ → ℕ) (n : ℕ) {es : List LogEntry} {evs : List ErrorEvent}
      → Reported lib rounds es evs
      → handle_entries h sampler lib rounds draws n es ≡ evs
  unfolding handle_entries
  handle_entries-Reported rounds draws n nothing_reported = refl
  handle_entries-Reported rounds draws n (reported {ev = ev} e to rest) = rw e (
      rw (allows-errors sampler (draws n))
        (rw to (ap (λ evs'. ev ∷ evs') (handle_entries-Reported rounds draws (suc n) rest))))
  handle_entries-Reported rounds draws n (passed_over e rest) =
      rw e (handle_entries-Reported rounds draws (suc n) rest)

  -- If plain lines that are read are written entries after lines that are no headers, the errors among
  -- them have events, at least one and no more than a valid empty buffer holds, `json.Marshal` encodes
  -- every batch and the server accepts it, then, whatever the sampler draws, the next flush sends
  -- exactly the events of the errors, in their order.
  pub capture-flush :
      (parse_header : Bytes → Option LogEntry) (max rounds : ℕ) (draws : ℕ → ℕ)
      (polls : List (List Bytes)) (preamble : List Bytes) (bs : List Block) (evs : List ErrorEvent)
      (r : RingBuffer ErrorEvent) (f : Flusher) (s : Server)
      → all (is_plain max) (join_polls polls) ≡ true
      → join_polls polls ≡ preamble ++ block_lines bs
      → all (is_continuation parse_header) preamble ≡ true
      → Written parse_header bs
      → Reported lib rounds (block_entries bs) evs
      → evs ≢ []
      → IsValid r
      → contents no_event r ≡ []
      → length evs ≤ length r.items
      → Marshals s
      → ((body : Bytes) → post f s body ≡ none)
      → (flush f s [] (capture h sampler lib parse_header max rounds draws (texts_of polls) r)).0
        ≡ sent (batch_of f evs)
  unfolding capture
  capture-flush parse_header max rounds draws polls preamble bs evs r f s plain lines pre w rep
        some_events v empty room m accepts =
      let entries = tail_file-blocks parse_header max polls preamble bs plain lines pre w in
      let events : handle_entries h sampler lib rounds draws 0
            (tail_file parse_header max no_entry (texts_of polls))
          ≡ evs =
        ap (handle_entries h sampler lib rounds draws 0) entries
        ∙ handle_entries-Reported rounds draws 0 rep in
      let held : contents no_event (push_all r evs) ≡ evs =
        push_all-recent no_event r evs v
        ∙ ap (λ q. recent (length r.items) (q ++ evs)) empty
        ∙ recent-fits (length r.items) evs room in
      let settled = flush-Settled f s [] (push_all r evs) m (push_all-IsValid no_event r evs v) in
      ap (λ q. (flush f s [] (push_all r q)).0) events
      ∙ accepted-Settled f s (length (push_all r evs).items) evs (flush f s [] (push_all r evs))
          (rw held at settled) some_events accepts
