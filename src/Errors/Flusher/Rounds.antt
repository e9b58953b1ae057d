-- ===== src/Errors/Flusher/Rounds.antt =====
-- internal/agent/errors/flusher.go: no event is lost or sent twice while the buffer has room.
use intelligent_odoo_dev_too.Prelude.{
  ℕ, ◌+◌, ◌≤◌, ◌≡◌, ap, ◌∙◌, Bool, Option, none, some, List, [], ◌∷◌, ◌++◌, map, arith, length,
  length-append, count_if, count_if-append,
}
use intelligent_odoo_dev_too.Prelude.Text.{Bytes}
use intelligent_odoo_dev_too.Ringbuf.{RingBuffer, drain_all}
use intelligent_odoo_dev_too.Ringbuf.Slots.{IsValid}
use intelligent_odoo_dev_too.Ringbuf.Recent.{recent}
use intelligent_odoo_dev_too.Ringbuf.Refine.{contents, drain_all-eq-contents, drain_all-IsValid}
use intelligent_odoo_dev_too.Errors.Flusher.{
  ErrorEvent, EventPayload, no_event, Flusher, Server, FlushResult, PostError, payload_of, push_all,
  flush, flush_events, send, after_send, BatchPayload, batch_of, post, Tick, accepted, run_loop,
}
use intelligent_odoo_dev_too.Errors.Flusher.Outcome.{
  recent-fits, push_all-IsValid, cap-push_all, push_all-recent, Settled, was_empty, was_sent,
  was_kept, Marshals, flush-Settled,
}

-- How many of the payloads of some events pass a test.
abbrev tally : (EventPayload → Bool) → List ErrorEvent → ℕ
tally p events = count_if p (map payload_of events)

abbrev held : RingBuffer ErrorEvent → List ErrorEvent
held r = contents no_event r

tally-append :
    (p : EventPayload → Bool) (xs ys : List ErrorEvent)
    → tally p (xs ++ ys) ≡ tally p xs + tally p ys
tally-append p [] ys = omega arith
tally-append p (x ∷ xs) ys = ground (arith, tally-append p xs ys)

-- The events that pass a test are either accepted or held, and no more are held than came.
abbrev Conserved :
    (EventPayload → Bool) → ℕ → ℕ → List EventPayload × RingBuffer ErrorEvent → Type 0
Conserved p n k (payloads, r) = (count_if p payloads + tally p (held r) ≡ n) × (length (held r) ≤ k)

kept-Conserved :
    (p : EventPayload → Bool) (c : ℕ) (q : List ErrorEvent) (r : RingBuffer ErrorEvent)
    → held r ≡ recent c q
    → length q ≤ c
    → (tally p (held r) ≡ tally p q) × (length (held r) ≡ length q)
kept-Conserved p c q r h room =
    let whole : held r ≡ q = h ∙ recent-fits c q room in (ap (tally p) whole, ap length whole)

Settled-Conserved :
    (p : EventPayload → Bool) (f : Flusher) (s : Server) (c : ℕ) (events arrived : List ErrorEvent)
    (x : FlushResult × RingBuffer ErrorEvent)
    → Settled f s c events arrived x
    → length events + length arrived ≤ c
    → Conserved p
        (tally p events + tally p arrived)
        (length events + length arrived)
        (accepted x.0, x.1)
Settled-Conserved p f s c events arrived (_, r) (was_empty e h) room =
    let none_of : tally p events ≡ 0 = ap (tally p) e in
    let (a, b) = kept-Conserved p c arrived r h (omega arith) in
    (omega (arith, a, none_of), omega (arith, b))
Settled-Conserved p f s c events arrived (_, r) (was_sent m q h) room =
    let (a, b) = kept-Conserved p c arrived r h (omega arith) in
    (omega (arith, a), omega (arith, b))
Settled-Conserved p f s c events arrived (_, r) (was_kept m q h) room =
    let size = length-append arrived events in
    let (a, b) = kept-Conserved p c (arrived ++ events) r h (omega (arith, size)) in
    (omega (arith, a, tally-append p arrived events), omega (arith, b, size))

-- A buffer stays valid and keeps its capacity.
abbrev Keeps : ℕ → RingBuffer ErrorEvent → Type 0
Keeps c r = IsValid r × (length r.items ≡ c)

push_all-Keeps :
    (c : ℕ) (r : RingBuffer ErrorEvent) (xs : List ErrorEvent) → Keeps c r → Keeps c (push_all r xs)
push_all-Keeps c r xs (v, l) = (push_all-IsValid no_event r xs v, cap-push_all no_event r xs ∙ l)

after_send-Keeps :
    (c : ℕ) (events : List ErrorEvent) (payload : BatchPayload) (r : RingBuffer ErrorEvent)
    (o : Option PostError)
    → Keeps c r
    → Keeps c (after_send events payload r o).1
unfolding after_send
after_send-Keeps c events payload r none k = k
after_send-Keeps c events payload r (some e) k = push_all-Keeps c r events k

send-Keeps :
    (c : ℕ) (f : Flusher) (s : Server) (events : List ErrorEvent) (payload : BatchPayload)
    (r : RingBuffer ErrorEvent) (o : Option Bytes)
    → Keeps c r
    → Keeps c (send f s events payload r o).1
unfolding send
send-Keeps c f s events payload r none k = k
send-Keeps c f s events payload r (some body) k =
    after_send-Keeps c events payload r (post f s body) k

flush_events-Keeps :
    (c : ℕ) (f : Flusher) (s : Server) (arrived events : List ErrorEvent)
    (r : RingBuffer ErrorEvent)
    → Keeps c r
    → Keeps c (flush_events f s arrived events r).1
unfolding flush_events
flush_events-Keeps c f s arrived [] r k = push_all-Keeps c r arrived k
flush_events-Keeps c f s arrived (ev ∷ events) r k =
    send-Keeps c f s (ev ∷ events) (batch_of f (ev ∷ events)) (push_all r arrived)
      (s.marshal (batch_of f (ev ∷ events))) (push_all-Keeps c r arrived k)

flush-Keeps :
    (c : ℕ) (f : Flusher) (s : Server) (arrived : List ErrorEvent) (r : RingBuffer ErrorEvent)
    → Keeps c r
    → Keeps c (flush f s arrived r).1
unfolding flush
flush-Keeps c f s arrived r (v, l) =
    let (drained, left, same) = drain_all-eq-contents no_event r in
    flush_events-Keeps c f s arrived (drain_all no_event r).0 (drain_all no_event r).1
      (drain_all-IsValid no_event r v, ap length same ∙ l)

-- One tick.
flush-Conserved :
    (p : EventPayload → Bool) (f : Flusher) (t : Tick) (c : ℕ) (r : RingBuffer ErrorEvent)
    → Marshals t.server
    → Keeps c r
    → length (held r) + (length t.pushed_before + length t.pushed_during) ≤ c
    → (let x = flush f t.server t.pushed_during (push_all r t.pushed_before) in
        Conserved p
          (tally p (held r) + (tally p t.pushed_before + tally p t.pushed_during))
          (length (held r) + (length t.pushed_before + length t.pushed_during))
          (accepted x.0, x.1))
flush-Conserved p f t c r m (v, l) room =
    let before = t.pushed_before in
    let (v', l') = push_all-Keeps c r before (v, l) in
    let size = length-append (held r) before in
    let whole : held (push_all r before) ≡ held r ++ before =
      push_all-recent no_event r before v
      ∙ recent-fits (length r.items) (held r ++ before) (omega (arith, size, l)) in
    let measured : length (held (push_all r before)) ≡ length (held r ++ before) =
      ap length whole in
    let tallied : tally p (held (push_all r before)) ≡ tally p (held r ++ before) =
      ap (tally p) whole in
    let (a, b) =
      Settled-Conserved p f t.server (length (push_all r before).items) (held (push_all r before))
        t.pushed_during (flush f t.server t.pushed_during (push_all r before))
        (flush-Settled f t.server t.pushed_during (push_all r before) m v')
        (omega (arith, measured, size, l')) in
    (omega (arith, a, tallied, tally-append p (held r) before), omega (arith, b, measured, size))

-- What is pushed over some ticks.
abbrev pushed : List Tick → List ErrorEvent
pushed [] = []
pushed (t ∷ ticks) = t.pushed_before ++ (t.pushed_during ++ pushed ticks)

abbrev AllMarshal : List Tick → Type 0
AllMarshal [] = Unit
AllMarshal (t ∷ ticks) = Marshals t.server × AllMarshal ticks

-- The loop of `RunLoop`, over any ticks: if `json.Marshal` encodes every batch at every tick, and a
-- valid buffer has room for the events that it holds and all that are pushed, then, whatever the
-- server answers to the requests, of the events of any kind as many have been accepted by the server
-- or are held at the end as were held at first or pushed.
pub run_loop-Conserved :
    (p : EventPayload → Bool) (f : Flusher) (c : ℕ) (ticks : List Tick) (r : RingBuffer ErrorEvent)
    → AllMarshal ticks
    → Keeps c r
    → length (held r) + length (pushed ticks) ≤ c
    → count_if p (run_loop f ticks r).0 + tally p (held (run_loop f ticks r).1)
      ≡ tally p (held r) + tally p (pushed ticks)
unfolding run_loop
run_loop-Conserved p f c [] r m k room = omega arith
run_loop-Conserved p f c (t ∷ ticks) r (m, ms) k room =
    let rest = t.pushed_during ++ pushed ticks in
    let size = length-append t.pushed_before rest in
    let size' = length-append t.pushed_during (pushed ticks) in
    let (result, r') = flush f t.server t.pushed_during (push_all r t.pushed_before) in
    let (a, b) = flush-Conserved p f t c r m k (omega (arith, size, size', room)) in
    let later =
      run_loop-Conserved p f c ticks r' ms
        (flush-Keeps c f t.server t.pushed_during (push_all r t.pushed_before)
          (push_all-Keeps c r t.pushed_before k))
        (omega (arith, b, size, size', room)) in
    omega (
      arith,
      a,
      later,
      count_if-append p (accepted result) (run_loop f ticks r').0,
      tally-append p t.pushed_before rest,
      tally-append p t.pushed_during (pushed ticks),
    )
