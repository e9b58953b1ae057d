-- ===== src/Agent/Aggregator/Windows.antt =====
-- internal/agent/aggregator/aggregator.go: each batch of `Run` is about the events of one window.
use intelligent_odoo_dev_too.Prelude.{
  ℕ, ◌≡◌, refl, sym, ap, ◌∙◌, inl, inr, ◌&&◌, List, [], ◌∷◌, ◌++◌, length, ◌==◌, Bool-cases,
}
use intelligent_odoo_dev_too.Prelude.Int.{ℤ, pos, eqb_ℤ}
use intelligent_odoo_dev_too.Agent.Sampler.{Host}
use intelligent_odoo_dev_too.Agent.Aggregator.{
  Aggregator, AggregatedBatch, ingest, ingest_all, reset_window, flush, taken, flush_and_send,
  Selected, event_received, ticked, run,
}
use intelligent_odoo_dev_too.Agent.Stats.{Event}

module _ {Rate : Type 0} (h : Host Rate) where
  ingest_all_snoc :
      (a : Aggregator Rate) (seen : List (ℕ × Event)) (e : ℕ × Event)
      → ingest_all h a (seen ++ (e ∷ [])) ≡ ingest h (ingest_all h a seen) e
  unfolding ingest_all
  ingest_all_snoc a [] e = refl
  ingest_all_snoc a (x ∷ seen) e = ingest_all_snoc (ingest h a x) seen e

  -- Nothing of a window is left after it.
  reset-ingest_all :
      (now : ℕ) (a : Aggregator Rate) (seen : List (ℕ × Event))
      → reset_window now (ingest_all h a seen) ≡ reset_window now a
  unfolding ingest_all ingest
  reset-ingest_all now a [] = refl
  reset-ingest_all now a ((draw, ev) ∷ seen) = reset-ingest_all now (ingest h a (draw, ev)) seen

module _ {Rate Float64 : Type 0} (h : Host Rate) (average : ℤ → ℤ → Float64)
    (zero_avg : Float64) where
  flush-reset :
      (now : ℕ) (elapsed : ℤ) (a : Aggregator Rate)
      → (flush average zero_avg now elapsed a).1 ≡ reset_window now a
  unfolding flush
  flush-reset now elapsed a =
      elim (Bool-cases (eqb_ℤ a.window_summary.total_queries (pos 0) && (length a.raw_buf == 0))) [
        | inl e ↦ rw e refl
        | inr e ↦ rw e refl
      ]

  -- The batches of an aggregator that keeps the events since the last tick, and at a tick takes them
  -- in from the start of a window.
  pub window_batches :
      Aggregator Rate → List (ℕ × Event) → List Selected → List (AggregatedBatch Float64)
  window_batches a seen [] = []
  window_batches a seen (event_received draw ev ∷ steps) =
      window_batches a (seen ++ ((draw, ev) ∷ [])) steps
  window_batches a seen (ticked now elapsed room ∷ steps) =
      taken room (flush average zero_avg now elapsed (ingest_all h a seen)).0
      ++ window_batches (reset_window now a) [] steps

  run-seen :
      (a : Aggregator Rate) (seen : List (ℕ × Event)) (steps : List Selected)
      → (run h average zero_avg (ingest_all h a seen) steps).0 ≡ window_batches a seen steps
  unfolding run window_batches flush_and_send ingest_all
  run-seen a seen [] = refl
  run-seen a seen (event_received draw ev ∷ steps) =
      ap (λ b. (run h average zero_avg b steps).0) (sym (ingest_all_snoc h a seen (draw, ev)))
      ∙ run-seen a (seen ++ ((draw, ev) ∷ [])) steps
  run-seen a seen (ticked now elapsed room ∷ steps) =
      let batch = taken room (flush average zero_avg now elapsed (ingest_all h a seen)).0 in
      ap (λ b. batch ++ (run h average zero_avg b steps).0)
        (flush-reset now elapsed (ingest_all h a seen) ∙ reset-ingest_all h now a seen)
      ∙ ap (λ l. batch ++ l) (run-seen (reset_window now a) [] steps)

  -- For any sequence of events and ticks, the batches that `Run` sends are, for each tick at which
  -- the channel has room, the batch of the events received since the tick before, taken in from the
  -- start of a window; nothing of an earlier window is left in it.
  pub run-eq-window_batches :
      (a : Aggregator Rate) (steps : List Selected)
      → (run h average zero_avg a steps).0 ≡ window_batches a [] steps
  unfolding ingest_all
  run-eq-window_batches a steps = run-seen a [] steps
