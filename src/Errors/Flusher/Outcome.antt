-- ===== src/Errors/Flusher/Outcome.antt =====
-- internal/agent/errors/flusher.go: what a flush does to the buffer, and what repeated flushes lose.
use intelligent_odoo_dev_too.Prelude.{
  ℕ, ◌-◌, ◌≤◌, ◌<◌, ◌≡◌, refl, sym, ap, ap₂, ◌∙◌, subst, Option, none, some, List, [], ◌∷◌, ◌++◌,
  arith, length, append-nil, append_assoc, length-drop,
}
use intelligent_odoo_dev_too.Prelude.Text.{Bytes}
use intelligent_odoo_dev_too.Ringbuf.{RingBuffer, push, drain_all}
use intelligent_odoo_dev_too.Ringbuf.Slots.{IsValid, push-IsValid}
use intelligent_odoo_dev_too.Ringbuf.Recent.{recent, recent-recent_snoc, drop_congr}
use intelligent_odoo_dev_too.Ringbuf.Refine.{
  contents, length-contents, push-recent, cap-push, drain_all-eq-contents, drain_all-IsValid,
}
use intelligent_odoo_dev_too.Errors.Flusher.{
  ErrorEvent, no_event, Flusher, Server, FlushResult, nothing, post_failed, sent, PostError,
  BatchPayload, push_all, flush, flush_events, send, after_send, batch_of, post,
}

module _ {ℓ} {A : Type ℓ} where
  -- A list that fits is kept whole.
  pub recent-fits : (c : ℕ) (q : List A) → length q ≤ c → recent c q ≡ q
  unfolding recent
  recent-fits c q h = let none_lost : length q - c ≡ 0 = omega arith in drop_congr q none_lost

  pub length-recent : (c : ℕ) (q : List A) → length (recent c q) ≤ c
  unfolding recent
  length-recent c q = omega (arith, length-drop (length q - c) q)

  pub recent-recent_append :
      (c : ℕ) (q xs : List A) → 0 < c → recent c (recent c q ++ xs) ≡ recent c (q ++ xs)
  recent-recent_append c q [] h =
      ap (recent c) (append-nil (recent c q))
      ∙ recent-fits c (recent c q) (length-recent c q)
      ∙ sym (ap (recent c) (append-nil q))
  recent-recent_append c q (x ∷ xs) h =
      ap (recent c) (sym (append_assoc (recent c q) (x ∷ []) xs))
      ∙ sym (recent-recent_append c (recent c q ++ (x ∷ [])) xs h)
      ∙ ap (λ l. recent c (l ++ xs)) (recent-recent_snoc c q x h)
      ∙ recent-recent_append c (q ++ (x ∷ [])) xs h
      ∙ ap (recent c) (append_assoc q (x ∷ []) xs)

module _ {ℓ} {A : Type ℓ} (d : A) where
  pub push_all-IsValid : (r : RingBuffer A) (xs : List A) → IsValid r → IsValid (push_all r xs)
  unfolding push_all
  push_all-IsValid r [] v = v
  push_all-IsValid r (x ∷ xs) v = push_all-IsValid (push r x) xs (push-IsValid r x v)

  pub cap-push_all :
      (r : RingBuffer A) (xs : List A) → length (push_all r xs).items ≡ length r.items
  unfolding push_all
  cap-push_all r [] = refl
  cap-push_all r (x ∷ xs) = cap-push_all (push r x) xs ∙ cap-push d r x

  pub push_all-recent :
      (r : RingBuffer A) (xs : List A)
      → IsValid r
      → contents d (push_all r xs) ≡ recent (length r.items) (contents d r ++ xs)
  unfolding push_all
  push_all-recent r [] v = sym (
      ap (recent (length r.items)) (append-nil (contents d r))
      ∙ recent-fits (length r.items) (contents d r)
          (omega (arith, length-contents d r, v.count_in)))
  push_all-recent r (x ∷ xs) v =
      push_all-recent (push r x) xs (push-IsValid r x v)
      ∙ ap₂ (λ c q. recent c (q ++ xs)) (cap-push d r x) (push-recent d r x v)
      ∙ recent-recent_append (length r.items) (contents d r ++ (x ∷ [])) xs v.nonempty
      ∙ ap (recent (length r.items)) (append_assoc (contents d r) (x ∷ []) xs)

abbrev held : RingBuffer ErrorEvent → List ErrorEvent
held r = contents no_event r

-- What a flush may do with the events that the buffer held and those that arrive meanwhile.
pub data Settled (f : Flusher) (s : Server) (c : ℕ) (events arrived : List ErrorEvent)
    : FlushResult × RingBuffer ErrorEvent → Type 0 where
  was_empty :
      {r : RingBuffer ErrorEvent}
      → events ≡ []
      → held r ≡ recent c arrived
      → Settled f s c events arrived (nothing, r)
  was_sent :
      {r : RingBuffer ErrorEvent} {body : Bytes}
      → s.marshal (batch_of f events) ≡ some body
      → post f s body ≡ none
      → held r ≡ recent c arrived
      → Settled f s c events arrived (sent (batch_of f events), r)
  was_kept :
      {r : RingBuffer ErrorEvent} {body : Bytes} {e : PostError}
      → s.marshal (batch_of f events) ≡ some body
      → post f s body ≡ some e
      → held r ≡ recent c (arrived ++ events)
      → Settled f s c events arrived (post_failed e, r)

abbrev pub Marshals : Server → Type 0
Marshals s = (payload : BatchPayload) → (body : Bytes) × (s.marshal payload ≡ some body)

module _ (f : Flusher) (s : Server) (c : ℕ) (arrived : List ErrorEvent) where
  after_send-Settled :
      (events : List ErrorEvent) (body : Bytes) (o : Option PostError) (r : RingBuffer ErrorEvent)
      → IsValid r
      → length r.items ≡ c
      → s.marshal (batch_of f events) ≡ some body
      → post f s body ≡ o
      → held r ≡ recent c arrived
      → Settled f s c events arrived (after_send events (batch_of f events) r o)
  unfolding after_send
  after_send-Settled events body none r v l m p h = was_sent m p h
  after_send-Settled events body (some e) r v l m p h = was_kept m p (
      push_all-recent no_event r events v
      ∙ ap₂ (λ k q. recent k (q ++ events)) l h
      ∙ recent-recent_append c arrived events (omega (arith, v.nonempty)))

  send-Settled :
      (events : List ErrorEvent) (o : Option Bytes) (body : Bytes) (r : RingBuffer ErrorEvent)
      → IsValid r
      → length r.items ≡ c
      → s.marshal (batch_of f events) ≡ o
      → o ≡ some body
      → held r ≡ recent c arrived
      → Settled f s c events arrived (send f s events (batch_of f events) r o)
  unfolding send
  send-Settled events none body r v l m e h = cc
  send-Settled events (some b) body r v l m e h =
      after_send-Settled events b (post f s b) r v l m refl h

  held-push_all :
      (r : RingBuffer ErrorEvent)
      → IsValid r
      → length r.items ≡ c
      → held r ≡ []
      → held (push_all r arrived) ≡ recent c arrived
  held-push_all r v l h =
      push_all-recent no_event r arrived v ∙ ap₂ (λ k q. recent k (q ++ arrived)) l h

  flush_events-Settled :
      (events : List ErrorEvent) (r : RingBuffer ErrorEvent)
      → Marshals s
      → IsValid r
      → length r.items ≡ c
      → held r ≡ []
      → Settled f s c events arrived (flush_events f s arrived events r)
  unfolding flush_events
  flush_events-Settled [] r m v l h = was_empty refl (held-push_all r v l h)
  flush_events-Settled (ev ∷ events) r m v l h =
      let (body, e) = m (batch_of f (ev ∷ events)) in
      send-Settled (ev ∷ events) (s.marshal (batch_of f (ev ∷ events))) body (push_all r arrived)
        (push_all-IsValid no_event r arrived v) (cap-push_all no_event r arrived ∙ l) refl e
        (held-push_all r v l h)

-- If `json.Marshal` encodes every batch, a flush of a valid buffer does nothing to an empty buffer;
-- or it sends the batch of exactly the events held, in their order, which the server accepts, and
-- leaves the last `cap` of those that arrived meanwhile; or the server does not accept it, and the
-- buffer holds the last `cap` of those that arrived meanwhile followed by those it held.
pub flush-Settled :
    (f : Flusher) (s : Server) (arrived : List ErrorEvent) (r : RingBuffer ErrorEvent)
    → Marshals s
    → IsValid r
    → Settled f s (length r.items) (contents no_event r) arrived (flush f s arrived r)
unfolding flush
flush-Settled f s arrived r m v =
    let (drained, left, same) = drain_all-eq-contents no_event r in
    subst (λ events. Settled f s (length r.items) events arrived (flush f s arrived r)) drained
      (flush_events-Settled f s (length r.items) arrived (drain_all no_event r).0
        (drain_all no_event r).1 m (drain_all-IsValid no_event r v) (ap length same) left)
