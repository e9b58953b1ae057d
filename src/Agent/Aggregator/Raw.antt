-- ===== src/Agent/Aggregator/Raw.antt =====
-- internal/agent/aggregator/aggregator.go: which raw events a window holds.
use intelligent_odoo_dev_too.Prelude.{
  ℕ, ◌≤◌, ◌<◌, ◌≡◌, refl, sym, ap, ◌∙◌, inl, inr, Bool, true, false, not, ◌&&◌, ◌||◌, List, [], ◌∷◌,
  ◌++◌, map, arith, length, keep, keep-append, count_if-append, count_if-le, count_if,
  if◌then◌else◌, Bool-cases, append_assoc, append-nil,
}
use intelligent_odoo_dev_too.Prelude.Int.{pos, ltb_ℤ, leb_ℤ}
use intelligent_odoo_dev_too.Agent.Sampler.{Host}
use intelligent_odoo_dev_too.Agent.Aggregator.{
  Aggregator, always_keep, appends, ingest, ingest_all, keep_with, reset_window,
}
use intelligent_odoo_dev_too.Agent.Stats.{Event}

-- Events of which the window keeps a sample only.
abbrev other : Event → Bool
other ev = not (always_keep ev)

-- An append that a test guards.
module _ {A : Type 0} (p : A → Bool) (x : A) where
  append_if-keep :
      (b : Bool) (raw : List A)
      → (p x ≡ true → b ≡ true)
      → keep p (if b then raw ++ (x ∷ []) else raw) ≡ keep p raw ++ keep p (x ∷ [])
  append_if-keep true raw g = keep-append p raw (x ∷ [])
  append_if-keep false raw g = elim (Bool-cases (p x)) [
    | inl e ↦ let impossible = g e in cc
    | inr e ↦ rw e (sym (append-nil (keep p raw)))
  ]

  append_if-bound :
      (b : Bool) (m : ℕ) (raw : List A)
      → (p x ≡ true → b ≡ true → length raw < m)
      → count_if p raw ≤ m
      → count_if p (if b then raw ++ (x ∷ []) else raw) ≤ m
  append_if-bound false m raw g h = h
  append_if-bound true m raw g h = elim (Bool-cases (p x)) [
    | inl e ↦
        let room = g e refl in
        let one : count_if p (x ∷ []) ≡ 1 = rw e refl in
        omega (arith, room, one, count_if-append p raw (x ∷ []), count_if-le p raw)
    | inr e ↦
        let nothing : count_if p (x ∷ []) ≡ 0 = rw e refl in
        omega (arith, nothing, count_if-append p raw (x ∷ []), h)
  ]

-- The tests of `ingest` for an event that is not always kept.
last_test :
    (k s z l : Bool) → not k ≡ true → ((k || s) && (k || (z || l))) ≡ true → z ≡ false → l ≡ true
last_test k s z l n e f = ground arith

capped_at : (m : ℕ) → 0 < m → leb_ℤ (pos m) (pos 0) ≡ false
capped_at m h = ground arith

room_below : (n m : ℕ) → ltb_ℤ (pos n) (pos m) ≡ true → n < m
room_below n m h = ground arith

module _ {Rate : Type 0} (h : Host Rate) (m : ℕ) (positive : 0 < m) where
  appends-always :
      (a : Aggregator Rate) (draw : ℕ) (ev : Event)
      → always_keep ev ≡ true
      → appends h a draw ev ≡ true
  unfolding appends
  appends-always a draw ev e = rw e refl

  appends-room :
      (a : Aggregator Rate) (draw : ℕ) (ev : Event)
      → a.max_raw_per_flush ≡ pos m
      → other ev ≡ true
      → appends h a draw ev ≡ true
      → length a.raw_buf < m
  unfolding appends
  appends-room a draw ev c o e =
      let capped : leb_ℤ a.max_raw_per_flush (pos 0) ≡ false =
        ap (λ n. leb_ℤ n (pos 0)) c ∙ capped_at m positive in
      room_below (length a.raw_buf) m (
        ap (ltb_ℤ (pos (length a.raw_buf))) (sym c)
        ∙ last_test (always_keep ev) (keep_with h a.sampler draw ev)
            (leb_ℤ a.max_raw_per_flush (pos 0)) (ltb_ℤ (pos (length a.raw_buf)) a.max_raw_per_flush)
            o e capped)

  ingest-always :
      (a : Aggregator Rate) (draw : ℕ) (ev : Event)
      → keep always_keep (ingest h a (draw, ev)).raw_buf
        ≡ keep always_keep a.raw_buf ++ keep always_keep (ev ∷ [])
  unfolding ingest
  ingest-always a draw ev =
      append_if-keep always_keep ev (appends h a draw ev) a.raw_buf (appends-always a draw ev)

  ingest-bound :
      (a : Aggregator Rate) (draw : ℕ) (ev : Event)
      → a.max_raw_per_flush ≡ pos m
      → count_if other a.raw_buf ≤ m
      → count_if other (ingest h a (draw, ev)).raw_buf ≤ m
  unfolding ingest
  ingest-bound a draw ev c b =
      append_if-bound other ev (appends h a draw ev) m a.raw_buf (appends-room a draw ev c) b

  ingest-cap :
      (a : Aggregator Rate) (e : ℕ × Event) → (ingest h a e).max_raw_per_flush ≡ a.max_raw_per_flush
  unfolding ingest
  ingest-cap a (draw, ev) = refl

  ingest_all-raw :
      (a : Aggregator Rate) (events : List (ℕ × Event))
      → a.max_raw_per_flush ≡ pos m
      → count_if other a.raw_buf ≤ m
      → (keep always_keep (ingest_all h a events).raw_buf
          ≡ keep always_keep a.raw_buf ++ keep always_keep (map (λ e. e.1) events))
        × (count_if other (ingest_all h a events).raw_buf ≤ m)
  unfolding ingest_all
  ingest_all-raw a [] c b = (sym (append-nil (keep always_keep a.raw_buf)), b)
  ingest_all-raw a ((draw, ev) ∷ events) c b =
      let (kept, bound) =
        ingest_all-raw (ingest h a (draw, ev)) events (ingest-cap a (draw, ev) ∙ c)
          (ingest-bound a draw ev c b) in
      (
        kept
            ∙ ap (λ l. l ++ keep always_keep (map (λ e. e.1) events)) (ingest-always a draw ev)
            ∙ append_assoc (keep always_keep a.raw_buf) (keep always_keep (ev ∷ []))
                (keep always_keep (map (λ e. e.1) events))
            ∙ ap (λ l. keep always_keep a.raw_buf ++ l)
                (sym (keep-append always_keep (ev ∷ []) (map (λ e. e.1) events))),
        bound,
      )

  -- For a positive cap on raw events: a window that starts empty holds, whatever the sampler says,
  -- exactly the events of errors and computed fields among those taken in, in their order, and of
  -- all other events at most as many as the cap.
  pub ingest_all-Bounded :
      (a : Aggregator Rate) (now : ℕ) (events : List (ℕ × Event))
      → a.max_raw_per_flush ≡ pos m
      → (keep always_keep (ingest_all h (reset_window now a) events).raw_buf
          ≡ keep always_keep (map (λ e. e.1) events))
        × (count_if (λ ev. not (always_keep ev)) (ingest_all h (reset_window now a) events).raw_buf
            ≤ m)
  ingest_all-Bounded a now events c = ingest_all-raw (reset_window now a) events c (omega arith)
