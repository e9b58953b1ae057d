-- ===== src/Errors/Collector/Complete.antt =====
-- internal/agent/errors/collector.go: polls read every entry of the log once.
use intelligent_odoo_dev_too.Prelude.{
  ℕ, zero, suc, ◌*◌, ◌≤◌, ◌<◌, ◌≡◌, refl, sym, ap, ◌∙◌, true, false, Option, none, some, List, [],
  ◌∷◌, subst, length-drop, if◌then◌else◌, take, drop, length, arith, dec_lt,
}
use intelligent_odoo_dev_too.Prelude.Int.{ℤ, pos, negsuc, ltb_ℤ}
use intelligent_odoo_dev_too.Prelude.Text.{Bytes, codes}
use intelligent_odoo_dev_too.Ringbuf.{RingBuffer}
use intelligent_odoo_dev_too.Acl.Any.{no_anys, Entries}
use intelligent_odoo_dev_too.Errors.Signature.{Library}
use intelligent_odoo_dev_too.Errors.Flusher.{ErrorEvent, push_all}
use intelligent_odoo_dev_too.Errors.Collector.{
  Collector, Request, Search, errors_with, after_id, request_of, int_field, advance,
  record_to_error_event, collect, collect_all, poll_request, or_failed, poll, run_polls,
  run_poll_loop,
}

less : (n k : ℕ) → n < k → ltb_ℤ (pos n) (pos k) ≡ true
less n k lt = ground arith

less_neg : (n k : ℕ) → ltb_ℤ (pos n) (negsuc k) ≡ false
less_neg n k = ground arith

less_not : (n k : ℕ) → k ≤ n → ltb_ℤ (pos n) (pos k) ≡ false
less_not n k le = ground arith

module _ {F G : Type 0} where
  -- Entries with ascending ids, all above a number.
  pub data Rising : ℕ → List (Entries F G) → Type 0 where
    none_above : {n : ℕ} → Rising n []
    above :
        {n m : ℕ} {r : Entries F G} {records : List (Entries F G)}
        → int_field (codes "id") r ≡ some (pos m)
        → n < m
        → Rising m records
        → Rising n (r ∷ records)

  -- The entries whose id is above a number.
  abbrev keep_above : ℕ → Entries F G → Option ℤ → List (Entries F G) → List (Entries F G)
  keep_above n r none rest = rest
  keep_above n r (some id) rest = if ltb_ℤ (pos n) id then r ∷ rest else rest

  unfoldable pub later : ℕ → List (Entries F G) → List (Entries F G)
  unfolding int_field
  later n [] = []
  later n (r ∷ records) = keep_above n r (int_field (codes "id") r) (later n records)

  -- A search answers from a table: at most `limit` entries in the order of the ids.
  pub record Serves (search : Search F G) (log : List (Entries F G)) : Type 0 where
    pub from_start : search (request_of (errors_with no_anys)) ≡ some (take 200 log)
    pub from_id :
        (n : ℕ)
        → search (request_of (errors_with (after_id (pos n)))) ≡ some (take 200 (later n log))

  -- Searches that fail or answer from one table, and how many answer.
  pub data Polls (log : List (Entries F G)) : List (Search F G) → ℕ → Type 0 where
    no_polls : Polls log [] 0
    failed :
        {search : Search F G} {ticks : List (Search F G)} {k : ℕ}
        → ((q : Request F G) → search q ≡ none)
        → Polls log ticks k
        → Polls log (search ∷ ticks) k
    answered :
        {search : Search F G} {ticks : List (Search F G)} {k : ℕ}
        → Serves search log
        → Polls log ticks k
        → Polls log (search ∷ ticks) (suc k)

  later-Rising : (n m : ℕ) (rest : List (Entries F G)) → Rising m rest → n ≤ m → later n rest ≡ rest
  unfolding later
  later-Rising n m [] none_above le = refl
  later-Rising n m (r ∷ rest) (above {m = k} e lt rising) le =
      rw e (
        rw (less n k (omega arith))
          (ap (λ rs. r ∷ rs) (later-Rising n k rest rising (omega arith))))

  keep_above-later :
      (n m : ℕ) (r : Entries F G) (id : Option ℤ) (xs ys : List (Entries F G))
      → int_field (codes "id") r ≡ id
      → n ≤ m
      → later m xs ≡ ys
      → later m (keep_above n r id xs) ≡ keep_above m r id ys
  unfolding later
  keep_above-later n m r none xs ys e le h = h
  keep_above-later n m r (some (negsuc k)) xs ys e le h = rw (less_neg n k) (rw (less_neg m k) h)
  keep_above-later n m r (some (pos k)) xs ys e le h = elim (dec_lt n k) [
    | yes lt ↦ rw (less n k lt) (rw e (ap (keep_above m r (some (pos k))) h))
    | no ge ↦ rw (less_not n k (omega arith)) (rw (less_not m k (omega arith)) h)
  ]

  later-later : (n m : ℕ) (log : List (Entries F G)) → n ≤ m → later m (later n log) ≡ later m log
  unfolding later
  later-later n m [] le = refl
  later-later n m (r ∷ log) le =
      keep_above-later n m r (int_field (codes "id") r) (later n log) (later m log) refl le
        (later-later n m log le)

  advance-above :
      (n k : ℕ) (r : Entries F G)
      → int_field (codes "id") r ≡ some (pos k)
      → n < k
      → advance (pos n) r ≡ pos k
  unfolding advance
  advance-above n k r e lt = rw e (rw (less n k lt) refl)

  asked :
      (find : Search F G) (log : List (Entries F G)) (n : ℕ)
      → Serves find log
      → Rising 0 log
      → find (poll_request (pos n)) ≡ some (take 200 (later n log))
  asked find log zero s rising =
      s.from_start ∙ ap (λ rs. some (take 200 rs)) (sym (later-Rising 0 0 log rising (omega arith)))
  asked find log (suc n) s rising = rw (less 0 (suc n) (omega arith)) (s.from_id (suc n))

  module _ (lib : Library) (parse_time : Bytes → Option ℕ) (rounds : ℕ) where
    -- The events of the entries that have a message.
    pub data Events : List (Entries F G) → List ErrorEvent → Type 0 where
      no_events : Events [] []
      with_message :
          {r : Entries F G} {event : ErrorEvent} {records : List (Entries F G)}
          {events : List ErrorEvent}
          → record_to_error_event lib parse_time rounds r ≡ some (some event)
          → Events records events
          → Events (r ∷ records) (event ∷ events)
      without_message :
          {r : Entries F G} {records : List (Entries F G)} {events : List ErrorEvent}
          → record_to_error_event lib parse_time rounds r ≡ some none
          → Events records events
          → Events (r ∷ records) events

    -- After the first entries of a list are collected.
    record Collected (b n : ℕ) (c : Collector) (rest : List (Entries F G))
        (events : List ErrorEvent) : Type 0 where
      after : Collector
      reached : ℕ
      left : List ErrorEvent
      collects : collect_all lib parse_time rounds (take b rest) c ≡ some after
      marked : after.last_log_id ≡ pos reached
      raised : n ≤ reached
      rising : Rising reached (drop b rest)
      has_left : Events (drop b rest) left
      pushed : push_all after.buf left ≡ push_all c.buf events
      keeps : later reached rest ≡ drop b rest

    collect-next :
        (b n k : ℕ) (c : Collector) (r : Entries F G) (rest : List (Entries F G))
        (event : Option ErrorEvent) (events more : List ErrorEvent)
        → int_field (codes "id") r ≡ some (pos k)
        → n < k
        → record_to_error_event lib parse_time rounds r ≡ some event
        → push_all (collect lib parse_time rounds c r event).buf more ≡ push_all c.buf events
        → Collected b k (collect lib parse_time rounds c r event) rest more
        → Collected (suc b) n c (r ∷ rest) events
    unfolding collect_all later
    collect-next b n k c r rest event events more e lt to h s = record {
      after = s.after;
      reached = s.reached;
      left = s.left;
      collects = rw (to, collect_all, take) s.collects;
      marked = s.marked;
      raised = omega (arith, s.raised);
      rising = s.rising;
      has_left = s.has_left;
      pushed = s.pushed ∙ h;
      keeps = rw e (rw (less_not s.reached k s.raised) s.keeps);
    }

    collect-Collected :
        (b n : ℕ) (c : Collector) (rest : List (Entries F G)) (events : List ErrorEvent)
        → c.last_log_id ≡ pos n
        → Rising n rest
        → Events rest events
        → Collected b n c rest events
    unfolding collect_all push_all
    collect-Collected zero n c rest events at up es = record {
      after = c;
      reached = n;
      left = events;
      collects = refl;
      marked = at;
      raised = omega arith;
      rising = up;
      has_left = es;
      pushed = refl;
      keeps = later-Rising n n rest up (omega arith);
    }
    collect-Collected (suc b) n c [] events at up es = record {
      after = c;
      reached = n;
      left = events;
      collects = refl;
      marked = at;
      raised = omega arith;
      rising = up;
      has_left = es;
      pushed = refl;
      keeps = later-Rising n n [] up (omega arith);
    }
    collect-Collected (suc b) n c (r ∷ rest) events at (above {m = k} e lt up)
          (with_message {event = ev} {events = evs} to es) =
        collect-next b n k c r rest (some ev) (ev ∷ evs) evs e lt to refl (
          collect-Collected b k (collect lib parse_time rounds c r (some ev)) rest evs
            (rw at (advance-above n k r e lt)) up es)
    collect-Collected (suc b) n c (r ∷ rest) events at (above {m = k} e lt up)
          (without_message to es) =
        collect-next b n k c r rest none events events e lt to refl (
          collect-Collected b k (collect lib parse_time rounds c r none) rest events
            (rw at (advance-above n k r e lt)) up es)

    nothing_left :
        (r : RingBuffer ErrorEvent) (rest : List (Entries F G)) (events : List ErrorEvent)
        → Events rest events
        → length rest ≤ 0
        → r ≡ push_all r events
    unfolding push_all
    nothing_left r [] [] no_events le = refl
    nothing_left r [] (ev ∷ events) es le = elim es [ ]
    nothing_left r (x ∷ rest) (ev ∷ events) (with_message to es) le = absurd (omega (arith, le))
    nothing_left r (x ∷ rest) events (without_message to es) le = absurd (omega (arith, le))

    abbrev Pushes : List (Search F G) → Collector → List ErrorEvent → Type 0
    Pushes ticks c events =
        (c' : Collector) × (run_polls lib parse_time rounds ticks c ≡ some c')
        × (c'.buf ≡ push_all c.buf events)

    poll-search :
        (find : Search F G) (c : Collector) {answer : Option (List (Entries F G))}
        → find (poll_request c.last_log_id) ≡ answer
        → poll lib parse_time rounds find c ≡ or_failed lib parse_time rounds c answer
    unfolding poll
    poll-search find c h = ap (or_failed lib parse_time rounds c) h

    run-next :
        (find : Search F G) (ticks : List (Search F G)) (c c₁ : Collector)
        → poll lib parse_time rounds find c ≡ some c₁
        → run_polls lib parse_time rounds (find ∷ ticks) c
          ≡ run_polls lib parse_time rounds ticks c₁
    unfolding run_polls
    run-next find ticks c c₁ h = rw (h, run_polls) refl

    run_polls-from :
        (k : ℕ) (ticks : List (Search F G)) (n : ℕ) (c : Collector) (log : List (Entries F G))
        (events : List ErrorEvent)
        → Polls log ticks k
        → Rising 0 log
        → c.last_log_id ≡ pos n
        → Rising n (later n log)
        → Events (later n log) events
        → length (later n log) ≤ k * 200
        → Pushes ticks c events
    unfolding run_polls
    run_polls-from zero [] n c log events no_polls rising at up es enough =
        (c, refl, nothing_left c.buf (later n log) events es (omega (arith, enough)))
    run_polls-from (suc k) [] n c log events ps rising at up es enough = elim ps [ ]
    run_polls-from k (find ∷ ticks) n c log events (failed f ps) rising at up es enough =
        let (c', runs, pushed) = run_polls-from k ticks n c log events ps rising at up es enough in
        (
          c',
          run-next find ticks c c (poll-search find c (f (poll_request c.last_log_id))) ∙ runs,
          pushed,
        )
    run_polls-from (suc k) (find ∷ ticks) n c log events (answered s ps) rising at up es enough =
        let w = collect-Collected 200 n c (later n log) events at up es in
        let left : later w.reached log ≡ drop 200 (later n log) =
          sym (later-later n w.reached log w.raised) ∙ w.keeps in
        let fewer : length (later w.reached log) ≤ k * 200 =
          omega (arith, ap length left, length-drop 200 (later n log)) in
        let (c', runs, pushed) =
          run_polls-from k ticks w.reached w.after log w.left ps rising w.marked
            (subst (Rising w.reached) (sym left) w.rising)
            (subst (λ rs. Events rs w.left) (sym left) w.has_left) fewer in
        (
          c',
          run-next find ticks c w.after (
                poll-search find c (ap find (ap poll_request at) ∙ asked find log n s rising)
                ∙ w.collects)
              ∙ runs,
          pushed ∙ w.pushed,
        )

    -- If the searches that do not fail answer from one table, at most 200 entries in the order of the
    -- ids, the ids are positive and ascend, the text of every entry is normalized within `rounds` and
    -- `k` answers of 200 can hold all entries, then, from a new collector on, wherever polls fail, the
    -- loop pushes each entry that has a message exactly once, in the order of the table.
    pub run_poll_loop-push_all :
        (k : ℕ) (first : Search F G) (ticks : List (Search F G)) (c : Collector)
        (log : List (Entries F G)) (events : List ErrorEvent)
        → Polls log (first ∷ ticks) k
        → Rising 0 log
        → c.last_log_id ≡ pos 0
        → Events log events
        → length log ≤ k * 200
        → (c' : Collector) × (run_poll_loop lib parse_time rounds first ticks c ≡ some c')
          × (c'.buf ≡ push_all c.buf events)
    unfolding run_poll_loop
    run_poll_loop-push_all k first ticks c log events ps rising at es enough =
        let all_later = later-Rising 0 0 log rising (omega arith) in
        run_polls-from k (first ∷ ticks) 0 c log events ps rising at
          (subst (Rising 0) (sym all_later) rising)
          (subst (λ rs. Events rs events) (sym all_later) es)
          (omega (arith, ap length all_later, enough))
