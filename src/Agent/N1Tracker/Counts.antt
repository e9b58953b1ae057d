-- ===== src/Agent/N1Tracker/Counts.antt =====
-- internal/agent/hook/ormcollector.go: what the detector counts.
use intelligent_odoo_dev_too.Prelude.{
  ℕ, ◌+◌, ◌%◌, ◌≤◌, ◌≡◌, refl, sym, ap, ap₂, ◌∙◌, subst, append_assoc, inl, inr, Bool, true, false,
  ◌&&◌, List, [], ◌∷◌, ◌++◌, length, keep, if◌then◌else◌, ◌==◌, leb, arith, Bool-cases,
  &&-eq-true_iff,
}
use intelligent_odoo_dev_too.Prelude.Int.{ℤ, pos, leb_ℤ}
use intelligent_odoo_dev_too.Prelude.Text.{Bytes, eqb, eqb_iff, eqb_refl}
use intelligent_odoo_dev_too.Errors.Signature.{is_empty}
use intelligent_odoo_dev_too.Agent.N1Tracker.{
  Tracker, drop_old, set_times, prune_stale, record_check, check_signature, check, check_all,
  new_tracker,
}
use intelligent_odoo_dev_too.Agent.N1Tracker.Held.{
  in_window, Holds, drop_old-eq-kept, drop_old-Holds, Holds-later, keep_snoc, push-Holds,
}

module _ (normalize_sql : Bytes → Bytes) where
  -- The times of the queries with a signature.
  pub times_of : Bytes → List (Bytes × ℕ) → List ℕ
  times_of q [] = []
  times_of q ((sql, ts) ∷ queries) =
      let rest = times_of q queries in if eqb (normalize_sql sql) q then ts ∷ rest else rest

  abbrev pub are_ordered : ℕ → List (Bytes × ℕ) → Bool
  are_ordered now [] = true
  are_ordered now ((sql, ts) ∷ queries) = leb now ts && are_ordered ts queries

  times_of_snoc :
      (q : Bytes) (queries : List (Bytes × ℕ)) (sql : Bytes) (ts : ℕ)
      → times_of q (queries ++ ((sql, ts) ∷ [])) ≡ (
          if eqb (normalize_sql sql) q then times_of q queries ++ (ts ∷ []) else times_of q queries)
  unfolding times_of
  times_of_snoc q [] sql ts = refl
  times_of_snoc q ((s, t) ∷ queries) sql ts = ground (arith, times_of_snoc q queries sql ts)

  abbrev AllHold : ℕ → ℕ → (Bytes → List ℕ) → List (Bytes × ℕ) → Type 0
  AllHold w now recent queries =
      (q : Bytes) → is_empty q ≡ false → Holds w now (recent q) (times_of q queries)

  set_times-AllHold :
      (w now ts : ℕ) (recent : Bytes → List ℕ) (queries : List (Bytes × ℕ)) (sql : Bytes)
      → now ≤ ts
      → AllHold w now recent queries
      → AllHold w ts
          (set_times
            (normalize_sql sql)
            (drop_old w ts (recent (normalize_sql sql)) ++ (ts ∷ []))
            recent)
          (queries ++ ((sql, ts) ∷ []))
  set_times-AllHold w now ts recent queries sql l h q f =
      elim (Bool-cases (eqb (normalize_sql sql) q)) [
        | inl e ↦
            let same : normalize_sql sql ≡ q = (eqb_iff (normalize_sql sql) q).0 e in
            rw (times_of_snoc q queries sql ts, e, same)
              (push-Holds w now ts (recent q) (times_of q queries) l (h q f))
        | inr e ↦
            rw (times_of_snoc q queries sql ts, e)
              (Holds-later w now ts (recent q) (times_of q queries) l (h q f))
      ]

  prune_if-AllHold :
      (w ts : ℕ) (b : Bool) (recent : Bytes → List ℕ) (queries : List (Bytes × ℕ))
      → AllHold w ts recent queries
      → AllHold w ts (if b then prune_stale w ts recent else recent) queries
  unfolding prune_stale
  prune_if-AllHold w ts false recent queries h = h
  prune_if-AllHold w ts true recent queries h =
      λ q f. drop_old-Holds w ts ts (recent q) (times_of q queries) (omega arith) (h q f)

  -- A tracker with its configuration, and what it holds after some queries.
  record IsReady (w : ℕ) (thr : ℤ) (now : ℕ) (queries : List (Bytes × ℕ)) (t : Tracker)
      : Type 0 where
    same_window : t.window ≡ w
    same_threshold : t.threshold ≡ thr
    holding : AllHold w now t.recent queries

  unsigned-AllHold :
      (w now ts : ℕ) (recent : Bytes → List ℕ) (queries : List (Bytes × ℕ)) (sql : Bytes)
      → now ≤ ts
      → is_empty (normalize_sql sql) ≡ true
      → AllHold w now recent queries
      → AllHold w ts recent (queries ++ ((sql, ts) ∷ []))
  unsigned-AllHold w now ts recent queries sql l e h q f =
      elim (Bool-cases (eqb (normalize_sql sql) q)) [
        | inl b ↦
            let same : normalize_sql sql ≡ q = (eqb_iff (normalize_sql sql) q).0 b in
            let clash : is_empty q ≡ true = sym (ap is_empty same) ∙ e in cc
        | inr b ↦
            rw (times_of_snoc q queries sql ts, b)
              (Holds-later w now ts (recent q) (times_of q queries) l (h q f))
      ]

  check-IsReady :
      (w : ℕ) (thr : ℤ) (now ts : ℕ) (queries : List (Bytes × ℕ)) (sql : Bytes) (t : Tracker)
      → now ≤ ts
      → IsReady w thr now queries t
      → IsReady w thr ts (queries ++ ((sql, ts) ∷ [])) (check normalize_sql t (sql, ts)).1
  unfolding check check_signature record_check
  check-IsReady w thr now ts queries sql t l r = elim (Bool-cases (is_empty (normalize_sql sql))) [
    | inl e ↦ rw e (record {
      same_window = r.same_window;
      same_threshold = r.same_threshold;
      holding = unsigned-AllHold w now ts t.recent queries sql l e r.holding;
    })
    | inr e ↦
        let sig = normalize_sql sql in
        let updated =
          λ (v : ℕ). set_times sig (drop_old v ts (t.recent sig) ++ (ts ∷ [])) t.recent in
        let b = (t.checks + 1) % 500 == 0 in
        let pruned = λ (v : ℕ). (if b then prune_stale v ts (updated v) else updated v) in
        rw e (record {
          same_window = r.same_window;
          same_threshold = r.same_threshold;
          holding =
              subst (λ v. AllHold w ts (pruned v) (queries ++ ((sql, ts) ∷ []))) (sym r.same_window)
                (prune_if-AllHold w ts b (updated w) (queries ++ ((sql, ts) ∷ []))
                  (set_times-AllHold w now ts t.recent queries sql l r.holding));
        })
  ]

  check-answer :
      (w : ℕ) (thr : ℤ) (now ts : ℕ) (queries : List (Bytes × ℕ)) (sql : Bytes) (t : Tracker)
      → now ≤ ts
      → is_empty (normalize_sql sql) ≡ false
      → IsReady w thr now queries t
      → (check normalize_sql t (sql, ts)).0
        ≡ leb_ℤ thr (
            pos (
              length (
                keep
                  (in_window w ts)
                  (times_of (normalize_sql sql) (queries ++ ((sql, ts) ∷ []))))))
  unfolding check check_signature
  check-answer w thr now ts queries sql t l f r =
      let sig = normalize_sql sql in
      let h = push-Holds w now ts (t.recent sig) (times_of sig queries) l (r.holding sig f) in
      let taken : drop_old t.window ts (t.recent sig) ++ (ts ∷ [])
          ≡ keep (in_window w ts) (times_of sig queries ++ (ts ∷ [])) =
        ap (λ v. drop_old v ts (t.recent sig) ++ (ts ∷ [])) r.same_window
        ∙ (ap (λ k. k ++ (ts ∷ []))
              (drop_old-eq-kept w now ts (t.recent sig) (times_of sig queries) l (r.holding sig f))
            ∙ keep_snoc w ts (times_of sig queries)) in
      let own : times_of sig (queries ++ ((sql, ts) ∷ [])) ≡ times_of sig queries ++ (ts ∷ []) =
        rw (times_of_snoc sig queries sql ts, eqb_refl sig) refl in
      rw f (
        ap₂ (λ c k. leb_ℤ c (pos (length k))) r.same_threshold
          (taken ∙ sym (ap (keep (in_window w ts)) own)))

  check_all-answer :
      (w : ℕ) (thr : ℤ) (now : ℕ) (past queries : List (Bytes × ℕ)) (sql : Bytes) (ts : ℕ)
      (t : Tracker)
      → IsReady w thr now past t
      → are_ordered now (queries ++ ((sql, ts) ∷ [])) ≡ true
      → is_empty (normalize_sql sql) ≡ false
      → (check normalize_sql (check_all normalize_sql t queries) (sql, ts)).0
        ≡ leb_ℤ thr (
            pos (
              length (
                keep
                  (in_window w ts)
                  (times_of (normalize_sql sql) (past ++ (queries ++ ((sql, ts) ∷ [])))))))
  unfolding check_all
  check_all-answer w thr now past [] sql ts t r o f =
      let first : now ≤ ts = ground (arith, o) in check-answer w thr now ts past sql t first f r
  check_all-answer w thr now past ((s, u) ∷ queries) sql ts t r o f =
      let (first, rest) =
        (&&-eq-true_iff (leb now u) (are_ordered u (queries ++ ((sql, ts) ∷ [])))).0 o in
      check_all-answer w thr u (past ++ ((s, u) ∷ [])) queries sql ts
        (check normalize_sql t (s, u)).1
        (check-IsReady w thr now u past s t (ground (arith, first)) r) rest f
      ∙ ap (λ l. leb_ℤ thr (pos (length (keep (in_window w ts) (times_of (normalize_sql sql) l)))))
          (append_assoc past ((s, u) ∷ []) (queries ++ ((sql, ts) ∷ [])))

  -- For a new detector and queries that come in the order of their times, whatever `normalizeSQL`
  -- makes of a query: a query with a signature that is not empty is reported exactly if, among it and
  -- all the queries before it, at least the threshold have its signature and a time in its window.
  pub check-counts :
      (w : ℕ) (thr : ℤ) (queries : List (Bytes × ℕ)) (sql : Bytes) (ts : ℕ)
      → are_ordered 0 (queries ++ ((sql, ts) ∷ [])) ≡ true
      → is_empty (normalize_sql sql) ≡ false
      → (check normalize_sql (check_all normalize_sql (new_tracker w thr) queries) (sql, ts)).0
        ≡ leb_ℤ thr (
            pos (
              length (
                keep
                  (in_window w ts)
                  (times_of (normalize_sql sql) (queries ++ ((sql, ts) ∷ []))))))
  unfolding times_of
  check-counts w thr queries sql ts o f =
      check_all-answer w thr 0 [] queries sql ts (new_tracker w thr)
        (record {
          same_window = refl;
          same_threshold = refl;
          holding = λ q g. record {
            cutoff = 0;
            cutoff_past = omega arith;
            sorted = refl;
            past = refl;
            windowed = refl;
          };
        })
        o f
