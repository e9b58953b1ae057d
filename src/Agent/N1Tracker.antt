-- ===== src/Agent/N1Tracker.antt =====
-- internal/agent/hook/ormcollector.go: the detector of repeated queries. A time is a number, and a
-- window a number of the same unit. The map is a function: a key that is missing, or has been
-- deleted, holds the empty slice, which is what the source reads there.
use intelligent_odoo_dev_too.Prelude.{
  ℕ, zero, suc, ◌+◌, ◌%◌, Bool, true, false, not, List, [], ◌∷◌, ◌++◌, length, if◌then◌else◌, ◌==◌,
  ltb,
}
use intelligent_odoo_dev_too.Prelude.Int.{ℤ, pos, leb_ℤ}
use intelligent_odoo_dev_too.Prelude.Text.{Bytes, eqb}
use intelligent_odoo_dev_too.Errors.Signature.{is_empty}
pub mod Held
pub mod Counts

-- `n1Tracker`.
pub record Tracker : Type 0 where
  pub window : ℕ
  pub threshold : ℤ
  pub recent : Bytes → List ℕ
  pub checks : ℕ

abbrev pub new_tracker : ℕ → ℤ → Tracker
new_tracker window threshold = record {
  window = window;
  threshold = threshold;
  recent = λ sig. [];
  checks = 0;
}

-- `times[start:]` after the loop that skips the times before the cutoff, which is `ts - window`.
unfoldable pub drop_old : ℕ → ℕ → List ℕ → List ℕ
drop_old window ts [] = []
drop_old window ts (t ∷ times) =
    let rest = drop_old window ts times in if ltb (t + window) ts then rest else t ∷ times

abbrev pub set_times : Bytes → List ℕ → (Bytes → List ℕ) → Bytes → List ℕ
set_times sig times recent q = if eqb sig q then times else recent q

-- `pruneStale`.
unfoldable pub prune_stale : ℕ → ℕ → (Bytes → List ℕ) → Bytes → List ℕ
unfolding drop_old
prune_stale window ts recent q = drop_old window ts (recent q)

unfoldable pub record_check : Tracker → Bytes → ℕ → List ℕ → Tracker
unfolding prune_stale
record_check t sig ts times =
    let recent = set_times sig times t.recent in
    record t {
      checks = t.checks + 1;
      recent = if (t.checks + 1) % 500 == 0 then prune_stale t.window ts recent else recent;
    }

-- `Check`, with what `normalizeSQL` makes of the query.
unfoldable pub check_signature : Tracker → Bytes → ℕ → Bool × Tracker
unfolding record_check drop_old
check_signature t sig ts =
    let times = drop_old t.window ts (t.recent sig) ++ (ts ∷ []) in
    if is_empty sig
    then (false, t)
    else (leb_ℤ t.threshold (pos (length times)), record_check t sig ts times)

module _ (normalize_sql : Bytes → Bytes) where
  unfoldable pub check : Tracker → Bytes × ℕ → Bool × Tracker
  unfolding check_signature
  check t (sql, ts) = check_signature t (normalize_sql sql) ts

  unfoldable pub check_all : Tracker → List (Bytes × ℕ) → Tracker
  unfolding check
  check_all t [] = t
  check_all t (e ∷ queries) = check_all (check t e).1 queries
