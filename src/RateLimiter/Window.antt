-- ===== src/RateLimiter/Window.antt =====
-- internal/agent/transport/ratelimiter.go: what the limiter lets through between two resets.
use intelligent_odoo_dev_too.Prelude.{
  ℕ, ◌+◌, ◌≤◌, ◌<◌, ◌≡◌, refl, ap, ◌∙◌, Bool, true, false, ◌&&◌, List, [], ◌∷◌, if◌then◌else◌, all,
  count_if, ltb, leb, arith, Bool-cases, inl, inr,
}
use intelligent_odoo_dev_too.Prelude.Int.{
  pos, half64, half32, add64, add32, ◌+ℤ◌, wrap, wrap64_of_IsInt64, wrap32_of_IsInt32,
}
use intelligent_odoo_dev_too.RateLimiter.{RateLimiter, allow, reset}

-- The answers to batches of the given sizes, one after another.
unfoldable pub allow_all : RateLimiter → List ℕ → List Bool
allow_all rl [] = []
allow_all rl (size ∷ sizes) = (allow rl (pos size)).0 ∷ allow_all (allow rl (pos size)).1 sizes

-- What was meant, on numbers without bounds: a batch passes if the bytes stay within `m` and a
-- batch is left of `b`.
unfoldable pub throttle : ℕ → ℕ → ℕ → ℕ → List ℕ → List Bool
throttle m b bytes batches [] = []
throttle m b bytes batches (size ∷ sizes) =
    let passes = leb (bytes + size) m && ltb batches b in
    passes
    ∷ throttle m b (if passes then bytes + size else bytes)
        (if passes then batches + 1 else batches) sizes

-- The bytes and the number of the batches that passed.
abbrev pub passed_bytes : List Bool → List ℕ → ℕ
passed_bytes (true ∷ answers) (size ∷ sizes) = size + passed_bytes answers sizes
passed_bytes (false ∷ answers) (size ∷ sizes) = passed_bytes answers sizes
passed_bytes _ _ = 0

abbrev pub passed_batches : List Bool → ℕ
passed_batches answers = count_if (λ a. a) answers

+ℤ_pos : (a n : ℕ) → pos a +ℤ pos n ≡ pos (a + n)
unfolding ◌+ℤ◌
+ℤ_pos a n = ground arith

add64_pos : (a n : ℕ) → a + n < half64 → add64 (pos a) (pos n) ≡ pos (a + n)
unfolding add64
add64_pos a n h =
    ap (wrap half64) (+ℤ_pos a n) ∙ wrap64_of_IsInt64 (pos (a + n)) (omega arith, omega arith)

add32_pos : (a n : ℕ) → a + n < half32 → add32 (pos a) (pos n) ≡ pos (a + n)
unfolding add32
add32_pos a n h =
    ap (wrap half32) (+ℤ_pos a n) ∙ wrap32_of_IsInt32 (pos (a + n)) (omega arith, omega arith)

module _ (m b : ℕ) (stopped : Bool) where
  -- The limiter after `bytes` and `batches` have passed.
  abbrev after : ℕ → ℕ → RateLimiter
  after bytes batches = record {
    max_bytes = pos m;
    max_batches = pos b;
    current_bytes = pos bytes;
    current_batches = pos batches;
    stopped = stopped;
  }

  allow-after :
      (bytes batches size : ℕ)
      → 0 < m
      → 0 < b
      → b < half32
      → bytes + size < half64
      → batches ≤ b
      → allow (after bytes batches) (pos size) ≡ (
          if leb (bytes + size) m && ltb batches b
          then (true, after (bytes + size) (batches + 1))
          else (false, after bytes batches))
  unfolding allow
  allow-after bytes batches size hm hb small fits le =
      rw (add64_pos bytes size fits) (elim (Bool-cases (ltb batches b)) [
        | inl left ↦ rw (add32_pos batches 1 (ground arith)) (ground arith)
        | inr none_left ↦ ground arith
      ])

  allow_all-after :
      (sizes : List ℕ) (bytes batches : ℕ)
      → 0 < m
      → 0 < b
      → b < half32
      → all (λ size. ltb (m + size) half64) sizes ≡ true
      → bytes ≤ m
      → batches ≤ b
      → allow_all (after bytes batches) sizes ≡ throttle m b bytes batches sizes
  unfolding allow_all throttle
  allow_all-after [] bytes batches hm hb small fits le le' = refl
  allow_all-after (size ∷ sizes) bytes batches hm hb small fits le le' =
      let this : m + size < half64 = ground arith in
      let later : all (λ s. ltb (m + s) half64) sizes ≡ true = ground arith in
      rw (allow-after bytes batches size hm hb small (omega arith) le')
        (elim (Bool-cases (leb (bytes + size) m && ltb batches b)) [
          | inl passes ↦ rw passes (
              ap (◌∷◌ true) (
                allow_all-after sizes (bytes + size) (batches + 1) hm hb small later (ground arith)
                  (ground arith)))
          | inr refused ↦
              rw refused
                (ap (◌∷◌ false) (allow_all-after sizes bytes batches hm hb small later le le'))
        ])

throttle-within :
    (m b : ℕ) (sizes : List ℕ) (bytes batches : ℕ)
    → bytes ≤ m
    → batches ≤ b
    → (bytes + passed_bytes (throttle m b bytes batches sizes) sizes ≤ m)
      × (batches + passed_batches (throttle m b bytes batches sizes) ≤ b)
unfolding throttle
throttle-within m b [] bytes batches le le' = (omega arith, omega arith)
throttle-within m b (size ∷ sizes) bytes batches le le' =
    elim (Bool-cases (leb (bytes + size) m && ltb batches b)) [
      | inl passes ↦
          let (i, j) =
            throttle-within m b sizes (bytes + size) (batches + 1) (ground arith) (ground arith) in
          rw passes (omega arith, omega arith)
      | inr refused ↦
          let (i, j) = throttle-within m b sizes bytes batches le le' in
          rw refused (omega arith, omega arith)
    ]

-- After a reset, with a positive byte limit `m` and a positive batch limit `b` below 2^31, and for
-- batches whose size does not overflow an `int64` when `m` is added, the limiter lets a batch
-- through exactly when the bytes that passed stay within `m` with it and fewer than `b` batches
-- passed. So at most `m` bytes and `b` batches pass before the next reset.
pub allow_all-throttle :
    (rl : RateLimiter) (m b : ℕ) (sizes : List ℕ)
    → rl.max_bytes ≡ pos m
    → rl.max_batches ≡ pos b
    → 0 < m
    → 0 < b
    → b < half32
    → all (λ size. ltb (m + size) half64) sizes ≡ true
    → (allow_all (reset rl) sizes ≡ throttle m b 0 0 sizes)
      × (passed_bytes (allow_all (reset rl) sizes) sizes ≤ m)
      × (passed_batches (allow_all (reset rl) sizes) ≤ b)
unfolding reset
allow_all-throttle rl m b sizes bytes_limit batch_limit hm hb small fits =
    let same =
      allow_all-after m b rl.stopped sizes 0 0 hm hb small fits (omega arith) (omega arith) in
    let (i, j) = throttle-within m b sizes 0 0 (omega arith) (omega arith) in
    rw (bytes_limit, batch_limit, same) (refl, omega arith, omega arith)
