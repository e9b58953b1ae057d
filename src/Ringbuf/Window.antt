-- ===== src/Ringbuf/Window.antt =====
-- internal/agent/ringbuf/ringbuf.go: the loop that copies the entries out, and what a write does
-- to the entries that it reads.
use native.Mathlib.Nat.{mod-eq_of_lt, mod-eq-sub-mod}
use intelligent_odoo_dev_too.Prelude.{
  ℕ, zero, suc, ◌+◌, ◌-◌, ◌%◌, ◌≤◌, ◌<◌, ◌≡◌, ◌≢◌, refl, ap, ap₂, ◌∙◌, List, [], ◌∷◌, ◌++◌, arith,
  dec_lt, length, get_or,
}
use intelligent_odoo_dev_too.Ringbuf.{read_out}

-- `n` entries of a sequence from `i` on.
unfoldable pub window {ℓ} : {A : Type ℓ} → (ℕ → A) → ℕ → ℕ → List A
window f i zero = []
window f i (suc n) = f i ∷ window f (i + 1) n

module _ {ℓ} {A : Type ℓ} where
  pub length-window : (f : ℕ → A) (i n : ℕ) → length (window f i n) ≡ n
  unfolding window
  length-window f i zero = refl
  length-window f i (suc n) = ap suc (length-window f (i + 1) n)

  pub window_congr :
      (f g : ℕ → A) (i n : ℕ)
      → ((j : ℕ) → i ≤ j → j < i + n → f j ≡ g j)
      → window f i n ≡ window g i n
  unfolding window
  window_congr f g i zero h = refl
  window_congr f g i (suc n) h =
      ap₂ ◌∷◌ (h i (omega arith) (omega arith))
        (window_congr f g (i + 1) n (λ j p q. h j (omega arith) (omega arith)))

  pub window_snoc : (f : ℕ → A) (i n : ℕ) → window f i (suc n) ≡ window f i n ++ (f (i + n) ∷ [])
  unfolding window
  window_snoc f i zero = ap (λ k. f k ∷ []) (omega arith)
  window_snoc f i (suc n) =
      ap (◌∷◌ (f i))
        (window_snoc f (i + 1) n ∙ ap (λ k. window f (i + 1) n ++ (f k ∷ [])) (omega arith))

  pub window_shift : (f : ℕ → A) (i n : ℕ) → window f (i + 1) n ≡ window (λ j. f (j + 1)) i n
  unfolding window
  window_shift f i zero = refl
  window_shift f i (suc n) = ap (◌∷◌ (f (i + 1))) (window_shift f (i + 1) n)

  pub read_out-eq-window :
      (d : A) (items : List A) (tail i n : ℕ)
      → read_out d items tail i n ≡ window (λ j. get_or items ((tail + j) % length items) d) i n
  unfolding read_out window
  read_out-eq-window d items tail i zero = refl
  read_out-eq-window d items tail i (suc n) =
      ap (◌∷◌ (get_or items ((tail + i) % length items) d))
        (read_out-eq-window d items tail (i + 1) n)

-- Fewer than `c` steps round the ring do not come back to the start.
pub add-mod-ne : {c h k : ℕ} → h < c → 0 < k → k < c → (h + k) % c ≢ h
add-mod-ne {c} {h} {k} hh pk hk = elim (dec_lt (h + k) c) [
  | yes p ↦ omega (arith, mod-eq_of_lt p)
  | no p ↦ omega (
    arith,
    mod-eq-sub-mod {n = h + k} {m = c} (omega arith),
    mod-eq_of_lt {n = h + k - c} {m = c} (omega arith),
  )
]

-- A whole round comes back to the start.
pub add-mod_self : {c h : ℕ} → h < c → (h + c) % c ≡ h
add-mod_self {c} {h} hh = omega (
  arith,
  mod-eq-sub-mod {n = h + c} {m = c} (omega arith),
  mod-eq_of_lt {n = h + c - c} {m = c} (omega arith),
)
