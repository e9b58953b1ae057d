-- ===== src/Ringbuf/Recent.antt =====
-- internal/agent/ringbuf/ringbuf.go: the list that a buffer stands for, the last entries of all
-- that were pushed.
use intelligent_odoo_dev_too.Prelude.{
  ℕ, zero, suc, ◌+◌, ◌-◌, ◌≤◌, ◌<◌, ◌≡◌, refl, sym, ap, ◌∙◌, List, [], ◌∷◌, ◌++◌, arith, length,
  drop, length-append, length-drop,
}

-- The last `c` entries of a list.
unfoldable pub recent {ℓ} : {A : Type ℓ} → ℕ → List A → List A
recent c q = drop (length q - c) q

module _ {ℓ} {A : Type ℓ} where
  pub drop_congr : {i k : ℕ} (q : List A) → i ≡ k → drop i q ≡ drop k q
  drop_congr q e = ap (λ n. drop n q) e

  pub drop-append_one :
      (k : ℕ) (q : List A) (x : A) → k ≤ length q → drop k (q ++ (x ∷ [])) ≡ drop k q ++ (x ∷ [])
  drop-append_one zero q x h = refl
  drop-append_one (suc k) [] x h = absurd (omega arith)
  drop-append_one (suc k) (y ∷ q) x h = drop-append_one k q x (omega arith)

  drop-nil : (k : ℕ) → drop {A = A} k [] ≡ []
  drop-nil zero = refl
  drop-nil (suc k) = refl

  drop-drop : (i k : ℕ) (q : List A) → drop i (drop k q) ≡ drop (k + i) q
  drop-drop i zero q = drop_congr q (omega arith)
  drop-drop i (suc k) [] = drop-nil i ∙ sym (drop-nil (suc k + i))
  drop-drop i (suc k) (y ∷ q) =
      let up : suc (k + i) ≡ suc k + i = omega arith in drop-drop i k q ∙ drop_congr (y ∷ q) up

  -- Entries that have been lost once do not matter later.
  pub recent-recent_snoc :
      (c : ℕ) (q : List A) (x : A)
      → 0 < c
      → recent c (recent c q ++ (x ∷ [])) ≡ recent c (q ++ (x ∷ []))
  unfolding recent
  recent-recent_snoc c q x h =
      let k = length q - c in
      let lost : length (drop k q ++ (x ∷ [])) - c ≤ length (drop k q) =
        omega (arith, length-append (drop k q) (x ∷ []), length-drop k q) in
      let total : k + (length (drop k q ++ (x ∷ [])) - c) ≡ length (q ++ (x ∷ [])) - c =
        omega
          (arith, length-append (drop k q) (x ∷ []), length-append q (x ∷ []), length-drop k q) in
      drop-append_one (length (drop k q ++ (x ∷ [])) - c) (drop k q) x lost
      ∙ ap (λ r. r ++ (x ∷ []))
          (drop-drop (length (drop k q ++ (x ∷ [])) - c) k q ∙ drop_congr q total)
      ∙ sym (
          drop-append_one (length (q ++ (x ∷ [])) - c) q x
            (omega (arith, length-append q (x ∷ []))))

  pub recent_nil : (c : ℕ) → recent {A = A} c [] ≡ []
  unfolding recent
  recent_nil c = drop-nil (0 - c)
