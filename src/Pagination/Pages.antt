-- ===== src/Pagination/Pages.antt =====
-- internal/dto/pagination_dto.go: whether there is a next page.
use native.Mathlib.Nat.{mul-le-mul_right, mod-lt, div-add-mod', div-le_self, add-mul}
use intelligent_odoo_dev_too.Prelude.{
  ℕ, zero, suc, ◌+◌, ◌*◌, ◌/◌, ◌%◌, ◌≤◌, ◌<◌, ◌≡◌, ◌↔◌, refl, sym, ap, ap₂, ◌∙◌, inl, inr, true,
  false, some, if◌then◌else◌, arith, ltb, ltb→lt, dec_lt, Bool-cases,
}
use intelligent_odoo_dev_too.Prelude.Int.{
  ℤ, pos, negsuc, wrap, half64, add64, ltb_ℤ, eqb_ℤ, wrap64_of_IsInt64, ◌+ℤ◌,
}
use intelligent_odoo_dev_too.Pagination.{
  new_pagination, total_pages, to_meta, Meta, meta_with, quot64, rem64, clamp_per_page,
  at_most_hundred, meta_of,
}

-- The number of pages of `k` entries that hold `t` entries.
abbrev pages_for : ℕ → ℕ → ℕ
pages_for t k = if ltb 0 (t % k) then t / k + 1 else t / k

next_whole : (q k : ℕ) → (q + 1) * k ≡ q * k + k
next_whole q k = omega (arith, add-mul q 1 k)

-- Pages before the last one end before the last entry.
before_last : (t k a q r : ℕ) → q * k + r ≡ t → 0 < r → a < q + 1 → a * k < t
before_last t k a q r e p l =
    let most : a * k ≤ q * k = mul-le-mul_right k (omega arith) in omega (arith, most, e, p)

before_whole : (t k a q : ℕ) → q * k ≡ t → 0 < k → a < q → a * k < t
before_whole t k a q e p l =
    let most : (a + 1) * k ≤ q * k = mul-le-mul_right k (omega arith) in
    omega (arith, most, next_whole a k, e, p)

after_last : (t k a q r : ℕ) → q * k + r ≡ t → r < k → q + 1 ≤ a → t < a * k
after_last t k a q r e p l =
    let least : (q + 1) * k ≤ a * k = mul-le-mul_right k l in
    omega (arith, least, next_whole q k, e, p)

after_whole : (t k a q : ℕ) → q * k ≡ t → q ≤ a → t ≤ a * k
after_whole t k a q e l =
    let least : q * k ≤ a * k = mul-le-mul_right k l in omega (arith, least, e)

-- A page is before the last one exactly if it ends before the last entry.
pages_for_iff : (t k a : ℕ) → 0 < k → (a < pages_for t k) ↔ (a * k < t)
pages_for_iff t k a h =
    let whole = div-add-mod' t k in
    let inside = mod-lt t h in
    elim (Bool-cases (ltb 0 (t % k))) [
      | inl e ↦
          let more : 0 < t % k = ltb→lt 0 (t % k) e in
          let size : pages_for t k ≡ t / k + 1 = rw e refl in
          (
            λ l. before_last t k a (t / k) (t % k) whole more (omega (arith, l, size)),
            λ l. elim (dec_lt a (t / k + 1)) [
              | yes b ↦ omega (arith, b, size)
              | no b ↦
                  let past = after_last t k a (t / k) (t % k) whole inside (omega (arith, b)) in
                  absurd (omega (arith, past, l))
            ],
          )
      | inr e ↦
          let exact : t % k ≡ 0 = ground arith in
          let whole' : t / k * k ≡ t = omega (arith, whole, exact) in
          let size : pages_for t k ≡ t / k = rw e refl in
          (
            λ l. before_whole t k a (t / k) whole' h (omega (arith, l, size)),
            λ l. elim (dec_lt a (t / k)) [
              | yes b ↦ omega (arith, b, size)
              | no b ↦
                  let past = after_whole t k a (t / k) whole' (omega (arith, b)) in
                  absurd (omega (arith, past, l))
            ],
          )
    ]

quot64_pos : (t k : ℕ) → t < half64 → quot64 (pos t) (pos k) ≡ pos (t / k)
unfolding quot64
quot64_pos t k h = wrap64_of_IsInt64 (pos (t / k)) (omega (arith, div-le_self t k), omega arith)

add64_pos : (n : ℕ) → n + 1 < half64 → add64 (pos n) (pos 1) ≡ pos (n + 1)
unfolding add64 ◌+ℤ◌
add64_pos n h =
    let sum : (pos n +ℤ pos 1) ≡ pos (n + 1) = ground arith in
    ap (wrap half64) sum ∙ wrap64_of_IsInt64 (pos (n + 1)) (h, omega arith)

-- What `TotalPages` computes once neither test has succeeded.
pages_of_total :
    (k t : ℕ)
    → t + 1 < half64
    → (if ltb_ℤ (pos 0) (rem64 (pos t) (pos k))
        then add64 (quot64 (pos t) (pos k)) (pos 1)
        else quot64 (pos t) (pos k))
      ≡ pos (pages_for t k)
pages_of_total k t l =
    let whole = quot64_pos t k (omega arith) in
    let small : t / k + 1 < half64 = omega (arith, div-le_self t k) in
    elim (Bool-cases (ltb 0 (t % k))) [
      | inl e ↦
          let more : ltb_ℤ (pos 0) (rem64 (pos t) (pos k)) ≡ true = ground (arith, e) in
          rw (more, e) (ap (λ q. add64 q (pos 1)) whole ∙ add64_pos (t / k) small)
      | inr e ↦
          let none_more : ltb_ℤ (pos 0) (rem64 (pos t) (pos k)) ≡ false = ground (arith, e) in
          rw (none_more, e) whole
    ]

total_pages_pos :
    (page : ℤ) (k t : ℕ)
    → 0 < k
    → t + 1 < half64
    → total_pages (record { page = page; per_page = pos k; total = pos t })
      ≡ some (pos (pages_for t k))
unfolding total_pages
total_pages_pos page k t h l = elim (Bool-cases (eqb_ℤ (pos t) (pos 0))) [
  | inl e ↦
      let nothing : t ≡ 0 = ground (arith, e) in
      let empty : pages_for t k ≡ 0 = ground (arith, nothing, div-le_self t k, div-add-mod' t k) in
      rw (e, empty) refl
  | inr e ↦
      let divisor : eqb_ℤ (pos k) (pos 0) ≡ false = ground arith in
      rw (e, divisor) (ap some (pages_of_total k t l))
]

-- What a lower bound makes of an integer.
or_default :
    (d : ℕ) (n : ℤ) → 0 < d → (a : ℕ) × ((if ltb_ℤ n (pos 1) then pos d else n) ≡ pos a) × (0 < a)
or_default d (negsuc n) h =
    let low : ltb_ℤ (negsuc n) (pos 1) ≡ true = ground arith in (d, rw low refl, h)
or_default d (pos zero) h = (d, refl, h)
or_default d (pos (suc n)) h =
    let fits : ltb_ℤ (pos (suc n)) (pos 1) ≡ false = ground arith in
    (suc n, rw fits refl, omega arith)

at_most_pos : (k : ℕ) → 0 < k → (b : ℕ) × (at_most_hundred (pos k) ≡ pos b) × (0 < b) × (b ≤ 100)
at_most_pos k h = elim (Bool-cases (ltb_ℤ (pos 100) (pos k))) [
  | inl e ↦ (100, rw e refl, omega arith, omega arith)
  | inr e ↦ (k, rw e refl, h, ground (arith, e))
]

clamp_per_page_pos : (n : ℤ) → (k : ℕ) × (clamp_per_page n ≡ pos k) × (0 < k) × (k ≤ 100)
clamp_per_page_pos n =
    let (a, ea, la) = or_default 25 n (omega arith) in
    let (b, eb, lb, hb) = at_most_pos a la in (b, ap at_most_hundred ea ∙ eb, lb, hb)

ltb_pos_iff : (a n : ℕ) → (ltb_ℤ (pos a) (pos n) ≡ true) ↔ (a < n)
ltb_pos_iff a n = ground arith

-- For any page and page size that a client asks for, and any number of entries below the largest
-- `int`: `NewPagination` gives a page number from 1 on and a page size from 1 to 100, `ToMeta` does
-- not panic, and its `HasNext` holds exactly if there are entries beyond the end of the page.
pub to_meta_iff :
    (page per_page : ℤ) (t : ℕ)
    → t + 1 < half64
    → (let p = record (new_pagination page per_page) { total = pos t } in
        (a : ℕ) × (k : ℕ) × (m : Meta) × (p.page ≡ pos a)
        × (p.per_page ≡ pos k)
        × (0 < a)
        × (0 < k)
        × (k ≤ 100)
        × (to_meta p ≡ some m)
        × ((m.has_next ≡ true) ↔ (a * k < t)))
unfolding new_pagination to_meta
to_meta_iff page per_page t h =
    let (a, ea, la) = or_default 1 page (omega arith) in
    let (k, ek, lk, hk) = clamp_per_page_pos per_page in
    let p = record (new_pagination page per_page) { total = pos t } in
    let same : p ≡ record { page = pos a; per_page = pos k; total = pos t } =
      ap₂ (λ x y. record { page = x; per_page = y; total = pos t }) ea ek in
    let pages = ap total_pages same ∙ total_pages_pos (pos a) k t lk h in
    let n = pages_for t k in
    let test = ap (λ x. ltb_ℤ x (pos n)) ea in
    let (to, from) = pages_for_iff t k a lk in
    (
      a,
      k,
      meta_of p (pos (pages_for t k)),
      ea,
      ek,
      la,
      lk,
      hk,
      ap (meta_with p) pages,
      (λ e. to ((ltb_pos_iff a n).0 (sym test ∙ e)), λ l. test ∙ (ltb_pos_iff a n).1 (from l)),
    )
