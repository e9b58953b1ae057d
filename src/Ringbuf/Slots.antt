-- ===== src/Ringbuf/Slots.antt =====
-- internal/agent/ringbuf/ringbuf.go: valid buffers, and which index `Peek` and `DrainAll` read at
-- each place before and after `Push`.
use native.Mathlib.Nat.{mod-add-mod, mod-lt}
use intelligent_odoo_dev_too.Prelude.{
  ℕ, suc, ◌+◌, ◌-◌, ◌%◌, ◌≤◌, ◌<◌, ◌≡◌, ◌≢◌, sym, ap, ◌∙◌, arith, length, length-set,
}
use intelligent_odoo_dev_too.Ringbuf.{RingBuffer, tail_of, push}
use intelligent_odoo_dev_too.Ringbuf.Window.{add-mod-ne, add-mod_self}

pub record IsValid {ℓ} {A : Type ℓ} (r : RingBuffer A) : Type 0 where
  pub nonempty : 0 < length r.items
  pub head_in : r.head < length r.items
  pub count_in : r.count ≤ length r.items

module _ {ℓ} {A : Type ℓ} where
  pub push-IsValid : (r : RingBuffer A) (x : A) → IsValid r → IsValid (push r x)
  unfolding push
  push-IsValid r x v = record {
    nonempty = omega (arith, length-set r.items r.head x);
    head_in = omega (arith, length-set r.items r.head x, mod-lt (r.head + 1) v.nonempty);
    count_in = ground (arith, length-set r.items r.head x);
  }

-- The index that is read `j` places after the oldest.
unfoldable pub slot {ℓ} : {A : Type ℓ} → RingBuffer A → ℕ → ℕ
slot r j = (tail_of r + j) % length r.items

pub slot-eq {ℓ} :
    {A : Type ℓ} (r : RingBuffer A) (j : ℕ)
    → slot r j ≡ (r.head + length r.items - r.count + j) % length r.items
unfolding slot
slot-eq r j = mod-add-mod (r.head + length r.items - r.count) (length r.items) j

-- One place past the newest entry is the place that is written next.
pub slot-count {ℓ} : {A : Type ℓ} (r : RingBuffer A) → IsValid r → slot r r.count ≡ r.head
slot-count r v =
    slot-eq r r.count
    ∙ ap (λ k. k % length r.items) (omega arith)
    ∙ add-mod_self {c = length r.items} {h = r.head} v.head_in

-- No other place in use is written.
pub slot-ne-head {ℓ} :
    {A : Type ℓ} (r : RingBuffer A) (j : ℕ)
    → IsValid r
    → j < r.count
    → r.count < length r.items + j
    → slot r j ≢ r.head
slot-ne-head r j v h k e =
    add-mod-ne {c = length r.items} {h = r.head} {k = length r.items - r.count + j} v.head_in
      (omega arith) (omega arith)
      (ap (λ m. m % length r.items) (omega arith) ∙ sym (slot-eq r j) ∙ e)

-- The places that are read after a write, in terms of those before it.
slot-push {ℓ} :
    {A : Type ℓ} (r : RingBuffer A) (x : A) (j : ℕ)
    → IsValid r
    → slot (push r x) j ≡ (r.head + 1 + (length r.items - (push r x).count + j)) % length r.items
unfolding push
slot-push r x j v =
    slot-eq (push r x) j
    ∙ rw (length-set r.items r.head x) (
        ap (λ k. k % length r.items) (regroup ((r.head + 1) % length r.items))
        ∙ mod-add-mod (r.head + 1) (length r.items) (length r.items - (push r x).count + j))
  where
    regroup :
        (k : ℕ)
        → k + length r.items - (push r x).count + j ≡ k + (length r.items - (push r x).count + j)
    regroup k = ground arith

pub slot-push_room {ℓ} :
    {A : Type ℓ} (r : RingBuffer A) (x : A) (j : ℕ)
    → IsValid r
    → r.count < length r.items
    → slot (push r x) j ≡ slot r j
unfolding push
slot-push_room r x j v h =
    let same : r.head + 1 + (length r.items - (push r x).count + j)
        ≡ r.head + length r.items - r.count + j =
      ground arith in
    slot-push r x j v ∙ ap (λ k. k % length r.items) same ∙ sym (slot-eq r j)

pub slot-push_full {ℓ} :
    {A : Type ℓ} (r : RingBuffer A) (x : A) (j : ℕ)
    → IsValid r
    → r.count ≡ length r.items
    → slot (push r x) j ≡ slot r (j + 1)
unfolding push
slot-push_full r x j v h =
    let same : r.head + 1 + (length r.items - (push r x).count + j)
        ≡ r.head + length r.items - r.count + (j + 1) =
      ground arith in
    slot-push r x j v ∙ ap (λ k. k % length r.items) same ∙ sym (slot-eq r (j + 1))

pub count-push_room {ℓ} :
    {A : Type ℓ} (r : RingBuffer A) (x : A)
    → r.count < length r.items
    → (push r x).count ≡ suc r.count
unfolding push
count-push_room r x h = ground arith

pub count-push_full {ℓ} :
    {A : Type ℓ} (r : RingBuffer A) (x : A) → r.count ≡ length r.items → (push r x).count ≡ r.count
unfolding push
count-push_full r x h = ground arith
