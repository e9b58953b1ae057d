-- ===== src/Ringbuf.antt =====
-- internal/agent/ringbuf/ringbuf.go: the fixed-size circular buffer of agent events. Every method
-- takes the mutex for its whole body, so a call is one step on the buffer. Indices are natural
-- numbers: `count ≤ cap` keeps `head - count + len(items)` from going below zero, and a capacity
-- is the length of an allocated slice, far below the range of `int`.
pub mod Recent
pub mod Window
pub mod Slots
pub mod Refine
use intelligent_odoo_dev_too.Prelude.{
  ℕ, zero, suc, ◌+◌, ◌-◌, ◌%◌, Option, none, some, List, [], ◌∷◌, if◌then◌else◌, ltb, ◌==◌, length,
  get_or, set, replicate,
}
use intelligent_odoo_dev_too.Prelude.Int.{ℤ, pos, pos_part, leb_ℤ}

-- `RingBuffer[T]` without its mutex.
pub record RingBuffer {ℓ} (A : Type ℓ) : Type ℓ where
  pub items : List A
  pub head : ℕ
  pub count : ℕ

-- The index of the oldest entry.
abbrev pub tail_of {ℓ} : {A : Type ℓ} → RingBuffer A → ℕ
tail_of r = (r.head + length r.items - r.count) % length r.items

module _ {ℓ} {A : Type ℓ} (default : A) where
  -- `New`, with the zero value of `T` that `make` fills the slice with. `none` is the panic.
  unfoldable pub new : ℤ → Option (RingBuffer A)
  new capacity =
      if leb_ℤ capacity (pos 0)
      then none
      else some (record { items = replicate (pos_part capacity) default; head = 0; count = 0 })

  -- `out[i] = r.items[(tail+i)%len(r.items)]`, for the `n` indices from `i` on.
  unfoldable pub read_out : List A → ℕ → ℕ → ℕ → List A
  read_out items tail i zero = []
  read_out items tail i (suc n) =
      get_or items ((tail + i) % length items) default ∷ read_out items tail (i + 1) n

  -- `Peek`; `nil` and the empty slice are the empty list.
  unfoldable pub peek : RingBuffer A → List A
  peek r = if r.count == 0 then [] else read_out r.items (tail_of r) 0 r.count

  -- `DrainAll`.
  unfoldable pub drain_all : RingBuffer A → List A × RingBuffer A
  drain_all r =
      if r.count == 0
      then ([], r)
      else (read_out r.items (tail_of r) 0 r.count, record r { head = 0; count = 0 })

-- `Push`.
unfoldable pub push {ℓ} : {A : Type ℓ} → RingBuffer A → A → RingBuffer A
push r item = record r {
  items = set r.items r.head item;
  head = (r.head + 1) % length r.items;
  count = if ltb r.count (length r.items) then r.count + 1 else r.count;
}

-- `Cap` and `Len`.
abbrev pub cap {ℓ} : {A : Type ℓ} → RingBuffer A → ℕ
cap r = length r.items

abbrev pub len {ℓ} : {A : Type ℓ} → RingBuffer A → ℕ
len r = r.count
