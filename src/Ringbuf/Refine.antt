-- ===== src/Ringbuf/Refine.antt =====
-- internal/agent/ringbuf/ringbuf.go: a valid buffer behaves as the list of its last `cap` entries.
use intelligent_odoo_dev_too.Prelude.{
  ℕ, suc, ◌+◌, ◌-◌, ◌≤◌, ◌<◌, ◌≡◌, ◌≢◌, refl, sym, ap, ap₂, ◌∙◌, some, List, [], ◌∷◌, ◌++◌, arith,
  length, get_or, drop, length-set, length-replicate, get_or-set_self, get_or-set_ne, length-append,
  dec_lt,
}
use intelligent_odoo_dev_too.Prelude.Int.{pos}
use intelligent_odoo_dev_too.Ringbuf.{RingBuffer, new, tail_of, peek, drain_all, push}
use intelligent_odoo_dev_too.Ringbuf.Slots.{
  IsValid, push-IsValid, slot, slot-count, slot-ne-head, slot-push_room, slot-push_full,
  count-push_room, count-push_full,
}
use intelligent_odoo_dev_too.Ringbuf.Recent.{
  recent, recent_nil, drop_congr, drop-append_one, recent-recent_snoc,
}
use intelligent_odoo_dev_too.Ringbuf.Window.{
  window, length-window, window_congr, window_snoc, window_shift, read_out-eq-window,
}

-- What a client can ask of a buffer.
pub data Call {ℓ} (A : Type ℓ) : Type ℓ where
  push_call : A → Call A
  peek_call : Call A
  drain_call : Call A

-- The same calls on an unbounded history of the entries pushed since the last drain.
pub history_run {ℓ} : {A : Type ℓ} → ℕ → List A → List (Call A) → List (List A)
history_run c h [] = []
history_run c h (push_call x ∷ calls) = history_run c (h ++ (x ∷ [])) calls
history_run c h (peek_call ∷ calls) = recent c h ∷ history_run c h calls
history_run c h (drain_call ∷ calls) = recent c h ∷ history_run c [] calls

module _ {ℓ} {A : Type ℓ} (d : A) where
  entry : RingBuffer A → ℕ → A
  entry r j = get_or r.items (slot r j) d

  -- What a buffer holds, oldest first.
  pub contents : RingBuffer A → List A
  contents r = window (entry r) 0 r.count

  pub length-contents : (r : RingBuffer A) → length (contents r) ≡ r.count
  unfolding contents
  length-contents r = length-window (entry r) 0 r.count

  -- `Peek` returns the contents, and so does `DrainAll`, which leaves nothing.
  pub peek-eq-contents : (r : RingBuffer A) → peek d r ≡ contents r
  unfolding peek contents entry slot window
  peek-eq-contents r = ground (arith, read_out-eq-window d r.items (tail_of r) 0 r.count)

  pub drain_all-eq-contents :
      (r : RingBuffer A)
      → ((drain_all d r).0 ≡ contents r)
        × (contents (drain_all d r).1 ≡ [])
        × ((drain_all d r).1.items ≡ r.items)
  unfolding drain_all contents entry slot window
  drain_all-eq-contents r = ground (arith, read_out-eq-window d r.items (tail_of r) 0 r.count)

  -- What a write puts at each place that is read after it.
  entry-push_ne :
      (r : RingBuffer A) (x : A) (i j : ℕ)
      → slot (push r x) i ≡ slot r j
      → slot r j ≢ r.head
      → entry (push r x) i ≡ entry r j
  unfolding push entry
  entry-push_ne r x i j e ne = rw e (get_or-set_ne r.items x d (λ same. ne (sym same)))

  entry-push_self :
      (r : RingBuffer A) (x : A) (i : ℕ)
      → IsValid r
      → slot (push r x) i ≡ r.head
      → entry (push r x) i ≡ x
  unfolding push entry
  entry-push_self r x i v e = rw e (get_or-set_self r.items r.head x d v.head_in)

  -- A buffer that is not full grows by the entry.
  push_room :
      (r : RingBuffer A) (x : A)
      → IsValid r
      → r.count < length r.items
      → contents (push r x) ≡ contents r ++ (x ∷ [])
  unfolding contents
  push_room r x v h =
      ap (window (entry (push r x)) 0) (count-push_room r x h)
      ∙ window_snoc (entry (push r x)) 0 r.count
      ∙ ap₂ (λ xs y. xs ++ (y ∷ [])) (window_congr _ _ 0 r.count old) new_entry
    where
      old : (j : ℕ) → 0 ≤ j → j < 0 + r.count → entry (push r x) j ≡ entry r j
      old j _ k =
          entry-push_ne r x j j (slot-push_room r x j v h)
            (slot-ne-head r j v (omega arith) (omega arith))

      new_entry : entry (push r x) (0 + r.count) ≡ x
      new_entry =
          let at_end : 0 + r.count ≡ r.count = omega arith in
          rw at_end
            (entry-push_self r x r.count v (slot-push_room r x r.count v h ∙ slot-count r v))

  -- A full buffer loses its oldest entry.
  push_full :
      (r : RingBuffer A) (x : A) (n : ℕ)
      → IsValid r
      → r.count ≡ length r.items
      → r.count ≡ suc n
      → contents (push r x) ≡ drop 1 (contents r) ++ (x ∷ [])
  unfolding contents window
  push_full r x n v h e =
      ap (window (entry (push r x)) 0) (count-push_full r x h ∙ e)
      ∙ window_snoc (entry (push r x)) 0 n
      ∙ ap₂ (λ xs y. xs ++ (y ∷ [])) (window_congr _ _ 0 n old ∙ sym (window_shift (entry r) 0 n))
          new_entry
      ∙ ap (λ k. drop 1 (window (entry r) 0 k) ++ (x ∷ [])) (sym e)
    where
      old : (j : ℕ) → 0 ≤ j → j < 0 + n → entry (push r x) j ≡ entry r (j + 1)
      old j _ k =
          entry-push_ne r x j (j + 1) (slot-push_full r x j v h)
            (slot-ne-head r (j + 1) v (omega arith) (omega arith))

      new_entry : entry (push r x) (0 + n) ≡ x
      new_entry =
          let at_end : 0 + n + 1 ≡ r.count = omega arith in
          entry-push_self r x (0 + n) v
            (slot-push_full r x (0 + n) v h ∙ ap (slot r) at_end ∙ slot-count r v)

  -- `Push` appends the entry and keeps the last `cap` entries.
  pub push-recent :
      (r : RingBuffer A) (x : A)
      → IsValid r
      → contents (push r x) ≡ recent (length r.items) (contents r ++ (x ∷ []))
  unfolding recent
  push-recent r x v = elim (dec_lt r.count (length r.items)) [
    | yes room ↦
        let nothing : 0 ≡ length (contents r ++ (x ∷ [])) - length r.items =
          omega (arith, length-append (contents r) (x ∷ []), length-contents r) in
        push_room r x v room ∙ drop_congr (contents r ++ (x ∷ [])) nothing
    | no full ↦
        let one : 1 ≡ length (contents r ++ (x ∷ [])) - length r.items =
          omega (arith, length-append (contents r) (x ∷ []), length-contents r) in
        push_full r x (r.count - 1) v (omega arith) (omega arith)
        ∙ sym (drop-append_one 1 (contents r) x (omega (arith, length-contents r)))
        ∙ drop_congr (contents r ++ (x ∷ [])) one
  ]

  -- `Push` keeps the capacity.
  pub cap-push : (r : RingBuffer A) (x : A) → length (push r x).items ≡ length r.items
  unfolding push
  cap-push r x = length-set r.items r.head x

  pub drain_all-IsValid : (r : RingBuffer A) → IsValid r → IsValid (drain_all d r).1
  unfolding drain_all
  drain_all-IsValid r v = ground arith

  pub new-IsValid :
      (n : ℕ)
      → (r : RingBuffer A) → new d (pos (suc n)) ≡ some r
      → IsValid r × (contents r ≡ []) × (length r.items ≡ suc n)
  unfolding new contents window
  new-IsValid n r e = ground (arith, length-replicate (suc n) d)

  -- A client's calls in order, with what each peek and drain returns.
  unfoldable pub run : RingBuffer A → List (Call A) → List (List A)
  run r [] = []
  run r (push_call x ∷ calls) = run (push r x) calls
  run r (peek_call ∷ calls) = peek d r ∷ run r calls
  run r (drain_call ∷ calls) = (drain_all d r).0 ∷ run (drain_all d r).1 calls

  run_refines_history :
      (c : ℕ) (calls : List (Call A)) (r : RingBuffer A) (h : List A)
      → length r.items ≡ c
      → IsValid r
      → contents r ≡ recent c h
      → run r calls ≡ history_run c h calls
  unfolding run history_run
  run_refines_history c [] r h l v e = refl
  run_refines_history c (push_call x ∷ calls) r h l v e =
      run_refines_history c calls (push r x) (h ++ (x ∷ [])) (cap-push r x ∙ l) (push-IsValid r x v)
        (push-recent r x v
          ∙ ap₂ (λ k q. recent k (q ++ (x ∷ []))) l e
          ∙ recent-recent_snoc c h x (omega arith))
  run_refines_history c (peek_call ∷ calls) r h l v e =
      ap₂ ◌∷◌ (peek-eq-contents r ∙ e) (run_refines_history c calls r h l v e)
  run_refines_history c (drain_call ∷ calls) r h l v e =
      let (returned, left, same) = drain_all-eq-contents r in
      ap₂ ◌∷◌ (returned ∙ e) (
        run_refines_history c calls (drain_all d r).1 [] (ap length same ∙ l)
          (drain_all-IsValid r v) (left ∙ sym (recent_nil c)))

-- The buffer returned by `New` for a positive capacity answers every sequence of pushes, peeks and
-- drains as if it kept all entries since the last drain and showed the last `capacity` of them.
pub run_refines {ℓ} :
    {A : Type ℓ} (d : A) (n : ℕ) (r : RingBuffer A) (calls : List (Call A))
    → new d (pos (suc n)) ≡ some r
    → run d r calls ≡ history_run (suc n) [] calls
run_refines d n r calls e =
    let (v, nothing, size) = new-IsValid d n r e in
    run_refines_history d (suc n) calls r [] size v (nothing ∙ sym (recent_nil (suc n)))
