-- ===== src/Examples/Ringbuf.antt =====
-- internal/agent/ringbuf/ringbuf.go on concrete calls.
use intelligent_odoo_dev_too.Prelude.{ℕ, ◌≡◌, refl, List, [], ◌∷◌, some}
use intelligent_odoo_dev_too.Prelude.Int.{pos}
use intelligent_odoo_dev_too.Ringbuf.{RingBuffer, new, peek, drain_all, push, read_out}
use intelligent_odoo_dev_too.Ringbuf.Refine.{
  Call, push_call, peek_call, drain_call, run, history_run, run_refines,
}

abbrev empty_buffer : RingBuffer ℕ
empty_buffer = record { items = 0 ∷ 0 ∷ []; head = 0; count = 0 }

abbrev calls : List (Call ℕ)
calls =
    push_call 1
    ∷ push_call 2
    ∷ push_call 3
    ∷ peek_call
    ∷ push_call 4
    ∷ drain_call
    ∷ push_call 5
    ∷ drain_call
    ∷ []

new-empty_buffer : new 0 (pos 2) ≡ some empty_buffer
unfolding new
new-empty_buffer = refl

run_refines_example : run 0 empty_buffer calls ≡ history_run 2 [] calls
run_refines_example = run_refines 0 1 empty_buffer calls new-empty_buffer

run_test : run 0 empty_buffer calls ≡ (2 ∷ 3 ∷ []) ∷ (3 ∷ 4 ∷ []) ∷ (5 ∷ []) ∷ []
unfolding run peek drain_all push read_out
run_test = refl
