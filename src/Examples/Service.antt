-- ===== src/Examples/Service.antt =====
-- internal/service on two computed fields, of which the second depends on the first and on itself.
use intelligent_odoo_dev_too.Prelude.{none, some, List, ◌≡◌, refl, true, ℕ, [], ◌∷◌}
use intelligent_odoo_dev_too.Prelude.Int.{pos}
use intelligent_odoo_dev_too.Prelude.Text.{Bytes, codes}
use intelligent_odoo_dev_too.Service.ComputeChain.{
  ProfilerEvent, RawComputeNode, node_of, build_compute_chain_from_events,
}
use intelligent_odoo_dev_too.Service.ComputeChain.Linked.{
  Linked, build_compute_chain_from_events-Linked,
}

abbrev computed : ℕ → Bytes → List Bytes → ProfilerEvent
computed time field deps = record {
  timestamp = time;
  model = codes "sale.order";
  method = codes "_compute";
  module_name = codes "sale";
  duration_ms = pos 3;
  is_compute = true;
  field_name = field;
  depends_on = deps;
  trigger_field = [];
}

abbrev subtotal : ProfilerEvent
subtotal = computed 1 (codes "subtotal") []

abbrev total : ProfilerEvent
total = computed 2 (codes "total") (codes "subtotal" ∷ [])

abbrev as_they_come : List ProfilerEvent → List ProfilerEvent
as_they_come events = events

abbrev chain : List RawComputeNode
chain = node_of subtotal (0, none) ∷ node_of total (1, some 0) ∷ []

built : build_compute_chain_from_events as_they_come (subtotal ∷ total ∷ []) ≡ some chain
unfolding build_compute_chain_from_events
built = refl

build_compute_chain_from_events-Linked_example : Linked [] chain
build_compute_chain_from_events-Linked_example =
    build_compute_chain_from_events-Linked as_they_come (subtotal ∷ total ∷ []) chain built

-- A field that depends on itself and is computed twice becomes its own parent.
abbrev path : ℕ → ProfilerEvent
path time = computed time (codes "path") (codes "path" ∷ [])

own_parent_test :
    build_compute_chain_from_events as_they_come (path 1 ∷ path 2 ∷ [])
    ≡ some (node_of (path 1) (0, none) ∷ node_of (path 2) (1, some 1) ∷ [])
unfolding build_compute_chain_from_events
own_parent_test = refl
