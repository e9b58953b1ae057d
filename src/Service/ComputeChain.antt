-- ===== src/Service/ComputeChain.antt =====
-- internal/service/profiler_service.go: the compute chain of a recording, built from its events. The id
-- "compute-i" of a node is its number, and no parent id is none; the sorting of `sort.Slice`, which
-- need not be stable, is an argument.
use intelligent_odoo_dev_too.Prelude.{
  ℕ, zero, suc, Bool, true, false, not, ◌&&◌, ◌||◌, Option, none, some, List, [], ◌∷◌, ◌++◌, keep,
  length, if◌then◌else◌, ltb,
}
use intelligent_odoo_dev_too.Prelude.Int.{ℤ}
use intelligent_odoo_dev_too.Prelude.Text.{Bytes, eqb}
pub mod Linked

-- `ProfilerEvent`, the parts that the chain is built from.
pub record ProfilerEvent : Type 0 where
  pub timestamp : ℕ
  pub model : Bytes
  pub method : Bytes
  pub module_name : Bytes
  pub duration_ms : ℤ
  pub is_compute : Bool
  pub field_name : Bytes
  pub depends_on : List Bytes
  pub trigger_field : Bytes

-- `rawComputeNode`; the count of queries is always 0.
pub record RawComputeNode : Type 0 where
  pub model : Bytes
  pub field_name : Bytes
  pub method : Bytes
  pub module_name : Bytes
  pub duration_ms : ℤ
  pub depends_on : List Bytes
  pub trigger_field : Bytes
  pub depth : ℕ
  pub parent_id : Option ℕ

abbrev pub is_empty : Bytes → Bool
is_empty [] = true
is_empty (c ∷ s) = false

-- `filterComputeEvents`.
abbrev pub is_chained : ProfilerEvent → Bool
is_chained ev = ev.is_compute && (not (is_empty ev.field_name) || not (is_empty ev.method))

abbrev pub filter_compute_events : List ProfilerEvent → List ProfilerEvent
filter_compute_events = keep is_chained

-- `fieldToNodeID`; a pair hides those after it with its key.
abbrev pub NodeIds : Type 0
NodeIds = List (Bytes × ℕ)

unfoldable pub node_id : Bytes → NodeIds → Option ℕ
node_id key [] = none
node_id key ((k, i) ∷ ids) = let rest = node_id key ids in if eqb k key then some i else rest

abbrev pub dotted : Bytes → Bytes → Bytes
dotted model field = model ++ (b'.' ∷ field)

abbrev pub node_key : RawComputeNode → Bytes
node_key n = dotted n.model n.field_name

abbrev pub event_key : ProfilerEvent → Bytes
event_key ev = dotted ev.model (if is_empty ev.field_name then ev.method else ev.field_name)

-- The loops of `determineDepthAndParent`: the depth so far, which is none for -1, and the parent.
abbrev pub is_deeper : ℕ → Option ℕ → Bool
is_deeper d none = true
is_deeper d (some m) = ltb m d

unfoldable pub scan_nodes :
    Bytes → ℕ → List RawComputeNode → Option ℕ × Option ℕ → Option ℕ × Option ℕ
scan_nodes key pid [] best = best
scan_nodes key pid (prev ∷ nodes) best = scan_nodes key pid nodes (
    if eqb (node_key prev) key && is_deeper prev.depth best.0
    then (some prev.depth, some pid)
    else best)

abbrev pub scan_known :
    Bytes → Option ℕ → List RawComputeNode → Option ℕ × Option ℕ → Option ℕ × Option ℕ
scan_known key none nodes best = best
scan_known key (some pid) nodes best = scan_nodes key pid nodes best

unfoldable pub scan_depends :
    Bytes → List Bytes → List RawComputeNode → NodeIds → Option ℕ × Option ℕ → Option ℕ × Option ℕ
unfolding node_id scan_nodes
scan_depends model [] nodes ids best = best
scan_depends model (dep ∷ deps) nodes ids best =
    scan_depends model deps nodes ids
      (scan_known (dotted model dep) (node_id (dotted model dep) ids) nodes best)

-- With a parent the greatest depth is not -1.
abbrev pub depth_and_parent : Option ℕ × Option ℕ → ℕ × Option ℕ
depth_and_parent (best, none) = (0, none)
depth_and_parent (none, some pid) = (0, some pid)
depth_and_parent (some d, some pid) = (suc d, some pid)

unfoldable pub determine_depth_and_parent :
    ProfilerEvent → List RawComputeNode → NodeIds → ℕ × Option ℕ
unfolding scan_depends
determine_depth_and_parent ev nodes ids =
    depth_and_parent (scan_depends ev.model ev.depends_on nodes ids (none, none))

abbrev pub node_of : ProfilerEvent → ℕ × Option ℕ → RawComputeNode
node_of ev (depth, parent) = record {
  model = ev.model;
  field_name = ev.field_name;
  method = ev.method;
  module_name = ev.module_name;
  duration_ms = ev.duration_ms;
  depends_on = ev.depends_on;
  trigger_field = ev.trigger_field;
  depth = depth;
  parent_id = parent;
}

-- The loop of `BuildComputeChainFromEvents`, with the nodes so far: the event has its id before its
-- parent is looked for.
unfoldable pub build_nodes :
    List ProfilerEvent → List RawComputeNode → NodeIds → List RawComputeNode
unfolding determine_depth_and_parent
build_nodes [] nodes ids = nodes
build_nodes (ev ∷ events) nodes ids =
    let ids' = (event_key ev, length nodes) ∷ ids in
    build_nodes events (nodes ++ (node_of ev (determine_depth_and_parent ev nodes ids') ∷ [])) ids'

-- `BuildComputeChainFromEvents`, before the nodes are encoded.
abbrev pub chain_of : List ProfilerEvent → Option (List RawComputeNode)
chain_of [] = none
chain_of (ev ∷ events) = some (build_nodes (ev ∷ events) [] [])

unfoldable pub build_compute_chain_from_events :
    (List ProfilerEvent → List ProfilerEvent) → List ProfilerEvent → Option (List RawComputeNode)
unfolding build_nodes
build_compute_chain_from_events sort events = chain_of (sort (filter_compute_events events))
