-- ===== src/Service/ComputeChain/Linked.antt =====
-- internal/service/profiler_service.go: the depths and parents of a compute chain.
use intelligent_odoo_dev_too.Prelude.{
  ℕ, suc, ◌≤◌, ◌&&◌, Option, none, some, List, [], ◌∷◌, ◌++◌, ◌≡◌, sym, ◌∙◌, In, here, there,
  length, length-append, arith, inl, inr, Bool-cases, Option-cases, &&-eq-true_iff, append_assoc,
  append-nil,
}
use intelligent_odoo_dev_too.Prelude.Text.{Bytes, eqb, eqb_iff}
use intelligent_odoo_dev_too.Service.ComputeChain.{
  ProfilerEvent, RawComputeNode, NodeIds, node_id, dotted, node_key, event_key, is_deeper,
  scan_nodes, scan_known, scan_depends, depth_and_parent, determine_depth_and_parent, node_of,
  filter_compute_events, build_nodes, chain_of, build_compute_chain_from_events,
}

-- How a node stands to the nodes before it: a root, or one deeper than an earlier node of a field
-- that it depends on, with a parent that is not after it.
pub data Placed (earlier : List RawComputeNode) (model : Bytes) (deps : List Bytes)
    : ℕ × Option ℕ → Type 0 where
  root : Placed earlier model deps (0, none)
  child :
      {p : RawComputeNode} {dep : Bytes} {j : ℕ}
      → In p earlier
      → In dep deps
      → node_key p ≡ dotted model dep
      → j ≤ length earlier
      → Placed earlier model deps (suc p.depth, some j)

-- Every node after some earlier ones.
pub data Linked : List RawComputeNode → List RawComputeNode → Type 0 where
  linked : {earlier : List RawComputeNode} → Linked earlier []
  link :
      {earlier nodes : List RawComputeNode} {n : RawComputeNode}
      → Placed earlier n.model n.depends_on (n.depth, n.parent_id)
      → Linked (earlier ++ (n ∷ [])) nodes
      → Linked earlier (n ∷ nodes)

-- What the loops have found so far.
data Found (earlier : List RawComputeNode) (model : Bytes) (deps : List Bytes)
    : Option ℕ × Option ℕ → Type 0 where
  nothing : Found earlier model deps (none, none)
  found :
      {p : RawComputeNode} {dep : Bytes} {j : ℕ}
      → In p earlier
      → In dep deps
      → node_key p ≡ dotted model dep
      → j ≤ length earlier
      → Found earlier model deps (some p.depth, some j)

Found-Placed :
    {earlier : List RawComputeNode} {model : Bytes} {deps : List Bytes} {best : Option ℕ × Option ℕ}
    → Found earlier model deps best
    → Placed earlier model deps (depth_and_parent best)
Found-Placed nothing = root
Found-Placed (found a b c d) = child a b c d

-- The ids of the map are not after the node that is placed.
data Known (earlier : List RawComputeNode) : NodeIds → Type 0 where
  none_known : Known earlier []
  known :
      {key : Bytes} {i : ℕ} {ids : NodeIds}
      → i ≤ length earlier
      → Known earlier ids
      → Known earlier ((key, i) ∷ ids)

Known-later :
    {xs ys : List RawComputeNode} {ids : NodeIds}
    → length xs ≤ length ys
    → Known xs ids
    → Known ys ids
Known-later h none_known = none_known
Known-later h (known l k) = known (omega arith) (Known-later h k)

module _ (earlier : List RawComputeNode) (model : Bytes) (all_deps : List Bytes) where
  scan_nodes-Found :
      (dep : Bytes) (pid : ℕ) (nodes : List RawComputeNode) (best : Option ℕ × Option ℕ)
      → In dep all_deps
      → pid ≤ length earlier
      → ((p : RawComputeNode) → In p nodes → In p earlier)
      → Found earlier model all_deps best
      → Found earlier model all_deps (scan_nodes (dotted model dep) pid nodes best)
  unfolding scan_nodes
  scan_nodes-Found dep pid [] best i l sub f = f
  scan_nodes-Found dep pid (prev ∷ nodes) best i l sub f =
      let rest = scan_nodes-Found dep pid nodes in
      let sub' : (p : RawComputeNode) → In p nodes → In p earlier = (λ p m. sub p (there m)) in
      elim (Bool-cases (eqb (node_key prev) (dotted model dep) && is_deeper prev.depth best.0)) [
        | inl hit ↦
            let (same, _) =
              (&&-eq-true_iff (eqb (node_key prev) (dotted model dep))
                  (is_deeper prev.depth best.0)).0
                hit in
            rw hit (
              rest (some prev.depth, some pid) i l sub'
                (found (sub prev here) i ((eqb_iff _ _).0 same) l))
        | inr miss ↦ rw miss (rest best i l sub' f)
      ]

  node_id-le :
      (key : Bytes) (ids : NodeIds) (j : ℕ)
      → Known earlier ids
      → node_id key ids ≡ some j
      → j ≤ length earlier
  unfolding node_id
  node_id-le key [] j k e = cc
  node_id-le key ((k', i) ∷ ids) j (known l k) e = elim (Bool-cases (eqb k' key)) [
    | inl hit ↦ let f : some i ≡ some j = (rw hit at e) in let same : i ≡ j = cc in omega arith
    | inr miss ↦ node_id-le key ids j k (rw miss at e)
  ]

  scan_depends-Found :
      (deps : List Bytes) (ids : NodeIds) (best : Option ℕ × Option ℕ)
      → ((d : Bytes) → In d deps → In d all_deps)
      → Known earlier ids
      → Found earlier model all_deps best
      → Found earlier model all_deps (scan_depends model deps earlier ids best)
  unfolding scan_depends
  scan_depends-Found [] ids best sub k f = f
  scan_depends-Found (dep ∷ deps) ids best sub k f =
      scan_depends-Found deps ids
        (scan_known (dotted model dep) (node_id (dotted model dep) ids) earlier best)
        (λ d m. sub d (there m)) k
        (elim (Option-cases (node_id (dotted model dep) ids)) [
          | inl e ↦ rw e f
          | inr (pid, e) ↦ rw e (
              scan_nodes-Found dep pid earlier best (sub dep here)
                (node_id-le (dotted model dep) ids pid k e) (λ p m. m) f)
        ])

determine-Placed :
    (ev : ProfilerEvent) (nodes : List RawComputeNode) (ids : NodeIds)
    → Known nodes ids
    → Placed nodes ev.model ev.depends_on (determine_depth_and_parent ev nodes ids)
unfolding determine_depth_and_parent
determine-Placed ev nodes ids k = Found-Placed (
    scan_depends-Found nodes ev.model ev.depends_on ev.depends_on ids (none, none) (λ d m. m) k
      nothing)

build_nodes-Linked :
    (events : List ProfilerEvent) (nodes : List RawComputeNode) (ids : NodeIds)
    → Known nodes ids
    → (rest : List RawComputeNode) × ((build_nodes events nodes ids ≡ nodes ++ rest)
        × Linked nodes rest)
unfolding build_nodes
build_nodes-Linked [] nodes ids k = ([], (sym (append-nil nodes), linked))
build_nodes-Linked (ev ∷ events) nodes ids k =
    let ids' : NodeIds = (event_key ev, length nodes) ∷ ids in
    let k' : Known nodes ids' = known (omega arith) k in
    let n = node_of ev (determine_depth_and_parent ev nodes ids') in
    let more : length nodes ≤ length (nodes ++ (n ∷ [])) =
      rw (length-append nodes (n ∷ [])) (omega arith) in
    let (rest, (e, l)) = build_nodes-Linked events (nodes ++ (n ∷ [])) ids' (Known-later more k') in
    (n ∷ rest, (e ∙ append_assoc nodes (n ∷ []) rest, link (determine-Placed ev nodes ids' k') l))

-- If a chain is built, in whatever order the events are sorted, then every node of it is a root of
-- depth 0, or lies one deeper than an earlier node of a field that it depends on, with a parent that
-- is not after it.
pub build_compute_chain_from_events-Linked :
    (sort : List ProfilerEvent → List ProfilerEvent) (events : List ProfilerEvent)
    (nodes : List RawComputeNode)
    → build_compute_chain_from_events sort events ≡ some nodes
    → Linked [] nodes
unfolding build_compute_chain_from_events
build_compute_chain_from_events-Linked sort events nodes e =
    of_sorted (sort (filter_compute_events events)) e
  where
    of_sorted : (evs : List ProfilerEvent) → chain_of evs ≡ some nodes → Linked [] nodes
    of_sorted [] e = cc
    of_sorted (ev ∷ evs) e =
        let (rest, (q, l)) = build_nodes-Linked (ev ∷ evs) [] [] none_known in
        let same : rest ≡ nodes = cc in rw (sym same) l
