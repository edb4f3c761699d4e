-- ===== src/Pregel/Schedule/Next/Targets.antt =====
-- All the targets that come next, those of the branches included (graphengine/pregel/engine.go,
-- getNextNodes).
use harness_go.Base.{
  String, ◌≡◌, ◌||◌, eq_iff, elem-append, refl, List, [], ◌∷◌, ◌++◌, ◌==◌, arith, elem, Bool-cases,
  inl, inr, if◌then◌else◌,
}
use harness_go.Value.{Value}
use harness_go.Errors.{Result, ok, err}
use harness_go.Graph.{StateGraph, Branch, end_node}
use harness_go.Pregel.Schedule.{
  add_name, add_names, scan_branches, get_next_nodes, after_conditional, after_edges, add_targets,
  branch_targets,
}
use harness_go.Pregel.Schedule.Next.{
  chosen, edge_targets, or_if_empty, before_end, scan_targets, scan_edges-targets,
  scan_conditional-targets, filled,
}

add_names-append :
    (xs ys found : List String) → add_names (xs ++ ys) found ≡ add_names ys (add_names xs found)
add_names-append [] ys found = refl
add_names-append (x ∷ xs) ys found = add_names-append xs ys (add_name x found)

pub elem-add_names :
    (k : String) (ts found : List String)
    → elem k (add_names ts found) ≡ (elem k ts || elem k found)
unfolding elem
elem-add_names k [] found = refl
elem-add_names k (t ∷ ts) found = elim (Bool-cases (elem t found)) [
  | inl old ↦ rw old (ground (arith, elem-add_names k ts found, eq_iff t k))
  | inr new ↦ rw new (
      ground
        (arith, elem-add_names k ts (found ++ t ∷ []), elem-append k found (t ∷ []), eq_iff t k))
]

module _ (sprint : Value → String) (g : StateGraph) (node : String) (state : Value) where
  -- the targets of the node's branches, in order, without the virtual end node
  abbrev pub real_targets : List String → List String
  real_targets [] = []
  real_targets (t ∷ ts) = if t == end_node then real_targets ts else t ∷ real_targets ts

  abbrev pub branch_selected : Branch → Result Value → List String
  branch_selected b (ok v) = real_targets (b.then_targets v)
  branch_selected b (err e) = []

  abbrev pub branches_selected : List Branch → List String
  branches_selected [] = []
  branches_selected (b ∷ bs) =
      if b.from == node
      then branch_selected b (b.condition state) ++ branches_selected bs
      else branches_selected bs

  -- The targets that come next, written without a scan: those that the conditional edges select or,
  -- if they select none, those of the regular edges. If the virtual end node is among them, those in
  -- front of it are next; else those of the branches come in addition.
  abbrev pub next_targets : List String
  next_targets =
      let ts = or_if_empty (chosen sprint g node state) (edge_targets node g.edges) in
      if elem end_node ts then before_end ts else ts ++ branches_selected g.branches

  add_targets-real :
      (ts found : List String) → add_targets ts found ≡ add_names (real_targets ts) found
  add_targets-real [] found = refl
  add_targets-real (t ∷ ts) found = elim (Bool-cases (t == end_node)) [
    | inl stop ↦ rw stop (add_targets-real ts found)
    | inr go ↦ rw go (add_targets-real ts (add_name t found))
  ]

  branch_targets-selected :
      (b : Branch) (r : Result Value) (found : List String)
      → branch_targets b r found ≡ add_names (branch_selected b r) found
  branch_targets-selected b (ok v) found = add_targets-real (b.then_targets v) found
  branch_targets-selected b (err e) found = refl

  scan_branches-targets :
      (bs : List Branch) (found : List String)
      → scan_branches node state bs found ≡ add_names (branches_selected bs) found
  unfolding scan_branches
  scan_branches-targets [] found = refl
  scan_branches-targets (b ∷ bs) found = elim (Bool-cases (b.from == node)) [
    | inl mine ↦
        rw
          (
            mine,
            branch_targets-selected b (b.condition state) found,
            add_names-append (branch_selected b (b.condition state)) (branches_selected bs) found,
          )
          (scan_branches-targets bs (add_names (branch_selected b (b.condition state)) found))
    | inr other ↦ rw other (scan_branches-targets bs found)
  ]

  from_edges :
      (ts : List String)
      → after_edges node state g.branches (scan_targets ts [])
        ≡ add_names
            (if elem end_node ts then before_end ts else ts ++ branches_selected g.branches)
            []
  from_edges ts = elim (Bool-cases (elem end_node ts)) [
    | inl stop ↦ rw stop refl
    | inr go ↦
        rw (go, add_names-append ts (branches_selected g.branches) [])
          (scan_branches-targets g.branches (add_names ts []))
  ]

  from_chosen :
      (ts : List String)
      → after_conditional node state g (scan_targets ts [])
        ≡ add_names
            (if elem end_node (or_if_empty ts (edge_targets node g.edges))
              then before_end (or_if_empty ts (edge_targets node g.edges))
              else or_if_empty ts (edge_targets node g.edges) ++ branches_selected g.branches)
            []
  unfolding elem
  from_chosen [] = rw scan_edges-targets (from_edges (edge_targets node g.edges))
  from_chosen (t ∷ ts) = elim (Bool-cases (elem end_node (t ∷ ts))) [
    | inl stop ↦ rw stop refl
    | inr go ↦
        rw (go, filled ts t [], add_names-append (t ∷ ts) (branches_selected g.branches) [])
          (scan_branches-targets g.branches (add_names (t ∷ ts) []))
  ]

  -- The next nodes are the next targets, each once.
  pub get_next_nodes-targets : get_next_nodes sprint g node state ≡ add_names next_targets []
  unfolding get_next_nodes
  get_next_nodes-targets =
      rw (scan_conditional-targets sprint node state g.conditional_edges [])
        (from_chosen (chosen sprint g node state))
