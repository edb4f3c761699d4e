-- ===== src/Pregel/Schedule/Next.antt =====
-- Where the engine goes after a node (graphengine/pregel/engine.go).
pub mod Targets
use harness_go.Base.{
  String, ◌≡◌, refl, sym, ap, true, false, Option, none, some, List, [], ◌∷◌, ◌++◌, ◌==◌, arith,
  elem, lookup, Dict, Bool-cases, Option-cases, inl, inr, nat_beq, length, if◌then◌else◌,
}
use harness_go.Value.{Value}
use harness_go.Errors.{Result, ok, err}
use harness_go.Graph.{StateGraph, Edge, ConditionalEdge, Branch, end_node}
use harness_go.Pregel.Schedule.{
  Scan, going, returned, add_name, add_names, choose_result, scan_conditional, scan_edges,
  scan_branches, get_next_nodes, after_conditional, after_edges,
}

-- the target that one conditional edge selects, if its condition and its mapping give one
abbrev selected : (Value → String) → Dict String → Result Value → Option String
selected sprint mapping (ok v) = lookup (sprint v) mapping
selected sprint mapping (err e) = none

abbrev cons_some : Option String → List String → List String
cons_some none ts = ts
cons_some (some t) ts = t ∷ ts

-- the targets that the conditional edges of a node select, in order
abbrev pub selected_targets : (Value → String) → String → Value → List ConditionalEdge → List String
selected_targets sprint node state [] = []
selected_targets sprint node state (e ∷ es) =
    let rest = selected_targets sprint node state es in
    if e.from == node then cons_some (selected sprint e.mapping (e.condition state)) rest else rest

-- the targets of the regular edges of a node, in order
abbrev pub edge_targets : String → List Edge → List String
edge_targets node [] = []
edge_targets node (e ∷ es) =
    let rest = edge_targets node es in if e.from == node then e.to ∷ rest else rest

abbrev pub or_if_empty : List String → List String → List String
or_if_empty [] other = other
or_if_empty (t ∷ ts) other = t ∷ ts

abbrev pub before_end : List String → List String
before_end [] = []
before_end (t ∷ ts) = if t == end_node then [] else t ∷ before_end ts

-- a scan over targets: it returns at the first virtual end node
abbrev scan_targets : List String → List String → Scan
scan_targets ts found =
    if elem end_node ts
    then returned (add_names (before_end ts) found)
    else going (add_names ts found)

scan_edges-targets :
    (node : String) (es : List Edge) (found : List String)
    → scan_edges node es found ≡ scan_targets (edge_targets node es) found
unfolding scan_edges elem
scan_edges-targets node [] found = refl
scan_edges-targets node (e ∷ es) found = elim (Bool-cases (e.from == node)) [
  | inl mine ↦ elim (Bool-cases (e.to == end_node)) [
    | inl stop ↦ rw (mine, stop) refl
    | inr go ↦ rw (mine, go) (scan_edges-targets node es (add_name e.to found))
  ]
  | inr other ↦ rw other (scan_edges-targets node es found)
]

choose_result-targets :
    (sprint : Value → String) (mapping : Dict String) (r : Result Value)
    (found rest_targets : List String) (rest : List String → Scan)
    (ih : (f : List String) → rest f ≡ scan_targets rest_targets f)
    → choose_result sprint mapping r found rest
      ≡ scan_targets (cons_some (selected sprint mapping r) rest_targets) found
unfolding elem
choose_result-targets sprint mapping (err e) found ts rest ih = ih found
choose_result-targets sprint mapping (ok v) found ts rest ih =
    elim (Option-cases (lookup (sprint v) mapping)) [
      | inl e ↦ rw e (ih found)
      | inr (t, e) ↦ elim (Bool-cases (t == end_node)) [
        | inl stop ↦ rw (e, stop) refl
        | inr go ↦ rw (e, go) (ih (add_name t found))
      ]
    ]

scan_conditional-targets :
    (sprint : Value → String) (node : String) (state : Value) (es : List ConditionalEdge)
    (found : List String)
    → scan_conditional sprint node state es found
      ≡ scan_targets (selected_targets sprint node state es) found
unfolding scan_conditional elem
scan_conditional-targets sprint node state [] found = refl
scan_conditional-targets sprint node state (e ∷ es) found = elim (Bool-cases (e.from == node)) [
  | inl mine ↦ rw mine (
      choose_result-targets sprint e.mapping (e.condition state) found
        (selected_targets sprint node state es) (λ f. scan_conditional sprint node state es f)
        (λ f. scan_conditional-targets sprint node state es f))
  | inr other ↦ rw other (scan_conditional-targets sprint node state es found)
]

before_end_self : (ts : List String) → elem end_node ts ≡ false → before_end ts ≡ ts
unfolding elem
before_end_self [] h = refl
before_end_self (t ∷ ts) h = ground (arith, before_end_self ts)

filled :
    (ts : List String) (x : String) (xs : List String)
    → nat_beq (length (add_names ts (x ∷ xs))) 0 ≡ false
filled [] x xs = ground arith
filled (t ∷ ts) x xs = elim (Bool-cases (elem t (x ∷ xs))) [
  | inl old ↦ rw old (filled ts x xs)
  | inr new ↦ rw new (filled ts x (xs ++ t ∷ []))
]

after_edges-targets :
    (node : String) (state : Value) (branches : List Branch) (ts : List String)
    → branches ≡ []
    → after_edges node state branches (scan_targets ts []) ≡ add_names (before_end ts) []
unfolding scan_branches
after_edges-targets node state branches ts b = elim (Bool-cases (elem end_node ts)) [
  | inl stop ↦ rw stop refl
  | inr go ↦ rw (go, b) (ap (λ l. add_names l []) (sym (before_end_self ts go)))
]

module _ (sprint : Value → String) (g : StateGraph) (node : String) (state : Value) where
  -- the targets of the node's conditional edges
  abbrev pub chosen : List String
  chosen = selected_targets sprint node state g.conditional_edges

  -- When a conditional edge of the node selects the virtual end node, the run does not end for
  -- that reason: the nodes that earlier conditional edges selected are next, and only the regular
  -- edges and the branches are passed over.
  pub end_keeps_earlier :
      elem end_node chosen ≡ true
      → get_next_nodes sprint g node state ≡ add_names (before_end chosen) []
  unfolding get_next_nodes
  end_keeps_earlier h =
      rw (scan_conditional-targets sprint node state g.conditional_edges [], h) refl

  at_chosen :
      (ts : List String)
      → g.branches ≡ []
      → after_conditional node state g (scan_targets ts [])
        ≡ add_names (before_end (or_if_empty ts (edge_targets node g.edges))) []
  unfolding scan_branches elem
  at_chosen [] b =
      rw scan_edges-targets
        (after_edges-targets node state g.branches (edge_targets node g.edges) b)
  at_chosen (t ∷ ts) b = elim (Bool-cases (elem end_node (t ∷ ts))) [
    | inl stop ↦ rw stop refl
    | inr go ↦
        rw (go, filled ts t [], b) (ap (λ l. add_names l []) (sym (before_end_self (t ∷ ts) go)))
  ]

  -- In a graph without branches the next nodes are the targets that the node's conditional edges
  -- select or, if they select none, the targets of its regular edges: those in front of the first
  -- virtual end node, each once.
  pub next_nodes_of_edges :
      g.branches ≡ []
      → get_next_nodes sprint g node state
        ≡ add_names (before_end (or_if_empty chosen (edge_targets node g.edges))) []
  unfolding get_next_nodes
  next_nodes_of_edges b =
      rw (scan_conditional-targets sprint node state g.conditional_edges []) (at_chosen chosen b)
