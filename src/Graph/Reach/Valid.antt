-- ===== src/Graph/Reach/Valid.antt =====
-- When a graph is valid (graphengine/graph/graph.go, Validate).
use harness_go.Base.{
  String, ◌≡◌, ◌↔◌, refl, false, Option, none, some, List, [], ◌∷◌, ◌==◌, Dict, elem, length,
  nat_beq, All, Bool-cases, inl, inr,
}
use harness_go.Errors.{plain}
use harness_go.Graph.{StateGraph, Node}
use harness_go.Graph.Reach.{compute_reachable, unreachable, validate, check_nodes, check_graph}
use harness_go.Graph.Reach.Closure.{Reaches, compute_reachable_iff}

-- every node of a part of the node map can be reached
abbrev pub AllReached : StateGraph → Dict Node → Type 0
AllReached g = All (λ (e : String × Node). Reaches g e.0)

unreachable_sound :
    (g : StateGraph) (nodes : Dict Node)
    → (g.entry_point == "") ≡ false
    → unreachable (compute_reachable g) nodes ≡ none
    → AllReached g nodes
unfolding unreachable
unreachable_sound g [] h u = tt
unreachable_sound g ((name, n) ∷ nodes) h u = elim (Bool-cases (elem name (compute_reachable g))) [
  | inl found ↦
      ((compute_reachable_iff g name h).0 found, unreachable_sound g nodes h (rw found at u))
  | inr lost ↦ let bad : some name ≡ none = rw lost at u in cc
]

unreachable_complete :
    (g : StateGraph) (nodes : Dict Node)
    → (g.entry_point == "") ≡ false
    → AllReached g nodes
    → unreachable (compute_reachable g) nodes ≡ none
unfolding unreachable
unreachable_complete g [] h a = refl
unreachable_complete g ((name, n) ∷ nodes) h a =
    rw ((compute_reachable_iff g name h).1 a.0) (unreachable_complete g nodes h a.1)

checked : (o : Option String) → check_nodes o none ≡ none → o ≡ none
checked none h = refl
checked (some name) h = cc

check_graph_sound :
    (g : StateGraph) (reached : List String)
    → check_graph g reached none ≡ none
    → ((g.entry_point == "") ≡ false)
      × (nat_beq (length g.finish_points) 0 ≡ false)
      × (unreachable reached g.nodes ≡ none)
unfolding check_graph
check_graph_sound g reached v = elim (Bool-cases (g.entry_point == "")) [
  | inl unset ↦ let bad : some (plain ("no entry point set" ∷ [])) ≡ none = rw unset at v in cc
  | inr set ↦ elim (Bool-cases (nat_beq (length g.finish_points) 0)) [
    | inl endless ↦
        let bad : some (plain ("no finish points set" ∷ [])) ≡ none = rw (set, endless) at v in cc
    | inr ending ↦ (set, ending, checked (unreachable reached g.nodes) (rw (set, ending) at v))
  ]
]

check_graph_complete :
    (g : StateGraph) (reached : List String)
    → (g.entry_point == "") ≡ false
    → nat_beq (length g.finish_points) 0 ≡ false
    → unreachable reached g.nodes ≡ none
    → check_graph g reached none ≡ none
unfolding check_graph
check_graph_complete g reached set ending u = rw (set, ending, u) refl

-- Validate accepts a graph, whose state schema is accepted, exactly when it has an entry point and
-- a finish point and every node can be reached from the entry point by edges and conditional edges.
pub validate_iff :
    (g : StateGraph)
    → (validate g none ≡ none) ↔ (
        ((g.entry_point == "") ≡ false)
        × (nat_beq (length g.finish_points) 0 ≡ false)
        × AllReached g g.nodes)
unfolding validate
validate_iff g = (
  λ v.
      let (set, ending, u) = check_graph_sound g (compute_reachable g) v in
      (set, ending, unreachable_sound g g.nodes set u),
  λ h.
      check_graph_complete g (compute_reachable g) h.0 h.1 (unreachable_complete g g.nodes h.0 h.2),
)
