-- ===== src/Graph/Reach/Ends.antt =====
-- All names that a graph leads to: a bound of what is reachable (graphengine/graph/graph.go,
-- computeReachable).
use harness_go.Base.{
  suc, String, ◌≡◌, refl, ap, ◌∙◌, List, [], ◌∷◌, ◌++◌, arith, Dict, elem, elem-append, Subset,
  length, length-append,
}
use harness_go.Graph.{StateGraph, Node, Edge, ConditionalEdge}
use harness_go.Graph.Reach.{count_targets, rounds}
use harness_go.Graph.Reach.Search.{successors, edge_steps, mapping_steps, conditional_steps}

-- all targets of a graph, and the entry point
abbrev edge_ends : List Edge → List String
edge_ends [] = []
edge_ends (e ∷ es) = e.to ∷ edge_ends es

abbrev mapping_ends : Dict String → List String
mapping_ends [] = []
mapping_ends ((k, t) ∷ m) = t ∷ mapping_ends m

abbrev conditional_ends : List ConditionalEdge → List String
conditional_ends [] = []
conditional_ends (e ∷ es) = mapping_ends e.mapping ++ conditional_ends es

abbrev pub ends : StateGraph → List String
ends g = g.entry_point ∷ edge_ends g.edges ++ conditional_ends g.conditional_edges

length-edge_ends : (es : List Edge) → length (edge_ends es) ≡ length es
length-edge_ends [] = refl
length-edge_ends (e ∷ es) = ap suc (length-edge_ends es)

length-mapping_ends : (m : Dict String) → length (mapping_ends m) ≡ length m
length-mapping_ends [] = refl
length-mapping_ends ((k, t) ∷ m) = ap suc (length-mapping_ends m)

length-conditional_ends :
    (es : List ConditionalEdge) → length (conditional_ends es) ≡ count_targets es
length-conditional_ends [] = refl
length-conditional_ends (e ∷ es) =
    length-append (mapping_ends e.mapping) (conditional_ends es)
    ∙ rw (length-mapping_ends e.mapping, length-conditional_ends es) refl

pub length-ends : (g : StateGraph) → length (ends g) ≡ rounds g
length-ends g = ap suc (
    length-append (edge_ends g.edges) (conditional_ends g.conditional_edges)
    ∙ rw (length-edge_ends g.edges, length-conditional_ends g.conditional_edges) refl)

edge_steps-Subset : (c : String) (es : List Edge) → Subset (edge_steps c es) (edge_ends es)
unfolding elem
edge_steps-Subset c [] k m = m
edge_steps-Subset c (e ∷ es) k m = ground (arith, edge_steps-Subset c es k)

mapping_steps-Subset :
    (nodes : Dict Node) (m : Dict String) → Subset (mapping_steps nodes m) (mapping_ends m)
unfolding elem
mapping_steps-Subset nodes [] k h = h
mapping_steps-Subset nodes ((i, t) ∷ m) k h = ground (arith, mapping_steps-Subset nodes m k)

conditional_steps-Subset :
    (nodes : Dict Node) (c : String) (es : List ConditionalEdge)
    → Subset (conditional_steps nodes c es) (conditional_ends es)
unfolding elem
conditional_steps-Subset nodes c [] k h = h
conditional_steps-Subset nodes c (e ∷ es) k h = ground (
  arith,
  elem-append k (mapping_ends e.mapping) (conditional_ends es),
  elem-append k (mapping_steps nodes e.mapping) (conditional_steps nodes c es),
  mapping_steps-Subset nodes e.mapping k,
  conditional_steps-Subset nodes c es k,
)

pub successors-Subset : (g : StateGraph) (c : String) → Subset (successors g c) (ends g)
unfolding elem
successors-Subset g c k h = ground (
  arith,
  elem-append k (edge_ends g.edges) (conditional_ends g.conditional_edges),
  elem-append k (edge_steps c g.edges) (conditional_steps g.nodes c g.conditional_edges),
  edge_steps-Subset c g.edges k,
  conditional_steps-Subset g.nodes c g.conditional_edges k,
)
