-- ===== src/Graph/Reach.antt =====
-- graphengine/graph/graph.go: computeReachable and Validate. The check of the state schema is by
-- reflection: its outcome is an argument.
pub mod Search
pub mod Ends
pub mod Closure
pub mod Valid
use harness_go.Base.{
  ℕ, zero, suc, ◌+◌, String, not, ◌&&◌, Option, none, some, List, [], ◌∷◌, ◌++◌, ◌==◌, Dict, lookup,
  is_some, elem, length, nat_beq, if◌then◌else◌,
}
use harness_go.Errors.{Err, plain, wrap}
use harness_go.Graph.{StateGraph, Node, Edge, ConditionalEdge, end_node}

-- the set of reachable names and the queue
abbrev pub Reached : Type 0
Reached = List String × List String

abbrev pub reach : String → Reached → Reached
reach name (reachable, queue) = (reachable ++ name ∷ [], queue ++ name ∷ [])

-- the loop over the regular edges
unfoldable pub follow_edges : String → List Edge → Reached → Reached
unfolding elem
follow_edges current [] s = s
follow_edges current (e ∷ es) s = follow_edges current es (
    if e.from == current && (not (elem e.to s.0) && not (e.to == end_node))
    then reach e.to s
    else s)

-- the loop over the targets of a mapping
unfoldable pub follow_mapping : Dict Node → Dict String → Reached → Reached
unfolding elem lookup
follow_mapping nodes [] s = s
follow_mapping nodes ((k, target) ∷ mapping) s = follow_mapping nodes mapping (
    if is_some (lookup target nodes) && (not (elem target s.0) && not (target == end_node))
    then reach target s
    else s)

-- the loop over the conditional edges
unfoldable pub follow_conditional : Dict Node → String → List ConditionalEdge → Reached → Reached
unfolding follow_mapping
follow_conditional nodes current [] s = s
follow_conditional nodes current (e ∷ es) s =
    follow_conditional nodes current es
      (if e.from == current then follow_mapping nodes e.mapping s else s)

unfoldable pub follow : StateGraph → String → Reached → Reached
unfolding follow_edges follow_conditional
follow g current s =
    follow_conditional g.nodes current g.conditional_edges (follow_edges current g.edges s)

-- The loop over the queue, for at most so many rounds.
unfoldable pub reach_loop : StateGraph → ℕ → Reached → List String
unfolding follow
reach_loop g zero (reachable, queue) = reachable
reach_loop g (suc n) (reachable, []) = reachable
reach_loop g (suc n) (reachable, current ∷ queue) =
    reach_loop g n (follow g current (reachable, queue))

-- the number of all targets: no more names than these and the entry point are ever reached
abbrev pub count_targets : List ConditionalEdge → ℕ
count_targets [] = 0
count_targets (e ∷ es) = length e.mapping + count_targets es

abbrev pub rounds : StateGraph → ℕ
rounds g = suc (length g.edges + count_targets g.conditional_edges)

unfoldable pub compute_reachable : StateGraph → List String
unfolding reach_loop
compute_reachable g =
    if g.entry_point == ""
    then []
    else reach_loop g (rounds g) (g.entry_point ∷ [], g.entry_point ∷ [])

-- the loop of Validate: the first node that is not reachable
unfoldable pub unreachable : List String → Dict Node → Option String
unfolding elem
unreachable reachable [] = none
unreachable reachable ((name, n) ∷ nodes) =
    let rest = unreachable reachable nodes in if elem name reachable then rest else some name

abbrev pub check_nodes : Option String → Option Err → Option Err
check_nodes (some name) schema =
    some (plain ("node" ∷ name ∷ "is not reachable from entry point" ∷ []))
check_nodes none (some e) = some (wrap ("state schema validation failed" ∷ []) e)
check_nodes none none = none

-- the checks of Validate, at the set that the search gives
unfoldable pub check_graph : StateGraph → List String → Option Err → Option Err
unfolding unreachable
check_graph g reachable schema =
    if g.entry_point == ""
    then some (plain ("no entry point set" ∷ []))
    else if nat_beq (length g.finish_points) 0
    then some (plain ("no finish points set" ∷ []))
    else check_nodes (unreachable reachable g.nodes) schema

unfoldable pub validate : StateGraph → Option Err → Option Err
unfolding compute_reachable check_graph
validate g schema = check_graph g (compute_reachable g) schema
