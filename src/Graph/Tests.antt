-- ===== src/Graph/Tests.antt =====
-- Concrete graphs and runs of them without an engine (graphengine/graph/graph.go).
use harness_go.Base.{
  ℕ, ◌≤◌, arith, some, String, List, zero, suc, ◌==◌, ◌≡◌, ◌↔◌, refl, true, false, Option, none, [],
  ◌∷◌, elem, lookup, insert, nat_beq, length,
}
use harness_go.Value.{Value, int, nil, dict, of_fields}
use harness_go.Errors.{Result, ok, err, plain, graph_interrupt, recursion_limit_reached}
use harness_go.Channels.Registry.{update_channels, get_values}
use harness_go.Pregel.Retry.{answers, panics}
use harness_go.Pregel.Schedule.{get_node}
use harness_go.Pregel.Run.{copy_channels}
use harness_go.Pregel.Output.{merge_states}
use harness_go.Graph.{
  StateGraph, Node, NodeFunc, plain_node, new_state_graph, add_node, add_edge,
  add_conditional_edges, has_node, missing_target,
}
use harness_go.Graph.Reach.{compute_reachable, validate}
use harness_go.Graph.Reach.Closure.{Reaches, compute_reachable_iff}
use harness_go.Graph.Inline.{
  CompiledGraph, InlineEnded, InlineEnding, inline_should_interrupt, inline_apply_input,
  inline_to_map, add_writes, inline_start, inline_run, inline_loop, inline_get_next_tasks,
  inline_execute_tasks, inline_apply_writes, inline_complete, inline_build_output, scan_conditions,
  scan_targets, tasks_for, collect_writes,
}
use harness_go.Graph.Inline.Ends.{
  HasEntry, AlwaysFails, step-inline_run, entry_interrupted, failing_entry,
}
use harness_go.Graph.Reach.Valid.{AllReached, validate_iff}

abbrev no_function : Option NodeFunc
no_function = none

abbrev four_nodes : StateGraph
four_nodes =
    add_node
      (add_node (add_node (add_node new_state_graph "a" no_function) "b" no_function) "c"
        no_function)
      "d" no_function

-- "a" leads to "b" by an edge and to "c" by a condition; nothing leads to "d".
abbrev with_edges : StateGraph
with_edges = (add_edge (add_edge (add_edge four_nodes "__start__" "a").0 "a" "b").0 "b" "__end__").0

abbrev always : Value → Result Value
always v = ok v

abbrev forked : StateGraph
forked = (add_conditional_edges with_edges "a" always (("x", "c") ∷ ("y", "__end__") ∷ [])).0

forked-reachable : compute_reachable forked ≡ "a" ∷ "b" ∷ "c" ∷ []
unfolding compute_reachable add_conditional_edges add_edge add_node new_state_graph has_node
    missing_target insert lookup
forked-reachable = refl

forked-entry : (forked.entry_point == "") ≡ false
unfolding add_conditional_edges add_edge add_node new_state_graph has_node missing_target insert
    lookup
forked-entry = refl

compute_reachable_iff_example : (elem "c" (compute_reachable forked) ≡ true) ↔ Reaches forked "c"
compute_reachable_iff_example = compute_reachable_iff forked "c" forked-entry

validate_iff_example : (validate forked none ≡ none) ↔ (
    ((forked.entry_point == "") ≡ false)
    × (nat_beq (length forked.finish_points) 0 ≡ false)
    × AllReached forked forked.nodes)
validate_iff_example = validate_iff forked

-- A node that fails in every even step and panics in every odd one.
abbrev broken : NodeFunc
broken zero place input = answers nil (some (plain ("broken" ∷ [])))
broken (suc step) place input = panics "broken"

abbrev one_node : StateGraph
one_node = (add_edge (add_node new_state_graph "a" (some broken)) "__start__" "a").0

abbrev compiled : List String → CompiledGraph
compiled interrupts = record {
  graph = one_node;
  interrupts = interrupts;
  recursion_limit = 3;
  sprint = λ v. "";
}

abbrev broken_node : Node
broken_node = plain_node "a" (some broken)

one_node-HasEntry : HasEntry one_node broken_node
unfolding get_node lookup insert new_state_graph add_node add_edge has_node
one_node-HasEntry = record { named = refl; entry = refl; filed = refl }

abbrev start : Value
start = dict (of_fields (("x", int 1) ∷ []))

start-applied :
    (interrupts : List String)
    → inline_apply_input (copy_channels (compiled interrupts).graph.channels []) start ≡ ([], none)
unfolding inline_apply_input inline_to_map add_writes copy_channels update_channels lookup insert
    new_state_graph add_node add_edge has_node
start-applied interrupts = refl

broken-AlwaysFails : AlwaysFails broken_node start
broken-AlwaysFails zero place = refl
broken-AlwaysFails (suc step) place = refl

step-inline_run_example :
    (r : InlineEnded) × (inline_run (compiled []) start ≡ some r)
    × (r.0.step ≤ 3)
    × ((n : ℕ) → r.1 ≡ err (recursion_limit_reached n) → r.0.step ≡ 3)
step-inline_run_example = step-inline_run (compiled []) start

entry_interrupted_example :
    inline_run (compiled ("*" ∷ [])) start ≡ some (inline_start [] start, err graph_interrupt)
unfolding elem
entry_interrupted_example =
    entry_interrupted (compiled ("*" ∷ [])) start broken_node [] one_node-HasEntry refl
      (omega arith) (start-applied ("*" ∷ []))

failing_entry_example :
    inline_run (compiled []) start
    ≡ some (record (inline_start [] start) { step = 3 }, err (recursion_limit_reached 3))
unfolding inline_should_interrupt
failing_entry_example =
    failing_entry (compiled []) start broken_node [] one_node-HasEntry refl broken-AlwaysFails
      (start-applied [])

-- "a" sets "x" to 2 and leads to "b", which sets it to 3; no node has a channel.
abbrev sets : ℕ → Option NodeFunc
sets n = some (λ step place input. answers (dict (of_fields (("x", int n) ∷ []))) none)

abbrev two_nodes : StateGraph
two_nodes =
    (add_edge
      (add_edge
        (add_edge (add_node (add_node new_state_graph "a" (sets 2)) "b" (sets 3)) "__start__" "a").0
        "a" "b").0
      "b" "__end__").0

abbrev result_of : InlineEnding → Option (Result Value)
result_of none = none
result_of (some r) = some r.1

two_nodes-run :
    result_of (
      inline_run
        (record { graph = two_nodes; interrupts = []; recursion_limit = 3; sprint = λ v. "" })
        start)
    ≡ some (ok (dict (of_fields (("x", int 3) ∷ []))))
unfolding inline_run new_state_graph add_node add_edge has_node lookup insert elem inline_loop
    inline_get_next_tasks inline_should_interrupt inline_execute_tasks inline_apply_writes
    inline_complete inline_build_output inline_apply_input inline_to_map add_writes copy_channels
    update_channels get_node scan_conditions scan_targets tasks_for collect_writes merge_states
    get_values
two_nodes-run = refl
