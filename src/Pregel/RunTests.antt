-- ===== src/Pregel/RunTests.antt =====
-- Concrete runs of the engine (graphengine/pregel/engine.go).
use Prim.Native.Char.{Char}
use mathlib.Core.List.Permᴰ
use harness_go.Pregel.Writes.Order.{apply_writes_order, result_names}
use harness_go.Base.{
  Option, Distinct, ℕ, ◌≤◌, String, ◌≡◌, refl, false, none, some, List, [], ◌∷◌, lookup, insert,
  elem, if◌then◌else◌, ◌<◌, ◌^◌, arith,
}
use harness_go.Value.{Value, nil, int, dict, of_fields, add_int}
use harness_go.Errors.{Result, recursion_limit_reached, ok, err, custom}
use harness_go.Graph.{
  StateGraph, NodeFunc, new_state_graph, add_node, add_edge, add_channel, has_node,
}
use harness_go.Checkpoint.{Checkpoint, new_checkpoint, version_of, increment_channel}
use harness_go.Channels.LastValue.{new_last_value}
use harness_go.Channels.Plain
use harness_go.Channels.Channel.{of_plain}
use harness_go.Pregel.Retry.{answers}
use harness_go.Pregel.Writes.{RunState, TaskResult, apply_writes}
use harness_go.Pregel.Writes.InStep.{IsInStep, apply_writes-IsInStep}
use harness_go.Pregel.Writes.Counts.{version_of-apply_writes}
use harness_go.Pregel.Run.{Engine, Ended, Ending, run}
use harness_go.Pregel.Run.Ends.{step-run}

-- a node that writes a number to the channel "n"
abbrev writes_number : ℕ → NodeFunc
writes_number n step attempt input = answers (dict (of_fields (("n", int n) ∷ []))) none

abbrev number_channel : StateGraph
number_channel = add_channel new_state_graph "n" (of_plain (Plain.last (new_last_value nil)))

abbrev two_nodes : StateGraph
two_nodes =
    add_node (add_node number_channel "a" (some (writes_number 1))) "b" (some (writes_number 2))

abbrev first_edge : StateGraph
first_edge = (add_edge (add_edge two_nodes "__start__" "a").0 "a" "b").0

-- the nodes "a" and "b" one after the other, and the same in a circle
abbrev chain : StateGraph
chain = (add_edge first_edge "b" "__end__").0

abbrev circle : StateGraph
circle = (add_edge first_edge "b" "a").0

abbrev same_letter : Char → Char
same_letter c = c

abbrev no_print : Value → String
no_print v = ""

abbrev engine_for : StateGraph → Engine
engine_for g = record {
  graph = g;
  interrupts = "*" ∷ [];
  recursion_limit = 4;
  thread_id = "t";
  checkpoint_id = "c";
  lower = same_letter;
  sprint = no_print;
  done_at = λ step. false;
  cancelled_after = λ step node attempt. false;
  abandoned = λ step node. false;
}

abbrev input : Value
input = dict (of_fields (("n", int 0) ∷ []))

abbrev result_of : Ending → Option (Result Value)
result_of none = none
result_of (some r) = some r.1

-- The chain runs both nodes and ends with what the second one wrote.
chain-output :
    result_of (run (engine_for chain) input) ≡ some (ok (dict (of_fields (("n", int 2) ∷ []))))
unfolding run add_edge add_node add_channel new_state_graph has_node insert lookup new_last_value
chain-output = refl

circle-limit : result_of (run (engine_for circle) input) ≡ some (err (recursion_limit_reached 4))
unfolding run add_edge add_node add_channel new_state_graph has_node insert lookup new_last_value
circle-limit = refl

step-run_example :
    (r : Ended) × (run (engine_for circle) input ≡ some r)
    × (r.0.step ≤ 4)
    × ((n : ℕ) → r.1 ≡ err (recursion_limit_reached n) → r.0.step ≡ 4)
step-run_example = step-run (engine_for circle) input

-- a state between two steps, and the results of two nodes that write to one channel with a reducer
abbrev fresh_state : RunState
fresh_state = record {
  registry = number_channel.channels;
  channel_versions = [];
  versions_seen = [];
  current_checkpoint = some (new_checkpoint "c" "t" 0);
}

fresh_state-IsInStep : IsInStep fresh_state
unfolding new_checkpoint
fresh_state-IsInStep = (refl, refl)

abbrev results : List TaskResult
results =
    record { name = "b"; output = dict (of_fields (("n", int 2) ∷ [])); error = none }
    ∷ record { name = "a"; output = nil; error = some (custom 0) }
    ∷ []

abbrev after_results : RunState
after_results = (apply_writes same_letter chain results [] fresh_state).0

results-written :
    apply_writes same_letter chain results [] fresh_state ≡ (after_results, ok ("n" ∷ []))
unfolding apply_writes add_edge add_node add_channel new_state_graph has_node insert lookup
    new_last_value
results-written = refl

apply_writes-IsInStep_example : IsInStep (apply_writes same_letter chain results [] fresh_state).0
apply_writes-IsInStep_example =
    apply_writes-IsInStep same_letter chain results [] fresh_state fresh_state-IsInStep

version_of-apply_writes_example : version_of after_results.channel_versions "n" ≡ (
    if elem "n" ("n" ∷ [])
    then add_int (version_of fresh_state.channel_versions "n") 1
    else version_of fresh_state.channel_versions "n")
version_of-apply_writes_example =
    version_of-apply_writes same_letter chain results [] fresh_state after_results ("n" ∷ []) "n"
      results-written

abbrev saved : Checkpoint
saved = increment_channel (new_checkpoint "c" "t" 0) "n"

saved-version : version_of saved.channel_versions "n" < 2 ^ 64
unfolding increment_channel new_checkpoint version_of insert lookup
saved-version = omega arith

-- the same results in the other order
abbrev late_results : List TaskResult
late_results =
    record { name = "a"; output = nil; error = some (custom 0) }
    ∷ record { name = "b"; output = dict (of_fields (("n", int 2) ∷ [])); error = none }
    ∷ []

results-Distinct : Distinct (result_names results)
unfolding elem
results-Distinct = (refl, (refl, tt))

apply_writes_order_example :
    apply_writes same_letter chain results [] fresh_state
    ≡ apply_writes same_letter chain late_results [] fresh_state
apply_writes_order_example =
    apply_writes_order same_letter chain results late_results [] fresh_state (Permᴰ.swap refl refl)
      results-Distinct
