-- ===== src/Pregel/Tests.antt =====
-- Concrete runs of the engine's parts (graphengine/pregel).
use harness_go.Base.{
  ℕ, zero, suc, ◌+◌, ◌≤◌, ◌<◌, String, ◌≡◌, refl, ◌↔◌, Bool, true, false, none, some, [], ◌∷◌,
  arith, Dict, lookup, insert, elem, is_some, Option, nat_beq, if◌then◌else◌,
}
use harness_go.Value.{Value, nil, int, str, dict, of_fields}
use harness_go.Errors.{Err, plain, retry_exhausted, Result, ok, err}
use harness_go.Graph.{
  StateGraph, NodeFunc, new_state_graph, add_node, add_edge, add_conditional_edges, end_node,
  has_node, missing_target, all_predecessor, any_predecessor,
}
use harness_go.Pregel.Retry.{RetryPolicy, Answer, answers, execute}
use harness_go.Pregel.Retry.Attempts.{IsRetried, calls-le, execute-succeeds, execute-exhausted}
use harness_go.Pregel.Schedule.{Prepared, prepare_next_tasks}
use harness_go.Pregel.Schedule.Next.{chosen}
use harness_go.Pregel.Schedule.Next.Targets.{next_targets}
use harness_go.Pregel.Schedule.Ready.{
  IsNamed, task_names, AllPredecessorsDone, scheduled_iff, new-IsNamed, add_node-IsNamed,
}
use harness_go.Pregel.Schedule.Followers.{followers_iff}
use harness_go.Pregel.Output.{split_dots}
use harness_go.Pregel.Output.Nested.{IsOpen}

-- a node that fails at its first two attempts
abbrev failure : Err
failure = plain ("no answer" ∷ [])

abbrev third_time : ℕ → Answer
third_time n = if nat_beq n 3 then answers (int 7) none else answers nil (some failure)

abbrev always_fails : ℕ → Answer
always_fails n = answers nil (some failure)

abbrev never : ℕ → Bool
never n = false

abbrev three_times : RetryPolicy
three_times = record { max_attempts = 3; retry_on = none }

third_time-IsRetried : (i : ℕ) → i < 2 → IsRetried "n" three_times third_time never (1 + i)
third_time-IsRetried zero h = record {
  failed = record { output = nil; error = failure; fails = refl; retryable = refl };
  waited = refl;
}
third_time-IsRetried (suc zero) h = record {
  failed = record { output = nil; error = failure; fails = refl; retryable = refl };
  waited = refl;
}
third_time-IsRetried (suc (suc i)) h = absurd (omega arith)

always_fails-IsRetried : (i : ℕ) → i < 2 → IsRetried "n" three_times always_fails never (1 + i)
always_fails-IsRetried i h = record {
  failed = record { output = nil; error = failure; fails = refl; retryable = refl };
  waited = refl;
}

execute-succeeds_example : execute "n" three_times third_time never ≡ (3, ok (int 7))
execute-succeeds_example =
    execute-succeeds "n" three_times third_time never 2 (int 7) (omega arith) third_time-IsRetried
      refl

execute-exhausted_example :
    execute "n" three_times always_fails never ≡ (3, err (retry_exhausted "n" 3 failure nil))
execute-exhausted_example =
    execute-exhausted "n" three_times always_fails never 2 nil failure refl always_fails-IsRetried
      refl refl

calls-le_example : (execute "n" three_times always_fails never).0 ≤ three_times.max_attempts
calls-le_example = calls-le "n" three_times always_fails never

-- a graph in which "c" waits for "a" and "b"
abbrev no_function : Option NodeFunc
no_function = none

abbrev three_nodes : StateGraph
three_nodes =
    add_node (add_node (add_node new_state_graph "a" no_function) "b" no_function) "c" no_function

abbrev joined_graph : StateGraph
joined_graph = (add_edge (add_edge (add_edge three_nodes "a" "c").0 "b" "c").0 "__start__" "a").0

three_nodes-IsNamed : IsNamed three_nodes
three_nodes-IsNamed =
    add_node-IsNamed (add_node (add_node new_state_graph "a" no_function) "b" no_function) "c"
      no_function
      (add_node-IsNamed (add_node new_state_graph "a" no_function) "b" no_function
        (add_node-IsNamed new_state_graph "a" no_function new-IsNamed))

joined_graph-nodes : joined_graph.nodes ≡ three_nodes.nodes
unfolding add_edge add_node new_state_graph insert
joined_graph-nodes = refl

joined_graph-IsNamed : IsNamed joined_graph
joined_graph-IsNamed = record {
  own = λ k n h. three_nodes-IsNamed.own k n (rw joined_graph-nodes at h);
  distinct = rw joined_graph-nodes three_nodes-IsNamed.distinct;
}

abbrev no_print : Value → String
no_print v = "end"

-- two conditional edges of "a": one to "b", the other to the end
abbrev to_node : Dict String
to_node = ("end", "b") ∷ []

abbrev to_end : Dict String
to_end = ("end", end_node) ∷ []

abbrev always : Value → Result Value
always v = ok v

abbrev routed : StateGraph
routed =
    (add_conditional_edges (add_conditional_edges joined_graph "a" always to_node).0 "a" always
      to_end).0

routed-branches : routed.branches ≡ []
unfolding add_conditional_edges add_edge add_node new_state_graph insert lookup
routed-branches = refl

routed-end : elem end_node (chosen no_print routed "a" nil) ≡ true
unfolding add_conditional_edges add_edge add_node new_state_graph insert lookup elem missing_target
    has_node
routed-end = refl

abbrev waiting_graph : StateGraph
waiting_graph = record joined_graph { node_trigger_mode = all_predecessor }

waiting_graph-nodes : waiting_graph.nodes ≡ three_nodes.nodes
unfolding add_edge add_node new_state_graph insert
waiting_graph-nodes = refl

waiting_graph-IsNamed : IsNamed waiting_graph
waiting_graph-IsNamed = record {
  own = λ k n h. three_nodes-IsNamed.own k n (rw waiting_graph-nodes at h);
  distinct = rw waiting_graph-nodes three_nodes-IsNamed.distinct;
}

scheduled_iff_example :
    (p : Prepared) × (prepare_next_tasks no_print true waiting_graph ("a" ∷ []) "a" nil ≡ ok p)
    × ((k : String)
        → (elem k (task_names p.0) ≡ true) ↔ (
            (is_some (lookup k waiting_graph.nodes) ≡ true)
            × (elem k ("a" ∷ []) ≡ false)
            × AllPredecessorsDone waiting_graph.edges ("a" ∷ []) k))
scheduled_iff_example =
    scheduled_iff no_print true waiting_graph ("a" ∷ []) "a" nil waiting_graph-IsNamed refl refl

-- a state with a map and a value that is no map
abbrev profile : Dict Value
profile = ("user", dict (of_fields (("name", str "x") ∷ []))) ∷ ("id", int 4) ∷ []

profile-IsOpen : IsOpen (split_dots "user.name") profile
unfolding split_dots lookup
profile-IsOpen = tt

profile-blocked : ¬ IsOpen (split_dots "id.name") profile
unfolding split_dots lookup
profile-blocked h = absurd h

joined_graph-any : joined_graph.node_trigger_mode ≡ any_predecessor
unfolding add_edge add_node new_state_graph insert
joined_graph-any = refl

-- after "a", the conditional edge to "b" and not the regular one to "c"
routed-targets : next_targets no_print routed "a" nil ≡ "b" ∷ []
unfolding add_conditional_edges add_edge add_node new_state_graph insert lookup elem missing_target
    has_node
routed-targets = refl

followers_iff_example :
    (p : Prepared) × (prepare_next_tasks no_print true joined_graph ("a" ∷ []) "a" nil ≡ ok p)
    × ((k : String)
        → (elem k (task_names p.0) ≡ true) ↔ (
            (elem k (next_targets no_print joined_graph "a" nil) ≡ true)
            × (is_some (lookup k joined_graph.nodes) ≡ true)))
followers_iff_example =
    followers_iff no_print true joined_graph ("a" ∷ []) "a" nil joined_graph-IsNamed
      joined_graph-any refl
