-- ===== src/Pregel/Schedule.antt =====
-- graphengine/pregel/engine.go: which tasks run next. A `map[string]struct{}` and a
-- `map[string]bool` whose keys are what counts are lists of names. The printing of a condition's
-- result by %v is the standard library's: a parameter.
pub mod Interrupts
pub mod Next
pub mod Ready
pub mod Followers
use harness_go.Base.{
  String, Bool, true, false, not, ◌&&◌, ◌||◌, Option, none, some, List, [], ◌∷◌, ◌++◌, ◌==◌, Dict,
  lookup, elem, length, nat_beq, if◌then◌else◌,
}
use harness_go.Value.{Value}
use harness_go.Errors.{node_not_found, plain, Result, ok, err}
use harness_go.Graph.{
  StateGraph, Node, NodeFunc, Edge, ConditionalEdge, Branch, NodeTriggerMode, any_predecessor,
  all_predecessor, start_node, end_node,
}
use harness_go.Pregel.Retry.{RetryPolicy}

pub record Task : Type 0 where
  pub name : String
  pub func : Option NodeFunc
  pub channels : List String
  pub triggers : List String
  pub retry_policy : Option RetryPolicy

-- what a call that prepares tasks returns: the tasks and the triggers
abbrev pub Prepared : Type 0
Prepared = List Task × List String

-- `set[name] = struct{}{}`
abbrev pub add_name : String → List String → List String
add_name name set = if elem name set then set else set ++ name ∷ []

abbrev pub add_names : List String → List String → List String
add_names [] set = set
add_names (name ∷ names) set = add_names names (add_name name set)

unfoldable pub get_node : StateGraph → String → Option Node
unfolding lookup
get_node g name = lookup name g.nodes

unfoldable pub get_triggers : Node → List String
get_triggers n = n.triggers

-- The retry policy of the node is not copied into the task.
unfoldable pub create_task : Node → List String → List String → Task
unfolding elem
create_task n channels triggers = record {
  name = n.name;
  func = n.function;
  channels = channels;
  triggers = add_names triggers [];
  retry_policy = none;
}

unfoldable pub create_task_info : Node → List String → List String → Task
unfolding elem
create_task_info n channels triggers = record {
  name = n.name;
  func = none;
  channels = channels;
  triggers = add_names triggers [];
  retry_policy = none;
}

abbrev pub task_for : Bool → Node → List String → List String → Task
task_for true n channels triggers = create_task n channels triggers
task_for false n channels triggers = create_task_info n channels triggers

-- A scan over edges goes on, or returns from the whole function.
pub data Scan : Type 0 where
  going returned : List String → Scan

-- one conditional edge, at the target that its mapping gives
abbrev choose : Option String → List String → (List String → Scan) → Scan
choose none found rest = rest found
choose (some target) found rest =
    if target == end_node then returned found else rest (add_name target found)

abbrev choose_result :
    (Value → String) → Dict String → Result Value → List String → (List String → Scan) → Scan
choose_result sprint mapping (ok v) found rest = choose (lookup (sprint v) mapping) found rest
choose_result sprint mapping (err e) found rest = rest found

unfoldable pub scan_conditional :
    (Value → String) → String → Value → List ConditionalEdge → List String → Scan
unfolding lookup elem
scan_conditional sprint node state [] found = going found
scan_conditional sprint node state (e ∷ es) found =
    let rest = λ (f : List String). scan_conditional sprint node state es f in
    if e.from == node
    then choose_result sprint e.mapping (e.condition state) found rest
    else rest found

unfoldable pub scan_edges : String → List Edge → List String → Scan
unfolding elem
scan_edges node [] found = going found
scan_edges node (e ∷ es) found =
    let rest = λ (f : List String). scan_edges node es f in
    if e.from == node
    then (if e.to == end_node then returned found else rest (add_name e.to found))
    else rest found

abbrev add_targets : List String → List String → List String
add_targets [] found = found
add_targets (t ∷ ts) found = add_targets ts (if t == end_node then found else add_name t found)

abbrev branch_targets : Branch → Result Value → List String → List String
branch_targets b (ok v) found = add_targets (b.then_targets v) found
branch_targets b (err e) found = found

unfoldable pub scan_branches : String → Value → List Branch → List String → List String
unfolding elem
scan_branches node state [] found = found
scan_branches node state (b ∷ bs) found =
    scan_branches node state bs
      (if b.from == node then branch_targets b (b.condition state) found else found)

-- the part of getNextNodes after the regular edges
abbrev after_edges : String → Value → List Branch → Scan → List String
after_edges node state branches (returned found) = found
after_edges node state branches (going found) = scan_branches node state branches found

-- the part of getNextNodes after the conditional edges
abbrev after_conditional : String → Value → StateGraph → Scan → List String
after_conditional node state g (returned found) = found
after_conditional node state g (going found) =
    after_edges node state g.branches
      (if nat_beq (length found) 0 then scan_edges node g.edges found else going found)

-- getNextNodes: the names, in the order in which they were found
unfoldable pub get_next_nodes : (Value → String) → StateGraph → String → Value → List String
unfolding scan_conditional scan_edges scan_branches
get_next_nodes sprint g node state =
    after_conditional node state g (scan_conditional sprint node state g.conditional_edges [])

-- The loop over the next nodes; a name that is no node is passed over.
abbrev prepare_one : Bool → Option Node → Prepared → Prepared
prepare_one for_execution none rest = rest
prepare_one for_execution (some n) (tasks, triggers) =
    (task_for for_execution n (get_triggers n) [] ∷ tasks, get_triggers n ++ triggers)

unfoldable pub prepare_nodes : Bool → StateGraph → List String → Prepared
unfolding get_node get_triggers create_task create_task_info
prepare_nodes for_execution g [] = ([], [])
prepare_nodes for_execution g (name ∷ names) =
    prepare_one for_execution (get_node g name) (prepare_nodes for_execution g names)

-- buildIncomingEdges, at one node: the nodes that have an edge to it
unfoldable pub incoming_edges : List Edge → String → List String
incoming_edges [] node = []
incoming_edges (e ∷ es) node =
    let rest = incoming_edges es node in if e.to == node then e.from ∷ rest else rest

-- the loop over a node's predecessors
unfoldable pub all_done : List String → List String → Bool
unfolding elem
all_done completed [] = true
all_done completed (pred ∷ preds) =
    let rest = all_done completed preds in
    if pred == start_node || pred == end_node then rest else elem pred completed && rest

-- the body of the loop of prepareNextTasksDAG, at the node that GetNode gives
abbrev prepare_ready : Bool → List Edge → List String → String → Option Node → Prepared → Prepared
prepare_ready for_execution edges completed name none rest = rest
prepare_ready for_execution edges completed name (some n) (tasks, triggers) =
    if not (elem name completed) && all_done completed (incoming_edges edges name)
    then (task_for for_execution n (get_triggers n) [] ∷ tasks, get_triggers n ++ triggers)
    else (tasks, triggers)

unfoldable pub prepare_next_tasks_dag : Bool → StateGraph → List String → Dict Node → Prepared
unfolding get_node get_triggers create_task create_task_info all_done incoming_edges elem
prepare_next_tasks_dag for_execution g completed [] = ([], [])
prepare_next_tasks_dag for_execution g completed ((key, node) ∷ nodes) =
    prepare_ready for_execution g.edges completed node.name (get_node g node.name)
      (prepare_next_tasks_dag for_execution g completed nodes)

-- the first step
abbrev prepare_entry : Option Node → String → Result Prepared
prepare_entry none entry = err (node_not_found entry)
prepare_entry (some n) entry = ok (create_task n (get_triggers n) [] ∷ [], "__start__" ∷ [])

abbrev prepare_by_mode :
    NodeTriggerMode → (Value → String) → Bool → StateGraph → List String → String → Value → Prepared
prepare_by_mode all_predecessor sprint for_execution g completed last state =
    prepare_next_tasks_dag for_execution g completed g.nodes
prepare_by_mode any_predecessor sprint for_execution g completed last state =
    prepare_nodes for_execution g (get_next_nodes sprint g last state)

-- prepareNextTasksWithMode: `completed` holds the names of the nodes that have completed, `last`
-- the one that completed last.
unfoldable pub prepare_next_tasks :
    (Value → String) → Bool → StateGraph → List String → String → Value → Result Prepared
unfolding get_node get_triggers create_task create_task_info prepare_next_tasks_dag prepare_nodes
    get_next_nodes
prepare_next_tasks sprint for_execution g completed last state =
    if nat_beq (length completed) 0
    then (if g.entry_point == ""
        then err (plain ("no entry point set" ∷ []))
        else if g.entry_point == end_node
        then ok ([], [])
        else prepare_entry (get_node g g.entry_point) g.entry_point)
    else ok (prepare_by_mode g.node_trigger_mode sprint for_execution g completed last state)

-- whether a task was triggered: one of its triggers is among the given ones
unfoldable pub triggered : List String → List String → Bool
unfolding elem
triggered [] triggers = false
triggered (t ∷ ts) triggers = elem t triggers || triggered ts triggers

abbrev all_mark : String
all_mark = "*"

-- shouldInterrupt: the tasks that are interrupted
unfoldable pub should_interrupt : List String → List Task → List String → List Task
unfolding triggered elem
should_interrupt interrupts [] triggers = []
should_interrupt interrupts (t ∷ ts) triggers =
    let rest = should_interrupt interrupts ts triggers in
    if (elem all_mark interrupts || elem t.name interrupts) && triggered t.triggers triggers
    then t ∷ rest
    else rest
