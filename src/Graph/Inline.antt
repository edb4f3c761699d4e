-- ===== src/Graph/Inline.antt =====
-- graphengine/graph/graph.go: inlineRun, the loop that runs a compiled graph when no engine has been
-- set, without a checkpointer. The printing of a condition's result by %v is a parameter, and the
-- calls of a node function are numbered by the step and its place among the tasks. The names that
-- come next are a map, which is run through in the order in which they were found.
pub mod Ends
use harness_go.Base.{
  ℕ, zero, suc, String, Bool, false, not, ◌&&◌, ◌||◌, Option, none, some, List, [], ◌∷◌, ◌++◌, ◌==◌,
  Dict, lookup, insert, is_some, get_or, elem, length, leb, nat_beq, if◌then◌else◌,
}
use harness_go.Value.{
  Value, nil, missing, bool, int, float, str, list, dict, flags, overwrite, getter, type_value,
  slice, table, struct, struct_pointer, fields, of_fields,
}
use harness_go.Errors.{
  Err, node_not_found, recursion_limit_reached, graph_interrupt, plain, wrap, Result, ok, err,
}
use harness_go.Channels.Registry.{Registry, update_channels, get_values}
use harness_go.Graph.{StateGraph, Node, NodeFunc, Edge, ConditionalEdge, end_node}
use harness_go.Pregel.Retry.{Answer, answers, panics}
use harness_go.Pregel.Schedule.{add_name, get_node}
use harness_go.Pregel.Output.{merge_states}
use harness_go.Pregel.Run.{copy_channels}

-- CompiledGraph, without its checkpointer
pub record CompiledGraph : Type 0 where
  pub graph : StateGraph
  pub interrupts : List String
  pub recursion_limit : ℕ
  pub sprint : Value → String

pub record InlineTask : Type 0 where
  pub node_name : String
  pub input : Value

pub record InlineTaskResult : Type 0 where
  pub node_name : String
  pub output : Value
  pub error : Option Err

abbrev flag_fields : Dict Bool → Dict Value
flag_fields [] = []
flag_fields ((k, b) ∷ m) = (k, bool b) ∷ flag_fields m

abbrev root : Value → Result (Dict Value)
root v = ok (("__root__", v) ∷ [])

-- inlineToMap; a pointer stands for the struct behind it, and the structs behind the sentinel, a
-- type value and a getter have no exported field.
unfoldable pub inline_to_map : Value → Result (Dict Value)
inline_to_map nil = err (plain ("nil value" ∷ []))
inline_to_map (dict fs) = ok (fields fs)
inline_to_map (flags m) = ok (flag_fields m)
inline_to_map (table t fs) = ok (fields fs)
inline_to_map (struct n fs) = ok (fields fs)
inline_to_map (struct_pointer n fs) = ok (fields fs)
inline_to_map (overwrite v) = ok (("Value", v) ∷ [])
inline_to_map missing = ok []
inline_to_map (getter v) = ok []
inline_to_map (type_value t) = ok []
inline_to_map (bool b) = root (bool b)
inline_to_map (int n) = root (int n)
inline_to_map (float x) = root (float x)
inline_to_map (str s) = root (str s)
inline_to_map (list vs) = root (list vs)
inline_to_map (slice t vs) = root (slice t vs)

-- `writes[key] = append(writes[key], value)`, for the keys that are channels
unfoldable pub add_writes : Registry → Dict Value → Dict (List Value) → Dict (List Value)
unfolding lookup insert
add_writes r [] writes = writes
add_writes r ((key, v) ∷ m) writes = add_writes r m (
    if is_some (lookup key r)
    then insert key (get_or (lookup key writes) [] ++ v ∷ []) writes
    else writes)

abbrev update_if_any : Registry → Dict (List Value) → Registry × Option Err
update_if_any r [] = (r, none)
update_if_any r (w ∷ ws) = update_channels (w ∷ ws) r

-- inlineApplyInput; the keys of a map are distinct, so each gets one value.
abbrev input_writes : Registry → Result (Dict Value) → Registry × Option Err
input_writes r (err e) = (r, some e)
input_writes r (ok m) = update_if_any r (add_writes r m [])

unfoldable pub inline_apply_input : Registry → Value → Registry × Option Err
unfolding inline_to_map add_writes update_channels
inline_apply_input r input = input_writes r (inline_to_map input)

-- The scans of inlineGetNextTasks: none where the function returns with no task.
abbrev choose_target :
    String
    → String
    → Option String
    → (List String → Result (Option (List String)))
    → List String
    → Result (Option (List String))
choose_target from key none rest found =
    err (plain ("no mapping for condition result" ∷ key ∷ "from node" ∷ from ∷ []))
choose_target from key (some target) rest found =
    if target == end_node then ok none else rest (add_name target found)

abbrev choose_by :
    (Value → String)
    → ConditionalEdge
    → Result Value
    → (List String → Result (Option (List String)))
    → List String
    → Result (Option (List String))
choose_by sprint e (err x) rest found =
    err (wrap ("condition evaluation failed for node" ∷ e.from ∷ []) x)
choose_by sprint e (ok v) rest found =
    choose_target e.from (sprint v) (lookup (sprint v) e.mapping) rest found

unfoldable pub scan_conditions :
    (Value → String)
    → String
    → Value
    → List ConditionalEdge
    → List String
    → Result (Option (List String))
unfolding lookup elem
scan_conditions sprint node state [] found = ok (some found)
scan_conditions sprint node state (e ∷ es) found =
    let rest = λ (f : List String). scan_conditions sprint node state es f in
    if e.from == node then choose_by sprint e (e.condition state) rest found else rest found

unfoldable pub scan_targets : String → List Edge → List String → Option (List String)
unfolding elem
scan_targets node [] found = some found
scan_targets node (e ∷ es) found =
    let more = scan_targets node es (add_name e.to found) in
    let rest = scan_targets node es found in
    if e.from == node then (if e.to == end_node then none else more) else rest

abbrev task_at : Option Node → Value → List InlineTask → List InlineTask
task_at none state rest = rest
task_at (some n) state rest = record { node_name = n.name; input = state } ∷ rest

unfoldable pub tasks_for : StateGraph → Value → List String → List InlineTask
unfolding get_node
tasks_for g state [] = []
tasks_for g state (name ∷ names) = task_at (get_node g name) state (tasks_for g state names)

abbrev tasks_if : StateGraph → Value → Option (List String) → List InlineTask
tasks_if g state none = []
tasks_if g state (some names) = tasks_for g state names

abbrev after_conditions :
    StateGraph → String → Value → Result (Option (List String)) → Result (List InlineTask)
after_conditions g node state (err e) = err e
after_conditions g node state (ok none) = ok []
after_conditions g node state (ok (some [])) = ok (tasks_if g state (scan_targets node g.edges []))
after_conditions g node state (ok (some (n ∷ ns))) = ok (tasks_for g state (n ∷ ns))

abbrev entry_task : String → Value → Option Node → Result (List InlineTask)
entry_task name state none = err (node_not_found name)
entry_task name state (some n) = ok (record { node_name = n.name; input = state } ∷ [])

-- inlineGetNextTasks
unfoldable pub inline_get_next_tasks :
    CompiledGraph → List String → String → Value → Result (List InlineTask)
unfolding get_node scan_conditions scan_targets tasks_for
inline_get_next_tasks cg completed last state =
    let g = cg.graph in
    if nat_beq (length completed) 0 && not (g.entry_point == "")
    then entry_task g.entry_point state (get_node g g.entry_point)
    else if last == ""
    then ok []
    else after_conditions g last state (scan_conditions cg.sprint last state g.conditional_edges [])

-- inlineShouldInterrupt
abbrev any_marked : List String → List InlineTask → Bool
any_marked interrupts [] = false
any_marked interrupts (t ∷ ts) =
    elem "*" interrupts || (elem t.node_name interrupts || any_marked interrupts ts)

unfoldable pub inline_should_interrupt : List InlineTask → List String → Bool
unfolding elem
inline_should_interrupt tasks interrupts =
    not (nat_beq (length interrupts) 0) && any_marked interrupts tasks

-- what a node function answers, with its panic recovered; one that is nil panics too
abbrev recovered : String → Answer → InlineTaskResult
recovered name (answers v e) = record { node_name = name; output = v; error = e }
recovered name (panics message) = record {
  node_name = name;
  output = nil;
  error = some (plain ("node" ∷ name ∷ "panic" ∷ message ∷ []));
}

abbrev answer_of : Option NodeFunc → ℕ → ℕ → Value → Answer
answer_of none step place input =
    panics "runtime error: invalid memory address or nil pointer dereference"
answer_of (some f) step place input = f step place input

abbrev with_result :
    InlineTaskResult → Result (List InlineTaskResult) → Result (List InlineTaskResult)
with_result r (err e) = err e
with_result r (ok rs) = ok (r ∷ rs)

abbrev run_node :
    ℕ
    → ℕ
    → InlineTask
    → Option Node
    → Result (List InlineTaskResult)
    → Result (List InlineTaskResult)
run_node step place t none rest = err (node_not_found t.node_name)
run_node step place t (some n) rest =
    with_result (recovered t.node_name (answer_of n.function step place t.input)) rest

-- inlineExecuteTasks
unfoldable pub inline_execute_tasks :
    StateGraph → ℕ → ℕ → List InlineTask → Result (List InlineTaskResult)
unfolding get_node
inline_execute_tasks g step place [] = ok []
inline_execute_tasks g step place (t ∷ ts) =
    run_node step place t (get_node g t.node_name) (inline_execute_tasks g step (suc place) ts)

-- the loop of inlineApplyWrites
abbrev collect_one :
    Registry
    → InlineTaskResult
    → Option Err
    → (Dict (List Value) → Result (Dict (List Value)))
    → Dict (List Value)
    → Result (Dict (List Value))
collect_one r x (some e) rest writes = rest writes
collect_one r x none rest writes = elim (inline_to_map x.output) [
  | err e ↦ err (wrap ("failed to convert output to map" ∷ []) e)
  | ok m ↦ rest (add_writes r m writes)
]

unfoldable pub collect_writes :
    Registry → List InlineTaskResult → Dict (List Value) → Result (Dict (List Value))
unfolding inline_to_map add_writes
collect_writes r [] writes = ok writes
collect_writes r (x ∷ xs) writes = collect_one r x x.error (λ w. collect_writes r xs w) writes

abbrev write_all : Registry → Result (Dict (List Value)) → Registry × Option Err
write_all r (err e) = (r, some e)
write_all r (ok writes) = update_if_any r writes

-- inlineApplyWrites
unfoldable pub inline_apply_writes : Registry → List InlineTaskResult → Registry × Option Err
unfolding collect_writes update_channels
inline_apply_writes r results = write_all r (collect_writes r results [])

-- inlineBuildOutput
abbrev output_of : Result (Dict Value) → Value → Value
output_of (err e) last_state = last_state
output_of (ok []) last_state = last_state
output_of (ok (v ∷ vs)) last_state = dict (of_fields (v ∷ vs))

unfoldable pub inline_build_output : Registry → Value → Value
unfolding get_values
inline_build_output r last_state = output_of (get_values r).1 last_state

-- the variables of the loop of inlineRun
pub record InlineLoop : Type 0 where
  pub step : ℕ
  pub registry : Registry
  pub completed : List String
  pub last : String
  pub last_state : Value

abbrev complete_one : InlineTaskResult → Option Err → InlineLoop → InlineLoop
complete_one x (some e) l = l
complete_one x none l = record l {
  completed = add_name x.node_name l.completed;
  last = x.node_name;
  last_state = merge_states l.last_state x.output;
}

unfoldable pub inline_complete : List InlineTaskResult → InlineLoop → InlineLoop
unfolding merge_states elem
inline_complete [] l = l
inline_complete (x ∷ xs) l = inline_complete xs (complete_one x x.error l)

abbrev pub InlineEnded : Type 0
InlineEnded = InlineLoop × Result Value

-- a run that has come to its end, or none if the fuel is used up before that
abbrev pub InlineEnding : Type 0
InlineEnding = Option InlineEnded

abbrev pub after_inline_writes :
    Registry × Option Err → (InlineLoop → InlineEnding) → InlineLoop → InlineEnding
after_inline_writes (r, some e) rest l =
    some (record l { registry = r }, err (wrap ("failed to apply writes" ∷ []) e))
after_inline_writes (r, none) rest l = rest (record l { registry = r; step = suc l.step })

abbrev pub after_inline_execute :
    Result (List InlineTaskResult) → (InlineLoop → InlineEnding) → InlineLoop → InlineEnding
after_inline_execute (err e) rest l = some (l, err (wrap ("failed to execute tasks" ∷ []) e))
after_inline_execute (ok results) rest l =
    after_inline_writes (inline_apply_writes l.registry results) rest (inline_complete results l)

-- the step, once its tasks are known
abbrev pub after_inline_tasks :
    CompiledGraph
    → Result (List InlineTask)
    → (InlineLoop → InlineEnding)
    → InlineLoop
    → InlineEnding
after_inline_tasks cg (err e) rest l = some (l, err (wrap ("failed to get next tasks" ∷ []) e))
after_inline_tasks cg (ok []) rest l = some (l, ok (inline_build_output l.registry l.last_state))
after_inline_tasks cg (ok (t ∷ ts)) rest l =
    if inline_should_interrupt (t ∷ ts) cg.interrupts
    then some (l, err graph_interrupt)
    else after_inline_execute (inline_execute_tasks cg.graph l.step 0 (t ∷ ts)) rest l

-- The loop; the number is fuel, one for each time that its head is reached.
unfoldable pub inline_loop : CompiledGraph → ℕ → InlineLoop → InlineEnding
unfolding inline_get_next_tasks inline_should_interrupt inline_execute_tasks inline_apply_writes
    inline_complete inline_build_output
inline_loop cg zero l = none
inline_loop cg (suc fuel) l =
    let rest = λ (l' : InlineLoop). inline_loop cg fuel l' in
    if leb cg.recursion_limit l.step
    then some (l, err (recursion_limit_reached cg.recursion_limit))
    else after_inline_tasks cg (inline_get_next_tasks cg l.completed l.last l.last_state) rest l

abbrev pub inline_start : Registry → Value → InlineLoop
inline_start r input = record {
  step = 0;
  registry = r;
  completed = [];
  last = "";
  last_state = input;
}

abbrev pub inline_after_input : CompiledGraph → Value → Registry × Option Err → InlineEnding
inline_after_input cg input (r, some e) =
    some (inline_start r input, err (wrap ("failed to apply input" ∷ []) e))
inline_after_input cg input (r, none) =
    inline_loop cg (suc cg.recursion_limit) (inline_start r input)

-- inlineRun
unfoldable pub inline_run : CompiledGraph → Value → InlineEnding
unfolding copy_channels inline_apply_input inline_loop
inline_run cg input =
    inline_after_input cg input (inline_apply_input (copy_channels cg.graph.channels []) input)
