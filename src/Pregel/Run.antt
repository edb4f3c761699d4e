-- ===== src/Pregel/Run.antt =====
-- graphengine/pregel/engine.go: Run without a checkpointer, and what it calls: applyInput,
-- readTaskInput, executeTasksAsync, buildOutput. The tasks of a step write their results to slots in
-- the order of the tasks, and are told one after the other; the events of the stream are left out.
pub mod Ends
use Prim.Native.Char.{Char}
use harness_go.Base.{
  ℕ, zero, suc, String, Bool, true, false, Option, none, some, List, [], ◌∷◌, Dict, lookup, insert,
  ◌&&◌, elem, nat_beq, leb, ltb, length, if◌then◌else◌,
}
use harness_go.Value.{Value, nil, dict, of_fields}
use harness_go.Errors.{
  Err, plain, wrap, cancelled, recursion_limit_reached, graph_interrupt, is_empty_channel_error,
  Result, ok, err,
}
use harness_go.Graph.{StateGraph, NodeFunc}
use harness_go.Checkpoint.{new_checkpoint}
use harness_go.Channels.Channel
use harness_go.Channels.Channel.{Channel}
use harness_go.Channels.Registry.{Registry, register, update_channels, get_values}
use harness_go.Pregel.Retry.{Answer, panics, execute, policy_or_default}
use harness_go.Pregel.Schedule.{Task, Prepared, prepare_next_tasks, should_interrupt, add_name}
use harness_go.Pregel.Output.{to_map, merge_states}
use harness_go.Pregel.Writes.{TaskResult, RunState, Written, apply_writes}

-- The engine, the functions of the standard library that it uses, and what the context does: whether
-- it is done at the start of a step, during a wait between attempts, or while a result is awaited.
pub record Engine : Type 0 where
  pub graph : StateGraph
  pub interrupts : List String
  pub recursion_limit : ℕ
  pub thread_id : String
  pub checkpoint_id : String
  pub lower : Char → Char
  pub sprint : Value → String
  pub done_at : ℕ → Bool
  pub cancelled_after : ℕ → String → ℕ → Bool
  pub abandoned : ℕ → String → Bool

-- readTaskInput: a read may clear an ephemeral channel, so it gives the registry back.
abbrev read_one :
    String
    → Channel × Result Value
    → (Dict Value → Registry → Registry × Result Value)
    → Dict Value
    → Registry
    → Registry × Result Value
read_one name (c, ok v) rest values r = rest (insert name v values) (insert name c r)
read_one name (c, err e) rest values r =
    if is_empty_channel_error e then rest values (insert name c r) else (insert name c r, err e)

abbrev read_found :
    Option Channel
    → String
    → (Dict Value → Registry → Registry × Result Value)
    → Dict Value
    → Registry
    → Registry × Result Value
read_found none name rest values r = rest values r
read_found (some c) name rest values r = read_one name (Channel.get c) rest values r

unfoldable pub read_channels : List String → Dict Value → Registry → Registry × Result Value
unfolding lookup insert Channel.get
read_channels [] values r = (r, ok (dict (of_fields values)))
read_channels (name ∷ names) values r =
    read_found (lookup name r) name (λ vs r'. read_channels names vs r') values r

unfoldable pub read_task_input : Registry → List String → Registry × Result Value
unfolding read_channels
read_task_input r [] = (r, ok nil)
read_task_input r (name ∷ names) = read_channels (name ∷ names) [] r

-- the call of a task's function; one that is nil panics
abbrev call : Option NodeFunc → ℕ → Value → ℕ → Answer
call none step input attempt =
    panics "runtime error: invalid memory address or nil pointer dereference"
call (some f) step input attempt = f step attempt input

abbrev pub task_result : String → Result Value → TaskResult
task_result name (ok v) = record { name = name; output = v; error = none }
task_result name (err e) = record { name = name; output = nil; error = some e }

-- one task of executeTasksAsync, at the input that was read
abbrev pub run_task : Engine → ℕ → Task → Result Value → TaskResult
run_task e step t (err r) = task_result t.name (err (wrap ("failed to read task input" ∷ []) r))
run_task e step t (ok input) =
    if e.abandoned step t.name
    then task_result t.name (err cancelled)
    else task_result t.name
        (execute t.name (policy_or_default t.retry_policy) (λ n. call t.func step input n)
          (λ n. e.cancelled_after step t.name n)).1

-- executeTasksAsync
unfoldable pub execute_tasks : Engine → ℕ → List Task → Registry → Registry × List TaskResult
unfolding read_task_input execute policy_or_default
execute_tasks e step [] r = (r, [])
execute_tasks e step (t ∷ ts) r =
    let (r', input) = read_task_input r t.channels in
    let (r'', results) = execute_tasks e step ts r' in (r'', run_task e step t input ∷ results)

-- the variables of the loop of Run
pub record Loop : Type 0 where
  pub step : ℕ
  pub completed : List String
  pub last : String
  pub last_state : Value
  pub run : RunState

-- the loop that marks the tasks that have completed
abbrev pub complete_one : TaskResult → Option Err → Loop → Loop
complete_one r (some e) l = l
complete_one r none l = record l {
  completed = add_name r.name l.completed;
  last = r.name;
  last_state = merge_states l.last_state r.output;
}

unfoldable pub complete : List TaskResult → Loop → Loop
unfolding merge_states elem
complete [] l = l
complete (r ∷ rs) l = complete rs (complete_one r r.error l)

abbrev failed_one : Option Err → Bool → Bool
failed_one none rest = false
failed_one (some e) rest = rest

unfoldable pub every_failed : List TaskResult → Bool
every_failed [] = true
every_failed (r ∷ rs) = failed_one r.error (every_failed rs)

unfoldable pub all_failed : List TaskResult → Bool
unfolding every_failed
all_failed rs = ltb 0 (length rs) && every_failed rs

abbrev pub Ended : Type 0
Ended = Loop × Result Value

-- buildOutput
abbrev build_output : Result (Dict Value) → Value → Value
build_output (err e) last_state = last_state
build_output (ok values) last_state =
    if nat_beq (length values) 0 then last_state else dict (of_fields values)

-- a run that has come to its end, or none if the fuel is used up before that
abbrev pub Ending : Type 0
Ending = Option Ended

-- the end of a step: the values are read for the stream, and the loop goes on
abbrev pub after_writes : Written → (Loop → Ending) → Loop → Ending
after_writes (s, err x) rest l =
    some (record l { run = s }, err (wrap ("failed to apply writes" ∷ []) x))
after_writes (s, ok updated) rest l =
    rest (record l { step = suc l.step; run = record s { registry = (get_values s.registry).0 } })

-- the step, once its tasks have run
abbrev pub after_tasks :
    Engine → List String → Registry × List TaskResult → (Loop → Ending) → Loop → Ending
after_tasks e triggers (r, results) rest l =
    if all_failed results
    then some
        (record l { run = record (l.run) { registry = r } }, err (plain ("all tasks failed" ∷ [])))
    else after_writes
        (apply_writes e.lower e.graph results triggers (record (l.run) { registry = r })) rest
        (complete results l)

abbrev pub interrupted_or : List Task → Ending → Loop → Ending
interrupted_or [] go l = go
interrupted_or (t ∷ ts) go l = some (l, err graph_interrupt)

-- the step, once its tasks are known
abbrev pub after_prepared : Engine → Result Prepared → (Loop → Ending) → Loop → Ending
after_prepared e (err x) rest l = some (l, err (wrap ("failed to prepare next tasks" ∷ []) x))
after_prepared e (ok ([], triggers)) rest l =
    some (l, ok (build_output (get_values l.run.registry).1 l.last_state))
after_prepared e (ok (t ∷ ts, triggers)) rest l =
    interrupted_or (should_interrupt e.interrupts (t ∷ ts) triggers)
      (after_tasks e triggers (execute_tasks e l.step (t ∷ ts) l.run.registry) rest l) l

-- The loop of Run; the number is fuel, one for each time that the head of the loop is reached.
unfoldable pub run_loop : Engine → ℕ → Loop → Ending
unfolding prepare_next_tasks should_interrupt execute_tasks all_failed complete apply_writes
    get_values
run_loop e zero l = none
run_loop e (suc fuel) l =
    let rest = λ (l' : Loop). run_loop e fuel l' in
    if e.done_at l.step
    then some (l, err cancelled)
    else if leb e.recursion_limit l.step
    then some (l, err (recursion_limit_reached e.recursion_limit))
    else after_prepared e (prepare_next_tasks e.sprint true e.graph l.completed l.last l.last_state)
        rest l

-- the copies of the graph's channels
unfoldable pub copy_channels : Dict Channel → Registry → Registry
unfolding register Channel.copy
copy_channels [] r = r
copy_channels ((name, c) ∷ m) r = copy_channels m (register r name (Channel.copy c))

abbrev single_writes : Dict Value → Dict (List Value)
single_writes [] = []
single_writes ((k, v) ∷ m) = (k, v ∷ []) ∷ single_writes m

-- applyInput
abbrev write_input : Result (Dict Value) → Registry → Registry × Option Err
write_input (err e) r = (r, some e)
write_input (ok m) r = update_channels (single_writes m) r

unfoldable pub apply_input : (Char → Char) → Registry → Value → Registry × Option Err
unfolding to_map update_channels
apply_input lower r input = write_input (to_map lower input) r

abbrev pub initial : Engine → Registry → Value → Loop
initial e r input = record {
  step = 0;
  completed = [];
  last = "";
  last_state = input;
  run = record {
    registry = r;
    channel_versions = [];
    versions_seen = [];
    current_checkpoint = some (new_checkpoint e.checkpoint_id e.thread_id 0);
  };
}

abbrev pub start : Engine → Value → Registry × Option Err → Ending
start e input (r, some x) = some (initial e r input, err (wrap ("failed to apply input" ∷ []) x))
start e input (r, none) = run_loop e (suc e.recursion_limit) (initial e r input)

unfoldable pub run : Engine → Value → Ending
unfolding copy_channels apply_input run_loop new_checkpoint
run e input = start e input (apply_input e.lower (copy_channels e.graph.channels []) input)
