-- ===== src/Pregel/Schedule/Interrupts.antt =====
-- Interrupts of the tasks that the engine prepares (graphengine/pregel/engine.go).
use harness_go.Base.{
  String, ◌≡◌, refl, subst, Bool, true, false, Option, none, some, List, [], ◌∷◌, arith, All, Dict,
  Bool-cases, inl, inr, nat_beq, length, ◌==◌,
}
use harness_go.Value.{Value}
use harness_go.Errors.{Result, ok, Ensures}
use harness_go.Graph.{
  StateGraph, Node, NodeTriggerMode, any_predecessor, all_predecessor, end_node, Edge,
}
use harness_go.Pregel.Schedule.{
  Task, Prepared, get_node, create_task, create_task_info, prepare_one, prepare_ready,
  prepare_entry, prepare_by_mode, prepare_nodes, prepare_next_tasks_dag, prepare_next_tasks,
  should_interrupt, triggered,
}

abbrev HasNoTrigger : Task → Type 0
HasNoTrigger t = t.triggers ≡ []

prepare_one-none :
    (b : Bool) (o : Option Node) (rest : Prepared)
    → All HasNoTrigger rest.0
    → All HasNoTrigger (prepare_one b o rest).0
unfolding create_task create_task_info
prepare_one-none b none rest h = h
prepare_one-none true (some n) (tasks, triggers) h = (refl, h)
prepare_one-none false (some n) (tasks, triggers) h = (refl, h)

prepare_ready-none :
    (b : Bool) (edges : List Edge) (completed : List String) (name : String) (o : Option Node)
    (rest : Prepared)
    → All HasNoTrigger rest.0
    → All HasNoTrigger (prepare_ready b edges completed name o rest).0
unfolding create_task create_task_info
prepare_ready-none b edges completed name none rest h = h
prepare_ready-none true edges completed name (some n) (tasks, triggers) h = ground arith
prepare_ready-none false edges completed name (some n) (tasks, triggers) h = ground arith

prepare_nodes-none :
    (b : Bool) (g : StateGraph) (names : List String) → All HasNoTrigger (prepare_nodes b g names).0
unfolding prepare_nodes
prepare_nodes-none b g [] = tt
prepare_nodes-none b g (n ∷ names) =
    prepare_one-none b (get_node g n) (prepare_nodes b g names) (prepare_nodes-none b g names)

dag-none :
    (b : Bool) (g : StateGraph) (completed : List String) (nodes : Dict Node)
    → All HasNoTrigger (prepare_next_tasks_dag b g completed nodes).0
unfolding prepare_next_tasks_dag
dag-none b g completed [] = tt
dag-none b g completed ((key, n) ∷ nodes) =
    prepare_ready-none b g.edges completed n.name (get_node g n.name)
      (prepare_next_tasks_dag b g completed nodes) (dag-none b g completed nodes)

by_mode-none :
    (mode : NodeTriggerMode) (sprint : Value → String) (b : Bool) (g : StateGraph)
    (completed : List String) (last : String) (state : Value)
    → All HasNoTrigger (prepare_by_mode mode sprint b g completed last state).0
by_mode-none any_predecessor sprint b g completed last state = prepare_nodes-none b g _
by_mode-none all_predecessor sprint b g completed last state = dag-none b g completed g.nodes

abbrev Untriggered : Result Prepared → Type 0
Untriggered = Ensures (λ p. All HasNoTrigger p.0)

entry-none : (o : Option Node) (entry : String) → Untriggered (prepare_entry o entry)
unfolding create_task
entry-none none entry = tt
entry-none (some n) entry = (refl, tt)

prepared-none :
    (sprint : Value → String) (b : Bool) (g : StateGraph) (completed : List String) (last : String)
    (state : Value)
    → Untriggered (prepare_next_tasks sprint b g completed last state)
unfolding prepare_next_tasks
prepared-none sprint b g completed last state = elim (Bool-cases (nat_beq (length completed) 0)) [
  | inr later ↦ rw later (by_mode-none g.node_trigger_mode sprint b g completed last state)
  | inl first ↦ elim (Bool-cases (g.entry_point == "")) [
    | inl unset ↦ rw (first, unset) tt
    | inr set ↦ elim (Bool-cases (g.entry_point == end_node)) [
      | inl trivial ↦ rw (first, set, trivial) tt
      | inr real ↦ rw (first, set, real) (entry-none (get_node g g.entry_point) g.entry_point)
    ]
  ]
]

should_interrupt-none :
    (interrupts : List String) (ts : List Task) (triggers : List String)
    → All HasNoTrigger ts
    → should_interrupt interrupts ts triggers ≡ []
unfolding should_interrupt triggered
should_interrupt-none interrupts [] triggers h = refl
should_interrupt-none interrupts (t ∷ ts) triggers h =
    rw h.0 (ground (arith, should_interrupt-none interrupts ts triggers h.1))

-- Whatever nodes are marked for interruption, "*" included, no task that the engine prepares is
-- ever interrupted: its own set of triggers, which the check asks about, is empty.
pub never_interrupted :
    (sprint : Value → String) (b : Bool) (g : StateGraph) (completed : List String) (last : String)
    (state : Value) (p : Prepared) (interrupts triggers : List String)
    → prepare_next_tasks sprint b g completed last state ≡ ok p
    → should_interrupt interrupts p.0 triggers ≡ []
never_interrupted sprint b g completed last state p interrupts triggers h =
    should_interrupt-none interrupts p.0 triggers
      (subst Untriggered h (prepared-none sprint b g completed last state))
