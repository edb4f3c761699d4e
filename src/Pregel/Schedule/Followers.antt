-- ===== src/Pregel/Schedule/Followers.antt =====
-- The nodes that follow the one that completed last, in the mode in which a node waits for any
-- predecessor (graphengine/pregel/engine.go, prepareNextTasksWithMode).
use harness_go.Base.{
  String, ◌≡◌, ◌↔◌, ap, refl, Bool, true, false, ◌&&◌, ◌||◌, some, List, [], ◌∷◌, ◌==◌, eq_iff,
  arith, lookup, elem, is_some, length, nat_beq, Option-cases, inl, inr, ◌∙◌,
}
use harness_go.Value.{Value}
use harness_go.Errors.{ok}
use harness_go.Graph.{StateGraph, Node, any_predecessor}
use harness_go.Pregel.Schedule.{
  Prepared, get_node, create_task, create_task_info, prepare_one, prepare_nodes, prepare_next_tasks,
  get_next_nodes,
}
use harness_go.Pregel.Schedule.Next.Targets.{next_targets, get_next_nodes-targets, elem-add_names}
use harness_go.Pregel.Schedule.Ready.{IsNamed, task_names}

task_names-prepare_one :
    (b : Bool) (n : Node) (k : String) (rest : Prepared)
    → elem k (task_names (prepare_one b (some n) rest).0)
      ≡ (n.name == k || elem k (task_names rest.0))
unfolding create_task create_task_info elem
task_names-prepare_one true n k (ts, trg) = refl
task_names-prepare_one false n k (ts, trg) = refl

task_names-prepare_nodes :
    (b : Bool) (g : StateGraph) (k : String) (names : List String)
    → IsNamed g
    → elem k (task_names (prepare_nodes b g names).0) ≡ (elem k names && is_some (lookup k g.nodes))
unfolding prepare_nodes get_node elem
task_names-prepare_nodes b g k [] v = refl
task_names-prepare_nodes b g k (name ∷ names) v =
    let ih = task_names-prepare_nodes b g k names v in
    elim (Option-cases (lookup name g.nodes)) [
      | inl e ↦ rw e (ground (arith, ih, e, eq_iff name k))
      | inr (n, e) ↦ rw e (
          ground (
            arith,
            ih,
            e,
            eq_iff name k,
            v.own name n e,
            task_names-prepare_one b n k (prepare_nodes b g names),
          ))
    ]

prepared-followers :
    (sprint : Value → String) (b : Bool) (g : StateGraph) (completed : List String) (last : String)
    (state : Value)
    → g.node_trigger_mode ≡ any_predecessor
    → nat_beq (length completed) 0 ≡ false
    → prepare_next_tasks sprint b g completed last state
      ≡ ok (prepare_nodes b g (get_next_nodes sprint g last state))
unfolding prepare_next_tasks
prepared-followers sprint b g completed last state mode later = rw (later, mode) refl

-- In the mode that waits for any predecessor, over a graph that files each node under its own name
-- and after the first step, tasks are prepared, and a node is among them exactly when it is in the graph
-- and is a next target of the node that completed last, whatever other nodes have completed. The next
-- targets are those that its conditional edges select or, if they select none, those of its regular
-- edges: if the virtual end node is among them, those in front of it, and else all of them and the
-- targets of its branches.
pub followers_iff :
    (sprint : Value → String) (b : Bool) (g : StateGraph) (completed : List String) (last : String)
    (state : Value)
    → IsNamed g
    → g.node_trigger_mode ≡ any_predecessor
    → nat_beq (length completed) 0 ≡ false
    → (p : Prepared) × (prepare_next_tasks sprint b g completed last state ≡ ok p)
      × ((k : String)
          → (elem k (task_names p.0) ≡ true) ↔ (
              (elem k (next_targets sprint g last state) ≡ true)
              × (is_some (lookup k g.nodes) ≡ true)))
followers_iff sprint b g completed last state v mode later = (
  prepare_nodes b g (get_next_nodes sprint g last state),
  prepared-followers sprint b g completed last state mode later,
  λ k. both (
      task_names-prepare_nodes b g k (get_next_nodes sprint g last state) v
      ∙ ap (λ x. x && is_some (lookup k g.nodes)) (is_target k)),
)
  where
    is_target :
        (k : String)
        → elem k (get_next_nodes sprint g last state) ≡ elem k (next_targets sprint g last state)
    is_target k =
        ap (elem k) (get_next_nodes-targets sprint g last state)
        ∙ elem-add_names k (next_targets sprint g last state) []
        ∙ without_more (elem k (next_targets sprint g last state))
      where
        without_more : (x : Bool) → (x || elem k []) ≡ x
        without_more x = unfold elem in ground arith

    both : {x y z : Bool} → x ≡ (y && z) → (x ≡ true) ↔ ((y ≡ true) × (z ≡ true))
    both e = ground (arith, e)
