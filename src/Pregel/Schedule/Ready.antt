-- ===== src/Pregel/Schedule/Ready.antt =====
-- The nodes that are ready in the mode in which a node waits for all its predecessors
-- (graphengine/pregel/engine.go, prepareNextTasksDAG).
use harness_go.Base.{
  String, ◌≡◌, ◌↔◌, ◌⊎◌, refl, sym, ◌∙◌, Bool, true, false, not, nat_beq, length, ◌&&◌, ◌||◌,
  Option, some, List, [], ◌∷◌, ◌==◌, eq_iff, arith, elem, lookup, Dict, keys, All, is_some,
  Distinct, elem-keys, lookup-insert, Distinct-insert, Bool-cases, inl, inr,
}
use harness_go.Value.{Value}
use harness_go.Errors.{ok}
use harness_go.Graph.{
  all_predecessor, StateGraph, Node, NodeFunc, Edge, start_node, end_node, new_state_graph,
  add_node, plain_node,
}
use harness_go.Pregel.Schedule.{
  Task, Prepared, get_node, create_task, create_task_info, prepare_ready, prepare_next_tasks_dag,
  prepare_next_tasks, all_done, incoming_edges,
}

-- an edge of the list leads from one node to the other
abbrev pub HasEdge : List Edge → String → String → Type 0
HasEdge [] from to = ⊥
HasEdge (e ∷ es) from to = ((e.from ≡ from) × (e.to ≡ to)) ⊎ HasEdge es from to

abbrev pub is_virtual : String → Bool
is_virtual k = k == start_node || k == end_node

-- every real predecessor of the node has completed
abbrev pub AllPredecessorsDone : List Edge → List String → String → Type 0
AllPredecessorsDone es completed node =
    (from : String) → HasEdge es from node → is_virtual from ≡ false → elem from completed ≡ true

done_sound :
    (es : List Edge) (completed : List String) (node : String)
    → all_done completed (incoming_edges es node) ≡ true
    → AllPredecessorsDone es completed node
unfolding all_done incoming_edges
done_sound [] completed node h from e v = absurd e
done_sound (e ∷ es) completed node h from (inr later) v =
    done_sound es completed node (tail_done e h) from later v
  where
    tail_done :
        (e : Edge)
        → all_done completed (incoming_edges (e ∷ es) node) ≡ true
        → all_done completed (incoming_edges es node) ≡ true
    tail_done e h = ground arith
done_sound (e ∷ es) completed node h from (inl here) v =
    ground (arith, here.0, here.1, eq_iff e.to node)

done_complete :
    (es : List Edge) (completed : List String) (node : String)
    → AllPredecessorsDone es completed node
    → all_done completed (incoming_edges es node) ≡ true
unfolding all_done incoming_edges
done_complete [] completed node h = refl
done_complete (e ∷ es) completed node h =
    let ih = done_complete es completed node (λ from k v. h from (inr k) v) in
    elim (Bool-cases (e.to == node)) [
      | inl mine ↦ elim (Bool-cases (is_virtual e.from)) [
        | inl virtual ↦ rw (mine, virtual) ih
        | inr real ↦ rw (mine, real, h e.from (inl (refl, (eq_iff e.to node).0 mine)) real) ih
      ]
      | inr other ↦ rw other ih
    ]

abbrev pub task_names : List Task → List String
task_names [] = []
task_names (t ∷ ts) = t.name ∷ task_names ts

-- The node map files each node under its own name, as AddNode does.
pub record IsNamed (g : StateGraph) : Type 0 where
  pub own : (k : String) (n : Node) → lookup k g.nodes ≡ some n → n.name ≡ k
  pub distinct : Distinct (keys g.nodes)

-- each entry of a part of the node map is what the map has under the node's name
abbrev Resolves : StateGraph → Dict Node → Type 0
Resolves g = All (λ (e : String × Node). (e.1.name ≡ e.0) × (lookup e.0 g.nodes ≡ some e.1))

task_names-ready :
    (b : Bool) (es : List Edge) (completed : List String) (name k : String) (n : Node)
    (rest : Prepared)
    → n.name ≡ name
    → elem k (task_names (prepare_ready b es completed name (some n) rest).0) ≡ (
        (name == k && (not (elem name completed) && all_done completed (incoming_edges es name)))
        || elem k (task_names rest.0))
unfolding create_task create_task_info elem
task_names-ready true es completed name k n (ts, trg) e = ground (arith, eq_iff name k)
task_names-ready false es completed name k n (ts, trg) e = ground (arith, eq_iff name k)

-- whether the loop schedules the node of a name that is in the node map
abbrev ready : StateGraph → List String → String → Bool
ready g completed k = not (elem k completed) && all_done completed (incoming_edges g.edges k)

task_names-dag :
    (b : Bool) (g : StateGraph) (completed : List String) (k : String) (nodes : Dict Node)
    → Resolves g nodes
    → elem k (task_names (prepare_next_tasks_dag b g completed nodes).0)
      ≡ (elem k (keys nodes) && ready g completed k)
unfolding prepare_next_tasks_dag get_node keys elem
task_names-dag b g completed k [] r = refl
task_names-dag b g completed k ((key, n) ∷ nodes) r =
    let ih = task_names-dag b g completed k nodes r.1 in
    rw (r.0.0, r.0.1)
      (ground (
        arith,
        ih,
        eq_iff key k,
        task_names-ready b g.edges completed key k n (prepare_next_tasks_dag b g completed nodes)
            r.0.0,
      ))

-- each entry of a map without repeated keys is what the map has under the entry's key
module _ (m : Dict Node) where
  abbrev IsEntry : String × Node → Type 0
  IsEntry e = lookup e.0 m ≡ some e.1

  entries-extend :
      (k : String) (v : Node) (part : Dict Node)
      → elem k (keys m) ≡ false
      → All IsEntry part
      → All (λ (e : String × Node). lookup e.0 ((k, v) ∷ m) ≡ some e.1) part
  unfolding lookup
  entries-extend k v [] fresh h = tt
  entries-extend k v ((j, w) ∷ part) fresh h =
      (ground (arith, h.0, elem-keys j m, eq_iff k j), entries-extend k v part fresh h.1)

map-entries : (m : Dict Node) → Distinct (keys m) → All (IsEntry m) m
unfolding lookup keys
map-entries [] d = tt
map-entries ((k, v) ∷ m) d =
    (ground (arith, eq_iff k k), entries-extend m k v m d.0 (map-entries m d.1))

named-Resolves :
    (g : StateGraph) (part : Dict Node) → IsNamed g → All (IsEntry g.nodes) part → Resolves g part
named-Resolves g [] v h = tt
named-Resolves g ((k, n) ∷ part) v h = ((v.own k n h.0, h.0), named-Resolves g part v h.1)

ready_iff :
    (b : Bool) (g : StateGraph) (completed : List String) (k : String)
    → IsNamed g
    → (elem k (task_names (prepare_next_tasks_dag b g completed g.nodes).0) ≡ true) ↔ (
        (is_some (lookup k g.nodes) ≡ true)
        × (elem k completed ≡ false)
        × AllPredecessorsDone g.edges completed k)
ready_iff b g completed k v =
    let names =
      task_names-dag b g completed k g.nodes
        (named-Resolves g g.nodes v (map-entries g.nodes v.distinct)) in
    (
      λ h.
          let both : (elem k (keys g.nodes) && ready g completed k) ≡ true = sym names ∙ h in
          (
            ground (arith, elem-keys k g.nodes),
            ground (arith),
            done_sound g.edges completed k (ground (arith)),
          ),
      λ h.
          names
          ∙ ground (arith, elem-keys k g.nodes, h.0, h.1, done_complete g.edges completed k h.2),
    )

-- In the mode that waits for all predecessors, over a graph that files each node under its own name and
-- after the first step, tasks are prepared, and a node is among them exactly when it is in the graph,
-- has not completed, and every node with an edge to it, the virtual ones apart, has completed.
pub scheduled_iff :
    (sprint : Value → String) (b : Bool) (g : StateGraph) (completed : List String) (last : String)
    (state : Value)
    → IsNamed g
    → g.node_trigger_mode ≡ all_predecessor
    → nat_beq (length completed) 0 ≡ false
    → (p : Prepared) × (prepare_next_tasks sprint b g completed last state ≡ ok p)
      × ((k : String)
          → (elem k (task_names p.0) ≡ true) ↔ (
              (is_some (lookup k g.nodes) ≡ true)
              × (elem k completed ≡ false)
              × AllPredecessorsDone g.edges completed k))
unfolding prepare_next_tasks
scheduled_iff sprint b g completed last state v mode later = (
  prepare_next_tasks_dag b g completed g.nodes,
  rw (later, mode) refl,
  λ k. ready_iff b g completed k v,
)

pub new-IsNamed : IsNamed new_state_graph
unfolding new_state_graph lookup keys
new-IsNamed = record { own = λ k n h. cc; distinct = tt }

-- AddNode files the node under its name.
pub add_node-IsNamed :
    (g : StateGraph) (name : String) (fn : Option NodeFunc)
    → IsNamed g
    → IsNamed (add_node g name fn)
unfolding add_node
add_node-IsNamed g name fn v = record {
  own = λ k n h.
      ground (arith, lookup-insert name k (plain_node name fn) g.nodes, v.own k n, eq_iff name k);
  distinct = Distinct-insert name (plain_node name fn) g.nodes v.distinct;
}
