-- ===== src/Graph/Inline/Ends.antt =====
-- How a run without an engine ends (graphengine/graph/graph.go, inlineRun).
use harness_go.Base.{
  ℕ, zero, suc, ◌+◌, ◌≤◌, ◌<◌, sym, ap, leb, lt→leb, le→leb, String, ◌≡◌, refl, true, false, ◌||◌,
  Option, none, some, List, [], ◌∷◌, arith, elem, is_some, length, nat_beq, ◌==◌, Bool-cases,
  Option-cases, inl, inr,
}
use harness_go.Value.{Value}
use harness_go.Errors.{Err, recursion_limit_reached, graph_interrupt, Result, ok, err}
use harness_go.Channels.Registry.{Registry}
use harness_go.Graph.{StateGraph, Node}
use harness_go.Pregel.Schedule.{get_node}
use harness_go.Pregel.Run.{copy_channels}
use harness_go.Graph.Inline.{
  CompiledGraph, InlineTask, InlineTaskResult, InlineLoop, InlineEnded, InlineEnding,
  inline_apply_input, inline_get_next_tasks, any_marked, inline_should_interrupt,
  inline_execute_tasks, inline_complete, inline_apply_writes, collect_writes, recovered, answer_of,
  after_inline_writes, after_inline_execute, after_inline_tasks, inline_loop, inline_start,
  inline_after_input, inline_run,
}

step-complete_one :
    (xs : List InlineTaskResult) (l : InlineLoop) → (inline_complete xs l).step ≡ l.step
unfolding inline_complete
step-complete_one [] l = refl
step-complete_one (x ∷ xs) l = elim (Option-cases x.error) [
  | inl fine ↦ rw fine (step-complete_one xs _)
  | inr (e, failed) ↦ rw failed (step-complete_one xs l)
]

-- The run has come to its end, within a limit of steps, and at it if that is the error.
record IsWithin (limit : ℕ) (r : InlineEnded) : Type 0 where
  steps : r.0.step ≤ limit
  at_limit : (n : ℕ) → r.1 ≡ err (recursion_limit_reached n) → r.0.step ≡ limit

abbrev Ends : ℕ → InlineEnding → Type 0
Ends limit none = ⊥
Ends limit (some r) = IsWithin limit r

-- From a step that the limit allows on, with more fuel than steps are left, the rest of a run ends.
abbrev Keeps : ℕ → ℕ → (InlineLoop → InlineEnding) → Type 0
Keeps limit fuel rest =
    (l : InlineLoop) → l.step ≤ limit → limit < fuel + l.step → Ends limit (rest l)

writes-Ends :
    (limit fuel : ℕ) (o : Registry × Option Err) (rest : InlineLoop → InlineEnding) (l : InlineLoop)
    → Keeps limit fuel rest
    → l.step < limit
    → limit < suc fuel + l.step
    → Ends limit (after_inline_writes o rest l)
writes-Ends limit fuel (r, some e) rest l keep below enough = record {
  steps = omega arith;
  at_limit = λ n h. cc;
}
writes-Ends limit fuel (r, none) rest l keep below enough =
    keep (record l { registry = r; step = suc l.step }) (omega arith) (omega arith)

execute-Ends :
    (limit fuel : ℕ) (o : Result (List InlineTaskResult)) (rest : InlineLoop → InlineEnding)
    (l : InlineLoop)
    → Keeps limit fuel rest
    → l.step < limit
    → limit < suc fuel + l.step
    → Ends limit (after_inline_execute o rest l)
execute-Ends limit fuel (err e) rest l keep below enough = record {
  steps = omega arith;
  at_limit = λ n h. cc;
}
execute-Ends limit fuel (ok xs) rest l keep below enough =
    let same = step-complete_one xs l in
    writes-Ends limit fuel (inline_apply_writes l.registry xs) rest (inline_complete xs l) keep
      (omega arith) (omega arith)

tasks-Ends :
    (cg : CompiledGraph) (fuel : ℕ) (o : Result (List InlineTask))
    (rest : InlineLoop → InlineEnding) (l : InlineLoop)
    → Keeps cg.recursion_limit fuel rest
    → l.step < cg.recursion_limit
    → cg.recursion_limit < suc fuel + l.step
    → Ends cg.recursion_limit (after_inline_tasks cg o rest l)
tasks-Ends cg fuel (err e) rest l keep below enough = record {
  steps = omega arith;
  at_limit = λ n h. cc;
}
tasks-Ends cg fuel (ok []) rest l keep below enough = record {
  steps = omega arith;
  at_limit = λ n h. cc;
}
tasks-Ends cg fuel (ok (t ∷ ts)) rest l keep below enough =
    elim (Bool-cases (inline_should_interrupt (t ∷ ts) cg.interrupts)) [
      | inl stops ↦ rw stops (record { steps = omega arith; at_limit = λ n h. cc })
      | inr goes ↦ rw goes (
          execute-Ends cg.recursion_limit fuel (inline_execute_tasks cg.graph l.step 0 (t ∷ ts))
            rest l keep below enough)
    ]

loop-Ends : (cg : CompiledGraph) (fuel : ℕ) → Keeps cg.recursion_limit fuel (inline_loop cg fuel)
unfolding inline_loop
loop-Ends cg zero l within enough = absurd (omega arith)
loop-Ends cg (suc fuel) l within enough = elim (Bool-cases (leb cg.recursion_limit l.step)) [
  | inl full ↦ rw full (record { steps = within; at_limit = λ n h. ground (arith, full, within) })
  | inr room ↦ rw room (
      tasks-Ends cg fuel (inline_get_next_tasks cg l.completed l.last l.last_state)
        (λ m. inline_loop cg fuel m) l (loop-Ends cg fuel) (ground (arith, room)) enough)
]

input-Ends :
    (cg : CompiledGraph) (input : Value) (o : Registry × Option Err)
    → Ends cg.recursion_limit (inline_after_input cg input o)
input-Ends cg input (r, some e) = record { steps = omega arith; at_limit = λ n h. cc }
input-Ends cg input (r, none) =
    loop-Ends cg (suc cg.recursion_limit) (inline_start r input) (omega arith) (omega arith)

ended_with :
    (limit : ℕ) (o : InlineEnding)
    → Ends limit o
    → (r : InlineEnded) × (o ≡ some r) × IsWithin limit r
ended_with limit none h = absurd h
ended_with limit (some r) h = (r, refl, h)

-- A run without an engine comes to an end, with a result or an error, after at most as many steps as
-- the recursion limit allows, and if it ends with the error of that limit, after exactly as many.
pub step-inline_run :
    (cg : CompiledGraph) (input : Value)
    → (r : InlineEnded) × (inline_run cg input ≡ some r)
      × (r.0.step ≤ cg.recursion_limit)
      × ((n : ℕ) → r.1 ≡ err (recursion_limit_reached n) → r.0.step ≡ cg.recursion_limit)
unfolding inline_run
step-inline_run cg input =
    let o = inline_apply_input (copy_channels cg.graph.channels []) input in
    let (r, ends, within) =
      ended_with cg.recursion_limit (inline_after_input cg input o) (input-Ends cg input o) in
    (r, ends, within.steps, within.at_limit)

-- the entry point is a node that is filed under its own name
pub record HasEntry (g : StateGraph) (n : Node) : Type 0 where
  pub named : (g.entry_point == "") ≡ false
  pub entry : get_node g g.entry_point ≡ some n
  pub filed : get_node g n.name ≡ some n

first_tasks :
    (cg : CompiledGraph) (n : Node) (l : InlineLoop)
    → HasEntry cg.graph n
    → l.completed ≡ []
    → inline_get_next_tasks cg l.completed l.last l.last_state
      ≡ ok (record { node_name = n.name; input = l.last_state } ∷ [])
unfolding inline_get_next_tasks
first_tasks cg n l h c = rw (c, h.named, h.entry) refl

nonzero : (n : ℕ) → nat_beq (suc n) 0 ≡ false
nonzero n = ground arith

one_marked :
    (interrupts : List String) (t : InlineTask)
    → (elem "*" interrupts || elem t.node_name interrupts) ≡ true
    → any_marked interrupts (t ∷ []) ≡ true
one_marked interrupts t h = ground (arith, h)

marked :
    (interrupts : List String) (t : InlineTask)
    → (elem "*" interrupts || elem t.node_name interrupts) ≡ true
    → inline_should_interrupt (t ∷ []) interrupts ≡ true
unfolding inline_should_interrupt elem
marked [] t h = absurd (ground arith)
marked (i ∷ is) t h = rw (nonzero (length is)) (one_marked (i ∷ is) t h)

-- A node that is marked for interruption, by its name or by "*", is never run as the entry point: the
-- run ends with an interrupt before its first step, with the channels as the input left them.
pub entry_interrupted :
    (cg : CompiledGraph) (input : Value) (n : Node) (r : Registry)
    → HasEntry cg.graph n
    → (elem "*" cg.interrupts || elem n.name cg.interrupts) ≡ true
    → 1 ≤ cg.recursion_limit
    → inline_apply_input (copy_channels cg.graph.channels []) input ≡ (r, none)
    → inline_run cg input ≡ some (inline_start r input, err graph_interrupt)
unfolding inline_run inline_loop
entry_interrupted cg input n r h m k i =
    let room : leb cg.recursion_limit 0 ≡ false = lt→leb 0 cg.recursion_limit k in
    rw
      (
        i,
        room,
        first_tasks cg n (inline_start r input) h refl,
        marked cg.interrupts (record { node_name = n.name; input = input }) m,
      )
      refl

-- Every call of the node fails, with an error or with a panic.
abbrev pub AlwaysFails : Node → Value → Type 0
AlwaysFails n input =
    (step place : ℕ)
    → is_some (recovered n.name (answer_of n.function step place input)).error ≡ true

failed_task :
    (cg : CompiledGraph) (n : Node) (rest : InlineLoop → InlineEnding) (l : InlineLoop)
    → get_node cg.graph n.name ≡ some n
    → AlwaysFails n l.last_state
    → after_inline_execute
        (inline_execute_tasks cg.graph l.step 0
          (record { node_name = n.name; input = l.last_state } ∷ []))
        rest
        l
      ≡ rest (record l { step = suc l.step })
unfolding inline_execute_tasks inline_complete inline_apply_writes collect_writes
failed_task cg n rest l filed fails =
    elim (Option-cases (recovered n.name (answer_of n.function l.step 0 l.last_state)).error) [
      | inl fine ↦ let call = fails l.step 0 in absurd (cc)
      | inr (e, failed) ↦ rw (filed, failed) refl
    ]

failing_loop :
    (cg : CompiledGraph) (n : Node) (left : ℕ) (l : InlineLoop)
    → HasEntry cg.graph n
    → inline_should_interrupt
        (record { node_name = n.name; input = l.last_state } ∷ [])
        cg.interrupts
      ≡ false
    → AlwaysFails n l.last_state
    → l.completed ≡ []
    → left + l.step ≡ cg.recursion_limit
    → inline_loop cg (suc left) l
      ≡ some
          (record l { step = cg.recursion_limit }, err (recursion_limit_reached cg.recursion_limit))
unfolding inline_loop
failing_loop cg n zero l h goes fails c t =
    let full : leb cg.recursion_limit l.step ≡ true =
      le→leb cg.recursion_limit l.step (omega arith) in
    let same : cg.recursion_limit ≡ l.step = omega arith in
    rw full (
      ap (λ k. some (record l { step = k }, err (recursion_limit_reached cg.recursion_limit)))
        (sym same))
failing_loop cg n (suc left) l h goes fails c t =
    let room : leb cg.recursion_limit l.step ≡ false =
      lt→leb l.step cg.recursion_limit (omega arith) in
    rw
      (
        room,
        first_tasks cg n l h c,
        goes,
        failed_task cg n (λ m. inline_loop cg (suc left) m) l h.filed fails,
      )
      (failing_loop cg n left (record l { step = suc l.step }) h goes fails c (omega arith))

-- An entry point that is not marked for interruption and whose node always fails is run again in every
-- step, until the recursion limit: the run ends with the error of that limit and not with the error of
-- the node, and the channels are left as the input left them.
pub failing_entry :
    (cg : CompiledGraph) (input : Value) (n : Node) (r : Registry)
    → HasEntry cg.graph n
    → inline_should_interrupt (record { node_name = n.name; input = input } ∷ []) cg.interrupts
      ≡ false
    → AlwaysFails n input
    → inline_apply_input (copy_channels cg.graph.channels []) input ≡ (r, none)
    → inline_run cg input
      ≡ some (
        record (inline_start r input) { step = cg.recursion_limit },
        err (recursion_limit_reached cg.recursion_limit),
      )
unfolding inline_run
failing_entry cg input n r h goes fails i =
    rw i
      (failing_loop cg n cg.recursion_limit (inline_start r input) h goes fails refl (omega arith))
