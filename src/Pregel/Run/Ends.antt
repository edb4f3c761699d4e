-- ===== src/Pregel/Run/Ends.antt =====
-- How a run of the engine ends (graphengine/pregel/engine.go, Run).
use harness_go.Base.{
  ℕ, zero, suc, ◌+◌, ◌≤◌, ◌<◌, leb, String, ◌≡◌, ◌≢◌, refl, ◌∙◌, subst, true, Option, none, some,
  List, [], ◌∷◌, arith, Bool-cases, inl, inr,
}
use harness_go.Value.{Value, nil}
use harness_go.Errors.{Err, plain, wrap, recursion_limit_reached, graph_interrupt, Result, ok, err}
use harness_go.Checkpoint.{new_checkpoint}
use harness_go.Channels.Registry.{Registry, get_values}
use harness_go.Pregel.Schedule.{Prepared, prepare_next_tasks, should_interrupt}
use harness_go.Pregel.Schedule.Interrupts.{never_interrupted}
use harness_go.Pregel.Output.{to_map}
use harness_go.Pregel.Writes.{TaskResult, Written, apply_writes}
use harness_go.Pregel.Writes.InStep.{IsInStep, apply_writes-IsInStep}
use harness_go.Pregel.Run.{
  Engine, Loop, Ended, execute_tasks, complete, Ending, complete_one, all_failed, after_writes,
  after_tasks, after_prepared, run_loop, copy_channels, apply_input, initial, start, run,
}

-- What the end of a run comes to, under a limit of steps.
record IsSound (limit : ℕ) (r : Ended) : Type 0 where
  steps : r.0.step ≤ limit
  at_limit : (n : ℕ) → r.1 ≡ err (recursion_limit_reached n) → r.0.step ≡ limit
  uninterrupted : r.1 ≢ err graph_interrupt
  in_step : IsInStep r.0.run

-- The run has come to its end, and the end has the property.
abbrev Ends : (Ended → Type 0) → Ending → Type 0
Ends P none = ⊥
Ends P (some r) = P r

step-complete_one :
    (r : TaskResult) (o : Option Err) (l : Loop) → (complete_one r o l).step ≡ l.step
step-complete_one r none l = refl
step-complete_one r (some e) l = refl

step-complete : (rs : List TaskResult) (l : Loop) → (complete rs l).step ≡ l.step
unfolding complete
step-complete [] l = refl
step-complete (r ∷ rs) l = step-complete rs _ ∙ step-complete_one r r.error l

module _ (e : Engine) where
  -- From a step that the limit allows on, with more fuel than steps are left, the rest of a run ends.
  abbrev Keeps : ℕ → (Loop → Ending) → Type 0
  Keeps fuel rest =
      (l : Loop)
      → l.step ≤ e.recursion_limit
      → e.recursion_limit < fuel + l.step
      → IsInStep l.run
      → Ends (IsSound e.recursion_limit) (rest l)

  after_writes-Ends :
      (fuel : ℕ) (w : Written) (rest : Loop → Ending) (l : Loop)
      → Keeps fuel rest
      → l.step < e.recursion_limit
      → e.recursion_limit < suc fuel + l.step
      → IsInStep w.0
      → Ends (IsSound e.recursion_limit) (after_writes w rest l)
  after_writes-Ends fuel (s, err x) rest l keep below enough v = record {
    steps = omega arith;
    at_limit = λ n h. cc;
    uninterrupted = λ h. cc;
    in_step = v;
  }
  after_writes-Ends fuel (s, ok updated) rest l keep below enough v =
      keep (record l { step = suc l.step; run = record s { registry = (get_values s.registry).0 } })
        (omega arith) (omega arith) v

  after_tasks-Ends :
      (fuel : ℕ) (triggers : List String) (t : Registry × List TaskResult) (rest : Loop → Ending)
      (l : Loop)
      → Keeps fuel rest
      → l.step < e.recursion_limit
      → e.recursion_limit < suc fuel + l.step
      → IsInStep l.run
      → Ends (IsSound e.recursion_limit) (after_tasks e triggers t rest l)
  after_tasks-Ends fuel triggers (r, results) rest l keep below enough v =
      elim (Bool-cases (all_failed results)) [
        | inl bad ↦ rw bad (record {
          steps = omega arith;
          at_limit = λ n h. cc;
          uninterrupted = λ h. cc;
          in_step = v;
        })
        | inr good ↦
            let same = step-complete results l in
            rw good (
              after_writes-Ends fuel
                (apply_writes e.lower e.graph results triggers (record (l.run) { registry = r }))
                rest (complete results l) keep (omega arith) (omega arith)
                (apply_writes-IsInStep e.lower e.graph results triggers
                  (record (l.run) { registry = r }) v))
      ]

  after_prepared-Ends :
      (fuel : ℕ) (p : Result Prepared) (rest : Loop → Ending) (l : Loop)
      (free : (q : Prepared) → p ≡ ok q → should_interrupt e.interrupts q.0 q.1 ≡ [])
      → Keeps fuel rest
      → l.step < e.recursion_limit
      → e.recursion_limit < suc fuel + l.step
      → IsInStep l.run
      → Ends (IsSound e.recursion_limit) (after_prepared e p rest l)
  after_prepared-Ends fuel (err x) rest l free keep below enough v = record {
    steps = omega arith;
    at_limit = λ n h. cc;
    uninterrupted = λ h. cc;
    in_step = v;
  }
  after_prepared-Ends fuel (ok ([], triggers)) rest l free keep below enough v = record {
    steps = omega arith;
    at_limit = λ n h. cc;
    uninterrupted = λ h. cc;
    in_step = v;
  }
  after_prepared-Ends fuel (ok (t ∷ ts, triggers)) rest l free keep below enough v =
      rw (free (t ∷ ts, triggers) refl) (
        after_tasks-Ends fuel triggers (execute_tasks e l.step (t ∷ ts) l.run.registry) rest l keep
          below enough v)

  run_loop-Ends : (fuel : ℕ) → Keeps fuel (run_loop e fuel)
  unfolding run_loop
  run_loop-Ends zero l within enough v = absurd (omega arith)
  run_loop-Ends (suc fuel) l within enough v = elim (Bool-cases (e.done_at l.step)) [
    | inl done ↦
        rw done
          (record { steps = within; at_limit = λ n h. cc; uninterrupted = λ h. cc; in_step = v })
    | inr going ↦ elim (Bool-cases (leb e.recursion_limit l.step)) [
      | inl full ↦
          rw (going, full)
            (record {
              steps = within;
              at_limit = λ n h. ground (arith, full, within);
              uninterrupted = λ h. cc;
              in_step = v;
            })
      | inr room ↦
          rw (going, room)
            (after_prepared-Ends fuel
              (prepare_next_tasks e.sprint true e.graph l.completed l.last l.last_state)
              (λ l'. run_loop e fuel l') l
              (λ q h.
                never_interrupted e.sprint true e.graph l.completed l.last l.last_state q
                  e.interrupts q.1 h)
              (run_loop-Ends fuel) (ground (arith, room)) enough v)
    ]
  ]

  start-Ends :
      (input : Value) (w : Registry × Option Err)
      → Ends (IsSound e.recursion_limit) (start e input w)
  unfolding new_checkpoint
  start-Ends input (r, some x) = record {
    steps = omega arith;
    at_limit = λ n h. cc;
    uninterrupted = λ h. cc;
    in_step = (refl, refl);
  }
  start-Ends input (r, none) =
      run_loop-Ends (suc e.recursion_limit) (initial e r input) (omega arith) (omega arith)
        (refl, refl)

  run-Ends : (input : Value) → Ends (IsSound e.recursion_limit) (run e input)
  unfolding run
  run-Ends input = start-Ends input (apply_input e.lower (copy_channels e.graph.channels []) input)

  ended_with :
      (o : Ending)
      → Ends (IsSound e.recursion_limit) o
      → (r : Ended) × (o ≡ some r) × IsSound e.recursion_limit r
  ended_with none h = absurd h
  ended_with (some r) h = (r, refl, h)

  run-IsSound : (input : Value) → (r : Ended) × (run e input ≡ some r) × IsSound e.recursion_limit r
  run-IsSound input = ended_with (run e input) (run-Ends input)

  end_of_run : (input : Value) (r : Ended) → run e input ≡ some r → IsSound e.recursion_limit r
  end_of_run input r h = subst (Ends (IsSound e.recursion_limit)) h (run-Ends input)

  -- A run comes to an end, with a result or an error, after at most as many steps as the recursion
  -- limit allows, and if it ends with the error of that limit, after exactly as many.
  pub step-run :
      (input : Value)
      → (r : Ended) × (run e input ≡ some r)
        × (r.0.step ≤ e.recursion_limit)
        × ((n : ℕ) → r.1 ≡ err (recursion_limit_reached n) → r.0.step ≡ e.recursion_limit)
  step-run input =
      let (r, ends, sound) = run-IsSound input in (r, ends, sound.steps, sound.at_limit)

  -- A run never ends with the error of an interrupt, whatever nodes are marked for interruption.
  pub run_not_interrupted :
      (input : Value) (r : Ended) → run e input ≡ some r → r.1 ≢ err graph_interrupt
  run_not_interrupted input r h = (end_of_run input r h).uninterrupted

  -- When a run ends, its checkpoint has the same versions, of the channels and of what each node has
  -- seen, as the engine itself.
  pub run-IsInStep : (input : Value) (r : Ended) → run e input ≡ some r → IsInStep r.0.run
  run-IsInStep input r h = (end_of_run input r h).in_step

  -- A run with a nil input, which asks for the resumption of an earlier one, fails before its first
  -- step, whatever the graph.
  pub run_nil :
      (r : Ended) × (run e nil ≡ some r)
      × (r.1 ≡ err (wrap ("failed to apply input" ∷ []) (plain ("nil value" ∷ []))))
      × (r.0.step ≡ 0)
  unfolding run apply_input to_map
  run_nil = (_, refl, refl, refl)
