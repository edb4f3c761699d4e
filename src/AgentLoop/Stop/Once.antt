-- ===== src/AgentLoop/Stop/Once.antt =====
-- The stop is committed once (agentcore/agent_loop_stop.go).
use harness_go.Base.{
  ℕ, ◌+◌, ◌≡◌, refl, ap, Bool, true, false, not, ◌&&◌, ◌||◌, Option, none, some, List, [], ◌∷◌,
  arith, is_some, if◌then◌else◌, Bool-cases, inl, inr,
}
use harness_go.Clock.{Duration, is_positive}
use harness_go.AgentLoop.{CancelOption}
use harness_go.AgentLoop.Stop.{
  is_committed, StopConfig, StopController, StopDecision, no_decision, new_stop_controller, commit,
  with_settings, wait_idle, with_cancel, request_open, request_stop, begin_active_turn,
  end_active_turn, receive_cancel, close_for_loop_exit,
}

pub data Op : Type 0 where
  request_op : ℕ → StopConfig → Op
  commit_op begin_op end_op receive_op exit_op : Op

-- one call, and whether it tells its caller that it has committed the stop
unfoldable pub step : Op → StopController → StopController × Bool
unfolding request_stop commit begin_active_turn end_active_turn receive_cancel close_for_loop_exit
step (request_op now cfg) c = ((request_stop now cfg c).0, (request_stop now cfg c).1.commit)
step commit_op c = commit c
step begin_op c = (begin_active_turn c, false)
step end_op c = ((end_active_turn c).0, false)
step receive_op c = ((receive_cancel c).0, false)
step exit_op c = (close_for_loop_exit c, false)

abbrev pub bit : Bool → ℕ
bit false = 0
bit true = 1

-- the controller after the calls, and how many of them have told of a commit
unfoldable pub run : List Op → StopController → StopController × ℕ
unfolding step
run [] c = (c, 0)
run (op ∷ ops) c = let rest = run ops (step op c).0 in (rest.0, bit (step op c).1 + rest.1)

-- what a call adds to the count is what it changes of the phase
Counts : StopController → StopController × Bool → Type 0
Counts c r = bit (is_committed r.0.phase) ≡ bit r.1 + bit (is_committed c.phase)

commit-Counts : (c : StopController) → Counts c (commit c)
unfolding Counts commit
commit-Counts c = elim (Bool-cases (c.closed || is_committed c.phase)) [
  | inl done ↦ rw done (omega arith)
  | inr more ↦ rw more (ground arith)
]

phase-with_cancel :
    (now : ℕ) (o : Option (List CancelOption)) (c : StopController)
    → (with_cancel now o c).phase ≡ c.phase
phase-with_cancel now none c = refl
phase-with_cancel now (some opts) c = refl

phase-wait_idle :
    (d : Duration) (c : StopController) → is_committed (wait_idle d c).phase ≡ is_committed c.phase
phase-wait_idle d c = elim (Bool-cases (not (is_committed c.phase) && not (is_some c.idle_for))) [
  | inl waits ↦ rw waits (ground arith)
  | inr stays ↦ rw stays refl
]

request_open-Counts :
    (now : ℕ) (cfg : StopConfig) (c : StopController)
    → Counts c ((request_open now cfg c).0, (request_open now cfg c).1.commit)
unfolding request_open Counts
request_open-Counts now cfg c =
    let set = with_settings cfg c in
    elim (Bool-cases (is_positive cfg.idle_for)) [
      | inl idle ↦ rw (idle, phase-wait_idle cfg.idle_for set) (omega arith)
      | inr soon ↦
          rw (soon, phase-with_cancel now cfg.agent_cancel_opts (commit set).0) (commit-Counts set)
    ]

request-Counts :
    (now : ℕ) (cfg : StopConfig) (c : StopController)
    → Counts c ((request_stop now cfg c).0, (request_stop now cfg c).1.commit)
unfolding request_stop Counts
request-Counts now cfg c =
    chosen c.closed (c, no_decision) (request_open now cfg c) (omega arith)
      (request_open-Counts now cfg c)
  where
    chosen :
        (b : Bool) (x y : StopController × StopDecision)
        → Counts c (x.0, x.1.commit)
        → Counts c (y.0, y.1.commit)
        → Counts c ((if b then x else y).0, (if b then x else y).1.commit)
    chosen true x y h k = h
    chosen false x y h k = k

same_phase-Counts : (c d : StopController) → d.phase ≡ c.phase → Counts c (d, false)
unfolding Counts
same_phase-Counts c d h = let same = ap (λ p. bit (is_committed p)) h in omega arith

phase-begin_active_turn : (c : StopController) → (begin_active_turn c).phase ≡ c.phase
unfolding begin_active_turn
phase-begin_active_turn c = elim (Bool-cases c.closed) [
  | inl shut ↦ rw shut refl
  | inr is_open ↦ rw is_open refl
]

phase-receive_cancel : (c : StopController) → (receive_cancel c).0.phase ≡ c.phase
unfolding receive_cancel
phase-receive_cancel c =
    elim (Bool-cases (not c.has_active_cancel_target || not (is_some c.pending))) [
      | inl nothing ↦ rw nothing refl
      | inr ready ↦ rw ready refl
    ]

step-Counts : (op : Op) (c : StopController) → Counts c (step op c)
unfolding step end_active_turn close_for_loop_exit
step-Counts (request_op now cfg) c = request-Counts now cfg c
step-Counts commit_op c = commit-Counts c
step-Counts begin_op c = same_phase-Counts c (begin_active_turn c) (phase-begin_active_turn c)
step-Counts end_op c = same_phase-Counts c (end_active_turn c).0 refl
step-Counts receive_op c = same_phase-Counts c (receive_cancel c).0 (phase-receive_cancel c)
step-Counts exit_op c = same_phase-Counts c (close_for_loop_exit c) refl

run-Counts :
    (ops : List Op) (c : StopController)
    → bit (is_committed (run ops c).0.phase) ≡ (run ops c).1 + bit (is_committed c.phase)
unfolding run Counts
run-Counts [] c = omega arith
run-Counts (op ∷ ops) c =
    let one = step-Counts op c in let rest = run-Counts ops (step op c).0 in omega arith

-- Over any calls in any order, the stop is committed at most once, and exactly once if the phase is
-- committed at the end: the loop closes its buffer for that one call.
pub run-commits_once :
    (ops : List Op)
    → (run ops new_stop_controller).1
      ≡ (if is_committed (run ops new_stop_controller).0.phase then 1 else 0)
unfolding new_stop_controller
run-commits_once ops = let counted = run-Counts ops new_stop_controller in ground (arith, counted)
