-- ===== src/AgentLoop/Tests.antt =====
-- Concrete runs of the agent loop's parts (agentcore).
use harness_go.Base.{
  ℕ, ◌+◌, ◌≡◌, refl, ◌↔◌, true, false, none, some, List, [], ◌∷◌, ◌++◌, arith, if◌then◌else◌,
}
use mathlib.Core.List.{Permᴰ}
use harness_go.Clock.{pos}
use harness_go.AgentLoop.{
  CancelMode, cancel_immediate, CancelOption, with_mode, with_recursive, with_timeout,
  CancelRequestState, new_cancel_request_state, cancel_options,
}
use harness_go.AgentLoop.Requests.{
  is_due, cancel_options-parsed, merge_requests, merge_requests_order,
}
use harness_go.AgentLoop.Buffer
use harness_go.AgentLoop.Buffer.{
  TurnBuffer, new_turn_buffer, try_send, take_all, push_front, Run-items,
}
use harness_go.AgentLoop.Preempt
use harness_go.AgentLoop.Preempt.{
  PreemptController, new_preempt_controller, begin_planning_turn, begin_push, request_preempt,
  close_for_loop_exit, acks, is_idle,
}
use harness_go.AgentLoop.Preempt.Acks
use harness_go.AgentLoop.Preempt.Acks.{count, acks_kept, acks_released, begin_planning_turn-total}
use harness_go.AgentLoop.Stop.{StopConfig, new_stop_controller, is_committed}
use harness_go.AgentLoop.Stop.Once
use harness_go.AgentLoop.Stop.Once.{run-commits_once}
use harness_go.AgentLoop.Push.{AgentLoop, PushConfig, with_config, new_agent_loop, push, stop}
use harness_go.AgentLoop.Push.Accepted.{
  Placed, UnlessPanic, PanicsOr, IsSealed, push-Placed, push_after_stop,
}

abbrev after_tools : CancelMode
after_tools = record { after_chat_model = false; after_tool_calls = true }

abbrev graceful : CancelRequestState
graceful = record { mode = after_tools; recursive = true; deadline = some 9 }

cancel_options-parsed_example : new_cancel_request_state (cancel_options graceful 4) 4 ≡ (
    if is_due graceful 4
    then record { mode = cancel_immediate; recursive = true; deadline = none }
    else graceful)
cancel_options-parsed_example = cancel_options-parsed graceful 4 (λ h. absurd (ground (arith, h)))

abbrev two_requests : List (List CancelOption)
two_requests = (with_mode after_tools ∷ with_timeout (pos 3) ∷ []) ∷ (with_recursive ∷ []) ∷ []

abbrev turned : List (List CancelOption)
turned = (with_recursive ∷ []) ∷ (with_mode after_tools ∷ with_timeout (pos 3) ∷ []) ∷ []

merge_requests_order_example : merge_requests two_requests 4 ≡ merge_requests turned 4
merge_requests_order_example = merge_requests_order 4 (Permᴰ.swap refl refl)

abbrev one_sent : TurnBuffer ℕ
one_sent = (try_send new_turn_buffer 7).0

-- an item is sent, taken with all the others, and pushed back
sent_and_returned :
    Buffer.Run new_turn_buffer (7 ∷ []) [] (push_front (take_all one_sent).0 (7 ∷ []))
unfolding try_send new_turn_buffer take_all
sent_and_returned = Buffer.Run.returned (7 ∷ []) (
    Buffer.Run.next
      (Buffer.Run.next (Buffer.Run.start new_turn_buffer) (Buffer.Step.sent new_turn_buffer 7 refl))
      (Buffer.Step.drained one_sent))

Run-items_example :
    [] ++ (push_front (take_all one_sent).0 (7 ∷ [])).buf ≡ new_turn_buffer.buf ++ (7 ∷ [])
Run-items_example = Run-items sent_and_returned

abbrev Controller : Type 0
Controller = PreemptController ℕ ℕ

abbrev planned : Controller
planned = record new_preempt_controller { turn_id = 1; turn_phase = Preempt.TurnPhase.planning }

abbrev asked_once : Controller
asked_once = (request_preempt 3 planned (begin_push planned).1 (some 5) none).0

asked_run : Acks.Run (5 ∷ []) [] asked_once
unfolding begin_planning_turn new_preempt_controller begin_push request_preempt
asked_run =
    Acks.Run.next
      (Acks.Run.next Acks.Run.start (Acks.Step.begins new_preempt_controller planned refl))
      (Acks.Step.requests 3 planned (begin_push planned).1 (some 5) none)

acks_kept_example : count 5 [] + count 5 (acks asked_once.pending) ≡ count 5 (5 ∷ [])
acks_kept_example = acks_kept 5 asked_run

exit_run : Acks.Run (5 ∷ []) (5 ∷ []) (close_for_loop_exit asked_once).0
unfolding request_preempt new_preempt_controller begin_push close_for_loop_exit
exit_run = Acks.Run.next asked_run (Acks.Step.exits asked_once)

acks_released_example : count 5 (5 ∷ []) ≡ count 5 (5 ∷ [])
unfolding close_for_loop_exit
acks_released_example = acks_released 5 exit_run refl

begin_planning_turn-total_example :
    (begin_planning_turn asked_once ≡ none) ↔ (is_idle asked_once.turn_phase ≡ false)
begin_planning_turn-total_example = begin_planning_turn-total asked_run

abbrev at_once : StopConfig
at_once = record {
  agent_cancel_opts = none;
  skip_checkpoint = false;
  stop_cause = "user";
  idle_for = pos 0;
}

abbrev stops : List Once.Op
stops = Once.Op.request_op 3 at_once ∷ Once.Op.commit_op ∷ []

run-commits_once_example :
    (Once.run stops new_stop_controller).1
    ≡ (if is_committed (Once.run stops new_stop_controller).0.phase then 1 else 0)
run-commits_once_example = run-commits_once stops

abbrev Loop : Type 0
Loop = AgentLoop ℕ ℕ ℕ

abbrev empty_loop : Loop
empty_loop = new_agent_loop

abbrev preempting : PushConfig
preempting = record { preempt = true; preempt_delay = pos 0; agent_cancel_opts = none }

push-Placed_example :
    PanicsOr
      (IsSealed empty_loop)
      (Placed empty_loop 4)
      (push 1 2 empty_loop 4 (with_config preempting))
push-Placed_example = push-Placed 1 2 empty_loop 4 (with_config preempting)

push_after_stop_example :
    UnlessPanic
      (λ r. r.1.accepted ≡ false)
      (push 2 3 (stop 1 empty_loop at_once) 4 (with_config preempting))
unfolding new_agent_loop
push_after_stop_example =
    push_after_stop 1 2 3 empty_loop at_once 4 (with_config preempting)
      (λ h. absurd (ground (arith, h))) refl refl
