-- ===== src/AgentLoop/Preempt.antt =====
-- agentcore/agent_loop_preempt.go: preemptController, the requests to preempt a turn and the pushes
-- that are under way. The lock makes each method one step; an acknowledgement is a channel, known
-- by a number, and closing it is what acknowledges. The notify channel holds one token or none.
pub mod Acks
use harness_go.Base.{
  ℕ, zero, suc, Bool, true, false, not, ◌||◌, Option, none, some, List, [], ◌∷◌, ◌++◌, nat_beq,
  if◌then◌else◌, is_some,
}
use harness_go.Value.{add_int}
use harness_go.AgentLoop.{CancelOption, CancelRequestState, new_cancel_request_state, merge}

pub data TurnPhase : Type 0 where
  idle planning active : TurnPhase

abbrev pub is_idle : TurnPhase → Bool
is_idle idle = true
is_idle planning = false
is_idle active = false

abbrev pub is_planning : TurnPhase → Bool
is_planning idle = false
is_planning planning = true
is_planning active = false

abbrev pub is_active : TurnPhase → Bool
is_active idle = false
is_active planning = false
is_active active = true

pub record PreemptRequest : Type 0 where
  pub cancel : CancelRequestState
  pub ack_chans : List ℕ

abbrev pub ack_list : Option ℕ → List ℕ
ack_list none = []
ack_list (some a) = a ∷ []

abbrev options_or_none : Option (List CancelOption) → List CancelOption
options_or_none none = []
options_or_none (some os) = os

-- newPreemptRequest
unfoldable pub new_preempt_request : Option ℕ → Option (List CancelOption) → ℕ → PreemptRequest
unfolding new_cancel_request_state
new_preempt_request ack opts now = record {
  cancel = new_cancel_request_state (options_or_none opts) now;
  ack_chans = ack_list ack;
}

-- merge of a preemptRequest
unfoldable pub merge_request :
    PreemptRequest → Option ℕ → Option (List CancelOption) → ℕ → PreemptRequest
unfolding merge
merge_request r ack opts now = record {
  cancel = merge r.cancel opts now;
  ack_chans = r.ack_chans ++ ack_list ack;
}

abbrev pub merged :
    Option PreemptRequest → Option ℕ → Option (List CancelOption) → ℕ → PreemptRequest
merged none ack opts now = new_preempt_request ack opts now
merged (some r) ack opts now = merge_request r ack opts now

-- ack: the channels that it closes; a nil request has none
abbrev pub acks : Option PreemptRequest → List ℕ
acks none = []
acks (some r) = r.ack_chans

-- `ctx` and `tc` stand for the context of the turn and the turn itself.
pub record Snapshot (Ctx Tc : Type 0) : Type 0 where
  pub has_target_turn : Bool
  pub turn_id : ℕ
  pub ctx : Option Ctx
  pub tc : Option Tc

pub record PreemptController (Ctx Tc : Type 0) : Type 0 where
  pub turn_phase : TurnPhase
  pub turn_id : ℕ
  pub current_tc : Option Tc
  pub current_run_ctx : Option Ctx
  pub push_in_flight : ℕ
  pub pending : Option PreemptRequest
  pub notify : Bool
  pub closed : Bool

module _ {Ctx Tc : Type 0} where
  unfoldable pub new_preempt_controller : PreemptController Ctx Tc
  new_preempt_controller = record {
    turn_phase = idle;
    turn_id = 0;
    current_tc = none;
    current_run_ctx = none;
    push_in_flight = 0;
    pending = none;
    notify = false;
    closed = false;
  }

  -- beginPlanningTurn; none is a panic, here and below.
  unfoldable pub begin_planning_turn : PreemptController Ctx Tc → Option (PreemptController Ctx Tc)
  begin_planning_turn c =
      if not (is_idle c.turn_phase) || is_some c.pending
      then none
      else some (record c {
        turn_id = add_int c.turn_id 1;
        turn_phase = planning;
        current_run_ctx = none;
        current_tc = none;
      })

  -- the end of a turn in either phase, and the request that was pending
  abbrev pub to_idle : PreemptController Ctx Tc → PreemptController Ctx Tc × Option PreemptRequest
  to_idle c = (
    record c { turn_phase = idle; current_run_ctx = none; current_tc = none; pending = none },
    c.pending,
  )

  -- abortPlanningTurn
  unfoldable pub abort_planning_turn :
      PreemptController Ctx Tc → Option (PreemptController Ctx Tc × Option PreemptRequest)
  abort_planning_turn c = if is_planning c.turn_phase then some (to_idle c) else none

  -- beginActiveTurn
  unfoldable pub begin_active_turn :
      PreemptController Ctx Tc → Ctx → Tc → Option (PreemptController Ctx Tc)
  begin_active_turn c ctx tc =
      if is_planning c.turn_phase
      then some (record c {
        turn_phase = active;
        current_run_ctx = some ctx;
        current_tc = some tc;
        notify = is_some c.pending || c.notify;
      })
      else none

  -- endActiveTurn
  unfoldable pub end_active_turn :
      PreemptController Ctx Tc → Option (PreemptController Ctx Tc × Option PreemptRequest)
  end_active_turn c = if is_active c.turn_phase then some (to_idle c) else none

  -- beginPush
  unfoldable pub begin_push : PreemptController Ctx Tc → PreemptController Ctx Tc × Snapshot Ctx Tc
  begin_push c = (
    record c { push_in_flight = suc c.push_in_flight },
    record {
      has_target_turn = is_planning c.turn_phase || is_active c.turn_phase;
      turn_id = c.turn_id;
      ctx = c.current_run_ctx;
      tc = c.current_tc;
    },
  )

  abbrev one_less : PreemptController Ctx Tc → ℕ → Option (PreemptController Ctx Tc)
  one_less c zero = none
  one_less c (suc n) = some (record c { push_in_flight = n })

  -- endPush
  unfoldable pub end_push : PreemptController Ctx Tc → Option (PreemptController Ctx Tc)
  end_push c = one_less c c.push_in_flight

  -- waitForPushes waits while this is false.
  abbrev pub no_push : PreemptController Ctx Tc → Bool
  no_push c = nat_beq c.push_in_flight 0

  -- whether the request is for a turn that is not the current one
  abbrev pub too_late : PreemptController Ctx Tc → Snapshot Ctx Tc → Bool
  too_late c target =
      c.closed
      || (not target.has_target_turn
          || (is_idle c.turn_phase || not (nat_beq c.turn_id target.turn_id)))

  -- requestPreempt, with the acknowledgements that it closes
  unfoldable pub request_preempt :
      ℕ
      → PreemptController Ctx Tc
      → Snapshot Ctx Tc
      → Option ℕ
      → Option (List CancelOption)
      → PreemptController Ctx Tc × List ℕ
  unfolding new_preempt_request merge_request
  request_preempt now c target ack opts = if too_late c target then (c, ack_list ack) else (
    record c {
      pending = some (merged c.pending ack opts now);
      notify = is_active c.turn_phase || c.notify;
    },
    [],
  )

  -- receivePreempt
  unfoldable pub receive_preempt :
      PreemptController Ctx Tc → PreemptController Ctx Tc × Option PreemptRequest
  receive_preempt c =
      if not (is_active c.turn_phase) || not (is_some c.pending)
      then (c, none)
      else (record c { pending = none }, c.pending)

  -- closeForLoopExit, with the acknowledgements that it closes
  unfoldable pub close_for_loop_exit : PreemptController Ctx Tc → PreemptController Ctx Tc × List ℕ
  close_for_loop_exit c = (
    record c {
      closed = true;
      turn_phase = idle;
      current_run_ctx = none;
      current_tc = none;
      pending = none;
      notify = false;
    },
    acks c.pending,
  )
