-- ===== src/AgentLoop/Stop.antt =====
-- agentcore/agent_loop_stop.go: stopController, the stop of the whole loop. The lock makes each
-- method one step, and the notify channel holds one token or none.
pub mod Once
use harness_go.Base.{
  ℕ, String, ◌==◌, Bool, true, false, not, ◌&&◌, ◌||◌, Option, none, some, List, is_some,
  if◌then◌else◌,
}
use harness_go.Clock.{Duration, is_positive}
use harness_go.AgentLoop.{CancelOption, CancelRequestState, new_cancel_request_state, merge}

pub data StopPhase : Type 0 where
  stop_open stop_idle_waiting stop_committed : StopPhase

abbrev pub is_waiting : StopPhase → Bool
is_waiting stop_open = false
is_waiting stop_idle_waiting = true
is_waiting stop_committed = false

abbrev pub is_committed : StopPhase → Bool
is_committed stop_open = false
is_committed stop_idle_waiting = false
is_committed stop_committed = true

pub record StopConfig : Type 0 where
  pub agent_cancel_opts : Option (List CancelOption)
  pub skip_checkpoint : Bool
  pub stop_cause : String
  pub idle_for : Duration

pub record StopDecision : Type 0 where
  pub commit : Bool
  pub wake_idle : Bool

abbrev pub no_decision : StopDecision
no_decision = record { commit = false; wake_idle = false }

-- `idle_for` is none where the source's field is 0; a positive duration otherwise.
pub record StopController : Type 0 where
  pub phase : StopPhase
  pub has_active_cancel_target : Bool
  pub pending : Option CancelRequestState
  pub notify : Bool
  pub idle_for : Option Duration
  pub skip_checkpoint : Bool
  pub stop_cause : String
  pub closed : Bool

unfoldable pub new_stop_controller : StopController
new_stop_controller = record {
  phase = stop_open;
  has_active_cancel_target = false;
  pending = none;
  notify = false;
  idle_for = none;
  skip_checkpoint = false;
  stop_cause = "";
  closed = false;
}

-- commitLocked, and commit, which calls it
unfoldable pub commit : StopController → StopController × Bool
commit c =
    if c.closed || is_committed c.phase
    then (c, false)
    else (record c { phase = stop_committed; idle_for = none }, true)

-- the two settings that every request may make
abbrev with_settings : StopConfig → StopController → StopController
with_settings cfg c = record c {
  skip_checkpoint = cfg.skip_checkpoint || c.skip_checkpoint;
  stop_cause =
      if not (cfg.stop_cause == "") && c.stop_cause == "" then cfg.stop_cause else c.stop_cause;
}

-- a stop that waits until the loop has been idle
abbrev wait_idle : Duration → StopController → StopController
wait_idle d c =
    if not (is_committed c.phase) && not (is_some c.idle_for)
    then record c { phase = stop_idle_waiting; idle_for = some d }
    else c

abbrev merged : Option CancelRequestState → List CancelOption → ℕ → CancelRequestState
merged none opts now = new_cancel_request_state opts now
merged (some r) opts now = merge r (some opts) now

abbrev with_cancel : ℕ → Option (List CancelOption) → StopController → StopController
with_cancel now none c = c
with_cancel now (some opts) c = record c {
  pending = some (merged c.pending opts now);
  notify = c.has_active_cancel_target || c.notify;
}

-- requestStop, on a controller that is not closed
unfoldable pub request_open : ℕ → StopConfig → StopController → StopController × StopDecision
unfolding commit merge new_cancel_request_state
request_open now cfg c =
    let set = with_settings cfg c in
    if is_positive cfg.idle_for
    then (
      wait_idle cfg.idle_for set,
      record { commit = false; wake_idle = is_waiting (wait_idle cfg.idle_for set).phase },
    )
    else (
      with_cancel now cfg.agent_cancel_opts (commit set).0,
      record { commit = (commit set).1; wake_idle = false },
    )

-- requestStop
unfoldable pub request_stop : ℕ → StopConfig → StopController → StopController × StopDecision
unfolding request_open
request_stop now cfg c = if c.closed then (c, no_decision) else request_open now cfg c

-- idleDuration; none is 0.
unfoldable pub idle_duration : StopController → Option Duration
idle_duration c = if is_waiting c.phase then c.idle_for else none

-- beginActiveTurn
unfoldable pub begin_active_turn : StopController → StopController
begin_active_turn c =
    if c.closed
    then c
    else record c { has_active_cancel_target = true; notify = is_some c.pending || c.notify }

-- endActiveTurn
unfoldable pub end_active_turn : StopController → StopController × Option CancelRequestState
end_active_turn c = (record c { has_active_cancel_target = false; pending = none }, c.pending)

-- receiveCancel
unfoldable pub receive_cancel : StopController → StopController × Option CancelRequestState
receive_cancel c =
    if not c.has_active_cancel_target || not (is_some c.pending)
    then (c, none)
    else (record c { pending = none }, c.pending)

-- closeForLoopExit
unfoldable pub close_for_loop_exit : StopController → StopController
close_for_loop_exit c = record c {
  closed = true;
  has_active_cancel_target = false;
  pending = none;
  notify = false;
}
