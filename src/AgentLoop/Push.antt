-- ===== src/AgentLoop/Push.antt =====
-- agentcore/agent_loop_push.go and agentcore/agent_loop.go: Push and Stop on the state that they
-- share. A fresh acknowledgement is a number; a request that waits for its delay is kept in a list.
-- Each of the two runs to its end before another method does.
pub mod Accepted
use harness_go.Base.{
  ℕ, Bool, true, false, not, Option, none, some, List, [], ◌∷◌, ◌++◌, if◌then◌else◌,
}
use harness_go.Clock.{Duration, is_positive}
use harness_go.AgentLoop.{CancelOption}
use harness_go.AgentLoop.Buffer
use harness_go.AgentLoop.Buffer.{TurnBuffer, new_turn_buffer, try_send, wakeup}
use harness_go.AgentLoop.Preempt.{
  PreemptController, new_preempt_controller, Snapshot, begin_push, end_push, request_preempt,
}
use harness_go.AgentLoop.Stop.{
  StopConfig, StopController, StopDecision, new_stop_controller, request_stop, commit,
}

-- a preemption that waits for its delay
pub record Delayed (Ctx Tc : Type 0) : Type 0 where
  pub target : Snapshot Ctx Tc
  pub ack : ℕ
  pub opts : Option (List CancelOption)

pub record AgentLoop (T Ctx Tc : Type 0) : Type 0 where
  pub buffer : TurnBuffer T
  pub stopped : Bool
  pub started : Bool
  pub stop_ctrl : StopController
  pub preempt_ctrl : PreemptController Ctx Tc
  pub late_items : List T
  pub late_sealed : Bool
  pub delayed : List (Delayed Ctx Tc)

pub record PushConfig : Type 0 where
  pub preempt : Bool
  pub preempt_delay : Duration
  pub agent_cancel_opts : Option (List CancelOption)

-- The options of a push: a configuration, or a strategy that makes one from the current turn.
pub data PushOptions (Ctx Tc : Type 0) : Type 0 where
  with_config : PushConfig → PushOptions Ctx Tc
  with_strategy : (Option Ctx → Option Tc → PushConfig) → PushOptions Ctx Tc

-- what Push answers, and the acknowledgements that it closes on the way
pub record Pushed : Type 0 where
  pub accepted : Bool
  pub ack : Option ℕ
  pub released : List ℕ

abbrev pub not_accepted : Pushed
not_accepted = record { accepted = false; ack = none; released = [] }

abbrev pub plainly_accepted : Pushed
plainly_accepted = record { accepted = true; ack = none; released = [] }

-- the stop that Stop asks for; an idle stop has no options to cancel the agent
abbrev pub stop_config : StopConfig → StopConfig
stop_config cfg = if is_positive cfg.idle_for then record cfg { agent_cancel_opts = none } else cfg

module _ {T Ctx Tc : Type 0} where
  -- NewAgentLoop, with the functions of its configuration left out
  unfoldable pub new_agent_loop : AgentLoop T Ctx Tc
  unfolding new_turn_buffer new_stop_controller new_preempt_controller
  new_agent_loop = record {
    buffer = new_turn_buffer;
    stopped = false;
    started = false;
    stop_ctrl = new_stop_controller;
    preempt_ctrl = new_preempt_controller;
    late_items = [];
    late_sealed = false;
    delayed = [];
  }

  -- appendLate; none is the panic after TakeLateItems.
  unfoldable pub append_late : AgentLoop T Ctx Tc → T → Option (AgentLoop T Ctx Tc)
  append_late l item =
      if l.late_sealed then none else some (record l { late_items = l.late_items ++ item ∷ [] })

  abbrev as_late : Option (AgentLoop T Ctx Tc) → Option (AgentLoop T Ctx Tc × Pushed)
  as_late none = none
  as_late (some l) = some (l, not_accepted)

  -- `l.appendLate(item); return false, nil`
  abbrev pub late : AgentLoop T Ctx Tc → T → Option (AgentLoop T Ctx Tc × Pushed)
  late l item = as_late (append_late l item)

  -- the request to preempt, at once or after its delay
  abbrev pub ask :
      ℕ → ℕ → AgentLoop T Ctx Tc → Snapshot Ctx Tc → PushConfig → AgentLoop T Ctx Tc × Pushed
  ask now fresh l snapshot cfg =
      if not l.started
      then (l, record { accepted = true; ack = some fresh; released = fresh ∷ [] })
      else if is_positive cfg.preempt_delay
      then (
        record l {
          delayed =
              l.delayed
              ++ record { target = snapshot; ack = fresh; opts = cfg.agent_cancel_opts } ∷ [];
        },
        record { accepted = true; ack = some fresh; released = [] },
      )
      else let r = request_preempt now l.preempt_ctrl snapshot (some fresh) cfg.agent_cancel_opts in
        (
          record l { preempt_ctrl = r.0 },
          record { accepted = true; ack = some fresh; released = r.1 },
        )

  -- the deferred endPush
  abbrev with_end :
      AgentLoop T Ctx Tc
      → Pushed
      → Option (PreemptController Ctx Tc)
      → Option (AgentLoop T Ctx Tc × Pushed)
  with_end l p none = none
  with_end l p (some c) = some (record l { preempt_ctrl = c }, p)

  abbrev pub ended : Option (AgentLoop T Ctx Tc × Pushed) → Option (AgentLoop T Ctx Tc × Pushed)
  ended none = none
  ended (some (l, p)) = with_end l p (end_push l.preempt_ctrl)

  -- TrySend, and what follows a success
  abbrev pub sending :
      AgentLoop T Ctx Tc
      → T
      → (AgentLoop T Ctx Tc → AgentLoop T Ctx Tc × Pushed)
      → Option (AgentLoop T Ctx Tc × Pushed)
  sending l item follow =
      let r = try_send l.buffer item in
      if r.1 then some (follow (record l { buffer = r.0 })) else late l item

  abbrev pub accept : AgentLoop T Ctx Tc → AgentLoop T Ctx Tc × Pushed
  accept l = (l, plainly_accepted)

  -- pushWithConfig
  unfoldable pub push_with_config :
      ℕ → ℕ → AgentLoop T Ctx Tc → T → PushConfig → Option (AgentLoop T Ctx Tc × Pushed)
  unfolding append_late try_send begin_push request_preempt end_push
  push_with_config now fresh l item cfg =
      let begun = begin_push l.preempt_ctrl in
      let preempting = record l { preempt_ctrl = begun.0 } in
      if l.stopped
      then late l item
      else if cfg.preempt
      then ended (sending preempting item (λ m. ask now fresh m begun.1 cfg))
      else sending l item accept

  -- pushWithStrategy
  unfoldable pub push_with_strategy :
      ℕ
      → ℕ
      → AgentLoop T Ctx Tc
      → T
      → (Option Ctx → Option Tc → PushConfig)
      → Option (AgentLoop T Ctx Tc × Pushed)
  unfolding append_late try_send begin_push request_preempt end_push
  push_with_strategy now fresh l item strategy =
      let begun = begin_push l.preempt_ctrl in
      let m = record l { preempt_ctrl = begun.0 } in
      let cfg = strategy begun.1.ctx begun.1.tc in
      ended (
        if not cfg.preempt
        then sending m item accept
        else if m.stopped
        then late m item
        else sending m item (λ n. ask now fresh n begun.1 cfg))

  -- Push
  unfoldable pub push :
      ℕ → ℕ → AgentLoop T Ctx Tc → T → PushOptions Ctx Tc → Option (AgentLoop T Ctx Tc × Pushed)
  unfolding push_with_config push_with_strategy
  push now fresh l item (with_config cfg) = push_with_config now fresh l item cfg
  push now fresh l item (with_strategy strategy) = push_with_strategy now fresh l item strategy

  -- finishStopCommit
  unfoldable pub finish_stop_commit : AgentLoop T Ctx Tc → AgentLoop T Ctx Tc
  unfolding Buffer.close
  finish_stop_commit l = record l { stopped = true; buffer = Buffer.close l.buffer }

  abbrev pub decided : StopDecision → AgentLoop T Ctx Tc → AgentLoop T Ctx Tc
  decided d l =
      let m = if d.wake_idle then record l { buffer = wakeup l.buffer } else l in
      if d.commit then finish_stop_commit m else m

  -- Stop, without the timer that commits it after a time-out
  unfoldable pub stop : ℕ → AgentLoop T Ctx Tc → StopConfig → AgentLoop T Ctx Tc
  unfolding request_stop finish_stop_commit wakeup
  stop now l cfg =
      let r = request_stop now (stop_config cfg) l.stop_ctrl in
      decided r.1 (record l { stop_ctrl = r.0 })

  -- commitStop, which the timers call
  unfoldable pub commit_stop : AgentLoop T Ctx Tc → AgentLoop T Ctx Tc
  unfolding commit finish_stop_commit
  commit_stop l =
      let r = commit l.stop_ctrl in
      let m = record l { stop_ctrl = r.0 } in if r.1 then finish_stop_commit m else m
