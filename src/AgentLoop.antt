-- ===== src/AgentLoop.antt =====
-- agentcore/agent_loop_config.go: the requests to cancel a turn, which the controllers of the agent
-- loop merge while they wait, and the phases of a turn and of a stop. A cancel mode of
-- agentcore/cancel.go is the set of its two flags; the empty set is an immediate cancel.
pub mod Requests
pub mod Buffer
pub mod Preempt
pub mod Stop
pub mod Push
mod Tests
use harness_go.Base.{
  ℕ, ◌-◌, Bool, true, false, not, ◌&&◌, ◌||◌, Option, none, some, List, [], ◌∷◌, ◌++◌, ltb, leb,
  if◌then◌else◌,
}
use harness_go.Clock.{Duration, pos, is_positive, add_time}

pub record CancelMode : Type 0 where
  pub after_chat_model : Bool
  pub after_tool_calls : Bool

abbrev pub cancel_immediate : CancelMode
cancel_immediate = record { after_chat_model = false; after_tool_calls = false }

abbrev pub is_immediate : CancelMode → Bool
is_immediate m = not (m.after_chat_model || m.after_tool_calls)

-- `a | b`
abbrev pub either_mode : CancelMode → CancelMode → CancelMode
either_mode a b = record {
  after_chat_model = a.after_chat_model || b.after_chat_model;
  after_tool_calls = a.after_tool_calls || b.after_tool_calls;
}

pub record CancelConfig : Type 0 where
  pub mode : CancelMode
  pub recursive : Bool
  pub timeout : Option Duration

-- WithCancelMode, WithRecursiveCancel and WithCancelTimeout
pub data CancelOption : Type 0 where
  with_mode : CancelMode → CancelOption
  with_recursive : CancelOption
  with_timeout : Duration → CancelOption

abbrev pub apply_option : CancelOption → CancelConfig → CancelConfig
apply_option (with_mode m) c = record c { mode = m }
apply_option with_recursive c = record c { recursive = true }
apply_option (with_timeout d) c = record c { timeout = some d }

abbrev pub apply_options : List CancelOption → CancelConfig → CancelConfig
apply_options [] c = c
apply_options (o ∷ os) c = apply_options os (apply_option o c)

-- parseCancelOptions
unfoldable pub parse_cancel_options : List CancelOption → CancelConfig
parse_cancel_options os =
    apply_options os (record { mode = cancel_immediate; recursive = false; timeout = none })

-- cancelRequestState; the timeout of its configuration is always nil
pub record CancelRequestState : Type 0 where
  pub mode : CancelMode
  pub recursive : Bool
  pub deadline : Option ℕ

abbrev pub deadline_of : CancelMode → Option Duration → ℕ → Option ℕ
deadline_of mode none now = none
deadline_of mode (some d) now =
    if is_positive d && not (is_immediate mode) then some (add_time now d) else none

abbrev pub state_of : CancelConfig → ℕ → CancelRequestState
state_of c now = record {
  mode = c.mode;
  recursive = c.recursive;
  deadline = deadline_of c.mode c.timeout now;
}

-- newCancelRequestState
unfoldable pub new_cancel_request_state : List CancelOption → ℕ → CancelRequestState
unfolding parse_cancel_options
new_cancel_request_state os now = state_of (parse_cancel_options os) now

-- the earlier of two deadlines, where there are two
abbrev pub earlier : Option ℕ → Option ℕ → Option ℕ
earlier d none = d
earlier none (some e) = some e
earlier (some d) (some e) = if ltb e d then some e else some d

-- the body of merge
unfoldable pub merge_next : CancelRequestState → CancelRequestState → CancelRequestState
merge_next s next =
    let urgent = is_immediate s.mode || is_immediate next.mode in
    record {
      mode = if urgent then cancel_immediate else either_mode s.mode next.mode;
      recursive = if next.recursive then true else s.recursive;
      deadline = if urgent then none else earlier s.deadline next.deadline;
    }

-- merge, where the options may be nil
unfoldable pub merge : CancelRequestState → Option (List CancelOption) → ℕ → CancelRequestState
unfolding merge_next new_cancel_request_state
merge s none now = s
merge s (some os) now = merge_next s (new_cancel_request_state os now)

-- the mode and the timeout that are left at a time
abbrev pub remaining : CancelMode → Option ℕ → ℕ → CancelMode × Option Duration
remaining mode none now = (mode, none)
remaining mode (some d) now =
    if is_immediate mode
    then (mode, none)
    else if leb d now
    then (cancel_immediate, none)
    else (mode, some (pos (d - now)))

abbrev pub timeout_option : Option Duration → List CancelOption
timeout_option none = []
timeout_option (some d) = with_timeout d ∷ []

-- cancelOptions
unfoldable pub cancel_options : CancelRequestState → ℕ → List CancelOption
cancel_options s now =
    let left = remaining s.mode s.deadline now in
    with_mode left.0 ∷ (if s.recursive then with_recursive ∷ [] else []) ++ timeout_option left.1
