-- ===== src/Pregel/Retry.antt =====
-- graphengine/pregel/retry.go. A node function may answer differently at each attempt, so it is a
-- function of the attempt's number, from 1. A wait between attempts that the context ends is told
-- by `cancelled_after`. The duration of the waits is not modelled.
pub mod Attempts
use harness_go.Base.{
  ℕ, zero, suc, String, Bool, true, false, not, Option, none, some, [], ◌∷◌, leb, if◌then◌else◌,
}
use harness_go.Value.{Value, nil}
use harness_go.Errors.{Err, retry_exhausted, no_error, cancelled, plain, wrap, Result, ok, err}

-- types.RetryPolicy of graphengine/types/types.go, without the numbers of the backoff. A negative
-- number of attempts makes none, as 0 does.
pub record RetryPolicy : Type 0 where
  pub max_attempts : ℕ
  pub retry_on : Option (Err → Bool)

abbrev pub default_retry_on : Err → Bool
default_retry_on e = true

unfoldable pub default_retry_policy : RetryPolicy
default_retry_policy = record { max_attempts = 3; retry_on = some default_retry_on }

-- NewRetryExecutor
unfoldable pub policy_or_default : Option RetryPolicy → RetryPolicy
unfolding default_retry_policy
policy_or_default none = default_retry_policy
policy_or_default (some p) = p

-- `RetryOn != nil && !RetryOn(err)`
abbrev pub refuses : Option (Err → Bool) → Err → Bool
refuses none e = false
refuses (some f) e = not (f e)

-- a call of a node function: its output, and its error if it has one
pub data Answer : Type 0 where
  answers : Value → Option Err → Answer
  panics : String → Answer

module _ (name : String) (policy : RetryPolicy) (fn : ℕ → Answer) (cancelled_after : ℕ → Bool) where
  abbrev pub exhausted : Err → Value → Err
  exhausted e v = retry_exhausted name policy.max_attempts e v

  -- One round of the loop; `later` is what the rounds after it come to.
  abbrev pub round : Answer → ℕ → ℕ × Result Value → ℕ × Result Value
  round (panics message) attempt later =
      (1, err (plain ("node" ∷ name ∷ "panicked" ∷ message ∷ [])))
  round (answers v none) attempt later = (1, ok v)
  round (answers v (some e)) attempt later =
      if refuses policy.retry_on e
      then (1, err (wrap ("node" ∷ name ∷ "failed with non-retryable error" ∷ []) e))
      else if leb policy.max_attempts attempt
      then (1, err (exhausted e v))
      else if cancelled_after attempt
      then (1, err (wrap ("node" ∷ name ∷ "cancelled during retry" ∷ []) cancelled))
      else (suc later.0, later.1)

  -- The loop from the given attempt on, `rounds` rounds at most: how many calls of the function it
  -- made, and its result.
  unfoldable pub attempts : ℕ → ℕ → ℕ × Result Value
  attempts zero attempt = (0, err (exhausted no_error nil))
  attempts (suc rounds) attempt =
      let later = attempts rounds (suc attempt) in round (fn attempt) attempt later

  -- Execute: the calls made, and the result
  unfoldable pub execute : ℕ × Result Value
  unfolding attempts
  execute = attempts policy.max_attempts 1
