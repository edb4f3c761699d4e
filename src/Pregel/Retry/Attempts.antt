-- ===== src/Pregel/Retry/Attempts.antt =====
-- How often a node runs under a retry policy, and when it succeeds (graphengine/pregel/retry.go).
use native.Mathlib.Nat.{add-zero}
use harness_go.Base.{
  ℕ, zero, suc, ◌+◌, ◌≤◌, ◌<◌, String, ◌≡◌, refl, Bool, false, none, some, arith, lt→leb, le→leb,
  ◌∙◌, ap, subst,
}
use harness_go.Value.{Value}
use harness_go.Errors.{Err, retry_exhausted, Result, ok, err}
use harness_go.Pregel.Retry.{RetryPolicy, Answer, answers, refuses, attempts, execute}

shift : (a i : ℕ) → a + suc i ≡ suc a + i
shift a i = omega arith

-- one call more
abbrev pub count_one : ℕ × Result Value → ℕ × Result Value
count_one t = (suc t.0, t.1)

module _ (name : String) (policy : RetryPolicy) (fn : ℕ → Answer) (cancelled_after : ℕ → Bool) where
  abbrev run : ℕ → ℕ → ℕ × Result Value
  run = attempts name policy fn cancelled_after

  attempts-calls-le : (rounds attempt : ℕ) → (run rounds attempt).0 ≤ rounds
  unfolding attempts
  attempts-calls-le zero attempt = omega arith
  attempts-calls-le (suc rounds) attempt = ground (arith, attempts-calls-le rounds (suc attempt))

  -- A node runs at most as often as its policy allows.
  pub calls-le : (execute name policy fn cancelled_after).0 ≤ policy.max_attempts
  unfolding execute
  calls-le = attempts-calls-le policy.max_attempts 1

  -- an attempt that fails with an error that the policy repeats
  pub record IsFailed (attempt : ℕ) : Type 0 where
    pub output : Value
    pub error : Err
    pub fails : fn attempt ≡ answers output (some error)
    pub retryable : refuses policy.retry_on error ≡ false

  -- such an attempt, followed by a wait that is not cut off
  pub record IsRetried (attempt : ℕ) : Type 0 where
    pub failed : IsFailed attempt
    pub waited : cancelled_after attempt ≡ false

  retried-round :
      (rounds attempt : ℕ)
      → IsRetried attempt
      → attempt < policy.max_attempts
      → run (suc rounds) attempt ≡ count_one (run rounds (suc attempt))
  unfolding attempts
  retried-round rounds attempt r h =
      rw (r.failed.fails, r.failed.retryable, lt→leb attempt policy.max_attempts h, r.waited) refl

  attempts-succeeds :
      (k rounds attempt : ℕ) (v : Value)
      → attempt + rounds ≡ suc policy.max_attempts
      → k < rounds
      → ((i : ℕ) → i < k → IsRetried (attempt + i))
      → fn (attempt + k) ≡ answers v none
      → run rounds attempt ≡ (suc k, ok v)
  unfolding attempts
  attempts-succeeds k zero attempt v e h r s = absurd (omega arith)
  attempts-succeeds zero (suc rounds) attempt v e h r s =
      let now : fn attempt ≡ answers v none = rw add-zero at s in rw now refl
  attempts-succeeds (suc k) (suc rounds) attempt v e h r s =
      let ih =
        attempts-succeeds k rounds (suc attempt) v (omega arith) (omega arith)
          (λ i hi. subst IsRetried (shift attempt i) (r (suc i) (omega arith)))
          (rw (shift attempt k) at s) in
      retried-round rounds attempt (subst IsRetried (add-zero attempt) (r 0 (omega arith)))
        (omega arith)
      ∙ ap count_one ih

  exhausted-round :
      (rounds attempt : ℕ) (v : Value) (e : Err)
      → fn attempt ≡ answers v (some e)
      → refuses policy.retry_on e ≡ false
      → policy.max_attempts ≤ attempt
      → run (suc rounds) attempt ≡ (1, err (retry_exhausted name policy.max_attempts e v))
  unfolding attempts
  exhausted-round rounds attempt v e f r h = rw (f, r, le→leb policy.max_attempts attempt h) refl

  attempts-exhausted :
      (k attempt : ℕ) (v : Value) (e : Err)
      → attempt + k ≡ policy.max_attempts
      → ((i : ℕ) → i < k → IsRetried (attempt + i))
      → fn (attempt + k) ≡ answers v (some e)
      → refuses policy.retry_on e ≡ false
      → run (suc k) attempt ≡ (suc k, err (retry_exhausted name policy.max_attempts e v))
  attempts-exhausted zero attempt v e h r f s =
      exhausted-round zero attempt v e (rw add-zero at f) s (omega arith)
  attempts-exhausted (suc k) attempt v e h r f s =
      let ih =
        attempts-exhausted k (suc attempt) v e (omega arith)
          (λ i hi. subst IsRetried (shift attempt i) (r (suc i) (omega arith)))
          (rw (shift attempt k) at f) s in
      retried-round (suc k) attempt (subst IsRetried (add-zero attempt) (r 0 (omega arith)))
        (omega arith)
      ∙ ap count_one ih

  -- A node succeeds at attempt k + 1, with that attempt's output, if that attempt succeeds, the
  -- policy allows it, and each attempt before it failed with an error that is retried and was
  -- followed by a wait that was not cancelled.
  pub execute-succeeds :
      (k : ℕ) (v : Value)
      → k < policy.max_attempts
      → ((i : ℕ) → i < k → IsRetried (1 + i))
      → fn (1 + k) ≡ answers v none
      → execute name policy fn cancelled_after ≡ (suc k, ok v)
  unfolding execute
  execute-succeeds k v h r s = attempts-succeeds k policy.max_attempts 1 v (omega arith) h r s

  -- If each of the k + 1 attempts that the policy allows fails with an error that is retried, and no
  -- wait is cancelled, the function is called k + 1 times, and the error reports the last failure.
  pub execute-exhausted :
      (k : ℕ) (v : Value) (e : Err)
      → policy.max_attempts ≡ suc k
      → ((i : ℕ) → i < k → IsRetried (1 + i))
      → fn (1 + k) ≡ answers v (some e)
      → refuses policy.retry_on e ≡ false
      → execute name policy fn cancelled_after ≡ (suc k, err (retry_exhausted name (suc k) e v))
  unfolding execute
  execute-exhausted k v e h r f s =
      ap (λ n. run n 1) h
      ∙ attempts-exhausted k 1 v e (omega arith) r f s
      ∙ ap (λ n. (let p : ℕ × Result Value = (suc k, err (retry_exhausted name n e v)) in p)) h
