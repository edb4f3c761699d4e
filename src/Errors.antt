-- ===== src/Errors.antt =====
-- The errors of graphengine/errors/errors.go and those that the engine makes by fmt.Errorf. A
-- formatted message is kept as the list of its parts.
use harness_go.Base.{ℕ, String, Bool, true, false, List}
use harness_go.Value.{Value}

pub data Err : Type 0 where
  empty_channel : Err
  invalid_update : List String → Err
  channel_not_found : String → Err
  node_not_found : String → Err
  recursion_limit_reached : ℕ → Err
  graph_interrupt : Err
  retry_exhausted : String → ℕ → Err → Value → Err  -- RetryExhaustedError
  no_error : Err  -- a nil error inside another
  cancelled : Err  -- ctx.Err()
  plain : List String → Err
  wrap : List String → Err → Err  -- fmt.Errorf with %w
  custom : ℕ → Err  -- any other error, such as a node function's

-- IsEmptyChannelError; it does not look inside a wrapped error.
abbrev pub is_empty_channel_error : Err → Bool
is_empty_channel_error empty_channel = true
is_empty_channel_error _ = false

-- A pair `(A, error)`.
pub data Result {ℓ} (A : Type ℓ) : Type ℓ where
  ok : A → Result A
  err : Err → Result A

infixl 5 ◌>>=◌
abbrev pub ◌>>=◌ {ℓ κ} : {A : Type ℓ} {B : Type κ} → Result A → (A → Result B) → Result B
ok a >>= f = f a
err e >>= f = err e

-- what a successful result satisfies
abbrev pub Ensures {ℓ κ} : {A : Type ℓ} → (A → Type κ) → Result A → Type κ
Ensures P (ok a) = P a
Ensures P (err e) = Unit
