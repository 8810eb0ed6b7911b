-- ===== src/Retry.antt =====
-- Package retry: the executor. This module has the state that a call runs over, the effects that the
-- code calls, and the monad of a call that may panic.
pub mod Rules
pub mod Allow
pub mod Resolve
pub mod Backoff
pub mod Verdict
pub mod Fast
pub mod Full
pub mod Primary
pub mod Group
pub mod Call
pub mod Setup
pub mod Options
pub mod Global
use recourse.Common.{ℕ, String, Bool, true, false, List, [], ◌∷◌, Option, none, some, if◌then◌else◌}
use recourse.Common.Int.{ℤ}
use recourse.Common.Dict.{Dict}
use recourse.Policy.{PolicyKey, BudgetRef, EffectivePolicy}
use recourse.Errors.{Err}
use recourse.Classify.{OutcomeKind, Outcome}
use recourse.Observe.{BudgetEvent, AttemptRecord, Timeline}
use recourse.Budget.{AttemptKind, Decision}

-- `FailureMode` of retry/executor.go.
pub data FailureMode : Type 0 where
  mode_unknown mode_deny mode_allow mode_fallback mode_allow_unsafe : FailureMode

-- `failureModeString`.
unfoldable pub failure_mode_string : FailureMode → String
failure_mode_string mode_deny = "deny"
failure_mode_string mode_allow = "allow"
failure_mode_string mode_fallback = "fallback"
failure_mode_string mode_allow_unsafe = "allow_unsafe"
failure_mode_string mode_unknown = "unknown"

-- `normalizeFailureMode`.
unfoldable pub normalize_failure_mode : FailureMode → FailureMode → FailureMode
normalize_failure_mode mode_unknown default = default
normalize_failure_mode mode default = mode

-- How a Go call ends: it returns, or it panics with a value.
pub data Exit {ℓ} (A : Type ℓ) : Type ℓ where
  returned : A → Exit A
  panicked : String → Exit A

-- What a call does to the world around it, in the order in which it happens.
pub data Event : Type 0 where
  op_called : ℕ → Event
  slept : ℤ → Event
  granted : ℕ → Event
  released : ℕ → Event
  classified : OutcomeKind → Event
  on_budget_decision : BudgetEvent → Event
  observed_latency : PolicyKey → ℤ → Event
  -- The observer's callbacks; `OnStart` with the id of the policy.
  on_start : PolicyKey → String → Event
  on_attempt : PolicyKey → AttemptRecord → Event
  on_hedge_spawn : PolicyKey → AttemptRecord → Event
  on_success : PolicyKey → Timeline → Event
  on_failure : PolicyKey → Timeline → Event

-- The state of a call: the world, which only the effects touch, and the events so far, the latest
-- first.
pub record St (W : Type 0) : Type 0 where
  pub world : W
  pub log : List Event

-- The effects: what the executor calls that is no code of the program, or that its user supplies. `V`
-- is the type of the operation's values, `B` of budgets, `C` of classifiers.
pub record Env (F V W B C : Type 0) : Type 0 where
  -- `exec.clock()`
  pub clock : W → ℤ × W
  -- `ctx.Err()` of the context that carries the overall timeout
  pub ctx_err : W → Option Err × W
  -- `op(attemptCtx)` for an attempt
  pub run_op : ℕ → W → Exit (V × Option Err) × W
  -- `exec.sleep`
  pub sleep : ℤ → W → Option Err × W
  -- `rand.Float64()`
  pub rand : W → F × W
  -- `Budget.AllowAttempt` of a registered budget
  pub allow : B → PolicyKey → ℕ → AttemptKind → BudgetRef → W → Exit Decision × W
  pub is_typed_nil : B → Bool
  -- a budget's release function
  pub release : ℕ → W → W
  -- `Classifier.Classify`
  pub classify : C → V → Option Err → W → Exit Outcome × W
  -- `PolicyProvider.GetEffectivePolicy`
  pub get_policy : PolicyKey → W → Exit (EffectivePolicy F × Option Err) × W
  -- the text of a policy error, for an attribute
  pub error_text : Err → String
  -- Go's zero value of `V`
  pub zero_value : V

-- The fields of `Executor` that a call reads.
pub record Config (B C : Type 0) : Type 0 where
  pub budgets : Option (Dict String B)
  pub classifiers : Dict String C
  pub default_classifier : C
  pub missing_policy_mode : FailureMode
  pub missing_classifier_mode : FailureMode
  pub missing_budget_mode : FailureMode
  pub recover_panics : Bool

-- A piece of a call.
abbrev pub M : Type 0 → Type 0 → Type 0
M W A = St W → Exit A × St W

infixl 5 ◌>>=◌ ◌>>◌
abbrev pub ◌>>=◌ : {W A B : Type 0} → M W A → (A → M W B) → M W B
◌>>=◌ m f s = let (r, s') = m s in elim r [ returned a ↦ f a s' | panicked v ↦ (panicked v, s') ]

abbrev pub ◌>>◌ : {W A B : Type 0} → M W A → M W B → M W B
m >> k = m >>= λ _. k

abbrev pub pure : {W A : Type 0} → A → M W A
pure a s = (returned a, s)

-- Note an event.
abbrev pub emit : {W : Type 0} → Event → M W (Unit {0})
emit e s = (returned tt, record { world = s.world; log = e ∷ s.log })

-- An effect that returns.
abbrev pub effect : {W A : Type 0} → (W → A × W) → M W A
effect f s = let (a, w) = f s.world in (returned a, record { world = w; log = s.log })

-- An effect that may panic.
abbrev pub risky : {W A : Type 0} → (W → Exit A × W) → M W A
risky f s = let (r, w) = f s.world in (r, record { world = w; log = s.log })

-- `defer func() { if r := recover(); r != nil { … } }()`, when `recoverPanics` is set.
abbrev pub recovering : {W A : Type 0} → Bool → (String → M W A) → M W A → M W A
recovering on handler m s =
    let (r, s') = m s in
    elim r [
      | returned a ↦ (returned a, s')
      | panicked v ↦ if on then handler v s' else (panicked v, s')
    ]

-- `defer f()`: run on a return and on a panic alike.
abbrev pub deferring : {W A : Type 0} → (St W → St W) → M W A → M W A
deferring f m s = let (r, s') = m s in (r, f s')
