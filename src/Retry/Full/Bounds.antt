-- ===== src/Retry/Full/Bounds.antt =====
-- The full path's budget of calls and sleeps, and the balance of granted and released budgets.
use recourse.Common.{◌*◌, ℕ, List, Option, String}
use recourse.Common.Int.{ℤ, pos, ◌≤ℤ◌}
use recourse.Common.Dict.{string_eq}
use recourse.Common.Float.{Float}
use recourse.Policy.{PolicyKey, EffectivePolicy}
use recourse.Errors.{Err}
use recourse.Circuit.{Decision as CircuitDecision}
use recourse.Retry.{Exit, St, Env, Config}
use recourse.Retry.Verdict.{ClassifierMeta}
use recourse.Retry.Fast.Counts.{IsQuiet}
use recourse.Retry.Fast.Bounds.{Within}
use recourse.Retry.Full.{Shared, Group, Result}

-- A group that calls the operation at most `n` times, does not sleep, and calls what is granted in it
-- as often as it is granted. With the weight 0 the last part says nothing: so it is with a group that
-- has hedges, whose attempts may release after the group has returned.
abbrev pub IsFrugal : {V W : Type 0} → (ℕ → ℕ) → ℕ → Group V W → Type 0
IsFrugal {V} {W} weight n group =
    (attempt : ℕ) (backoff : ℤ) (s : St W) → Within weight n 0 s (group attempt backoff s).1

module _ {F V W B C : Type 0} ⦃fl : Float F⦄ (env : Env F V W B C) (cfg : Config B C)
    (sh : Shared W) (key : PolicyKey) (weight : ℕ → ℕ) where
  module _ (n : ℕ) (group : EffectivePolicy F → C → ClassifierMeta → Group V W)
      (few : (pol : EffectivePolicy F) (c : C) (meta : ClassifierMeta)
        → IsFrugal weight n (group pol c meta))
      (start : ℤ) where
    -- What a part of a call does whose policy asks for ten attempts at most.
    abbrev Bounded : St W → Exit (Result V) × St W → Type 0
    Bounded s r = Within weight (10 * n) 9 s r.1

  -- A resolved policy of at most ten attempts, after a quiet step.
  abbrev FewAttempts :
      St W → EffectivePolicy F × List (String × String) × Option Err → St W → Type 0
  FewAttempts s a s' = IsQuiet weight s s' × (a.0.retry.max_attempts ≤ℤ pos 10)
