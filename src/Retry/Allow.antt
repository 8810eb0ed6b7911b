-- ===== src/Retry/Allow.antt =====
-- retry/budget.go: `allowAttempt`, for an executor that is not nil.
use recourse.Common.{ℕ, String, Bool, true, false, Option, none, some, if◌then◌else◌}
use recourse.Common.Text.{trim_space, is_empty}
use recourse.Common.Dict.{Dict}
use recourse.Policy.{PolicyKey, BudgetRef}
use recourse.Budget.{AttemptKind, Decision}
use recourse.Budget.Registry.{get}
use recourse.Retry.{
  FailureMode, mode_allow, mode_allow_unsafe, failure_mode_string, on_budget_decision, granted,
  Exit, Env, Config, M, ◌>>=◌, ◌>>◌, pure, emit, risky, recovering,
}

abbrev pub plain : Bool → String → Decision
plain allowed reason = record { allowed = allowed; reason = reason; release = none }

-- The reason that is filled in where the budget gives none.
unfoldable pub with_reason : Decision → Decision
with_reason d =
    if is_empty d.reason
    then record d { reason = if d.allowed then "allowed" else "budget_denied" }
    else d

-- A budget that `registry.Get` finds, or the reason why there is none to ask.
pub data Found (B : Type 0) : Type 0 where
  found : B → Found B
  missing : String → Found B

abbrev pub found_or : {B : Type 0} → (B → Bool) → Option B → Found B
found_or is_nil none = missing "budget_not_found"
found_or is_nil (some b) = if is_nil b then missing "budget_nil" else found b

unfoldable pub find_budget : {B : Type 0} → (B → Bool) → Option (Dict String B) → String → Found B
find_budget is_nil none name = missing "budget_registry_nil"
find_budget is_nil (some r) name = found_or is_nil (get name (some r))

abbrev pub allows_missing : FailureMode → Bool
allows_missing mode_allow = true
allows_missing mode_allow_unsafe = true
allows_missing _ = false

-- Where an allowed decision brings a release function, the executor owes its call.
abbrev pub note_grant : {W : Type 0} → Decision → M W (Unit {0})
note_grant d s = elim d.release [
  | none ↦ (Exit.returned tt, s)
  | some r ↦ if d.allowed then emit (granted r) s else (Exit.returned tt, s)
]

module _ {F V W B C : Type 0} (env : Env F V W B C) (cfg : Config B C) (key : PolicyKey) where
  -- The closure `emit`, with the mode of the event.
  report : ℕ → AttemptKind → BudgetRef → String → Decision → M W (Unit {0})
  report attempt kind ref mode d = emit (
      on_budget_decision (record {
        key = key;
        attempt = attempt;
        kind = kind;
        budget_name = ref.name;
        cost = ref.cost;
        mode = mode;
        allowed = d.allowed;
        reason = d.reason;
      }))

  -- The budget is missing: the mode decides.
  allow_missing : ℕ → AttemptKind → BudgetRef → String → M W Decision
  unfolding report
  allow_missing attempt kind ref reason = do
    let d = plain (allows_missing cfg.missing_budget_mode) reason
    report attempt kind ref (failure_mode_string cfg.missing_budget_mode) d
    pure d

  -- The budget is asked; a panic in it is a denial where panics are recovered.
  allow_found : B → ℕ → AttemptKind → BudgetRef → M W Decision
  unfolding report
  allow_found b attempt kind ref =
      recovering cfg.recover_panics
        (λ v. do
          let d = plain false "panic_in_budget"
          report attempt kind ref "standard" d
          pure d)
        (do
          answer ← risky (env.allow b key attempt kind ref)
          let d = with_reason answer
          note_grant d
          report attempt kind ref "standard" d
          pure d)

  allow_at : ℕ → AttemptKind → BudgetRef → Found B → M W Decision
  unfolding allow_missing allow_found
  allow_at attempt kind ref (missing reason) = allow_missing attempt kind ref reason
  allow_at attempt kind ref (found b) = allow_found b attempt kind ref

  -- `allowAttempt`; its second result is the decision's `allowed`.
  unfoldable pub allow_attempt : ℕ → AttemptKind → BudgetRef → M W Decision
  unfolding allow_at find_budget
  allow_attempt attempt kind ref =
      let name = trim_space ref.name in
      if is_empty name
      then pure (plain true "no_budget")
      else allow_at attempt kind (record { name = name; cost = ref.cost })
          (find_budget env.is_typed_nil cfg.budgets name)
