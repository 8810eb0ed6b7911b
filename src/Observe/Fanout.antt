-- ===== src/Observe/Fanout.antt =====
-- observe/noop.go, observe/observers.go: the observers of the library. An observer is what each of its
-- seven methods does to the world; `F` is the type of `float64` values.
use recourse.Common.{String, ◌≡◌, refl, List, [], ◌∷◌, ◌++◌, Option, none, some}
use recourse.Policy.{PolicyKey, EffectivePolicy}
use recourse.Observe.{BudgetEvent, AttemptRecord, Timeline}

-- A callback of `Observer` with its arguments.
pub data Callback (F : Type 0) : Type 0 where
  on_start : PolicyKey → EffectivePolicy F → Callback F
  on_attempt : PolicyKey → AttemptRecord → Callback F
  on_hedge_spawn : PolicyKey → AttemptRecord → Callback F
  on_hedge_cancel : PolicyKey → AttemptRecord → String → Callback F
  on_budget_decision : BudgetEvent → Callback F
  on_success : PolicyKey → Timeline → Callback F
  on_failure : PolicyKey → Timeline → Callback F

-- `Observer`.
pub record Observer (F W : Type 0) : Type 0 where
  pub start : PolicyKey → EffectivePolicy F → W → W
  pub attempt : PolicyKey → AttemptRecord → W → W
  pub hedge_spawn : PolicyKey → AttemptRecord → W → W
  pub hedge_cancel : PolicyKey → AttemptRecord → String → W → W
  pub budget_decision : BudgetEvent → W → W
  pub success : PolicyKey → Timeline → W → W
  pub failure : PolicyKey → Timeline → W → W

-- The call of a method.
unfoldable pub notify : {F W : Type 0} → Observer F W → Callback F → W → W
notify o (on_start key pol) = o.start key pol
notify o (on_attempt key rec) = o.attempt key rec
notify o (on_hedge_spawn key rec) = o.hedge_spawn key rec
notify o (on_hedge_cancel key rec reason) = o.hedge_cancel key rec reason
notify o (on_budget_decision ev) = o.budget_decision ev
notify o (on_success key tl) = o.success key tl
notify o (on_failure key tl) = o.failure key tl

-- `NoopObserver` and `BaseObserver`.
unfoldable pub noop_observer : {F W : Type 0} → Observer F W
noop_observer = record {
  start = λ key pol w. w;
  attempt = λ key rec w. w;
  hedge_spawn = λ key rec w. w;
  hedge_cancel = λ key rec reason w. w;
  budget_decision = λ ev w. w;
  success = λ key tl w. w;
  failure = λ key tl w. w;
}

-- `for _, o := range m.Observers { if o != nil { … } }`; `none` is a nil observer.
unfoldable pub each : {F W : Type 0} → List (Option (Observer F W)) → (Observer F W → W → W) → W → W
each [] f w = w
each (none ∷ os) f w = each os f w
each (some o ∷ os) f w = each os f (f o w)

-- `MultiObserver`, method by method.
unfoldable pub multi_observer : {F W : Type 0} → List (Option (Observer F W)) → Observer F W
multi_observer os = record {
  start = λ key pol. each os (λ o. o.start key pol);
  attempt = λ key rec. each os (λ o. o.attempt key rec);
  hedge_spawn = λ key rec. each os (λ o. o.hedge_spawn key rec);
  hedge_cancel = λ key rec reason. each os (λ o. o.hedge_cancel key rec reason);
  budget_decision = λ ev. each os (λ o. o.budget_decision ev);
  success = λ key tl. each os (λ o. o.success key tl);
  failure = λ key tl. each os (λ o. o.failure key tl);
}

module _ {F W : Type 0} where
  each-append :
      (os ps : List (Option (Observer F W))) (f : Observer F W → W → W) (w : W)
      → each (os ++ ps) f w ≡ each ps f (each os f w)
  unfolding each
  each-append [] ps f w = refl
  each-append (none ∷ os) ps f w = each-append os ps f w
  each-append (some o ∷ os) ps f w = each-append os ps f (f o w)

  -- A multi-observer of two lists is a multi-observer of the two multi-observers: each callback
  -- reaches every observer that is not nil exactly once, in the order of the list, and nested
  -- multi-observers can be flattened.
  pub multi_observer-append :
      (os ps : List (Option (Observer F W))) (c : Callback F) (w : W)
      → notify (multi_observer (os ++ ps)) c w
        ≡ notify
            (multi_observer (some (multi_observer os) ∷ none ∷ some (multi_observer ps) ∷ []))
            c
            w
  unfolding notify multi_observer each
  multi_observer-append os ps (on_start key pol) w = each-append os ps (λ o. o.start key pol) w
  multi_observer-append os ps (on_attempt key rec) w = each-append os ps (λ o. o.attempt key rec) w
  multi_observer-append os ps (on_hedge_spawn key rec) w =
      each-append os ps (λ o. o.hedge_spawn key rec) w
  multi_observer-append os ps (on_hedge_cancel key rec reason) w =
      each-append os ps (λ o. o.hedge_cancel key rec reason) w
  multi_observer-append os ps (on_budget_decision ev) w =
      each-append os ps (λ o. o.budget_decision ev) w
  multi_observer-append os ps (on_success key tl) w = each-append os ps (λ o. o.success key tl) w
  multi_observer-append os ps (on_failure key tl) w = each-append os ps (λ o. o.failure key tl) w
