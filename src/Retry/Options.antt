-- ===== src/Retry/Options.antt =====
-- The options of an executor in retry/executor.go and retry/defaults.go: `NewExecutor`, the setters and
-- `NewDefaultExecutor`, over the constructor of Retry/Setup; and `getTracker`. `X` is the type of
-- providers that are not static, `O` of observers, `K` of clocks, `T` of triggers, `Q` of circuit
-- registries.
use recourse.Common.{
  String, Bool, true, false, ◌≡◌, refl, ◌∙◌, List, [], ◌∷◌, ◌++◌, Option, none, some, if◌then◌else◌,
  arith,
}
use recourse.Common.Int.{pos}
use recourse.Common.Dict.{Dict, string_eq, lookup, insert, lookup-insert}
use recourse.Common.Float.{Float}
use recourse.Policy.{PolicyKey, EffectivePolicy}
use recourse.Policy.Key.{key_eq}
use recourse.Policy.Options.{PolicyOption, new_from_key, new_policy}
use recourse.Controlplane.Static.{StaticProvider, find_policy}
use recourse.Classify.Registry.{register, register_builtins}
use recourse.Budget.Registry.{must_register}
use recourse.Hedge.Tracker.{Tracker, new_tracker}
use recourse.Retry.{FailureMode, mode_unknown, mode_fallback, normalize_failure_mode, Config}
use recourse.Retry.Setup.{ExecutorOptions, new_executor_from_options}

-- A provider: the library's static one, or another.
pub data Provider (F X : Type 0) : Type 0 where
  static : StaticProvider F → Provider F X
  provided : X → Provider F X

-- An observer or a clock: the library's own, or another.
pub data Chosen (A : Type 0) : Type 0 where
  standard : Chosen A
  custom : A → Chosen A

-- `executorConfig`: the options of Retry/Setup, the other fields of `ExecutorOptions`, and the static
-- policies.
pub record ExecutorConfig (F X O K B C T Q : Type 0) : Type 0 where
  pub opts : ExecutorOptions B C
  pub provider : Option (Provider F X)
  pub observer : Option (Chosen O)
  pub clock : Option K
  pub triggers : Option (Dict String T)
  pub circuits : Option Q
  pub missing_trigger_mode : FailureMode
  pub static_policies : Option (Dict PolicyKey (EffectivePolicy F))

-- `Executor`: the fields that Retry/Setup has, and the others.
pub record Executor (F X O K B C T Q : Type 0) : Type 0 where
  pub config : Config B C
  pub provider : Provider F X
  pub observer : Chosen O
  pub clock : Chosen K
  pub triggers : Dict String T
  pub circuits : Q
  pub missing_trigger_mode : FailureMode
  pub trackers : Dict PolicyKey Tracker

-- `getTracker`; the second look-up under the write lock sees what the first saw.
unfoldable pub get_tracker : PolicyKey → Dict PolicyKey Tracker → Tracker × Dict PolicyKey Tracker
get_tracker key trackers = elim (lookup key trackers) [
  | some t ↦ (t, trackers)
  | none ↦ (new_tracker (pos 256), insert key (new_tracker (pos 256)) trackers)
]

-- `isNoopObserver`.
unfoldable pub is_noop_observer : {O : Type 0} → Chosen O → Bool
is_noop_observer standard = true
is_noop_observer (custom o) = false

abbrev pub or_standard : {A : Type 0} → Option (Chosen A) → Chosen A
or_standard none = standard
or_standard (some a) = a

abbrev pub or_else : {A : Type 0} → A → Option A → A
or_else a none = a
or_else a (some b) = b

-- The policy that a provider of the library has under a key.
abbrev pub static_policy :
    {F X : Type 0} → ⦃fl : Float F⦄ → PolicyKey → Provider F X → Option (EffectivePolicy F)
static_policy key (static p) = find_policy key (some p)
static_policy key (provided x) = none

abbrev pub ExecutorOption : (F X O K B C T Q : Type 0) → Type 0
ExecutorOption F X O K B C T Q = ExecutorConfig F X O K B C T Q → ExecutorConfig F X O K B C T Q

module _ {F X O K B C T Q : Type 0} ⦃fl : Float F⦄ where
  abbrev pub with_provider : Option (Provider F X) → ExecutorOption F X O K B C T Q
  with_provider p c = record c { provider = p }

  abbrev pub with_observer : Option (Chosen O) → ExecutorOption F X O K B C T Q
  with_observer o c = record c { observer = o }

  abbrev pub with_clock : Option K → ExecutorOption F X O K B C T Q
  with_clock f c = record c { clock = f }

  abbrev pub with_classifiers : Option (Dict String C) → ExecutorOption F X O K B C T Q
  with_classifiers r c = record c { opts = record (c.opts) { classifiers = r } }

  abbrev pub with_default_classifier : Option C → ExecutorOption F X O K B C T Q
  with_default_classifier d c = record c { opts = record (c.opts) { default_classifier = d } }

  -- A new registry where there is none; the registry of the options is not shared here.
  unfoldable pub with_classifier : String → Option C → ExecutorOption F X O K B C T Q
  with_classifier name d c = record c {
    opts = record (c.opts) { classifiers = register name d (some (or_else [] c.opts.classifiers)) };
  }

  abbrev pub with_budget_registry : Option (Dict String B) → ExecutorOption F X O K B C T Q
  with_budget_registry r c = record c { opts = record (c.opts) { budgets = r } }

  abbrev pub with_hedge_trigger_registry : Option (Dict String T) → ExecutorOption F X O K B C T Q
  with_hedge_trigger_registry r c = record c { triggers = r }

  abbrev pub with_circuit_registry : Option Q → ExecutorOption F X O K B C T Q
  with_circuit_registry r c = record c { circuits = r }

  abbrev pub with_missing_policy_mode : FailureMode → ExecutorOption F X O K B C T Q
  with_missing_policy_mode m c = record c { opts = record (c.opts) { missing_policy_mode = m } }

  abbrev pub with_missing_classifier_mode : FailureMode → ExecutorOption F X O K B C T Q
  with_missing_classifier_mode m c = record c {
    opts = record (c.opts) { missing_classifier_mode = m };
  }

  abbrev pub with_missing_budget_mode : FailureMode → ExecutorOption F X O K B C T Q
  with_missing_budget_mode m c = record c { opts = record (c.opts) { missing_budget_mode = m } }

  abbrev pub with_recover_panics : Bool → ExecutorOption F X O K B C T Q
  with_recover_panics b c = record c { opts = record (c.opts) { recover_panics = b } }

  -- `c.staticPolicies[p.Key] = p`, in a new map where there is none.
  unfoldable pub add_policy : EffectivePolicy F → ExecutorOption F X O K B C T Q
  add_policy p c = record c {
    static_policies = some (insert p.key p (or_else [] c.static_policies));
  }

  unfoldable pub with_policy : String → List (PolicyOption F) → ExecutorOption F X O K B C T Q
  with_policy key os = add_policy (new_policy key os)

  unfoldable pub with_policy_key :
      PolicyKey → List (PolicyOption F) → ExecutorOption F X O K B C T Q
  with_policy_key key os = add_policy (new_from_key key os)

  -- `&executorConfig{}`
  abbrev pub empty_config : ExecutorConfig F X O K B C T Q
  empty_config = record {
    opts = record {
      classifiers = none;
      default_classifier = none;
      budgets = none;
      missing_policy_mode = mode_unknown;
      missing_classifier_mode = mode_unknown;
      missing_budget_mode = mode_unknown;
      recover_panics = false;
    };
    provider = none;
    observer = none;
    clock = none;
    triggers = none;
    circuits = none;
    missing_trigger_mode = mode_unknown;
    static_policies = none;
  }

  -- `for _, opt := range opts { opt(cfg) }`
  unfoldable pub apply_options :
      List (ExecutorOption F X O K B C T Q)
      → ExecutorConfig F X O K B C T Q
      → ExecutorConfig F X O K B C T Q
  apply_options [] c = c
  apply_options (o ∷ os) c = apply_options os (o c)

  -- A provider over the static policies, where no provider is set and there is a policy.
  unfoldable pub static_provider :
      EffectivePolicy F → ExecutorConfig F X O K B C T Q → ExecutorConfig F X O K B C T Q
  static_provider zero_pol c = elim c.provider [
    | some p ↦ c
    | none ↦ elim c.static_policies [
      | none ↦ c
      | some [] ↦ c
      | some (p ∷ ps) ↦ record c {
        provider = some (static (record { policies = some (p ∷ ps); default_policy = zero_pol }));
      }
    ]
  ]

  -- `NewExecutorFromOptions`, with the fields that Retry/Setup leaves out. `zero_pol` is the zero
  -- policy, and `fresh` a new circuit registry.
  unfoldable pub build :
      C → C → C → EffectivePolicy F → Q → ExecutorConfig F X O K B C T Q → Executor F X O K B C T Q
  build always http auto zero_pol fresh c = record {
    config = new_executor_from_options always http auto c.opts;
    provider = or_else (static (record { policies = none; default_policy = zero_pol })) c.provider;
    observer = or_standard c.observer;
    clock = elim c.clock [ none ↦ standard | some f ↦ custom f ];
    triggers = or_else [] c.triggers;
    circuits = or_else fresh c.circuits;
    missing_trigger_mode = normalize_failure_mode c.missing_trigger_mode mode_fallback;
    trackers = [];
  }

  -- `NewExecutor`.
  unfoldable pub new_executor :
      C
      → C
      → C
      → EffectivePolicy F
      → Q
      → List (ExecutorOption F X O K B C T Q)
      → Executor F X O K B C T Q
  new_executor always http auto zero_pol fresh os =
      build always http auto zero_pol fresh
        (static_provider zero_pol (apply_options os empty_config))

  -- The options that `NewDefaultExecutor` puts before those of its caller: the built-in classifiers,
  -- the budget without a limit, and the triggers.
  unfoldable pub default_options :
      C → C → C → B → T → T → T → T → List (ExecutorOption F X O K B C T Q)
  default_options always http auto unlimited fixed p90 p95 p99 =
      with_observer (some standard)
      ∷ with_classifiers (register_builtins always http auto (some []))
      ∷ with_default_classifier (some auto)
      ∷ with_budget_registry (must_register (λ b. false) "unlimited" (some unlimited) (some []))
      ∷ with_hedge_trigger_registry (
          some (
            insert "p99" p99 (insert "p95" p95 (insert "p90" p90 (insert "fixed_delay" fixed [])))))
      ∷ []

  -- `NewDefaultExecutor`.
  unfoldable pub new_default_executor :
      C
      → C
      → C
      → EffectivePolicy F
      → Q
      → B
      → T
      → T
      → T
      → T
      → List (ExecutorOption F X O K B C T Q)
      → Executor F X O K B C T Q
  new_default_executor always http auto zero_pol fresh unlimited fixed p90 p95 p99 os =
      new_executor always http auto zero_pol fresh
        (default_options always http auto unlimited fixed p90 p95 p99 ++ os)

  options-append :
      (os ps : List (ExecutorOption F X O K B C T Q)) (c : ExecutorConfig F X O K B C T Q)
      → apply_options (os ++ ps) c ≡ apply_options ps (apply_options os c)
  unfolding apply_options
  options-append [] ps c = refl
  options-append (o ∷ os) ps c = options-append os ps (o c)

  built_finds :
      (always http auto : C) (zero_pol : EffectivePolicy F) (fresh : Q) (key : PolicyKey)
      (c : ExecutorConfig F X O K B C T Q) (d : Option (Dict PolicyKey (EffectivePolicy F)))
      → c.provider ≡ none
      → c.static_policies ≡ d
      → static_policy key
          (build always http auto zero_pol fresh (static_provider zero_pol c)).provider
        ≡ lookup key (or_else [] d)
  unfolding build static_provider find_policy lookup
  built_finds always http auto zero_pol fresh key c none h g = ground (arith, h, g)
  built_finds always http auto zero_pol fresh key c (some []) h g = ground (arith, h, g)
  built_finds always http auto zero_pol fresh key c (some (p ∷ ps)) h g = ground (arith, h, g)

  -- An executor whose options set no provider finds, under the key of a policy that its last option
  -- adds, that policy, and under any other key what it would find without that option.
  pub new_executor-static :
      (always http auto : C) (zero_pol : EffectivePolicy F) (fresh : Q)
      (os : List (ExecutorOption F X O K B C T Q)) (p : EffectivePolicy F) (key : PolicyKey)
      → (apply_options os empty_config).provider ≡ none
      → static_policy key
          (new_executor always http auto zero_pol fresh (os ++ (add_policy p ∷ []))).provider
        ≡ (if key_eq.beq p.key key
            then some p
            else static_policy key (new_executor always http auto zero_pol fresh os).provider)
  unfolding new_executor add_policy apply_options
  new_executor-static always http auto zero_pol fresh os p key h =
      let c = apply_options os empty_config in
      let d = or_else [] c.static_policies in
      rw (options-append os (add_policy p ∷ []) empty_config) (
        rw (built_finds always http auto zero_pol fresh key c c.static_policies h refl) (
          built_finds always http auto zero_pol fresh key (add_policy p c) (some (insert p.key p d))
            h refl
          ∙ lookup-insert p.key key p d))
