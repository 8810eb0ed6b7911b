-- ===== src/Retry/Verdict.antt =====
-- The classification of an attempt in retry/executor.go: `resolveClassifier`,
-- `annotateClassifierFallback`, `classifyWithRecovery`, `terminalError`.
use Prim.Native.String.{◌++◌ as append}
use recourse.Common.{
  String, Bool, true, false, [], ◌∷◌, ◌++◌, Option, none, some, if◌then◌else◌, ◌||◌,
}
use recourse.Common.Text.{trim_space, is_empty}
use recourse.Policy.{PolicyKey, EffectivePolicy}
use recourse.Errors.{
  Err, new, panic_error, no_classifier, context_canceled, context_deadline_exceeded, errors_is,
}
use recourse.Classify.{
  OutcomeKind, unknown, success, retryable, non_retryable, abort, Outcome, outcome,
}
use recourse.Classify.Registry.{get}
use recourse.Retry.{
  FailureMode, mode_deny, classified, Env, Config, M, ◌>>=◌, ◌>>◌, pure, emit, effect, risky,
  recovering,
}

-- `classifierMeta`.
pub record ClassifierMeta : Type 0 where
  pub requested : String
  pub not_found : Bool

abbrev is_deny : FailureMode → Bool
is_deny mode_deny = true
is_deny _ = false

module _ {B C : Type 0} (cfg : Config B C) where
  -- What follows the look-up. The classifier is `none` with an error.
  pick_classifier : String → Option C → Option C × ClassifierMeta × Option Err
  pick_classifier requested (some c) =
      (some c, record { requested = requested; not_found = false }, none)
  pick_classifier requested none =
      let meta : ClassifierMeta = record { requested = requested; not_found = true } in
      if is_deny cfg.missing_classifier_mode
      then (none, meta, some (no_classifier requested))
      else (some cfg.default_classifier, meta, none)

  -- `resolveClassifier`. The registry is the program's, so its look-up does not panic.
  unfoldable pub resolve_classifier :
      {F : Type 0} → EffectivePolicy F → Option C × ClassifierMeta × Option Err
  unfolding pick_classifier
  resolve_classifier pol =
      let requested = trim_space pol.retry.classifier_name in
      if is_empty requested
      then (some cfg.default_classifier, record { requested = requested; not_found = false }, none)
      else pick_classifier requested (get requested (some cfg.classifiers))

-- `annotateClassifierFallback`, for an outcome.
unfoldable pub annotate_classifier_fallback : ClassifierMeta → Outcome → Outcome
annotate_classifier_fallback meta out =
    if meta.not_found
    then (if is_empty meta.requested then out else record out {
      attributes =
          out.attributes
          ++ ("classifier_not_found", "true")
            ∷ ("classifier_name", meta.requested)
            ∷ ("classifier_fallback", "default")
            ∷ [];
    })
    else out

-- The reason that stands for a kind where the classifier gives none.
abbrev pub default_reason : OutcomeKind → String
default_reason success = "success"
default_reason retryable = "retryable_error"
default_reason non_retryable = "non_retryable_error"
default_reason abort = "abort"
default_reason unknown = "unknown_outcome"

abbrev pub known_kind : OutcomeKind → OutcomeKind
known_kind unknown = abort
known_kind kind = kind

-- The part of `classifyWithRecovery` after the classifier's answer.
unfoldable pub complete_outcome : Outcome → Outcome
complete_outcome out = record out {
  kind = known_kind out.kind;
  reason = if is_empty out.reason then default_reason out.kind else out.reason;
}

module _ {F V W B C : Type 0} (env : Env F V W B C) where
  unfoldable pub classify_with_recovery :
      Bool → C → V → Option Err → PolicyKey → M W (Outcome × Option Err)
  unfolding complete_outcome
  classify_with_recovery recover_panics classifier val err key =
      recovering recover_panics
        (λ v. pure (outcome abort "panic_in_classifier", some (panic_error "classifier" key v)))
        (do
          answer ← risky (env.classify classifier val err)
          let out = complete_outcome answer
          emit (classified out.kind)
          pure (out, none))

  abbrev is_context_error : Option Err → Bool
  is_context_error none = false
  is_context_error (some e) = errors_is e context_canceled || errors_is e context_deadline_exceeded

  abbrev own_error : Option Err → Outcome → Err
  own_error (some e) out = e
  own_error none out =
      if is_empty out.reason
      then new "recourse: operation failed"
      else new (append "recourse: " out.reason)

  -- `terminalError`, for a context that is not nil.
  unfoldable pub terminal_error : Option Err → Outcome → M W Err
  terminal_error err out = do
    cerr ← effect env.ctx_err
    pure (elim cerr [
      | none ↦ own_error err out
      | some ce ↦ if is_context_error err then ce else own_error err out
    ])
