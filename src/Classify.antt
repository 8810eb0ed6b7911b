-- ===== src/Classify.antt =====
-- classify/outcome.go, builtins.go, auto.go: outcomes and the built-in classifiers.
pub mod Http
pub mod Registry
use recourse.Common.{String, Bool, true, false, List, [], ◌∷◌, Option, none, some, if◌then◌else◌}
use recourse.Common.Int.{ℤ, pos}
use recourse.Errors.{Err, context_canceled, context_deadline_exceeded, errors_is}

pub data OutcomeKind : Type 0 where
  unknown success retryable non_retryable abort : OutcomeKind

-- `Outcome`; the attributes are the entries of the map, a later one for the same key in its place.
pub record Outcome : Type 0 where
  pub kind : OutcomeKind
  pub reason : String
  pub attributes : List (String × String)
  pub backoff_override : ℤ

-- An outcome with a kind and a reason only.
abbrev pub outcome : OutcomeKind → String → Outcome
outcome kind reason = record {
  kind = kind;
  reason = reason;
  attributes = [];
  backoff_override = pos 0;
}

-- `AlwaysRetryOnError.Classify`; no built-in classifier looks at the value.
unfoldable pub always_retry_on_error : Option Err → Outcome
always_retry_on_error none = outcome success "success"
always_retry_on_error (some e) =
    if errors_is e context_canceled
    then outcome abort "context_canceled"
    else if errors_is e context_deadline_exceeded
    then outcome retryable "context_deadline_exceeded"
    else outcome retryable "retryable_error"
