-- ===== src/Errors.antt =====
-- The `error` values that the program makes or looks into: those of package `context`, of
-- controlplane/errors.go and retry/executor.go, plain and wrapping errors, and errors that implement
-- `classify.HTTPError`.
use recourse.Common.{String, Bool, true, false, Option, ◌||◌}
use recourse.Common.Int.{ℤ}
use recourse.Policy.{PolicyKey}

-- The errors that are compared by identity.
pub data Sentinel : Type 0 where
  context_canceled context_deadline_exceeded : Sentinel
  policy_not_found provider_unavailable policy_fetch_failed : Sentinel
  err_no_policy hedging_requires_timeline : Sentinel

-- `http` is an error that implements `HTTPError`: status code, method, and what `RetryAfter`
-- returns; `http_wrapping` has an `Unwrap` method as well.
pub data Err : Type 0 where
  sentinel : Sentinel → Err
  new : String → Err
  wrapping : String → Err → Err
  http : ℤ → String → Option ℤ → Err
  http_wrapping : ℤ → String → Option ℤ → Err → Err
  no_policy : PolicyKey → Err → Err
  no_classifier : String → Err
  circuit_open : String → String → Err
  panic_error : String → PolicyKey → String → Err
  invalid_policy : String → String → Err

abbrev pub canceled : Err
canceled = sentinel context_canceled

abbrev pub deadline_exceeded : Err
deadline_exceeded = sentinel context_deadline_exceeded

pub sentinel_eq : Sentinel → Sentinel → Bool
sentinel_eq context_canceled context_canceled = true
sentinel_eq context_deadline_exceeded context_deadline_exceeded = true
sentinel_eq policy_not_found policy_not_found = true
sentinel_eq provider_unavailable provider_unavailable = true
sentinel_eq policy_fetch_failed policy_fetch_failed = true
sentinel_eq err_no_policy err_no_policy = true
sentinel_eq hedging_requires_timeline hedging_requires_timeline = true
sentinel_eq _ _ = false

-- `errors.Is(err, target)` at a sentinel: the chain of `Unwrap`, with `NoPolicyError.Is`.
unfoldable pub errors_is : Err → Sentinel → Bool
unfolding sentinel_eq
errors_is (sentinel s) t = sentinel_eq s t
errors_is (new m) t = false
errors_is (wrapping m e) t = errors_is e t
errors_is (http code method after) t = false
errors_is (http_wrapping code method after e) t = errors_is e t
errors_is (no_policy key e) t = sentinel_eq t err_no_policy || errors_is e t
errors_is (no_classifier name) t = false
errors_is (circuit_open state reason) t = false
errors_is (panic_error component key value) t = false
errors_is (invalid_policy field value) t = false
