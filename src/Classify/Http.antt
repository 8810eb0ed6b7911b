-- ===== src/Classify/Http.antt =====
-- classify/http.go and classify/auto.go. The texts of a duration and of a dynamic type, which only
-- fill attributes, come from the arguments `duration_string` and `type_string`.
pub mod Retries
use recourse.Common.{
  ℕ, String, Bool, true, false, List, [], ◌∷◌, Option, none, some, if◌then◌else◌, ◌&&◌, ◌||◌, ◌++◌,
}
use Prim.Native.String.{◌++◌ as append}
use recourse.Common.Int.{ℤ, pos, leb_ℤ, ltb_ℤ, ◌==ℤ◌}
use recourse.Common.Text.{str_eq, to_upper, trim_space, itoa}
use recourse.Errors.{
  Err, http, http_wrapping, context_canceled, context_deadline_exceeded, errors_is,
}
use recourse.Classify.{
  Outcome, OutcomeKind, success, retryable, non_retryable, abort, outcome, always_retry_on_error,
}

-- What an `HTTPError` tells.
pub record HttpInfo : Type 0 where
  pub status : ℤ
  pub method : String
  pub retry_after : Option ℤ

-- `err.(HTTPError)`
unfoldable pub as_http_error : Err → Option HttpInfo
as_http_error (http code method after) =
    some (record { status = code; method = method; retry_after = after })
as_http_error (http_wrapping code method after e) =
    some (record { status = code; method = method; retry_after = after })
as_http_error _ = none

unfoldable pub is_idempotent_method : String → Bool
is_idempotent_method m =
    str_eq m "GET"
    || str_eq m "HEAD"
    || str_eq m "PUT"
    || str_eq m "DELETE"
    || str_eq m "OPTIONS"
    || str_eq m "TRACE"

-- `HTTPClassifier.retryable4xx`; the set is a list, `none` for the nil map.
pub retryable_4xx : Option (List ℤ) → ℤ → Bool
retryable_4xx none status = false
retryable_4xx (some []) status = false
retryable_4xx (some (x ∷ xs)) status = x ==ℤ status || retryable_4xx (some xs) status

module _ (duration_string : ℤ → String) (type_string : Err → String) where
  -- The block that reads `RetryAfter`.
  with_retry_after : Option ℤ → Outcome → Outcome
  with_retry_after none out = out
  with_retry_after (some d) out =
      if ltb_ℤ (pos 0) d
      then record out {
        backoff_override = d;
        attributes = out.attributes ++ ("retry_after", duration_string d) ∷ [];
      }
      else out

  -- The part of `HTTPClassifier.Classify` below the type assertion.
  pub classify_status : Option (List ℤ) → HttpInfo → Outcome
  unfolding with_retry_after
  classify_status extra he =
      let status = he.status in
      let method = to_upper (trim_space he.method) in
      let idempotent = is_idempotent_method method in
      let out : Outcome = record {
        kind = non_retryable;
        reason = "http_non_retryable_status";
        attributes = ("status", itoa status) ∷ ("method", method) ∷ [];
        backoff_override = pos 0;
      } in
      let unsafe : Outcome = record out { kind = non_retryable; reason = "http_non_idempotent" } in
      if leb_ℤ (pos 200) status && ltb_ℤ status (pos 300)
      then record out { kind = success; reason = "success" }
      else if status ==ℤ pos 0
      then (if idempotent
          then record out { kind = retryable; reason = "http_transport_error" }
          else unsafe)
      else if leb_ℤ (pos 500) status && leb_ℤ status (pos 599)
      then (if idempotent then record out { kind = retryable; reason = "http_5xx" } else unsafe)
      else if status ==ℤ pos 408 || status ==ℤ pos 429 || retryable_4xx extra status
      then (if idempotent
          then with_retry_after he.retry_after
              (record out { kind = retryable; reason = append "http_" (itoa status) })
          else unsafe)
      else out

  classify_typed : Option (List ℤ) → Err → Option HttpInfo → Outcome
  classify_typed extra e none = record {
    kind = non_retryable;
    reason = "classifier_type_mismatch";
    attributes = ("expected_type", "classify.HTTPError") ∷ ("got_type", type_string e) ∷ [];
    backoff_override = pos 0;
  }
  classify_typed extra e (some he) = classify_status extra he

  -- `HTTPClassifier{Retryable4xx: extra}.Classify`.
  unfoldable pub http_classifier : Option (List ℤ) → Option Err → Outcome
  unfolding classify_typed classify_status as_http_error is_idempotent_method retryable_4xx
  http_classifier extra none = outcome success "success"
  http_classifier extra (some e) =
      if errors_is e context_canceled
      then outcome abort "context_canceled"
      else if errors_is e context_deadline_exceeded
      then outcome retryable "context_deadline_exceeded"
      else classify_typed extra e (as_http_error e)

  auto_at : Option Err → Option HttpInfo → Outcome
  unfolding http_classifier
  auto_at err none = always_retry_on_error err
  auto_at err (some he) = http_classifier none err

  -- `AutoClassifier.Classify`.
  unfoldable pub auto_classifier : Option Err → Outcome
  unfolding auto_at always_retry_on_error as_http_error
  auto_classifier none = always_retry_on_error none
  auto_classifier (some e) = auto_at (some e) (as_http_error e)
