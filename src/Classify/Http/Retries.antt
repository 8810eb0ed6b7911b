-- ===== src/Classify/Http/Retries.antt =====
-- Which errors the built-in classifiers retry.
use recourse.Common.{String, Bool, true, false, ◌≡◌, ◌↔◌, ◌⊎◌, List, Option, some, arith}
use recourse.Common.Int.{ℤ, pos, ◌≤ℤ◌, ◌<ℤ◌}
use recourse.Common.Text.{trim_space, to_upper}
use recourse.Errors.{Err, context_canceled, context_deadline_exceeded, errors_is}
use recourse.Classify.{success, retryable, non_retryable}
use recourse.Classify.Http.{
  HttpInfo, as_http_error, is_idempotent_method, retryable_4xx, classify_status, http_classifier,
}

-- Status codes that are worth another attempt.
abbrev pub IsTransient : Option (List ℤ) → ℤ → Type 0
IsTransient extra s =
    (s ≡ pos 0)
    ⊎ (((pos 500 ≤ℤ s) × (s ≤ℤ pos 599))
        ⊎ ((s ≡ pos 408) ⊎ ((s ≡ pos 429) ⊎ (retryable_4xx extra s ≡ true))))

abbrev pub Is2xx : ℤ → Type 0
Is2xx s = (pos 200 ≤ℤ s) × (s <ℤ pos 300)

-- The method of a response, as the classifier compares it.
abbrev pub is_safe_method : HttpInfo → Bool
is_safe_method he = is_idempotent_method (to_upper (trim_space he.method))

module _ (duration_string : ℤ → String) (type_string : Err → String) where
  status_table :
      (extra : Option (List ℤ)) (he : HttpInfo)
      → let k = (classify_status duration_string type_string extra he).kind in
        ((k ≡ success) ↔ Is2xx he.status)
        × ((k ≡ retryable)
            ↔ ((is_safe_method he ≡ true) × IsTransient extra he.status × (¬ Is2xx he.status)))
  unfolding classify_status
  status_table extra he = ground arith

  status_three :
      (extra : Option (List ℤ)) (he : HttpInfo)
      → let k = (classify_status duration_string type_string extra he).kind in
        (k ≡ success) ⊎ ((k ≡ retryable) ⊎ (k ≡ non_retryable))
  unfolding classify_status
  status_three extra he = ground arith

  status-backoff :
      (extra : Option (List ℤ)) (he : HttpInfo)
      → let out = classify_status duration_string type_string extra he in
        (out.backoff_override ≡ pos 0)
        ⊎ ((out.kind ≡ retryable)
            × (pos 0 <ℤ out.backoff_override)
            × (he.retry_after ≡ some out.backoff_override))
  unfolding classify_status
  status-backoff extra he = ground arith

  at_status :
      (extra : Option (List ℤ)) (e : Err) (he : HttpInfo)
      → errors_is e context_canceled ≡ false
      → errors_is e context_deadline_exceeded ≡ false
      → as_http_error e ≡ some he
      → http_classifier duration_string type_string extra (some e)
        ≡ classify_status duration_string type_string extra he
  unfolding http_classifier
  at_status extra e he c d h = ground arith

  -- For an error that carries an HTTP status and is no context error, the classifier reports success
  -- exactly on 2xx, asks for a retry exactly on a transient status of a request whose method is
  -- idempotent, and gives up in every other case.
  pub http_classifier_decides :
      (extra : Option (List ℤ)) (e : Err) (he : HttpInfo)
      → errors_is e context_canceled ≡ false
      → errors_is e context_deadline_exceeded ≡ false
      → as_http_error e ≡ some he
      → let k = (http_classifier duration_string type_string extra (some e)).kind in
        ((k ≡ success) ↔ Is2xx he.status)
        × ((k ≡ retryable)
            ↔ ((is_safe_method he ≡ true) × IsTransient extra he.status × (¬ Is2xx he.status)))
        × ((k ≡ success) ⊎ ((k ≡ retryable) ⊎ (k ≡ non_retryable)))
  http_classifier_decides extra e he c d h =
      rw (at_status extra e he c d h)
        ((status_table extra he).0, (status_table extra he).1, status_three extra he)

  -- The wait that the server asks for is passed on only with a retry, and only if it is positive.
  pub http_classifier-backoff :
      (extra : Option (List ℤ)) (e : Err) (he : HttpInfo)
      → errors_is e context_canceled ≡ false
      → errors_is e context_deadline_exceeded ≡ false
      → as_http_error e ≡ some he
      → let out = http_classifier duration_string type_string extra (some e) in
        (out.backoff_override ≡ pos 0)
        ⊎ ((out.kind ≡ retryable)
            × (pos 0 <ℤ out.backoff_override)
            × (he.retry_after ≡ some out.backoff_override))
  http_classifier-backoff extra e he c d h =
      rw (at_status extra e he c d h) (status-backoff extra he)
