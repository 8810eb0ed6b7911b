-- ===== src/Integrations/Http/Attempts.antt =====
-- What one attempt of an HTTP request comes to, and what the classifier makes of it.
use recourse.Common.{
  inl, ℕ, ◌*◌, ◌<◌, ◌^◌, String, Bool, true, false, ◌≡◌, refl, ◌↔◌, List, Option, none, some, arith,
}
use recourse.Common.Int.{ℤ, pos}
use recourse.Common.Text.{is_empty, to_upper, trim_space}
use recourse.Errors.{Err, errors_is, context_canceled, context_deadline_exceeded}
use recourse.Classify.{retryable}
use recourse.Classify.Http.{HttpInfo, as_http_error, http_classifier, is_idempotent_method}
use recourse.Classify.Http.Retries.{IsTransient, Is2xx, is_safe_method, http_classifier_decides}
use recourse.Observe.Capture.{Context}
use recourse.Integrations.Http.{
  HttpApi, Request, Response, RequestBody, StatusError, Reply, got, failed_with, seconds, atoi,
  retry_after, as_error, after_do, with_clone, attempt_op,
}

pub seconds_small : (n : ℕ) → n * 1000000000 < 2 ^ 63 → seconds n ≡ pos (n * 1000000000)
unfolding seconds
seconds_small n h = ground arith

zero_is_no_2xx : ¬ Is2xx (pos 0)
zero_is_no_2xx ok = ground (arith, ok)

module _ {H B W : Type 0} (api : HttpApi H B W) where
  -- A header `Retry-After` that is a number of seconds is that time, if it fits 63 bits of nanoseconds.
  pub retry_after_seconds :
      (e : StatusError H) (h : H) (n : ℕ) (w : W)
      → e.headers ≡ some h
      → is_empty (api.header_get h "Retry-After") ≡ false
      → atoi (api.header_get h "Retry-After") ≡ some (pos n)
      → n * 1000000000 < 2 ^ 63
      → retry_after api e w ≡ some (pos (n * 1000000000))
  unfolding retry_after
  retry_after_seconds e h n w is full num small = rw (is, full, num, seconds_small n small) refl

  -- The request that an attempt sends: with a new body, where it can be got.
  abbrev to_send : Request B W → Reply (RequestBody B) × W → Reply (Request B W) × W
  to_send req (got b, w) = (got (record req { body = b }), w)
  to_send req (failed_with e, w) = (failed_with e, w)

  abbrev pub outgoing : Request B W → W → Reply (Request B W) × W
  outgoing req w = elim req.get_body [ none ↦ (got req, w) | some get ↦ to_send req (get w) ]

  clone_sends :
      (req out : Request B W) (ctx : Context) (r : Reply (RequestBody B) × W) (w0 : W)
      → to_send req r ≡ (got out, w0)
      → with_clone api ctx req r ≡ after_do api req (api.client_do ctx out w0)
  unfolding with_clone
  clone_sends req out ctx (got b, w) w0 h = cc
  clone_sends req out ctx (failed_with e, w) w0 h = cc

  attempt_sends :
      (req out : Request B W) (ctx : Context) (w w0 : W)
      → outgoing req w ≡ (got out, w0)
      → attempt_op api req ctx w ≡ after_do api req (api.client_do ctx out w0)
  unfolding attempt_op
  attempt_sends req out ctx w w0 h = ground (arith, h, clone_sends req out ctx)

  abbrev pub is_safe : Request B W → Bool
  is_safe req = is_idempotent_method (to_upper (trim_space req.method))

  after_ok :
      (req : Request B W) (w : W) (resp : Response H B)
      → Is2xx resp.status_code
      → after_do api req (got resp, w) ≡ (some resp, none, w)
  unfolding after_do
  after_ok req w resp ok = ground (arith, ok)

  abbrev status_error : Request B W → Response H B → StatusError H
  status_error req resp = record {
    status = resp.status_code;
    of_method = req.method;
    headers = resp.header;
    cause = none;
  }

  after_bad :
      (req : Request B W) (w : W) (resp : Response H B)
      → (¬ Is2xx resp.status_code)
      → let w' = api.close resp.response_body (api.copy_n resp.response_body 4096 w) in
        after_do api req (got resp, w) ≡ (none, some (as_error api (status_error req resp) w'), w')
  unfolding after_do
  after_bad req w resp bad = ground (arith, bad)

  module _ (duration_string : ℤ → String) (type_string : Err → String)
      (extra : Option (List ℤ)) where
    retries :
        (e : Err) (he : HttpInfo)
        → errors_is e context_canceled ≡ false
        → errors_is e context_deadline_exceeded ≡ false
        → as_http_error e ≡ some he
        → (¬ Is2xx he.status)
        → (((http_classifier duration_string type_string extra (some e)).kind ≡ retryable)
            ↔ ((is_safe_method he ≡ true) × IsTransient extra he.status))
    retries e he c d h not_ok =
        let table = (http_classifier_decides duration_string type_string extra e he c d h).1 in
        ((λ r. ((table.0 r).0, (table.0 r).1)), (λ s. table.1 (s.0, s.1, not_ok)))

    -- A response is returned, with its body untouched, exactly where its status is 2xx. On every other
    -- status up to 4096 bytes of the body are read, the body is closed, and the error is retried exactly where the
    -- status is transient and the method idempotent.
    pub attempt_decided :
        (req out : Request B W) (ctx : Context) (w w0 w1 : W) (resp : Response H B)
        → outgoing req w ≡ (got out, w0)
        → api.client_do ctx out w0 ≡ (got resp, w1)
        → let (v, e, w2) = attempt_op api req ctx w in
          (Is2xx resp.status_code → (v ≡ some resp) × (e ≡ none) × (w2 ≡ w1))
          × ((¬ Is2xx resp.status_code)
              → (v ≡ none)
                × (w2 ≡ api.close resp.response_body (api.copy_n resp.response_body 4096 w1))
                × (((http_classifier duration_string type_string extra e).kind ≡ retryable)
                    ↔ ((is_safe req ≡ true) × IsTransient extra resp.status_code)))
    unfolding after_do as_error as_http_error errors_is
    attempt_decided req out ctx w w0 w1 resp h done =
        rw (attempt_sends req out ctx w w0 h, done)
          (
            (λ ok. rw (after_ok req w1 resp ok) (refl, refl, refl)),
            (λ bad. rw (after_bad req w1 resp bad) (refl, refl, retries _ _ refl refl refl bad)),
          )

    -- A request that the client could not send, for a reason that is no end of the context, is retried
    -- exactly where its method is idempotent.
    pub transport_decided :
        (req out : Request B W) (ctx : Context) (w w0 w1 : W) (c : Err)
        → outgoing req w ≡ (got out, w0)
        → api.client_do ctx out w0 ≡ (failed_with c, w1)
        → errors_is c context_canceled ≡ false
        → errors_is c context_deadline_exceeded ≡ false
        → let (v, e, w2) = attempt_op api req ctx w in
          (v ≡ none)
          × (w2 ≡ w1)
          × (((http_classifier duration_string type_string extra e).kind ≡ retryable)
              ↔ (is_safe req ≡ true))
    unfolding after_do as_error as_http_error errors_is
    transport_decided req out ctx w w0 w1 c h done no_cancel no_deadline =
        rw (attempt_sends req out ctx w w0 h, done)
          (
            refl,
            refl,
            let both = retries _ _ no_cancel no_deadline refl zero_is_no_2xx in
                (λ r. (both.0 r).0, λ s. both.1 (s, inl refl)),
          )
