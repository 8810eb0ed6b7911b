-- ===== src/Examples/Requests.antt =====
-- integrations/http/http.go with a small client: the world counts what was asked of it, a request with
-- the method POST cannot be sent, and every response is a 503.
use recourse.Common.{ℕ, ◌+◌, String, true, ◌≡◌, refl, ◌↔◌, [], Option, none, some, if◌then◌else◌}
use recourse.Common.Int.{pos, negsuc}
use recourse.Common.Text.{str_eq}
use recourse.Errors.{Err, new, errors_is}
use recourse.Classify.{Outcome, retryable}
use recourse.Classify.Http.{http_classifier}
use recourse.Classify.Http.Retries.{IsTransient, Is2xx}
use recourse.Integrations.Http.{
  HttpApi, Request, Response, Reply, got, failed_with, with_body, StatusError, atoi, seconds,
  retry_after, attempt_op,
}
use recourse.Integrations.Http.Attempts.{is_safe, attempt_decided, transport_decided}

atoi_plain : atoi "120" ≡ some (pos 120)
unfolding atoi
atoi_plain = refl

atoi_negative : atoi "-7" ≡ some (negsuc 6)
unfolding atoi
atoi_negative = refl

atoi_sign_only : atoi "+" ≡ none
unfolding atoi
atoi_sign_only = refl

atoi_date : atoi "Wed, 21 Oct 2015" ≡ none
unfolding atoi
atoi_date = refl

-- A wait of 584 years comes out as 0.29 s.
seconds_wrap : seconds 18446744074 ≡ pos 290448384
unfolding seconds
seconds_wrap = refl

abbrev unavailable_response : Response String ℕ
unavailable_response = record { status_code = pos 503; header = some "3"; response_body = 7 }

abbrev answer : Request ℕ ℕ → ℕ → Reply (Response String ℕ)
answer req w =
    if str_eq req.method "POST"
    then failed_with (new "connection reset")
    else got unavailable_response

-- The world grows by 1 for a request, by 4096 for a body that is read, and by 10000 for one that is closed.
abbrev api : HttpApi String ℕ ℕ
api = record {
  client_do = λ ctx req w. (answer req w, w + 1);
  copy_n = λ b n w. w + n;
  close = λ b w. w + 10000;
  header_get = λ h name. h;
  until_date = λ s w. none;
}

abbrev request : String → Request ℕ ℕ
request m = record {
  method = m;
  body = with_body 5;
  get_body = some (λ w. (got (with_body 5), w + 100));
}

abbrev too_busy : StatusError String
too_busy = record { status = pos 503; of_method = "GET"; headers = some "3"; cause = none }

retry_after_three : retry_after api too_busy 0 ≡ some (pos 3_000_000_000)
unfolding retry_after atoi seconds
retry_after_three = refl

abbrev kind_of : Option Err → Outcome
kind_of = http_classifier (λ d. "3s") (λ e. "*http.StatusError") none

attempt_decided_example :
    let (v, e, w2) = attempt_op api (request "GET") [] 0 in
    (Is2xx (pos 503) → (v ≡ some unavailable_response) × (e ≡ none) × (w2 ≡ 101))
    × ((¬ Is2xx (pos 503))
        → (v ≡ none)
          × (w2 ≡ 14197)
          × (((kind_of e).kind ≡ retryable)
              ↔ ((is_safe api (request "GET") ≡ true) × IsTransient none (pos 503))))
attempt_decided_example =
    attempt_decided api (λ d. "3s") (λ e. "*http.StatusError") none (request "GET") (request "GET")
      [] 0 100 101 unavailable_response refl refl

transport_decided_example :
    let (v, e, w2) = attempt_op api (request "POST") [] 0 in
    (v ≡ none)
    × (w2 ≡ 101)
    × (((kind_of e).kind ≡ retryable) ↔ (is_safe api (request "POST") ≡ true))
unfolding errors_is
transport_decided_example =
    transport_decided api (λ d. "3s") (λ e. "*http.StatusError") none (request "POST")
      (request "POST") [] 0 100 101 (new "connection reset") refl refl refl refl
