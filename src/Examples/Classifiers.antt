-- ===== src/Examples/Classifiers.antt =====
-- classify/http.go and classify/registry.go on concrete errors and names.
use recourse.Common.{ℕ, String, true, ◌≡◌, refl, ◌↔◌, ◌⊎◌, [], ◌∷◌, Option, none, some}
use recourse.Common.Int.{ℤ, pos}
use recourse.Common.Dict.{Dict}
use recourse.Errors.{Err, http, wrapping, canceled, errors_is}
use recourse.Classify.{success, retryable, non_retryable, abort, Outcome}
use recourse.Classify.Http.{HttpInfo, as_http_error, http_classifier}
use recourse.Classify.Http.Retries.{Is2xx, IsTransient, is_safe_method, http_classifier_decides}

abbrev duration_text : ℤ → String
duration_text d = "5s"

abbrev type_text : Err → String
type_text e = "*errors.errorString"

-- The classifier with no further 4xx codes.
abbrev classifier : Option Err → Outcome
classifier = http_classifier duration_text type_text none

abbrev unavailable : Err
unavailable = http (pos 503) " get " (some (pos 5_000_000_000))

abbrev unavailable_info : HttpInfo
unavailable_info = record {
  status = pos 503;
  method = " get ";
  retry_after = some (pos 5_000_000_000);
}

http_classifier-canceled : (classifier (some (wrapping "call" canceled))).kind ≡ abort
unfolding http_classifier errors_is
http_classifier-canceled = refl

http_classifier_decides_example :
    (((classifier (some unavailable)).kind ≡ success) ↔ Is2xx (pos 503))
    × (((classifier (some unavailable)).kind ≡ retryable) ↔ (
        (is_safe_method unavailable_info ≡ true)
        × IsTransient none (pos 503)
        × (¬ Is2xx (pos 503))))
    × (((classifier (some unavailable)).kind ≡ success)
        ⊎ (((classifier (some unavailable)).kind ≡ retryable)
            ⊎ ((classifier (some unavailable)).kind ≡ non_retryable)))
unfolding errors_is as_http_error
http_classifier_decides_example =
    http_classifier_decides duration_text type_text none unavailable unavailable_info refl refl refl

abbrev seven : Option ℕ
seven = some 7

abbrev names : Dict String ℕ
names = ("http", 1) ∷ []
