-- ===== src/Examples/Interceptors.antt =====
-- integrations/grpc/grpc.go on concrete methods and codes.
use recourse.Common.{◌≡◌, refl, ◌↔◌, ◌⊎◌, Option, some}
use Prim.Native.String.{◌++◌ as append}
use recourse.Errors.{Err, new}
use recourse.Classify.{Outcome, success, retryable, abort}
use recourse.Integrations.Grpc.{
  ok, canceled, unavailable, resource_exhausted, deadline_exceeded, grpc_classifier, grpc_decides,
  has_slash, default_key_func, default_key_func_roundtrip, split_slash, trim_slash,
}

key_of_path : default_key_func "/a/b/c" ≡ record { namespace = ""; name = "a/b/c" }
unfolding default_key_func split_slash trim_slash
key_of_path = refl

key_of_bare : default_key_func "Get" ≡ record { namespace = ""; name = "Get" }
unfolding default_key_func split_slash trim_slash
key_of_bare = refl

abbrev down : Err
down = new "rpc error: code = Unavailable"

-- The classifier, where every error has the status Unavailable.
abbrev classifier : Option Err → Outcome
classifier =
    grpc_classifier (λ d. "") (λ e. "*status.Error") (λ e. unavailable) (λ e. some unavailable)
      (λ c. "Unavailable")

grpc_decides_example :
    let k = (classifier (some down)).kind in
    ((k ≡ success) ↔ (unavailable ≡ ok))
    × ((k ≡ retryable) ↔ (
        (unavailable ≡ unavailable)
        ⊎ ((unavailable ≡ resource_exhausted) ⊎ (unavailable ≡ deadline_exceeded))))
    × ((k ≡ abort) ↔ (unavailable ≡ canceled))
grpc_decides_example =
    grpc_decides (λ d. "") (λ e. "*status.Error") (λ e. unavailable) (λ e. some unavailable)
      (λ c. "Unavailable") down unavailable refl refl

default_key_func_roundtrip_example :
    default_key_func (append "/" (append "users.Users" (append "/" "Get")))
    ≡ record { namespace = "users.Users"; name = "Get" }
unfolding has_slash
default_key_func_roundtrip_example = default_key_func_roundtrip "users.Users" "Get" refl refl
