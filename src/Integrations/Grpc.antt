-- ===== src/Integrations/Grpc.antt =====
-- integrations/grpc/grpc.go. Package google.golang.org/grpc gives the status of an error:
-- `code_of` is `status.Code`, `from_error` is `status.FromError` with `none` for an error that carries
-- no status, and `code_text` is `Code.String`.
use recourse.Common.{
  String, Bool, true, false, ◌≡◌, refl, ◌↔◌, ◌⊎◌, List, [], ◌∷◌, Option, none, some, arith,
  if◌then◌else◌, ◌==◌, ◌||◌,
}
use Prim.Native.Char.{Char, code}
use Prim.Native.String.{◌++◌ as append}
use recourse.Common.Int.{ℤ, pos}
use recourse.Common.Text.{nil_append, cons_append}
use recourse.Policy.{PolicyKey}
use recourse.Errors.{Err}
use recourse.Classify.{Outcome, success, retryable, non_retryable, abort, outcome}
use recourse.Classify.Http.{auto_classifier}

-- The status codes of gRPC.
pub data Code : Type 0 where
  ok canceled unknown invalid_argument deadline_exceeded not_found already_exists : Code
  permission_denied resource_exhausted failed_precondition aborted out_of_range : Code
  unimplemented internal unavailable data_loss unauthenticated : Code

-- `strings.TrimPrefix(method, "/")`
unfoldable pub trim_slash : String → String
trim_slash String.[] = ""
trim_slash (String.◌∷◌ c s) = if code c == b'/' then s else String.◌∷◌ c s

with_first : Char → List String → List String
with_first c [] = String.◌∷◌ c "" ∷ []
with_first c (p ∷ ps) = String.◌∷◌ c p ∷ ps

-- `strings.Split(method, "/")`
unfoldable pub split_slash : String → List String
unfolding with_first
split_slash String.[] = "" ∷ []
split_slash (String.◌∷◌ c s) =
    let rest = split_slash s in if code c == b'/' then "" ∷ rest else with_first c rest

key_of_parts : String → List String → PolicyKey
key_of_parts method (service ∷ name ∷ []) = record { namespace = service; name = name }
key_of_parts method _ = record { namespace = ""; name = method }

-- `DefaultKeyFunc`.
unfoldable pub default_key_func : String → PolicyKey
unfolding key_of_parts
default_key_func method = let m = trim_slash method in key_of_parts m (split_slash m)

-- The switch on the code.
unfoldable pub code_outcome : Code → Outcome → Outcome
code_outcome unavailable out = record out { kind = retryable }
code_outcome resource_exhausted out = record out { kind = retryable }
code_outcome deadline_exceeded out = record out {
  kind = retryable;
  reason = "context_deadline_exceeded";
}
code_outcome canceled out = record out { kind = abort; reason = "context_canceled" }
code_outcome _ out = out

abbrev pub is_ok : Code → Bool
is_ok ok = true
is_ok _ = false

module _ (duration_string : ℤ → String) (type_string : Err → String) (code_of : Err → Code)
    (from_error : Err → Option Code) (code_text : Code → String) where
  unfoldable pub status_outcome : Err → Option Code → Outcome
  status_outcome e none = auto_classifier duration_string type_string (some e)
  status_outcome e (some c) = code_outcome c (record {
    kind = non_retryable;
    reason = append "grpc_" (code_text c);
    attributes = ("grpc_code", code_text c) ∷ [];
    backoff_override = pos 0;
  })

  -- `Classifier.Classify`.
  unfoldable pub grpc_classifier : Option Err → Outcome
  grpc_classifier none = outcome success "success"
  grpc_classifier (some e) =
      if is_ok (code_of e) then outcome success "success" else status_outcome e (from_error e)

  -- An error with the status code `c` is a success exactly where `c` is OK, is retried exactly on
  -- Unavailable, ResourceExhausted and DeadlineExceeded, and aborts the call exactly on Canceled.
  pub grpc_decides :
      (e : Err) (c : Code)
      → code_of e ≡ c
      → from_error e ≡ some c
      → let k = (grpc_classifier (some e)).kind in
        ((k ≡ success) ↔ (c ≡ ok))
        × ((k ≡ retryable)
            ↔ ((c ≡ unavailable) ⊎ ((c ≡ resource_exhausted) ⊎ (c ≡ deadline_exceeded))))
        × ((k ≡ abort) ↔ (c ≡ canceled))
  unfolding grpc_classifier status_outcome code_outcome
  grpc_decides e c is from = ground (arith, is, from)

unfoldable pub has_slash : String → Bool
has_slash String.[] = false
has_slash (String.◌∷◌ c s) = code c == b'/' || has_slash s

split-plain : (s : String) → has_slash s ≡ false → split_slash s ≡ s ∷ []
unfolding split_slash has_slash
split-plain String.[] h = refl
split-plain (String.◌∷◌ c s) h = ground (arith, h, split-plain s)

split-two :
    (s t : String)
    → has_slash s ≡ false
    → has_slash t ≡ false
    → split_slash (append s (append "/" t)) ≡ s ∷ t ∷ []
unfolding split_slash has_slash
split-two String.[] t h k =
    rw (nil_append (append "/" t), cons_append _ "" t, nil_append t) (rw (split-plain t k) refl)
split-two (String.◌∷◌ c s) t h k =
    rw (cons_append c s (append "/" t)) (ground (arith, h, split-two s t))

trim-slash : (s : String) → trim_slash (append "/" s) ≡ s
unfolding trim_slash
trim-slash s = rw (cons_append _ "" s, nil_append s) refl

-- The name of a method, `/service/name` with no other slash, gives the key of that service and name.
pub default_key_func_roundtrip :
    (service name : String)
    → has_slash service ≡ false
    → has_slash name ≡ false
    → default_key_func (append "/" (append service (append "/" name)))
      ≡ record { namespace = service; name = name }
unfolding default_key_func
default_key_func_roundtrip service name h k =
    rw (trim-slash (append service (append "/" name)), split-two service name h k) refl
