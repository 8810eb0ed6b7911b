-- ===== src/Examples/Full.antt =====
-- retry/executor.go on concrete calls of the full path, with a memory of breakers and of captures.
use recourse.Common.{
  ℕ, true, false, Bool, ◌≡◌, refl, [], ◌∷◌, some, none, Option, get_elem?, arith, length,
}
use recourse.Common.Int.{pos, ◌-ℤ◌}
use recourse.Policy.{EffectivePolicy}
use recourse.Errors.{Err}
use recourse.Classify.{outcome, success, always_retry_on_error}
use recourse.Circuit.{Breaker, open_state}
use recourse.Circuit.Registry.{Registry}
use recourse.Observe.{Timeline, AttemptRecord}
use recourse.Observe.Capture.{
  Captures, Context, capture_at, timeline, timeline_capture_from_context, store_timeline_capture,
}
use recourse.Retry.{Exit, returned, St, Env}
use recourse.Retry.Verdict.{
  ClassifierMeta, resolve_classifier, classify_with_recovery, annotate_classifier_fallback,
}
use recourse.Retry.Full.{
  Shared, Group, do_value_with_timeline, start_call, after_resolution, check_circuit,
  with_classifier, after_classifier, run_rounds, loop, round, after_context, after_group,
  after_round, end_success, finish_success, unboxed, report,
}
use recourse.Retry.Resolve.{
  resolve_policy_with_attributes, ask_provider_full, resolve_full_from, finish_full,
  policy_with_key_full,
}
use recourse.Policy.Normalize.{normalize}
use recourse.Policy.Defaults.{default_policy_for, is_zero_effective_policy}
use recourse.Common.Text.{trim_space}
use recourse.Common.Dict.{lookup}
use recourse.Budget.Registry.{get as budget_get}
use recourse.Retry.Allow.{allow_attempt, with_reason}
use recourse.Retry.Fast.{rounds_of, release_after}
use recourse.Retry.Full.Report.{IsTold}
use recourse.Retry.Full.Call.{do_value_with_timeline-IsTold}
use recourse.Retry.Full.Refusal.{IsMemory, Refused, check_circuit-Refused}
use recourse.Retry.Primary.{
  after_launched, primary_group, run_launched, budget_of, kind_of, shown_backoff, after_decision,
  run_allowed, announce, after_op, after_verdict, record_attempt, boxed,
}
use recourse.Retry.Primary.Silent.{primary_group-IsSilent}
use recourse.Retry.Call.{
  CaptureMemory, Operation, Groups, safe_env, publish, call_full, do_value_internal, captured_call,
}
use recourse.Examples.{thousandths, user_key}
use recourse.Examples.Calls.{Script, next_result, policy, granting, cfg}

-- What the operation does next, the breakers, and the holders of timelines.
pub record World : Type 0 where
  pub script : Script
  pub circuits : Registry
  pub captures : Captures

abbrev run_script : ℕ → World → Exit (ℕ × Option Err) × World
run_script attempt w =
    let (r, rest) = next_result w.script in
    (r, record { script = rest; circuits = w.circuits; captures = w.captures })

abbrev pub env : Env ℕ ℕ World ℕ ℕ
env = record {
  clock = λ w. (pos 0, w);
  ctx_err = λ w. (none, w);
  run_op = run_script;
  sleep = λ d w. (none, w);
  rand = λ w. (500, w);
  allow = λ b key attempt kind ref w. (returned granting, w);
  is_typed_nil = λ b. false;
  release = λ r w. w;
  classify = λ c v e w. (returned (always_retry_on_error e), w);
  get_policy = λ key w. (returned (policy, none), w);
  error_text = λ e. "error";
  zero_value = 0;
}

abbrev pub shared : Shared World
shared = record {
  now = λ w. (pos 50, w);
  circuits = λ w. w.circuits;
  with_circuits = λ r w. record { script = w.script; circuits = r; captures = w.captures };
}

abbrev holders : CaptureMemory World
holders = record {
  captures = λ w. w.captures;
  with_captures = λ cs w. record { script = w.script; circuits = w.circuits; captures = cs };
}

abbrev pub never_nil : ℕ → Bool
never_nil v = false

-- Every group returns the result of its attempt.
abbrev pub no_ending : ℕ → World → Option Err × World
no_ending attempt w = (none, w)

abbrev groups : EffectivePolicy ℕ → ℕ → ClassifierMeta → Group ℕ World
groups pol = primary_group env cfg never_nil user_key pol no_ending

-- A breaker that has opened at 20, for 100 ns.
abbrev opened : Breaker
opened = record {
  state = open_state;
  threshold = pos 5;
  cooldown = pos 100;
  max_probes = pos 1;
  consecutive_failures = pos 0;
  open_time = pos 20;
  probes_sent = pos 0;
  probes_successful = pos 0;
  probes_required = pos 1;
}

-- The operation succeeds at once.
abbrev pub start : St World
start = record {
  world = record {
    script = returned (7, none) ∷ [];
    circuits = record { breakers = (user_key, 0) ∷ []; store = opened ∷ [] };
    captures = none ∷ [];
  };
  log = [];
}

abbrev attempt_record : AttemptRecord
attempt_record = record {
  attempt = 0;
  start_time = pos 0;
  end_time = pos 0;
  is_hedge = false;
  hedge_index = 0;
  outcome = outcome success "success";
  err = none;
  backoff = pos 0;
  budget_allowed = true;
  budget_reason = "allowed";
}

abbrev pub told : Timeline
told = record {
  key = user_key;
  policy_id = "";
  start = pos 0;
  end_time = pos 0;
  attributes = [];
  attempts = attempt_record ∷ [];
  final_err = none;
}

succeeds :
    (do_value_with_timeline env cfg shared user_key groups start).0 ≡ returned (7, told, none)
unfolding do_value_with_timeline start_call after_resolution check_circuit with_classifier
    after_classifier run_rounds loop round after_context after_group after_round end_success
    finish_success unboxed report resolve_policy_with_attributes ask_provider_full resolve_full_from
    finish_full normalize policy_with_key_full after_launched is_zero_effective_policy
    default_policy_for resolve_classifier trim_space rounds_of primary_group run_launched budget_of
    kind_of shown_backoff after_decision run_allowed announce after_op after_verdict record_attempt
    boxed release_after allow_attempt with_reason classify_with_recovery
    annotate_classifier_fallback always_retry_on_error budget_get lookup ◌-ℤ◌
succeeds = refl

do_value_with_timeline-IsTold_example :
    IsTold told none start (do_value_with_timeline env cfg shared user_key groups start).1
do_value_with_timeline-IsTold_example =
    do_value_with_timeline-IsTold env cfg shared user_key groups start 7 told none
      (λ pol c meta. primary_group-IsSilent env cfg never_nil user_key pol no_ending c meta)
      succeeds

shared-IsMemory : IsMemory shared env.clock
shared-IsMemory = record {
  read_back = λ r w. refl;
  write_back = λ w. refl;
  now_keeps = λ w. refl;
  clock_keeps = λ w. refl;
}

abbrev guarded : EffectivePolicy ℕ
guarded = record (policy) {
  circuit = record { enabled = true; threshold = pos 5; cooldown = pos 100 };
}

check_circuit-Refused_example :
    let r = check_circuit env cfg shared user_key groups (pos 0) guarded [] start in
    Refused 0 open_state "circuit_open" start r
    × (get_elem? r.1.world.circuits.store 0 ≡ some opened)
unfolding lookup ◌-ℤ◌
check_circuit-Refused_example =
    check_circuit-Refused env cfg shared user_key groups (pos 0) guarded [] 0 opened start
      shared-IsMemory refl refl refl refl (omega arith)

-- A context that asks for the timeline.
abbrev asking : Context
asking = capture_at 0 ∷ []

abbrev scripted : Groups ℕ ℕ World ℕ ℕ
scripted e pol = primary_group e cfg never_nil user_key pol no_ending

abbrev operation : Operation ℕ World
operation ctx = run_script

captured :
    ((do_value_internal env cfg shared holders scripted true user_key operation asking false
        start).0
      ≡ returned (7, told, none))
    × (length
          (do_value_with_timeline
            (safe_env env cfg shared holders scripted true user_key operation asking)
            cfg
            shared
            user_key
            (scripted (safe_env env cfg shared holders scripted true user_key operation asking))
            start).1.world.captures
        ≡ 1)
unfolding do_value_with_timeline start_call after_resolution check_circuit with_classifier
    after_classifier run_rounds loop round after_context after_group after_round end_success
    finish_success unboxed report resolve_policy_with_attributes ask_provider_full resolve_full_from
    finish_full normalize policy_with_key_full after_launched is_zero_effective_policy
    default_policy_for resolve_classifier trim_space rounds_of primary_group run_launched budget_of
    kind_of shown_backoff after_decision run_allowed announce after_op after_verdict record_attempt
    boxed release_after allow_attempt with_reason classify_with_recovery
    annotate_classifier_fallback always_retry_on_error budget_get lookup ◌-ℤ◌
    timeline_capture_from_context safe_env do_value_internal call_full publish
    store_timeline_capture
captured = (refl, refl)

captured_call_example :
    let s' =
      (do_value_internal env cfg shared holders scripted true user_key operation asking false
        start).1 in
    IsTold told none start s' × (timeline (some 0) s'.world.captures ≡ some told)
unfolding timeline_capture_from_context
captured_call_example =
    captured_call env cfg shared holders scripted true user_key operation asking 0 false start 7
      told none refl (record { read_back = λ cs w. refl })
      (λ pol c meta.
        primary_group-IsSilent
          (safe_env env cfg shared holders scripted true user_key operation asking) cfg never_nil
          user_key pol no_ending c meta)
      (omega (arith, captured.1)) captured.0
