-- ===== src/Retry/Full/Agreement.antt =====
-- The full path for a policy without hedges, circuit and budget does what the fast path does.
pub mod Attempts
pub mod Loops
use recourse.Common.{
  ℕ, zero, suc, ◌==◌, Bool, true, false, ◌≡◌, ◌≢◌, refl, ap, ◌∙◌, sym, String, List, [], ◌∷◌, ◌++◌,
  Option, none, some, arith, if◌then◌else◌, ◌&&◌, ◌||◌, ltb, Bool-cases, inl, inr,
}
use recourse.Common.Int.{ℤ, pos, ltb_ℤ, ◌-ℤ◌}
use recourse.Common.Float.{Float}
use recourse.Common.Text.{str_eq, is_empty, trim_space}
use recourse.Policy.{PolicyKey, RetryPolicy, EffectivePolicy}
use recourse.Errors.{Err}
use recourse.Classify.{OutcomeKind, success, retryable, non_retryable, abort, unknown, Outcome}
use recourse.Observe.{AttemptRecord}
use recourse.Policy.{BudgetRef}
use recourse.Budget.{AttemptKind, kind_retry}
use recourse.Retry.Allow.{allow_attempt, plain}
use recourse.Retry.{
  on_attempt, op_called, observed_latency, classified, Event, Exit, returned, panicked, St, Env,
  Config, M, ◌>>=◌, effect, emit,
}
use recourse.Retry.Backoff.{
  compute_sleep, apply_jitter, jitter_full, jitter_equal, cap_backoff, next_backoff,
}
use recourse.Retry.Verdict.{
  ClassifierMeta, annotate_classifier_fallback, terminal_error, complete_outcome, known_kind,
  classify_with_recovery,
}
use recourse.Retry.Fast.{
  Round, done, again, judge, stop_round, wait_round, run_attempt, release_after, after_result,
}
use recourse.Retry.Fast as Fast
use recourse.Retry.Full as Full
use recourse.Retry.Primary.{
  Sent, answer_of, primary_group, run_launched, after_decision, run_allowed, announce, after_op,
  after_verdict, record_attempt, boxed, budget_of, kind_of, shown_backoff,
}
use recourse.Retry.Full.{
  Shared, GroupResult, Turn, ended, next, Vars, report, finish_failure, finish_success, unboxed,
  end_success, report_failed, end_terminal, end_exhausted, after_sleep, sleep_between,
  after_failure, after_group, prefer_previous, is_terminal,
}

-- What a round comes to, without its timeline and its log.
pub data View (V : Type 0) : Type 0 where
  finished : V → View V
  failed : Err → View V
  goes_on : ℤ → View V
  crashed : String → View V

abbrev pub fast_view : {V W : Type 0} → Exit (Round V) × St W → View V × W
fast_view (returned (done v none), s) = (finished v, s.world)
fast_view (returned (done v (some e)), s) = (failed e, s.world)
fast_view (returned (again v e b), s) = (goes_on b, s.world)
fast_view (panicked u, s) = (crashed u, s.world)

abbrev pub full_view : {V W : Type 0} → Exit (Turn V) × St W → View V × W
full_view (returned (ended (v, tl, none)), s) = (finished v, s.world)
full_view (returned (ended (v, tl, some e)), s) = (failed e, s.world)
full_view (returned (next vars), s) = (goes_on vars.backoff, s.world)
full_view (panicked u, s) = (crashed u, s.world)

abbrev pub at : {W : Type 0} → W → List Event → St W
at w l = record { world = w; log = l }

abbrev pub is_denial : Outcome → Bool
is_denial out = str_eq out.reason "budget_denied"

pub bind_returned :
    {W A B : Type 0} (m : M W A) (k : A → M W B) (s : St W) (a : A) (s' : St W)
    → m s ≡ (returned a, s')
    → (m >>= k) s ≡ k a s'
bind_returned m k s a s' h = ground (arith, h)

module _ {F V W B C : Type 0} ⦃fl : Float F⦄ (env : Env F V W B C) (cfg : Config B C)
    (sh : Shared W) (key : PolicyKey) (still : (w : W) → (env.clock w).1 ≡ w) where
  -- The time that `computeSleep` gives, and the world after it.
  jitter_time : ℤ → String → W → ℤ × W
  jitter_time backoff kind w =
      let (r, w') = env.rand w in
      if str_eq kind "none" || str_eq kind ""
      then (backoff, w)
      else if str_eq kind "full"
      then (jitter_full backoff r, w')
      else if str_eq kind "equal"
      then (jitter_equal backoff r, w')
      else (backoff, w)

  sleep_time : ℤ → RetryPolicy F → Outcome → W → ℤ × W
  sleep_time backoff pol out w =
      if ltb_ℤ (pos 0) out.backoff_override
      then (cap_backoff out.backoff_override pol.max_backoff, w)
      else (let (d, w') = jitter_time backoff pol.jitter w in (cap_backoff d pol.max_backoff, w'))

  compute_sleep-time :
      (backoff : ℤ) (pol : RetryPolicy F) (out : Outcome) (w : W) (l : List Event)
      → let (d, w') = sleep_time backoff pol out w in
        compute_sleep env backoff pol out (at w l) ≡ (returned d, at w' l)
  unfolding compute_sleep apply_jitter sleep_time jitter_time
  compute_sleep-time backoff pol out w l = ground arith

  -- A failure with rounds left: both paths sleep for the same time and go on with the same backoff.
  waits_agree :
      (pol : RetryPolicy F) (v : V) (err : Option Err) (out : Outcome) (vars : Vars) (w : W)
      (l l' : List Event)
      → fast_view (wait_round env cfg key pol vars.backoff v err out (at w l))
        ≡ full_view (sleep_between env cfg sh key pol vars out (at w l'))
  unfolding wait_round sleep_between after_sleep finish_failure
  waits_agree pol v err out vars w l l' =
      let (d, w1) = sleep_time vars.backoff pol out w in
      let (serr, w2) = env.sleep d w1 in
      ground (
        arith,
        still w2,
        compute_sleep-time vars.backoff pol out w l,
        compute_sleep-time vars.backoff pol out w l',
      )

  -- A failure that ends the call ends it with the same error on both paths.
  stops_agree :
      (v : V) (err : Option Err) (out : Outcome) (vars : Vars) (w : W) (l l' : List Event)
      → fast_view (stop_round env cfg key v err out (at w l))
        ≡ full_view (
            end_exhausted env cfg sh key none vars
              (record { value = some v; err = err; outcome = out; won = false })
              (at w l'))
  unfolding stop_round end_exhausted report_failed report finish_failure terminal_error
  stops_agree v err out vars w l l' = let (ce, w1) = env.ctx_err w in ground (arith, still w1)

  terminal_agree :
      (v : V) (err : Option Err) (out : Outcome) (attempt : ℕ) (prev : Option Err) (vars : Vars)
      (w : W) (l l' : List Event)
      → is_denial out ≡ false
      → fast_view (stop_round env cfg key v err out (at w l))
        ≡ full_view (
            end_terminal env cfg sh key none attempt prev vars
              (record { value = some v; err = err; outcome = out; won = false })
              (at w l'))
  unfolding stop_round end_terminal report_failed report finish_failure terminal_error
      prefer_previous
  terminal_agree v err out attempt prev vars w l l' h =
      let (ce, w1) = env.ctx_err w in ground (arith, still w1, h)

  -- The variables of the loop after the group.
  abbrev seen_after : Vars → List AttemptRecord → Vars
  seen_after vars recs = record vars {
    tl = record (vars.tl) { attempts = vars.tl.attempts ++ recs };
  }

  -- The fast path's `switch` on an outcome, and what the full path makes of the group's answer.
  pub judge_agrees :
      (pol : RetryPolicy F) (last : Bool) (attempt : ℕ) (vars : Vars) (v : V) (err : Option Err)
      (out : Outcome) (recs : List AttemptRecord) (w : W) (l l' : List Event) (k : OutcomeKind)
      → out.kind ≡ k
      → k ≢ unknown
      → is_denial out ≡ false
      → fast_view (judge env cfg key pol last vars.backoff v err out (at w l))
        ≡ full_view (
            after_group env cfg sh key pol none last attempt vars
              (answer_of (record { value = some v; err = err; outcome = out }), recs)
              (at w l'))
  unfolding judge after_group after_failure end_success finish_success unboxed report
  judge_agrees pol last attempt vars v err out recs w l l' success h known named =
      ground (arith, h, still w)
  judge_agrees pol true attempt vars v err out recs w l l' retryable h known named =
      ground
        (arith, h, stops_agree v err out (record (seen_after vars recs) { last_err = err }) w l l')
  judge_agrees pol false attempt vars v err out recs w l l' retryable h known named = ground (
    arith,
    h,
    waits_agree pol v err out (record (seen_after vars recs) { last_err = err }) w l l',
  )
  judge_agrees pol last attempt vars v err out recs w l l' non_retryable h known named = ground (
    arith,
    h,
    terminal_agree v err out attempt vars.last_err
        (record (seen_after vars recs) { last_err = err }) w l l' named,
  )
  judge_agrees pol last attempt vars v err out recs w l l' abort h known named = ground (
    arith,
    h,
    terminal_agree v err out attempt vars.last_err
        (record (seen_after vars recs) { last_err = err }) w l l' named,
  )
  judge_agrees pol last attempt vars v err out recs w l l' unknown h known named =
      ground (arith, known refl)
