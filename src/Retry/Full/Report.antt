-- ===== src/Retry/Full/Report.antt =====
-- What the observer is told of a call on the full path, and what the caller gets.
use recourse.Common.{
  ℕ, zero, suc, ◌==◌, Bool, true, false, ◌≡◌, refl, ap, ◌∙◌, ◌++◌, String, List, [], ◌∷◌, Option,
  none, some, arith, if◌then◌else◌,
}
use recourse.Common.Int.{ℤ}
use recourse.Common.Float.{Float}
use recourse.Policy.{PolicyKey, RetryPolicy}
use recourse.Errors.{Err}
use recourse.Classify.{Outcome, OutcomeKind}
use recourse.Circuit.{Breaker}
use recourse.Circuit.{Decision as CircuitDecision}
use recourse.Observe.{AttemptRecord, Timeline}
use recourse.Retry.{Event, on_success, on_failure, Exit, returned, St, Env, Config, M}
use recourse.Retry.Rules.{bind_rule}
use recourse.Retry.Verdict.{terminal_error}
use recourse.Retry.Backoff.{compute_sleep}
use recourse.Retry.Full.{
  Shared, GroupResult, Group, Result, Vars, Turn, ended, next, with_breaker, report, finish_failure,
  finish_success, end_early, unboxed, end_success, report_failed, end_terminal, end_exhausted,
  after_sleep, sleep_between, after_failure, after_group, after_context, round, after_round, loop,
}

-- How many ends of a call a log tells the observer, and the latest: whether it is a success, and the
-- timeline.
unfoldable pub reports : List Event → ℕ
reports [] = 0
reports (on_success key tl ∷ l) = suc (reports l)
reports (on_failure key tl ∷ l) = suc (reports l)
reports (_ ∷ l) = reports l

unfoldable pub last_report : List Event → Option (Bool × Timeline)
last_report [] = none
last_report (on_success key tl ∷ l) = some (true, tl)
last_report (on_failure key tl ∷ l) = some (false, tl)
last_report (_ ∷ l) = last_report l

abbrev pub is_none : Option Err → Bool
is_none none = true
is_none (some e) = false

-- The observer has been told of one end, with the timeline and the error that the call returns.
pub record IsTold {W : Type 0} (tl : Timeline) (e : Option Err) (s s' : St W) : Type 0 where
  pub final : tl.final_err ≡ e
  pub once : reports s'.log ≡ suc (reports s.log)
  pub latest : last_report s'.log ≡ some (is_none e, tl)

-- A group tells of no end.
abbrev pub IsSilent : {V W : Type 0} → Group V W → Type 0
IsSilent {V} {W} group =
    (attempt : ℕ) (backoff : ℤ) (s : St W) → reports (group attempt backoff s).1.log ≡ reports s.log

-- What a call says that returns this result.
abbrev pub Told :
    {V W : Type 0} → V → Timeline → Option Err → St W → Exit (Result V) × St W → Type 0
Told v tl e s r = r.0 ≡ returned (v, tl, e) → IsTold tl e s r.1

module _ {F V W B C : Type 0} ⦃fl : Float F⦄ (env : Env F V W B C) (cfg : Config B C)
    (sh : Shared W) (key : PolicyKey) where
  pub report_silent :
      (f : ℤ → Breaker → Breaker) (cb : Option ℕ) (s : St W)
      → ((report sh f cb s).0 ≡ returned tt) × ((report sh f cb s).1.log ≡ s.log)
  unfolding report with_breaker
  report_silent f none s = (refl, refl)
  report_silent f (some a) s = (refl, refl)

  pub report_failed_silent :
      (cb : Option ℕ) (kind : OutcomeKind) (s : St W)
      → ((report_failed env cfg sh key cb kind s).0 ≡ returned tt)
        × ((report_failed env cfg sh key cb kind s).1.log ≡ s.log)
  unfolding report_failed
  report_failed_silent cb kind s =
      ground (arith, report_silent recourse.Circuit.record_failure cb s)

  -- The log of a silent step.
  terminal_error_silent :
      (err : Option Err) (out : Outcome) (s : St W) → (terminal_error env err out s).1.log ≡ s.log
  unfolding terminal_error
  terminal_error_silent err out s = refl

  compute_sleep_silent :
      (backoff : ℤ) (pol : RetryPolicy F) (out : Outcome) (s : St W)
      → (compute_sleep env backoff pol out s).1.log ≡ s.log
  unfolding compute_sleep
  compute_sleep_silent backoff pol out s = ground arith

  module _ (v : V) (tl : Timeline) (e : Option Err) where
    failure_tells :
        (t : Timeline) (x : Err) (s : St W)
        → Told v tl e s (finish_failure env cfg sh key t (some x) s)
    unfolding finish_failure reports last_report
    failure_tells t x s = ground arith

    pub early_tells :
        (start : ℤ) (id : String) (attrs : List (String × String)) (x : Err) (s : St W)
        → Told v tl e s (end_early env cfg sh key start id attrs x s)
    unfolding end_early reports last_report
    early_tells start id attrs x s = ground arith

  module _ (v : V) (tl : Timeline) (e : Option Err) (vars' : Vars) where
    -- What a round says.
    abbrev pub Tells : Bool → St W → Exit (Turn V) × St W → Type 0
    Tells last s r =
        (r.0 ≡ returned (ended (v, tl, e)) → IsTold tl e s r.1)
        × (r.0 ≡ returned (next vars') → (last ≡ false) × (reports r.1.log ≡ reports s.log))

    choice-Tells :
        (b last : Bool) (s : St W) (m k : M W (Turn V))
        → Tells last s (m s)
        → Tells last s (k s)
        → Tells last s ((if b then m else k) s)
    choice-Tells true last s m k x y = x
    choice-Tells false last s m k x y = y

    success-Tells :
        (last : Bool) (cb : Option ℕ) (vars : Vars) (res : GroupResult V) (s : St W)
        → Tells last s (end_success env cfg sh key cb vars res s)
    unfolding end_success finish_success unboxed reports last_report
    success-Tells last cb vars res s =
        ground (arith, report_silent recourse.Circuit.record_success cb s)

    terminal-Tells :
        (last : Bool) (cb : Option ℕ) (attempt : ℕ) (prev : Option Err) (vars : Vars)
        (res : GroupResult V) (s : St W)
        → Tells last s (end_terminal env cfg sh key cb attempt prev vars res s)
    unfolding end_terminal finish_failure reports last_report terminal_error
    terminal-Tells last cb attempt prev vars res s =
        ground (arith, report_failed_silent cb res.outcome.kind s)

    exhausted-Tells :
        (last : Bool) (cb : Option ℕ) (vars : Vars) (res : GroupResult V) (s : St W)
        → Tells last s (end_exhausted env cfg sh key cb vars res s)
    unfolding end_exhausted finish_failure reports last_report terminal_error
    exhausted-Tells last cb vars res s = ground (arith, report_failed_silent cb res.outcome.kind s)

    sleep-Tells :
        (pol : RetryPolicy F) (vars : Vars) (out : Outcome) (s : St W)
        → Tells false s (sleep_between env cfg sh key pol vars out s)
    unfolding sleep_between after_sleep finish_failure reports last_report
    sleep-Tells pol vars out s = ground (arith, compute_sleep_silent vars.backoff pol out s)

    after_failure-Tells :
        (pol : RetryPolicy F) (cb : Option ℕ) (last : Bool) (attempt : ℕ) (prev : Option Err)
        (vars : Vars) (res : GroupResult V) (s : St W)
        → Tells last s (after_failure env cfg sh key pol cb last attempt prev vars res s)
    unfolding after_failure
    after_failure-Tells pol cb last attempt prev vars res s = ground (
      arith,
      terminal-Tells last cb attempt prev vars res s,
      exhausted-Tells last cb vars res s,
      sleep-Tells pol vars res.outcome s,
    )

    after_group-Tells :
        (pol : RetryPolicy F) (cb : Option ℕ) (last : Bool) (attempt : ℕ) (vars : Vars)
        (answer : GroupResult V × List AttemptRecord) (s : St W)
        → Tells last s (after_group env cfg sh key pol cb last attempt vars answer s)
    unfolding after_group
    after_group-Tells pol cb last attempt vars (res, recs) s =
        let seen : Vars = record vars {
          tl = record (vars.tl) { attempts = vars.tl.attempts ++ recs };
        } in
        choice-Tells res.won last s (end_success env cfg sh key cb seen res)
          (after_failure env cfg sh key pol cb last attempt vars.last_err
            (record seen { last_err = res.err }) res)
          (success-Tells last cb seen res s)
          (after_failure-Tells pol cb last attempt vars.last_err
            (record seen { last_err = res.err }) res s)

    context-Tells :
        (group : Group V W) (pol : RetryPolicy F) (cb : Option ℕ) (last : Bool) (attempt : ℕ)
        (vars : Vars) (cerr : Option Err) (s : St W)
        → IsSilent group
        → Tells last s (after_context env cfg sh key group pol cb last attempt vars cerr s)
    unfolding after_context
    context-Tells group pol cb last attempt vars (some x) s quiet =
        ground (arith, failure_tells v tl e vars.tl x s)
    context-Tells group pol cb last attempt vars none s quiet =
        let s2 = (group attempt vars.last_backoff s).1 in
        bind_rule (Tells last s) (group attempt vars.last_backoff)
          (after_group env cfg sh key pol cb last attempt vars) s
          (λ answer h. ground (
            arith,
            quiet attempt vars.last_backoff s,
            after_group-Tells pol cb last attempt vars answer s2,
          ))
          (λ u h. ground arith)

    pub round-Tells :
        (group : Group V W) (pol : RetryPolicy F) (cb : Option ℕ) (last : Bool) (attempt : ℕ)
        (vars : Vars) (s : St W)
        → IsSilent group
        → Tells last s (round env cfg sh key group pol cb last attempt vars s)
    unfolding round
    round-Tells group pol cb last attempt vars s quiet =
        let (cerr, w) = env.ctx_err s.world in
        ground (
          arith,
          context-Tells group pol cb last attempt vars cerr (record { world = w; log = s.log })
              quiet,
        )

  module _ (v : V) (tl : Timeline) (e : Option Err) where
    after_round_tells :
        (rest : Vars → M W (Result V)) (t : Turn V) (s s1 : St W)
        → (t ≡ ended (v, tl, e) → IsTold tl e s s1)
        → ((vars : Vars) → t ≡ next vars → Told v tl e s (rest vars s1))
        → (after_round env cfg sh key rest t s1).0 ≡ returned (v, tl, e)
        → IsTold tl e s (after_round env cfg sh key rest t s1).1
    unfolding after_round
    after_round_tells rest (ended (v', tl', e')) s s1 h g = ground arith
    after_round_tells rest (next vars) s s1 h g = g vars refl

    -- A loop tells what it returns, if what follows its first round does.
    step_tells :
        (group : Group V W) (pol : RetryPolicy F) (cb : Option ℕ) (left attempt : ℕ) (vars : Vars)
        (s : St W)
        → IsSilent group
        → ((vars' : Vars) (s' : St W)
            → (left == 0) ≡ false
            → Told v tl e s' (loop env cfg sh key group pol cb left (suc attempt) vars' s'))
        → Told v tl e s (loop env cfg sh key group pol cb (suc left) attempt vars s)
    unfolding loop
    step_tells group pol cb left attempt vars s quiet ih =
        let this = round env cfg sh key group pol cb (left == 0) attempt vars in
        let s1 = (this s).1 in
        bind_rule (Told v tl e s) this
          (after_round env cfg sh key (loop env cfg sh key group pol cb left (suc attempt))) s
          (λ t h.
            after_round_tells (loop env cfg sh key group pol cb left (suc attempt)) t s s1
              (λ d.
                (round-Tells v tl e vars group pol cb (left == 0) attempt vars s quiet).0
                  (h ∙ ap returned d))
              (λ vars' d.
                let (more, same) =
                  (round-Tells v tl e vars' group pol cb (left == 0) attempt vars s quiet).1
                    (h ∙ ap returned d) in
                λ r. ground (arith, ih vars' s1 more r, same)))
          (λ u h. ground arith)

    pub loop_tells :
        (group : Group V W) (pol : RetryPolicy F) (cb : Option ℕ) (left attempt : ℕ) (vars : Vars)
        (s : St W)
        → IsSilent group
        → Told v tl e s (loop env cfg sh key group pol cb (suc left) attempt vars s)
    loop_tells group pol cb zero attempt vars s quiet =
        step_tells group pol cb zero attempt vars s quiet (λ vars' s' h. ground (arith, h))
    loop_tells group pol cb (suc left) attempt vars s quiet =
        step_tells group pol cb (suc left) attempt vars s quiet
          (λ vars' s' h. loop_tells group pol cb left (suc attempt) vars' s' quiet)
