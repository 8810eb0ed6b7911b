-- ===== src/Retry/Full/Agreement/Attempts.antt =====
-- A round of one attempt on the fast path and on the full path.
use recourse.Common.{
  ℕ, Bool, true, false, ◌≡◌, ◌≢◌, refl, ap, ◌∙◌, sym, String, List, [], ◌∷◌, ◌++◌, Option, none,
  some, arith, if◌then◌else◌,
}
use recourse.Common.Int.{ℤ, ◌-ℤ◌}
use recourse.Common.Float.{Float}
use recourse.Common.Text.{is_empty, trim_space}
use recourse.Policy.{PolicyKey, EffectivePolicy}
use recourse.Errors.{Err}
use recourse.Classify.{OutcomeKind, success, retryable, non_retryable, abort, unknown, Outcome}
use recourse.Observe.{AttemptRecord}
use recourse.Policy.{BudgetRef}
use recourse.Budget.{AttemptKind, kind_retry}
use recourse.Retry.Allow.{allow_attempt, plain}
use recourse.Retry.{
  on_attempt, op_called, observed_latency, classified, Event, returned, panicked, St, Env, Config,
}
use recourse.Retry.Backoff.{compute_sleep}
use recourse.Retry.Verdict.{
  ClassifierMeta, annotate_classifier_fallback, terminal_error, complete_outcome, known_kind,
  classify_with_recovery,
}
use recourse.Retry.Fast.{
  Round, done, again, judge, stop_round, wait_round, run_attempt, release_after, after_result,
}
use recourse.Retry.Fast as Fast
use recourse.Retry.Full as Full
use recourse.Retry.Primary.{
  answer_of, primary_group, run_launched, after_decision, run_allowed, announce, after_op,
  after_verdict, record_attempt, boxed, budget_of, kind_of, shown_backoff, after_launched,
}
use recourse.Retry.Full.{
  Shared, GroupResult, Turn, ended, next, Vars, report, finish_failure, finish_success, unboxed,
  end_success, report_failed, end_terminal, end_exhausted, after_sleep, sleep_between,
  after_failure, after_group, prefer_previous, is_terminal,
}
use recourse.Retry.Full.Agreement.{fast_view, full_view, at, is_denial, bind_returned, judge_agrees}

module _ {F V W B C : Type 0} ⦃fl : Float F⦄ (env : Env F V W B C) (cfg : Config B C)
    (sh : Shared W) (key : PolicyKey) (still : (w : W) → (env.clock w).1 ≡ w) where
  module _ (pol : EffectivePolicy F) (c : C) (meta : ClassifierMeta) (is_nil : V → Bool)
      (unbudgeted : is_empty (trim_space pol.retry.budget.name) ≡ true)
      (ending : ℕ → W → Option Err × W)
      (settled : (attempt : ℕ) (w : W) → ending attempt w ≡ (none, w)) where
    allows_all :
        (attempt : ℕ) (kind : AttemptKind) (ref : BudgetRef) (s : St W)
        → is_empty (trim_space ref.name) ≡ true
        → allow_attempt env cfg key attempt kind ref s ≡ (returned (plain true "no_budget"), s)
    unfolding allow_attempt
    allows_all attempt kind ref s h = rw h refl

    ran_fast :
        (attempt : ℕ) (w w1 : W) (v : V) (err : Option Err) (l : List Event)
        → env.run_op attempt w ≡ (returned (v, err), w1)
        → run_attempt env cfg key attempt none (at w l) ≡ (
          returned (v, err),
          at w1
              (observed_latency key ((env.clock w1).0 -ℤ (env.clock w).0) ∷ op_called attempt ∷ l),
        )
    unfolding run_attempt release_after
    ran_fast attempt w w1 v err l h = ground (arith, still w, h, still w1)

    classified_as :
        (v : V) (err : Option Err) (out : Outcome) (w w1 : W) (l : List Event)
        → env.classify c v err w ≡ (returned out, w1)
        → classify_with_recovery env cfg.recover_panics c v err key (at w l) ≡ (
          returned (complete_outcome out, none),
          at w1 (classified (complete_outcome out).kind ∷ l),
        )
    unfolding classify_with_recovery
    classified_as v err out w w1 l h = ground (arith, h)

    -- A round in which the operation and the classifier return, on the fast path.
    runs_fast :
        (last : Bool) (attempt : ℕ) (backoff : ℤ) (val v : V) (err : Option Err) (out : Outcome)
        (w w1 w2 : W) (l : List Event)
        → env.run_op attempt w ≡ (returned (v, err), w1)
        → env.classify c v err w1 ≡ (returned out, w2)
        → let l1 =
            observed_latency key ((env.clock w1).0 -ℤ (env.clock w).0) ∷ op_called attempt ∷ l in
          Fast.after_context env cfg key pol.retry c last attempt backoff val none (at w l)
          ≡ judge env cfg key pol.retry last backoff v err
              (complete_outcome out)
              (at w2 (classified (complete_outcome out).kind ∷ l1))
    unfolding Fast.after_context Fast.after_decision after_result Fast.after_verdict
    runs_fast last attempt backoff val v err out w w1 w2 l h g =
        let l1 =
          observed_latency key ((env.clock w1).0 -ℤ (env.clock w).0) ∷ op_called attempt ∷ l in
        ground (
          arith,
          allows_all attempt kind_retry pol.retry.budget (at w l) unbudgeted,
          ran_fast attempt w w1 v err l h,
          classified_as v err out w1 w2 l1 g,
        )

    -- The record of that attempt on the full path.
    abbrev attempt_record : ℕ → ℤ → W → W → Option Err → Outcome → AttemptRecord
    attempt_record attempt lb w w1 err shown = record {
      attempt = attempt;
      start_time = (env.clock w).0;
      end_time = (env.clock w1).0;
      is_hedge = false;
      hedge_index = 0;
      outcome = shown;
      err = err;
      backoff = lb;
      budget_allowed = true;
      budget_reason = "no_budget";
    }

    runs_full :
        (attempt : ℕ) (lb : ℤ) (v : V) (err : Option Err) (out : Outcome) (w w1 w2 : W)
        (l : List Event)
        → is_nil v ≡ false
        → env.run_op attempt w ≡ (returned (v, err), w1)
        → env.classify c v err w1 ≡ (returned out, w2)
        → let shown = annotate_classifier_fallback meta (complete_outcome out) in
          let rec = attempt_record attempt lb w w1 err shown in
          primary_group env cfg is_nil key pol ending c meta attempt lb (at w l) ≡ (
            returned (answer_of (record { value = some v; err = err; outcome = shown }), rec ∷ []),
            at w2 (
                observed_latency key ((env.clock w1).0 -ℤ (env.clock w).0)
                ∷ on_attempt key rec
                ∷ classified (complete_outcome out).kind
                ∷ op_called attempt
                ∷ l),
          )
    unfolding primary_group run_launched after_decision run_allowed announce after_op after_verdict
        record_attempt boxed budget_of kind_of shown_backoff release_after after_launched
    runs_full attempt lb v err out w w1 w2 l some_v h g = ground (
      arith,
      still w,
      still w1,
      some_v,
      h,
      settled attempt w2,
      allows_all attempt kind_retry pol.retry.budget (at w l) unbudgeted,
      classified_as v err out w1 w2 (op_called attempt ∷ l) g,
    )

    -- The attributes of an outcome do not count.
    annotated-kind :
        (out : Outcome)
        → ((annotate_classifier_fallback meta out).kind ≡ out.kind)
          × ((annotate_classifier_fallback meta out).reason ≡ out.reason)
    unfolding annotate_classifier_fallback
    annotated-kind out = ground arith

    choose :
        {A : Type 0} (f : Outcome → A) (b : Bool) (x y z : Outcome)
        → f x ≡ f z
        → f y ≡ f z
        → f (if b then x else y) ≡ f z
    choose f true x y z h g = h
    choose f false x y z h g = g

    judge_free :
        (last : Bool) (backoff : ℤ) (v : V) (err : Option Err) (out : Outcome)
        (attrs : List (String × String)) (s : St W)
        → judge env cfg key pol.retry last backoff v err (record out { attributes = attrs }) s
          ≡ judge env cfg key pol.retry last backoff v err out s
    unfolding judge stop_round wait_round terminal_error compute_sleep
    judge_free last backoff v err out attrs s = ground arith

    judge_annotated :
        (last : Bool) (backoff : ℤ) (v : V) (err : Option Err) (out : Outcome) (s : St W)
        → judge env cfg key pol.retry last backoff v err (annotate_classifier_fallback meta out) s
          ≡ judge env cfg key pol.retry last backoff v err out s
    unfolding annotate_classifier_fallback
    judge_annotated last backoff v err out s =
        let shown : Outcome = record out {
          attributes =
              out.attributes
              ++ ("classifier_not_found", "true")
                ∷ ("classifier_name", meta.requested)
                ∷ ("classifier_fallback", "default")
                ∷ [];
        } in
        let f = λ (o : Outcome). judge env cfg key pol.retry last backoff v err o s in
        choose f meta.not_found (if is_empty meta.requested then out else shown) out out
          (choose f (is_empty meta.requested) out shown out refl
            (judge_free last backoff v err out shown.attributes s))
          refl

    known_known : (k : OutcomeKind) → known_kind k ≢ unknown
    known_known success h = cc
    known_known retryable h = cc
    known_known non_retryable h = cc
    known_known abort h = cc
    known_known unknown h = cc

    pub returns_agree :
        (last : Bool) (attempt : ℕ) (vars : Vars) (val v : V) (err : Option Err) (out : Outcome)
        (w w1 w2 : W) (l l' : List Event)
        → is_nil v ≡ false
        → is_denial (complete_outcome out) ≡ false
        → env.run_op attempt w ≡ (returned (v, err), w1)
        → env.classify c v err w1 ≡ (returned out, w2)
        → fast_view
            (Fast.after_context env cfg key pol.retry c last attempt vars.backoff val none (at w l))
          ≡ full_view (
              Full.after_context env cfg sh key
                (primary_group env cfg is_nil key pol ending c meta)
                pol.retry
                none
                last
                attempt
                vars
                none
                (at w l'))
    unfolding Full.after_context complete_outcome
    returns_agree last attempt vars val v err out w w1 w2 l l' some_v named h g =
        let shown = annotate_classifier_fallback meta (complete_outcome out) in
        let rec = attempt_record attempt vars.last_backoff w w1 err shown in
        let (same_kind, same_reason) = annotated-kind (complete_outcome out) in
        let l1 =
          classified (complete_outcome out).kind
          ∷ observed_latency key ((env.clock w1).0 -ℤ (env.clock w).0)
          ∷ op_called attempt
          ∷ l in
        let l2 =
          observed_latency key ((env.clock w1).0 -ℤ (env.clock w).0)
          ∷ on_attempt key rec
          ∷ classified (complete_outcome out).kind
          ∷ op_called attempt
          ∷ l' in
        let named' : is_denial shown ≡ false = rw same_reason named in
        ap fast_view (runs_fast last attempt vars.backoff val v err out w w1 w2 l h g)
        ∙ ap fast_view
            (sym (judge_annotated last vars.backoff v err (complete_outcome out) (at w2 l1)))
        ∙ judge_agrees env cfg sh key still pol.retry last attempt vars v err shown (rec ∷ []) w2 l1
            l2 (known_kind out.kind) same_kind (known_known out.kind) named'
        ∙ ap full_view (
            sym (
              bind_returned
                (primary_group env cfg is_nil key pol ending c meta attempt vars.last_backoff)
                (after_group env cfg sh key pol.retry none last attempt vars) (at w l')
                (answer_of (record { value = some v; err = err; outcome = shown }), rec ∷ [])
                (at w2 l2) (runs_full attempt vars.last_backoff v err out w w1 w2 l' some_v h g)))

    -- The operation panics.
    pub panics_agree :
        (last : Bool) (attempt : ℕ) (vars : Vars) (val : V) (u : String) (w w1 : W)
        (l l' : List Event)
        → env.run_op attempt w ≡ (panicked u, w1)
        → fast_view
            (Fast.after_context env cfg key pol.retry c last attempt vars.backoff val none (at w l))
          ≡ full_view (
              Full.after_context env cfg sh key
                (primary_group env cfg is_nil key pol ending c meta)
                pol.retry
                none
                last
                attempt
                vars
                none
                (at w l'))
    unfolding Fast.after_context Fast.after_decision Full.after_context primary_group run_launched
        after_decision run_allowed announce budget_of kind_of run_attempt release_after
    panics_agree last attempt vars val u w w1 l l' h = ground (
      arith,
      still w,
      h,
      allows_all attempt kind_retry pol.retry.budget (at w l) unbudgeted,
      allows_all attempt kind_retry pol.retry.budget (at w l') unbudgeted,
    )

    -- A context that has ended.
    pub ended_agree :
        (last : Bool) (attempt : ℕ) (vars : Vars) (val : V) (e : Err) (w : W) (l l' : List Event)
        → fast_view (
            Fast.after_context env cfg key pol.retry c last attempt vars.backoff val
              (some e)
              (at w l))
          ≡ full_view (
              Full.after_context env cfg sh key
                (primary_group env cfg is_nil key pol ending c meta)
                pol.retry
                none
                last
                attempt
                vars
                (some e)
                (at w l'))
    unfolding Fast.after_context Full.after_context finish_failure
    ended_agree last attempt vars val e w l l' = ground (arith, still w)
