-- ===== src/Retry/Call.antt =====
-- `doValueInternal`, `DoValue` and `Do` of retry/executor.go, for an executor whose fields are set, and
-- the choice between the fast and the full path. The context is that of the capture key: the contexts
-- that the two paths derive from it leave that key alone.
use recourse.Common.{
  ℕ, Bool, true, false, ◌≡◌, refl, ap, ◌∙◌, ◌<◌, [], ◌∷◌, Option, none, some, arith, if◌then◌else◌,
  ◌||◌, not, length, get_elem?, set, zero, suc,
}
use recourse.Common.Int.{pos}
use recourse.Common.Float.{Float}
use recourse.Policy.{PolicyKey, EffectivePolicy}
use recourse.Errors.{Err, sentinel, hedging_requires_timeline, sentinel_eq}
use recourse.Observe.{Timeline}
use recourse.Observe.Capture.{
  Context, Captures, timeline_capture_from_context, without_timeline_capture,
  store_timeline_capture, timeline,
}
use recourse.Retry.{Exit, returned, St, Env, Config, M, ◌>>=◌, pure, effect}
use recourse.Retry.Rules.{bind_rule}
use recourse.Retry.Resolve.{no_key}
use recourse.Retry.Verdict.{ClassifierMeta}
use recourse.Retry.Fast.{do_value_fast}
use recourse.Retry.Full.{Shared, Group, Result, do_value_with_timeline}
use recourse.Retry.Full.Report.{IsTold, IsSilent}
use recourse.Retry.Full.Call.{do_value_with_timeline-IsTold}

-- The holders of timelines that contexts point to.
pub record CaptureMemory (W : Type 0) : Type 0 where
  pub captures : W → Captures
  pub with_captures : Captures → W → W

-- `OperationValue`.
abbrev pub Operation : Type 0 → Type 0 → Type 0
Operation V W = Context → ℕ → W → Exit (V × Option Err) × W

-- The group of attempts, for the operation that an environment has.
abbrev pub Groups : (F V W B C : Type 0) → Type 0
Groups F V W B C = Env F V W B C → EffectivePolicy F → C → ClassifierMeta → Group V W

-- `observe.Timeline{}`
abbrev pub zero_timeline : Timeline
zero_timeline = record {
  key = no_key;
  policy_id = "";
  start = pos 0;
  end_time = pos 0;
  attributes = [];
  attempts = [];
  final_err = none;
}

-- `err == errHedgingRequiresTimeline`
unfoldable pub is_hedging_sentinel : Option Err → Bool
is_hedging_sentinel none = false
is_hedging_sentinel (some (sentinel s)) = sentinel_eq s hedging_requires_timeline
is_hedging_sentinel (some _) = false

abbrev pub is_some : {A : Type 0} → Option A → Bool
is_some none = false
is_some (some a) = true

module _ {F V W B C : Type 0} ⦃fl : Float F⦄ (env : Env F V W B C) (cfg : Config B C)
    (sh : Shared W) (mem : CaptureMemory W) (groups : Groups F V W B C) (is_noop : Bool)
    (key : PolicyKey) (op : Operation V W) where
  -- `fastOp` and `safeOp`: the operation in a context without a capture.
  unfoldable pub safe_env : Context → Env F V W B C
  safe_env ctx = record env { run_op = op (without_timeline_capture ctx) }

  -- `if capture != nil { observe.StoreTimelineCapture(capture, &tl) }`
  unfoldable pub publish : Option ℕ → Result V → M W (Result V)
  publish none r = pure r
  publish (some a) (v, tl, e) = effect (λ w. (
    (v, tl, e),
    mem.with_captures (store_timeline_capture (some a) (some tl) (mem.captures w)) w,
  ))

  -- The lines from `safeOp` to the end.
  unfoldable pub call_full : Context → M W (Result V)
  call_full ctx =
      do_value_with_timeline (safe_env ctx) cfg sh key (groups (safe_env ctx))
      >>= publish (timeline_capture_from_context ctx)

  -- After `doValueFast`: the check for the fall-back.
  unfoldable pub after_fast : Context → V × Option Err → M W (Result V)
  after_fast ctx (v, e) =
      if is_hedging_sentinel e then call_full ctx else pure (v, zero_timeline, e)

  -- `doValueInternal`.
  unfoldable pub do_value_internal : Context → Bool → M W (Result V)
  do_value_internal ctx want_timeline =
      if want_timeline || is_some (timeline_capture_from_context ctx) || not is_noop
      then call_full ctx
      else do_value_fast (safe_env ctx) cfg key >>= after_fast ctx

  -- `DoValue`; `Do` is the same for an operation that returns no value.
  unfoldable pub do_value : Context → M W (V × Option Err)
  do_value ctx = do_value_internal ctx false >>= λ r. pure (r.0, r.2)

  -- What the memory of a capture does.
  pub record KeepsCaptures : Type 0 where
    pub read_back : (cs : Captures) (w : W) → mem.captures (mem.with_captures cs w) ≡ cs

  set_there :
      (cs : Captures) (a : ℕ) (x : Option Timeline)
      → a < length cs
      → get_elem? (set cs a x) a ≡ some x
  set_there [] a x h = ground (arith, h)
  set_there (c ∷ cs) zero x h = refl
  set_there (c ∷ cs) (suc a) x h = set_there cs a x (omega arith)

  publish_stores :
      (a : ℕ) (r : Result V) (s : St W)
      → KeepsCaptures
      → a < length (mem.captures s.world)
      → ((publish (some a) r s).0 ≡ returned r)
        × (timeline (some a) (mem.captures (publish (some a) r s).1.world) ≡ some (r.1))
  unfolding publish store_timeline_capture timeline
  publish_stores a (v, tl, e) s keeps h = (
    refl,
    rw (keeps.read_back (set (mem.captures s.world) a (some tl)) s.world)
        (rw (set_there (mem.captures s.world) a (some tl) h, timeline) refl),
  )

  -- The log of a published result is that of the call.
  publish-IsTold :
      (cb : Option ℕ) (r : Result V) (v : V) (tl : Timeline) (e : Option Err) (s s' : St W)
      → (publish cb r s').0 ≡ returned (v, tl, e)
      → (r ≡ (v, tl, e) → IsTold tl e s s')
      → IsTold tl e s (publish cb r s').1
  unfolding publish
  publish-IsTold none r v tl e s s' h told = told cc
  publish-IsTold (some a) r v tl e s s' h told =
      let same = told cc in record { final = same.final; once = same.once; latest = same.latest }

  -- A call in a context with a capture takes the full path.
  takes_full :
      (ctx : Context) (a : ℕ) (want : Bool) (s : St W)
      → timeline_capture_from_context ctx ≡ some a
      → do_value_internal ctx want s
        ≡ (do_value_with_timeline (safe_env ctx) cfg sh key (groups (safe_env ctx))
              >>= publish (some a))
            s
  unfolding do_value_internal call_full
  takes_full ctx a true s h = rw h refl
  takes_full ctx a false s h = rw h refl

  -- A call in a context with a capture, whose groups tell of no end themselves, that returns has told
  -- the observer of exactly one end, with the timeline that it returns, and the capture then holds that
  -- timeline, whose last error is the error that the call returns. The holder is still there when the
  -- full path ends.
  pub captured_call :
      (ctx : Context) (a : ℕ) (want : Bool) (s : St W) (v : V) (tl : Timeline) (e : Option Err)
      → timeline_capture_from_context ctx ≡ some a
      → KeepsCaptures
      → ((pol : EffectivePolicy F) (c : C) (meta : ClassifierMeta)
          → IsSilent (groups (safe_env ctx) pol c meta))
      → a
        < length (
            mem.captures
              (do_value_with_timeline (safe_env ctx) cfg sh key (groups (safe_env ctx)) s).1.world)
      → (do_value_internal ctx want s).0 ≡ returned (v, tl, e)
      → let s' = (do_value_internal ctx want s).1 in
        IsTold tl e s s' × (timeline (some a) (mem.captures s'.world) ≡ some tl)
  captured_call ctx a want s v tl e here keeps quiet there =
      let full = do_value_with_timeline (safe_env ctx) cfg sh key (groups (safe_env ctx)) in
      rw (takes_full ctx a want s here) (
        bind_rule
          (λ (r : Exit (Result V) × St W).
            r.0 ≡ returned (v, tl, e)
            → IsTold tl e s r.1 × (timeline (some a) (mem.captures r.1.world) ≡ some tl))
          full (publish (some a)) s
          (λ r h.
            let stored = publish_stores a r (full s).1 keeps there in
            λ same.
              let eq : r ≡ (v, tl, e) = cc in
              (
                publish-IsTold (some a) r v tl e s (full s).1 same (λ u.
                    do_value_with_timeline-IsTold (safe_env ctx) cfg sh key (groups (safe_env ctx))
                      s v tl e quiet (h ∙ ap returned u)),
                stored.1 ∙ ap (λ x. some (x.1)) eq,
              ))
          (λ u h same. cc))
