-- ===== src/Policy/Normalize/Stable.antt =====
-- When `Normalize` leaves a policy alone.
use recourse.Common.{
  String, true, false, ◌≡◌, refl, ap, ◌∙◌, ◌≢◌, ◌⊎◌, ◌↔◌, inl, inr, none, some, arith, Bool-cases,
}
use recourse.Common.Int.{ℤ, pos, ◌≤ℤ◌}
use recourse.Common.Text.{str_eq-true}
use recourse.Common.Float.{Float, IsExact}
use recourse.Policy.{RetryPolicy, HedgePolicy, CircuitPolicy, NormalizationInfo, EffectivePolicy}
use recourse.Policy.Normalize.{
  normalize_max_attempts, normalize_floor, normalize_max_backoff, normalize_timeout, normalize_cost,
  normalize_max_hedges, normalize_jitter, normalize_hedge, normalize_circuit, normalize_rest,
  normalize_multiplier, normalize_backoffs, normalize_limits, normalize_valid, normalize_at,
  normalize_blocks, normalize, normalize-eq-blocks,
}
use recourse.Policy.Normalize.Bounds.{
  IsHedgeReady, IsCircuitReady, IsTimeout, IsJitter, IsRetryReady, IsNormalized,
}

max_attempts_fixed :
    (x : ℤ) (n : NormalizationInfo) → pos 1 ≤ℤ x → x ≤ℤ pos 10 → normalize_max_attempts x n ≡ (x, n)
unfolding normalize_max_attempts
max_attempts_fixed x n l h = ground arith

pub floor_fixed :
    (default floor x : ℤ) (field : String) (n : NormalizationInfo)
    → pos 1 ≤ℤ floor
    → floor ≤ℤ x
    → normalize_floor default floor field x n ≡ (x, n)
unfolding normalize_floor
floor_fixed default floor x field n p l = ground arith

max_backoff_fixed :
    (initial x : ℤ) (n : NormalizationInfo)
    → pos 1 ≤ℤ initial
    → initial ≤ℤ x
    → x ≤ℤ pos 30_000_000_000
    → normalize_max_backoff initial x n ≡ (x, n)
unfolding normalize_max_backoff
max_backoff_fixed initial x n p l h = ground arith

timeout_fixed :
    (field : String) (x : ℤ) (n : NormalizationInfo)
    → IsTimeout x
    → normalize_timeout field x n ≡ (x, n)
unfolding normalize_timeout
timeout_fixed field x n h = ground arith

cost_fixed :
    (field : String) (x : ℤ) (n : NormalizationInfo)
    → pos 1 ≤ℤ x
    → normalize_cost field x n ≡ (x, n)
unfolding normalize_cost
cost_fixed field x n h = ground arith

max_hedges_fixed :
    (x : ℤ) (n : NormalizationInfo) → pos 1 ≤ℤ x → x ≤ℤ pos 3 → normalize_max_hedges x n ≡ (x, n)
unfolding normalize_max_hedges
max_hedges_fixed x n l h = ground arith

jitter_fixed :
    (j : String) (n : NormalizationInfo) → IsJitter j → normalize_jitter j n ≡ some (j, n)
unfolding normalize_jitter
jitter_fixed j n (inl e) = rw e refl
jitter_fixed j n (inr (inl e)) = rw e refl
jitter_fixed j n (inr (inr e)) = rw e refl

accepted :
    (j : String) (n : NormalizationInfo) → (j ≡ "") ⊎ IsJitter j → normalize_jitter j n ≢ none
unfolding normalize_jitter
accepted j n (inl e) = rw e (λ h. cc)
accepted j n (inr (inl e)) = rw e (λ h. cc)
accepted j n (inr (inr (inl e))) = rw e (λ h. cc)
accepted j n (inr (inr (inr e))) = rw e (λ h. cc)

pub IsJitter-accepts :
    (j : String) (n : NormalizationInfo) → (normalize_jitter j n ≢ none) ↔ ((j ≡ "") ⊎ IsJitter j)
unfolding normalize_jitter
IsJitter-accepts j n = (
  λ h.
      ground (
        arith,
        str_eq-true j "",
        str_eq-true j "none",
        str_eq-true j "full",
        str_eq-true j "equal",
      ),
  λ known. accepted j n known,
)

-- Above the ceiling the initial backoff is the maximal one.
pub max_backoff_capped :
    (initial x : ℤ) (n : NormalizationInfo)
    → pos 30_000_000_000 ≤ℤ initial
    → (normalize_max_backoff initial x n).0 ≡ initial
unfolding normalize_max_backoff
max_backoff_capped initial x n h = ground arith

hedge_fixed :
    (h : HedgePolicy) (n : NormalizationInfo) → IsHedgeReady h → normalize_hedge h n ≡ (h, n)
unfolding normalize_hedge
hedge_fixed h n r = rw (max_hedges_fixed h.max_hedges n r.hedges_low r.hedges_high) (
    rw
      (floor_fixed (pos 200_000_000) (pos 10_000_000) h.hedge_delay "hedge.hedge_delay" n
        (omega arith) r.delay_low)
      refl)

circuit_fixed :
    (c : CircuitPolicy) (n : NormalizationInfo) → IsCircuitReady c → normalize_circuit c n ≡ (c, n)
unfolding normalize_circuit
circuit_fixed c n r =
    rw (floor_fixed (pos 5) (pos 1) c.threshold "circuit.threshold" n (omega arith) r.threshold_low)
      (rw
        (floor_fixed (pos 10_000_000_000) (pos 100_000_000) c.cooldown "circuit.cooldown" n
          (omega arith) r.cooldown_low)
        refl)

rest_fixed :
    (h : HedgePolicy) (c : CircuitPolicy) (n : NormalizationInfo)
    → (h.enabled ≡ true → IsHedgeReady h)
    → (h.enabled ≡ true → c.enabled ≡ true → IsCircuitReady c)
    → normalize_rest h c n ≡ (h, c, n)
unfolding normalize_rest
rest_fixed h c n p q = elim (Bool-cases h.enabled) [
  | inl on ↦ elim (Bool-cases c.enabled) [
    | inl closed ↦
        rw (hedge_fixed h n (p on)) (rw (circuit_fixed c n (q on closed)) (rw (on, closed) refl))
    | inr off ↦ rw (hedge_fixed h n (p on)) (rw (on, off) refl)
  ]
  | inr off ↦ rw off refl
]

module _ {F : Type 0} ⦃fl : Float F⦄ (exact : IsExact F) where
  multiplier_fixed :
      (x : F) (n : NormalizationInfo)
      → fl.lt x (fl.of_ℤ (pos 1)) ≡ false
      → fl.lt (fl.of_ℤ (pos 10)) x ≡ false
      → normalize_multiplier x n ≡ (x, n)
  unfolding normalize_multiplier
  multiplier_fixed x n l h = ground (
    arith,
    exact.lt-of_ℤ 0 1 (omega arith) (omega arith),
    exact.lt-eq_left x (fl.of_ℤ (pos 0)) (fl.of_ℤ (pos 1)),
  )

  backoffs_fixed :
      (r : RetryPolicy F) (n : NormalizationInfo)
      → IsRetryReady r
      → r.max_backoff ≤ℤ pos 30_000_000_000
      → normalize_backoffs r n ≡ (r, n)
  unfolding normalize_backoffs
  backoffs_fixed r n q h = rw (max_attempts_fixed r.max_attempts n q.attempts_low q.attempts_high) (
      rw
        (floor_fixed (pos 10_000_000) (pos 1_000_000) r.initial_backoff "retry.initial_backoff" n
          (omega arith) q.initial_low)
        (rw
          (max_backoff_fixed r.initial_backoff r.max_backoff n (omega (arith, q.initial_low))
            q.max_low h)
          (rw (multiplier_fixed r.backoff_multiplier n q.multiplier_low q.multiplier_high) refl)))

  limits_fixed :
      (r : RetryPolicy F) (n : NormalizationInfo) → IsRetryReady r → normalize_limits r n ≡ (r, n)
  unfolding normalize_limits
  limits_fixed r n q =
      rw (timeout_fixed "retry.timeout_per_attempt" r.timeout_per_attempt n q.per_attempt) (
        rw (timeout_fixed "retry.overall_timeout" r.overall_timeout n q.overall)
          (rw (cost_fixed "retry.budget.cost" r.budget.cost n q.cost_low) refl))

  valid_fixed :
      (p : EffectivePolicy F) → IsNormalized p → normalize_valid p p.retry p.meta.normalization ≡ p
  unfolding normalize_valid
  valid_fixed p q = rw (limits_fixed p.retry p.meta.normalization q.retry_ready) (
      rw (cost_fixed "hedge.budget.cost" p.hedge.budget.cost p.meta.normalization q.hedge_cost)
        (rw (rest_fixed p.hedge p.circuit p.meta.normalization q.hedge_ready q.circuit_ready) refl))

  -- A policy in range, with a maximal backoff up to the ceiling of 30 s, is left as it is, its
  -- record of changes included.
  pub normalize_fixed :
      (p : EffectivePolicy F)
      → IsNormalized p
      → p.retry.max_backoff ≤ℤ pos 30_000_000_000
      → normalize p ≡ (p, none)
  normalize_fixed p q h =
      normalize-eq-blocks p
      ∙ unfold normalize_blocks normalize_at in
        rw (backoffs_fixed p.retry p.meta.normalization q.retry_ready h) (
          rw (jitter_fixed p.retry.jitter p.meta.normalization q.retry_ready.jitter_known)
            (ap (λ (x : EffectivePolicy F). (x, none)) (valid_fixed p q)))
