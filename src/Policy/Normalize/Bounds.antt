-- ===== src/Policy/Normalize/Bounds.antt =====
-- What a normalised policy satisfies.
use recourse.Common.{String, true, false, ◌≡◌, refl, ◌⊎◌, Option, none, some, arith}
use recourse.Common.Int.{ℤ, pos, ◌≤ℤ◌}
use recourse.Common.Text.{str_eq-true}
use recourse.Common.Float.{Float, IsExact}
use recourse.Policy.{RetryPolicy, HedgePolicy, CircuitPolicy, NormalizationInfo, EffectivePolicy}
use recourse.Policy.Normalize.{
  normalize_max_attempts, normalize_floor, normalize_max_backoff, normalize_timeout, normalize_cost,
  normalize_max_hedges, normalize_jitter, normalize_hedge, normalize_circuit, normalize_rest,
  normalize_multiplier, normalize_backoffs, normalize_limits, normalize_valid, normalize_at,
  normalize_blocks, normalize, normalize-eq-blocks,
}

-- A hedge policy in range.
pub record IsHedgeReady (h : HedgePolicy) : Type 0 where
  pub hedges_low : pos 1 ≤ℤ h.max_hedges
  pub hedges_high : h.max_hedges ≤ℤ pos 3
  pub delay_low : pos 10_000_000 ≤ℤ h.hedge_delay

pub record IsCircuitReady (c : CircuitPolicy) : Type 0 where
  pub threshold_low : pos 1 ≤ℤ c.threshold
  pub cooldown_low : pos 100_000_000 ≤ℤ c.cooldown

-- A timeout is off or at the floor or above.
abbrev pub IsTimeout : ℤ → Type 0
IsTimeout t = (t ≡ pos 0) ⊎ (pos 1_000_000 ≤ℤ t)

abbrev pub IsJitter : String → Type 0
IsJitter j = (j ≡ "none") ⊎ ((j ≡ "full") ⊎ (j ≡ "equal"))

pub record IsRetryReady {F : Type 0} ⦃fl : Float F⦄ (r : RetryPolicy F) : Type 0 where
  pub attempts_low : pos 1 ≤ℤ r.max_attempts
  pub attempts_high : r.max_attempts ≤ℤ pos 10
  pub initial_low : pos 1_000_000 ≤ℤ r.initial_backoff
  pub max_low : r.initial_backoff ≤ℤ r.max_backoff
  pub max_high : (r.max_backoff ≤ℤ pos 30_000_000_000) ⊎ (r.max_backoff ≡ r.initial_backoff)
  pub multiplier_low : fl.lt r.backoff_multiplier (fl.of_ℤ (pos 1)) ≡ false
  pub multiplier_high : fl.lt (fl.of_ℤ (pos 10)) r.backoff_multiplier ≡ false
  pub jitter_known : IsJitter r.jitter
  pub per_attempt : IsTimeout r.timeout_per_attempt
  pub overall : IsTimeout r.overall_timeout
  pub cost_low : pos 1 ≤ℤ r.budget.cost

pub record IsNormalized {F : Type 0} ⦃fl : Float F⦄ (p : EffectivePolicy F) : Type 0 where
  pub retry_ready : IsRetryReady p.retry
  pub hedge_cost : pos 1 ≤ℤ p.hedge.budget.cost
  pub hedge_ready : p.hedge.enabled ≡ true → IsHedgeReady p.hedge
  pub circuit_ready : p.hedge.enabled ≡ true → p.circuit.enabled ≡ true → IsCircuitReady p.circuit

pub max_attempts_bounds :
    (x : ℤ) (n : NormalizationInfo)
    → (pos 1 ≤ℤ (normalize_max_attempts x n).0) × ((normalize_max_attempts x n).0 ≤ℤ pos 10)
unfolding normalize_max_attempts
max_attempts_bounds x n = ground arith

pub floor_bound :
    (default floor x : ℤ) (field : String) (n : NormalizationInfo)
    → floor ≤ℤ (normalize_floor default floor field x n).0
unfolding normalize_floor
floor_bound default floor x field n = ground arith

pub max_backoff_bounds :
    (initial x : ℤ) (n : NormalizationInfo)
    → let y = (normalize_max_backoff initial x n).0 in
      (initial ≤ℤ y) × ((y ≤ℤ pos 30_000_000_000) ⊎ (y ≡ initial))
unfolding normalize_max_backoff
max_backoff_bounds initial x n = ground arith

pub IsTimeout-bound :
    (field : String) (x : ℤ) (n : NormalizationInfo) → IsTimeout (normalize_timeout field x n).0
unfolding normalize_timeout
IsTimeout-bound field x n = ground arith

pub cost_bound :
    (field : String) (x : ℤ) (n : NormalizationInfo) → pos 1 ≤ℤ (normalize_cost field x n).0
unfolding normalize_cost
cost_bound field x n = ground arith

pub max_hedges_bounds :
    (x : ℤ) (n : NormalizationInfo)
    → (pos 1 ≤ℤ (normalize_max_hedges x n).0) × ((normalize_max_hedges x n).0 ≤ℤ pos 3)
unfolding normalize_max_hedges
max_hedges_bounds x n = ground arith

pub IsJitter-known :
    (j : String) (n : NormalizationInfo) {k : String} {m : NormalizationInfo}
    → normalize_jitter j n ≡ some (k, m)
    → IsJitter k
unfolding normalize_jitter
IsJitter-known j n h =
    ground (arith, str_eq-true j "none", str_eq-true j "full", str_eq-true j "equal")

hedge-IsHedgeReady :
    (h : HedgePolicy) (n : NormalizationInfo) → IsHedgeReady (normalize_hedge h n).0
unfolding normalize_hedge
hedge-IsHedgeReady h n =
    let m = (normalize_max_hedges h.max_hedges n).1 in
    record {
      hedges_low = (max_hedges_bounds h.max_hedges n).0;
      hedges_high = (max_hedges_bounds h.max_hedges n).1;
      delay_low =
          floor_bound (pos 200_000_000) (pos 10_000_000) h.hedge_delay "hedge.hedge_delay" m;
    }

circuit-IsCircuitReady :
    (c : CircuitPolicy) (n : NormalizationInfo) → IsCircuitReady (normalize_circuit c n).0
unfolding normalize_circuit
circuit-IsCircuitReady c n =
    let m = (normalize_floor (pos 5) (pos 1) "circuit.threshold" c.threshold n).1 in
    record {
      threshold_low = floor_bound (pos 5) (pos 1) c.threshold "circuit.threshold" n;
      cooldown_low =
          floor_bound (pos 10_000_000_000) (pos 100_000_000) c.cooldown "circuit.cooldown" m;
    }

hedge_frame :
    (h : HedgePolicy) (n : NormalizationInfo)
    → ((normalize_hedge h n).0.enabled ≡ h.enabled) × ((normalize_hedge h n).0.budget ≡ h.budget)
unfolding normalize_hedge
hedge_frame h n = (refl, refl)

circuit_frame :
    (c : CircuitPolicy) (n : NormalizationInfo) → (normalize_circuit c n).0.enabled ≡ c.enabled
unfolding normalize_circuit
circuit_frame c n = refl

record IsRestReady (h : HedgePolicy) (r : HedgePolicy × CircuitPolicy × NormalizationInfo)
    : Type 0 where
  cost : r.0.budget ≡ h.budget
  hedge : r.0.enabled ≡ true → IsHedgeReady r.0
  circuit : r.0.enabled ≡ true → r.1.enabled ≡ true → IsCircuitReady r.1

rest-IsRestReady :
    (h : HedgePolicy) (c : CircuitPolicy) (n : NormalizationInfo)
    → IsRestReady h (normalize_rest h c n)
unfolding normalize_rest
rest-IsRestReady h c n =
    let m = (normalize_hedge h n).1 in
    ground (
      arith,
      hedge-IsHedgeReady h n,
      circuit-IsCircuitReady c m,
      hedge_frame h n,
      circuit_frame c m,
    )

module _ {F : Type 0} ⦃fl : Float F⦄ (exact : IsExact F) where
  multiplier_bounds :
      (x : F) (n : NormalizationInfo)
      → (fl.lt (normalize_multiplier x n).0 (fl.of_ℤ (pos 1)) ≡ false)
        × (fl.lt (fl.of_ℤ (pos 10)) (normalize_multiplier x n).0 ≡ false)
  unfolding normalize_multiplier
  multiplier_bounds x n = ground (
    arith,
    exact.lt-of_ℤ 1 1 (omega arith) (omega arith),
    exact.lt-of_ℤ 2 1 (omega arith) (omega arith),
    exact.lt-of_ℤ 10 1 (omega arith) (omega arith),
    exact.lt-of_ℤ 10 10 (omega arith) (omega arith),
    exact.lt-of_ℤ 10 2 (omega arith) (omega arith),
    exact.lt-of_ℤ 10 1 (omega arith) (omega arith),
  )

  -- What the first half of the blocks establishes, and the second half keeps.
  record IsBackoffReady (r : RetryPolicy F) : Type 0 where
    attempts_low : pos 1 ≤ℤ r.max_attempts
    attempts_high : r.max_attempts ≤ℤ pos 10
    initial_low : pos 1_000_000 ≤ℤ r.initial_backoff
    max_low : r.initial_backoff ≤ℤ r.max_backoff
    max_high : (r.max_backoff ≤ℤ pos 30_000_000_000) ⊎ (r.max_backoff ≡ r.initial_backoff)
    multiplier_low : fl.lt r.backoff_multiplier (fl.of_ℤ (pos 1)) ≡ false
    multiplier_high : fl.lt (fl.of_ℤ (pos 10)) r.backoff_multiplier ≡ false

  backoffs-IsBackoffReady :
      (r : RetryPolicy F) (n : NormalizationInfo) → IsBackoffReady (normalize_backoffs r n).0
  unfolding normalize_backoffs
  backoffs-IsBackoffReady r n =
      let (attempts, n1) = normalize_max_attempts r.max_attempts n in
      let (initial, n2) =
        normalize_floor (pos 10_000_000) (pos 1_000_000) "retry.initial_backoff" r.initial_backoff
          n1 in
      let (max, n3) = normalize_max_backoff initial r.max_backoff n2 in
      record {
        attempts_low = (max_attempts_bounds r.max_attempts n).0;
        attempts_high = (max_attempts_bounds r.max_attempts n).1;
        initial_low =
            floor_bound (pos 10_000_000) (pos 1_000_000) r.initial_backoff "retry.initial_backoff"
              n1;
        max_low = (max_backoff_bounds initial r.max_backoff n2).0;
        max_high = (max_backoff_bounds initial r.max_backoff n2).1;
        multiplier_low = (multiplier_bounds r.backoff_multiplier n3).0;
        multiplier_high = (multiplier_bounds r.backoff_multiplier n3).1;
      }

  limits-IsRetryReady :
      (r : RetryPolicy F) (n : NormalizationInfo)
      → IsBackoffReady r
      → IsJitter r.jitter
      → IsRetryReady (normalize_limits r n).0
  unfolding normalize_limits
  limits-IsRetryReady r n b j =
      let (per_attempt, n1) =
        normalize_timeout "retry.timeout_per_attempt" r.timeout_per_attempt n in
      let (overall, n2) = normalize_timeout "retry.overall_timeout" r.overall_timeout n1 in
      record {
        attempts_low = b.attempts_low;
        attempts_high = b.attempts_high;
        initial_low = b.initial_low;
        max_low = b.max_low;
        max_high = b.max_high;
        multiplier_low = b.multiplier_low;
        multiplier_high = b.multiplier_high;
        jitter_known = j;
        per_attempt = IsTimeout-bound "retry.timeout_per_attempt" r.timeout_per_attempt n;
        overall = IsTimeout-bound "retry.overall_timeout" r.overall_timeout n1;
        cost_low = cost_bound "retry.budget.cost" r.budget.cost n2;
      }

  valid-IsNormalized :
      (p : EffectivePolicy F) (r : RetryPolicy F) (n : NormalizationInfo)
      → IsBackoffReady r
      → IsJitter r.jitter
      → IsNormalized (normalize_valid p r n)
  unfolding normalize_valid
  valid-IsNormalized p r n b j =
      let (r', n1) = normalize_limits r n in
      let (cost, n2) = normalize_cost "hedge.budget.cost" p.hedge.budget.cost n1 in
      let hedge = record (p.hedge) {
        budget = record { name = p.hedge.budget.name; cost = cost };
      } in
      let rest = rest-IsRestReady hedge p.circuit n2 in
      record {
        retry_ready = limits-IsRetryReady r n b j;
        hedge_cost = rw rest.cost (cost_bound "hedge.budget.cost" p.hedge.budget.cost n1);
        hedge_ready = rest.hedge;
        circuit_ready = rest.circuit;
      }

  blocks-IsNormalized :
      (p : EffectivePolicy F) → (normalize_blocks p).1 ≡ none → IsNormalized (normalize_blocks p).0
  unfolding normalize_blocks normalize_at
  blocks-IsNormalized p h =
      let (r, n) = normalize_backoffs p.retry p.meta.normalization in
      go r n (normalize_jitter r.jitter n) refl
        (backoffs-IsBackoffReady p.retry p.meta.normalization) h
    where
      go :
          (r : RetryPolicy F) (n : NormalizationInfo) (o : Option (String × NormalizationInfo))
          → normalize_jitter r.jitter n ≡ o
          → IsBackoffReady r
          → (normalize_at p r o).1 ≡ none
          → IsNormalized (normalize_at p r o).0
      go r n none e b h = cc
      go r n (some (j, m)) e b h =
          valid-IsNormalized p (record r { jitter = j }) m (ground arith)
            (IsJitter-known r.jitter n e)

  -- Where `Normalize` returns no error, its policy is in range: every field of the retry policy,
  -- the hedge policy if hedging is enabled, and the circuit policy if both are enabled.
  pub normalize-IsNormalized :
      (p : EffectivePolicy F) → (normalize p).1 ≡ none → IsNormalized (normalize p).0
  normalize-IsNormalized p = rw normalize-eq-blocks (blocks-IsNormalized p)
