-- ===== src/Policy/Normalize.antt =====
-- `EffectivePolicy.Normalize` of policy/schema.go, block by block. A block takes the field and the
-- normalisation record, and returns both; `mark_changed` is the closure of the same name.
pub mod Bounds
pub mod Stable
pub mod Attempts
pub mod Edges
use recourse.Common.{
  String, Bool, true, false, List, [], ◌∷◌, ◌++◌, ◌&&◌, Option, none, some, if◌then◌else◌, ◌≡◌,
  refl,
}
use recourse.Common.Int.{ℤ, pos, ltb_ℤ, leb_ℤ, ◌==ℤ◌}
use recourse.Common.Text.{str_eq}
use recourse.Common.Float.{Float}
use recourse.Policy.{
  PolicyKey, BudgetRef, RetryPolicy, HedgePolicy, CircuitPolicy, NormalizationInfo, Metadata,
  EffectivePolicy, NormalizeError,
}
use recourse.Policy.Defaults.{
  max_retry_attempts, max_hedges, min_backoff_floor, min_hedge_delay_floor, max_backoff_ceiling,
  min_timeout_floor, min_circuit_threshold, min_circuit_cooldown, bare_policy,
}

mem_field : String → List String → Bool
mem_field field [] = false
mem_field field (f ∷ fs) = let rest = mem_field field fs in if str_eq f field then true else rest

unfoldable pub mark_changed : String → NormalizationInfo → NormalizationInfo
unfolding mem_field
mark_changed field n =
    if mem_field field n.changed_fields
    then record { changed = true; changed_fields = n.changed_fields }
    else record { changed = true; changed_fields = n.changed_fields ++ field ∷ [] }

-- `if test { x = v; markChanged(field) }`
abbrev pub set_if {ℓ} :
    {A : Type ℓ} → Bool → A → String → A × NormalizationInfo → A × NormalizationInfo
set_if test v field (x, n) = if test then (v, mark_changed field n) else (x, n)

-- `if x < lo { x = lo } else if x > hi { x = hi }`
abbrev pub clamp : ℤ → ℤ → String → ℤ × NormalizationInfo → ℤ × NormalizationInfo
clamp lo hi field (x, n) =
    if ltb_ℤ x lo then (lo, mark_changed field n) else set_if (ltb_ℤ hi x) hi field (x, n)

abbrev attempts_field : String
attempts_field = "retry.max_attempts"

abbrev zero_attempts : ℤ × NormalizationInfo → ℤ × NormalizationInfo
zero_attempts (x, n) = set_if (x ==ℤ pos 0) (pos 3) attempts_field (x, n)

pub normalize_max_attempts : ℤ → NormalizationInfo → ℤ × NormalizationInfo
normalize_max_attempts x n = clamp (pos 1) max_retry_attempts attempts_field (zero_attempts (x, n))

-- `if x <= 0 { x = default }; if x < floor { x = floor }`
pub normalize_floor : ℤ → ℤ → String → ℤ → NormalizationInfo → ℤ × NormalizationInfo
normalize_floor default floor field x n =
    let (y, m) = set_if (leb_ℤ x (pos 0)) default field (x, n) in
    set_if (ltb_ℤ y floor) floor field (y, m)

pub normalize_max_backoff : ℤ → ℤ → NormalizationInfo → ℤ × NormalizationInfo
normalize_max_backoff initial x n =
    let (y, m) = set_if (leb_ℤ x (pos 0)) (pos 250_000_000) "retry.max_backoff" (x, n) in
    let (z, k) =
      set_if (ltb_ℤ max_backoff_ceiling y) max_backoff_ceiling "retry.max_backoff" (y, m) in
    set_if (ltb_ℤ z initial) initial "retry.max_backoff" (z, k)

-- The two blocks on timeouts: no negative timeout, and none below the floor but zero.
pub normalize_timeout : String → ℤ → NormalizationInfo → ℤ × NormalizationInfo
normalize_timeout field x n =
    let (y, m) = set_if (ltb_ℤ x (pos 0)) (pos 0) field (x, n) in
    set_if (ltb_ℤ (pos 0) y && ltb_ℤ y min_timeout_floor) min_timeout_floor field (y, m)

-- The blocks on the budgets' costs.
pub normalize_cost : String → ℤ → NormalizationInfo → ℤ × NormalizationInfo
normalize_cost field x n =
    let (y, m) = set_if (x ==ℤ pos 0) (pos 1) field (x, n) in
    set_if (ltb_ℤ y (pos 1)) (pos 1) field (y, m)

pub normalize_max_hedges : ℤ → NormalizationInfo → ℤ × NormalizationInfo
normalize_max_hedges x n =
    let (y, m) = set_if (x ==ℤ pos 0) (pos 2) "hedge.max_hedges" (x, n) in
    clamp (pos 1) max_hedges "hedge.max_hedges" (y, m)

-- The `switch` on the jitter; `none` is the error return.
pub normalize_jitter : String → NormalizationInfo → Option (String × NormalizationInfo)
normalize_jitter j n =
    if str_eq j ""
    then some ("none", mark_changed "retry.jitter" n)
    else if str_eq j "none"
    then some (j, n)
    else if str_eq j "full"
    then some (j, n)
    else if str_eq j "equal"
    then some (j, n)
    else none

pub normalize_hedge : HedgePolicy → NormalizationInfo → HedgePolicy × NormalizationInfo
normalize_hedge h n =
    let (hedges, m) = normalize_max_hedges h.max_hedges n in
    let (delay, k) =
      normalize_floor (pos 200_000_000) min_hedge_delay_floor "hedge.hedge_delay" h.hedge_delay m in
    (record h { max_hedges = hedges; hedge_delay = delay }, k)

pub normalize_circuit : CircuitPolicy → NormalizationInfo → CircuitPolicy × NormalizationInfo
normalize_circuit c n =
    let (threshold, m) =
      normalize_floor (pos 5) min_circuit_threshold "circuit.threshold" c.threshold n in
    let (cooldown, k) =
      normalize_floor (pos 10_000_000_000) min_circuit_cooldown "circuit.cooldown" c.cooldown m in
    (record c { threshold = threshold; cooldown = cooldown }, k)

-- The part after the retry policy: two early returns, so the circuit is reached only if hedging is
-- enabled.
pub normalize_rest :
    HedgePolicy
    → CircuitPolicy
    → NormalizationInfo
    → HedgePolicy × CircuitPolicy × NormalizationInfo
normalize_rest h c n =
    let (h', m) = normalize_hedge h n in
    let (c', k) = normalize_circuit c m in
    if h.enabled then (if c.enabled then (h', c', k) else (h', c, m)) else (h, c, n)

module _ {F : Type 0} ⦃fl : Float F⦄ where
  pub normalize_multiplier : F → NormalizationInfo → F × NormalizationInfo
  normalize_multiplier x n =
      let (y, m) =
        set_if (fl.eq x (fl.of_ℤ (pos 0))) (fl.of_ℤ (pos 2)) "retry.backoff_multiplier" (x, n) in
      if fl.lt y (fl.of_ℤ (pos 1))
      then (fl.of_ℤ (pos 1), mark_changed "retry.backoff_multiplier" m)
      else set_if (fl.lt (fl.of_ℤ (pos 10)) y) (fl.of_ℤ (pos 10)) "retry.backoff_multiplier" (y, m)

  -- The blocks before the `switch`: attempts, backoffs and multiplier.
  pub normalize_backoffs : RetryPolicy F → NormalizationInfo → RetryPolicy F × NormalizationInfo
  normalize_backoffs r n =
      let (attempts, n1) = normalize_max_attempts r.max_attempts n in
      let (initial, n2) =
        normalize_floor (pos 10_000_000) min_backoff_floor "retry.initial_backoff" r.initial_backoff
          n1 in
      let (max, n3) = normalize_max_backoff initial r.max_backoff n2 in
      let (multiplier, n4) = normalize_multiplier r.backoff_multiplier n3 in
      (
        record r {
          max_attempts = attempts;
          initial_backoff = initial;
          max_backoff = max;
          backoff_multiplier = multiplier;
        },
        n4,
      )

  -- The blocks after the `switch`, up to the costs of the two budgets.
  pub normalize_limits : RetryPolicy F → NormalizationInfo → RetryPolicy F × NormalizationInfo
  normalize_limits r n =
      let (per_attempt, n1) =
        normalize_timeout "retry.timeout_per_attempt" r.timeout_per_attempt n in
      let (overall, n2) = normalize_timeout "retry.overall_timeout" r.overall_timeout n1 in
      let (cost, n3) = normalize_cost "retry.budget.cost" r.budget.cost n2 in
      (
        record r {
          timeout_per_attempt = per_attempt;
          overall_timeout = overall;
          budget = record { name = r.budget.name; cost = cost };
        },
        n3,
      )

  -- What follows a valid jitter.
  pub normalize_valid : EffectivePolicy F → RetryPolicy F → NormalizationInfo → EffectivePolicy F
  normalize_valid p r n =
      let (r', n1) = normalize_limits r n in
      let (cost, n2) = normalize_cost "hedge.budget.cost" p.hedge.budget.cost n1 in
      let hedge = record (p.hedge) {
        budget = record { name = p.hedge.budget.name; cost = cost };
      } in
      let (hedge', circuit, n3) = normalize_rest hedge p.circuit n2 in
      record p {
        retry = r';
        hedge = hedge';
        circuit = circuit;
        meta = record { source = p.meta.source; normalization = n3 };
      }

  pub normalize_at :
      EffectivePolicy F
      → RetryPolicy F
      → Option (String × NormalizationInfo)
      → EffectivePolicy F × Option NormalizeError
  normalize_at p r none = (
    bare_policy (record { namespace = ""; name = "" }) (pos 0),
    some (record { field = "retry.jitter"; value = r.jitter }),
  )
  normalize_at p r (some (jitter, n)) = (normalize_valid p (record r { jitter = jitter }) n, none)

  pub normalize_blocks : EffectivePolicy F → EffectivePolicy F × Option NormalizeError
  normalize_blocks p =
      let (r, n) = normalize_backoffs p.retry p.meta.normalization in
      normalize_at p r (normalize_jitter r.jitter n)

  -- `EffectivePolicy.Normalize`. The line opens every block, for the modules that run it.
  unfoldable pub normalize : EffectivePolicy F → EffectivePolicy F × Option NormalizeError
  unfolding normalize_blocks normalize_backoffs normalize_jitter normalize_valid normalize_at
      normalize_limits normalize_cost normalize_rest normalize_timeout normalize_hedge
      normalize_circuit normalize_max_attempts normalize_floor normalize_max_backoff
      normalize_multiplier normalize_max_hedges mark_changed
  normalize p = normalize_blocks p

  pub normalize-eq-blocks : (p : EffectivePolicy F) → normalize p ≡ normalize_blocks p
  unfolding normalize
  normalize-eq-blocks p = refl
