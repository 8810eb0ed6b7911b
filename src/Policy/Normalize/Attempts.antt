-- ===== src/Policy/Normalize/Attempts.antt =====
-- The attempts of any policy that `Normalize` returns, also next to an error.
use recourse.Common.{String, ◌≡◌, refl, Option, none, some, arith}
use recourse.Common.Int.{pos, ◌≤ℤ◌}
use recourse.Common.Float.{Float}
use recourse.Policy.{RetryPolicy, NormalizationInfo, EffectivePolicy}
use recourse.Policy.Defaults.{bare_policy}
use recourse.Policy.Normalize.{
  normalize_jitter, normalize_backoffs, normalize_limits, normalize_valid, normalize_at,
  normalize_blocks, normalize, normalize-eq-blocks,
}
use recourse.Policy.Normalize.Bounds.{max_attempts_bounds}

module _ {F : Type 0} ⦃fl : Float F⦄ where
  valid-attempts :
      (p : EffectivePolicy F) (r : RetryPolicy F) (n : NormalizationInfo)
      → (normalize_valid p r n).retry.max_attempts ≡ r.max_attempts
  unfolding normalize_valid normalize_limits
  valid-attempts p r n = refl

  backoffs-attempts :
      (r : RetryPolicy F) (n : NormalizationInfo)
      → (normalize_backoffs r n).0.max_attempts ≤ℤ pos 10
  unfolding normalize_backoffs
  backoffs-attempts r n = (max_attempts_bounds r.max_attempts n).1

  blocks-attempts_high :
      (p : EffectivePolicy F) → (normalize_blocks p).0.retry.max_attempts ≤ℤ pos 10
  unfolding normalize_blocks normalize_at bare_policy
  blocks-attempts_high p =
      let (r, n) = normalize_backoffs p.retry p.meta.normalization in
      go r (normalize_jitter r.jitter n) (backoffs-attempts p.retry p.meta.normalization)
    where
      go :
          (r : RetryPolicy F) (o : Option (String × NormalizationInfo))
          → r.max_attempts ≤ℤ pos 10
          → (normalize_at p r o).0.retry.max_attempts ≤ℤ pos 10
      go r none b = omega arith
      go r (some (j, m)) b = rw (valid-attempts p (record r { jitter = j }) m) b

  -- The policy that `Normalize` returns, also next to an error, asks for at most ten attempts.
  pub normalize-attempts_high :
      (p : EffectivePolicy F) → (normalize p).0.retry.max_attempts ≤ℤ pos 10
  normalize-attempts_high p = rw normalize-eq-blocks (blocks-attempts_high p)
