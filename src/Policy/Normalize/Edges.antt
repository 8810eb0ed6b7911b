-- ===== src/Policy/Normalize/Edges.antt =====
-- Where `Normalize` fails, and what its early returns and its order of limits leave out.
use recourse.Common.{false, ◌≡◌, refl, ◌⊎◌, ◌↔◌, none, some, arith}
use recourse.Common.Int.{pos, ◌≤ℤ◌}
use recourse.Common.Float.{Float}
use recourse.Policy.{RetryPolicy, NormalizationInfo, EffectivePolicy}
use recourse.Policy.Normalize.{
  normalize_max_attempts, normalize_rest, normalize_backoffs, normalize_limits, normalize_valid,
  normalize_at, normalize_blocks, normalize, normalize-eq-blocks,
}
use recourse.Policy.Normalize.Bounds.{IsJitter}
use recourse.Policy.Normalize.Stable.{floor_fixed, max_backoff_capped, IsJitter-accepts}

module _ {F : Type 0} ⦃fl : Float F⦄ where
  backoffs-jitter :
      (r : RetryPolicy F) (n : NormalizationInfo) → (normalize_backoffs r n).0.jitter ≡ r.jitter
  unfolding normalize_backoffs
  backoffs-jitter r n = refl

  blocks_error :
      (p : EffectivePolicy F)
      → (((normalize_blocks p).1 ≡ none) ↔ ((p.retry.jitter ≡ "") ⊎ IsJitter p.retry.jitter))
        × (((normalize_blocks p).1 ≡ none)
            ⊎ ((normalize_blocks p).1
                ≡ some (record { field = "retry.jitter"; value = p.retry.jitter })))
  unfolding normalize_blocks normalize_at
  blocks_error p =
      let (r, n) = normalize_backoffs p.retry p.meta.normalization in
      ground (arith, IsJitter-accepts r.jitter n, backoffs-jitter p.retry p.meta.normalization)

  blocks-circuit_skipped :
      (p : EffectivePolicy F)
      → p.hedge.enabled ≡ false
      → (normalize_blocks p).1 ≡ none
      → (normalize_blocks p).0.circuit ≡ p.circuit
  unfolding normalize_blocks normalize_at normalize_valid normalize_rest
  blocks-circuit_skipped p off = ground arith

  blocks-max_backoff :
      (p : EffectivePolicy F)
      → pos 30_000_000_000 ≤ℤ p.retry.initial_backoff
      → (normalize_blocks p).1 ≡ none
      → ((normalize_blocks p).0.retry.initial_backoff ≡ p.retry.initial_backoff)
        × ((normalize_blocks p).0.retry.max_backoff ≡ p.retry.initial_backoff)
  unfolding normalize_blocks normalize_at normalize_valid normalize_limits normalize_backoffs
  blocks-max_backoff p h =
      let (attempts, n1) = normalize_max_attempts p.retry.max_attempts p.meta.normalization in
      ground (
        arith,
        floor_fixed (pos 10_000_000) (pos 1_000_000) p.retry.initial_backoff "retry.initial_backoff"
            n1 (omega arith) (omega arith),
        max_backoff_capped p.retry.initial_backoff p.retry.max_backoff n1 h,
      )

  -- `Normalize` fails exactly on a jitter that is neither empty nor one of the three kinds, and the
  -- error names the field and that jitter.
  pub normalize_error :
      (p : EffectivePolicy F)
      → (((normalize p).1 ≡ none) ↔ ((p.retry.jitter ≡ "") ⊎ IsJitter p.retry.jitter))
        × (((normalize p).1 ≡ none)
            ⊎ ((normalize p).1 ≡ some (record { field = "retry.jitter"; value = p.retry.jitter })))
  normalize_error p = rw normalize-eq-blocks (blocks_error p)

  -- With hedging off, a policy's circuit settings come out as they went in: the limits on
  -- threshold and cooldown are not applied.
  pub normalize-circuit_skipped :
      (p : EffectivePolicy F)
      → p.hedge.enabled ≡ false
      → (normalize p).1 ≡ none
      → (normalize p).0.circuit ≡ p.circuit
  normalize-circuit_skipped p off = rw normalize-eq-blocks (blocks-circuit_skipped p off)

  -- With an initial backoff above the ceiling of 30 s the normalised maximal backoff is that initial
  -- backoff, whatever maximum was asked for.
  pub normalize-max_backoff_unbounded :
      (p : EffectivePolicy F)
      → pos 30_000_000_000 ≤ℤ p.retry.initial_backoff
      → (normalize p).1 ≡ none
      → ((normalize p).0.retry.initial_backoff ≡ p.retry.initial_backoff)
        × ((normalize p).0.retry.max_backoff ≡ p.retry.initial_backoff)
  normalize-max_backoff_unbounded p h = rw normalize-eq-blocks (blocks-max_backoff p h)
