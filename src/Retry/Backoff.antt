-- ===== src/Retry/Backoff.antt =====
-- The backoff arithmetic of retry/executor.go: `nextBackoff`, `applyJitter`, `capBackoff`,
-- `computeSleep`.
pub mod Bounds
use recourse.Common.{
  String, Bool, true, false, ◌≡◌, ◌≤◌, ◌<◌, ◌⊎◌, arith, ◌&&◌, ◌||◌, if◌then◌else◌, Bool-cases, inl,
  inr,
}
use recourse.Common.Int.{ℤ, pos, ◌≤ℤ◌, ◌<ℤ◌, ltb_ℤ, leb_ℤ, pos_part, neg_part}
use recourse.Common.Text.{str_eq}
use recourse.Common.Float.{Float}
use recourse.Policy.{RetryPolicy}
use recourse.Classify.{Outcome}
use recourse.Retry.{Env, M, ◌>>=◌, pure, effect}

unfoldable pub cap_backoff : ℤ → ℤ → ℤ
cap_backoff d max =
    if ltb_ℤ d (pos 0) then pos 0 else if ltb_ℤ (pos 0) max && ltb_ℤ max d then max else d

-- The duration that a jitter kind makes of a backoff, with the random number that `rand.Float64`
-- returns where the kind asks for one.
module _ {F : Type 0} ⦃fl : Float F⦄ where
  unfoldable pub next_backoff : ℤ → F → ℤ → ℤ
  next_backoff current multiplier max =
      let raw = fl.to_ℤ (fl.mul (fl.of_ℤ current) multiplier) in
      let next = if ltb_ℤ raw (pos 0) then pos 0 else raw in
      if ltb_ℤ (pos 0) max && ltb_ℤ max next then max else next

  unfoldable pub jitter_full : ℤ → F → ℤ
  jitter_full backoff r = fl.to_ℤ (fl.mul r (fl.of_ℤ backoff))

  unfoldable pub jitter_equal : ℤ → F → ℤ
  jitter_equal backoff r =
      let half = fl.div (fl.of_ℤ backoff) (fl.of_ℤ (pos 2)) in fl.to_ℤ (fl.add half (fl.mul r half))

  module _ {V W B C : Type 0} (env : Env F V W B C) where
    unfoldable pub apply_jitter : ℤ → String → M W ℤ
    unfolding jitter_full jitter_equal
    apply_jitter backoff kind =
        if str_eq kind "none" || str_eq kind ""
        then pure backoff
        else if str_eq kind "full"
        then (effect env.rand >>= λ r. pure (jitter_full backoff r))
        else if str_eq kind "equal"
        then (effect env.rand >>= λ r. pure (jitter_equal backoff r))
        else pure backoff

    unfoldable pub compute_sleep : ℤ → RetryPolicy F → Outcome → M W ℤ
    unfolding apply_jitter cap_backoff
    compute_sleep backoff pol out =
        if ltb_ℤ (pos 0) out.backoff_override
        then pure (cap_backoff out.backoff_override pol.max_backoff)
        else (apply_jitter backoff pol.jitter >>= λ d. pure (cap_backoff d pol.max_backoff))
