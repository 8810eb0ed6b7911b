-- ===== src/Retry/Backoff/Bounds.antt =====
-- What the backoff arithmetic of retry/executor.go keeps to: the sleeps and backoffs are not
-- negative, and not above a positive `MaxBackoff`.
use recourse.Common.{String, Bool, true, false, arith, ◌||◌, if◌then◌else◌}
use recourse.Common.Int.{ℤ, pos, ◌≤ℤ◌, ltb_ℤ}
use recourse.Common.Text.{str_eq}
use recourse.Common.Float.{Float}
use recourse.Policy.{RetryPolicy}
use recourse.Classify.{Outcome}
use recourse.Retry.{Env, St, Exit, returned, pure, effect, ◌>>=◌}
use recourse.Retry.Backoff.{
  cap_backoff, next_backoff, apply_jitter, compute_sleep, jitter_full, jitter_equal,
}

-- `d` is a wait under the ceiling `max`, where a ceiling that is not positive is none.
pub record IsWait (max d : ℤ) : Type 0 where
  pub low : pos 0 ≤ℤ d
  pub high : pos 1 ≤ℤ max → d ≤ℤ max

cap-IsWait : (d max : ℤ) → IsWait max (cap_backoff d max)
unfolding cap_backoff
cap-IsWait d max = ground arith

-- A result that is returned, with a property.
pub data Returns {A : Type 0} (P : A → Type 0) : Exit A → Type 0 where
  returns : (a : A) → P a → Returns P (returned a)

module _ {F V W B C : Type 0} ⦃fl : Float F⦄ (env : Env F V W B C) where
  -- A jitter that is capped is a wait.
  jitter-IsWait :
      (backoff max : ℤ) (kind : String) (s : St W)
      → Returns (IsWait max) ((apply_jitter env backoff kind >>= λ d. pure (cap_backoff d max)) s).0
  unfolding apply_jitter
  jitter-IsWait backoff max kind s =
      go (str_eq kind "none" || str_eq kind "") (str_eq kind "full") (str_eq kind "equal")
    where
      go :
          (plain full equal : Bool)
          → Returns
              (IsWait max)
              (((if plain
                    then pure backoff
                    else if full
                    then (effect env.rand >>= λ r. pure (jitter_full backoff r))
                    else if equal
                    then (effect env.rand >>= λ r. pure (jitter_equal backoff r))
                    else pure backoff)
                  >>= λ d. pure (cap_backoff d max))
                s).0
      go true full equal = returns (cap_backoff backoff max) (cap-IsWait backoff max)
      go false true equal =
          let d = jitter_full backoff (env.rand s.world).0 in
          returns (cap_backoff d max) (cap-IsWait d max)
      go false false true =
          let d = jitter_equal backoff (env.rand s.world).0 in
          returns (cap_backoff d max) (cap-IsWait d max)
      go false false false = returns (cap_backoff backoff max) (cap-IsWait backoff max)

  -- The time to sleep is computed without a panic, for every jitter, random number and override of
  -- the classifier; it is not negative and, where `MaxBackoff` is positive, not above it.
  pub compute_sleep-IsWait :
      (backoff : ℤ) (pol : RetryPolicy F) (out : Outcome) (s : St W)
      → Returns (IsWait pol.max_backoff) (compute_sleep env backoff pol out s).0
  unfolding compute_sleep
  compute_sleep-IsWait backoff pol out s = go (ltb_ℤ (pos 0) out.backoff_override)
    where
      go :
          (b : Bool)
          → Returns
              (IsWait pol.max_backoff)
              ((if b
                  then pure (cap_backoff out.backoff_override pol.max_backoff)
                  else (apply_jitter env backoff pol.jitter >>= λ d.
                      pure (cap_backoff d pol.max_backoff)))
                s).0
      go true =
          returns (cap_backoff out.backoff_override pol.max_backoff)
            (cap-IsWait out.backoff_override pol.max_backoff)
      go false = jitter-IsWait backoff pol.max_backoff pol.jitter s

module _ {F : Type 0} ⦃fl : Float F⦄ where
  -- The next backoff is not negative and, where `MaxBackoff` is positive, not above it, whatever the
  -- multiplier makes of the current one.
  pub next_backoff-IsWait :
      (current : ℤ) (multiplier : F) (max : ℤ) → IsWait max (next_backoff current multiplier max)
  unfolding next_backoff
  next_backoff-IsWait current multiplier max = ground arith
