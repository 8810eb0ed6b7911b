-- ===== src/Retry/Full/Agreement/Loops.antt =====
-- The loops of the two paths, for a policy without hedges, circuit and budget.
use recourse.Common.{ℕ, Bool, true, false, ◌≡◌, Option, none, some}
use recourse.Common.Int.{ℤ}
use recourse.Common.Float.{Float}
use recourse.Common.Text.{is_empty, trim_space}
use recourse.Policy.{PolicyKey, EffectivePolicy}
use recourse.Errors.{Err}
use recourse.Classify.{Outcome}
use recourse.Retry.{Exit, returned, panicked, St, Env, Config, M}
use recourse.Retry.Verdict.{ClassifierMeta, complete_outcome}
use recourse.Retry.Fast.{Round}
use recourse.Retry.Fast as Fast
use recourse.Retry.Full.{Shared, Turn, Vars, Result}
use recourse.Retry.Full as Full
use recourse.Retry.Full.Agreement.{View, finished, failed, crashed, is_denial}

-- What a call comes to: a value, an error or a panic, and the world after it.
abbrev pub fast_end : {V W : Type 0} → Exit (V × Option Err) × St W → View V × W
fast_end (returned (v, none), s) = (finished v, s.world)
fast_end (returned (v, some e), s) = (failed e, s.world)
fast_end (panicked u, s) = (crashed u, s.world)

abbrev pub full_end : {V W : Type 0} → Exit (Result V) × St W → View V × W
full_end (returned (v, tl, none), s) = (finished v, s.world)
full_end (returned (v, tl, some e), s) = (failed e, s.world)
full_end (panicked u, s) = (crashed u, s.world)

-- An environment and schedules in which the two paths can be compared: the clock leaves the world
-- alone, no group comes to the end of its context in place of its attempt's result, no value of the
-- operation's type is a nil interface, and the classifier returns, with a reason other than that of a
-- budget's denial.
pub record IsComparable {F V W B C : Type 0} (env : Env F V W B C) (c : C) (is_nil : V → Bool)
    (ending : ℕ → W → Option Err × W) : Type 0 where
  pub still : (w : W) → (env.clock w).1 ≡ w
  pub settled : (attempt : ℕ) (w : W) → ending attempt w ≡ (none, w)
  pub some_value : (v : V) → is_nil v ≡ false
  pub calm :
      (v : V) (err : Option Err) (w : W)
      → (out : Outcome) × (((env.classify c v err w).0 ≡ returned out)
          × (is_denial (complete_outcome out) ≡ false))

module _ {F V W B C : Type 0} ⦃fl : Float F⦄ (env : Env F V W B C) (cfg : Config B C)
    (sh : Shared W) (key : PolicyKey) (pol : EffectivePolicy F) (c : C) (meta : ClassifierMeta)
    (is_nil : V → Bool) (ending : ℕ → W → Option Err × W) (plain : IsComparable env c is_nil ending)
    (unbudgeted : is_empty (trim_space pol.retry.budget.name) ≡ true) where
  -- The rest of the loops after a round on each.
  abbrev rest_of_fast :
      (V → Option Err → ℤ → M W (V × Option Err))
      → Exit (Round V) × St W
      → Exit (V × Option Err) × St W
  rest_of_fast rest (returned t, s) = Fast.after_round env cfg key rest t s
  rest_of_fast rest (panicked u, s) = (panicked u, s)

  abbrev rest_of_full : (Vars → M W (Result V)) → Exit (Turn V) × St W → Exit (Result V) × St W
  rest_of_full rest (returned t, s) = Full.after_round env cfg sh key rest t s
  rest_of_full rest (panicked u, s) = (panicked u, s)
