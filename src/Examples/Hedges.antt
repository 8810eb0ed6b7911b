-- ===== src/Examples/Hedges.antt =====
-- hedge/tracker.go, hedge/triggers.go and hedge/fixed_delay.go on concrete samples.
use recourse.Common.{true, false, ◌≡◌, refl, List, [], ◌∷◌, arith}
use recourse.Common.Int.{wrap_64, ℤ, pos, ◌*ℤ◌, ◌-ℤ◌, ◌+ℤ◌, ◌<ℤ◌}
use recourse.Common.Text.{to_lower}
use recourse.Hedge.{HedgeState}
use recourse.Hedge.Tracker.{new_tracker}
use recourse.Hedge.Tracker.Window.{Inv, window, observe_all, last, observe_all-window}
use recourse.Hedge.Triggers.{
  at_limit, fixed_delay_at, delay_of, fixed_delay, later, latency, fixed_delay_punctual,
}
use recourse.Examples.{thousandths}

abbrev samples : List ℤ
samples = pos 30 ∷ pos 10 ∷ pos 20 ∷ pos 40 ∷ []

observe_all-window_example :
    (window (observe_all samples (new_tracker (pos 3))) ≡ last 3 samples)
    × Inv (observe_all samples (new_tracker (pos 3)))
observe_all-window_example = observe_all-window (pos 3) samples

-- The primary attempt has run for 4 ns; a hedge follows after 10 ns.
abbrev waiting : HedgeState
waiting = record {
  call_start = pos 0;
  attempt_start = pos 0;
  attempts_launched = pos 1;
  max_hedges = pos 2;
  elapsed = pos 4;
  snapshot = record { p50 = pos 1; p90 = pos 3; p95 = pos 7; p99 = pos 9 };
  hedge_delay = pos 10;
}

latency_spawns : latency "P90" waiting ≡ (true, pos 0)
unfolding latency to_lower
latency_spawns = refl

fixed_delay_punctual_example :
    ((fixed_delay (pos 50) waiting).0 ≡ false)
    × ((fixed_delay (pos 50) (later (fixed_delay (pos 50) waiting).1 waiting)).0 ≡ true)
    × (pos 5 <ℤ (fixed_delay (pos 50) waiting).1
        → (fixed_delay (pos 50) (later (pos 5) waiting)).0 ≡ false)
unfolding fixed_delay delay_of fixed_delay_at at_limit ◌*ℤ◌ ◌-ℤ◌ ◌+ℤ◌ wrap_64
fixed_delay_punctual_example = fixed_delay_punctual (pos 50) (pos 5) waiting (omega arith)
