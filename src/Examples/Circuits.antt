-- ===== src/Examples/Circuits.antt =====
-- circuit/breaker.go and circuit/registry.go on concrete runs.
use recourse.Common.{true, ◌≡◌, refl, [], ◌∷◌, ◌++◌, arith, ◌⊎◌}
use recourse.Common.Int.{pos, ◌+ℤ◌, ◌<ℤ◌}
use recourse.Policy.{CircuitPolicy}
use recourse.Policy.Key.{key_eq}
use recourse.Circuit.{
  Breaker, new_breaker, closed, open_state, call, run, allow, try_allow, report_success,
  report_failure, ask_state,
}
use recourse.Circuit.Invariant.{Inv, runs-Inv}
use recourse.Circuit.Behaviour.{
  view, wake, circuit_step, admits, call-refines, failures_at, failures_trip, refused_open,
  refused_probe, open_until_cooldown, is_silent, lost_probe_locks,
}

-- A breaker that opens at two failures and cools down in 100 ns.
abbrev two : Breaker
two = new_breaker (pos 2) (pos 100)

abbrev failed : Breaker
failed = run ((report_failure, pos 1) ∷ (report_failure, pos 5) ∷ []) two

-- The same, after the cooldown and the start of the probe.
abbrev probed : Breaker
probed = run ((try_allow, pos 200) ∷ []) failed

recovers : (run ((report_success, pos 210) ∷ []) probed).state ≡ closed
unfolding run new_breaker call ◌+ℤ◌
recovers = refl

runs-Inv_example :
    Inv (run ((report_failure, pos 1) ∷ (try_allow, pos 300) ∷ []) (new_breaker (pos 2) (pos 100)))
runs-Inv_example = runs-Inv ((report_failure, pos 1) ∷ (try_allow, pos 300) ∷ []) (pos 2) (pos 100)

probed-Inv : Inv probed
unfolding run new_breaker call ◌+ℤ◌
probed-Inv = ground arith

call-refines_example :
    (view (call report_failure (pos 300) probed)
      ≡ circuit_step probed.threshold
          (pos 300)
          report_failure
          (wake probed.cooldown (pos 300) (view probed)))
    × ((allow (pos 300) probed).1.allowed ≡ admits (wake probed.cooldown (pos 300) (view probed)))
call-refines_example = call-refines report_failure (pos 300) probed probed-Inv

failures_trip_example :
    let opened = run (failures_at (pos 1 ∷ []) ++ (report_failure, pos 5) ∷ []) two in
    ((run (failures_at (pos 1 ∷ [])) two).state ≡ closed)
    × (((pos 2 <ℤ two.threshold) × (opened.state ≡ closed))
        ⊎ ((two.threshold ≡ pos 2) × (opened.state ≡ open_state) × (opened.open_time ≡ pos 5)))
unfolding new_breaker
failures_trip_example = failures_trip (pos 1 ∷ []) (pos 5) two refl refl (omega arith)

open_until_cooldown_example :
    (run ((try_allow, pos 20) ∷ (report_success, pos 30) ∷ []) failed ≡ failed)
    × ((allow (pos 104) (run ((try_allow, pos 20) ∷ (report_success, pos 30) ∷ []) failed)).1
        ≡ refused_open)
unfolding run new_breaker call ◌+ℤ◌
open_until_cooldown_example =
    open_until_cooldown ((try_allow, pos 20) ∷ (report_success, pos 30) ∷ []) (pos 104) failed refl
      (omega arith) (omega arith)

lost_probe_locks_example :
    (run ((try_allow, pos 900) ∷ (ask_state, pos 9_000) ∷ []) probed ≡ probed)
    × ((allow (pos 90_000) (run ((try_allow, pos 900) ∷ (ask_state, pos 9_000) ∷ []) probed)).1
        ≡ refused_probe)
unfolding run new_breaker call is_silent
lost_probe_locks_example =
    lost_probe_locks ((try_allow, pos 900) ∷ (ask_state, pos 9_000) ∷ []) (pos 90_000) probed refl
      (omega arith) (refl, (refl, tt))

abbrev guarded : CircuitPolicy
guarded = record { enabled = true; threshold = pos 3; cooldown = pos 50 }

abbrev stricter : CircuitPolicy
stricter = record { enabled = true; threshold = pos 1; cooldown = pos 50 }
