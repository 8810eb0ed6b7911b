-- ===== src/Hedge/Triggers.antt =====
-- hedge/triggers.go, hedge/fixed_delay.go: when a trigger asks for a hedge. A trigger is given a
-- `HedgeState` and answers whether to spawn, and how long to wait before it is asked again.
use recourse.Common.{String, Bool, true, false, ◌≡◌, ◌↔◌, if◌then◌else◌, arith}
use recourse.Common.Int.{ℤ, pos, ◌+ℤ◌, ◌-ℤ◌, ◌*ℤ◌, wrap_64, ltb_ℤ, leb_ℤ, ◌≤ℤ◌, ◌<ℤ◌}
use recourse.Common.Text.{str_eq, to_lower}
use recourse.Hedge.{HedgeState, LatencySnapshot}

-- `state.AttemptsLaunched >= 1+state.MaxHedges`
unfoldable pub at_limit : HedgeState → Bool
unfolding ◌+ℤ◌
at_limit s = leb_ℤ (pos 1 +ℤ s.max_hedges) s.attempts_launched

-- The lines after `target` is known.
unfoldable pub fixed_delay_at : ℤ → HedgeState → Bool × ℤ
unfolding ◌-ℤ◌
fixed_delay_at target s =
    if ltb_ℤ s.elapsed target then (false, target -ℤ s.elapsed) else (true, pos 0)

-- The delay between attempts, which the policy may set.
unfoldable pub delay_of : ℤ → HedgeState → ℤ
delay_of configured s = if ltb_ℤ (pos 0) s.hedge_delay then s.hedge_delay else configured

-- `FixedDelayTrigger{Delay}.ShouldSpawnHedge`, with the product in 64 bits.
unfoldable pub fixed_delay : ℤ → HedgeState → Bool × ℤ
unfolding at_limit
fixed_delay configured s =
    if at_limit s
    then (false, pos 0)
    else fixed_delay_at (wrap_64 (delay_of configured s *ℤ s.attempts_launched)) s

-- The `switch` on the percentile: the threshold, which is 0 where the function returns at once.
unfoldable pub threshold_of : String → LatencySnapshot → ℤ
threshold_of percentile snapshot =
    let p = to_lower percentile in
    if str_eq p "p50"
    then snapshot.p50
    else if str_eq p "p90"
    then snapshot.p90
    else if str_eq p "p95"
    then snapshot.p95
    else if str_eq p "p99"
    then snapshot.p99
    else pos 0

-- The lines after the `switch`.
unfoldable pub latency_at : ℤ → HedgeState → Bool × ℤ
unfolding at_limit ◌-ℤ◌
latency_at threshold s =
    if leb_ℤ threshold (pos 0)
    then (false, pos 0)
    else if ltb_ℤ threshold s.elapsed
    then (if at_limit s then (false, pos 0) else (true, pos 0))
    else (false, threshold -ℤ s.elapsed)

-- `LatencyTrigger{Percentile}.ShouldSpawnHedge`.
unfoldable pub latency : String → HedgeState → Bool × ℤ
unfolding latency_at threshold_of
latency percentile s = latency_at (threshold_of percentile s.snapshot) s

-- The state a time `d` later, with nothing else changed.
abbrev pub later : ℤ → HedgeState → HedgeState
later d s = record s { elapsed = s.elapsed +ℤ d }

at-punctual :
    (target d : ℤ) (s : HedgeState)
    → pos 1 ≤ℤ (fixed_delay_at target s).1
    → ((fixed_delay_at target s).0 ≡ false)
      × ((fixed_delay_at target (later (fixed_delay_at target s).1 s)).0 ≡ true)
      × (d <ℤ (fixed_delay_at target s).1 → (fixed_delay_at target (later d s)).0 ≡ false)
unfolding fixed_delay_at ◌+ℤ◌ ◌-ℤ◌
at-punctual target d s h = ground arith

-- While the fixed-delay trigger asks to wait, it does not spawn; once that long has passed with no
-- attempt launched since, it does, and at any time before, it does not.
pub fixed_delay_punctual :
    (configured d : ℤ) (s : HedgeState)
    → pos 1 ≤ℤ (fixed_delay configured s).1
    → ((fixed_delay configured s).0 ≡ false)
      × ((fixed_delay configured (later (fixed_delay configured s).1 s)).0 ≡ true)
      × (d <ℤ (fixed_delay configured s).1 → (fixed_delay configured (later d s)).0 ≡ false)
unfolding fixed_delay delay_of
fixed_delay_punctual configured d s h =
    ground (arith, at-punctual (wrap_64 (delay_of configured s *ℤ s.attempts_launched)) d s)

-- A latency trigger spawns exactly where the attempts are below the limit, the percentile's sample is
-- positive and the elapsed time is above it.
pub latency_late :
    (percentile : String) (s : HedgeState)
    → ((latency percentile s).0 ≡ true) ↔ (
        (at_limit s ≡ false)
        × (pos 1 ≤ℤ threshold_of percentile s.snapshot)
        × (threshold_of percentile s.snapshot <ℤ s.elapsed))
unfolding latency latency_at
latency_late percentile s = ground arith
