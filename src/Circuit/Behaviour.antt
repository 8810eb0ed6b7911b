-- ===== src/Circuit/Behaviour.antt =====
-- The behaviour of the breaker over runs of calls, and its refinement of an abstract circuit.
use recourse.Common.{
  ℕ, suc, ◌+◌, ◌≡◌, refl, Bool, true, false, arith, List, [], ◌∷◌, map, length, All, ap, ◌∙◌, ◌++◌,
  if◌then◌else◌, ◌⊎◌, inl, inr, Bool-cases,
}
use recourse.Common.Int.{ltb_ℤ, ℤ, pos, ◌≤ℤ◌, ◌<ℤ◌, ◌+ℤ◌, ◌-ℤ◌, leb_ℤ, ◌==ℤ◌}
use recourse.Circuit.{
  Breaker, State, closed, open_state, half_open, Call, try_allow, report_success, report_failure,
  ask_state, call, run, allow, Decision,
}
use recourse.Circuit.Invariant.{Inv}

-- The abstract circuit: closed after so many failures in a row, open since a time, or probing, with
-- or without a probe out.
pub data Circuit : Type 0 where
  shut : ℤ → Circuit
  tripped : ℤ → Circuit
  probing : Bool → Circuit

pub view_at : State → Breaker → Circuit
view_at closed cb = shut cb.consecutive_failures
view_at open_state cb = tripped cb.open_time
view_at half_open cb = probing (cb.probes_sent ==ℤ pos 1)

pub view : Breaker → Circuit
unfolding view_at
view cb = view_at cb.state cb

-- A circuit that has been open for the cooldown is probing.
pub wake : ℤ → ℤ → Circuit → Circuit
wake cooldown now (shut n) = shut n
wake cooldown now (tripped since) =
    if leb_ℤ cooldown (now -ℤ since) then probing false else tripped since
wake cooldown now (probing out) = probing out

pub circuit_step : ℤ → ℤ → Call → Circuit → Circuit
circuit_step threshold now try_allow (shut n) = shut n
circuit_step threshold now try_allow (tripped since) = tripped since
circuit_step threshold now try_allow (probing out) = probing true
circuit_step threshold now report_success (shut n) = shut (pos 0)
circuit_step threshold now report_success (tripped since) = tripped since
circuit_step threshold now report_success (probing out) = shut (pos 0)
circuit_step threshold now report_failure (shut n) =
    if leb_ℤ threshold (n +ℤ pos 1) then tripped now else shut (n +ℤ pos 1)
circuit_step threshold now report_failure (tripped since) = tripped since
circuit_step threshold now report_failure (probing out) = tripped now
circuit_step threshold now ask_state c = c

-- Which calls the abstract circuit lets through.
pub admits : Circuit → Bool
admits (shut n) = true
admits (tripped since) = false
admits (probing true) = false
admits (probing false) = true

-- Every call on a breaker in a valid state is the step of the abstract circuit, after the wake-up
-- that the cooldown calls for, and `Allow` grants exactly what that circuit admits.
pub call-refines :
    (c : Call) (now : ℤ) (cb : Breaker)
    → Inv cb
    → (view (call c now cb) ≡ circuit_step cb.threshold now c (wake cb.cooldown now (view cb)))
      × ((allow now cb).1.allowed ≡ admits (wake cb.cooldown now (view cb)))
unfolding call view wake circuit_step admits
call-refines try_allow now cb h = ground arith
call-refines report_success now cb h = ground arith
call-refines report_failure now cb h = ground arith
call-refines ask_state now cb h = ground arith

abbrev pub failures_at : List ℤ → List (Call × ℤ)
failures_at = map (λ t. (report_failure, t))

failure_step :
    (t : ℤ) (cb : Breaker) (k : ℕ)
    → cb.state ≡ closed
    → cb.consecutive_failures ≡ pos k
    → pos (suc k) <ℤ cb.threshold
    → let cb' = call report_failure t cb in
      (cb'.state ≡ closed)
      × (cb'.consecutive_failures ≡ pos (suc k))
      × (cb'.threshold ≡ cb.threshold)
unfolding call
failure_step t cb k s e h = ground arith

failure_trips :
    (t : ℤ) (cb : Breaker) (k : ℕ)
    → cb.state ≡ closed
    → cb.consecutive_failures ≡ pos k
    → cb.threshold ≡ pos (suc k)
    → ((call report_failure t cb).state ≡ open_state) × ((call report_failure t cb).open_time ≡ t)
unfolding call
failure_trips t cb k s e h = ground arith

-- A closed breaker that has counted `k` failures: `n` more leave it closed, with `k + n` counted, if
-- that is below the threshold.
failures_count :
    (ts : List ℤ) (cb : Breaker) (k : ℕ)
    → cb.state ≡ closed
    → cb.consecutive_failures ≡ pos k
    → pos (k + length ts) <ℤ cb.threshold
    → let cb' = run (failures_at ts) cb in
      (cb'.state ≡ closed)
      × (cb'.consecutive_failures ≡ pos (k + length ts))
      × (cb'.threshold ≡ cb.threshold)
unfolding run
failures_count [] cb k s e h = ground arith
failures_count (t ∷ ts) cb k s e h =
    let (s', e', h') = failure_step t cb k s e (omega arith) in
    let (closed', count', threshold') =
      failures_count ts (call report_failure t cb) (suc k) s' e' (rw h' (omega arith)) in
    (closed', count' ∙ ap pos (omega arith), threshold' ∙ h')

run-append : (cs ds : List (Call × ℤ)) (cb : Breaker) → run (cs ++ ds) cb ≡ run ds (run cs cb)
unfolding run
run-append [] ds cb = refl
run-append ((c, now) ∷ cs) ds cb = run-append cs ds (call c now cb)

-- A closed breaker with no failure counted stays closed through any run of failures that is
-- shorter than its threshold. One more failure leaves it closed where the run with it is still shorter,
-- and otherwise completes the threshold and opens the breaker at that time.
pub failures_trip :
    (ts : List ℤ) (t : ℤ) (cb : Breaker)
    → cb.state ≡ closed
    → cb.consecutive_failures ≡ pos 0
    → pos (length ts) <ℤ cb.threshold
    → let cb' = run (failures_at ts ++ (report_failure, t) ∷ []) cb in
      ((run (failures_at ts) cb).state ≡ closed)
      × (((pos (suc (length ts)) <ℤ cb.threshold) × (cb'.state ≡ closed))
          ⊎ ((cb.threshold ≡ pos (suc (length ts)))
              × (cb'.state ≡ open_state)
              × (cb'.open_time ≡ t)))
failures_trip ts t cb s e short =
    let (closed', count', threshold') = failures_count ts cb 0 s e (omega (arith, short)) in
    let cb1 = run (failures_at ts) cb in
    let count1 : cb1.consecutive_failures ≡ pos (length ts) = count' ∙ ap pos (omega arith) in
    let same = run-append (failures_at ts) ((report_failure, t) ∷ []) cb in
    (
      closed',
      elim (Bool-cases (ltb_ℤ (pos (suc (length ts))) cb.threshold)) [
        | inl shorter ↦
            let below : pos (suc (length ts)) <ℤ cb.threshold = ground (arith, shorter) in
            let step = failure_step t cb1 (length ts) closed' count1 (rw threshold' below) in
            inl (below, rw same (unfold run in step.0))
        | inr full ↦
            let exact : cb.threshold ≡ pos (suc (length ts)) = ground (arith, full, short) in
            let trips = failure_trips t cb1 (length ts) closed' count1 (threshold' ∙ exact) in
            inr (exact, rw same (unfold run in trips.0), rw same (unfold run in trips.1))
      ],
    )

-- The decisions that refuse a call.
abbrev pub refused_open : Decision
refused_open = record { allowed = false; state = open_state; reason = "circuit_open" }

abbrev pub refused_probe : Decision
refused_probe = record {
  allowed = false;
  state = half_open;
  reason = "circuit_half_open_probe_limit";
}

pub open_call :
    (c : Call) (now : ℤ) (cb : Breaker)
    → cb.state ≡ open_state
    → (now -ℤ cb.open_time) <ℤ cb.cooldown
    → (call c now cb ≡ cb) × ((allow now cb).1 ≡ refused_open)
unfolding call allow
open_call try_allow now cb s h = ground arith
open_call report_success now cb s h = ground arith
open_call report_failure now cb s h = ground arith
open_call ask_state now cb s h = ground arith

-- While a breaker is open and its cooldown has not passed, no run of calls changes it, and each
-- attempt in that time is refused with the reason `circuit_open`.
pub open_until_cooldown :
    (cs : List (Call × ℤ)) (now : ℤ) (cb : Breaker)
    → cb.state ≡ open_state
    → All (λ (c : Call × ℤ). (c.1 -ℤ cb.open_time) <ℤ cb.cooldown) cs
    → (now -ℤ cb.open_time) <ℤ cb.cooldown
    → (run cs cb ≡ cb) × ((allow now (run cs cb)).1 ≡ refused_open)
unfolding run
open_until_cooldown [] now cb s w h = (refl, (open_call try_allow now cb s h).1)
open_until_cooldown ((c, t) ∷ cs) now cb s w h =
    rw ((open_call c t cb s w.0).0) (open_until_cooldown cs now cb s w.1 h)

-- The calls that bring no report back.
unfoldable pub is_silent : Call → Bool
is_silent try_allow = true
is_silent report_success = false
is_silent report_failure = false
is_silent ask_state = true

silent_call :
    (c : Call) (now : ℤ) (cb : Breaker)
    → is_silent c ≡ true
    → cb.state ≡ half_open
    → cb.max_probes ≤ℤ cb.probes_sent
    → (call c now cb ≡ cb) × ((allow now cb).1 ≡ refused_probe)
unfolding call allow is_silent
silent_call try_allow now cb q s h = ground arith
silent_call report_success now cb q s h = ground arith
silent_call report_failure now cb q s h = ground arith
silent_call ask_state now cb q s h = ground arith

-- A half-open breaker whose probe never reports back refuses every call from then on: however late
-- the calls come, with no report among them it stays as it is and each attempt is refused.
pub lost_probe_locks :
    (cs : List (Call × ℤ)) (now : ℤ) (cb : Breaker)
    → cb.state ≡ half_open
    → cb.max_probes ≤ℤ cb.probes_sent
    → All (λ (c : Call × ℤ). is_silent c.0 ≡ true) cs
    → (run cs cb ≡ cb) × ((allow now (run cs cb)).1 ≡ refused_probe)
unfolding run
lost_probe_locks [] now cb s h q =
    (refl, (silent_call try_allow now cb (unfold is_silent in refl) s h).1)
lost_probe_locks ((c, t) ∷ cs) now cb s h q =
    rw ((silent_call c t cb q.0 s h).0) (lost_probe_locks cs now cb s h q.1)
