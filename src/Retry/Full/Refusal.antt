-- ===== src/Retry/Full/Refusal.antt =====
-- How the full path uses its circuit breaker.
use recourse.Common.{
  ap, ◌∷◌, ℕ, zero, suc, true, false, ◌≡◌, refl, List, [], some, arith, get_elem?, set, String,
}
use recourse.Common.Int.{ℤ, ◌<ℤ◌, ◌-ℤ◌}
use recourse.Common.Dict.{insert, string_eq, lookup, lookup-insert}
use recourse.Common.Float.{Float}
use recourse.Policy.{PolicyKey, EffectivePolicy}
use recourse.Policy.Key.{key_eq}
use recourse.Errors.{circuit_open}
use recourse.Circuit.{State, open_state, Breaker, allow, state_string, try_allow, call}
use recourse.Circuit.{Decision as CircuitDecision}
use recourse.Circuit.Registry.{Registry, get, get_at}
use recourse.Circuit.Behaviour.{open_call}
use recourse.Retry.{Exit, returned, panicked, St, Env, Config}
use recourse.Retry.Verdict.{ClassifierMeta}
use recourse.Retry.Fast.Counts.{ops}
use recourse.Retry.Full.{
  Shared, Group, Result, find_breaker, with_breaker, end_early, after_allow, after_breaker,
  check_circuit, at_address,
}

-- What the memory of breakers does: a write is read back, to write what is there changes nothing, and
-- the clocks leave it alone.
pub record IsMemory {W : Type 0} (sh : Shared W) (clock : W → ℤ × W) : Type 0 where
  pub read_back : (r : Registry) (w : W) → sh.circuits (sh.with_circuits r w) ≡ r
  pub write_back : (w : W) → sh.with_circuits (sh.circuits w) w ≡ w
  pub now_keeps : (w : W) → sh.circuits (sh.now w).1 ≡ sh.circuits w
  pub clock_keeps : (w : W) → sh.circuits (clock w).1 ≡ sh.circuits w

-- A call that the circuit breaker refuses: the error, no attempt, and no call of the operation.
abbrev pub Refused : {V W : Type 0} → V → State → String → St W → Exit (Result V) × St W → Type 0
Refused zero_value st reason s (panicked u, s') = true ≡ false
Refused zero_value st reason s (returned (v, tl, e), s') =
    (v ≡ zero_value)
    × (e ≡ some (circuit_open (state_string st) reason))
    × (tl.attempts ≡ [])
    × (lookup "circuit_state" tl.attributes ≡ some (state_string st))
    × (ops s'.log ≡ ops s.log)

set_same :
    {A : Type 0} (xs : List A) (i : ℕ) (x y : A)
    → get_elem? xs i ≡ some x
    → get_elem? (set xs i y) i ≡ some y
set_same [] i x y h = cc
set_same (z ∷ xs) zero x y h = refl
set_same (z ∷ xs) (suc i) x y h = set_same xs i x y h

module _ {F V W B C : Type 0} ⦃fl : Float F⦄ (env : Env F V W B C) (cfg : Config B C)
    (sh : Shared W) (key : PolicyKey) (group : EffectivePolicy F → C → ClassifierMeta → Group V W)
    (start : ℤ) (pol : EffectivePolicy F) (attrs : List (String × String)) where
  early-Refused :
      (st : State) (reason : String) (s : St W)
      → Refused env.zero_value st reason s (
          end_early env cfg sh key start pol.id
            (insert "circuit_state" (state_string st) attrs)
            (circuit_open (state_string st) reason)
            s)
  unfolding end_early
  early-Refused st reason s = ground (
    arith,
    lookup-insert "circuit_state" "circuit_state" (state_string st) attrs,
    string_eq.beq_iff "circuit_state" "circuit_state",
  )

  allow-Refused :
      (a : ℕ) (d : CircuitDecision) (s : St W)
      → d.allowed ≡ false
      → Refused env.zero_value d.state d.reason s
          (after_allow env cfg sh key group start pol attrs a d s)
  unfolding after_allow
  allow-Refused a d s h = simp h (early-Refused d.state d.reason s)

  -- A call whose breaker refuses.
  breaker-Refused :
      (a : ℕ) (cb : Breaker) (now : ℤ) (w : W) (s : St W)
      → sh.now s.world ≡ (now, w)
      → get_elem? (sh.circuits w).store a ≡ some cb
      → (allow now cb).1.allowed ≡ false
      → Refused env.zero_value
          (allow now cb).1.state
          (allow now cb).1.reason
          s
          (after_breaker env cfg sh key group start pol attrs (some a) s)
  unfolding after_breaker with_breaker at_address
  breaker-Refused a cb now w s read held h =
      let r = sh.circuits w in
      let r' : Registry = record {
        breakers = r.breakers;
        store = set r.store a (allow now cb).0;
      } in
      rw (read, held)
        (allow-Refused a (allow now cb).1 (record { world = sh.with_circuits r' w; log = s.log }) h)

  -- The memory after a refused call has the breaker as `Allow` left it.
  breaker_kept :
      (a : ℕ) (cb : Breaker) (now : ℤ) (w : W) (s : St W)
      → IsMemory sh env.clock
      → sh.now s.world ≡ (now, w)
      → get_elem? (sh.circuits w).store a ≡ some cb
      → (allow now cb).1.allowed ≡ false
      → get_elem?
          (sh.circuits
            (after_breaker env cfg sh key group start pol attrs (some a) s).1.world).store
          a
        ≡ some (allow now cb).0
  unfolding after_breaker with_breaker at_address after_allow end_early
  breaker_kept a cb now w s mem read held h =
      let r = sh.circuits w in
      let r' : Registry = record {
        breakers = r.breakers;
        store = set r.store a (allow now cb).0;
      } in
      rw (read, held)
        (simp (h, mem.clock_keeps, mem.read_back) (set_same r.store a cb (allow now cb).0 held))

  -- A call whose policy has the circuit on, and whose breaker is open with its cooldown not yet over
  -- at the time that `Allow` reads, is refused: it returns the zero value and a `CircuitOpenError`
  -- with the state open, its timeline has no attempt and shows the state, it calls the operation at
  -- no time, and it leaves the breaker as it is. The memory of breakers keeps what is written.
  pub check_circuit-Refused :
      (a : ℕ) (cb : Breaker) (s : St W)
      → IsMemory sh env.clock
      → pol.circuit.enabled ≡ true
      → lookup key (sh.circuits s.world).breakers ≡ some a
      → get_elem? (sh.circuits s.world).store a ≡ some cb
      → cb.state ≡ open_state
      → ((sh.now s.world).0 -ℤ cb.open_time) <ℤ cb.cooldown
      → let r = check_circuit env cfg sh key group start pol attrs s in
        Refused env.zero_value open_state "circuit_open" s r
        × (get_elem? (sh.circuits r.1.world).store a ≡ some cb)
  unfolding check_circuit find_breaker get get_at call
  check_circuit-Refused a cb s mem on found held st h =
      let (now, w) = sh.now s.world in
      let shut = open_call try_allow now cb st h in
      let denied : (allow now cb).1.allowed ≡ false = ap (λ d. d.allowed) shut.1 in
      let held' : get_elem? (sh.circuits w).store a ≡ some cb = rw (mem.now_keeps s.world) held in
      let first = breaker-Refused a cb now w s refl held' denied in
      let second = breaker_kept a cb now w s mem refl held' denied in
      simp (on, found, mem.write_back) (rw shut.1 at first, rw shut.0 at second)
