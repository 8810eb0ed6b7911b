-- ===== src/Retry/Global.antt =====
-- retry/global.go and recourse/recourse.go: the default executor of the program, which is set once, and
-- the facade over it. `E` is the type of executors; a call is one step here, as `sync.Once` makes it.
use recourse.Common.{
  String, Bool, true, false, ◌≡◌, refl, List, [], ◌∷◌, Option, none, some, if◌then◌else◌, arith,
  ◌≢◌,
}
use recourse.Policy.{PolicyKey}
use recourse.Policy.Key.{parse_key}

-- `globalExec`, and whether `globalOnce` has run.
pub record Global (E : Type 0) : Type 0 where
  pub global_exec : Option E
  pub global_once : Bool

abbrev pub unset : {E : Type 0} → Global E
unset = record { global_exec = none; global_once = false }

module _ {E : Type 0} where
  abbrev or_fresh : E → Option E → E
  or_fresh fresh none = fresh
  or_fresh fresh (some e) = e

  -- `DefaultExecutor`; `fresh` is what `NewDefaultExecutor()` would give, and the result may be nil.
  unfoldable pub default_executor : E → Global E → Option E × Global E
  default_executor fresh g =
      if g.global_once
      then (g.global_exec, g)
      else (let e = some (or_fresh fresh g.global_exec) in
          (e, record { global_exec = e; global_once = true }))

  set_first : E → Global E → Global E
  set_first e g = if g.global_once then g else record { global_exec = some e; global_once = true }

  -- `SetGlobal`.
  unfoldable pub set_global : Option E → Global E → Global E
  unfolding set_first
  set_global none g = g
  set_global (some e) g = elim g.global_exec [ some x ↦ g | none ↦ set_first e g ]

-- The calls that reach the default executor, as any caller makes them.
pub data GlobalCall (E : Type 0) : Type 0 where
  get_default : E → GlobalCall E
  set_default : Option E → GlobalCall E

unfoldable pub global_call : {E : Type 0} → GlobalCall E → Global E → Global E
global_call (get_default fresh) g = (default_executor fresh g).1
global_call (set_default e) g = set_global e g

unfoldable pub global_calls : {E : Type 0} → List (GlobalCall E) → Global E → Global E
global_calls [] g = g
global_calls (c ∷ cs) g = global_calls cs (global_call c g)

-- The facade: a call by the text of a key, on the default executor.
unfoldable pub do_value :
    {E R : Type 0} → (E → PolicyKey → R) → E → String → Global E → Option R × Global E
do_value call fresh key g =
    let (e, g') = default_executor fresh g in
    (elim e [ none ↦ none | some exec ↦ some (call exec (parse_key key)) ], g')

module _ {E : Type 0} where
  -- The executor is set exactly where `globalOnce` has run.
  abbrev IsConsistent : Global E → Type 0
  IsConsistent g = elim g.global_exec [
    | none ↦ g.global_once ≡ false
    | some e ↦ g.global_once ≡ true
  ]

  call-IsConsistent :
      (c : GlobalCall E) (g : Global E) → IsConsistent g → IsConsistent (global_call c g)
  unfolding global_call default_executor set_global
  call-IsConsistent (get_default fresh) g h = ground (arith, h)
  call-IsConsistent (set_default none) g h = h
  call-IsConsistent (set_default (some e)) g h = ground (arith, h)

  calls-IsConsistent :
      (cs : List (GlobalCall E)) (g : Global E) → IsConsistent g → IsConsistent (global_calls cs g)
  unfolding global_calls
  calls-IsConsistent [] g h = h
  calls-IsConsistent (c ∷ cs) g h =
      calls-IsConsistent cs (global_call c g) (call-IsConsistent c g h)

  call_keeps :
      (c : GlobalCall E) (e : E) (g : Global E)
      → g.global_exec ≡ some e
      → g.global_once ≡ true
      → global_call c g ≡ g
  unfolding global_call default_executor set_global
  call_keeps (get_default fresh) e g h o = ground (arith, h, o)
  call_keeps (set_default none) e g h o = refl
  call_keeps (set_default (some x)) e g h o = ground (arith, h, o)

  calls_keep :
      (cs : List (GlobalCall E)) (e : E) (g : Global E)
      → g.global_exec ≡ some e
      → g.global_once ≡ true
      → global_calls cs g ≡ g
  unfolding global_calls
  calls_keep [] e g h o = refl
  calls_keep (c ∷ cs) e g h o = rw (call_keeps c e g h o) (calls_keep cs e g h o)

  abbrev set_to : E → Global E
  set_to e = record { global_exec = some e; global_once = true }

  default_given :
      (fresh : E) (g : Global E)
      → IsConsistent g
      → default_executor fresh g
        ≡ (some (or_fresh fresh g.global_exec), set_to (or_fresh fresh g.global_exec))
  unfolding default_executor
  default_given fresh g h = ground (arith, h)

  -- Whatever calls were made before, `DefaultExecutor` gives an executor, and whatever calls follow, it
  -- gives that same executor again.
  pub default_executor_stable :
      (before after : List (GlobalCall E)) (fresh other : E)
      → let (e, g) = default_executor fresh (global_calls before unset) in
        (e ≢ none) × ((default_executor other (global_calls after g)).0 ≡ e)
  unfolding default_executor
  default_executor_stable before after fresh other =
      let g = global_calls before unset in
      let e = or_fresh fresh g.global_exec in
      let given = default_given fresh g (calls-IsConsistent before unset refl) in
      rw given (λ h. cc, rw (calls_keep after e (set_to e) refl refl) refl)
