-- ===== src/Retry/Rules.antt =====
-- The rule for a postcondition of a bind: of what its first part returns, or of its panic.
use recourse.Common.{String, ◌≡◌, refl}
use mathlib.Core.Path.{subst}
use recourse.Retry.{Exit, returned, panicked, St, M, ◌>>=◌}

module _ {W A B : Type 0} where
  bind_case :
      (Q : Exit B × St W → Type 0) (k : A → M W B) (s' : St W) (r : Exit A)
      → ((a : A) → r ≡ returned a → Q (k a s'))
      → ((v : String) → r ≡ panicked v → Q (panicked v, s'))
      → Q (elim r [ returned a ↦ k a s' | panicked v ↦ (panicked v, s') ])
  bind_case Q k s' (returned a) f g = f a refl
  bind_case Q k s' (panicked v) f g = g v refl

  pub bind_rule :
      (Q : Exit B × St W → Type 0) (m : M W A) (k : A → M W B) (s : St W)
      → ((a : A) → (m s).0 ≡ returned a → Q (k a (m s).1))
      → ((v : String) → (m s).0 ≡ panicked v → Q (panicked v, (m s).1))
      → Q ((m >>= k) s)
  bind_rule Q m k s f g = bind_case Q k (m s).1 (m s).0 f g

module _ {W A : Type 0} (P : A → St W → Type 0) (Q : St W → Type 0) where
  -- A call ends in a return that satisfies `P`, or in a panic in a state that satisfies `Q`.
  abbrev pub Ends : Exit A × St W → Type 0
  Ends (returned a, s) = P a s
  Ends (panicked v, s) = Q s

  pub Ends_returned : (x : Exit A × St W) (a : A) → Ends x → x.0 ≡ returned a → P a x.1
  Ends_returned (returned b, s) a h e = let same : b ≡ a = cc in subst (λ c. P c s) same h
  Ends_returned (panicked v, s) a h e = cc

  pub Ends_panicked : (x : Exit A × St W) (v : String) → Ends x → x.0 ≡ panicked v → Q x.1
  Ends_panicked (returned b, s) v h e = cc
  Ends_panicked (panicked u, s) v h e = h
