-- ===== src/Examples/Budgets.antt =====
-- budget/builtins.go on a concrete bucket.
use recourse.Common.{List, [], ◌∷◌, ℕ, false, ◌≡◌, refl}
use recourse.Common.Int.{ℤ, pos, pos_part, ◌-ℤ◌}
use recourse.Policy.{BudgetRef}
use recourse.Budget.Bucket.{
  Bucket, new_bucket, allow_attempt, Inv, attempts, bucket_never_overflows,
}
use recourse.Examples.{thousandths, ordered}

-- A clock that counts thousandths of a second.
abbrev seconds : ℤ → ℕ
seconds d = pos_part d

abbrev two_tokens : Bucket ℕ
two_tokens = new_bucket (pos 0) (pos 2) 1_000

abbrev ref : BudgetRef
ref = record { name = "calls"; cost = pos 2 }

spends_all :
    (allow_attempt seconds (pos 10) ref (allow_attempt seconds (pos 0) ref two_tokens).0).1.allowed
    ≡ false
unfolding allow_attempt new_bucket ◌-ℤ◌
spends_all = refl

-- An attempt that takes both tokens, one after half a second, and one for which the clock has gone back.
abbrev three_calls : List (ℤ × BudgetRef)
three_calls = (pos 0, ref) ∷ (pos 500, ref) ∷ (pos 3, ref) ∷ []

bucket_never_overflows_example :
    Inv (attempts seconds three_calls (new_bucket (pos 0) (pos 2) 1_000))
    × ((attempts seconds three_calls (new_bucket (pos 0) (pos 2) 1_000)).capacity
        ≡ (new_bucket (pos 0) (pos 2) 1_000).capacity)
bucket_never_overflows_example =
    bucket_never_overflows ordered seconds (pos 0) (pos 2) 1_000 three_calls
