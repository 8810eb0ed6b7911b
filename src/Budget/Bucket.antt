-- ===== src/Budget/Bucket.antt =====
-- budget/builtins.go: the unlimited budget and the token bucket. A method takes the time that
-- `time.Now` returns in it; a time is an integer of nanoseconds, `none` for Go's zero time, and
-- `seconds` is `Duration.Seconds`. `none` in the place of a bucket is the nil pointer.
use recourse.Common.{
  zero, suc, List, [], ◌∷◌, refl, ◌∙◌, true, false, ◌≡◌, Option, none, some, if◌then◌else◌, arith,
  ◌&&◌, ◌||◌,
}
use recourse.Common.Int.{ℤ, pos, negsuc, ◌-ℤ◌, ltb_ℤ, leb_ℤ, ◌≤ℤ◌}
use recourse.Common.Float.{Float}
use recourse.Policy.{BudgetRef}
use recourse.Budget.{Decision}

-- `UnlimitedBudget.AllowAttempt`.
unfoldable pub unlimited : Decision
unlimited = record { allowed = true; reason = "allowed"; release = none }

-- `TokenBucketBudget`, without its mutex: a call is one step.
pub record Bucket (F : Type 0) : Type 0 where
  pub capacity : F
  pub refill_per_second : F
  pub tokens : F
  pub last : Option ℤ

-- The cost of an attempt.
unfoldable pub cost_of : BudgetRef → ℤ
cost_of ref = if ltb_ℤ (pos 0) ref.cost then ref.cost else pos 1

module _ {F : Type 0} ⦃fl : Float F⦄ where
  abbrev zero_float : F
  zero_float = fl.of_ℤ (pos 0)

  -- `NewTokenBucketBudget`.
  unfoldable pub new_bucket : ℤ → ℤ → F → Bucket F
  new_bucket now capacity refill =
      let whole = fl.of_ℤ (if ltb_ℤ capacity (pos 0) then pos 0 else capacity) in
      let rate = if fl.lt refill zero_float then zero_float else refill in
      record {
        capacity = whole;
        refill_per_second = if fl.is_nan rate || fl.is_inf rate then zero_float else rate;
        tokens = whole;
        last = some now;
      }

  -- The sanity check on the tokens.
  unfoldable pub checked : Bucket F → Bucket F
  checked b =
      if fl.is_nan b.tokens || fl.is_inf b.tokens then record b { tokens = zero_float } else b

  -- What `elapsed` seconds add.
  unfoldable pub added_in : F → Bucket F → F
  added_in elapsed b =
      let added = fl.mul elapsed b.refill_per_second in
      if fl.is_nan added || fl.is_inf added || fl.lt added zero_float then zero_float else added

  -- The tokens after `added` more, never above the capacity.
  unfoldable pub filled : F → Bucket F → F
  filled added b =
      let tokens = fl.add b.tokens added in if fl.lt b.capacity tokens then b.capacity else tokens

  module _ (seconds : ℤ → F) where
    unfoldable pub refill_from : ℤ → Option ℤ → Bucket F → Bucket F
    unfolding added_in filled
    refill_from now none b = record b { tokens = b.capacity; last = some now }
    refill_from now (some last) b =
        if fl.lt zero_float b.refill_per_second && leb_ℤ last now
        then record b { tokens = filled (added_in (seconds (now -ℤ last)) b) b; last = some now }
        else record b { last = some now }

    -- The bucket before the cost is taken.
    unfoldable pub refilled : ℤ → Bucket F → Bucket F
    unfolding refill_from checked
    refilled now b = refill_from now b.last (checked b)

  -- `need`.
  unfoldable pub need_of : BudgetRef → F
  unfolding cost_of
  need_of ref =
      let need = fl.of_ℤ (cost_of ref) in
      if fl.lt need zero_float || fl.eq need zero_float then fl.of_ℤ (pos 1) else need

  -- The last lines: `b.tokens >= need`.
  unfoldable pub take_tokens : F → Bucket F → Bucket F × Decision
  take_tokens need b =
      if fl.lt need b.tokens || fl.eq need b.tokens
      then (
        record b { tokens = fl.sub b.tokens need },
        record { allowed = true; reason = "allowed"; release = none },
      )
      else (b, record { allowed = false; reason = "budget_denied"; release = none })

  -- `TokenBucketBudget.AllowAttempt`, for a bucket that is there.
  unfoldable pub allow_attempt : (ℤ → F) → ℤ → BudgetRef → Bucket F → Bucket F × Decision
  unfolding refilled take_tokens need_of
  allow_attempt seconds now ref b = take_tokens (need_of ref) (refilled seconds now b)

  -- A run of attempts, each at a time and with the budget reference of its policy.
  unfoldable pub attempts : (ℤ → F) → List (ℤ × BudgetRef) → Bucket F → Bucket F
  attempts seconds [] b = b
  attempts seconds ((now, ref) ∷ calls) b =
      attempts seconds calls (allow_attempt seconds now ref b).0

  -- The same, for a pointer.
  unfoldable pub allow_pointer :
      (ℤ → F) → ℤ → BudgetRef → Option (Bucket F) → Option (Bucket F) × Decision
  unfolding allow_attempt
  allow_pointer seconds now ref none =
      (none, record { allowed = false; reason = "budget_nil"; release = none })
  allow_pointer seconds now ref (some b) =
      let (b', d) = allow_attempt seconds now ref b in (some b', d)

-- Two laws of IEEE 754: nothing is below itself, and taking away a positive number does not lift a
-- number above a bound.
pub record IsOrdered (F : Type 0) ⦃fl : Float F⦄ : Type 0 where
  pub lt_self : (x : F) → fl.lt x x ≡ false
  pub sub_low :
      (bound x y : F)
      → fl.lt bound x ≡ false
      → fl.lt y (fl.of_ℤ (pos 0)) ≡ false
      → fl.lt bound (fl.sub x y) ≡ false
  -- The integers from 1 up are converted to numbers above 0.
  pub of_pos : (n : ℤ) → pos 1 ≤ℤ n → fl.lt (fl.of_ℤ n) (fl.of_ℤ (pos 0)) ≡ false

-- The tokens are not above the capacity, which is not below 0.
pub record Inv {F : Type 0} ⦃fl : Float F⦄ (b : Bucket F) : Type 0 where
  pub capacity_low : fl.lt b.capacity (fl.of_ℤ (pos 0)) ≡ false
  pub tokens_high : fl.lt b.capacity b.tokens ≡ false

module _ {F : Type 0} ⦃fl : Float F⦄ (ord : IsOrdered F) where
  filled_high : (added : F) (b : Bucket F) → fl.lt b.capacity (filled added b) ≡ false
  unfolding filled
  filled_high added b = ground (arith, ord.lt_self b.capacity)

  need_low : (ref : BudgetRef) → fl.lt (need_of {F = F} ref) (fl.of_ℤ (pos 0)) ≡ false
  unfolding need_of cost_of
  need_low ref = ground (arith, ord.of_pos (pos 1), ord.of_pos ref.cost)

  checked-Inv : (b : Bucket F) → Inv b → Inv (checked b)
  unfolding checked
  checked-Inv b h = ground (arith, h.capacity_low, h.tokens_high)

  refill-Inv :
      (seconds : ℤ → F) (now : ℤ) (last : Option ℤ) (b : Bucket F)
      → Inv b
      → Inv (refill_from seconds now last b)
  unfolding refill_from
  refill-Inv seconds now none b h = ground (arith, h.capacity_low, ord.lt_self b.capacity)
  refill-Inv seconds now (some last) b h =
      ground
        (arith, h.capacity_low, h.tokens_high, filled_high (added_in (seconds (now -ℤ last)) b) b)

  take-Inv :
      (need : F) (b : Bucket F)
      → fl.lt need (fl.of_ℤ (pos 0)) ≡ false
      → Inv b
      → Inv (take_tokens need b).0
  unfolding take_tokens
  take-Inv need b hn h =
      ground (arith, h.capacity_low, h.tokens_high, ord.sub_low b.capacity b.tokens need)

  -- An attempt keeps the tokens at or below the capacity.
  pub allow_attempt-Inv :
      (seconds : ℤ → F) (now : ℤ) (ref : BudgetRef) (b : Bucket F)
      → Inv b
      → Inv (allow_attempt seconds now ref b).0
  unfolding allow_attempt refilled
  allow_attempt-Inv seconds now ref b h =
      take-Inv (need_of ref) (refill_from seconds now b.last (checked b)) (need_low ref)
        (refill-Inv seconds now b.last (checked b) (checked-Inv b h))

  whole_low :
      (n : ℤ) → fl.lt (fl.of_ℤ (if ltb_ℤ n (pos 0) then pos 0 else n)) (fl.of_ℤ (pos 0)) ≡ false
  whole_low (negsuc n) = ground (arith, ord.lt_self (fl.of_ℤ (pos 0)))
  whole_low (pos zero) = ground (arith, ord.lt_self (fl.of_ℤ (pos 0)))
  whole_low (pos (suc n)) = ground (arith, ord.of_pos (pos (suc n)))

  new_bucket-Inv : (now capacity : ℤ) (rate : F) → Inv (new_bucket now capacity rate)
  unfolding new_bucket
  new_bucket-Inv now capacity rate = record {
    capacity_low = whole_low capacity;
    tokens_high = ord.lt_self (fl.of_ℤ (if ltb_ℤ capacity (pos 0) then pos 0 else capacity));
  }

  checked-capacity : (b : Bucket F) → (checked b).capacity ≡ b.capacity
  unfolding checked
  checked-capacity b = ground arith

  refill-capacity :
      (seconds : ℤ → F) (now : ℤ) (last : Option ℤ) (b : Bucket F)
      → (refill_from seconds now last b).capacity ≡ b.capacity
  unfolding refill_from
  refill-capacity seconds now none b = refl
  refill-capacity seconds now (some last) b = ground arith

  take-capacity : (need : F) (b : Bucket F) → (take_tokens need b).0.capacity ≡ b.capacity
  unfolding take_tokens
  take-capacity need b = ground arith

  allow_attempt-capacity :
      (seconds : ℤ → F) (now : ℤ) (ref : BudgetRef) (b : Bucket F)
      → (allow_attempt seconds now ref b).0.capacity ≡ b.capacity
  unfolding allow_attempt refilled
  allow_attempt-capacity seconds now ref b =
      take-capacity (need_of ref) (refill_from seconds now b.last (checked b))
      ∙ refill-capacity seconds now b.last (checked b)
      ∙ checked-capacity b

  attempts_keep :
      (seconds : ℤ → F) (calls : List (ℤ × BudgetRef)) (b : Bucket F)
      → Inv b
      → Inv (attempts seconds calls b) × ((attempts seconds calls b).capacity ≡ b.capacity)
  unfolding attempts
  attempts_keep seconds [] b h = (h, refl)
  attempts_keep seconds ((now, ref) ∷ calls) b h =
      let (kept, same) =
        attempts_keep seconds calls (allow_attempt seconds now ref b).0
          (allow_attempt-Inv seconds now ref b h) in
      (kept, same ∙ allow_attempt-capacity seconds now ref b)

  -- A new bucket, whatever capacity and rate are asked for, keeps through every run of attempts the
  -- capacity it was made with, which is not below 0, and never holds more tokens than that: at any
  -- clock readings, also ones that go back, and at any costs.
  pub bucket_never_overflows :
      (seconds : ℤ → F) (start capacity : ℤ) (rate : F) (calls : List (ℤ × BudgetRef))
      → let b = new_bucket start capacity rate in
        Inv (attempts seconds calls b) × ((attempts seconds calls b).capacity ≡ b.capacity)
  bucket_never_overflows seconds start capacity rate calls =
      attempts_keep seconds calls (new_bucket start capacity rate)
        (new_bucket-Inv start capacity rate)
