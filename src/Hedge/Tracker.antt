-- ===== src/Hedge/Tracker.antt =====
-- hedge/tracker.go: the ring buffer of latency samples and its quantiles. `none` is the panic of an
-- index out of range.
pub mod Window
pub mod Quantiles
use recourse.Common.{
  ℕ, zero, suc, ◌+◌, ◌-◌, Bool, true, false, List, [], ◌∷◌, Option, none, some, if◌then◌else◌,
  length, set, take, get_elem?, replicate, ltb, leb, ◌==◌,
}
use recourse.Common.Int.{ℤ, pos, negsuc, pos_part, leb_ℤ, ltb_ℤ, ◌-ℤ◌}
use recourse.Common.Float.{Float}
use recourse.Hedge.{LatencySnapshot}

-- `RingBufferTracker`.
pub record Tracker : Type 0 where
  pub samples : List ℤ
  pub idx : ℕ
  pub full : Bool

-- `NewRingBufferTracker`.
unfoldable pub new_tracker : ℤ → Tracker
new_tracker size = record {
  samples = replicate (if leb_ℤ size (pos 0) then 256 else pos_part size) (pos 0);
  idx = 0;
  full = false;
}

-- `RingBufferTracker.Observe`. The write is in range for every tracker with `idx` below the size.
unfoldable pub observe : ℤ → Tracker → Tracker
observe d t =
    let samples = set t.samples t.idx d in
    let idx = suc t.idx in
    if leb (length samples) idx
    then record { samples = samples; idx = 0; full = true }
    else record { samples = samples; idx = idx; full = t.full }

-- The samples that `Snapshot` copies.
pub valid_samples : Tracker → List ℤ
valid_samples t = if t.full then t.samples else take t.idx t.samples

-- `sort.Slice` with `<`: integers have one sorted order.
pub insert_sorted : ℤ → List ℤ → List ℤ
insert_sorted x [] = x ∷ []
insert_sorted x (y ∷ ys) =
    let rest = insert_sorted x ys in if leb_ℤ x y then x ∷ y ∷ ys else y ∷ rest

pub sort : List ℤ → List ℤ
unfolding insert_sorted
sort [] = []
sort (x ∷ xs) = insert_sorted x (sort xs)

-- The two clamps on the index; `count` is not zero.
pub clamp_index : ℤ → ℕ → ℕ
clamp_index i count =
    let high = if leb_ℤ (pos count) i then pos (count - 1) else i in
    if ltb_ℤ high (pos 0) then 0 else pos_part high

-- The record of the four quantiles.
pub snapshot_of : Option ℤ → Option ℤ → Option ℤ → Option ℤ → Option LatencySnapshot
snapshot_of (some a) (some b) (some c) (some d) =
    some (record { p50 = a; p90 = b; p95 = c; p99 = d })
snapshot_of _ _ _ _ = none

module _ {F : Type 0} ⦃fl : Float F⦄ where
  -- A literal of two decimals, `0.95` for 95.
  abbrev pub hundredths : ℕ → F
  hundredths n = fl.div (fl.of_ℤ (pos n)) (fl.of_ℤ (pos 100))

  -- `int(float64(len(sorted)-1) * q)`, clamped.
  pub quantile_index : ℕ → F → ℕ
  unfolding clamp_index
  quantile_index count q = clamp_index (fl.to_ℤ (fl.mul (fl.of_ℤ (pos (count - 1))) q)) count

  pub quantile : List ℤ → F → Option ℤ
  unfolding quantile_index
  quantile [] q = some (pos 0)
  quantile (x ∷ xs) q = get_elem? (x ∷ xs) (quantile_index (length (x ∷ xs)) q)

module _ (F : Type 0) ⦃fl : Float F⦄ where
  pub snapshot_sorted : List ℤ → Option LatencySnapshot
  unfolding quantile snapshot_of
  snapshot_sorted sorted =
      snapshot_of (quantile sorted (hundredths {F = F} 50))
        (quantile sorted (hundredths {F = F} 90)) (quantile sorted (hundredths {F = F} 95))
        (quantile sorted (hundredths {F = F} 99))

  -- `RingBufferTracker.Snapshot`.
  unfoldable pub snapshot : Tracker → Option LatencySnapshot
  unfolding valid_samples sort snapshot_sorted
  snapshot t =
      let count = if t.full then length t.samples else t.idx in
      if count == 0
      then some (record { p50 = pos 0; p90 = pos 0; p95 = pos 0; p99 = pos 0 })
      else snapshot_sorted (sort (valid_samples t))
