-- ===== src/Hedge/Tracker/Quantiles.antt =====
-- The quantiles of hedge/tracker.go: `Snapshot` never reads outside the sorted samples.
use recourse.Common.{
  ℕ, zero, suc, ◌-◌, ◌<◌, ◌≡◌, refl, Bool, true, false, List, [], ◌∷◌, some, if◌then◌else◌, length,
  get_elem?, arith, ◌==◌,
}
use recourse.Common.Int.{ℤ, pos}
use recourse.Common.Float.{Float}
use recourse.Hedge.{LatencySnapshot}
use recourse.Hedge.Tracker.{
  Tracker, valid_samples, sort, clamp_index, hundredths, quantile_index, quantile, snapshot_of,
  snapshot_sorted, snapshot,
}

-- An index in range has an entry.
get_elem?-some : (xs : List ℤ) (i : ℕ) → i < length xs → (a : ℤ) × (get_elem? xs i ≡ some a)
get_elem?-some [] i h = (pos 0, ground (arith, h))
get_elem?-some (x ∷ xs) zero h = (x, refl)
get_elem?-some (x ∷ xs) (suc i) h = get_elem?-some xs i (omega arith)

clamp_index-lt : (i : ℤ) (count : ℕ) → 0 < count → clamp_index i count < count
unfolding clamp_index
clamp_index-lt i count h = ground arith

module _ {F : Type 0} ⦃fl : Float F⦄ where
  quantile-some : (xs : List ℤ) (q : F) → (a : ℤ) × (quantile xs q ≡ some a)
  unfolding quantile quantile_index
  quantile-some [] q = (pos 0, refl)
  quantile-some (x ∷ xs) q =
      let n = suc (length xs) in
      get_elem?-some (x ∷ xs) (quantile_index n q)
        (clamp_index-lt (fl.to_ℤ (fl.mul (fl.of_ℤ (pos (n - 1))) q)) n (omega arith))

module _ (F : Type 0) ⦃fl : Float F⦄ where
  sorted_some : (xs : List ℤ) → (s : LatencySnapshot) × (snapshot_sorted F xs ≡ some s)
  unfolding snapshot_sorted snapshot_of
  sorted_some xs =
      let (a, ea) = quantile-some {F = F} xs (hundredths 50) in
      let (b, eb) = quantile-some {F = F} xs (hundredths 90) in
      let (c, ec) = quantile-some {F = F} xs (hundredths 95) in
      let (d, ed) = quantile-some {F = F} xs (hundredths 99) in
      (record { p50 = a; p90 = b; p95 = c; p99 = d }, rw (ea, eb, ec, ed) refl)

  -- `Snapshot` returns for every tracker, whatever the conversions of floats give: the two clamps
  -- keep each of the four indices inside the samples.
  pub snapshot_some : (t : Tracker) → (s : LatencySnapshot) × (snapshot F t ≡ some s)
  unfolding snapshot
  snapshot_some t = go ((if t.full then length t.samples else t.idx) == 0)
    where
      zeros : LatencySnapshot
      zeros = record { p50 = pos 0; p90 = pos 0; p95 = pos 0; p99 = pos 0 }

      go :
          (empty : Bool)
          → (s : LatencySnapshot) × ((if empty
                then some zeros
                else snapshot_sorted F (sort (valid_samples t)))
              ≡ some s)
      go true = (zeros, refl)
      go false = sorted_some (sort (valid_samples t))
