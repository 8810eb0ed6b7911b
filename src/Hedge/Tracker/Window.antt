-- ===== src/Hedge/Tracker/Window.antt =====
-- The ring buffer holds the latest samples: it refines a window over the history of observations.
use recourse.Common.{
  ℕ, zero, suc, ◌+◌, ◌-◌, ◌≤◌, ◌<◌, ◌≡◌, refl, sym, ap, ◌∙◌, List, [], ◌∷◌, ◌++◌, if◌then◌else◌,
  length, set, take, drop, leb, arith, length-set, length-append, Bool-cases, inl, inr,
  length-replicate,
}
use mathlib.Core.List.{append_assoc, append-nil}
use recourse.Common.Int.{ℤ, pos, pos_part, leb_ℤ}
use recourse.Hedge.Tracker.{Tracker, observe, new_tracker}

-- The index is in range, so that neither the write nor the read of a sample can panic.
pub record Inv (t : Tracker) : Type 0 where
  pub in_range : t.idx < length t.samples

-- The samples in the order in which they came, the latest last.
pub window : Tracker → List ℤ
window t = if t.full then drop t.idx t.samples ++ take t.idx t.samples else take t.idx t.samples

-- The last `n` entries of a list.
pub last : ℕ → List ℤ → List ℤ
last n xs = drop (length xs - n) xs

pub new_tracker-Inv : (size : ℤ) → Inv (new_tracker size)
unfolding new_tracker
new_tracker-Inv size =
    ground (arith, length-replicate (if leb_ℤ size (pos 0) then 256 else pos_part size) (pos 0))

pub observe-Inv : (d : ℤ) (t : Tracker) → Inv t → Inv (observe d t)
unfolding observe
observe-Inv d t h = ground (arith, length-set t.samples t.idx d)

pub observe_size : (d : ℤ) (t : Tracker) → length (observe d t).samples ≡ length t.samples
unfolding observe
observe_size d t = ground (arith, length-set t.samples t.idx d)

take-set :
    (xs : List ℤ) (i : ℕ) (v : ℤ) → i < length xs → take (suc i) (set xs i v) ≡ take i xs ++ v ∷ []
take-set [] i v h = absurd (omega arith)
take-set (x ∷ xs) zero v h = refl
take-set (x ∷ xs) (suc i) v h = ap (λ (l : List ℤ). x ∷ l) (take-set xs i v (omega arith))

drop-set :
    (xs : List ℤ) (i : ℕ) (v : ℤ) → i < length xs → drop (suc i) (set xs i v) ≡ drop (suc i) xs
drop-set [] i v h = refl
drop-set (x ∷ xs) zero v h = refl
drop-set (x ∷ xs) (suc i) v h = drop-set xs i v (omega arith)

take_all : (xs : List ℤ) (n : ℕ) → length xs ≤ n → take n xs ≡ xs
take_all [] zero h = refl
take_all [] (suc n) h = refl
take_all (x ∷ xs) zero h = absurd (omega arith)
take_all (x ∷ xs) (suc n) h = ap (λ (l : List ℤ). x ∷ l) (take_all xs n (omega arith))

drop_all : (xs : List ℤ) (n : ℕ) → length xs ≤ n → drop n xs ≡ []
drop_all [] zero h = refl
drop_all [] (suc n) h = refl
drop_all (x ∷ xs) zero h = absurd (omega arith)
drop_all (x ∷ xs) (suc n) h = drop_all xs n (omega arith)

drop_one :
    (xs ys : List ℤ) (i : ℕ) → i < length xs → drop 1 (drop i xs ++ ys) ≡ drop (suc i) xs ++ ys
drop_one [] ys i h = absurd (omega arith)
drop_one (x ∷ xs) ys zero h = refl
drop_one (x ∷ xs) ys (suc i) h = drop_one xs ys i (omega arith)

length-take_le : (xs : List ℤ) (i : ℕ) → i ≤ length xs → length (take i xs) ≡ i
length-take_le xs zero h = refl
length-take_le [] (suc i) h = absurd (omega arith)
length-take_le (x ∷ xs) (suc i) h = ap suc (length-take_le xs i (omega arith))

length-drop_le : (xs : List ℤ) (i : ℕ) → i ≤ length xs → length (drop i xs) + i ≡ length xs
length-drop_le xs zero h = omega arith
length-drop_le [] (suc i) h = absurd (omega arith)
length-drop_le (x ∷ xs) (suc i) h = omega (arith, length-drop_le xs i (omega arith))

drop-append_le : (xs ys : List ℤ) (i : ℕ) → i ≤ length xs → drop i (xs ++ ys) ≡ drop i xs ++ ys
drop-append_le xs ys zero h = refl
drop-append_le [] ys (suc i) h = absurd (omega arith)
drop-append_le (x ∷ xs) ys (suc i) h = drop-append_le xs ys i (omega arith)

drop-drop : (xs : List ℤ) (i j : ℕ) → drop i (drop j xs) ≡ drop (j + i) xs
drop-drop xs i zero = ap (λ (k : ℕ). drop k xs) (omega arith)
drop-drop [] zero (suc j) = sym (drop_all [] (suc j + zero) (omega arith))
drop-drop [] (suc i) (suc j) = sym (drop_all [] (suc j + suc i) (omega arith))
drop-drop (x ∷ xs) i (suc j) =
    let e : suc (j + i) ≡ suc j + i = omega arith in
    drop-drop xs i j ∙ ap (λ (k : ℕ). drop k (x ∷ xs)) e

-- Cutting a history to its window before the next sample comes loses nothing that the window keeps.
last-append : (n : ℕ) (h : List ℤ) (d : ℤ) → last n (last n h ++ d ∷ []) ≡ last n (h ++ d ∷ [])
unfolding last
last-append n h d =
    let cut = length h - n in
    let kept = length-drop_le h cut (omega arith) in
    let sizes : length (drop cut h ++ d ∷ []) - n + cut ≡ length (h ++ d ∷ []) - n =
      omega (arith, kept, length-append (drop cut h) (d ∷ []), length-append h (d ∷ [])) in
    ap (drop (length (drop cut h ++ d ∷ []) - n))
      (sym (drop-append_le h (d ∷ []) cut (omega arith)))
    ∙ drop-drop (h ++ d ∷ []) (length (drop cut h ++ d ∷ []) - n) cut
    ∙ ap (λ (k : ℕ). drop k (h ++ d ∷ [])) (omega (arith, sizes))

set_split :
    (xs : List ℤ) (i : ℕ) (d : ℤ)
    → i < length xs
    → drop (suc i) (set xs i d) ++ take (suc i) (set xs i d)
      ≡ drop (suc i) xs ++ (take i xs ++ d ∷ [])
set_split xs i d h = rw (drop-set xs i d h, take-set xs i d h) refl

-- Both halves of the buffer after a write at `i`, for a buffer that was full.
full_step :
    (xs : List ℤ) (i : ℕ) (d : ℤ)
    → i < length xs
    → last (length xs) ((drop i xs ++ take i xs) ++ d ∷ [])
      ≡ drop (suc i) xs ++ (take i xs ++ d ∷ [])
unfolding last
full_step xs i d h =
    let whole : length ((drop i xs ++ take i xs) ++ d ∷ []) - length xs ≡ 1 = omega (
      arith,
      length-append (drop i xs ++ take i xs) (d ∷ []),
      length-append (drop i xs) (take i xs),
      length-drop_le xs i (omega arith),
      length-take_le xs i (omega arith),
    ) in
    rw (whole, append_assoc) (drop_one xs (take i xs ++ d ∷ []) i h)

part_step :
    (xs : List ℤ) (i : ℕ) (d : ℤ)
    → i < length xs
    → last (length xs) (take i xs ++ d ∷ []) ≡ take i xs ++ d ∷ []
unfolding last
part_step xs i d h =
    let none_cut : length (take i xs ++ d ∷ []) - length xs ≡ 0 =
      omega (arith, length-append (take i xs) (d ∷ []), length-take_le xs i (omega arith)) in
    rw none_cut refl

-- A write that completes the buffer leaves nothing behind it.
wrapped : (xs : List ℤ) (i : ℕ) (d : ℤ) → suc i ≡ length xs → set xs i d ≡ take i xs ++ d ∷ []
wrapped xs i d h =
    sym (take_all (set xs i d) (suc i) (omega (arith, length-set xs i d)))
    ∙ take-set xs i d (omega arith)

-- The window of a tracker after a sample: the old one with the sample added, and no longer than the
-- buffer.
observe-window :
    (d : ℤ) (t : Tracker)
    → Inv t
    → window (observe d t) ≡ last (length t.samples) (window t ++ d ∷ [])
unfolding window observe
observe-window d t inv = elim (Bool-cases (leb (length (set t.samples t.idx d)) (suc t.idx))) [
  | inl end ↦ ground (
    arith,
    full_step t.samples t.idx d inv.in_range,
    part_step t.samples t.idx d inv.in_range,
    length-set t.samples t.idx d,
    drop_all t.samples (suc t.idx),
    wrapped t.samples t.idx d,
    append-nil (set t.samples t.idx d),
  )
  | inr more ↦ ground (
    arith,
    full_step t.samples t.idx d inv.in_range,
    part_step t.samples t.idx d inv.in_range,
    set_split t.samples t.idx d inv.in_range,
    take-set t.samples t.idx d inv.in_range,
  )
]

pub observe_all : List ℤ → Tracker → Tracker
observe_all [] t = t
observe_all (d ∷ ds) t = observe_all ds (observe d t)

windows :
    (ds : List ℤ) (h : List ℤ) (t : Tracker)
    → Inv t
    → window t ≡ last (length t.samples) h
    → (window (observe_all ds t) ≡ last (length t.samples) (h ++ ds)) × Inv (observe_all ds t)
unfolding observe_all
windows [] h t inv e = (e ∙ ap (last (length t.samples)) (sym (append-nil h)), inv)
windows (d ∷ ds) h t inv e =
    let size = observe_size d t in
    let now : window (observe d t) ≡ last (length (observe d t).samples) (h ++ d ∷ []) =
      observe-window d t inv
      ∙ ap (λ (w : List ℤ). last (length t.samples) (w ++ d ∷ [])) e
      ∙ last-append (length t.samples) h d
      ∙ ap (λ (n : ℕ). last n (h ++ d ∷ [])) (sym size) in
    let (seen, ok) = windows ds (h ++ d ∷ []) (observe d t) (observe-Inv d t inv) now in
    (
      seen
          ∙ ap (λ (n : ℕ). last n ((h ++ d ∷ []) ++ ds)) size
          ∙ ap (last (length t.samples)) (append_assoc h (d ∷ []) ds),
      ok,
    )

new_window : (size : ℤ) → window (new_tracker size) ≡ last (length (new_tracker size).samples) []
unfolding window new_tracker last
new_window size = sym (drop_all [] _ (omega arith))

-- A new tracker of size `n` (256 if the size asked for is not positive) that is shown the samples
-- `ds` holds the last `n` of them, in order, and its index is in range throughout.
pub observe_all-window :
    (size : ℤ) (ds : List ℤ)
    → (window (observe_all ds (new_tracker size))
        ≡ last (if leb_ℤ size (pos 0) then 256 else pos_part size) ds)
      × Inv (observe_all ds (new_tracker size))
observe_all-window size ds =
    let n = if leb_ℤ size (pos 0) then 256 else pos_part size in
    let sized : length (new_tracker size).samples ≡ n =
      unfold new_tracker in length-replicate n (pos 0) in
    let (seen, ok) = windows ds [] (new_tracker size) (new_tracker-Inv size) (new_window size) in
    (seen ∙ ap (λ (k : ℕ). last k ds) sized, ok)
