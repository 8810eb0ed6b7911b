-- ===== src/Observe/Capture.antt =====
-- observe/timeline_capture.go: the request of a timeline in a context. A context is the list of its
-- values for the capture key, the innermost first; a capture is the address of its holder in a memory
-- of published timelines.
use recourse.Common.{
  ℕ, ◌≡◌, refl, List, [], ◌∷◌, ◌++◌, Option, none, some, length, get_elem?, set, arith,
}
use recourse.Observe.{Timeline}

-- What a context has under the key: a capture, or the marker that disables it.
pub data CaptureValue : Type 0 where
  capture_at : ℕ → CaptureValue
  disabled_timeline_capture : CaptureValue

abbrev pub Context : Type 0
Context = List CaptureValue

-- The holders: `none` until a timeline is stored.
abbrev pub Captures : Type 0
Captures = List (Option Timeline)

-- `RecordTimeline`; a nil context counts as the empty one.
unfoldable pub record_timeline : Context → Captures → Context × ℕ × Captures
record_timeline ctx cs = (capture_at (length cs) ∷ ctx, length cs, cs ++ (none ∷ []))

-- `TimelineCaptureFromContext`; `none` is `(nil, false)`.
unfoldable pub timeline_capture_from_context : Context → Option ℕ
timeline_capture_from_context [] = none
timeline_capture_from_context (capture_at a ∷ ctx) = some a
timeline_capture_from_context (disabled_timeline_capture ∷ ctx) = none

-- `WithoutTimelineCapture`.
unfoldable pub without_timeline_capture : Context → Context
without_timeline_capture ctx = disabled_timeline_capture ∷ ctx

-- `StoreTimelineCapture` with `store`; `none` is the nil pointer.
unfoldable pub store_timeline_capture : Option ℕ → Option Timeline → Captures → Captures
store_timeline_capture none tl cs = cs
store_timeline_capture (some a) none cs = cs
store_timeline_capture (some a) (some tl) cs = set cs a (some tl)

-- `TimelineCapture.Timeline`; a holder that is not there reads as empty.
unfoldable pub timeline : Option ℕ → Captures → Option Timeline
timeline none cs = none
timeline (some a) cs = elim (get_elem? cs a) [ none ↦ none | some t ↦ t ]

get_elem?-append :
    (cs : Captures) (x : Option Timeline) → get_elem? (cs ++ (x ∷ [])) (length cs) ≡ some x
get_elem?-append [] x = refl
get_elem?-append (c ∷ cs) x = get_elem?-append cs x

set-append :
    (cs : Captures) (x y : Option Timeline) → set (cs ++ (x ∷ [])) (length cs) y ≡ cs ++ (y ∷ [])
set-append [] x y = refl
set-append (c ∷ cs) x y = ground (arith, set-append cs x y)

-- A capture that was asked for in a context is found there, reads empty until a timeline is stored and
-- then reads that timeline; in a context that disables captures none is found, so that a nested call
-- cannot store into it.
pub capture_roundtrip :
    (ctx : Context) (cs : Captures) (tl : Timeline)
    → let (ctx', a, cs') = record_timeline ctx cs in
      (timeline_capture_from_context ctx' ≡ some a)
      × (timeline (some a) cs' ≡ none)
      × (timeline (some a) (store_timeline_capture (some a) (some tl) cs') ≡ some tl)
      × (timeline_capture_from_context (without_timeline_capture ctx') ≡ none)
unfolding record_timeline timeline_capture_from_context timeline store_timeline_capture
    without_timeline_capture
capture_roundtrip ctx cs tl =
    ground
      (arith, get_elem?-append cs none, get_elem?-append cs (some tl), set-append cs none (some tl))
