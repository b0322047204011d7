-- ===== src/Control/Timeline/Bounds.antt =====
-- The bounds of a timeline.
use rin.Common.{◌≤◌, ◌≡◌, refl, ◌⊎◌, inl, inr, List, [], ◌∷◌, arith, length, length-append}
use rin.Control.{TimelineEvent, Operation, Desk}
use rin.Control.Timeline.{
  max_timeline_events, append_event, record_timeline, timeline_snapshot, next_sequence,
}

list_cases :
    (xs : List TimelineEvent)
    → (xs ≡ []) ⊎ ((x : TimelineEvent) × (ys : List TimelineEvent) × (xs ≡ x ∷ ys))
list_cases [] = inl refl
list_cases (x ∷ xs) = inr (x, xs, refl)

append_event-le :
    (item : TimelineEvent) (o : Operation)
    → length o.timeline ≤ max_timeline_events
    → length (append_event item o).timeline ≤ max_timeline_events
unfolding append_event
append_event-le item o h = elim (list_cases o.timeline) [
  | inl eq ↦ ground (arith, eq)
  | inr (first, rest, eq) ↦
      ground
        (arith, h, eq, length-append rest (item ∷ []), length-append (first ∷ rest) (item ∷ []))
]

-- Recording never lets a timeline of at most 64 events grow beyond 64.
pub record_timeline-le :
    (o : Operation) (desk : Desk)
    → length o.timeline ≤ max_timeline_events
    → length (record_timeline o desk).0.timeline ≤ max_timeline_events
unfolding record_timeline
record_timeline-le o desk h = ground (
  arith,
  h,
  append_event-le (record (timeline_snapshot o) { sequence = next_sequence desk.sequence }) o h,
)
