-- ===== src/Signal/Inbox/Bounds.antt =====
-- signalbox/store.go: an inbox never holds more than its settings allow, and its cursors rise.
use rin.Common.{
  ℕ, zero, suc, ◌+◌, ◌-◌, ◌≤◌, ◌<◌, ◌≡◌, refl, List, [], ◌∷◌, ◌++◌, arith, if◌then◌else◌, length,
  length-append, map,
}
use rin.Signal.{Signal, Settings}
use rin.Signal.Inbox.{
  Inbox, keep_live, prune, drop_waiting, drop_first, keep_newest, configure_box, accept, offer,
  publish_box,
}

-- The cursors rise from one above `low`, and none is above `high`.
abbrev pub IsRising : ℕ → ℕ → List Signal → Type 0
IsRising low high [] = low ≤ high
IsRising low high (item ∷ items) = (low < item.cursor) × IsRising item.cursor high items

-- At most `max_pending` signals wait, and their cursors rise up to the last one that was given out.
pub record IsSound (box : Inbox) : Type 0 where
  pub bounded : length box.signals ≤ box.settings.max_pending
  pub rising : IsRising 0 box.next_cursor box.signals

IsRising-lower :
    (low lower high : ℕ) (items : List Signal)
    → lower ≤ low
    → IsRising low high items
    → IsRising lower high items
IsRising-lower low lower high [] h r = omega (arith, r)
IsRising-lower low lower high (item ∷ items) h r = (omega (arith, r.0), r.1)

keep_live-IsRising :
    (now low high : ℕ) (items : List Signal)
    → IsRising low high items
    → IsRising low high (keep_live now items)
unfolding keep_live
keep_live-IsRising now low high [] r = r
keep_live-IsRising now low high (item ∷ items) r = ground (
  arith,
  r.0,
  keep_live-IsRising now item.cursor high items r.1,
  keep_live-IsRising now low high items
      (IsRising-lower item.cursor low high items (omega (arith, r.0)) r.1),
)

length-keep_live-le : (now : ℕ) (items : List Signal) → length (keep_live now items) ≤ length items
unfolding keep_live
length-keep_live-le now [] = omega arith
length-keep_live-le now (item ∷ items) = ground (arith, length-keep_live-le now items)

drop_waiting-IsRising :
    (low high : ℕ) (items : List Signal)
    → IsRising low high items
    → IsRising low high (map drop_waiting items)
unfolding drop_waiting
drop_waiting-IsRising low high [] r = r
drop_waiting-IsRising low high (item ∷ items) r =
    ground (arith, r.0, drop_waiting-IsRising item.cursor high items r.1)

drop_first-IsRising :
    (n low high : ℕ) (items : List Signal)
    → IsRising low high items
    → IsRising low high (drop_first n items)
unfolding drop_first
drop_first-IsRising zero low high items r = r
drop_first-IsRising (suc n) low high [] r = r
drop_first-IsRising (suc n) low high (item ∷ items) r =
    drop_first-IsRising n low high items
      (IsRising-lower item.cursor low high items (omega (arith, r.0)) r.1)

length-drop_first : (n : ℕ) (items : List Signal) → length (drop_first n items) ≡ length items - n
unfolding drop_first
length-drop_first zero items = omega arith
length-drop_first (suc n) [] = omega arith
length-drop_first (suc n) (item ∷ items) = omega (arith, length-drop_first n items)

length-keep_newest-le : (bound : ℕ) (items : List Signal) → length (keep_newest bound items) ≤ bound
unfolding keep_newest
length-keep_newest-le bound items = ground (arith, length-drop_first (length items - bound) items)

keep_newest-IsRising :
    (bound low high : ℕ) (items : List Signal)
    → IsRising low high items
    → IsRising low high (keep_newest bound items)
unfolding keep_newest
keep_newest-IsRising bound low high items r =
    ground (arith, r, drop_first-IsRising (length items - bound) low high items r)

IsRising-append :
    (low high : ℕ) (items : List Signal) (item : Signal)
    → item.cursor ≡ high + 1
    → IsRising low high items
    → IsRising low (high + 1) (items ++ item ∷ [])
IsRising-append low high [] item e r = (omega (arith, e, r), omega (arith, e))
IsRising-append low high (x ∷ items) item e r =
    (r.0, IsRising-append x.cursor high items item e r.1)

pub prune-IsSound : (now : ℕ) (box : Inbox) → IsSound box → IsSound (prune now box)
unfolding prune
prune-IsSound now box h = record {
  bounded = omega (arith, h.bounded, length-keep_live-le now box.signals);
  rising = keep_live-IsRising now 0 box.next_cursor box.signals h.rising;
}

accept-IsSound :
    (value : Signal) (now sequence : ℕ) (box : Inbox)
    → IsSound box
    → length box.signals < box.settings.max_pending
    → IsSound (accept value now sequence box)
unfolding accept
accept-IsSound value now sequence box h room = record {
  bounded = omega (arith, room, length-append box.signals (_ ∷ []));
  rising = IsRising-append 0 box.next_cursor box.signals _ refl h.rising;
}

offer-IsSound :
    (value : Signal) (now sequence : ℕ) (box : Inbox)
    → IsSound box
    → IsSound (offer value now sequence box).0
unfolding offer
offer-IsSound value now sequence box h = ground (
  arith,
  h,
  λ (room : length box.signals < box.settings.max_pending).
      accept-IsSound value now (sequence + 1) box h room,
)

pub publish_box-IsSound :
    (value : Signal) (now sequence : ℕ) (box : Inbox)
    → IsSound box
    → IsSound (publish_box value now sequence box).0
unfolding publish_box
publish_box-IsSound value now sequence box h =
    offer-IsSound value now sequence (prune now box) (prune-IsSound now box h)

-- New settings hold at once: what they do not allow is dropped, the oldest first.
pub configure_box-IsSound :
    (settings : Settings) (now : ℕ) (box : Inbox)
    → IsSound box
    → IsSound (configure_box settings now box)
unfolding configure_box prune
configure_box-IsSound settings now box h =
    let waiting = if settings.enabled then box.signals else map drop_waiting box.signals in
    let risen : IsRising 0 box.next_cursor waiting =
      ground (arith, h.rising, drop_waiting-IsRising 0 box.next_cursor box.signals h.rising) in
    record {
      bounded = length-keep_newest-le settings.max_pending (keep_live now waiting);
      rising =
          keep_newest-IsRising settings.max_pending 0 box.next_cursor (keep_live now waiting)
            (keep_live-IsRising now 0 box.next_cursor waiting risen);
    }
