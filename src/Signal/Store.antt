-- ===== src/Signal/Store.antt =====
-- signalbox/store.go: the store of the inboxes and its operations. A wakeup of the readers that wait, and
-- the copy in SQLite, are left out; a store without that copy is never blocked.
pub mod Reached
use rin.Common.{
  ℕ, suc, ◌+◌, ◌≡◌, String, Bool, true, false, not, ◌||◌, List, [], ◌∷◌, ◌++◌, Option, none, some,
  ltb, leb, ◌==◌, if◌then◌else◌, length,
}
use rin.Signal.{
  Error, invalid, closed, Result, ok, err, Signal, Settings, Target, target_eq, target_of,
  validate_settings, validate_target, validate_signal,
}
use rin.Signal.Inbox.{Inbox, PublishResult, Page, prune, configure_box, publish_box, page_of}

abbrev pub Boxes : Type 0
Boxes = List (Target × Inbox)

pub record Store : Type 0 where
  pub default_settings : Settings
  pub max_actors : ℕ
  pub inboxes : Boxes
  pub global_sequence : ℕ
  pub is_closed : Bool

unfoldable pub find_box : Target → Boxes → Option Inbox
unfolding target_eq
find_box target [] = none
find_box target ((key, box) ∷ boxes) =
    if target_eq key target then some box else find_box target boxes

-- `store.inboxes[key] = box`, where the pointer of the map is written through.
unfoldable pub put_box : Target → Inbox → Boxes → Boxes
unfolding target_eq
put_box target box [] = (target, box) ∷ []
put_box target box ((key, old) ∷ boxes) = elim (target_eq key target) [
  | true ↦ (key, box) ∷ boxes
  | false ↦ (key, old) ∷ put_box target box boxes
]

abbrev pub empty_box : Settings → Inbox
empty_box settings = record { settings = settings; signals = []; next_cursor = 0; last_kind = [] }

-- `inboxLocked`, which makes the inbox where there is none.
unfoldable pub open_box : Target → Store → Result Inbox
unfolding find_box
open_box target store = elim (find_box target store.inboxes) [
  | some box ↦ ok box
  | none ↦
      if leb store.max_actors (length store.inboxes)
      then err invalid
      else ok (empty_box store.default_settings)
]

abbrev pub with_box : Target → Inbox → Store → Store
with_box target box store = record store { inboxes = put_box target box store.inboxes }

-- Each operation answers with the store that it leaves and with its result.
unfoldable pub configure : Target → Settings → ℕ → Store → Store × Result Settings
configure target settings now store =
    if not (validate_target target) || not (validate_settings settings)
    then (store, err invalid)
    else if store.is_closed
    then (store, err closed)
    else elim (open_box target store) [
      | err e ↦ (store, err e)
      | ok box ↦ (with_box target (configure_box settings now box) store, ok settings)
    ]

unfoldable pub settings_of : Target → Store → Result Settings
unfolding validate_target find_box
settings_of target store =
    if not (validate_target target)
    then err invalid
    else if store.is_closed
    then err closed
    else elim (find_box target store.inboxes) [
      | none ↦ ok store.default_settings
      | some box ↦ ok box.settings
    ]

abbrev pub next_sequence : Result PublishResult → ℕ → ℕ
next_sequence (err e) sequence = sequence
next_sequence (ok result) sequence = if result.accepted then sequence + 1 else sequence

unfoldable pub publish : Signal → ℕ → Store → Store × Result PublishResult
publish value now store =
    if not (validate_signal value now)
    then (store, err invalid)
    else if store.is_closed
    then (store, err closed)
    else elim (open_box (target_of value) store) [
      | err e ↦ (store, err e)
      | ok box ↦
          let (after, result) = publish_box value now store.global_sequence box in
          (
            record (with_box (target_of value) after store) {
              global_sequence = next_sequence result store.global_sequence;
            },
            result,
          )
    ]

-- `List`, whose limit is 32 where none is given.
unfoldable pub list : Target → ℕ → ℕ → ℕ → Store → Store × Result Page
list target after limit now store =
    if not (validate_target target) || ltb 100 limit
    then (store, err invalid)
    else if store.is_closed
    then (store, err closed)
    else elim (find_box target store.inboxes) [
      | none ↦
          if not (after == 0)
          then (store, err invalid)
          else (store, ok (record { signals = []; next_cursor = 0; more = false }))
      | some box ↦
          let pruned = prune now box in
          let kept = with_box target pruned store in
          if ltb pruned.next_cursor after
          then (kept, err invalid)
          else (kept, ok (page_of pruned after (if limit == 0 then 32 else limit)))
    ]

unfoldable pub close : Store → Store
close store = record store { is_closed = true }
