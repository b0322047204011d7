-- ===== src/Signal/Delivery.antt =====
-- signalbox/delivery.go: what the scheduler records of a signal, and the signals that wait for it.
pub mod Retries
use rin.Common.{
  ℕ, suc, ◌+◌, ◌-◌, ◌*◌, ◌^◌, ◌≡◌, String, Bool, true, false, not, ◌&&◌, ◌||◌, List, [], ◌∷◌, ◌++◌,
  Option, none, some, ltb, leb, ◌==◌, ◌=ₛ◌, if◌then◌else◌, map, take,
}
use rin.Signal.{
  invalid, not_found, closed, Result, ok, err, DeliveryStatus, undelivered, dropped, retry,
  DeliveryState, Signal, target_of, delivery_eq, validate_text, validate_identifier,
}
use rin.Signal.Inbox.{Inbox, prune, shown}
use rin.Signal.Store.{Store, Boxes, find_box, put_box, with_box}

abbrev min : ℕ → ℕ → ℕ
min a b = if leb a b then a else b

-- The time in milliseconds until the retry after so many attempts.
abbrev pub retry_delay : ℕ → ℕ
retry_delay attempts = 1000 * 2 ^ min (attempts - 1) 3

-- The new state of a signal that waits.
unfoldable pub next_delivery : DeliveryStatus → String → String → ℕ → DeliveryState → DeliveryState
unfolding delivery_eq
next_delivery status reason task_id now current =
    let attempts = current.attempts + 1 in
    let state : DeliveryState = record {
      status = status;
      reason = reason;
      task_id = task_id;
      attempts = attempts;
      retry_at = 0;
    } in
    if not (delivery_eq status retry)
    then state
    else if leb 32 attempts
    then record state { status = dropped; reason = "retry-limit" }
    else record state { retry_at = now + retry_delay attempts }

-- What a report does to the delivery state: a signal that is done takes only the report that it has.
unfoldable pub report : DeliveryStatus → String → String → ℕ → DeliveryState → Result DeliveryState
unfolding delivery_eq next_delivery
report status reason task_id now current =
    if delivery_eq current.status undelivered || delivery_eq current.status retry
    then ok (next_delivery status reason task_id now current)
    else if delivery_eq current.status status
        && ((current.reason =ₛ reason) && (current.task_id =ₛ task_id))
    then ok current
    else err invalid

-- The loop over the signals of the box; `not_found` where none has the identifier and the cursor.
unfoldable pub report_in :
    Signal → DeliveryStatus → String → String → ℕ → List Signal → Result (List Signal)
unfolding report
report_in signal status reason task_id now [] = err not_found
report_in signal status reason task_id now (item ∷ items) =
    elim ((item.signal_id =ₛ signal.signal_id) && (item.cursor == signal.cursor)) [
      | true ↦ elim (report status reason task_id now item.delivery) [
        | err e ↦ err e
        | ok delivery ↦ ok (record item { delivery = delivery } ∷ items)
      ]
      | false ↦ elim (report_in signal status reason task_id now items) [
        | err e ↦ err e
        | ok rest ↦ ok (item ∷ rest)
      ]
    ]

-- `RecordDelivery`; the empty status is none that it takes.
unfoldable pub record_delivery :
    Signal → DeliveryStatus → String → String → ℕ → Store → Store × Result (Unit {0})
record_delivery signal status reason task_id now store =
    if delivery_eq status undelivered
      || (not (validate_text reason 128 false)
          || (not (task_id =ₛ "") && not (validate_identifier task_id 128)))
    then (store, err invalid)
    else if store.is_closed
    then (store, err closed)
    else elim (find_box (target_of signal) store.inboxes) [
      | none ↦ (store, err not_found)
      | some box ↦ elim (report_in signal status reason task_id now box.signals) [
        | err e ↦ (store, err e)
        | ok signals ↦ (with_box (target_of signal) (record box { signals = signals }) store, ok tt)
      ]
    ]

-- The test of `WaitPending` on a signal.
unfoldable pub is_pending : ℕ → Signal → Bool
unfolding delivery_eq
is_pending now item =
    delivery_eq item.delivery.status undelivered
    || (delivery_eq item.delivery.status retry && leb item.delivery.retry_at now)

abbrev pub pending_in : ℕ → List Signal → List Signal
unfolding is_pending
pending_in now [] = []
pending_in now (item ∷ items) =
    let rest = pending_in now items in if is_pending now item then item ∷ rest else rest

unfoldable pub prune_all : ℕ → Boxes → Boxes
unfolding prune
prune_all now [] = []
prune_all now ((key, box) ∷ boxes) = (key, prune now box) ∷ prune_all now boxes

abbrev pending_all : ℕ → Boxes → List Signal
pending_all now [] = []
pending_all now ((key, box) ∷ boxes) = pending_in now box.signals ++ pending_all now boxes

abbrev insert_by_sequence : Signal → List Signal → List Signal
insert_by_sequence item [] = item ∷ []
insert_by_sequence item (x ∷ xs) = elim (ltb x.global_sequence item.global_sequence) [
  | true ↦ x ∷ insert_by_sequence item xs
  | false ↦ item ∷ x ∷ xs
]

abbrev sort_by_sequence : List Signal → List Signal
sort_by_sequence [] = []
sort_by_sequence (x ∷ xs) = insert_by_sequence x (sort_by_sequence xs)

-- One round of `WaitPending`, in which the global sequences differ: the signals that it hands out.
unfoldable pub pending : ℕ → Store → Store × Result (List Signal)
unfolding prune prune_all is_pending
pending now store =
    if store.is_closed
    then (store, err closed)
    else let boxes = prune_all now store.inboxes in
      (
        record store { inboxes = boxes },
        ok (map shown (take 256 (sort_by_sequence (pending_all now boxes)))),
      )
