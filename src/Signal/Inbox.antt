-- ===== src/Signal/Inbox.antt =====
-- signalbox/store.go: one actor's inbox: pruning, settings, the acceptance of a signal, and the pages that
-- are read from it.
pub mod Bounds
pub mod Pages
use rin.Common.{
  ℕ, zero, suc, ◌+◌, ◌-◌, String, Bool, true, false, not, ◌&&◌, ◌||◌, List, [], ◌∷◌, ◌++◌, Option,
  none, some, map, ltb, leb, ◌==◌, ◌=ₛ◌, if◌then◌else◌, length, take,
}
use rin.Common.Maps.{Map, lookup, insert, member, drop_if}
use rin.Common.Runes.{trim_space}
use rin.Signal.{
  invalid, Result, ok, err, undelivered, dropped, retry, Signal, Settings, DeliveryState,
  delivery_eq,
}

pub record Inbox : Type 0 where
  pub settings : Settings
  pub signals : List Signal
  pub next_cursor : ℕ
  pub last_kind : Map ℕ

pub record PublishResult : Type 0 where
  pub accepted : Bool
  pub reason : String
  pub cursor : ℕ

pub record Page : Type 0 where
  pub signals : List Signal
  pub next_cursor : ℕ
  pub more : Bool

abbrev pub max_cursor : ℕ
max_cursor = 9007199254740991

unfoldable pub keep_live : ℕ → List Signal → List Signal
keep_live now [] = []
keep_live now (item ∷ items) =
    let rest = keep_live now items in if ltb now item.expires_at then item ∷ rest else rest

-- `pruneLocked`
unfoldable pub prune : ℕ → Inbox → Inbox
unfolding keep_live drop_if
prune now box = record box {
  signals = keep_live now box.signals;
  last_kind = drop_if (λ at. leb (at + box.settings.cooldown) now) box.last_kind;
}

-- The loop of `Configure` over the signals of a box that is switched off.
unfoldable pub drop_waiting : Signal → Signal
unfolding delivery_eq
drop_waiting item =
    if delivery_eq item.delivery.status undelivered || delivery_eq item.delivery.status retry
    then record item {
      delivery = record item.delivery { status = dropped; reason = "inbox-disabled"; retry_at = 0 };
    }
    else item

-- `items[n:]`
unfoldable pub drop_first : ℕ → List Signal → List Signal
drop_first zero items = items
drop_first (suc n) [] = []
drop_first (suc n) (item ∷ items) = drop_first n items

-- The newest `bound` signals.
unfoldable pub keep_newest : ℕ → List Signal → List Signal
unfolding drop_first
keep_newest bound items =
    if ltb bound (length items) then drop_first (length items - bound) items else items

unfoldable pub configure_box : Settings → ℕ → Inbox → Inbox
unfolding drop_waiting prune keep_newest
configure_box settings now box =
    let waiting = if settings.enabled then box.signals else map drop_waiting box.signals in
    let pruned = prune now (record box { settings = settings; signals = waiting }) in
    record pruned { signals = keep_newest settings.max_pending pruned.signals }

unfoldable pub find_signal : String → List Signal → Option Signal
find_signal id [] = none
find_signal id (item ∷ items) = if item.signal_id =ₛ id then some item else find_signal id items

-- The last signal of the kind is too recent. A time of 0 counts as none.
unfoldable pub is_cooling : Signal → ℕ → Inbox → Bool
unfolding lookup
is_cooling value now box = elim (lookup value.kind box.last_kind) [
  | none ↦ false
  | some last ↦ not (last == 0) && ltb now (last + box.settings.cooldown)
]

unfoldable pub accept : Signal → ℕ → ℕ → Inbox → Inbox
unfolding insert trim_space
accept value now sequence box = record box {
  signals =
      box.signals
      ++ record value {
        schema_version = "rin.signal/v1";
        summary = trim_space value.summary;
        received_at = now;
        cursor = box.next_cursor + 1;
        global_sequence = sequence;
      }
        ∷ [];
  next_cursor = box.next_cursor + 1;
  last_kind = insert value.kind now box.last_kind;
}

abbrev pub refused : String → ℕ → Result PublishResult
refused reason cursor = ok (record { accepted = false; reason = reason; cursor = cursor })

-- `Publish` on a pruned box, with the global sequence of the store.
unfoldable pub offer : Signal → ℕ → ℕ → Inbox → Inbox × Result PublishResult
unfolding find_signal is_cooling member accept
offer value now sequence box =
    if not box.settings.enabled
    then (box, refused "disabled" 0)
    else elim (find_signal value.signal_id box.signals) [
      | some existing ↦ (box, refused "duplicate" existing.cursor)
      | none ↦
          if is_cooling value now box
          then (box, refused "cooldown" 0)
          else if leb box.settings.max_pending (length box.signals)
          then (box, refused "capacity" 0)
          else if not (member value.kind box.last_kind) && leb 1024 (length box.last_kind)
          then (box, refused "capacity" 0)
          else if leb max_cursor box.next_cursor || leb max_cursor sequence
          then (box, err invalid)
          else (
            accept value now (sequence + 1) box,
            ok (record { accepted = true; reason = ""; cursor = box.next_cursor + 1 }),
          )
    ]

unfoldable pub publish_box : Signal → ℕ → ℕ → Inbox → Inbox × Result PublishResult
unfolding prune offer
publish_box value now sequence box = offer value now sequence (prune now box)

-- The signals behind a cursor, in the order of the box.
unfoldable pub newer : ℕ → List Signal → List Signal
newer after [] = []
newer after (item ∷ items) =
    let rest = newer after items in if leb item.cursor after then rest else item ∷ rest

abbrev pub last_cursor : ℕ → List Signal → ℕ
last_cursor after [] = after
last_cursor after (item ∷ items) = last_cursor item.cursor items

-- The global sequence is not shown to readers.
abbrev pub shown : Signal → Signal
shown item = record item { global_sequence = 0 }

-- `pageLocked`: the loop that stops at the limit takes the first of the newer signals.
unfoldable pub page_of : Inbox → ℕ → ℕ → Page
unfolding newer
page_of box after limit =
    let items = newer after box.signals in
    record {
      signals = map shown (take limit items);
      next_cursor = last_cursor after (take limit items);
      more = ltb limit (length items);
    }
