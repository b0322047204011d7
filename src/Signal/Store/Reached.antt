-- ===== src/Signal/Store/Reached.antt =====
-- signalbox/: the stores that the operations reach from an empty one.
use rin.Common.{
  ℕ, ◌≡◌, refl, sym, subst, ◌⊎◌, String, List, [], ◌∷◌, some, arith, inl, inr, Bool-cases,
  Option-cases, leb, ◌==◌, ◌=ₛ◌, ◌&&◌, length, All,
}
use rin.Signal.{
  Error, Result, ok, err, Signal, Settings, Target, DeliveryStatus, target_eq, target_of,
}
use rin.Signal.Inbox.{Inbox, prune, configure_box, publish_box}
use rin.Signal.Inbox.Bounds.{
  IsRising, IsSound, prune-IsSound, publish_box-IsSound, configure_box-IsSound,
}
use rin.Signal.Store.{
  Boxes, Store, find_box, put_box, empty_box, open_box, configure, publish, list, close,
}
use rin.Signal.Delivery.{report, report_in, record_delivery, prune_all, pending}

-- A store and the one that an operation leaves, whether or not the operation answers with an error.
pub data Step (store : Store) : Store → Type 0 where
  configured :
      (target : Target) (settings : Settings) (now : ℕ)
      → Step store (configure target settings now store).0
  published : (value : Signal) (now : ℕ) → Step store (publish value now store).0
  listed :
      (target : Target) (after limit now : ℕ) → Step store (list target after limit now store).0
  reported :
      (signal : Signal) (status : DeliveryStatus) (reason task_id : String) (now : ℕ)
      → Step store (record_delivery signal status reason task_id now store).0
  awaited : (now : ℕ) → Step store (pending now store).0
  shut : Step store (close store)

pub data Reach (start : Store) : Store → Type 0 where
  here : Reach start start
  next :
      {store : Store} → Reach start store → {after : Store} → Step store after → Reach start after

abbrev BoxSound : Target × Inbox → Type 0
BoxSound entry = IsSound entry.1

-- Every inbox of the store is sound.
abbrev pub AllSound : Store → Type 0
AllSound store = All BoxSound store.inboxes

some-inj : {a b : Inbox} → some a ≡ some b → a ≡ b
some-inj h = cc

Result-cases {ℓ} :
    {A : Type ℓ} (r : Result A) → ((e : Error) × (r ≡ err e)) ⊎ ((a : A) × (r ≡ ok a))
Result-cases (err e) = inl (e, refl)
Result-cases (ok a) = inr (a, refl)

put_box-AllSound :
    (target : Target) (box : Inbox) (boxes : Boxes)
    → IsSound box
    → All BoxSound boxes
    → All BoxSound (put_box target box boxes)
unfolding put_box
put_box-AllSound target box [] h hs = (h, tt)
put_box-AllSound target box ((key, old) ∷ boxes) h hs = elim (Bool-cases (target_eq key target)) [
  | inl same ↦ rw (same, put_box) (h, hs.1)
  | inr there ↦ rw (there, put_box) (hs.0, put_box-AllSound target box boxes h hs.1)
]

find_box-IsSound :
    (target : Target) (boxes : Boxes) {box : Inbox}
    → find_box target boxes ≡ some box
    → All BoxSound boxes
    → IsSound box
unfolding find_box
find_box-IsSound target [] e hs = absurd (ground (arith, e))
find_box-IsSound target ((key, old) ∷ boxes) e hs = elim (Bool-cases (target_eq key target)) [
  | inl same ↦ subst IsSound (some-inj (rw (same, find_box) at e)) hs.0
  | inr there ↦ find_box-IsSound target boxes (rw (there, find_box) at e) hs.1
]

empty_box-IsSound : (settings : Settings) → IsSound (empty_box settings)
empty_box-IsSound settings = record { bounded = omega arith; rising = omega arith }

open_box-IsSound :
    (target : Target) (store : Store) {box : Inbox}
    → open_box target store ≡ ok box
    → AllSound store
    → IsSound box
unfolding open_box
open_box-IsSound target store e hs = elim (Option-cases (find_box target store.inboxes)) [
  | inl missing ↦ elim (Bool-cases (leb store.max_actors (length store.inboxes))) [
    | inl full ↦ absurd (ground (arith, missing, full, e))
    | inr room ↦
        subst IsSound (ground (arith, missing, room, e)) (empty_box-IsSound store.default_settings)
  ]
  | inr (box, found) ↦
      subst IsSound (ground (arith, found, e)) (find_box-IsSound target store.inboxes found hs)
]

report_in-same :
    (signal : Signal) (status : DeliveryStatus) (reason task_id : String) (now low high : ℕ)
    (items : List Signal) {after : List Signal}
    → report_in signal status reason task_id now items ≡ ok after
    → IsRising low high items
    → (length after ≡ length items) × IsRising low high after
unfolding report_in
report_in-same signal status reason task_id now low high [] e r = absurd (ground (arith, e))
report_in-same signal status reason task_id now low high (item ∷ items) {after} e r =
    elim (Bool-cases ((item.signal_id =ₛ signal.signal_id) && (item.cursor == signal.cursor))) [
      | inl hit ↦ elim (Result-cases (report status reason task_id now item.delivery)) [
        | inl (error, refused) ↦ absurd (ground (arith, hit, refused, e))
        | inr (delivery, taken) ↦ ground (arith, hit, taken, e, r)
      ]
      | inr miss ↦ elim (Result-cases (report_in signal status reason task_id now items)) [
        | inl (error, refused) ↦ absurd (ground (arith, miss, refused, e))
        | inr (rest, taken) ↦ ground (
          arith,
          miss,
          taken,
          e,
          r.0,
          report_in-same signal status reason task_id now item.cursor high items taken r.1,
        )
      ]
    ]

-- A table that is the old one, or the old one with a sound inbox put into it.
kept-AllSound :
    (target : Target) (box : Inbox) (old new : Boxes)
    → All BoxSound old
    → IsSound box
    → (new ≡ old) ⊎ (new ≡ put_box target box old)
    → All BoxSound new
kept-AllSound target box old new hs h (inl e) = subst (All BoxSound) (sym e) hs
kept-AllSound target box old new hs h (inr e) =
    subst (All BoxSound) (sym e) (put_box-AllSound target box old h hs)

configure-AllSound :
    (target : Target) (settings : Settings) (now : ℕ) (store : Store)
    → AllSound store
    → AllSound (configure target settings now store).0
unfolding configure
configure-AllSound target settings now store hs = elim (Result-cases (open_box target store)) [
  | inl (error, refused) ↦ subst (All BoxSound) (ground (arith, refused)) hs
  | inr (box, opened) ↦
      kept-AllSound target (configure_box settings now box) store.inboxes _ hs
        (configure_box-IsSound settings now box (open_box-IsSound target store opened hs))
        (ground (arith, opened))
]

publish-AllSound :
    (value : Signal) (now : ℕ) (store : Store)
    → AllSound store
    → AllSound (publish value now store).0
unfolding publish
publish-AllSound value now store hs = elim (Result-cases (open_box (target_of value) store)) [
  | inl (error, refused) ↦ subst (All BoxSound) (ground (arith, refused)) hs
  | inr (box, opened) ↦
      kept-AllSound (target_of value) (publish_box value now store.global_sequence box).0
        store.inboxes _ hs
        (publish_box-IsSound value now store.global_sequence box
          (open_box-IsSound (target_of value) store opened hs))
        (ground (arith, opened))
]

list-AllSound :
    (target : Target) (after limit now : ℕ) (store : Store)
    → AllSound store
    → AllSound (list target after limit now store).0
unfolding list
list-AllSound target after limit now store hs =
    elim (Option-cases (find_box target store.inboxes)) [
      | inl missing ↦ subst (All BoxSound) (ground (arith, missing)) hs
      | inr (box, found) ↦
          kept-AllSound target (prune now box) store.inboxes _ hs
            (prune-IsSound now box (find_box-IsSound target store.inboxes found hs))
            (ground (arith, found))
    ]

reported-IsSound :
    (signal : Signal) (status : DeliveryStatus) (reason task_id : String) (now : ℕ) (box : Inbox)
    {after : List Signal}
    → report_in signal status reason task_id now box.signals ≡ ok after
    → IsSound box
    → IsSound (record box { signals = after })
reported-IsSound signal status reason task_id now box e h =
    let (same, rising) =
      report_in-same signal status reason task_id now 0 box.next_cursor box.signals e h.rising in
    record { bounded = omega (arith, same, h.bounded); rising = rising }

record_delivery-AllSound :
    (signal : Signal) (status : DeliveryStatus) (reason task_id : String) (now : ℕ) (store : Store)
    → AllSound store
    → AllSound (record_delivery signal status reason task_id now store).0
unfolding record_delivery
record_delivery-AllSound signal status reason task_id now store hs =
    elim (Option-cases (find_box (target_of signal) store.inboxes)) [
      | inl missing ↦ subst (All BoxSound) (ground (arith, missing)) hs
      | inr (box, found) ↦
          elim (Result-cases (report_in signal status reason task_id now box.signals)) [
            | inl (error, refused) ↦ subst (All BoxSound) (ground (arith, found, refused)) hs
            | inr (after, taken) ↦
                kept-AllSound (target_of signal) (record box { signals = after }) store.inboxes _ hs
                  (reported-IsSound signal status reason task_id now box taken
                    (find_box-IsSound (target_of signal) store.inboxes found hs))
                  (ground (arith, found, taken))
          ]
    ]

prune_all-All : (now : ℕ) (boxes : Boxes) → All BoxSound boxes → All BoxSound (prune_all now boxes)
unfolding prune_all
prune_all-All now [] hs = tt
prune_all-All now ((key, box) ∷ boxes) hs =
    (prune-IsSound now box hs.0, prune_all-All now boxes hs.1)

pending-AllSound : (now : ℕ) (store : Store) → AllSound store → AllSound (pending now store).0
unfolding pending
pending-AllSound now store hs = elim (Bool-cases store.is_closed) [
  | inl over ↦ rw (over, pending) hs
  | inr running ↦ rw (running, pending) (prune_all-All now store.inboxes hs)
]

Step-AllSound : (store after : Store) → Step store after → AllSound store → AllSound after
unfolding close
Step-AllSound store _ (configured target settings now) h =
    configure-AllSound target settings now store h
Step-AllSound store _ (published value now) h = publish-AllSound value now store h
Step-AllSound store _ (listed target after limit now) h =
    list-AllSound target after limit now store h
Step-AllSound store _ (reported signal status reason task_id now) h =
    record_delivery-AllSound signal status reason task_id now store h
Step-AllSound store _ (awaited now) h = pending-AllSound now store h
Step-AllSound store _ shut h = h

Reach-AllSound : (start store : Store) → start.inboxes ≡ [] → Reach start store → AllSound store
Reach-AllSound start store e here = rw e tt
Reach-AllSound start after e (next {store} r step) =
    Step-AllSound store after step (Reach-AllSound start store e r)

-- In every store that the operations reach from one without inboxes, an inbox holds at most as many
-- signals as its settings allow, and their cursors rise, none above the last one that was given out.
pub Reach-IsSound :
    (start store : Store) (target : Target) (box : Inbox)
    → start.inboxes ≡ []
    → Reach start store
    → find_box target store.inboxes ≡ some box
    → IsSound box
Reach-IsSound start store target box e r found =
    find_box-IsSound target store.inboxes found (Reach-AllSound start store e r)
