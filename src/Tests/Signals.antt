-- ===== src/Tests/Signals.antt =====
-- A signal of a Host on its way through the inbox of its actor, and the ring of changes.
use rin.Common.{
  ℕ, ◌+◌, ◌≤◌, ◌≡◌, refl, ap, arith, String, Bool, true, false, List, [], ◌∷◌, ◌++◌, Option, none,
  some, length, map, decimal, join_nul,
}
use rin.Host.{Epoch}
use rin.Feed.{feed_of, newer as newer_changes, since, since-feed_of}
use rin.Signal.{
  Result, ok, err, invalid, undelivered, started, dropped, retry, DeliveryState, Signal, Settings,
  Target, target_of,
}
use rin.Signal.Inbox.{Inbox, PublishResult, Page, newer, shown, page_of}
use rin.Signal.Inbox.Bounds.{IsSound}
use rin.Signal.Inbox.Pages.{page_of-resume}
use rin.Signal.Store.{Store, find_box, configure, publish, list}
use rin.Signal.Store.Reached.{configured, published, Reach, here, next, Reach-IsSound}
use rin.Signal.Delivery.Retries.{Retry, report_retries, report_retries-le}
use rin.Signal.Service.{ActorSnapshot, Control, publish_host, publish_host-IsCurrent}

abbrev signal_epoch : Epoch
signal_epoch = record { session_id = "s1"; world_id = "w1"; host = 1; world = 1; timeline = 1 }

abbrev fresh : DeliveryState
fresh = record { status = undelivered; reason = ""; task_id = ""; attempts = 0; retry_at = 0 }

abbrev knock : String → Signal
knock id = record {
  delivery = fresh;
  schema_version = "rin.signal/v1";
  signal_id = id;
  host_id = "h1";
  world_id = "w1";
  actor_id = "a1";
  kind = "door.knock";
  summary = " Someone knocks ";
  epoch = signal_epoch;
  observation_sequence = 4;
  expires_at = 5000;
  received_at = 0;
  cursor = 0;
  global_sequence = 0;
}

abbrev target : Target
target = record { host_id = "h1"; world_id = "w1"; actor_id = "a1" }

abbrev open_settings : Settings
open_settings = record { enabled = true; cooldown = 0; max_pending = 2 }

abbrev empty_store : Store
empty_store = record {
  default_settings = record { enabled = false; cooldown = 30000; max_pending = 32 };
  max_actors = 4;
  inboxes = [];
  global_sequence = 0;
  is_closed = false;
}

abbrev received : String → ℕ → ℕ → Signal
received id now cursor = record (knock id) {
  summary = "Someone knocks";
  received_at = now;
  cursor = cursor;
  global_sequence = cursor;
}

abbrev opened_box : Inbox
opened_box = record { settings = open_settings; signals = []; next_cursor = 0; last_kind = [] }

abbrev opened : Store
opened = record empty_store { inboxes = (target, opened_box) ∷ [] }

configure_test : configure target open_settings 1000 empty_store ≡ (opened, ok open_settings)
unfolding configure rin.Signal.validate_target rin.Signal.validate_settings
    rin.Signal.Store.open_box rin.Signal.Store.put_box rin.Signal.Inbox.configure_box
configure_test = refl

abbrev full_box : Inbox
full_box = record {
  settings = open_settings;
  signals = received "k1" 1001 1 ∷ received "k2" 1002 2 ∷ [];
  next_cursor = 2;
  last_kind = ("door.knock", 1002) ∷ [];
}

abbrev once : Store
once = (publish (knock "k1") 1001 opened).0

abbrev twice : Store
twice = (publish (knock "k2") 1002 once).0

twice_box : find_box target twice.inboxes ≡ some full_box
unfolding configure find_box publish rin.Signal.validate_signal rin.Signal.Store.open_box
    rin.Signal.Store.put_box rin.Signal.Inbox.publish_box rin.Common.Maps.delete
twice_box = refl

full_test :
    (publish (knock "k3") 1003 twice).1
    ≡ ok (record { accepted = false; reason = "capacity"; cursor = 0 })
unfolding publish rin.Signal.validate_signal rin.Signal.Store.open_box rin.Signal.Store.put_box
    rin.Signal.Inbox.publish_box rin.Common.Maps.delete
full_test = refl

twice-Reach : Reach empty_store twice
twice-Reach =
    next (next (next here opened_step) (published (knock "k1") 1001)) (published (knock "k2") 1002)
  where
    opened_step : rin.Signal.Store.Reached.Step empty_store opened
    opened_step = rw (← ap (λ p. p.0) configure_test) (configured target open_settings 1000)

Reach-IsSound_example : IsSound full_box
Reach-IsSound_example = Reach-IsSound empty_store twice target full_box refl twice-Reach twice_box

full_box-IsSound : IsSound full_box
full_box-IsSound = record { bounded = omega arith; rising = omega arith }

page_of-resume_example :
    (map shown (newer 0 full_box.signals)
      ≡ (page_of full_box 0 1).signals
        ++ map shown (newer (page_of full_box 0 1).next_cursor full_box.signals))
    × ((page_of full_box 0 1).more ≡ false
        → newer (page_of full_box 0 1).next_cursor full_box.signals ≡ [])
page_of-resume_example = page_of-resume full_box 0 1 full_box-IsSound (omega arith)

abbrev busy : ℕ → Retry
busy now = record { reason = "busy"; task_id = ""; at = now }

abbrev tried_twice : DeliveryState
tried_twice = record {
  status = retry;
  reason = "busy";
  task_id = "";
  attempts = 2;
  retry_at = 4100;
}

retries_test : report_retries (busy 2000 ∷ busy 2100 ∷ []) fresh ≡ ok tried_twice
unfolding report_retries
retries_test = refl

report_retries-le_example : length (busy 2000 ∷ busy 2100 ∷ []) + 0 ≤ 32
report_retries-le_example =
    report_retries-le (busy 2000 ∷ busy 2100 ∷ []) fresh tried_twice (omega arith) retries_test

abbrev host_control : Control
host_control = record {
  validate_snapshot = λ _ _ _ _. ok (record { epoch = signal_epoch; observation_sequence = 4 });
  may_read = λ _. none;
}

host_test :
    (publish_host host_control "h1" "l1" (knock "k1") 1001 opened).1
    ≡ ok (record { accepted = true; reason = ""; cursor = 1 })
unfolding publish_host rin.Host.epoch_eq publish rin.Signal.validate_signal
    rin.Signal.Store.open_box rin.Signal.Inbox.publish_box
host_test = refl

publish_host-IsCurrent_example :
    ("h1" ≡ (knock "k1").host_id)
    × ((snapshot : ActorSnapshot) × (host_control.validate_snapshot "h1" "l1" "w1" "a1"
          ≡ ok snapshot)
        × (snapshot.epoch ≡ signal_epoch)
        × (snapshot.observation_sequence ≡ 4))
publish_host-IsCurrent_example =
    publish_host-IsCurrent host_control "h1" "l1" (knock "k1") 1001 opened
      (record { accepted = true; reason = ""; cursor = 1 }) host_test

since-feed_of_example :
    since {A = ℕ} 1 (feed_of 0 (7 ∷ 5 ∷ 3 ∷ []))
    ≡ record { values = 5 ∷ 7 ∷ []; revision = 3; overflow = false }
unfolding newer_changes
since-feed_of_example = since-feed_of 0 (7 ∷ 5 ∷ 3 ∷ []) 1 (omega arith)
