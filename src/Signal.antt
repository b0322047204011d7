-- ===== src/Signal.antt =====
-- signalbox/signal.go: the signals that Hosts leave for their actors, and the checks of what comes in. The
-- store is the one in memory. Times are milliseconds at or after 1970. Where Go answers with an error, the
-- model has its value, without the text of the message.
pub mod Inbox
pub mod Store
pub mod Delivery
pub mod Service
use rin.Common.{
  ℕ, ◌+◌, ◌≡◌, refl, String, Bool, true, false, not, ◌&&◌, ◌||◌, ltb, leb, ◌==◌, ◌=ₛ◌,
  if◌then◌else◌,
}
use rin.Common.Runes.{byte_length, trim_space, contains_rune}
use rin.Host.{Epoch}
use rin.Host.Checks.{host_id_pattern, validate_epoch}

pub data Error : Type 0 where
  invalid not_found forbidden closed : Error

pub data Result {ℓ} (A : Type ℓ) : Type ℓ where
  ok : A → Result A
  err : Error → Result A

-- `undelivered` is the empty status.
pub data DeliveryStatus : Type 0 where
  undelivered started attached merged dropped retry : DeliveryStatus

pub record DeliveryState : Type 0 where
  pub status : DeliveryStatus
  pub reason : String
  pub task_id : String
  pub attempts : ℕ
  pub retry_at : ℕ

pub record Signal : Type 0 where
  pub delivery : DeliveryState
  pub schema_version : String
  pub signal_id : String
  pub host_id : String
  pub world_id : String
  pub actor_id : String
  pub kind : String
  pub summary : String
  pub epoch : Epoch
  pub observation_sequence : ℕ
  pub expires_at : ℕ
  pub received_at : ℕ
  pub cursor : ℕ
  pub global_sequence : ℕ

pub record Settings : Type 0 where
  pub enabled : Bool
  pub cooldown : ℕ
  pub max_pending : ℕ

pub record Target : Type 0 where
  pub host_id : String
  pub world_id : String
  pub actor_id : String

unfoldable pub delivery_eq : DeliveryStatus → DeliveryStatus → Bool
delivery_eq undelivered undelivered = true
delivery_eq started started = true
delivery_eq attached attached = true
delivery_eq merged merged = true
delivery_eq dropped dropped = true
delivery_eq retry retry = true
delivery_eq _ _ = false

unfoldable pub settings_eq : Settings → Settings → Bool
settings_eq a b =
    (if a.enabled then b.enabled else not b.enabled)
    && ((a.cooldown == b.cooldown) && (a.max_pending == b.max_pending))

unfoldable pub target_eq : Target → Target → Bool
target_eq a b =
    (a.host_id =ₛ b.host_id) && ((a.world_id =ₛ b.world_id) && (a.actor_id =ₛ b.actor_id))

unfoldable pub default_settings : Settings
default_settings = record { enabled = false; cooldown = 30000; max_pending = 32 }

unfoldable pub validate_settings : Settings → Bool
validate_settings value =
    leb value.cooldown 3600000 && (not (value.max_pending == 0) && leb value.max_pending 256)

-- `validateIdentifier`, with the pattern that host/validate.go has too.
unfoldable pub validate_identifier : String → ℕ → Bool
unfolding trim_space host_id_pattern
validate_identifier value maximum =
    let trimmed = trim_space value in
    not (byte_length trimmed == 0) && (leb (byte_length trimmed) maximum && host_id_pattern trimmed)

unfoldable pub validate_text : String → ℕ → Bool → Bool
unfolding trim_space contains_rune
validate_text value maximum required =
    let trimmed = trim_space value in
    not (required && (trimmed =ₛ ""))
    && (leb (byte_length trimmed) maximum && not (contains_rune trimmed 0))

unfoldable pub validate_target : Target → Bool
unfolding validate_identifier
validate_target value =
    validate_identifier value.host_id 128
    && (validate_identifier value.world_id 128 && validate_identifier value.actor_id 128)

-- The fields that the box assigns, which come in empty.
abbrev pub is_unassigned : Signal → Bool
is_unassigned value =
    delivery_eq value.delivery.status undelivered
    && ((value.delivery.reason =ₛ "")
        && ((value.delivery.task_id =ₛ "")
            && ((value.delivery.attempts == 0)
                && ((value.delivery.retry_at == 0)
                    && ((value.cursor == 0)
                        && ((value.received_at == 0) && (value.global_sequence == 0)))))))

abbrev pub target_of : Signal → Target
target_of value = record {
  host_id = value.host_id;
  world_id = value.world_id;
  actor_id = value.actor_id;
}

unfoldable pub validate_signal : Signal → ℕ → Bool
unfolding delivery_eq validate_target validate_identifier validate_text contains_rune validate_epoch
validate_signal value now =
    is_unassigned value
    && (((value.schema_version =ₛ "") || (value.schema_version =ₛ "rin.signal/v1"))
        && (validate_target (target_of value)
            && (validate_identifier value.signal_id 128
                && (validate_identifier value.kind 128
                    && (contains_rune value.kind b'.'
                        && (validate_text value.summary 1000 true
                            && (validate_epoch value.epoch
                                && ((value.epoch.world_id =ₛ value.world_id)
                                    && (not (value.observation_sequence == 0)
                                        && (ltb now value.expires_at
                                            && leb value.expires_at (now + 86400000)))))))))))
