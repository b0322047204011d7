-- ===== src/Policy.antt =====
-- policy/types.go and the state of policy/engine.go. The engine holds a sealed `Config`, so an
-- enumeration has the values that `SealConfig` admits, an empty `RiskAtLeast` is `none`, and a
-- zero window is `none`. The rules come sorted, so the `Priority` by which `SealConfig` sorts them is
-- left out.
pub mod Kernel
pub mod Profiles
pub mod Matching
pub mod Gameplay
pub mod Decisions
pub mod Keys
pub mod Budgets
pub mod Challenges
pub mod Evaluation
pub mod Snapshot
pub mod Restore
use rin.Common.{ℕ, String, Bool, List, Option}
use rin.Common.Maps.{Map}
use rin.Host.{Timepoint, Duration, Epoch, Principal, RiskLevel, OwnershipClass, EffectOperation}

pub data Verdict : Type 0 where
  allow deny require_confirmation : Verdict

pub data Profile : Type 0 where
  guarded survival open_profile privileged_custom : Profile

pub data Layer : Type 0 where
  server world owner actor task : Layer

pub record Rule : Type 0 where
  pub rule_id : String
  pub layer : Layer
  pub result : Verdict
  pub effect_kinds : List String
  pub operations : List EffectOperation
  pub ownership : List OwnershipClass
  pub scopes : List String
  pub tags_all : List String
  pub tags_any : List String
  pub risk_at_least : Option RiskLevel
  pub risk_at_most : Option RiskLevel
  pub reversible : Option Bool
  pub reason_code : String
  pub human_summary : String

-- `MaxActions` is a uint32 and `MaxQuantity` a uint64; 0 is no limit.
pub record Budget : Type 0 where
  pub budget_id : String
  pub layer : Layer
  pub effect_kinds : List String
  pub operations : List EffectOperation
  pub tags_any : List String
  pub max_actions : ℕ
  pub max_quantity : ℕ
  pub window : Option Duration

pub record ConfirmationDurations : Type 0 where
  pub event : ℕ
  pub step : ℕ
  pub realtime : ℕ

pub record Config : Type 0 where
  pub revision : ℕ
  pub profile : Profile
  pub known_effect_kinds : List String
  pub known_scopes : List String
  pub rules : List Rule
  pub budgets : List Budget
  pub confirmation_ttl : ConfirmationDurations
  pub confirmation_scopes : List String

pub record Context : Type 0 where
  pub now : Timepoint
  pub current_epoch : Epoch
  pub principal : Principal
  pub server_id : String
  pub owner_id : String
  pub emergency_stopped : Bool
  pub confirmation_id : String

pub record ConfirmationChallenge : Type 0 where
  pub challenge_id : String
  pub controller_id : String
  pub actor_id : String
  pub principal_id : String
  pub effect_digest : String
  pub epoch : Epoch
  pub expires_at : Timepoint
  pub policy_revision : ℕ
  pub single_use : Bool

pub record EffectiveLimit : Type 0 where
  pub budget_id : String
  pub usage_key : String
  pub max_actions : ℕ
  pub actions_used : ℕ
  pub actions_remaining : ℕ
  pub max_quantity : ℕ
  pub quantity_used : ℕ
  pub quantity_remaining : ℕ

pub record Decision : Type 0 where
  pub decision_id : String
  pub result : Verdict
  pub controller_id : String
  pub actor_id : String
  pub principal_id : String
  pub effect_digest : String
  pub policy_revision : ℕ
  pub matched_rule_ids : List String
  pub reason_code : String
  pub human_summary : String
  pub effective_limits : List EffectiveLimit
  pub confirmation : Option ConfirmationChallenge
  pub evaluated_at : Timepoint

-- The state of the engine.
pub record ChallengeState : Type 0 where
  pub challenge : ConfirmationChallenge
  pub approved : Bool
  pub key : String
  pub clock_scope : String

pub record BudgetUsage : Type 0 where
  pub actions : ℕ
  pub quantity : ℕ

pub record BudgetDelta : Type 0 where
  pub key : String
  pub actions : ℕ
  pub quantity : ℕ

pub record AuthorizationState : Type 0 where
  pub decision : Decision
  pub confirmation_id : String
  pub finalized : Bool

pub record Engine : Type 0 where
  pub config : Config
  pub config_digest : String
  pub challenges : Map ChallengeState
  pub challenge_keys : Map String
  pub usage : Map BudgetUsage
  pub reservations : Map (List BudgetDelta)
  pub authorizations : Map AuthorizationState
  pub decision_keys : Map String

abbrev pub max_json_safe_integer : ℕ
max_json_safe_integer = 9007199254740991

abbrev pub max_uint64 : ℕ
max_uint64 = 18446744073709551615

abbrev pub max_challenges : ℕ
max_challenges = 1024

abbrev pub max_authorizations : ℕ
max_authorizations = 4096

pub data Error : Type 0 where
  random_failed quantity_overflow usage_overflow window_clock_mismatch challenge_capacity
        challenge_missing challenge_clock challenge_revision approver_forbidden stale_revision :
      Error

pub data Result {ℓ} (A : Type ℓ) : Type ℓ where
  ok : A → Result A
  err : Error → Result A
