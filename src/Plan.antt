-- ===== src/Plan.antt =====
-- taskstate/plan.go: the data of a task plan, its errors and what the plan code takes from outside.
-- An enumeration holds the values that `ValidatePlan` admits. Times are milliseconds at or after 1970.
pub mod Codec
pub mod Checks
pub mod Validation
pub mod Steps
pub mod Progress
pub mod Failures
pub mod Store
pub mod Coordinator
use rin.Common.{◌≡◌, refl, ℕ, String, Bool, List, Option}
use rin.Host.{Epoch, CapabilityRef}

-- The errors of the control plane that `mapControlError` tells apart.
pub data ControlError : Type 0 where
  control_forbidden control_not_found control_lease_expired : ControlError
  control_stale control_lease_conflict control_other : ControlError

-- The error values of the package, and `control` for an error of the control plane. `host_invalid` is
-- the error of host/validate.go where it is returned without a wrapper.
pub data Error : Type 0 where
  invalid host_invalid not_found conflict capacity closed persist forbidden : Error
  control : ControlError → Error

-- A Go result with its error; `ok` is the value of a call whose error is nil.
pub data Result {ℓ} (Value : Type ℓ) : Type ℓ where
  err : Error → Result Value
  ok : Value → Result Value

pub err-not-ok {ℓ κ} : {A : Type ℓ} {B : Type κ} {e : Error} {a : A} → err e ≡ ok a → B
err-not-ok h = absurd cc

pub ok-inj {ℓ} : {A : Type ℓ} {a b : A} → ok a ≡ ok b → a ≡ b
ok-inj h = cc

-- `if !test { return err }`
abbrev pub require : Bool → Error → Result (Unit {0})
require Bool.false reason = err reason
require Bool.true reason = ok tt

pub require-eq-ok : (test : Bool) (e : Error) → require test e ≡ ok tt → test ≡ Bool.true
require-eq-ok Bool.false e h = err-not-ok h
require-eq-ok Bool.true e h = refl

-- `value, err := call(); if err != nil { return err }`
infixl 5 ◌>>=◌
abbrev pub ◌>>=◌ {ℓ κ} :
    {Value : Type ℓ} {Final : Type κ} → Result Value → (Value → Result Final) → Result Final
err reason >>= rest = err reason
ok value >>= rest = rest value

-- What the first call gave, where the whole gives a value.
pub >>=-eq-ok {ℓ κ} :
    {Value : Type ℓ} {Final : Type κ} (call : Result Value) (rest : Value → Result Final)
    {final : Final} (h : (call >>= rest) ≡ ok final)
    → (value : Value) × (call ≡ ok value) × (rest value ≡ ok final)
>>=-eq-ok (err reason) rest h = err-not-ok h
>>=-eq-ok (ok value) rest h = (value, refl, h)

-- `if err := check(); err != nil { return err }`
infixl 5 ◌>>◌
abbrev pub ◌>>◌ {ℓ} : {Final : Type ℓ} → Result (Unit {0}) → Result Final → Result Final
check >> rest = check >>= λ _. rest

pub >>-eq-ok {ℓ} :
    {Final : Type ℓ} (check : Result (Unit {0})) (rest : Result Final) {final : Final}
    (h : (check >> rest) ≡ ok final)
    → (check ≡ ok tt) × (rest ≡ ok final)
>>-eq-ok (err reason) rest h = err-not-ok h
>>-eq-ok (ok _) rest h = (refl, h)

pub data PlanningMode : Type 0 where
  disabled auto required : PlanningMode

pub data ControllerSource : Type 0 where
  internal external : ControllerSource

pub data PlanStatus : Type 0 where
  planned active blocked paused completed failed cancelled : PlanStatus

pub data StepStatus : Type 0 where
  pending step_active step_blocked step_completed step_failed skipped : StepStatus

pub data EvidenceKind : Type 0 where
  operation_outcome observation_fact : EvidenceKind

pub data ReplanReason : Type 0 where
  goal_changed required_capability_missing failure_threshold_reached : ReplanReason
  epoch_invalidated manual_authorized : ReplanReason

pub record PlanCondition : Type 0 where
  pub condition_id : String
  pub kind : EvidenceKind
  pub summary : String
  pub capability : Option CapabilityRef
  pub fact_id : String
  pub fact_value_json : String

pub record PlanEvidence : Type 0 where
  pub evidence_id : String
  pub condition_id : String
  pub kind : EvidenceKind
  pub operation_id : String
  pub epoch : Epoch
  pub observation_sequence : ℕ
  pub digest : String
  pub recorded_at : ℕ

pub record PlanStep : Type 0 where
  pub step_id : String
  pub title : String
  pub objective : String
  pub status : StepStatus
  pub success_conditions : List PlanCondition
  pub capability_hints : List CapabilityRef
  pub attempt : ℕ
  pub max_attempts : ℕ
  pub blocked_reason : String
  pub evidence : List PlanEvidence

pub record StepDraft : Type 0 where
  pub step_id : String
  pub title : String
  pub objective : String
  pub success_conditions : List PlanCondition
  pub capability_hints : List CapabilityRef
  pub max_attempts : ℕ

pub record PlanState : Type 0 where
  pub schema_version : String
  pub plan_id : String
  pub task_id : String
  pub session_id : String
  pub host_id : String
  pub world_id : String
  pub actor_id : String
  pub controller_id : String
  pub controller_source : ControllerSource
  pub goal : String
  pub goal_digest : String
  pub planning_mode : PlanningMode
  pub status : PlanStatus
  pub phase : String
  pub current_step_id : String
  pub steps : List PlanStep
  pub success_conditions : List PlanCondition
  pub evidence : List PlanEvidence
  pub revision : ℕ
  pub replan_count : ℕ
  pub max_replans : ℕ
  pub consecutive_failures : ℕ
  pub last_failure_family : String
  pub last_operation_id : String
  pub last_outcome_code : String
  pub based_on_epoch : Epoch
  pub based_on_observation_sequence : ℕ
  pub created_at : ℕ
  pub updated_at : ℕ

pub record Draft : Type 0 where
  pub plan_id : String
  pub task_id : String
  pub session_id : String
  pub host_id : String
  pub world_id : String
  pub actor_id : String
  pub controller_id : String
  pub controller_source : ControllerSource
  pub goal : String
  pub planning_mode : PlanningMode
  pub phase : String
  pub steps : List StepDraft
  pub success_conditions : List PlanCondition
  pub max_replans : ℕ
  pub based_on_epoch : Epoch
  pub based_on_observation_sequence : ℕ

pub record ReplanPolicy : Type 0 where
  pub failure_threshold : ℕ
  pub max_replans : ℕ

pub record ReplanInput : Type 0 where
  pub reason : ReplanReason
  pub consecutive_failures : ℕ
  pub replan_count : ℕ
  pub player_authorized : Bool
  pub has_authoritative_proof : Bool
