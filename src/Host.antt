-- ===== src/Host.antt =====
-- host/types.go, host/action.go: the trusted values that the policy engine and the control plane
-- read. Fields that no modelled operation reads (schemas, arguments, references, attributes) are
-- left out. An enumeration holds the values that the validators of host/validate.go admit.
pub mod Checks
use rin.Common.{ℕ, String, ◌≡◌, ◌↔◌, Bool, ◌&&◌, ◌||◌, List, [], ◌∷◌, arith, eq_iff, ◌==◌, ◌=ₛ◌}

pub data ClockMode : Type 0 where
  event step realtime : ClockMode

unfoldable pub clock_eq : ClockMode → ClockMode → Bool
clock_eq event event = Bool.true
clock_eq step step = Bool.true
clock_eq realtime realtime = Bool.true
clock_eq _ _ = Bool.false

-- `Value` is an int64 that validation keeps at or above 0.
pub record Timepoint : Type 0 where
  pub clock : ClockMode
  pub value : ℕ

pub record Duration : Type 0 where
  pub clock : ClockMode
  pub value : ℕ

pub record Epoch : Type 0 where
  pub session_id : String
  pub world_id : String
  pub host : ℕ
  pub world : ℕ
  pub timeline : ℕ

unfoldable pub epoch_eq : Epoch → Epoch → Bool
epoch_eq a b =
    (a.session_id =ₛ b.session_id)
    && ((a.world_id =ₛ b.world_id)
        && ((a.host == b.host) && ((a.world == b.world) && (a.timeline == b.timeline))))

pub record Principal : Type 0 where
  pub id : String
  pub granted_scopes : List String

pub record HostRef : Type 0 where
  pub namespace : String
  pub kind : String
  pub key : String
  pub ephemeral : Bool
  pub epoch : Epoch

pub record CapabilityRef : Type 0 where
  pub id : String
  pub version : String

unfoldable pub capability_eq : CapabilityRef → CapabilityRef → Bool
capability_eq a b = (a.id =ₛ b.id) && (a.version =ₛ b.version)

pub record PlanStepRef : Type 0 where
  pub plan_id : String
  pub plan_revision : ℕ
  pub step_id : String

pub data RiskLevel : Type 0 where
  low moderate high critical : RiskLevel

pub data OwnershipClass : Type 0 where
  unknown system actor controller player shared unowned : OwnershipClass

pub data EffectOperation : Type 0 where
  read create update delete transfer consume execute communicate : EffectOperation

unfoldable pub risk_eq : RiskLevel → RiskLevel → Bool
risk_eq low low = Bool.true
risk_eq moderate moderate = Bool.true
risk_eq high high = Bool.true
risk_eq critical critical = Bool.true
risk_eq _ _ = Bool.false

unfoldable pub ownership_eq : OwnershipClass → OwnershipClass → Bool
ownership_eq unknown unknown = Bool.true
ownership_eq system system = Bool.true
ownership_eq actor actor = Bool.true
ownership_eq controller controller = Bool.true
ownership_eq player player = Bool.true
ownership_eq shared shared = Bool.true
ownership_eq unowned unowned = Bool.true
ownership_eq _ _ = Bool.false

unfoldable pub operation_eq : EffectOperation → EffectOperation → Bool
operation_eq read read = Bool.true
operation_eq create create = Bool.true
operation_eq update update = Bool.true
operation_eq delete delete = Bool.true
operation_eq transfer transfer = Bool.true
operation_eq consume consume = Bool.true
operation_eq execute execute = Bool.true
operation_eq communicate communicate = Bool.true
operation_eq _ _ = Bool.false

pub record Effect : Type 0 where
  pub kind : String
  pub operation : EffectOperation
  pub tags : List String
  pub ownership : OwnershipClass
  pub scope : String
  pub quantity : ℕ
  pub reversible : Bool
  pub risk : RiskLevel

pub record BoundAction : Type 0 where
  pub binding_id : String
  pub request_digest : String
  pub controller_id : String
  pub actor_id : String
  pub expected_epoch : Epoch
  pub task_id : String
  pub effects : List Effect
  pub effect_digest : String
  pub valid_until : Timepoint

pub clock_eq_iff : (a b : ClockMode) → (clock_eq a b ≡ Bool.true) ↔ (a ≡ b)
unfolding clock_eq
clock_eq_iff a b = ground arith

pub epoch_eq_iff : (a b : Epoch) → (epoch_eq a b ≡ Bool.true) ↔ (a ≡ b)
unfolding epoch_eq
epoch_eq_iff a b = ground (arith, eq_iff a.session_id b.session_id, eq_iff a.world_id b.world_id)

pub operation_eq_iff : (a b : EffectOperation) → (operation_eq a b ≡ Bool.true) ↔ (a ≡ b)
unfolding operation_eq
operation_eq_iff a b = ground arith

-- The status of an action run; `ActionQueued` and its like lose their prefix.
pub data RunStatus : Type 0 where
  queued running succeeded failed cancelled interrupted stale outcome_unknown : RunStatus

pub record ActionRun : Type 0 where
  pub operation_id : String
  pub status : RunStatus
  pub progress_seq : ℕ
  pub progress : ℕ
  pub updated_at : Timepoint
  pub message : String

pub record ActionOutcome : Type 0 where
  pub operation_id : String
  pub status : RunStatus
  pub code : String
  pub summary : String
  pub epoch : Epoch
  pub evidence : List HostRef
  pub world_seq : ℕ
  pub occurred_at : Timepoint

unfoldable pub run_status_eq : RunStatus → RunStatus → Bool
run_status_eq queued queued = Bool.true
run_status_eq running running = Bool.true
run_status_eq succeeded succeeded = Bool.true
run_status_eq failed failed = Bool.true
run_status_eq cancelled cancelled = Bool.true
run_status_eq interrupted interrupted = Bool.true
run_status_eq stale stale = Bool.true
run_status_eq outcome_unknown outcome_unknown = Bool.true
run_status_eq _ _ = Bool.false

unfoldable pub can_transition_action_run : RunStatus → RunStatus → Bool
can_transition_action_run queued to =
    run_status_eq to running
    || (run_status_eq to failed
        || (run_status_eq to cancelled
            || (run_status_eq to stale || run_status_eq to outcome_unknown)))
can_transition_action_run running to =
    run_status_eq to succeeded
    || (run_status_eq to failed
        || (run_status_eq to cancelled
            || (run_status_eq to interrupted
                || (run_status_eq to stale || run_status_eq to outcome_unknown))))
can_transition_action_run outcome_unknown to =
    run_status_eq to succeeded
    || (run_status_eq to failed
        || (run_status_eq to cancelled || (run_status_eq to interrupted || run_status_eq to stale)))
can_transition_action_run _ to = Bool.false

-- `reflect.DeepEqual` of two runs and of two outcomes.
unfoldable pub run_eq : ActionRun → ActionRun → Bool
run_eq a b =
    (a.operation_id =ₛ b.operation_id)
    && (run_status_eq a.status b.status
        && ((a.progress_seq == b.progress_seq)
            && ((a.progress == b.progress)
                && (clock_eq a.updated_at.clock b.updated_at.clock
                    && ((a.updated_at.value == b.updated_at.value) && (a.message =ₛ b.message))))))

unfoldable pub ref_eq : HostRef → HostRef → Bool
unfolding epoch_eq
ref_eq a b =
    (a.namespace =ₛ b.namespace)
    && ((a.kind =ₛ b.kind) && ((a.key =ₛ b.key) && epoch_eq a.epoch b.epoch))

abbrev refs_eq : List HostRef → List HostRef → Bool
refs_eq [] [] = Bool.true
refs_eq (x ∷ xs) (y ∷ ys) = let rest = refs_eq xs ys in ref_eq x y && rest
refs_eq _ _ = Bool.false

-- `reflect.DeepEqual` of outcomes; evidence that is nil and evidence that is empty are the same list.
unfoldable pub outcome_eq : ActionOutcome → ActionOutcome → Bool
unfolding ref_eq
outcome_eq a b =
    (a.operation_id =ₛ b.operation_id)
    && (run_status_eq a.status b.status
        && ((a.code =ₛ b.code)
            && ((a.summary =ₛ b.summary)
                && (epoch_eq a.epoch b.epoch
                    && (refs_eq a.evidence b.evidence
                        && ((a.world_seq == b.world_seq)
                            && (clock_eq a.occurred_at.clock b.occurred_at.clock
                                && (a.occurred_at.value == b.occurred_at.value))))))))
