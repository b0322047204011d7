-- ===== src/Plan/Coordinator.antt =====
-- taskstate/coordinator.go: the operations that a caller of the task plans reaches, with the authority
-- that each of them asks of the control plane.
pub mod Transitions
pub mod Authority
use rin.Common.{
  ℕ, ◌+◌, String, Bool, true, false, not, ◌&&◌, ◌||◌, List, [], ◌∷◌, ◌++◌, Option, none, some, ltb,
  leb, ◌==◌, ◌=ₛ◌, ◌⋯◌, if◌then◌else◌, contains, any, all,
}
use rin.Host.{
  Epoch, epoch_eq, Principal, CapabilityRef, capability_eq, PlanStepRef, RunStatus, ActionOutcome,
  HostRef, run_status_eq,
}
use rin.Control.Controllers.{DecisionSource, source_eq}
use rin.Plan.{
  ControlError, control_forbidden, control_not_found, control_lease_expired, control_stale,
  control_lease_conflict, control_other, Error, invalid, not_found, conflict, forbidden, control,
  Result, ok, err, ◌>>=◌, ◌>>◌, require, ControllerSource, internal, external, active, cancelled,
  EvidenceKind, operation_outcome, observation_fact, ReplanReason, goal_changed,
  required_capability_missing, failure_threshold_reached, epoch_invalidated, manual_authorized,
  PlanCondition, PlanEvidence, PlanStep, PlanState, Draft, ReplanInput,
}
use rin.Plan.Codec.{Codec, plan_status_eq, kind_eq}
use rin.Plan.Validation.{terminal_plan_status}
use rin.Plan.Steps.{current_step, new_plan}
use rin.Plan.Failures.{should_replan, operation_condition_ids, observation_condition_matches}
use rin.Plan.Store.{Store, OperationLink}
use rin.Plan.Store.Plans.{
  ReviseInput, StatusInput, create, get, rebase, revise, set_status, apply_trusted_evidence,
}
use rin.Plan.Store.Links.{validate_link_conditions, link_operation, reconcile_operation_link}
use rin.Plan.Store.Results.{OperationResult, apply_operation_result}

-- The fields that the coordinator reads of an `ActorView` and of a `ControllerLease`.
pub record ActorView : Type 0 where
  pub epoch : Epoch
  pub observation_seq : ℕ
  pub online : Bool

pub record LeaseView : Type 0 where
  pub controller_id : String
  pub principal_id : String
  pub source : DecisionSource
  pub epoch : Epoch

-- The fields that are read of a submitted `ActionRequest` and of its envelope.
pub record StepAction : Type 0 where
  pub host_id : String
  pub world_id : String
  pub actor_id : String
  pub controller_id : String
  pub task_id : String
  pub capability : CapabilityRef
  pub plan_step : Option PlanStepRef

pub record OperationView : Type 0 where
  pub operation_id : String
  pub terminal : Bool
  pub execution_confirmed : Bool
  pub action : Option StepAction
  pub outcome : Option ActionOutcome
  pub updated_at : ℕ

-- A fact with the JSON text of its value, and the digest of the JSON of the fact. The `observed_at` of an
-- observation is what `timepointMillis` gives of its time.
pub record ObservedFact : Type 0 where
  pub fact_id : String
  pub value : String
  pub digest : String

pub record Observation : Type 0 where
  pub observation_id : String
  pub epoch : Epoch
  pub sequence : ℕ
  pub observed_at : ℕ
  pub facts : List ObservedFact

-- The interface `ControlClient`: the answers that the control plane gives while one call runs. The
-- actor of a call is its Host, its world and its identifier.
pub record ControlClient : Type 0 where
  pub info : Result Principal
  pub get_actor : String → String → String → Result ActorView
  pub get_controller : String → String → String → Result LeaseView
  pub get_observation : String → String → String → Result Observation
  pub list_capabilities : String → String → String → Result (List CapabilityRef)
  pub get_operation : String → Result OperationView
  pub submit_action : StepAction → Result OperationView

unfoldable pub map_control_error : Error → Error
map_control_error (control control_forbidden) = forbidden
map_control_error (control control_not_found) = forbidden
map_control_error (control control_lease_expired) = forbidden
map_control_error (control control_stale) = conflict
map_control_error (control control_lease_conflict) = conflict
map_control_error e = e

abbrev pub mapped {ℓ} : {A : Type ℓ} → Result A → Result A
unfolding map_control_error
mapped (ok a) = ok a
mapped (err e) = err (map_control_error e)

unfoldable pub principal_has_scope : Principal → String → Bool
principal_has_scope principal scope = contains ◌=ₛ◌ principal.granted_scopes scope

abbrev pub scope_read : String
scope_read = "actor.read"

abbrev pub scope_control : String
scope_control = "actor.control"

abbrev pub scope_execute : String
scope_execute = "actor.execute"

abbrev pub scope_admin : String
scope_admin = "host.admin"

-- The source of the lease is the one that the plan names.
abbrev pub same_source : ControllerSource → DecisionSource → Bool
same_source external source = source_eq source DecisionSource.external
same_source internal source = source_eq source DecisionSource.internal

-- The tests on the controller's lease at the end of `authorizeState`.
unfoldable pub lease_fits : Bool → Principal → LeaseView → PlanState → Bool
lease_fits admin principal lease state =
    (lease.controller_id =ₛ state.controller_id)
    && (epoch_eq lease.epoch state.based_on_epoch
        && ((admin || (lease.principal_id =ₛ principal.id))
            && same_source state.controller_source lease.source))

module _ (client : ControlClient) where
  unfoldable pub authorize_read : PlanState → Result (Unit {0})
  unfolding principal_has_scope
  authorize_read state = do
    principal ← client.info
    require (principal_has_scope principal scope_read || principal_has_scope principal scope_admin)
        forbidden
    _ ← mapped (client.get_actor state.host_id state.world_id state.actor_id)
    ok tt

  -- `authorizeState`, whose callers all ask for the controller.
  unfoldable pub authorize_state : PlanState → String → Result (Unit {0})
  unfolding principal_has_scope lease_fits
  authorize_state state scope = do
    principal ← client.info
    let admin = principal_has_scope principal scope_admin
    require (admin || principal_has_scope principal scope) forbidden
    actor ← mapped (client.get_actor state.host_id state.world_id state.actor_id)
    require
        (epoch_eq actor.epoch state.based_on_epoch
          && not (ltb actor.observation_seq state.based_on_observation_sequence))
        conflict
    lease ← mapped (client.get_controller state.host_id state.world_id state.actor_id)
    require (lease_fits admin principal lease state) forbidden

-- The step of the plan needs a capability that the catalog has no longer.
unfoldable pub plan_step_capability_missing : PlanState → List CapabilityRef → Bool
unfolding current_step
plan_step_capability_missing state catalog = elim (current_step state) [
  | none ↦ false
  | some (index, step) ↦
      any (λ (ref : CapabilityRef). not (contains capability_eq catalog ref)) step.capability_hints
]

unfoldable pub condition_of : List PlanCondition → String → Option PlanCondition
condition_of [] id = none
condition_of (c ∷ cs) id = if c.condition_id =ₛ id then some c else condition_of cs id

unfoldable pub current_plan_condition : PlanState → String → Option PlanCondition
unfolding current_step condition_of
current_plan_condition state id = elim (current_step state) [
  | none ↦ condition_of state.success_conditions id
  | some (index, step) ↦ elim (condition_of step.success_conditions id) [
    | some c ↦ some c
    | none ↦ condition_of state.success_conditions id
  ]
]

module _ (codec : Codec) (client : ControlClient) where
  unfoldable pub authorize_draft : Draft → String → Result (Unit {0})
  unfolding new_plan authorize_state
  authorize_draft draft scope = do
    state ← new_plan codec draft 0
    authorize_state client state scope

  unfoldable pub create_plan : Draft → ℕ → Store → Result (Store × PlanState)
  unfolding authorize_draft create
  create_plan draft now store = do authorize_draft draft scope_control; create codec draft now store

  unfoldable pub get_plan : String → Store → Result PlanState
  unfolding authorize_read get
  get_plan id store = do state ← get codec id store; authorize_read client state; ok state

  unfoldable pub set_plan_status : StatusInput → ℕ → Store → Result (Store × PlanState)
  unfolding get authorize_state set_status
  set_plan_status input now store = do
    state ← get codec input.plan_id store
    authorize_state client state scope_control
    set_status codec input now store

  -- The proof that the reason of a revision asks for, as `RevisePlan` gathers it.
  unfoldable pub replan_gate : PlanState → ReplanReason → Draft → Result ReplanInput
  unfolding plan_step_capability_missing
  replan_gate current reason draft =
      let gate : ReplanInput = record {
        reason = reason;
        consecutive_failures = current.consecutive_failures;
        replan_count = current.replan_count;
        player_authorized = false;
        has_authoritative_proof = false;
      } in
      elim reason [
        | goal_changed ↦ ok (record gate { player_authorized = true })
        | manual_authorized ↦ ok (record gate { player_authorized = true })
        | failure_threshold_reached ↦
            ok (record gate { has_authoritative_proof = leb 3 current.consecutive_failures })
        | epoch_invalidated ↦ do
          actor ← mapped (client.get_actor current.host_id current.world_id current.actor_id)
          ok (record gate {
            has_authoritative_proof =
                actor.online
                && (epoch_eq actor.epoch draft.based_on_epoch
                    && not (epoch_eq actor.epoch current.based_on_epoch));
          })
        | required_capability_missing ↦ do
          catalog ←
              mapped (client.list_capabilities current.host_id current.world_id current.actor_id)
          ok (record gate {
            has_authoritative_proof = plan_step_capability_missing current catalog;
          })
      ]

  unfoldable pub revise_plan : ReviseInput → ℕ → Store → Result (Store × PlanState)
  unfolding get rebase authorize_draft replan_gate should_replan revise
  revise_plan input now store = do
    current ← get codec input.plan_id store
    let draft = rebase current input.draft
    authorize_draft draft scope_control
    gate ← replan_gate current input.reason draft
    require
        (should_replan (record { failure_threshold = 3; max_replans = current.max_replans }) gate)
        conflict
    revise codec (record input { draft = draft }) now store
