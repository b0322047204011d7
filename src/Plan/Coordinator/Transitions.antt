-- ===== src/Plan/Coordinator/Transitions.antt =====
-- taskstate/coordinator.go: transitions by evidence of the Host, actions for a step of the plan, the
-- outcomes that come back, and the cancellation of a plan that the runtime owns.
use rin.Common.{
  ℕ, String, Bool, true, false, ◌&&◌, List, [], ◌∷◌, Option, none, some, ◌==◌, ◌=ₛ◌, ◌⋯◌,
  if◌then◌else◌, contains, all,
}
use rin.Host.{CapabilityRef, capability_eq, PlanStepRef, RunStatus, ActionOutcome, run_status_eq}
use rin.Plan.{
  invalid, not_found, conflict, forbidden, Result, ok, err, ◌>>=◌, ◌>>◌, require, internal,
  external, active, cancelled, EvidenceKind, operation_outcome, observation_fact, PlanEvidence,
  PlanState,
}
use rin.Plan.Codec.{Codec, plan_status_eq, kind_eq}
use rin.Plan.Validation.{terminal_plan_status}
use rin.Plan.Failures.{operation_condition_ids, observation_condition_matches}
use rin.Plan.Store.{Store, OperationLink}
use rin.Plan.Store.Plans.{get, set_status, apply_trusted_evidence}
use rin.Plan.Store.Links.{validate_link_conditions, link_operation, reconcile_operation_link}
use rin.Plan.Store.Results.{apply_operation_result}
use rin.Plan.Coordinator.{
  StepAction, OperationView, ObservedFact, ControlClient, map_control_error, mapped, scope_control,
  scope_execute, authorize_state, current_plan_condition,
}

pub record TransitionInput : Type 0 where
  pub plan_id : String
  pub expected_revision : ℕ
  pub condition_id : String
  pub kind : EvidenceKind
  pub evidence_id : String

pub record OwnedPlanCancellationInput : Type 0 where
  pub plan_id : String
  pub task_id : String
  pub session_id : String
  pub host_id : String
  pub world_id : String
  pub actor_id : String
  pub controller_id : String
  pub summary : String

-- The fields that the sink reads of `controlplane.OutcomeEvidence`.
pub record OutcomeEvidence : Type 0 where
  pub operation_id : String
  pub capability : CapabilityRef
  pub plan_step : Option PlanStepRef
  pub outcome : ActionOutcome

abbrev no_link : OperationLink
no_link = record {
  operation_id = "";
  plan_id = "";
  plan_revision = 0;
  step_id = "";
  condition_ids = [];
}

-- The plan that the action of a terminal operation was for, where its success is confirmed.
abbrev confirmed_for : PlanState → OperationView → Option (StepAction × ActionOutcome)
confirmed_for state operation = elim operation.outcome [
  | none ↦ none
  | some outcome ↦ elim operation.action [
    | none ↦ none
    | some action ↦ elim action.plan_step [
      | none ↦ none
      | some step ↦
          if operation.terminal
            && (operation.execution_confirmed
                && (run_status_eq outcome.status RunStatus.succeeded
                    && (step.plan_id =ₛ state.plan_id)))
          then some (action, outcome)
          else none
    ]
  ]
]

-- The condition is proved by the capability of the operation.
abbrev proved_by_capability : PlanState → String → CapabilityRef → Bool
proved_by_capability state id ref = elim (current_plan_condition state id) [
  | none ↦ false
  | some c ↦ elim c.capability [
    | none ↦ false
    | some needed ↦ kind_eq c.kind operation_outcome && capability_eq needed ref
  ]
]

abbrev find_fact : String → List ObservedFact → Option ObservedFact
find_fact id [] = none
find_fact id (fact ∷ facts) = if fact.fact_id =ₛ id then some fact else find_fact id facts

-- The identity of the caller that `CancelOwnedPlan` asks for.
unfoldable pub owns_plan : OwnedPlanCancellationInput → PlanState → Bool
owns_plan input state =
    (elim state.controller_source [ internal ↦ true | external ↦ false ])
    && ((state.task_id =ₛ input.task_id)
        && ((state.session_id =ₛ input.session_id)
            && ((state.host_id =ₛ input.host_id)
                && ((state.world_id =ₛ input.world_id)
                    && ((state.actor_id =ₛ input.actor_id)
                        && (state.controller_id =ₛ input.controller_id))))))

-- The tests of `SubmitStepAction` that the request is for the step that is current now.
unfoldable pub action_fits : StepAction → PlanStepRef → PlanState → Bool
action_fits action step state =
    (state.revision == step.plan_revision)
    && ((state.current_step_id =ₛ step.step_id)
        && (plan_status_eq state.status active
            && ((state.task_id =ₛ action.task_id)
                && ((state.host_id =ₛ action.host_id)
                    && ((state.world_id =ₛ action.world_id)
                        && ((state.actor_id =ₛ action.actor_id)
                            && (state.controller_id =ₛ action.controller_id)))))))

module _ (codec : Codec) (client : ControlClient) where
  unfoldable pub outcome_transition : PlanState → TransitionInput → Result PlanEvidence
  unfolding map_control_error current_plan_condition
  outcome_transition state input = do
    operation ← mapped (client.get_operation input.evidence_id)
    elim (confirmed_for state operation) [
      | none ↦ err invalid
      | some (action, outcome) ↦ do
        require (proved_by_capability state input.condition_id action.capability) invalid
        ok (record {
          evidence_id = operation.operation_id ⋯ "." ⋯ input.condition_id;
          condition_id = input.condition_id;
          kind = input.kind;
          operation_id = operation.operation_id;
          epoch = outcome.epoch;
          observation_sequence = outcome.world_seq;
          digest = codec.outcome_digest outcome;
          recorded_at = operation.updated_at;
        })
    ]

  unfoldable pub fact_transition : PlanState → TransitionInput → Result PlanEvidence
  unfolding map_control_error current_plan_condition observation_condition_matches
  fact_transition state input = do
    observation ← mapped (client.get_observation state.host_id state.world_id state.actor_id)
    elim (find_fact input.evidence_id observation.facts) [
      | none ↦ err not_found
      | some fact ↦ elim (current_plan_condition state input.condition_id) [
        | none ↦ err invalid
        | some c ↦ do
          require (observation_condition_matches codec c fact.fact_id fact.value) invalid
          ok (record {
            evidence_id = observation.observation_id ⋯ "." ⋯ fact.fact_id;
            condition_id = input.condition_id;
            kind = input.kind;
            operation_id = "";
            epoch = observation.epoch;
            observation_sequence = observation.sequence;
            digest = fact.digest;
            recorded_at = observation.observed_at;
          })
      ]
    ]

  unfoldable pub transition_evidence : PlanState → TransitionInput → Result PlanEvidence
  unfolding outcome_transition fact_transition
  transition_evidence state input = elim input.kind [
    | operation_outcome ↦ outcome_transition state input
    | observation_fact ↦ fact_transition state input
  ]

  unfoldable pub request_transition : TransitionInput → ℕ → Store → Result (Store × PlanState)
  unfolding get authorize_state transition_evidence apply_trusted_evidence
  request_transition input now store = do
    state ← get codec input.plan_id store
    require (state.revision == input.expected_revision) conflict
    authorize_state client state scope_control
    evidence ← transition_evidence state input
    apply_trusted_evidence codec state.plan_id state.revision evidence
        "Verified plan evidence applied." now store

  -- The link of an action to the step that it is for, before the action is submitted.
  unfoldable pub step_link : StepAction → List String → Store → Result OperationLink
  unfolding get authorize_state action_fits validate_link_conditions operation_condition_ids
  step_link action condition_ids store = elim action.plan_step [
    | none ↦ err invalid
    | some step ↦ do
      state ← get codec step.plan_id store
      authorize_state client state scope_execute
      require (action_fits action step state) conflict
      let link : OperationLink = record no_link {
        plan_id = state.plan_id;
        plan_revision = state.revision;
        step_id = state.current_step_id;
        condition_ids = condition_ids;
      }
      validate_link_conditions state link
      require (all (contains ◌=ₛ◌ (operation_condition_ids state action.capability)) condition_ids)
          invalid
      ok link
  ]

  -- `SubmitStepAction`: the store and the operation; where only the link fails, the operation is
  -- submitted all the same, and the store is the old one.
  unfoldable pub submit_step_action :
      StepAction → List String → Store → Result (OperationView × Result Store)
  unfolding step_link link_operation
  submit_step_action action condition_ids store = do
    link ← step_link action condition_ids store
    operation ← client.submit_action action
    ok (
      operation,
      link_operation codec (record link { operation_id = operation.operation_id }) store,
    )

module _ (codec : Codec) where
  unfoldable pub cancel_owned_plan :
      OwnedPlanCancellationInput → ℕ → Store → Result (Store × PlanState)
  unfolding get owns_plan terminal_plan_status set_status
  cancel_owned_plan input now store = do
    state ← get codec input.plan_id store
    require (owns_plan input state) forbidden
    (if terminal_plan_status state.status
        then ok (store, state)
        else set_status codec
            (record {
              plan_id = state.plan_id;
              expected_revision = state.revision;
              status = cancelled;
              summary = input.summary;
            })
            now store)

  -- The conditions that the sink links to the outcome: those that its capability proves, if the plan
  -- still stands where the action was submitted.
  unfoldable pub sink_conditions : PlanState → PlanStepRef → CapabilityRef → List String
  unfolding operation_condition_ids
  sink_conditions state step capability =
      if (state.revision == step.plan_revision) && (state.current_step_id =ₛ step.step_id)
      then operation_condition_ids state capability
      else []

  -- `RecordOutcome` of the sink; an outcome without a step is none of its business. The link that it
  -- restores is committed before the outcome is applied.
  unfoldable pub record_outcome : OutcomeEvidence → ℕ → Store → Store × Result (Unit {0})
  unfolding get sink_conditions reconcile_operation_link apply_operation_result
  record_outcome evidence now store = elim evidence.plan_step [
    | none ↦ (store, ok tt)
    | some step ↦ elim (get codec step.plan_id store) [
      | err e ↦ (store, err e)
      | ok state ↦
          elim (reconcile_operation_link codec
            (record {
              operation_id = evidence.operation_id;
              plan_id = step.plan_id;
              plan_revision = step.plan_revision;
              step_id = step.step_id;
              condition_ids = sink_conditions state step evidence.capability;
            })
            store) [
              | err e ↦ (store, err e)
              | ok linked ↦
                  elim (apply_operation_result codec
                    (record {
                      operation_id = evidence.operation_id;
                      execution_confirmed = true;
                      outcome = evidence.outcome;
                    })
                    now linked) [ err e ↦ (linked, err e) | ok (after, _) ↦ (after, ok tt) ]
            ]
    ]
  ]
