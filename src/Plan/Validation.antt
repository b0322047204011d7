-- ===== src/Plan/Validation.antt =====
-- taskstate/plan.go: `ValidatePlan` and `ValidateCompletionConditions`.
pub mod Facts
use rin.Common.{
  ℕ, suc, String, Bool, true, not, ◌&&◌, ◌||◌, List, [], ◌∷◌, leb, ◌==◌, ◌=ₛ◌, if◌then◌else◌,
  contains, length,
}
use rin.Common.Maps.{Map}
use rin.Host.Checks.{validate_epoch, validate_plan_step}
use rin.Plan.{
  invalid, Result, ok, ◌>>=◌, ◌>>◌, require, PlanStatus, active, completed, failed, cancelled,
  step_active, EvidenceKind, PlanCondition, PlanStep, PlanState,
}
use rin.Plan.Codec.{Codec, plan_status_eq, step_status_eq}
use rin.Plan.Checks.{
  max_wire_integer, require_text, validate_text, conditions_satisfied, all_steps_terminal_success,
  digest_text, validate_conditions, validate_step, validate_all_evidence, wrapped,
}

unfoldable pub terminal_plan_status : PlanStatus → Bool
terminal_plan_status status =
    plan_status_eq status completed
    || (plan_status_eq status failed || plan_status_eq status cancelled)

-- The counters of the plan; a time is never below 0.
abbrev pub counters_fit : PlanState → Bool
counters_fit state =
    not (state.revision == 0)
    && (leb state.revision max_wire_integer
        && (leb state.max_replans 32
            && (leb state.replan_count state.max_replans
                && (not (state.based_on_observation_sequence == 0)
                    && (leb state.based_on_observation_sequence max_wire_integer
                        && leb state.created_at state.updated_at)))))

-- `waitingForPlanEvidence`, without its first part.
abbrev pub awaits_evidence : PlanState → Bool
awaits_evidence state =
    all_steps_terminal_success state.steps
    && not (conditions_satisfied state.success_conditions state.evidence)

-- The tests on the count of active steps.
unfoldable pub activity_fits : PlanState → ℕ → Bool
unfolding terminal_plan_status
activity_fits state count =
    if terminal_plan_status state.status
    then (count == 0) && (state.current_step_id =ₛ "")
    else if plan_status_eq state.status active && not (count == 1)
    then (count == 0) && awaits_evidence state
    else true

module _ (codec : Codec) where
  -- The loop over the steps: the identifiers that it has seen and the active steps so far.
  unfoldable pub validate_steps :
      PlanState → List PlanStep → Map EvidenceKind → List String → ℕ → Result ℕ
  unfolding validate_step validate_plan_step
  validate_steps state [] all_ids seen count = ok count
  validate_steps state (step ∷ steps) all_ids seen count = do
    require
        (validate_plan_step (record {
          plan_id = state.plan_id;
          plan_revision = state.revision;
          step_id = step.step_id;
        }))
        invalid
    next ← wrapped (validate_step codec step all_ids)
    require (not (contains ◌=ₛ◌ seen step.step_id)) invalid
    require
        (not (step_status_eq step.status step_active) || (state.current_step_id =ₛ step.step_id))
        invalid
    validate_steps state steps next (step.step_id ∷ seen)
        (if step_status_eq step.status step_active then suc count else count)

  -- The tests of `ValidatePlan` on the fields of the plan itself.
  unfoldable pub validate_fields : PlanState → Result (Unit {0})
  unfolding validate_text digest_text validate_epoch
  validate_fields state = do
    require (state.schema_version =ₛ "rin.task-plan/v1") invalid
    require_text state.plan_id 256 true
    require_text state.task_id 256 true
    require_text state.session_id 256 true
    require_text state.host_id 256 true
    require_text state.world_id 256 true
    require_text state.actor_id 256 true
    require_text state.controller_id 256 true
    require_text state.goal 2000 true
    require (state.goal_digest =ₛ digest_text codec state.goal) invalid
    require (not (length state.steps == 0) && leb (length state.steps) 16) invalid
    require (leb (length state.success_conditions) 16 && leb (length state.evidence) 64) invalid
    require (counters_fit state) invalid
    require (validate_epoch state.based_on_epoch) invalid

  unfoldable pub validate_plan : PlanState → Result (Unit {0})
  unfolding validate_fields validate_conditions validate_steps activity_fits validate_all_evidence
  validate_plan state = do
    validate_fields state
    all_ids ← validate_conditions codec state.success_conditions []
    count ← validate_steps state state.steps all_ids [] 0
    require (activity_fits state count) invalid
    validate_all_evidence codec state.evidence state

  unfoldable pub validate_completion_conditions : List PlanCondition → Result (Unit {0})
  unfolding validate_conditions
  validate_completion_conditions conditions = do
    require (not (length conditions == 0) && leb (length conditions) 16) invalid
    _ ← validate_conditions codec conditions []
    ok tt
