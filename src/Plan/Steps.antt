-- ===== src/Plan/Steps.antt =====
-- taskstate/plan.go: the steps of a plan and `NewPlan`. A copy of a slice is the slice, since a value of
-- the model is never changed in place.
use rin.Common.{
  ℕ, zero, suc, ◌+◌, String, List, [], ◌∷◌, Option, none, some, map, ◌==◌, ◌=ₛ◌, if◌then◌else◌,
}
use rin.Common.Runes.{trim_space}
use rin.Plan.{Result, ok, ◌>>◌, active, pending, step_active, PlanStep, StepDraft, PlanState, Draft}
use rin.Plan.Codec.{Codec}
use rin.Plan.Checks.{digest_text}
use rin.Plan.Validation.{validate_plan}

-- `currentStepIndex`, with `none` for -1, over the steps from an index on.
unfoldable pub step_index_from : String → List PlanStep → ℕ → Option ℕ
step_index_from id [] index = none
step_index_from id (step ∷ steps) index =
    if step.step_id =ₛ id then some index else step_index_from id steps (index + 1)

unfoldable pub current_step_index : PlanState → Option ℕ
unfolding step_index_from
current_step_index state = step_index_from state.current_step_id state.steps 0

-- `steps[index]`
unfoldable pub step_at : ℕ → List PlanStep → Option PlanStep
step_at index [] = none
step_at zero (step ∷ steps) = some step
step_at (suc index) (step ∷ steps) = step_at index steps

-- An assignment to fields of `steps[index]`.
unfoldable pub modify_at : ℕ → (PlanStep → PlanStep) → List PlanStep → List PlanStep
modify_at index f [] = []
modify_at zero f (step ∷ steps) = f step ∷ steps
modify_at (suc index) f (step ∷ steps) = step ∷ modify_at index f steps

unfoldable pub current_step : PlanState → Option (ℕ × PlanStep)
unfolding current_step_index step_at
current_step state = elim (current_step_index state) [
  | none ↦ none
  | some index ↦ elim (step_at index state.steps) [ none ↦ none | some step ↦ some (index, step) ]
]

-- `draftSteps` and the loop of `NewPlan` over its result.
unfoldable pub draft_step : StepDraft → PlanStep
draft_step draft = record {
  step_id = draft.step_id;
  title = draft.title;
  objective = draft.objective;
  status = pending;
  success_conditions = draft.success_conditions;
  capability_hints = draft.capability_hints;
  attempt = 0;
  max_attempts = if draft.max_attempts == 0 then 3 else draft.max_attempts;
  blocked_reason = "";
  evidence = [];
}

-- The first step of a new plan is the active one.
unfoldable pub start_first : PlanState → PlanState
start_first state = elim state.steps [
  | [] ↦ state
  | first ∷ rest ↦ record state {
    steps = record first { status = step_active } ∷ rest;
    current_step_id = first.step_id;
    phase = if state.phase =ₛ "" then first.title else state.phase;
  }
]

-- The text of `SchemaVersion`.
abbrev pub schema_version : String
schema_version = "rin.task-plan/v1"

module _ (codec : Codec) where
  -- The state that `NewPlan` builds before its check.
  unfoldable pub drafted : Draft → ℕ → PlanState
  unfolding draft_step start_first trim_space digest_text
  drafted draft now =
      let goal = trim_space draft.goal in
      start_first (record {
        schema_version = schema_version;
        plan_id = draft.plan_id;
        task_id = draft.task_id;
        session_id = draft.session_id;
        host_id = draft.host_id;
        world_id = draft.world_id;
        actor_id = draft.actor_id;
        controller_id = draft.controller_id;
        controller_source = draft.controller_source;
        goal = goal;
        goal_digest = digest_text codec goal;
        planning_mode = draft.planning_mode;
        status = active;
        phase = trim_space draft.phase;
        current_step_id = "";
        steps = map draft_step draft.steps;
        success_conditions = draft.success_conditions;
        evidence = [];
        revision = 1;
        replan_count = 0;
        max_replans = if draft.max_replans == 0 then 3 else draft.max_replans;
        consecutive_failures = 0;
        last_failure_family = "";
        last_operation_id = "";
        last_outcome_code = "";
        based_on_epoch = draft.based_on_epoch;
        based_on_observation_sequence = draft.based_on_observation_sequence;
        created_at = now;
        updated_at = now;
      })

  unfoldable pub new_plan : Draft → ℕ → Result PlanState
  unfolding drafted validate_plan
  new_plan draft now = do validate_plan codec (drafted draft now); ok (drafted draft now)

abbrev pub stamp : ℕ → PlanState → PlanState
stamp now state = record state { revision = state.revision + 1; updated_at = now }
