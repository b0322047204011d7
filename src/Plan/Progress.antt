-- ===== src/Plan/Progress.antt =====
-- taskstate/plan.go: what evidence does to a plan.
pub mod Backed
pub mod Advances
use rin.Common.{
  ℕ, zero, suc, Bool, true, false, ◌&&◌, ◌||◌, List, [], ◌∷◌, ◌++◌, Option, none, some, ◌=ₛ◌,
  if◌then◌else◌,
}
use rin.Plan.{
  invalid, conflict, Result, ok, err, ◌>>=◌, ◌>>◌, require, active, blocked, completed, pending,
  step_active, step_completed, PlanEvidence, PlanStep, PlanState,
}
use rin.Plan.Codec.{Codec, plan_status_eq, step_status_eq}
use rin.Plan.Checks.{
  condition_in_list, conditions_satisfied, all_steps_terminal_success, find_evidence,
  evidence_in_steps, validate_evidence,
}
use rin.Plan.Validation.{validate_plan}
use rin.Plan.Steps.{modify_at, current_step, stamp}

-- Evidence of a condition of the plan itself.
unfoldable pub place_in_plan : PlanState → PlanEvidence → Result PlanState
unfolding condition_in_list
place_in_plan state evidence =
    if condition_in_list state.success_conditions evidence.condition_id evidence.kind
    then ok (record state { evidence = state.evidence ++ evidence ∷ [] })
    else err invalid

abbrev pub add_evidence : PlanEvidence → PlanStep → PlanStep
add_evidence evidence step = record step { evidence = step.evidence ++ evidence ∷ [] }

-- Where the evidence goes: to the current step first, else to the plan.
unfoldable pub place_evidence : PlanState → PlanEvidence → Result PlanState
unfolding condition_in_list place_in_plan current_step modify_at
place_evidence state evidence = elim (current_step state) [
  | none ↦ place_in_plan state evidence
  | some (index, step) ↦
      if condition_in_list step.success_conditions evidence.condition_id evidence.kind
      then ok (record state { steps = modify_at index (add_evidence evidence) state.steps })
      else place_in_plan state evidence
]

-- The loop for the next pending step, which it makes the active one: `skip` steps stand before it.
unfoldable pub activate_next : ℕ → List PlanStep → Option (PlanStep × List PlanStep)
activate_next skip [] = none
activate_next (suc skip) (step ∷ steps) = elim (activate_next skip steps) [
  | none ↦ none
  | some (next, rest) ↦ some (next, step ∷ rest)
]
activate_next zero (step ∷ steps) = elim (step_status_eq step.status pending) [
  | true ↦ some (step, record step { status = step_active } ∷ steps)
  | false ↦ elim (activate_next zero steps) [
    | none ↦ none
    | some (next, rest) ↦ some (next, step ∷ rest)
  ]
]

abbrev pub complete_step : PlanStep → PlanStep
complete_step step = record step { status = step_completed; blocked_reason = "" }

-- What the completion of the step at `index` does to the plan.
unfoldable pub leave_step : ℕ → PlanState → PlanState
unfolding modify_at activate_next
leave_step index state =
    let steps = modify_at index complete_step state.steps in
    let left : PlanState = record state {
      steps = steps;
      consecutive_failures = 0;
      last_failure_family = "";
      current_step_id = "";
    } in
    elim (activate_next (suc index) steps) [
      | none ↦ left
      | some (next, after) ↦ record left {
        steps = after;
        current_step_id = next.step_id;
        phase = next.title;
        status = active;
      }
    ]

-- `advanced`, with the plan.
unfoldable pub advance : PlanState → PlanState × Bool
unfolding current_step conditions_satisfied leave_step
advance state = elim (current_step state) [
  | none ↦ (state, false)
  | some (index, step) ↦
      if conditions_satisfied step.success_conditions step.evidence
      then (leave_step index state, true)
      else (state, false)
]

unfoldable pub complete_plan : PlanState → PlanState
unfolding all_steps_terminal_success conditions_satisfied
complete_plan state =
    if (state.current_step_id =ₛ "")
      && (all_steps_terminal_success state.steps
          && conditions_satisfied state.success_conditions state.evidence)
    then record state { status = completed }
    else state

-- `ApplyEvidence` behind its test for a duplicate.
unfoldable pub apply_new_evidence : Codec → PlanState → PlanEvidence → ℕ → Result (PlanState × Bool)
unfolding validate_plan place_evidence advance complete_plan
apply_new_evidence codec state evidence now = do
  placed ← place_evidence state evidence
  let moved = advance placed
  let next = stamp now (complete_plan moved.0)
  validate_plan codec next
  ok (next, moved.1)

unfoldable pub apply_evidence : Codec → PlanState → PlanEvidence → ℕ → Result (PlanState × Bool)
unfolding validate_plan validate_evidence find_evidence evidence_in_steps apply_new_evidence
apply_evidence codec state evidence now = do
  validate_plan codec state
  require (plan_status_eq state.status active || plan_status_eq state.status blocked) conflict
  validate_evidence codec evidence state
  (if (find_evidence state.evidence evidence.evidence_id
        || evidence_in_steps state.steps evidence.evidence_id)
      then ok (state, false)
      else apply_new_evidence codec state evidence now)
