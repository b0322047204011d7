-- ===== src/Plan/Failures.antt =====
-- taskstate/plan.go: what failures do to a plan, and when it may be revised.
pub mod Limits
use rin.Common.{
  ℕ, ◌+◌, ◌%◌, String, Bool, true, false, not, ◌&&◌, List, [], ◌∷◌, ◌++◌, none, some, leb, ◌==◌,
  ◌=ₛ◌, if◌then◌else◌,
}
use rin.Host.{CapabilityRef, capability_eq}
use rin.Plan.{
  conflict, Result, ok, err, ◌>>◌, require, active, blocked, step_blocked, operation_outcome,
  PlanCondition, PlanStep, PlanState, ReplanPolicy, ReplanInput, goal_changed, manual_authorized,
  failure_threshold_reached, required_capability_missing, epoch_invalidated, observation_fact,
}
use rin.Plan.Codec.{Codec, plan_status_eq, kind_eq}
use rin.Plan.Checks.{require_text, validate_text}
use rin.Plan.Validation.{validate_plan}
use rin.Plan.Steps.{modify_at, current_step, stamp}

-- The failures in a row, a uint32, and the family that they belong to.
abbrev pub count_failure : String → PlanState → PlanState
count_failure family state =
    if state.last_failure_family =ₛ family
    then record state { consecutive_failures = (state.consecutive_failures + 1) % 4294967296 }
    else record state { last_failure_family = family; consecutive_failures = 1 }

-- The last part of `ApplyFailure`, for the step whose attempt was counted.
abbrev pub block_exhausted : ℕ → PlanStep → String → PlanState → PlanState
block_exhausted index step code state =
    if leb step.max_attempts (step.attempt + 1)
    then record state {
      steps =
          modify_at index
            (λ (s : PlanStep). record s {
              attempt = s.attempt + 1;
              status = step_blocked;
              blocked_reason = code;
            })
            state.steps;
      status = blocked;
    }
    else record state {
      steps = modify_at index (λ (s : PlanStep). record s { attempt = s.attempt + 1 }) state.steps;
    }

-- The change that `ApplyFailure` makes to the step at `index`.
unfoldable pub fail_step : String → String → String → ℕ → PlanStep → PlanState → PlanState
unfolding modify_at
fail_step operation_id family code index step state = block_exhausted index step code (
    count_failure family
      (record state { last_operation_id = operation_id; last_outcome_code = code }))

unfoldable pub apply_failure : Codec → PlanState → String → String → String → ℕ → Result PlanState
unfolding validate_plan validate_text current_step fail_step
apply_failure codec state operation_id family code now = do
  validate_plan codec state
  require_text operation_id 256 true
  require_text family 128 true
  require_text code 128 false
  elim (current_step state) [
    | none ↦ err conflict
    | some (index, step) ↦ do
      require (plan_status_eq state.status active) conflict
      let next = stamp now (fail_step operation_id family code index step state)
      validate_plan codec next
      ok next
  ]

abbrev or_three : ℕ → ℕ
or_three n = if n == 0 then 3 else n

unfoldable pub should_replan : ReplanPolicy → ReplanInput → Bool
should_replan policy input =
    not (leb (or_three policy.max_replans) input.replan_count) && (elim input.reason [
      | goal_changed ↦ input.player_authorized
      | manual_authorized ↦ input.player_authorized
      | failure_threshold_reached ↦
          input.has_authoritative_proof
          && leb (or_three policy.failure_threshold) input.consecutive_failures
      | required_capability_missing ↦ input.has_authoritative_proof
      | epoch_invalidated ↦ input.has_authoritative_proof
    ])

abbrev proved_by : CapabilityRef → PlanCondition → Bool
proved_by ref condition = elim condition.capability [
  | none ↦ false
  | some required ↦ kind_eq condition.kind operation_outcome && capability_eq required ref
]

abbrev pub proved_ids : CapabilityRef → List PlanCondition → List String
proved_ids ref [] = []
proved_ids ref (c ∷ cs) =
    let rest = proved_ids ref cs in if proved_by ref c then c.condition_id ∷ rest else rest

unfoldable pub operation_condition_ids : PlanState → CapabilityRef → List String
unfolding current_step
operation_condition_ids state ref = elim (current_step state) [
  | none ↦ []
  | some (index, step) ↦
      proved_ids ref step.success_conditions ++ proved_ids ref state.success_conditions
]

-- `ObservationConditionMatches`, for the identifier and the JSON value of a fact.
unfoldable pub observation_condition_matches : Codec → PlanCondition → String → String → Bool
observation_condition_matches codec condition fact_id value =
    kind_eq condition.kind observation_fact
    && ((condition.fact_id =ₛ fact_id) && (elim (codec.compact condition.fact_value_json) [
      | none ↦ false
      | some expected ↦ elim (codec.compact value) [
        | none ↦ false
        | some actual ↦ expected =ₛ actual
      ]
    ]))
