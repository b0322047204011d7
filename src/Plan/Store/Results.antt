-- ===== src/Plan/Store/Results.antt =====
-- taskstate/store.go: `ApplyOperationResult`, and the pages of `Events`.
use rin.Common.{
  ℕ, suc, ◌⋯◌, String, Bool, true, false, not, ◌&&◌, List, [], ◌∷◌, none, some, ltb, leb, ◌==◌,
  ◌=ₛ◌, if◌then◌else◌, length, take,
}
use rin.Host.{RunStatus, ActionOutcome, run_status_eq}
use rin.Host.Checks.{validate_action_outcome}
use rin.Plan.{
  invalid, not_found, conflict, capacity, Result, ok, err, ◌>>=◌, ◌>>◌, require, operation_outcome,
  PlanEvidence, PlanState,
}
use rin.Plan.Codec.{Codec}
use rin.Plan.Progress.{apply_evidence}
use rin.Plan.Failures.{apply_failure}
use rin.Plan.Store.{
  PlanEvent, OperationLink, OperationRow, Store, ready, replace_plan, load_plan, find_operation,
  insert_event,
}

pub record OperationResult : Type 0 where
  pub operation_id : String
  pub execution_confirmed : Bool
  pub outcome : ActionOutcome

-- Go's text of an `ActionRunStatus`.
abbrev pub run_status_name : RunStatus → String
run_status_name RunStatus.queued = "queued"
run_status_name RunStatus.running = "running"
run_status_name RunStatus.succeeded = "succeeded"
run_status_name RunStatus.failed = "failed"
run_status_name RunStatus.cancelled = "cancelled"
run_status_name RunStatus.interrupted = "interrupted"
run_status_name RunStatus.stale = "stale"
run_status_name RunStatus.outcome_unknown = "outcome-unknown"

-- Evidence that the outcome of an operation gives of a condition.
abbrev pub outcome_evidence : ActionOutcome → String → String → ℕ → String → PlanEvidence
outcome_evidence outcome digest evidence_id now condition_id = record {
  evidence_id = evidence_id;
  condition_id = condition_id;
  kind = operation_outcome;
  operation_id = outcome.operation_id;
  epoch = outcome.epoch;
  observation_sequence = outcome.world_seq;
  digest = digest;
  recorded_at = now;
}

-- `UPDATE task_plan_operations SET terminal = 1, outcome_digest = ?`
unfoldable pub finish_operation : String → String → List OperationRow → List OperationRow
finish_operation id digest [] = []
finish_operation id digest (row ∷ rows) =
    (if row.link.operation_id =ₛ id
      then record row { terminal = true; outcome_digest = digest }
      else row)
    ∷ finish_operation id digest rows

module _ (codec : Codec) where
  -- The loop over the linked conditions of a success.
  unfoldable pub apply_conditions :
      ActionOutcome → String → ℕ → List String → PlanState → Result PlanState
  unfolding apply_evidence
  apply_conditions outcome digest now [] state = ok state
  apply_conditions outcome digest now (id ∷ ids) state = do
    applied ←
        apply_evidence codec state
          (outcome_evidence outcome digest (outcome.operation_id ⋯ "." ⋯ id) now id) now
    apply_conditions outcome digest now ids applied.0

  -- What an outcome does to the plan that its link still fits, and whether it changed it.
  unfoldable pub apply_outcome :
      ActionOutcome → String → ℕ → List String → PlanState → Result (PlanState × Bool)
  unfolding apply_conditions apply_failure
  apply_outcome outcome digest now ids state =
      if run_status_eq outcome.status RunStatus.succeeded
      then (do
        next ← apply_conditions outcome digest now ids state
        ok (next, not (length ids == 0)))
      else (do
        let family = run_status_name outcome.status
        next ←
            apply_failure codec state outcome.operation_id family
              (if outcome.code =ₛ "" then family else outcome.code) now
        ok (next, true))

  abbrev pub is_applicable : PlanState → OperationLink → Bool
  is_applicable state link =
      (state.revision == link.plan_revision) && (state.current_step_id =ₛ link.step_id)

  -- `ApplyOperationResult` for an operation that is not terminal yet.
  unfoldable pub settle_result :
      OperationResult
      → String
      → ℕ
      → OperationLink
      → PlanState
      → Store
      → Result (Store × (PlanState × Bool))
  unfolding apply_outcome replace_plan finish_operation insert_event
  settle_result result digest now link state store = do
    let applicable = is_applicable state link
    applied ←
        (if applicable
          then apply_outcome result.outcome digest now link.condition_ids state
          else ok (state, false))
    plans ←
        (if applied.1
          then replace_plan link.plan_revision applied.0 store.plans
          else ok store.plans)
    after ←
        insert_event applied.0 (if applicable then "operation.outcome" else "operation.stale")
          result.outcome.summary
          (some (outcome_evidence result.outcome digest result.operation_id now "operation.result"))
          result.operation_id now
          (record store {
            plans = plans;
            operations = finish_operation result.operation_id digest store.operations;
          })
    ok (after, applied)

  -- An operation at its end takes the same outcome again, and no other one.
  unfoldable pub take_result :
      OperationResult
      → String
      → ℕ
      → OperationRow
      → PlanState
      → Store
      → Result (Store × (PlanState × Bool))
  unfolding settle_result
  take_result result digest now row state store =
      if row.terminal
      then require (row.outcome_digest =ₛ digest) conflict >> ok (store, (state, false))
      else settle_result result digest now row.link state store

  unfoldable pub apply_operation_result :
      OperationResult → ℕ → Store → Result (Store × (PlanState × Bool))
  unfolding validate_action_outcome find_operation load_plan take_result
  apply_operation_result result now store = do
    require result.execution_confirmed invalid
    require (validate_action_outcome result.outcome) invalid
    require (result.operation_id =ₛ result.outcome.operation_id) invalid
    ready store
    let digest = codec.outcome_digest result.outcome
    elim (find_operation result.operation_id store.operations) [
      | none ↦ err not_found
      | some row ↦ do
        state ← load_plan codec row.link.plan_id store.plans
        take_result result digest now row state store
    ]

pub record EventPage : Type 0 where
  pub events : List PlanEvent
  pub next_cursor : ℕ
  pub more : Bool

-- `WHERE plan_id = ? AND sequence > ? ORDER BY sequence`; the rows stand in the order of `sequence`.
unfoldable pub events_after : String → ℕ → List PlanEvent → List PlanEvent
events_after id after [] = []
events_after id after (event ∷ events) =
    let rest = events_after id after events in
    if (event.plan_id =ₛ id) && ltb after event.sequence then event ∷ rest else rest

abbrev pub last_cursor : ℕ → List PlanEvent → ℕ
last_cursor after [] = after
last_cursor after (event ∷ events) = last_cursor event.sequence events

unfoldable pub event_page : ℕ → ℕ → List PlanEvent → EventPage
event_page limit after rows =
    let kept = take limit rows in
    record { events = kept; next_cursor = last_cursor after kept; more = ltb limit (length rows) }

unfoldable pub events_of : Codec → String → ℕ → ℕ → Store → Result EventPage
unfolding load_plan events_after event_page
events_of codec id after limit store = do
  let bound = if limit == 0 then 64 else limit
  require (leb bound 256) capacity
  ready store
  _ ← load_plan codec id store.plans
  ok (event_page bound after (take (suc bound) (events_after id after store.events)))
