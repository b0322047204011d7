-- ===== src/Plan/Store/Plans.antt =====
-- taskstate/store.go: the operations of the store on plans: `Create`, `Get`, `GetForTask`, `Revise`,
-- `SetStatus` and `applyTrustedEvidence`. The caller's context is live; the wakeup of waiters is left out.
use rin.Common.{
  ℕ, ◌+◌, ◌⋯◌, String, Bool, true, not, ◌&&◌, ◌||◌, List, [], ◌∷◌, Option, none, some, map, ltb,
  leb, ◌==◌, ◌=ₛ◌, if◌then◌else◌,
}
use rin.Plan.{
  invalid, conflict, capacity, Result, ok, ◌>>=◌, ◌>>◌, require, PlanStatus, planned, active,
  blocked, paused, completed, failed, cancelled, pending, step_active, step_blocked, skipped,
  PlanEvidence, PlanStep, PlanState, Draft, ReplanReason, goal_changed, required_capability_missing,
  failure_threshold_reached, epoch_invalidated, manual_authorized,
}
use rin.Plan.Codec.{Codec, plan_status_eq, step_status_eq}
use rin.Plan.Checks.{require_text, validate_text}
use rin.Plan.Validation.{terminal_plan_status, validate_plan}
use rin.Plan.Steps.{new_plan}
use rin.Plan.Progress.{apply_evidence}
use rin.Plan.Store.{
  Store, ready, open_count, insert_plan, replace_plan, load_plan, decode_stored_plan, insert_event,
  unfinished_count,
}

pub record ReviseInput : Type 0 where
  pub plan_id : String
  pub expected_revision : ℕ
  pub reason : ReplanReason
  pub summary : String
  pub draft : Draft

pub record StatusInput : Type 0 where
  pub plan_id : String
  pub expected_revision : ℕ
  pub status : PlanStatus
  pub summary : String

abbrev reason_name : ReplanReason → String
reason_name goal_changed = "goal-changed"
reason_name required_capability_missing = "required-capability-missing"
reason_name failure_threshold_reached = "failure-threshold-reached"
reason_name epoch_invalidated = "epoch-invalidated"
reason_name manual_authorized = "manual-authorized"

abbrev status_name : PlanStatus → String
status_name planned = "planned"
status_name active = "active"
status_name blocked = "blocked"
status_name paused = "paused"
status_name completed = "completed"
status_name failed = "failed"
status_name cancelled = "cancelled"

-- The draft of a revision keeps the identity of the plan.
unfoldable pub rebase : PlanState → Draft → Draft
rebase current draft = record draft {
  plan_id = current.plan_id;
  task_id = current.task_id;
  session_id = current.session_id;
  host_id = current.host_id;
  world_id = current.world_id;
  actor_id = current.actor_id;
  controller_id = current.controller_id;
  controller_source = current.controller_source;
  planning_mode = current.planning_mode;
  max_replans = current.max_replans;
}

abbrev pub skip_open : PlanStep → PlanStep
skip_open step =
    if step_status_eq step.status step_active
      || (step_status_eq step.status pending || step_status_eq step.status step_blocked)
    then record step { status = skipped }
    else step

-- The fields that `SetStatus` writes.
unfoldable pub with_status : PlanStatus → ℕ → PlanState → PlanState
with_status status now state =
    if plan_status_eq status cancelled
    then record state {
      status = status;
      steps = map skip_open state.steps;
      current_step_id = "";
      revision = state.revision + 1;
      updated_at = now;
    }
    else record state { status = status; revision = state.revision + 1; updated_at = now }

-- The tests of `SetStatus` on the status that the plan has and the one that is asked for.
unfoldable pub status_change : PlanStatus → PlanStatus → Bool
status_change from active = plan_status_eq from paused
status_change from paused = plan_status_eq from active || plan_status_eq from blocked
status_change from _ = true

module _ (codec : Codec) where
  unfoldable pub create : Draft → ℕ → Store → Result (Store × PlanState)
  unfolding new_plan open_count insert_plan insert_event
  create draft now store = do
    state ← new_plan codec draft now
    ready store
    require (ltb (open_count store.plans) store.max_plans) capacity
    plans ← insert_plan state store.plans
    next ←
        insert_event state "plan.created" "Plan created." none "" now
          (record store { plans = plans })
    ok (next, state)

  unfoldable pub get : String → Store → Result PlanState
  unfolding validate_text load_plan
  get id store = do require_text id 256 true; ready store; load_plan codec id store.plans

  abbrev find_task : String → List PlanState → Option PlanState
  find_task id [] = none
  find_task id (state ∷ plans) = if state.task_id =ₛ id then some state else find_task id plans

  unfoldable pub get_for_task : String → Store → Result PlanState
  unfolding validate_text load_plan decode_stored_plan
  get_for_task id store = do
    require_text id 256 true
    ready store
    elim (find_task id store.plans) [
      | some state ↦ decode_stored_plan codec state
      | none ↦ load_plan codec id store.plans
    ]

  -- What `Revise` makes of the current plan.
  unfoldable pub revised : PlanState → Draft → ℕ → Result PlanState
  unfolding rebase new_plan validate_plan
  revised current draft now = do
    drafted ← new_plan codec (rebase current draft) now
    let next : PlanState = record drafted {
      created_at = current.created_at;
      revision = current.revision + 1;
      replan_count = current.replan_count + 1;
    }
    validate_plan codec next
    ok next

  -- `replacePlan`, `insertEvent` and the commit.
  unfoldable pub commit :
      ℕ → PlanState → String → String → Option PlanEvidence → String → ℕ → Store → Result Store
  unfolding replace_plan insert_event
  commit expected next kind summary evidence operation_id now store = do
    plans ← replace_plan expected next store.plans
    insert_event next kind summary evidence operation_id now (record store { plans = plans })

  unfoldable pub revise : ReviseInput → ℕ → Store → Result (Store × PlanState)
  unfolding validate_text load_plan terminal_plan_status unfinished_count revised commit
  revise input now store = do
    require_text input.summary 500 true
    ready store
    current ← load_plan codec input.plan_id store.plans
    require (current.revision == input.expected_revision) conflict
    require
        (not (terminal_plan_status current.status || leb current.max_replans current.replan_count))
        conflict
    require (unfinished_count current.plan_id store.operations == 0) conflict
    next ← revised current input.draft now
    after ←
        commit current.revision next ("plan.revised." ⋯ reason_name input.reason) input.summary none
          "" now store
    ok (after, next)

  unfoldable pub set_status : StatusInput → ℕ → Store → Result (Store × PlanState)
  unfolding validate_text load_plan terminal_plan_status unfinished_count validate_plan with_status
      status_change commit
  set_status input now store = do
    require
        (plan_status_eq input.status paused
          || (plan_status_eq input.status active || plan_status_eq input.status cancelled))
        invalid
    require_text input.summary 500 true
    ready store
    state ← load_plan codec input.plan_id store.plans
    require ((state.revision == input.expected_revision) && not (terminal_plan_status state.status))
        conflict
    require (status_change state.status input.status) conflict
    require
        (not (plan_status_eq input.status cancelled)
          || (unfinished_count state.plan_id store.operations == 0))
        conflict
    let next = with_status input.status now state
    validate_plan codec next
    after ←
        commit input.expected_revision next ("plan." ⋯ status_name input.status) input.summary none
          "" next.updated_at store
    ok (after, next)

  -- `applyTrustedEvidence` behind `ApplyEvidence`; a duplicate changes nothing.
  unfoldable pub store_evidence :
      PlanState → PlanEvidence → String → Store → PlanState × Bool → Result (Store × PlanState)
  unfolding commit
  store_evidence state evidence summary store (next, changed) =
      if not changed && (next.revision == state.revision) then ok (store, next) else do
        after ←
            commit state.revision next "plan.evidence" summary (some evidence) evidence.operation_id
              next.updated_at store
        ok (after, next)

  unfoldable pub apply_trusted_evidence :
      String → ℕ → PlanEvidence → String → ℕ → Store → Result (Store × PlanState)
  unfolding validate_text load_plan apply_evidence store_evidence
  apply_trusted_evidence id expected evidence summary now store = do
    require_text summary 500 true
    ready store
    state ← load_plan codec id store.plans
    require (state.revision == expected) conflict
    applied ← apply_evidence codec state evidence now
    store_evidence state evidence summary store applied
