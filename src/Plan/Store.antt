-- ===== src/Plan/Store.antt =====
-- taskstate/store.go: the tables of the plan store and the statements that read and write them. A table
-- is the list of its rows, in the order of insertion. A row of `task_plans` is the plan of its
-- `state_json`: the other columns repeat fields of it. The statements fail only where they are seen to
-- fail here; a failed operation leaves the store as it was, as the rolled back transaction does.
pub mod Plans
pub mod Links
pub mod Results
pub mod Rows
pub mod Evolution
use rin.Common.{
  ℕ, suc, ◌+◌, String, Bool, true, false, not, ◌&&◌, ◌||◌, List, [], ◌∷◌, ◌++◌, Option, none, some,
  ltb, ◌==◌, ◌=ₛ◌, if◌then◌else◌, any,
}
use rin.Plan.{
  not_found, conflict, capacity, closed, persist, Result, ok, err, ◌>>=◌, ◌>>◌, require, PlanStatus,
  planned, active, blocked, paused, completed, failed, cancelled, PlanEvidence, PlanState,
}
use rin.Plan.Codec.{Codec}
use rin.Plan.Validation.{validate_plan}

pub record PlanEvent : Type 0 where
  pub sequence : ℕ
  pub plan_id : String
  pub revision : ℕ
  pub kind : String
  pub summary : String
  pub evidence : Option PlanEvidence
  pub operation_id : String
  pub occurred_at : ℕ

pub record OperationLink : Type 0 where
  pub operation_id : String
  pub plan_id : String
  pub plan_revision : ℕ
  pub step_id : String
  pub condition_ids : List String

-- A row of `task_plan_operations`.
pub record OperationRow : Type 0 where
  pub link : OperationLink
  pub terminal : Bool
  pub outcome_digest : String

-- `last_sequence` is the last one that AUTOINCREMENT gave out.
pub record Store : Type 0 where
  pub plans : List PlanState
  pub events : List PlanEvent
  pub operations : List OperationRow
  pub last_sequence : ℕ
  pub max_plans : ℕ
  pub max_events : ℕ
  pub is_closed : Bool

abbrev pub ready : Store → Result (Unit {0})
ready store = require (not store.is_closed) closed

-- `status IN ('planned','active','blocked','paused')`
unfoldable pub is_open : PlanStatus → Bool
is_open planned = true
is_open active = true
is_open blocked = true
is_open paused = true
is_open completed = false
is_open failed = false
is_open cancelled = false

-- `SELECT COUNT(*) FROM task_plans WHERE status IN (...)`
unfoldable pub open_count : List PlanState → ℕ
unfolding is_open
open_count [] = 0
open_count (state ∷ plans) =
    if is_open state.status then suc (open_count plans) else open_count plans

unfoldable pub find_plan : String → List PlanState → Option PlanState
find_plan id [] = none
find_plan id (state ∷ plans) = if state.plan_id =ₛ id then some state else find_plan id plans

-- The primary key and the two unique indexes of `task_plans`.
abbrev pub clashes : PlanState → PlanState → Bool
clashes state other =
    (other.plan_id =ₛ state.plan_id)
    || ((other.task_id =ₛ state.task_id)
        || (is_open other.status
            && (is_open state.status
                && ((other.session_id =ₛ state.session_id) && (other.actor_id =ₛ state.actor_id)))))

-- `insertPlan`, with the error that `classifyStoreError` makes of a broken constraint.
unfoldable pub insert_plan : PlanState → List PlanState → Result (List PlanState)
unfolding is_open
insert_plan state plans =
    if any (clashes state) plans then err conflict else ok (plans ++ state ∷ [])

-- `replacePlan`: the row is found by the identifier and the expected revision.
unfoldable pub replace_plan : ℕ → PlanState → List PlanState → Result (List PlanState)
replace_plan expected state [] = err conflict
replace_plan expected state (row ∷ plans) = elim (row.plan_id =ₛ state.plan_id) [
  | true ↦ if row.revision == expected then ok (state ∷ plans) else err conflict
  | false ↦ replace_plan expected state plans >>= λ rest. ok (row ∷ rest)
]

-- `decodeStoredPlan`, whose decoder gives back the plan that was encoded.
unfoldable pub decode_stored_plan : Codec → PlanState → Result PlanState
unfolding validate_plan
decode_stored_plan codec state = elim (validate_plan codec state) [
  | err e ↦ err persist
  | ok _ ↦ ok state
]

unfoldable pub load_plan : Codec → String → List PlanState → Result PlanState
unfolding find_plan decode_stored_plan
load_plan codec id plans = elim (find_plan id plans) [
  | none ↦ err not_found
  | some state ↦ decode_stored_plan codec state
]

unfoldable pub event_count : String → List PlanEvent → ℕ
event_count id [] = 0
event_count id (event ∷ events) =
    if event.plan_id =ₛ id then suc (event_count id events) else event_count id events

-- `insertEvent`
unfoldable pub insert_event :
    PlanState → String → String → Option PlanEvidence → String → ℕ → Store → Result Store
unfolding event_count
insert_event state kind summary evidence operation_id now store =
    if ltb (event_count state.plan_id store.events) store.max_events
    then ok (record store {
      events =
          store.events
          ++ record {
            sequence = store.last_sequence + 1;
            plan_id = state.plan_id;
            revision = state.revision;
            kind = kind;
            summary = summary;
            evidence = evidence;
            operation_id = operation_id;
            occurred_at = now;
          }
            ∷ [];
      last_sequence = store.last_sequence + 1;
    })
    else err capacity

-- `SELECT COUNT(*) FROM task_plan_operations WHERE plan_id = ? AND terminal = 0`
unfoldable pub unfinished_count : String → List OperationRow → ℕ
unfinished_count id [] = 0
unfinished_count id (row ∷ rows) =
    if (row.link.plan_id =ₛ id) && not row.terminal
    then suc (unfinished_count id rows)
    else unfinished_count id rows

unfoldable pub find_operation : String → List OperationRow → Option OperationRow
find_operation id [] = none
find_operation id (row ∷ rows) =
    if row.link.operation_id =ₛ id then some row else find_operation id rows
