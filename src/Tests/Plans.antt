-- ===== src/Tests/Plans.antt =====
-- A task plan of two steps on the way from its draft to its end, and the runs of the plan theorems.
use rin.Common.{
  ℕ, join_nul, decimal, ◌≡◌, refl, String, Bool, true, false, List, [], ◌∷◌, Option, none, some,
}
use rin.Host.{Epoch, CapabilityRef, ActionOutcome, RunStatus, ClockMode}
use rin.Plan.{
  Result, ok, err, conflict, external, disabled, operation_outcome, PlanCondition, PlanEvidence,
  StepDraft, PlanState, Draft, active, completed, pending, step_active, step_completed, PlanStep,
}
use rin.Plan.{cancelled, skipped}
use rin.Plan.Validation.{terminal_plan_status}
use rin.Plan.Progress.Backed.{IsBacked}
use rin.Plan.Progress.Advances.{Advances}
use rin.Plan.Store.{Store, PlanEvent, OperationLink, find_plan}
use rin.Plan.Store.Plans.{StatusInput, create, set_status, apply_trusted_evidence}
use rin.Plan.Store.Links.{link_operation}
use rin.Plan.Store.Results.{OperationResult, apply_operation_result}
use rin.Plan.Store.Evolution.Reached.{
  created, changed_status, proved, Reach, here, next, Reach-IsBacked, Reach-Advances, Reach-frozen,
}
use rin.Plan.Store.Evolution.Replay.{apply_operation_result-replay}
use rin.Plan.Codec.{Codec}
use rin.Plan.Steps.{new_plan}
use rin.Plan.Progress.{apply_evidence}

abbrev pub hash : String
hash = "0123456789abcdef0123456789abcdef0123456789abcdef0123456789abcdef"

abbrev pub plain_codec : Codec
plain_codec = record {
  sha256 = λ _. hash;
  is_scalar_json = λ _. true;
  compact = λ s. some s;
  outcome_digest = λ _. hash;
}

abbrev pub plan_epoch : Epoch
plan_epoch = record { session_id = "s1"; world_id = "w1"; host = 1; world = 1; timeline = 1 }

abbrev pub build : CapabilityRef
build = record { id = "farm.build"; version = "1.0.0" }

abbrev pub built : String → PlanCondition
built id = record {
  condition_id = id;
  kind = operation_outcome;
  summary = "the work is done";
  capability = some build;
  fact_id = "";
  fact_value_json = "";
}

abbrev pub step_draft : String → String → StepDraft
step_draft id condition = record {
  step_id = id;
  title = id;
  objective = "build it";
  success_conditions = built condition ∷ [];
  capability_hints = build ∷ [];
  max_attempts = 2;
}

abbrev pub farm_draft : Draft
farm_draft = record {
  plan_id = "p1";
  task_id = "t1";
  session_id = "s1";
  host_id = "h1";
  world_id = "w1";
  actor_id = "a1";
  controller_id = "c1";
  controller_source = external;
  goal = " Build a farm ";
  planning_mode = disabled;
  phase = "";
  steps = step_draft "s1" "c1" ∷ step_draft "s2" "c2" ∷ [];
  success_conditions = built "p" ∷ [];
  max_replans = 0;
  based_on_epoch = plan_epoch;
  based_on_observation_sequence = 5;
}

abbrev pub evidence_of : String → String → PlanEvidence
evidence_of id condition = record {
  evidence_id = id;
  condition_id = condition;
  kind = operation_outcome;
  operation_id = "o1";
  epoch = plan_epoch;
  observation_sequence = 6;
  digest = hash;
  recorded_at = 20;
}

abbrev pub farm_step : StepDraft → PlanStep
farm_step draft = record {
  step_id = draft.step_id;
  title = draft.title;
  objective = draft.objective;
  status = pending;
  success_conditions = draft.success_conditions;
  capability_hints = draft.capability_hints;
  attempt = 0;
  max_attempts = 2;
  blocked_reason = "";
  evidence = [];
}

abbrev pub farm_plan : PlanState
farm_plan = record {
  schema_version = "rin.task-plan/v1";
  plan_id = "p1";
  task_id = "t1";
  session_id = "s1";
  host_id = "h1";
  world_id = "w1";
  actor_id = "a1";
  controller_id = "c1";
  controller_source = external;
  goal = "Build a farm";
  goal_digest = hash;
  planning_mode = disabled;
  status = active;
  phase = "s1";
  current_step_id = "s1";
  steps =
      record (farm_step (step_draft "s1" "c1")) { status = step_active }
      ∷ farm_step (step_draft "s2" "c2")
      ∷ [];
  success_conditions = built "p" ∷ [];
  evidence = [];
  revision = 1;
  replan_count = 0;
  max_replans = 3;
  consecutive_failures = 0;
  last_failure_family = "";
  last_operation_id = "";
  last_outcome_code = "";
  based_on_epoch = plan_epoch;
  based_on_observation_sequence = 5;
  created_at = 10;
  updated_at = 10;
}

new_plan_test : new_plan plain_codec farm_draft 10 ≡ ok farm_plan
unfolding new_plan rin.Common.Maps.delete rin.Host.capability_eq rin.Plan.Codec.step_status_eq
    rin.Plan.Codec.plan_status_eq
new_plan_test = refl

-- The plan after the evidence of its first step.
abbrev pub second_plan : PlanState
second_plan = record farm_plan {
  steps =
      record (farm_step (step_draft "s1" "c1")) {
        status = step_completed;
        evidence = evidence_of "e1" "c1" ∷ [];
      }
      ∷ record (farm_step (step_draft "s2" "c2")) { status = step_active }
      ∷ [];
  current_step_id = "s2";
  phase = "s2";
  revision = 2;
  updated_at = 20;
}

apply_evidence_test :
    apply_evidence plain_codec farm_plan (evidence_of "e1" "c1") 20 ≡ ok (second_plan, true)
unfolding apply_evidence rin.Common.Maps.delete rin.Host.capability_eq rin.Plan.Codec.step_status_eq
    rin.Plan.Codec.plan_status_eq rin.Host.epoch_eq rin.Plan.Codec.kind_eq
apply_evidence_test = refl

abbrev pub empty_store : Store
empty_store = record {
  plans = [];
  events = [];
  operations = [];
  last_sequence = 0;
  max_plans = 10;
  max_events = 10;
  is_closed = false;
}

abbrev pub created_event : PlanEvent
created_event = record {
  sequence = 1;
  plan_id = "p1";
  revision = 1;
  kind = "plan.created";
  summary = "Plan created.";
  evidence = none;
  operation_id = "";
  occurred_at = 10;
}

abbrev pub created_store : Store
created_store = record empty_store {
  plans = farm_plan ∷ [];
  events = created_event ∷ [];
  last_sequence = 1;
}

pub create_test : create plain_codec farm_draft 10 empty_store ≡ ok (created_store, farm_plan)
unfolding create rin.Common.Maps.delete rin.Host.capability_eq rin.Plan.Codec.step_status_eq
    rin.Plan.Codec.plan_status_eq
create_test = refl

abbrev proof_event : PlanEvent
proof_event = record {
  sequence = 2;
  plan_id = "p1";
  revision = 2;
  kind = "plan.evidence";
  summary = "seen";
  evidence = some (evidence_of "e1" "c1");
  operation_id = "o1";
  occurred_at = 20;
}

abbrev second_store : Store
second_store = record empty_store {
  plans = second_plan ∷ [];
  events = created_event ∷ proof_event ∷ [];
  last_sequence = 2;
}

evidence_test :
    apply_trusted_evidence plain_codec "p1" 1 (evidence_of "e1" "c1") "seen" 20 created_store
    ≡ ok (second_store, second_plan)
unfolding apply_trusted_evidence rin.Common.Maps.delete rin.Host.capability_eq
    rin.Plan.Codec.step_status_eq rin.Plan.Codec.plan_status_eq rin.Host.epoch_eq
    rin.Plan.Codec.kind_eq
evidence_test = refl

abbrev cancelled_plan : PlanState
cancelled_plan = record second_plan {
  status = cancelled;
  steps =
      record (farm_step (step_draft "s1" "c1")) {
        status = step_completed;
        evidence = evidence_of "e1" "c1" ∷ [];
      }
      ∷ record (farm_step (step_draft "s2" "c2")) { status = skipped }
      ∷ [];
  current_step_id = "";
  revision = 3;
  updated_at = 30;
}

abbrev cancelled_event : PlanEvent
cancelled_event = record {
  sequence = 3;
  plan_id = "p1";
  revision = 3;
  kind = "plan.cancelled";
  summary = "stop";
  evidence = none;
  operation_id = "";
  occurred_at = 30;
}

abbrev cancelled_store : Store
cancelled_store = record second_store {
  plans = cancelled_plan ∷ [];
  events = created_event ∷ proof_event ∷ cancelled_event ∷ [];
  last_sequence = 3;
}

abbrev stop : StatusInput
stop = record { plan_id = "p1"; expected_revision = 2; status = cancelled; summary = "stop" }

cancel_test : set_status plain_codec stop 30 second_store ≡ ok (cancelled_store, cancelled_plan)
unfolding set_status rin.Plan.Codec.plan_status_eq rin.Common.Maps.delete rin.Host.capability_eq
    rin.Plan.Codec.step_status_eq
cancel_test = refl

abbrev other_draft : Draft
other_draft = record farm_draft { plan_id = "p2"; task_id = "t2" }

abbrev other_plan : PlanState
other_plan = record farm_plan { plan_id = "p2"; task_id = "t2"; created_at = 40; updated_at = 40 }

abbrev other_store : Store
other_store = record cancelled_store {
  plans = cancelled_plan ∷ other_plan ∷ [];
  events =
      created_event
      ∷ proof_event
      ∷ cancelled_event
      ∷ record created_event { sequence = 4; plan_id = "p2"; occurred_at = 40 }
      ∷ [];
  last_sequence = 4;
}

other_test : create plain_codec other_draft 40 cancelled_store ≡ ok (other_store, other_plan)
unfolding create rin.Common.Maps.delete rin.Host.capability_eq rin.Plan.Codec.step_status_eq
    rin.Plan.Codec.plan_status_eq
other_test = refl

cancelled-Reach : Reach plain_codec empty_store cancelled_store
cancelled-Reach =
    next
      (next (next here (created farm_draft 10 farm_plan create_test))
        (proved "p1" 1 (evidence_of "e1" "c1") "seen" 20 second_plan evidence_test))
      (changed_status stop 30 cancelled_plan cancel_test)

find_cancelled : find_plan "p1" cancelled_store.plans ≡ some cancelled_plan
unfolding find_plan
find_cancelled = refl

Reach-IsBacked_example : IsBacked cancelled_plan
Reach-IsBacked_example =
    Reach-IsBacked plain_codec empty_store cancelled_store "p1" cancelled_plan refl cancelled-Reach
      find_cancelled

later-Reach : Reach plain_codec cancelled_store other_store
later-Reach = next here (created other_draft 40 other_plan other_test)

Reach-frozen_example : find_plan "p1" other_store.plans ≡ some cancelled_plan
unfolding terminal_plan_status rin.Plan.Codec.plan_status_eq
Reach-frozen_example =
    Reach-frozen plain_codec cancelled_store other_store "p1" cancelled_plan later-Reach
      find_cancelled refl

find_created : find_plan "p1" created_store.plans ≡ some farm_plan
unfolding find_plan
find_created = refl

Reach-Advances_example :
    (then : PlanState) × (find_plan "p1" second_store.plans ≡ some then) × Advances farm_plan then
Reach-Advances_example =
    Reach-Advances plain_codec created_store second_store "p1" farm_plan
      (next here (proved "p1" 1 (evidence_of "e1" "c1") "seen" 20 second_plan evidence_test))
      find_created

abbrev pub success : ActionOutcome
success = record {
  operation_id = "o1";
  status = RunStatus.succeeded;
  code = "";
  summary = "built";
  epoch = plan_epoch;
  evidence = [];
  world_seq = 6;
  occurred_at = record { clock = ClockMode.realtime; value = 20 };
}

abbrev pub built_result : OperationResult
built_result = record { operation_id = "o1"; execution_confirmed = true; outcome = success }

abbrev pub first_link : OperationLink
first_link = record {
  operation_id = "o1";
  plan_id = "p1";
  plan_revision = 1;
  step_id = "s1";
  condition_ids = "c1" ∷ [];
}

abbrev pub linked_store : Store
linked_store = record created_store {
  operations = record { link = first_link; terminal = false; outcome_digest = "" } ∷ [];
}

link_test : link_operation plain_codec first_link created_store ≡ ok linked_store
unfolding link_operation rin.Common.Maps.delete rin.Host.capability_eq rin.Plan.Codec.step_status_eq
    rin.Plan.Codec.plan_status_eq rin.Plan.Codec.kind_eq
link_test = refl

abbrev built_plan : PlanState
built_plan = record second_plan {
  steps =
      record (farm_step (step_draft "s1" "c1")) {
        status = step_completed;
        evidence = evidence_of "o1.c1" "c1" ∷ [];
      }
      ∷ record (farm_step (step_draft "s2" "c2")) { status = step_active }
      ∷ [];
}

abbrev built_store : Store
built_store = record created_store {
  plans = built_plan ∷ [];
  events =
      created_event
      ∷ record {
        sequence = 2;
        plan_id = "p1";
        revision = 2;
        kind = "operation.outcome";
        summary = "built";
        evidence = some (evidence_of "o1" "operation.result");
        operation_id = "o1";
        occurred_at = 20;
      }
      ∷ [];
  operations = record { link = first_link; terminal = true; outcome_digest = hash } ∷ [];
  last_sequence = 2;
}

result_test :
    apply_operation_result plain_codec built_result 20 linked_store
    ≡ ok (built_store, (built_plan, true))
unfolding apply_operation_result rin.Host.run_status_eq rin.Common.Maps.delete
    rin.Host.capability_eq rin.Plan.Codec.step_status_eq rin.Plan.Codec.plan_status_eq
    rin.Host.epoch_eq rin.Plan.Codec.kind_eq
result_test = refl

apply_operation_result-replay_example :
    apply_operation_result plain_codec built_result 99 built_store
    ≡ ok (built_store, (built_plan, false))
apply_operation_result-replay_example =
    apply_operation_result-replay plain_codec built_result 20 99 linked_store built_store built_plan
      true result_test
