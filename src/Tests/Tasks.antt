-- ===== src/Tests/Tasks.antt =====
-- Failures of a plan, an outcome that the store refuses, and a call under the authority of a controller.
use rin.Common.{
  ℕ, ◌+◌, ◌≡◌, refl, String, Bool, true, false, List, [], ◌∷◌, Option, none, some, length, decimal,
  join_nul,
}
use rin.Host.{Principal}
use rin.Control.Controllers.{DecisionSource}
use rin.Plan.{
  Result, ok, err, conflict, not_found, control, control_other, external, active, blocked,
  completed, step_active, step_blocked, step_completed, pending, PlanState,
}
use rin.Plan.Codec.{Codec}
use rin.Plan.Progress.{apply_evidence}
use rin.Plan.Failures.{apply_failure}
use rin.Plan.Failures.Limits.{Failure, apply_failures, remaining_attempts, apply_failures-remaining}
use rin.Plan.Store.{Store, OperationLink}
use rin.Plan.Store.Results.{settle_result}
use rin.Plan.Store.Evolution.Lost.{settle_result-conflict}
use rin.Plan.Coordinator.{ControlClient}
use rin.Tests.Plans.{
  hash, plain_codec, plan_epoch, build, farm_step, step_draft, evidence_of, farm_plan, second_plan,
  created_store, built_result,
}

abbrev miss : ℕ → Failure
miss now = record { operation_id = "o1"; family = "failed"; code = "farm.lost"; at = now }

-- The plan after both attempts of its first step.
abbrev stuck_plan : PlanState
stuck_plan = record farm_plan {
  steps =
      record (farm_step (step_draft "s1" "c1")) {
        status = step_blocked;
        attempt = 2;
        blocked_reason = "farm.lost";
      }
      ∷ farm_step (step_draft "s2" "c2")
      ∷ [];
  status = blocked;
  revision = 3;
  consecutive_failures = 2;
  last_failure_family = "failed";
  last_operation_id = "o1";
  last_outcome_code = "farm.lost";
  updated_at = 21;
}

failures_test : apply_failures plain_codec (miss 20 ∷ miss 21 ∷ []) farm_plan ≡ ok stuck_plan
unfolding apply_failures rin.Common.Maps.delete rin.Host.capability_eq rin.Plan.Codec.step_status_eq
    rin.Plan.Codec.plan_status_eq
failures_test = refl

apply_failures-remaining_example :
    length (miss 20 ∷ miss 21 ∷ []) + remaining_attempts stuck_plan ≡ remaining_attempts farm_plan
apply_failures-remaining_example =
    apply_failures-remaining plain_codec (miss 20 ∷ miss 21 ∷ []) farm_plan failures_test

third_failure_test :
    apply_failure plain_codec stuck_plan "o1" "failed" "farm.lost" 22 ≡ err conflict
unfolding apply_failure rin.Common.Maps.delete rin.Host.capability_eq rin.Plan.Codec.step_status_eq
    rin.Plan.Codec.plan_status_eq
third_failure_test = refl

-- The last step is under way, and the condition of the plan itself has its evidence already.
abbrev last_plan : PlanState
last_plan = record second_plan { evidence = evidence_of "o0.p" "p" ∷ []; revision = 3 }

abbrev done_plan : PlanState
done_plan = record last_plan {
  steps =
      record (farm_step (step_draft "s1" "c1")) {
        status = step_completed;
        evidence = evidence_of "e1" "c1" ∷ [];
      }
      ∷ record (farm_step (step_draft "s2" "c2")) {
        status = step_completed;
        evidence = evidence_of "o1.c2" "c2" ∷ [];
      }
      ∷ [];
  status = completed;
  current_step_id = "";
  revision = 4;
}

abbrev last_link : OperationLink
last_link = record {
  operation_id = "o1";
  plan_id = "p1";
  plan_revision = 3;
  step_id = "s2";
  condition_ids = "c2" ∷ "p" ∷ [];
}

done_test :
    apply_evidence plain_codec last_plan (evidence_of "o1.c2" "c2") 20 ≡ ok (done_plan, true)
unfolding apply_evidence rin.Common.Maps.delete rin.Host.capability_eq rin.Plan.Codec.step_status_eq
    rin.Plan.Codec.plan_status_eq rin.Host.epoch_eq rin.Plan.Codec.kind_eq
done_test = refl

abbrev last_store : Store
last_store = record created_store {
  plans = last_plan ∷ [];
  operations = record { link = last_link; terminal = false; outcome_digest = "" } ∷ [];
}

settle_result-conflict_example :
    settle_result plain_codec built_result hash 20 last_link last_plan last_store ≡ err conflict
unfolding rin.Plan.Codec.kind_eq
settle_result-conflict_example =
    settle_result-conflict plain_codec built_result hash 20 last_link "c2" "p" [] last_plan
      done_plan true last_store refl refl refl done_test refl

abbrev owner : Principal
owner = record { id = "owner"; granted_scopes = "actor.control" ∷ [] }

-- A control plane that leases the actor of the plan to its controller.
abbrev leasing_client : ControlClient
leasing_client = record {
  info = ok owner;
  get_actor = λ _ _ _. ok (record { epoch = plan_epoch; observation_seq = 5; online = true });
  get_controller = λ _ _ _. ok (record {
    controller_id = "c1";
    principal_id = "owner";
    source = DecisionSource.external;
    epoch = plan_epoch;
  });
  get_observation = λ _ _ _. err not_found;
  list_capabilities = λ _ _ _. ok (build ∷ []);
  get_operation = λ _. err not_found;
  submit_action = λ _. err (control control_other);
}
