-- ===== src/Plan/Coordinator/Authority.antt =====
-- taskstate/coordinator.go: the right by which a call of the coordinator changes the store.
use rin.Common.{ℕ, List, some, ◌⊎◌, ◌≡◌, String, true, ◌||◌}
use rin.Host.{Principal, PlanStepRef}
use rin.Plan.{ok, Draft, PlanState}
use rin.Plan.Codec.{Codec}
use rin.Plan.Steps.{new_plan}
use rin.Plan.Store.{Store, find_plan}
use rin.Plan.Store.Plans.{ReviseInput, StatusInput, rebase}
use rin.Plan.Store.Evolution.Reached.{Step}
use rin.Plan.Coordinator.{
  ControlClient, LeaseView, StepAction, OperationView, scope_execute, principal_has_scope,
  lease_fits, scope_admin, scope_control, create_plan, set_plan_status, revise_plan,
}
use rin.Plan.Coordinator.Transitions.{
  TransitionInput, OwnedPlanCancellationInput, owns_plan, request_transition, cancel_owned_plan,
  submit_step_action,
}
use rin.Plan.Validation.{terminal_plan_status}

-- The caller is known and has the scope, or is an administrator; and the actor is leased to the
-- controller of the plan, at the epoch and by the source of the plan, by the caller unless it is an
-- administrator.
pub record IsAuthorized (client : ControlClient) (state : PlanState) (scope : String) : Type 0 where
  pub principal : Principal
  pub lease : LeaseView
  pub known : client.info ≡ ok principal
  pub scoped :
      (principal_has_scope principal scope_admin || principal_has_scope principal scope) ≡ true
  pub leased : client.get_controller state.host_id state.world_id state.actor_id ≡ ok lease
  pub fits : lease_fits (principal_has_scope principal scope_admin) principal lease state ≡ true

-- A call of the coordinator on a plan that succeeds.
pub data Call (codec : Codec) (client : ControlClient) (store after : Store) : Type 0 where
  creates :
      (draft : Draft) (now : ℕ) (state : PlanState)
      → create_plan codec client draft now store ≡ ok (after, state)
      → Call codec client store after
  revises :
      (input : ReviseInput) (now : ℕ) (state : PlanState)
      → revise_plan codec client input now store ≡ ok (after, state)
      → Call codec client store after
  sets :
      (input : StatusInput) (now : ℕ) (state : PlanState)
      → set_plan_status codec client input now store ≡ ok (after, state)
      → Call codec client store after
  transitions :
      (input : TransitionInput) (now : ℕ) (state : PlanState)
      → request_transition codec client input now store ≡ ok (after, state)
      → Call codec client store after
  cancels :
      (input : OwnedPlanCancellationInput) (now : ℕ) (state : PlanState)
      → cancel_owned_plan codec input now store ≡ ok (after, state)
      → Call codec client store after
  submits :
      (action : StepAction) (condition_ids : List String) (operation : OperationView)
      → submit_step_action codec client action condition_ids store ≡ ok (operation, ok after)
      → Call codec client store after

-- The plan over which the caller must have authority: the stored plan that the call names, or the plan
-- that its draft makes, which in a revision keeps the identity of the stored one.
abbrev pub Judged :
    (codec : Codec) (client : ControlClient) (store after : Store)
    → Call codec client store after
    → PlanState
    → Type 0
Judged codec client store after (creates draft now state e) plan = new_plan codec draft 0 ≡ ok plan
Judged codec client store after (revises input now state e) plan =
    (current : PlanState) × (find_plan input.plan_id store.plans ≡ some current)
    × (new_plan codec (rebase current input.draft) 0 ≡ ok plan)
Judged codec client store after (sets input now state e) plan =
    find_plan input.plan_id store.plans ≡ some plan
Judged codec client store after (transitions input now state e) plan =
    find_plan input.plan_id store.plans ≡ some plan
Judged codec client store after (cancels input now state e) plan =
    find_plan input.plan_id store.plans ≡ some plan
Judged codec client store after (submits action ids operation e) plan =
    (step : PlanStepRef) × (action.plan_step ≡ some step)
    × (find_plan step.plan_id store.plans ≡ some plan)

-- The right by which it is made: the scope to execute for an action of a step, the scope to control for a
-- change of the plan; a runtime cancels a plan by being the internal controller that the plan names.
abbrev pub Entitled :
    (codec : Codec) (client : ControlClient) (store after : Store)
    → Call codec client store after
    → PlanState
    → Type 0
Entitled codec client store after (submits action ids operation e) plan =
    IsAuthorized client plan scope_execute
Entitled codec client store after (cancels input now state e) plan = owns_plan input plan ≡ true
Entitled codec client store after _ plan = IsAuthorized client plan scope_control

-- What such a call is: one operation of the store, but for the cancellation of a plan at its end, which
-- does nothing; and the right to it over the plan that it is about.
abbrev pub Authorized :
    (codec : Codec) (client : ControlClient) (store after : Store)
    → Call codec client store after
    → Type 0
Authorized codec client store after call =
    (plan : PlanState) × Judged codec client store after call plan
    × Entitled codec client store after call plan
    × (Step codec store after ⊎ ((terminal_plan_status plan.status ≡ true) × (after ≡ store)))
