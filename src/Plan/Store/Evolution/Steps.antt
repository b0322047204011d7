-- ===== src/Plan/Store/Evolution/Steps.antt =====
-- taskstate/store.go: each operation of the store is one change of the plans.
use rin.Common.{
  ℕ, ◌≡◌, refl, sym, ap, subst, ◌∙◌, false, List, [], ◌∷◌, ◌++◌, none, arith, inl, inr, Bool-cases,
  ltb, All, any, map, ◌≢◌,
}
use rin.Plan.{
  ok, capacity, require, ok-inj, err-not-ok, >>=-eq-ok, >>-eq-ok, PlanState, PlanStep, StepDraft,
  Draft, PlanStatus, active, cancelled, completed, step_completed, step_active, pending, skipped,
}
use rin.Plan.Codec.{Codec, plan_status_eq, step_status_eq, plan_status_eq_iff, step_status_eq_iff}
use rin.Plan.Validation.{validate_plan, terminal_plan_status}
use rin.Plan.Steps.{draft_step, start_first, drafted, new_plan}
use rin.Plan.Progress.Backed.{StepBacked, IsBacked}
use rin.Plan.Store.{Store, clashes, ready, open_count, insert_plan, insert_event}
use rin.Plan.Store.Plans.{skip_open, with_status, create}
use rin.Plan.Store.Rows.{insert_event-plans}
use rin.Plan.Store.Evolution.{Moves, Change, added}

drafted-id :
    (codec : Codec) (draft : Draft) (now : ℕ) → (drafted codec draft now).plan_id ≡ draft.plan_id
unfolding drafted start_first
drafted-id codec draft now = ground arith

drafted_steps : (drafts : List StepDraft) → All StepBacked (map draft_step drafts)
unfolding draft_step step_status_eq
drafted_steps [] = tt
drafted_steps (x ∷ xs) = (
  λ done. absurd (ground (arith, done, step_status_eq_iff pending step_completed)),
  drafted_steps xs,
)

start_first-IsBacked :
    (state : PlanState)
    → All StepBacked state.steps
    → state.status ≡ active
    → IsBacked (start_first state)
unfolding start_first step_status_eq plan_status_eq
start_first-IsBacked state h e = record {
  steps_backed = ground (arith, h, step_status_eq_iff step_active step_completed);
  plan_backed = ground (arith, e, plan_status_eq_iff active completed);
}

-- A new plan is backed, since no step of it is complete.
pub new_plan-eq :
    (codec : Codec) (draft : Draft) (now : ℕ) {state : PlanState}
    → new_plan codec draft now ≡ ok state
    → IsBacked state × (state.plan_id ≡ draft.plan_id)
unfolding new_plan drafted
new_plan-eq codec draft now e =
    let (_, same) = >>-eq-ok (validate_plan codec (drafted codec draft now)) _ e in
    rw (← ok-inj same)
      (start_first-IsBacked _ (drafted_steps draft.steps) refl, drafted-id codec draft now)

insert_plan-eq :
    (state : PlanState) (plans : List PlanState) {after : List PlanState}
    → insert_plan state plans ≡ ok after
    → after ≡ plans ++ state ∷ []
unfolding insert_plan
insert_plan-eq state plans e = elim (Bool-cases (any (clashes state) plans)) [
  | inl taken ↦ err-not-ok (rw (taken, insert_plan) at e)
  | inr free ↦ sym (ok-inj (rw (free, insert_plan) at e))
]

pub create-Change :
    (codec : Codec) (draft : Draft) (now : ℕ) (store : Store) {after : Store} {state : PlanState}
    → create codec draft now store ≡ ok (after, state)
    → Change store.plans after.plans
unfolding create
create-Change codec draft now store e =
    let (new, made, e1) = >>=-eq-ok (new_plan codec draft now) _ e in
    let (_, e2) = >>-eq-ok (ready store) _ e1 in
    let (_, e3) = >>-eq-ok (require (ltb (open_count store.plans) store.max_plans) capacity) _ e2 in
    let (plans, inserted, e4) = >>=-eq-ok (insert_plan new store.plans) _ e3 in
    let (next, stored, e5) =
      >>=-eq-ok
        (insert_event new "plan.created" "Plan created." none "" now
          (record store { plans = plans }))
        _ e4 in
    let (same, _, _) = insert_event-plans new _ _ _ _ now (record store { plans = plans }) stored in
    added new (new_plan-eq codec draft now made).0 (
      subst (λ (s : Store). s.plans ≡ store.plans ++ new ∷ []) (ap (λ p. p.0) (ok-inj e5))
        (same ∙ insert_plan-eq new store.plans inserted))

skip_open-StepsBacked :
    (steps : List PlanStep) → All StepBacked steps → All StepBacked (map skip_open steps)
unfolding step_status_eq
skip_open-StepsBacked [] h = tt
skip_open-StepsBacked (s ∷ steps) h = (
  ground (arith, h.0, step_status_eq_iff skipped step_completed),
  skip_open-StepsBacked steps h.1,
)

-- A status that is not the end by completion keeps a plan backed.
pub with_status-Moves :
    (status : PlanStatus) (now : ℕ) (state : PlanState)
    → status ≢ completed
    → terminal_plan_status state.status ≡ false
    → Moves state (with_status status now state)
unfolding with_status
with_status-Moves status now state other unfinished =
    elim (Bool-cases (plan_status_eq status cancelled)) [
      | inl stops ↦ record {
        advances = record {
          same_plan = ground (arith, stops);
          moved = inr (ground (arith, stops), unfinished);
        };
        keeps_backed = λ h. record {
          steps_backed = ground (arith, stops, skip_open-StepsBacked state.steps h.steps_backed);
          plan_backed = ground (arith, stops, other);
        };
      }
      | inr goes_on ↦ record {
        advances = record {
          same_plan = ground (arith, goes_on);
          moved = inr (ground (arith, goes_on), unfinished);
        };
        keeps_backed = λ h. record {
          steps_backed = ground (arith, goes_on, h.steps_backed);
          plan_backed = ground (arith, goes_on, other);
        };
      }
    ]
