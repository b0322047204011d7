-- ===== src/Plan/Validation/Facts.antt =====
-- taskstate/plan.go: what `ValidatePlan` says of the steps of a plan.
use rin.Common.{ℕ, ◌≡◌, ◌≤◌, String, true, not, ◌||◌, List, [], ◌∷◌, arith, All, contains, ◌=ₛ◌}
use rin.Common.Maps.{Map}
use rin.Host.Checks.{validate_plan_step}
use rin.Plan.{
  invalid, Result, ok, err, require, >>=-eq-ok, >>-eq-ok, require-eq-ok, EvidenceKind, step_active,
  PlanStep, PlanState,
}
use rin.Plan.Codec.{Codec, step_status_eq}
use rin.Plan.Checks.{step_bounds, wrapped, validate_conditions, validate_step}
use rin.Plan.Validation.{activity_fits, validate_fields, validate_steps, validate_plan}

-- The attempts of a step are within its limit, and the limit is at most 32.
abbrev pub AttemptsFit : PlanStep → Type 0
AttemptsFit step = (step.attempt ≤ step.max_attempts) × (step.max_attempts ≤ 32)

wrapped-eq-ok {ℓ} : {A : Type ℓ} (r : Result A) {a : A} → wrapped r ≡ ok a → r ≡ ok a
wrapped-eq-ok (ok b) h = h
wrapped-eq-ok (err e) h = cc

step_bounds-AttemptsFit : (step : PlanStep) → step_bounds step ≡ true → AttemptsFit step
step_bounds-AttemptsFit step h = ground (arith, h)

validate_step-AttemptsFit :
    (codec : Codec) (step : PlanStep) (ids : Map EvidenceKind) {next : Map EvidenceKind}
    → validate_step codec step ids ≡ ok next
    → AttemptsFit step
unfolding validate_step
validate_step-AttemptsFit codec step ids e =
    let (bounds, _) = >>-eq-ok (require (step_bounds step) invalid) _ e in
    step_bounds-AttemptsFit step (require-eq-ok _ invalid bounds)

validate_steps-AttemptsFit :
    (codec : Codec) (state : PlanState) (steps : List PlanStep) (ids : Map EvidenceKind)
    (seen : List String) (count : ℕ) {total : ℕ}
    → validate_steps codec state steps ids seen count ≡ ok total
    → All AttemptsFit steps
unfolding validate_steps
validate_steps-AttemptsFit codec state [] ids seen count e = tt
validate_steps-AttemptsFit codec state (step ∷ steps) ids seen count e =
    let (_, e1) =
      >>-eq-ok
        (require
          (validate_plan_step (record {
            plan_id = state.plan_id;
            plan_revision = state.revision;
            step_id = step.step_id;
          }))
          invalid)
        _ e in
    let (next, valid, e2) = >>=-eq-ok (wrapped (validate_step codec step ids)) _ e1 in
    let (_, e3) = >>-eq-ok (require (not (contains ◌=ₛ◌ seen step.step_id)) invalid) _ e2 in
    let (_, e4) =
      >>-eq-ok
        (require
          (not (step_status_eq step.status step_active) || (state.current_step_id =ₛ step.step_id))
          invalid)
        _ e3 in
    (
      validate_step-AttemptsFit codec step ids (wrapped-eq-ok _ valid),
      validate_steps-AttemptsFit codec state steps next _ _ e4,
    )

-- The part of `ValidatePlan` behind its bounds.
pub validate_plan-eq :
    (codec : Codec) (state : PlanState)
    → validate_plan codec state ≡ ok tt
    → (ids : Map EvidenceKind) × (count : ℕ) × (validate_steps codec state state.steps ids [] 0
        ≡ ok count)
      × (activity_fits state count ≡ true)
unfolding validate_plan
validate_plan-eq codec state e =
    let (_, e1) = >>-eq-ok (validate_fields codec state) _ e in
    let (ids, _, e2) = >>=-eq-ok (validate_conditions codec state.success_conditions []) _ e1 in
    let (count, steps, e3) = >>=-eq-ok (validate_steps codec state state.steps ids [] 0) _ e2 in
    let (fits, _) = >>-eq-ok (require (activity_fits state count) invalid) _ e3 in
    (ids, count, steps, require-eq-ok _ invalid fits)

pub validate_plan-AttemptsFit :
    (codec : Codec) (state : PlanState)
    → validate_plan codec state ≡ ok tt
    → All AttemptsFit state.steps
validate_plan-AttemptsFit codec state e =
    let (ids, count, steps, _) = validate_plan-eq codec state e in
    validate_steps-AttemptsFit codec state state.steps ids [] 0 steps
