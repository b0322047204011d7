-- ===== src/Plan/Progress/Backed.antt =====
-- taskstate/plan.go: what stands behind a completed step and behind a completed plan.
use rin.Common.{
  ℕ, sym, ap, subst, ◌||◌, zero, suc, ◌≡◌, refl, Bool, true, false, List, [], ◌∷◌, ◌++◌, some,
  arith, inl, inr, ◌⊎◌, ◌≢◌, Bool-cases, Option-cases, if◌then◌else◌, All,
}
use rin.Plan.{
  ok, conflict, require, >>=-eq-ok, require-eq-ok, ok-inj, PlanStatus, active, blocked, completed,
  step_completed, PlanCondition, PlanEvidence, PlanStep, PlanState,
}
use rin.Plan.Codec.{Codec, plan_status_eq, step_status_eq}
use rin.Plan.Validation.{validate_plan}
use rin.Plan.Checks.{
  validate_evidence, find_evidence, evidence_in_steps, condition_met, conditions_satisfied,
  all_steps_terminal_success,
}
use rin.Plan.Steps.{step_at, modify_at, current_step, stamp}
use rin.Plan.Progress.{
  place_in_plan, add_evidence, place_evidence, activate_next, complete_step, leave_step, advance,
  complete_plan, apply_new_evidence, apply_evidence,
}

-- A completed step has evidence of each of its conditions.
abbrev pub StepBacked : PlanStep → Type 0
StepBacked step =
    step.status ≡ step_completed → conditions_satisfied step.success_conditions step.evidence ≡ true

-- Every completed step is backed, and a completed plan has no step left and evidence of each of its
-- own conditions.
pub record IsBacked (state : PlanState) : Type 0 where
  pub steps_backed : All StepBacked state.steps
  pub plan_backed :
      state.status ≡ completed
      → (all_steps_terminal_success state.steps ≡ true)
        × (conditions_satisfied state.success_conditions state.evidence ≡ true)

condition_met-append :
    (condition : PlanCondition) (items : List PlanEvidence) (item : PlanEvidence)
    → condition_met items condition ≡ true
    → condition_met (items ++ item ∷ []) condition ≡ true
unfolding condition_met
condition_met-append condition [] item h = ground arith
condition_met-append condition (x ∷ items) item h =
    ground (arith, condition_met-append condition items item)

pub satisfied-append :
    (conditions : List PlanCondition) (items : List PlanEvidence) (item : PlanEvidence)
    → conditions_satisfied conditions items ≡ true
    → conditions_satisfied conditions (items ++ item ∷ []) ≡ true
unfolding conditions_satisfied
satisfied-append [] items item h = refl
satisfied-append (c ∷ conditions) items item h =
    ground (arith, condition_met-append c items item, satisfied-append conditions items item)

pub All-modify_at :
    (P : PlanStep → Type 0) (f : PlanStep → PlanStep) (index : ℕ) (steps : List PlanStep)
    {step : PlanStep}
    → step_at index steps ≡ some step
    → P (f step)
    → All P steps
    → All P (modify_at index f steps)
unfolding step_at modify_at
All-modify_at P f index [] e p h = tt
All-modify_at P f zero (s ∷ steps) e p h = ground (arith, e, p, h)
All-modify_at P f (suc index) (s ∷ steps) e p h = (h.0, All-modify_at P f index steps e p h.1)

pub All-step_at :
    (P : PlanStep → Type 0) (index : ℕ) (steps : List PlanStep) {step : PlanStep}
    → step_at index steps ≡ some step
    → All P steps
    → P step
unfolding step_at
All-step_at P index [] e h = ground arith
All-step_at P zero (s ∷ steps) e h = ground (arith, e, h)
All-step_at P (suc index) (s ∷ steps) e h = All-step_at P index steps e h.1

pub current_step-eq :
    (state : PlanState) {index : ℕ} {step : PlanStep}
    → current_step state ≡ some (index, step)
    → step_at index state.steps ≡ some step
unfolding current_step
current_step-eq state e = ground (arith, e)

-- The steps of a plan, as `IsBacked` reads them.
abbrev StepsBacked : PlanState → Type 0
StepsBacked state = All StepBacked state.steps

place-StepsBacked :
    (state : PlanState) (evidence : PlanEvidence) {placed : PlanState}
    → StepsBacked state
    → place_evidence state evidence ≡ ok placed
    → StepsBacked placed × (placed.status ≡ state.status)
unfolding place_evidence place_in_plan
place-StepsBacked state evidence h e = elim (Option-cases (current_step state)) [
  | inl none_left ↦ ground (arith, none_left, e, h)
  | inr ((index, step), found) ↦
      let at_index = current_step-eq state found in
      ground (
        arith,
        found,
        e,
        h,
        All-modify_at StepBacked (add_evidence evidence) index state.steps at_index
            (λ done.
              satisfied-append step.success_conditions step.evidence evidence
                (All-step_at StepBacked index state.steps at_index h done))
            h,
      )
]

activate_next-StepsBacked :
    (skip : ℕ) (steps : List PlanStep) {next : PlanStep} {after : List PlanStep}
    → All StepBacked steps
    → activate_next skip steps ≡ some (next, after)
    → All StepBacked after
unfolding activate_next step_status_eq
activate_next-StepsBacked skip [] h e = ground (arith, e)
activate_next-StepsBacked (suc skip) (step ∷ steps) h e =
    elim (Option-cases (activate_next skip steps)) [
      | inl nothing ↦ ground (arith, nothing, e)
      | inr ((next, rest), found) ↦
          ground (arith, found, e, h.0, activate_next-StepsBacked skip steps h.1 found)
    ]
activate_next-StepsBacked zero (step ∷ steps) h e = elim (Option-cases (activate_next zero steps)) [
  | inl nothing ↦ ground (arith, nothing, e, h)
  | inr ((next, rest), found) ↦
      ground (arith, found, e, h.0, h.1, activate_next-StepsBacked zero steps h.1 found)
]

leave_step-StepsBacked :
    (index : ℕ) (step : PlanStep) (state : PlanState)
    → StepsBacked state
    → step_at index state.steps ≡ some step
    → conditions_satisfied step.success_conditions step.evidence ≡ true
    → StepsBacked (leave_step index state)
unfolding leave_step
leave_step-StepsBacked index step state h at_index met =
    let left = All-modify_at StepBacked complete_step index state.steps at_index (λ _. met) h in
    elim (Option-cases (activate_next (suc index) (modify_at index complete_step state.steps))) [
      | inl nothing ↦ ground (arith, nothing, left)
      | inr ((next, after), found) ↦
          ground (arith, found, activate_next-StepsBacked (suc index) _ left found)
    ]

leave_step-status :
    (index : ℕ) (state : PlanState)
    → state.status ≢ completed
    → (leave_step index state).status ≢ completed
unfolding leave_step
leave_step-status index state h = ground (arith, h)

advance-StepsBacked : (state : PlanState) → StepsBacked state → StepsBacked (advance state).0
unfolding advance
advance-StepsBacked state h = elim (Option-cases (current_step state)) [
  | inl nothing ↦ ground (arith, nothing, h)
  | inr ((index, step), found) ↦
      ground
        (arith, found, h, leave_step-StepsBacked index step state h (current_step-eq state found))
]

advance-status :
    (state : PlanState) → state.status ≢ completed → (advance state).0.status ≢ completed
unfolding advance
advance-status state h = ground (arith, h, λ (i : ℕ). leave_step-status i state h)

complete_plan-IsBacked :
    (state : PlanState) (now : ℕ)
    → StepsBacked state
    → state.status ≢ completed
    → IsBacked (stamp now (complete_plan state))
unfolding complete_plan
complete_plan-IsBacked state now h unfinished = record {
  steps_backed = ground (arith, h);
  plan_backed = ground (arith, unfinished);
}

pub apply_new_evidence-eq :
    (codec : Codec) (state : PlanState) (evidence : PlanEvidence) (now : ℕ) {next : PlanState}
    {advanced : Bool}
    → apply_new_evidence codec state evidence now ≡ ok (next, advanced)
    → (placed : PlanState) × (place_evidence state evidence ≡ ok placed)
      × (next ≡ stamp now (complete_plan (advance placed).0))
      × (validate_plan codec next ≡ ok tt)
unfolding apply_new_evidence
apply_new_evidence-eq codec state evidence now e =
    let (placed, at_place, rest) = >>=-eq-ok (place_evidence state evidence) _ e in
    let (_, valid, same) =
      >>=-eq-ok (validate_plan codec (stamp now (complete_plan (advance placed).0))) _ rest in
    let eq = sym (ap (λ p. p.0) (ok-inj same)) in
    (placed, at_place, eq, subst (λ s. validate_plan codec s ≡ ok tt) (sym eq) valid)

pub open-status :
    (status : PlanStatus)
    → (plan_status_eq status active || plan_status_eq status blocked) ≡ true
    → status ≢ completed
unfolding plan_status_eq
open-status status h e = ground (arith, h, e)

split_new :
    (codec : Codec) (state : PlanState) (evidence : PlanEvidence) (now : ℕ) {next : PlanState}
    {advanced : Bool}
    → (if (find_evidence state.evidence evidence.evidence_id
          || evidence_in_steps state.steps evidence.evidence_id)
        then ok (state, false)
        else apply_new_evidence codec state evidence now)
      ≡ ok (next, advanced)
    → (next ≡ state) × (advanced ≡ false)
      ⊎ (apply_new_evidence codec state evidence now ≡ ok (next, advanced))
split_new codec state evidence now h =
    elim (Bool-cases (
      find_evidence state.evidence evidence.evidence_id
      || evidence_in_steps state.steps evidence.evidence_id)) [
        | inl known ↦
            let eq = ok-inj (rw known at h) in inl (sym (ap (λ p. p.0) eq), sym (ap (λ p. p.1) eq))
        | inr new ↦ inr (rw new at h)
      ]

pub apply_evidence-eq :
    (codec : Codec) (state : PlanState) (evidence : PlanEvidence) (now : ℕ) {next : PlanState}
    {advanced : Bool}
    → apply_evidence codec state evidence now ≡ ok (next, advanced)
    → ((plan_status_eq state.status active || plan_status_eq state.status blocked) ≡ true)
      × ((next ≡ state) × (advanced ≡ false)
          ⊎ (apply_new_evidence codec state evidence now ≡ ok (next, advanced)))
unfolding apply_evidence plan_status_eq
apply_evidence-eq codec state evidence now e =
    let (_, _, after_plan) = >>=-eq-ok (validate_plan codec state) _ e in
    let (_, is_open, after_status) =
      >>=-eq-ok
        (require (plan_status_eq state.status active || plan_status_eq state.status blocked)
          conflict)
        _ after_plan in
    let (_, _, last) = >>=-eq-ok (validate_evidence codec evidence state) _ after_status in
    let opened = require-eq-ok _ conflict is_open in
    (opened, split_new codec state evidence now last)

apply_new_evidence-IsBacked :
    (codec : Codec) (state : PlanState) (evidence : PlanEvidence) (now : ℕ) {next : PlanState}
    {advanced : Bool}
    → StepsBacked state
    → state.status ≢ completed
    → apply_new_evidence codec state evidence now ≡ ok (next, advanced)
    → IsBacked next
unfolding apply_new_evidence
apply_new_evidence-IsBacked codec state evidence now h unfinished e =
    let (placed, at_place, same, _) = apply_new_evidence-eq codec state evidence now e in
    let (steps, status) = place-StepsBacked state evidence h at_place in
    rw same (
      complete_plan-IsBacked (advance placed).0 now (advance-StepsBacked placed steps)
        (advance-status placed (rw status unfinished)))

-- Evidence keeps a plan backed: whatever `apply_evidence` returns, each completed step has evidence
-- of all its conditions, and a completed plan of all of its own.
pub apply_evidence-IsBacked :
    (codec : Codec) (state : PlanState) (evidence : PlanEvidence) (now : ℕ) {next : PlanState}
    {advanced : Bool}
    → IsBacked state
    → apply_evidence codec state evidence now ≡ ok (next, advanced)
    → IsBacked next
unfolding apply_evidence
apply_evidence-IsBacked codec state evidence now h e =
    let (opened, last) = apply_evidence-eq codec state evidence now e in
    elim last [
      | inl (same, _) ↦ rw same h
      | inr applied ↦
          apply_new_evidence-IsBacked codec state evidence now h.steps_backed
            (open-status state.status opened) applied
    ]
