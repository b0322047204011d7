-- ===== src/Plan/Failures/Limits.antt =====
-- taskstate/plan.go: failures of a plan come to an end, and they complete nothing.
use rin.Common.{
  ℕ, zero, suc, ◌+◌, ◌-◌, ◌≡◌, refl, subst, ◌∙◌, String, true, List, [], ◌∷◌, none, some, arith,
  inl, inr, Bool-cases, ◌≢◌, leb, length,
}
use rin.Plan.{
  StepStatus, step_blocked, step_completed, blocked, Result, ok, ◌>>=◌, >>=-eq-ok, ok-inj, active,
  completed, PlanStep, PlanState,
}
use rin.Plan.Codec.{Codec, plan_status_eq, step_status_eq, plan_status_eq_iff, step_status_eq_iff}
use rin.Plan.Validation.{validate_plan}
use rin.Plan.Validation.Facts.{AttemptsFit, validate_plan-AttemptsFit}
use rin.Plan.Steps.{step_at, modify_at, step_index_from, current_step_index, current_step, stamp}
use rin.Plan.Failures.{fail_step, apply_failure}
use rin.Plan.Progress.Backed.{StepBacked, IsBacked, All-modify_at, All-step_at, current_step-eq}
use rin.Plan.Progress.Advances.{apply_failure-eq}

-- A change of one step that counts an attempt and completes nothing.
record CountsAttempt (f : PlanStep → PlanStep) : Type 0 where
  same_id : (s : PlanStep) → (f s).step_id ≡ s.step_id
  same_limit : (s : PlanStep) → (f s).max_attempts ≡ s.max_attempts
  counted : (s : PlanStep) → (f s).attempt ≡ s.attempt + 1
  backed : (s : PlanStep) → StepBacked s → StepBacked (f s)

abbrev tried : PlanStep → PlanStep
tried s = record s { attempt = s.attempt + 1 }

abbrev exhausted : String → PlanStep → PlanStep
exhausted code s = record s {
  attempt = s.attempt + 1;
  status = step_blocked;
  blocked_reason = code;
}

not-blocked : {s : StepStatus} → s ≡ step_blocked → s ≢ step_completed
unfolding step_status_eq
not-blocked e h = ground (arith, e, h, step_status_eq_iff step_blocked step_completed)

tried-CountsAttempt : CountsAttempt tried
tried-CountsAttempt = record {
  same_id = λ s. refl;
  same_limit = λ s. refl;
  counted = λ s. refl;
  backed = λ s h. h;
}

exhausted-CountsAttempt : (code : String) → CountsAttempt (exhausted code)
exhausted-CountsAttempt code = record {
  same_id = λ s. refl;
  same_limit = λ s. refl;
  counted = λ s. refl;
  backed = λ s h done. absurd (not-blocked refl done);
}

-- `ApplyFailure` changes the steps by one such change of the step at the index.
fail_step-eq :
    (operation_id family code : String) (index : ℕ) (step : PlanStep) (state : PlanState)
    → (f : PlanStep → PlanStep) × CountsAttempt f
      × ((fail_step operation_id family code index step state).steps
          ≡ modify_at index f state.steps)
      × ((fail_step operation_id family code index step state).current_step_id
          ≡ state.current_step_id)
      × ((fail_step operation_id family code index step state).status ≡ completed
          → state.status ≡ completed)
unfolding fail_step plan_status_eq
fail_step-eq operation_id family code index step state =
    elim (Bool-cases (leb step.max_attempts (step.attempt + 1))) [
      | inl last ↦ (
        exhausted code,
        exhausted-CountsAttempt code,
        ground (arith, last),
        ground (arith, last),
        ground (arith, last, plan_status_eq_iff blocked completed),
      )
      | inr more ↦ (
        tried,
        tried-CountsAttempt,
        ground (arith, more),
        ground (arith, more),
        ground (arith, more),
      )
    ]

completed-inactive : plan_status_eq completed active ≢ true
unfolding plan_status_eq
completed-inactive h = cc

-- A failure keeps a plan backed: it completes no step and no plan.
pub apply_failure-IsBacked :
    (codec : Codec) (state : PlanState) (operation_id family code : String) (now : ℕ)
    {next : PlanState}
    → IsBacked state
    → apply_failure codec state operation_id family code now ≡ ok next
    → IsBacked next
apply_failure-IsBacked codec state operation_id family code now h e =
    let (index, step, found, is_active, same, _) =
      apply_failure-eq codec state operation_id family code now e in
    let (f, counts, steps, _, status) = fail_step-eq operation_id family code index step state in
    let at_index = current_step-eq state found in
    let kept =
      All-modify_at StepBacked f index state.steps at_index
        (counts.backed step (All-step_at StepBacked index state.steps at_index h.steps_backed))
        h.steps_backed in
    rw same (record {
      steps_backed = rw steps kept;
      plan_backed = λ done. absurd (completed-inactive (rw (status done) at is_active));
    })

step_index-modify_at :
    (f : PlanStep → PlanStep) (id : String) (index : ℕ) (steps : List PlanStep) (from : ℕ)
    → CountsAttempt f
    → step_index_from id (modify_at index f steps) from ≡ step_index_from id steps from
unfolding step_index_from modify_at
step_index-modify_at f id index [] from h = refl
step_index-modify_at f id zero (s ∷ steps) from h = ground (arith, h.same_id s)
step_index-modify_at f id (suc index) (s ∷ steps) from h =
    ground (arith, step_index-modify_at f id index steps (from + 1) h)

step_at-modify_at :
    (f : PlanStep → PlanStep) (index : ℕ) (steps : List PlanStep) {step : PlanStep}
    → step_at index steps ≡ some step
    → step_at index (modify_at index f steps) ≡ some (f step)
unfolding step_at modify_at
step_at-modify_at f index [] e = ground (arith, e)
step_at-modify_at f zero (s ∷ steps) e = ground (arith, e)
step_at-modify_at f (suc index) (s ∷ steps) e = step_at-modify_at f index steps e

-- The attempts that the current step has left.
unfoldable pub remaining_attempts : PlanState → ℕ
unfolding current_step
remaining_attempts state = elim (current_step state) [
  | none ↦ 0
  | some (index, step) ↦ step.max_attempts - step.attempt
]

remaining_attempts-eq :
    (state : PlanState) {index : ℕ} {step : PlanStep}
    → current_step state ≡ some (index, step)
    → remaining_attempts state ≡ step.max_attempts - step.attempt
unfolding remaining_attempts
remaining_attempts-eq state e = ground (arith, e)

current_step-index :
    (state : PlanState) {index : ℕ} {step : PlanStep}
    → current_step state ≡ some (index, step)
    → step_index_from state.current_step_id state.steps 0 ≡ some index
unfolding current_step current_step_index
current_step-index state e = ground (arith, e)

current_step-intro :
    (state : PlanState) {index : ℕ} {step : PlanStep}
    → step_index_from state.current_step_id state.steps 0 ≡ some index
    → step_at index state.steps ≡ some step
    → current_step state ≡ some (index, step)
unfolding current_step current_step_index
current_step-intro state at_id at_index = ground (arith, at_id, at_index)

-- Each failure that is applied takes one attempt from the current step.
apply_failure-remaining :
    (codec : Codec) (state : PlanState) (operation_id family code : String) (now : ℕ)
    {next : PlanState}
    → apply_failure codec state operation_id family code now ≡ ok next
    → remaining_attempts next + 1 ≡ remaining_attempts state
apply_failure-remaining codec state operation_id family code now {next} e =
    let (index, step, found, _, same, valid) =
      apply_failure-eq codec state operation_id family code now e in
    let (f, counts, steps, current, _) = fail_step-eq operation_id family code index step state in
    let failed_plan = stamp now (fail_step operation_id family code index step state) in
    let at_index : step_at index failed_plan.steps ≡ some (f step) =
      rw steps (step_at-modify_at f index state.steps (current_step-eq state found)) in
    let at_id : step_index_from failed_plan.current_step_id failed_plan.steps 0 ≡ some index =
      rw (steps, current)
        (step_index-modify_at f state.current_step_id index state.steps 0 counts
          ∙ current_step-index state found) in
    let found' = current_step-intro failed_plan at_id at_index in
    let fits : AttemptsFit (f step) = All-step_at AttemptsFit index failed_plan.steps at_index (
      validate_plan-AttemptsFit codec failed_plan
        (subst (λ s. validate_plan codec s ≡ ok tt) same valid)) in
    rw same (
      omega (
        arith,
        remaining_attempts-eq failed_plan found',
        remaining_attempts-eq state found,
        fits.0,
        counts.counted step,
        counts.same_limit step,
      ))

-- The arguments of a call of `ApplyFailure`.
pub record Failure : Type 0 where
  pub operation_id : String
  pub family : String
  pub code : String
  pub at : ℕ

-- One failure after another, each of which is applied.
unfoldable pub apply_failures : Codec → List Failure → PlanState → Result PlanState
unfolding apply_failure
apply_failures codec [] state = ok state
apply_failures codec (x ∷ xs) state = do
  next ← apply_failure codec state x.operation_id x.family x.code x.at
  apply_failures codec xs next

-- A run of failures ends: `ApplyFailure` applies no more failures in a row than the current step has
-- attempts left, and each of them takes one.
pub apply_failures-remaining :
    (codec : Codec) (failures : List Failure) (state : PlanState) {next : PlanState}
    → apply_failures codec failures state ≡ ok next
    → length failures + remaining_attempts next ≡ remaining_attempts state
unfolding apply_failures
apply_failures-remaining codec [] state e = rw (ok-inj e) (omega arith)
apply_failures-remaining codec (x ∷ xs) state e =
    let (middle, first, rest) =
      >>=-eq-ok (apply_failure codec state x.operation_id x.family x.code x.at) _ e in
    omega (
      arith,
      apply_failure-remaining codec state x.operation_id x.family x.code x.at first,
      apply_failures-remaining codec xs middle rest,
    )
