-- ===== src/Plan/Progress/Advances.antt =====
-- taskstate/plan.go: a change of a plan keeps its identity and raises its revision.
use rin.Common.{
  ℕ, ◌<◌, ◌≡◌, refl, sym, subst, ◌∙◌, ◌⊎◌, inl, inr, String, Bool, true, false, some, arith, ◌||◌,
  Option-cases,
}
use rin.Plan.{
  ok, conflict, require, >>-eq-ok, err-not-ok, require-eq-ok, ok-inj, PlanStatus, active, blocked,
  PlanEvidence, PlanStep, PlanState,
}
use rin.Plan.Codec.{Codec, plan_status_eq}
use rin.Plan.Validation.{terminal_plan_status, validate_plan}
use rin.Plan.Checks.{require_text}
use rin.Plan.Steps.{current_step, stamp}
use rin.Plan.Progress.{
  place_in_plan, place_evidence, leave_step, advance, complete_plan, apply_evidence,
}
use rin.Plan.Failures.{fail_step, apply_failure}
use rin.Plan.Progress.Backed.{apply_new_evidence-eq, apply_evidence-eq}

-- The later plan is the plan itself, or it has a greater revision and the plan was not at its end.
pub record Advances (before after : PlanState) : Type 0 where
  pub same_plan : after.plan_id ≡ before.plan_id
  pub moved :
      (after ≡ before)
      ⊎ ((before.revision < after.revision) × (terminal_plan_status before.status ≡ false))

pub Advances-refl : (state : PlanState) → Advances state state
Advances-refl state = record { same_plan = refl; moved = inl refl }

pub Advances-trans : (a b c : PlanState) → Advances a b → Advances b c → Advances a c
Advances-trans a b c first next = record {
  same_plan = next.same_plan ∙ first.same_plan;
  moved = elim first.moved [
    | inl same ↦ ground (arith, same, next.moved)
    | inr (later, unfinished) ↦ elim next.moved [
      | inl same ↦ inr (ground (arith, same, later), unfinished)
      | inr (later', _) ↦ inr (omega (arith, later, later'), unfinished)
    ]
  ];
}

-- The identity and the revision of a plan.
abbrev SameRow : PlanState → PlanState → Type 0
SameRow a b = (b.plan_id ≡ a.plan_id) × (b.revision ≡ a.revision)

place-SameRow :
    (state : PlanState) (evidence : PlanEvidence) {placed : PlanState}
    → place_evidence state evidence ≡ ok placed
    → SameRow state placed
unfolding place_evidence place_in_plan
place-SameRow state evidence e = ground (arith, e)

advance-SameRow : (state : PlanState) → SameRow state (advance state).0
unfolding advance leave_step
advance-SameRow state = ground arith

complete-SameRow : (state : PlanState) → SameRow state (complete_plan state)
unfolding complete_plan
complete-SameRow state = ground arith

open-terminal :
    (status : PlanStatus)
    → (plan_status_eq status active || plan_status_eq status blocked) ≡ true
    → terminal_plan_status status ≡ false
unfolding plan_status_eq terminal_plan_status
open-terminal status h = ground (arith, h)

pub apply_evidence-Advances :
    (codec : Codec) (state : PlanState) (evidence : PlanEvidence) (now : ℕ) {next : PlanState}
    {advanced : Bool}
    → apply_evidence codec state evidence now ≡ ok (next, advanced)
    → Advances state next
apply_evidence-Advances codec state evidence now e =
    let (opened, last) = apply_evidence-eq codec state evidence now e in
    elim last [
      | inl (same, _) ↦ rw same (Advances-refl state)
      | inr applied ↦
          let (placed, at_place, same, _) =
            apply_new_evidence-eq codec state evidence now applied in
          let (id_1, rev_1) = place-SameRow state evidence at_place in
          let (id_2, rev_2) = advance-SameRow placed in
          let (id_3, rev_3) = complete-SameRow (advance placed).0 in
          rw same (record {
            same_plan = id_3 ∙ id_2 ∙ id_1;
            moved = inr (omega (arith, rev_1, rev_2, rev_3), open-terminal state.status opened);
          })
    ]

fail_step-SameRow :
    (operation_id family code : String) (index : ℕ) (step : PlanStep) (state : PlanState)
    → SameRow state (fail_step operation_id family code index step state)
unfolding fail_step
fail_step-SameRow operation_id family code index step state = ground arith

-- A failure that is applied counts an attempt of the current step of an active plan.
pub apply_failure-eq :
    (codec : Codec) (state : PlanState) (operation_id family code : String) (now : ℕ)
    {next : PlanState}
    → apply_failure codec state operation_id family code now ≡ ok next
    → (index : ℕ) × (step : PlanStep) × (current_step state ≡ some (index, step))
      × (plan_status_eq state.status active ≡ true)
      × (next ≡ stamp now (fail_step operation_id family code index step state))
      × (validate_plan codec next ≡ ok tt)
unfolding apply_failure
apply_failure-eq codec state operation_id family code now {next} e =
    let (_, e1) = >>-eq-ok (validate_plan codec state) _ e in
    let (_, e2) = >>-eq-ok (require_text operation_id 256 true) _ e1 in
    let (_, e3) = >>-eq-ok (require_text family 128 true) _ e2 in
    let (_, e4) = >>-eq-ok (require_text code 128 false) _ e3 in
    elim (Option-cases (current_step state)) [
      | inl nothing ↦ err-not-ok (rw nothing at e4)
      | inr ((index, step), found) ↦
          let failed_step = stamp now (fail_step operation_id family code index step state) in
          let (is_active, e5) =
            >>-eq-ok (require (plan_status_eq state.status active) conflict) _ (rw found at e4) in
          let (valid, e6) = >>-eq-ok (validate_plan codec failed_step) (ok failed_step) e5 in
          (
            index,
            step,
            found,
            require-eq-ok _ conflict is_active,
            sym (ok-inj e6),
            subst (λ s. validate_plan codec s ≡ ok tt) (ok-inj e6) valid,
          )
    ]

pub apply_failure-Advances :
    (codec : Codec) (state : PlanState) (operation_id family code : String) (now : ℕ)
    {next : PlanState}
    → apply_failure codec state operation_id family code now ≡ ok next
    → Advances state next
apply_failure-Advances codec state operation_id family code now e =
    let (index, step, _, is_active, same, _) =
      apply_failure-eq codec state operation_id family code now e in
    let (id, rev) = fail_step-SameRow operation_id family code index step state in
    rw same (record {
      same_plan = id;
      moved = inr (omega (arith, rev), open-terminal state.status (rw is_active refl));
    })
