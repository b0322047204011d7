-- ===== src/Plan/Store/Evolution/Lost.antt =====
-- taskstate/store.go: an outcome whose first condition completes the plan and which has more conditions.
use rin.Common.{ℕ, ◌≡◌, refl, subst, ◌⋯◌, String, Bool, true, false, ◌||◌, List, ◌∷◌, inl, inr}
use rin.Host.{ActionOutcome, RunStatus, run_status_eq}
use rin.Plan.{conflict, ok, err, PlanStatus, active, blocked, completed, PlanState, PlanEvidence}
use rin.Plan.Codec.{Codec, plan_status_eq}
use rin.Plan.Validation.{validate_plan}
use rin.Plan.Progress.{apply_evidence}
use rin.Plan.Progress.Backed.{apply_evidence-eq, apply_new_evidence-eq, open-status}
use rin.Plan.Store.{Store, OperationLink}
use rin.Plan.Store.Results.{
  OperationResult, outcome_evidence, apply_conditions, apply_outcome, is_applicable, settle_result,
}

completed-closed :
    (status : PlanStatus)
    → status ≡ completed
    → (plan_status_eq status active || plan_status_eq status blocked) ≡ false
unfolding plan_status_eq
completed-closed status e = rw e refl

apply_evidence-completed :
    (codec : Codec) (state : PlanState) (evidence : PlanEvidence) (now : ℕ)
    → validate_plan codec state ≡ ok tt
    → state.status ≡ completed
    → apply_evidence codec state evidence now ≡ err conflict
unfolding apply_evidence
apply_evidence-completed codec state evidence now valid e =
    let shut = completed-closed state.status e in simp (valid, shut)

completed-IsAccepted :
    (codec : Codec) (state : PlanState) (evidence : PlanEvidence) (now : ℕ) {next : PlanState}
    {advanced : Bool}
    → apply_evidence codec state evidence now ≡ ok (next, advanced)
    → next.status ≡ completed
    → validate_plan codec next ≡ ok tt
completed-IsAccepted codec state evidence now e ended =
    let (opened, last) = apply_evidence-eq codec state evidence now e in
    elim last [
      | inl (same, _) ↦ absurd (
          open-status state.status opened
            (subst (λ (s : PlanState). s.status ≡ completed) same ended))
      | inr applied ↦
          let (_, _, _, valid) = apply_new_evidence-eq codec state evidence now applied in valid
    ]

apply_conditions-completed :
    (codec : Codec) (outcome : ActionOutcome) (digest : String) (now : ℕ) (id other : String)
    (ids : List String) (state next : PlanState) (advanced : Bool)
    → apply_evidence codec state
        (outcome_evidence outcome digest (outcome.operation_id ⋯ "." ⋯ id) now id)
        now
      ≡ ok (next, advanced)
    → next.status ≡ completed
    → apply_conditions codec outcome digest now (id ∷ other ∷ ids) state ≡ err conflict
unfolding apply_conditions
apply_conditions-completed codec outcome digest now id other ids state next advanced e ended =
    let valid =
      completed-IsAccepted codec state
        (outcome_evidence outcome digest (outcome.operation_id ⋯ "." ⋯ id) now id) now e ended in
    let refused =
      apply_evidence-completed codec next
        (outcome_evidence outcome digest (outcome.operation_id ⋯ "." ⋯ other) now other) now valid
        ended in
    simp (e, refused)

-- When the evidence of the first linked condition completes the plan and the link names a second
-- condition, the success of the operation is refused as a conflict, and the store does not take it.
pub settle_result-conflict :
    (codec : Codec) (result : OperationResult) (digest : String) (now : ℕ) (link : OperationLink)
    (id other : String) (ids : List String) (state next : PlanState) (advanced : Bool)
    (store : Store)
    → is_applicable codec state link ≡ true
    → result.outcome.status ≡ RunStatus.succeeded
    → link.condition_ids ≡ id ∷ other ∷ ids
    → apply_evidence codec state
        (outcome_evidence result.outcome digest (result.outcome.operation_id ⋯ "." ⋯ id) now id)
        now
      ≡ ok (next, advanced)
    → next.status ≡ completed
    → settle_result codec result digest now link state store ≡ err conflict
unfolding settle_result apply_outcome run_status_eq
settle_result-conflict codec result digest now link id other ids state next advanced store fits
      success named e ended =
    let refused =
      apply_conditions-completed codec result.outcome digest now id other ids state next advanced e
        ended in
    simp (fits, success, named, refused)
