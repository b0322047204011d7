-- ===== src/Plan/Store/Evolution/Replay.antt =====
-- taskstate/store.go: `ApplyOperationResult` takes an outcome once, and gives the same answer to a repeat.
use rin.Common.{
  ℕ, ◌≡◌, refl, sym, subst, ◌∙◌, ◌⋯◌, String, Bool, true, false, not, List, [], ◌∷◌, some, arith,
  inl, inr, Bool-cases, eq_iff, ◌≢◌, eq_refl, ◌==◌, ◌=ₛ◌, if◌then◌else◌, length,
}
use rin.Host.{ActionOutcome, RunStatus, run_status_eq}
use rin.Host.Checks.{validate_action_outcome}
use rin.Plan.{
  invalid, conflict, closed, ok, require, ok-inj, require-eq-ok, >>=-eq-ok, >>-eq-ok, PlanState,
}
use rin.Plan.Codec.{Codec}
use rin.Plan.Validation.{validate_plan}
use rin.Plan.Progress.{apply_evidence}
use rin.Plan.Progress.Backed.{apply_evidence-eq, apply_new_evidence-eq}
use rin.Plan.Progress.Advances.{apply_failure-eq}
use rin.Plan.Failures.{apply_failure}
use rin.Plan.Store.{
  Store, OperationRow, OperationLink, ready, find_plan, load_plan, decode_stored_plan,
  find_operation,
}
use rin.Plan.Store.Results.{
  OperationResult, outcome_evidence, run_status_name, apply_conditions, apply_outcome,
  is_applicable, take_result, apply_operation_result,
}
use rin.Plan.Store.Rows.{load_plan-eq, find_plan-id, find-finish_operation, replace_plan-eq}
use rin.Plan.Store.Evolution.Outcomes.{
  applied_plan, stored_plans, applied_plan-Moves, settle_result-eq, apply_operation_result-eq,
}

abbrev IsAccepted : Codec → PlanState → Type 0
IsAccepted codec state = validate_plan codec state ≡ ok tt

apply_conditions-IsAccepted :
    (codec : Codec) (outcome : ActionOutcome) (digest : String) (now : ℕ) (ids : List String)
    (state : PlanState) {next : PlanState}
    → IsAccepted codec state
    → apply_conditions codec outcome digest now ids state ≡ ok next
    → IsAccepted codec next
unfolding apply_conditions
apply_conditions-IsAccepted codec outcome digest now [] state h e =
    subst (IsAccepted codec) (ok-inj e) h
apply_conditions-IsAccepted codec outcome digest now (id ∷ ids) state h e =
    let evidence = outcome_evidence outcome digest (outcome.operation_id ⋯ "." ⋯ id) now id in
    let ((middle, advanced), first, rest) =
      >>=-eq-ok (apply_evidence codec state evidence now) _ e in
    let (_, last) = apply_evidence-eq codec state evidence now first in
    let valid : IsAccepted codec middle = elim last [
      | inl (same, _) ↦ subst (IsAccepted codec) (sym same) h
      | inr applied ↦
          let (_, _, _, accepted) = apply_new_evidence-eq codec state evidence now applied in
          accepted
    ] in
    apply_conditions-IsAccepted codec outcome digest now ids middle valid rest

-- An outcome leaves a plan that `ValidatePlan` takes; and where it changes nothing, the same plan.
abbrev Settled : Codec → PlanState → PlanState × Bool → Type 0
Settled codec state out = IsAccepted codec out.0 × (out.1 ≡ false → out.0 ≡ state)

changed-cons : (id : String) (ids : List String) → not (length (id ∷ ids) == 0) ≢ false
changed-cons id ids h = grind arith

conditions-Settled :
    (codec : Codec) (outcome : ActionOutcome) (digest : String) (now : ℕ) (ids : List String)
    (state : PlanState) {next : PlanState}
    → IsAccepted codec state
    → apply_conditions codec outcome digest now ids state ≡ ok next
    → Settled codec state (next, not (length ids == 0))
unfolding apply_conditions
conditions-Settled codec outcome digest now [] state h e =
    (subst (IsAccepted codec) (ok-inj e) h, λ _. sym (ok-inj e))
conditions-Settled codec outcome digest now (id ∷ ids) state h e = (
  apply_conditions-IsAccepted codec outcome digest now (id ∷ ids) state h e,
  λ none_changed. absurd (changed-cons id ids none_changed),
)

apply_outcome-Settled :
    (codec : Codec) (outcome : ActionOutcome) (digest : String) (now : ℕ) (ids : List String)
    (state : PlanState) {out : PlanState × Bool}
    → IsAccepted codec state
    → apply_outcome codec outcome digest now ids state ≡ ok out
    → Settled codec state out
unfolding apply_outcome
apply_outcome-Settled codec outcome digest now ids state h e =
    elim (Bool-cases (run_status_eq outcome.status RunStatus.succeeded)) [
      | inl success ↦
          let (done, applied, same) =
            >>=-eq-ok (apply_conditions codec outcome digest now ids state) _
              (rw (success, apply_outcome) at e) in
          subst (Settled codec state) (ok-inj same)
            (conditions-Settled codec outcome digest now ids state h applied)
      | inr failure ↦
          let family = run_status_name outcome.status in
          let code = if outcome.code =ₛ "" then family else outcome.code in
          let (done, applied, same) =
            >>=-eq-ok (apply_failure codec state outcome.operation_id family code now) _
              (rw (failure, apply_outcome) at e) in
          let (_, _, _, _, _, accepted) =
            apply_failure-eq codec state outcome.operation_id family code now applied in
          subst (Settled codec state) (ok-inj same)
            (accepted, λ changed. absurd (ground (arith, changed)))
    ]

applied_plan-Settled :
    (codec : Codec) (result : OperationResult) (digest : String) (now : ℕ) (link : OperationLink)
    (state : PlanState) {out : PlanState × Bool}
    → IsAccepted codec state
    → applied_plan codec result digest now link state ≡ ok out
    → Settled codec state out
applied_plan-Settled codec result digest now link state h e =
    elim (Bool-cases (is_applicable codec state link)) [
      | inl fits ↦
          apply_outcome-Settled codec result.outcome digest now link.condition_ids state h
            (rw fits at e)
      | inr stale ↦ subst (Settled codec state) (ok-inj (rw stale at e)) (h, λ _. refl)
    ]

-- Where a plan that is accepted stands in the table, the load finds it.
load_plan-intro :
    (codec : Codec) (id : String) (plans : List PlanState) (state : PlanState)
    → find_plan id plans ≡ some state
    → IsAccepted codec state
    → load_plan codec id plans ≡ ok state
unfolding load_plan decode_stored_plan
load_plan-intro codec id plans state found valid =
    rw (found, valid, load_plan, decode_stored_plan) refl

-- The tests that a result passes before the store looks for its operation.
abbrev Admits : OperationResult → Store → Type 0
Admits result store =
    (require result.execution_confirmed invalid ≡ ok tt)
    × (require (validate_action_outcome result.outcome) invalid ≡ ok tt)
    × (require (result.operation_id =ₛ result.outcome.operation_id) invalid ≡ ok tt)
    × (require (not store.is_closed) closed ≡ ok tt)

apply_operation_result-Admits :
    (codec : Codec) (result : OperationResult) (now : ℕ) (store : Store)
    {out : Store × (PlanState × Bool)}
    → apply_operation_result codec result now store ≡ ok out
    → Admits result store
unfolding apply_operation_result
apply_operation_result-Admits codec result now store e =
    let (confirmed, e1) = >>-eq-ok (require result.execution_confirmed invalid) _ e in
    let (valid, e2) = >>-eq-ok (require (validate_action_outcome result.outcome) invalid) _ e1 in
    let (named, e3) =
      >>-eq-ok (require (result.operation_id =ₛ result.outcome.operation_id) invalid) _ e2 in
    let (opened, _) = >>-eq-ok (ready store) _ e3 in (confirmed, valid, named, opened)

apply_operation_result-intro :
    (codec : Codec) (result : OperationResult) (now : ℕ) (store : Store) (row : OperationRow)
    (state : PlanState)
    → Admits result store
    → find_operation result.operation_id store.operations ≡ some row
    → load_plan codec row.link.plan_id store.plans ≡ ok state
    → apply_operation_result codec result now store
      ≡ take_result codec result (codec.outcome_digest result.outcome) now row state store
unfolding apply_operation_result
apply_operation_result-intro codec result now store row state (confirmed, valid, named, opened)
      found loaded =
    simp (confirmed, valid, named, opened, found, loaded)

take_result-again :
    (codec : Codec) (result : OperationResult) (digest : String) (now : ℕ) (row : OperationRow)
    (state : PlanState) (store : Store)
    → row.terminal ≡ true
    → row.outcome_digest ≡ digest
    → take_result codec result digest now row state store ≡ ok (store, (state, false))
unfolding take_result
take_result-again codec result digest now row state store ended same =
    rw (ended, same, eq_refl digest) refl

take_result-digest :
    (codec : Codec) (result : OperationResult) (digest : String) (now : ℕ) (row : OperationRow)
    (state : PlanState) (store : Store) {out : Store × (PlanState × Bool)}
    → row.terminal ≡ true
    → take_result codec result digest now row state store ≡ ok out
    → row.outcome_digest ≡ digest
unfolding take_result
take_result-digest codec result digest now row state store ended e =
    let (same, _) =
      >>-eq-ok (require (row.outcome_digest =ₛ digest) conflict) (ok (store, (state, false)))
        (rw (ended, take_result) at e) in
    (eq_iff row.outcome_digest digest).0 (require-eq-ok _ conflict same)

-- The plan of a settled result, as the next load of it finds it.
settled-load :
    (codec : Codec) (result : OperationResult) (digest : String) (now : ℕ) (link : OperationLink)
    (state next : PlanState) (changed : Bool) (plans after : List PlanState)
    → find_plan link.plan_id plans ≡ some state
    → IsAccepted codec state
    → applied_plan codec result digest now link state ≡ ok (next, changed)
    → stored_plans link next changed plans ≡ ok after
    → load_plan codec link.plan_id after ≡ ok next
settled-load codec result digest now link state next true plans after found valid applied stored =
    let (accepted, _) = applied_plan-Settled codec result digest now link state valid applied in
    let moves = applied_plan-Moves codec result digest now link state applied in
    let id : next.plan_id ≡ link.plan_id =
      moves.advances.same_plan ∙ find_plan-id link.plan_id plans found in
    load_plan-intro codec link.plan_id after next
      (replace_plan-eq link.plan_revision next plans stored link.plan_id
        ∙ rw (id, eq_refl link.plan_id) refl)
      accepted
settled-load codec result digest now link state next false plans after found valid applied stored =
    let (accepted, same) = applied_plan-Settled codec result digest now link state valid applied in
    load_plan-intro codec link.plan_id after next (rw (← ok-inj stored, same refl) found) accepted

-- An outcome that the store has taken is taken once: the same result at any later time gives the same
-- plan, says that nothing changed, and leaves the store as it is.
pub apply_operation_result-replay :
    (codec : Codec) (result : OperationResult) (now later : ℕ) (store after : Store)
    (next : PlanState) (changed : Bool)
    → apply_operation_result codec result now store ≡ ok (after, (next, changed))
    → apply_operation_result codec result later after ≡ ok (after, (next, false))
apply_operation_result-replay codec result now later store after next changed e =
    let digest = codec.outcome_digest result.outcome in
    let (confirmed, valid, named, opened) =
      apply_operation_result-Admits codec result now store e in
    let (row, state, found, loaded, ways) = apply_operation_result-eq codec result now store e in
    elim ways [
      | inl (ended, same, same_plan, _) ↦
          let admits : Admits result store = (confirmed, valid, named, opened) in
          let taken =
            sym (apply_operation_result-intro codec result now store row state admits found loaded)
            ∙ e in
          let same_digest =
            take_result-digest codec result digest now row state store ended taken in
          let repeated =
            apply_operation_result-intro codec result later store row state admits found loaded
            ∙ take_result-again codec result digest later row state store ended same_digest in
          subst (λ s. apply_operation_result codec result later s ≡ ok (s, (next, false)))
            (sym same)
            (subst (λ p. apply_operation_result codec result later store ≡ ok (store, (p, false)))
              (sym same_plan) repeated)
      | inr (_, settled) ↦
          let (applied, stored, operations, same_closed) =
            settle_result-eq codec result digest now row.link state store settled in
          let (at_id, accepted) = load_plan-eq codec row.link.plan_id store.plans loaded in
          let finished : OperationRow = record row { terminal = true; outcome_digest = digest } in
          apply_operation_result-intro codec result later after finished next
            (confirmed, valid, named, rw same_closed opened)
            (rw operations
              (find-finish_operation result.operation_id digest store.operations found))
            (settled-load codec result digest now row.link state next changed store.plans
              after.plans at_id accepted applied stored)
          ∙ take_result-again codec result digest later finished next after refl refl
    ]
