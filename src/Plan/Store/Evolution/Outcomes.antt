-- ===== src/Plan/Store/Evolution/Outcomes.antt =====
-- taskstate/store.go: links leave the plans alone, and a result changes the one plan of its link.
use rin.Common.{
  ℕ, ◌≡◌, sym, ap, subst, ◌∙◌, String, Bool, true, false, not, ◌&&◌, List, ◌⊎◌, some, inl, inr,
  Bool-cases, Option-cases, leb, ◌==◌, ◌=ₛ◌, if◌then◌else◌,
}
use rin.Plan.{
  Result, ok, conflict, invalid, require, ok-inj, err-not-ok, >>=-eq-ok, >>-eq-ok, PlanState,
  active,
}
use rin.Plan.Codec.{Codec, plan_status_eq}
use rin.Plan.Store.{Store, ready, find_plan, insert_event, load_plan}
use rin.Plan.Store.Rows.{insert_event-plans}
use rin.Host.Checks.{validate_action_outcome}
use rin.Plan.Store.{OperationLink, OperationRow, find_operation, replace_plan}
use rin.Plan.Store.Links.{
  validate_operation_link, validate_link_conditions, other_unfinished, sorted_link, link_operation,
  reconcile_operation_link,
}
use rin.Plan.Store.Results.{
  OperationResult, outcome_evidence, finish_operation, apply_outcome, is_applicable, settle_result,
  apply_operation_result, take_result,
}
use rin.Plan.Store.Rows.{replace_plan-eq}
use rin.Plan.Store.Evolution.{Moves, Moves-refl, Change, same_plans, replaced, apply_outcome-Moves}
use rin.Plan.Store.Evolution.Operations.{insert_link-plans, loaded-at}

pub link_operation-Change :
    (codec : Codec) (link : OperationLink) (store : Store) {after : Store}
    → link_operation codec link store ≡ ok after
    → Change store.plans after.plans
unfolding link_operation
link_operation-Change codec link store e =
    let (_, e1) = >>-eq-ok (validate_operation_link link) _ e in
    let (_, e2) = >>-eq-ok (ready store) _ e1 in
    let (state, _, e3) = >>=-eq-ok (load_plan codec link.plan_id store.plans) _ e2 in
    let (_, e4) =
      >>-eq-ok
        (require
          ((state.revision == link.plan_revision)
            && (plan_status_eq state.status active && (state.current_step_id =ₛ link.step_id)))
          conflict)
        _ e3 in
    let (_, e5) = >>-eq-ok (validate_link_conditions state link) _ e4 in
    let (_, e6) =
      >>-eq-ok
        (require (not (other_unfinished link.plan_id link.operation_id store.operations)) conflict)
        _ e5 in
    same_plans (insert_link-plans (sorted_link link) store e6)

pub reconcile-Change :
    (codec : Codec) (link : OperationLink) (store : Store) {after : Store}
    → reconcile_operation_link codec link store ≡ ok after
    → Change store.plans after.plans
unfolding reconcile_operation_link
reconcile-Change codec link store e =
    let (_, e1) = >>-eq-ok (validate_operation_link link) _ e in
    let (_, e2) = >>-eq-ok (ready store) _ e1 in
    let (state, _, e3) = >>=-eq-ok (load_plan codec link.plan_id store.plans) _ e2 in
    let (_, e4) = >>-eq-ok (require (leb link.plan_revision state.revision) conflict) _ e3 in
    same_plans (insert_link-plans (sorted_link link) store e4)

-- The step of `settle_result` on the plan.
abbrev pub applied_plan :
    Codec → OperationResult → String → ℕ → OperationLink → PlanState → Result (PlanState × Bool)
applied_plan codec result digest now link state =
    if is_applicable codec state link
    then apply_outcome codec result.outcome digest now link.condition_ids state
    else ok (state, false)

abbrev pub stored_plans :
    OperationLink → PlanState → Bool → List PlanState → Result (List PlanState)
stored_plans link next changed plans =
    if changed then replace_plan link.plan_revision next plans else ok plans

pub applied_plan-Moves :
    (codec : Codec) (result : OperationResult) (digest : String) (now : ℕ) (link : OperationLink)
    (state : PlanState) {next : PlanState} {changed : Bool}
    → applied_plan codec result digest now link state ≡ ok (next, changed)
    → Moves state next
applied_plan-Moves codec result digest now link state e =
    elim (Bool-cases (is_applicable codec state link)) [
      | inl fits ↦
          apply_outcome-Moves codec result.outcome digest now link.condition_ids state
            (rw fits at e)
      | inr stale ↦ subst (Moves state) (ap (λ p. p.0) (ok-inj (rw stale at e))) (Moves-refl state)
    ]

-- What a settled result leaves: the plan that was applied, and the row of the operation at its end.
pub settle_result-eq :
    (codec : Codec) (result : OperationResult) (digest : String) (now : ℕ) (link : OperationLink)
    (state : PlanState) (store : Store) {after : Store} {next : PlanState} {changed : Bool}
    → settle_result codec result digest now link state store ≡ ok (after, (next, changed))
    → (applied_plan codec result digest now link state ≡ ok (next, changed))
      × (stored_plans link next changed store.plans ≡ ok after.plans)
      × (after.operations ≡ finish_operation result.operation_id digest store.operations)
      × (after.is_closed ≡ store.is_closed)
unfolding settle_result
settle_result-eq codec result digest now link state store e =
    let (applied, at_apply, e1) = >>=-eq-ok (applied_plan codec result digest now link state) _ e in
    let (plans, at_plans, e2) =
      >>=-eq-ok (stored_plans link applied.0 applied.1 store.plans) _ e1 in
    let middle : Store = record store {
      plans = plans;
      operations = finish_operation result.operation_id digest store.operations;
    } in
    let note =
      some (outcome_evidence result.outcome digest result.operation_id now "operation.result") in
    let kind = if is_applicable codec state link then "operation.outcome" else "operation.stale" in
    let (committed, inserted, e3) =
      >>=-eq-ok
        (insert_event applied.0 kind result.outcome.summary note result.operation_id now middle) _
        e2 in
    let (same, operations, closed_same) =
      insert_event-plans applied.0 kind result.outcome.summary note result.operation_id now middle
        inserted in
    subst
      (λ (out : Store × (PlanState × Bool)).
        (applied_plan codec result digest now link state ≡ ok out.1)
        × (stored_plans link out.1.0 out.1.1 store.plans ≡ ok out.0.plans)
        × (out.0.operations ≡ finish_operation result.operation_id digest store.operations)
        × (out.0.is_closed ≡ store.is_closed))
      (ok-inj e3) (at_apply, at_plans ∙ ap ok (sym same), operations, closed_same)

stored_plans-Change :
    (link : OperationLink) (old new : PlanState) (changed : Bool) (plans : List PlanState)
    {after : List PlanState}
    → find_plan old.plan_id plans ≡ some old
    → Moves old new
    → stored_plans link new changed plans ≡ ok after
    → Change plans after
stored_plans-Change link old new true plans found moves e =
    replaced old new found moves (replace_plan-eq link.plan_revision new plans e)
stored_plans-Change link old new false plans found moves e = same_plans (sym (ok-inj e))

take_result-eq :
    (codec : Codec) (result : OperationResult) (digest : String) (now : ℕ) (row : OperationRow)
    (state : PlanState) (store : Store) {after : Store} {next : PlanState} {changed : Bool}
    → take_result codec result digest now row state store ≡ ok (after, (next, changed))
    → (row.terminal ≡ true) × (after ≡ store) × (next ≡ state) × (changed ≡ false)
      ⊎ (row.terminal ≡ false)
        × (settle_result codec result digest now row.link state store ≡ ok (after, (next, changed)))
unfolding take_result
take_result-eq codec result digest now row state store e = elim (Bool-cases row.terminal) [
  | inl ended ↦
      let (_, e1) =
        >>-eq-ok (require (row.outcome_digest =ₛ digest) conflict) (ok (store, (state, false)))
          (rw (ended, take_result) at e) in
      let same = ok-inj e1 in
      inl (ended, sym (ap (λ p. p.0) same), sym (ap (λ p. p.1.0) same), sym (ap (λ p. p.1.1) same))
  | inr running ↦ inr (running, rw (running, take_result) at e)
]

-- The two ways in which a result is taken: again, for an operation at its end, or for the first time.
pub apply_operation_result-eq :
    (codec : Codec) (result : OperationResult) (now : ℕ) (store : Store) {after : Store}
    {next : PlanState} {changed : Bool}
    → apply_operation_result codec result now store ≡ ok (after, (next, changed))
    → (row : OperationRow) × (state : PlanState) × (find_operation result.operation_id
          store.operations
        ≡ some row)
      × (load_plan codec row.link.plan_id store.plans ≡ ok state)
      × ((row.terminal ≡ true) × (after ≡ store) × (next ≡ state) × (changed ≡ false)
          ⊎ (row.terminal ≡ false)
            × (settle_result codec result
                  (codec.outcome_digest result.outcome)
                  now
                  row.link
                  state
                  store
                ≡ ok (after, (next, changed))))
unfolding apply_operation_result
apply_operation_result-eq codec result now store e =
    let digest = codec.outcome_digest result.outcome in
    let (_, e1) = >>-eq-ok (require result.execution_confirmed invalid) _ e in
    let (_, e2) = >>-eq-ok (require (validate_action_outcome result.outcome) invalid) _ e1 in
    let (_, e3) =
      >>-eq-ok (require (result.operation_id =ₛ result.outcome.operation_id) invalid) _ e2 in
    let (_, e4) = >>-eq-ok (ready store) _ e3 in
    elim (Option-cases (find_operation result.operation_id store.operations)) [
      | inl missing ↦ err-not-ok (rw missing at e4)
      | inr (row, found) ↦
          let (state, loaded, e5) =
            >>=-eq-ok (load_plan codec row.link.plan_id store.plans) _ (rw found at e4) in
          (row, state, found, loaded, take_result-eq codec result digest now row state store e5)
    ]

pub apply_operation_result-Change :
    (codec : Codec) (result : OperationResult) (now : ℕ) (store : Store) {after : Store}
    {next : PlanState} {changed : Bool}
    → apply_operation_result codec result now store ≡ ok (after, (next, changed))
    → Change store.plans after.plans
apply_operation_result-Change codec result now store {next = next} {changed = changed} e =
    let digest = codec.outcome_digest result.outcome in
    let (row, state, found, loaded, ways) = apply_operation_result-eq codec result now store e in
    elim ways [
      | inl (_, same, _, _) ↦ same_plans (ap (λ (s : Store). s.plans) same)
      | inr (_, settled) ↦
          let (applied, stored, _, _) =
            settle_result-eq codec result digest now row.link state store settled in
          stored_plans-Change row.link state next changed store.plans
            (loaded-at codec row.link.plan_id store loaded)
            (applied_plan-Moves codec result digest now row.link state applied) stored
    ]
