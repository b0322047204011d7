-- ===== src/Plan/Store/Evolution/Operations.antt =====
-- taskstate/store.go: revisions, changes of status, evidence, links and results change the plans by at
-- most one row.
use rin.Common.{
  ℕ, ◌+◌, ◌≡◌, refl, sym, ap, subst, String, Bool, true, false, not, ◌&&◌, ◌||◌, none, some, arith,
  inl, inr, Bool-cases, leb, ◌==◌, ◌≢◌,
}
use rin.Plan.{
  ok, conflict, invalid, require, ok-inj, require-eq-ok, >>=-eq-ok, >>-eq-ok, PlanState,
  PlanEvidence, Draft, PlanStatus, active, paused, cancelled, completed,
}
use rin.Plan.Codec.{Codec, plan_status_eq}
use rin.Plan.Checks.{require_text}
use rin.Plan.Validation.{validate_plan, terminal_plan_status}
use rin.Plan.Steps.{new_plan}
use rin.Plan.Progress.{apply_evidence}
use rin.Plan.Progress.Backed.{apply_evidence-IsBacked}
use rin.Plan.Progress.Advances.{apply_evidence-Advances}
use rin.Plan.Store.{Store, ready, find_plan, load_plan, unfinished_count}
use rin.Plan.Store.Plans.{
  ReviseInput, StatusInput, rebase, with_status, status_change, revised, commit, revise, set_status,
  store_evidence, apply_trusted_evidence,
}
use rin.Plan.Store.Rows.{load_plan-eq, find_plan-id}
use rin.Plan.Store.{OperationLink}
use rin.Plan.Store.Links.{insert_link}
use rin.Plan.Store.Evolution.{Moves, Change, same_plans, commit-Change}
use rin.Plan.Store.Evolution.Steps.{new_plan-eq, with_status-Moves}

revised-Moves :
    (codec : Codec) (current : PlanState) (draft : Draft) (now : ℕ) {next : PlanState}
    → terminal_plan_status current.status ≡ false
    → revised codec current draft now ≡ ok next
    → Moves current next
unfolding revised rebase
revised-Moves codec current draft now unfinished e =
    let (fresh, made, e1) = >>=-eq-ok (new_plan codec (rebase current draft) now) _ e in
    let next : PlanState = record fresh {
      created_at = current.created_at;
      revision = current.revision + 1;
      replan_count = current.replan_count + 1;
    } in
    let (_, e2) = >>-eq-ok (validate_plan codec next) (ok next) e1 in
    let (backed, id) = new_plan-eq codec (rebase current draft) now made in
    rw (← ok-inj e2) (record {
      advances = record { same_plan = id; moved = inr (omega arith, unfinished) };
      keeps_backed =
          λ _. record { steps_backed = backed.steps_backed; plan_backed = backed.plan_backed };
    })

not-false : (a : Bool) → not a ≡ true → a ≡ false
not-false a h = ground (arith, h)

or-false : (a b : Bool) → (a || b) ≡ false → a ≡ false
or-false a b h = ground (arith, h)

pub revise-Change :
    (codec : Codec) (input : ReviseInput) (now : ℕ) (store : Store) {after : Store}
    {state : PlanState}
    → revise codec input now store ≡ ok (after, state)
    → Change store.plans after.plans
unfolding revise
revise-Change codec input now store e =
    let (_, e1) = >>-eq-ok (require_text input.summary 500 true) _ e in
    let (_, e2) = >>-eq-ok (ready store) _ e1 in
    let (current, loaded, e3) = >>=-eq-ok (load_plan codec input.plan_id store.plans) _ e2 in
    let (_, e4) = >>-eq-ok (require (current.revision == input.expected_revision) conflict) _ e3 in
    let (goes_on, e5) =
      >>-eq-ok
        (require
          (not
            (terminal_plan_status current.status || leb current.max_replans current.replan_count))
          conflict)
        _ e4 in
    let (_, e6) =
      >>-eq-ok (require (unfinished_count current.plan_id store.operations == 0) conflict) _ e5 in
    let (next, made, e7) = >>=-eq-ok (revised codec current input.draft now) _ e6 in
    let (committed, done, e8) =
      >>=-eq-ok (commit codec current.revision next _ input.summary none "" now store) _ e7 in
    let (found, _) = load_plan-eq codec input.plan_id store.plans loaded in
    let at_id =
      subst (λ i. find_plan i store.plans ≡ some current)
        (sym (find_plan-id input.plan_id store.plans found)) found in
    let unfinished = or-false _ _ (not-false _ (require-eq-ok _ conflict goes_on)) in
    subst (λ (s : Store). Change store.plans s.plans) (ap (λ p. p.0) (ok-inj e8))
      (commit-Change codec current.revision current next _ input.summary none "" now store at_id
        (revised-Moves codec current input.draft now unfinished made) done)

-- The plan that a load found stands under its own identifier.
pub loaded-at :
    (codec : Codec) (id : String) (store : Store) {state : PlanState}
    → load_plan codec id store.plans ≡ ok state
    → find_plan state.plan_id store.plans ≡ some state
loaded-at codec id store {state} loaded =
    let (found, _) = load_plan-eq codec id store.plans loaded in
    subst (λ i. find_plan i store.plans ≡ some state) (sym (find_plan-id id store.plans found))
      found

settable-open :
    (status : PlanStatus)
    → (plan_status_eq status paused
        || (plan_status_eq status active || plan_status_eq status cancelled))
      ≡ true
    → status ≢ completed
unfolding plan_status_eq
settable-open status h e = ground (arith, h, e)

and-right : (a b : Bool) → (a && b) ≡ true → b ≡ true
and-right a b h = ground (arith, h)

pub set_status-Change :
    (codec : Codec) (input : StatusInput) (now : ℕ) (store : Store) {after : Store}
    {state : PlanState}
    → set_status codec input now store ≡ ok (after, state)
    → Change store.plans after.plans
unfolding set_status
set_status-Change codec input now store e =
    let (settable, e1) =
      >>-eq-ok
        (require
          (plan_status_eq input.status paused
            || (plan_status_eq input.status active || plan_status_eq input.status cancelled))
          invalid)
        _ e in
    let (_, e2) = >>-eq-ok (require_text input.summary 500 true) _ e1 in
    let (_, e3) = >>-eq-ok (ready store) _ e2 in
    let (state, loaded, e4) = >>=-eq-ok (load_plan codec input.plan_id store.plans) _ e3 in
    let (fresh, e5) =
      >>-eq-ok
        (require
          ((state.revision == input.expected_revision) && not (terminal_plan_status state.status))
          conflict)
        _ e4 in
    let (_, e6) = >>-eq-ok (require (status_change state.status input.status) conflict) _ e5 in
    let (_, e7) =
      >>-eq-ok
        (require
          (not (plan_status_eq input.status cancelled)
            || (unfinished_count state.plan_id store.operations == 0))
          conflict)
        _ e6 in
    let next = with_status input.status now state in
    let (_, e8) = >>-eq-ok (validate_plan codec next) _ e7 in
    let (committed, done, e9) =
      >>=-eq-ok
        (commit codec input.expected_revision next _ input.summary none "" next.updated_at store) _
        e8 in
    let unfinished = not-false _ (and-right _ _ (require-eq-ok _ conflict fresh)) in
    subst (λ (s : Store). Change store.plans s.plans) (ap (λ p. p.0) (ok-inj e9))
      (commit-Change codec input.expected_revision state next _ input.summary none ""
        next.updated_at store (loaded-at codec input.plan_id store loaded)
        (with_status-Moves input.status now state
          (settable-open input.status (require-eq-ok _ invalid settable)) unfinished)
        done)

store_evidence-Change :
    (codec : Codec) (state : PlanState) (evidence : PlanEvidence) (summary : String) (store : Store)
    (next : PlanState) (changed : Bool) {after : Store} {result : PlanState}
    → find_plan state.plan_id store.plans ≡ some state
    → Moves state next
    → store_evidence codec state evidence summary store (next, changed) ≡ ok (after, result)
    → Change store.plans after.plans
unfolding store_evidence
store_evidence-Change codec state evidence summary store next changed found moves e =
    elim (Bool-cases (not changed && (next.revision == state.revision))) [
      | inl same ↦
          subst (λ (s : Store). Change store.plans s.plans)
            (ap (λ p. p.0) (ok-inj (rw (same, store_evidence) at e))) (same_plans refl)
      | inr new ↦
          let (committed, done, e1) =
            >>=-eq-ok
              (commit codec state.revision next "plan.evidence" summary (some evidence)
                evidence.operation_id next.updated_at store)
              _ (rw (new, store_evidence) at e) in
          subst (λ (s : Store). Change store.plans s.plans) (ap (λ p. p.0) (ok-inj e1))
            (commit-Change codec state.revision state next "plan.evidence" summary (some evidence)
              evidence.operation_id next.updated_at store found moves done)
    ]

pub apply_trusted_evidence-Change :
    (codec : Codec) (id : String) (expected : ℕ) (evidence : PlanEvidence) (summary : String)
    (now : ℕ) (store : Store) {after : Store} {state : PlanState}
    → apply_trusted_evidence codec id expected evidence summary now store ≡ ok (after, state)
    → Change store.plans after.plans
unfolding apply_trusted_evidence
apply_trusted_evidence-Change codec id expected evidence summary now store e =
    let (_, e1) = >>-eq-ok (require_text summary 500 true) _ e in
    let (_, e2) = >>-eq-ok (ready store) _ e1 in
    let (state, loaded, e3) = >>=-eq-ok (load_plan codec id store.plans) _ e2 in
    let (_, e4) = >>-eq-ok (require (state.revision == expected) conflict) _ e3 in
    let ((next, changed), applied, e5) = >>=-eq-ok (apply_evidence codec state evidence now) _ e4 in
    store_evidence-Change codec state evidence summary store next changed
      (loaded-at codec id store loaded)
      (record {
        advances = apply_evidence-Advances codec state evidence now applied;
        keeps_backed = λ h. apply_evidence-IsBacked codec state evidence now h applied;
      })
      e5

pub insert_link-plans :
    (link : OperationLink) (store : Store) {after : Store}
    → insert_link link store ≡ ok after
    → after.plans ≡ store.plans
unfolding insert_link
insert_link-plans link store e = ground (arith, e)
