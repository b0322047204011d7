-- ===== src/Plan/Store/Evolution.antt =====
-- taskstate/store.go: what each operation of the store does to the plans, and what holds of every store
-- that the operations reach.
pub mod Steps
pub mod Operations
pub mod Outcomes
pub mod Reached
pub mod Replay
pub mod Lost
use rin.Common.{
  ℕ, suc, ◌+◌, ◌≡◌, refl, sym, ap, subst, ◌∙◌, String, Bool, true, false, not, ◌&&◌, ◌||◌, List, [],
  ◌∷◌, ◌++◌, Option, none, some, arith, inl, inr, Bool-cases, Option-cases, eq_iff, eq_refl, leb,
  ltb, ◌==◌, ◌=ₛ◌, ◌⋯◌, if◌then◌else◌, length,
}
use rin.Host.{ActionOutcome, RunStatus, run_status_eq}
use rin.Plan.{
  Result, ok, err, ok-inj, err-not-ok, require-eq-ok, >>=-eq-ok, >>-eq-ok, PlanState, PlanEvidence,
}
use rin.Plan.Codec.{Codec}
use rin.Plan.Validation.{validate_plan}
use rin.Plan.Progress.{apply_evidence}
use rin.Plan.Progress.Backed.{IsBacked, apply_evidence-IsBacked}
use rin.Plan.Progress.Advances.{
  Advances, Advances-refl, Advances-trans, apply_evidence-Advances, apply_failure-Advances,
}
use rin.Plan.Failures.{apply_failure}
use rin.Plan.Failures.Limits.{apply_failure-IsBacked}
use rin.Plan.Store.{find_plan, insert_event, replace_plan, Store}
use rin.Plan.Store.Plans.{commit}
use rin.Plan.Store.Results.{apply_conditions, apply_outcome, outcome_evidence, run_status_name}
use rin.Plan.Store.Rows.{
  find_plan-append, find_plan-append_new, some-inj, replace_plan-eq, insert_event-plans,
}

-- A plan moves on, and stays backed if it was.
pub record Moves (old new : PlanState) : Type 0 where
  pub advances : Advances old new
  pub keeps_backed : IsBacked old → IsBacked new

pub Moves-refl : (state : PlanState) → Moves state state
Moves-refl state = record { advances = Advances-refl state; keeps_backed = λ h. h }

-- What an operation may do to the table of plans.
pub data Change (before after : List PlanState) : Type 0 where
  same_plans : after ≡ before → Change before after
  added : (state : PlanState) → IsBacked state → after ≡ before ++ state ∷ [] → Change before after
  replaced :
      (old new : PlanState)
      → find_plan old.plan_id before ≡ some old
      → Moves old new
      → ((id : String)
          → find_plan id after ≡ (if new.plan_id =ₛ id then some new else find_plan id before))
      → Change before after

-- A plan of the table is still there, at the same or at a later revision.
pub Change-Advances :
    (before after : List PlanState) (id : String) {state : PlanState}
    → Change before after
    → find_plan id before ≡ some state
    → (later : PlanState) × (find_plan id after ≡ some later) × Advances state later
Change-Advances before after id {state} (same_plans e) found =
    (state, rw e found, Advances-refl state)
Change-Advances before after id {state} (added new backed e) found =
    (state, rw e (find_plan-append id before new found), Advances-refl state)
Change-Advances before after id {state} (replaced old new at_old moves look) found =
    elim (Bool-cases (new.plan_id =ₛ id)) [
      | inl here ↦
          let id_eq = (eq_iff new.plan_id id).0 here in
          let at_id =
            subst (λ i. find_plan i before ≡ some old) (sym moves.advances.same_plan ∙ id_eq)
              at_old in
          (
            new,
            ground (arith, here, look id),
            subst (λ s. Advances s new) (some-inj (sym at_id ∙ found)) moves.advances,
          )
      | inr there ↦ (state, ground (arith, there, look id, found), Advances-refl state)
    ]

-- Every plan of the table is backed.
abbrev pub AllBacked : List PlanState → Type 0
AllBacked plans =
    (id : String) (state : PlanState) → find_plan id plans ≡ some state → IsBacked state

pub Change-AllBacked :
    (before after : List PlanState) → Change before after → AllBacked before → AllBacked after
Change-AllBacked before after (same_plans e) h id state found = h id state (rw e at found)
Change-AllBacked before after (added new backed e) h id state found =
    elim (Option-cases (find_plan id before)) [
      | inl missing ↦
          subst IsBacked (sym (find_plan-append_new id before new missing (rw e at found))) backed
      | inr (row, kept) ↦
          let same = find_plan-append id before new kept in
          subst IsBacked (some-inj (sym same ∙ rw e at found)) (h id row kept)
    ]
Change-AllBacked before after (replaced old new at_old moves look) h id state found =
    elim (Bool-cases (new.plan_id =ₛ id)) [
      | inl here ↦
          let id_eq = (eq_iff new.plan_id id).0 here in
          let at_id =
            subst (λ i. find_plan i before ≡ some old) (sym moves.advances.same_plan ∙ id_eq)
              at_old in
          let now_new : find_plan id after ≡ some new = ground (arith, here, look id) in
          subst IsBacked (some-inj (sym now_new ∙ found)) (moves.keeps_backed (h id old at_id))
      | inr there ↦ h id state (ground (arith, there, look id, found))
    ]

apply_conditions-Moves :
    (codec : Codec) (outcome : ActionOutcome) (digest : String) (now : ℕ) (ids : List String)
    (state : PlanState) {next : PlanState}
    → apply_conditions codec outcome digest now ids state ≡ ok next
    → Moves state next
unfolding apply_conditions
apply_conditions-Moves codec outcome digest now [] state e = rw (← ok-inj e) (Moves-refl state)
apply_conditions-Moves codec outcome digest now (id ∷ ids) state {next} e =
    let evidence = outcome_evidence outcome digest (outcome.operation_id ⋯ "." ⋯ id) now id in
    let ((middle, advanced), first, rest) =
      >>=-eq-ok (apply_evidence codec state evidence now) _ e in
    let later = apply_conditions-Moves codec outcome digest now ids middle rest in
    record {
      advances =
          Advances-trans state middle next (apply_evidence-Advances codec state evidence now first)
            later.advances;
      keeps_backed =
          λ h. later.keeps_backed (apply_evidence-IsBacked codec state evidence now h first);
    }

-- What an outcome makes of the plan that its link fits.
pub apply_outcome-Moves :
    (codec : Codec) (outcome : ActionOutcome) (digest : String) (now : ℕ) (ids : List String)
    (state : PlanState) {next : PlanState} {changed : Bool}
    → apply_outcome codec outcome digest now ids state ≡ ok (next, changed)
    → Moves state next
unfolding apply_outcome
apply_outcome-Moves codec outcome digest now ids state e =
    elim (Bool-cases (run_status_eq outcome.status RunStatus.succeeded)) [
      | inl success ↦
          let (done, applied, same) =
            >>=-eq-ok (apply_conditions codec outcome digest now ids state) _
              (rw (success, apply_outcome) at e) in
          subst (Moves state) (ap (λ p. p.0) (ok-inj same))
            (apply_conditions-Moves codec outcome digest now ids state applied)
      | inr failure ↦
          let family = run_status_name outcome.status in
          let code = if outcome.code =ₛ "" then family else outcome.code in
          let (done, applied, same) =
            >>=-eq-ok (apply_failure codec state outcome.operation_id family code now) _
              (rw (failure, apply_outcome) at e) in
          subst (Moves state) (ap (λ p. p.0) (ok-inj same)) (record {
            advances =
                apply_failure-Advances codec state outcome.operation_id family code now applied;
            keeps_backed = λ h.
                apply_failure-IsBacked codec state outcome.operation_id family code now h applied;
          })
    ]

-- `commit` replaces the row of the plan that was loaded.
pub commit-Change :
    (codec : Codec) (expected : ℕ) (old new : PlanState) (kind summary : String)
    (evidence : Option PlanEvidence) (operation_id : String) (now : ℕ) (store : Store)
    {after : Store}
    → find_plan old.plan_id store.plans ≡ some old
    → Moves old new
    → commit codec expected new kind summary evidence operation_id now store ≡ ok after
    → Change store.plans after.plans
unfolding commit
commit-Change codec expected old new kind summary evidence operation_id now store found moves e =
    let (plans, at_plans, rest) = >>=-eq-ok (replace_plan expected new store.plans) _ e in
    let (same, _, _) =
      insert_event-plans new kind summary evidence operation_id now (record store { plans = plans })
        rest in
    replaced old new found moves
      (λ id. rw same (replace_plan-eq expected new store.plans at_plans id))
