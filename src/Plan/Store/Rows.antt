-- ===== src/Plan/Store/Rows.antt =====
-- taskstate/store.go: what the statements of the store do to the rows.
use rin.Common.{
  ℕ, ◌≡◌, refl, String, true, List, [], ◌∷◌, ◌++◌, Option, none, some, arith, inl, inr, Bool-cases,
  Option-cases, eq_iff, ◌=ₛ◌, if◌then◌else◌,
}
use rin.Plan.{Result, ok, err, ok-inj, err-not-ok, conflict, >>=-eq-ok, PlanEvidence, PlanState}
use rin.Plan.Codec.{Codec}
use rin.Plan.Validation.{validate_plan}
use rin.Plan.Store.{
  OperationRow, Store, find_plan, replace_plan, decode_stored_plan, load_plan, insert_event,
  find_operation,
}
use rin.Plan.Store.Results.{finish_operation}

pub find_plan-id :
    (id : String) (plans : List PlanState) {state : PlanState}
    → find_plan id plans ≡ some state
    → state.plan_id ≡ id
unfolding find_plan
find_plan-id id [] e = ground (arith, e)
find_plan-id id (row ∷ plans) e = elim (Bool-cases (row.plan_id =ₛ id)) [
  | inl here ↦ ground (arith, here, e, eq_iff row.plan_id id)
  | inr there ↦ find_plan-id id plans (rw (there, find_plan) at e)
]

pub load_plan-eq :
    (codec : Codec) (id : String) (plans : List PlanState) {state : PlanState}
    → load_plan codec id plans ≡ ok state
    → (find_plan id plans ≡ some state) × (validate_plan codec state ≡ ok tt)
unfolding load_plan decode_stored_plan
load_plan-eq codec id plans e = elim (Option-cases (find_plan id plans)) [
  | inl missing ↦ err-not-ok (rw (missing, load_plan) at e)
  | inr (row, found) ↦
      decoded (validate_plan codec row) row found refl
        (rw (found, load_plan, decode_stored_plan) at e)
]
  where
    decoded :
        (check : Result (Unit {0})) (row : PlanState) {state : PlanState}
        → find_plan id plans ≡ some row
        → validate_plan codec row ≡ check
        → ◌≡◌ {A = Result PlanState}
            (elim check [ err e ↦ err rin.Plan.persist | ok _ ↦ ok row ])
            (ok state)
        → (find_plan id plans ≡ some state) × (validate_plan codec state ≡ ok tt)
    decoded (ok _) row found valid e = rw (← ok-inj e) (found, valid)
    decoded (err _) row found valid e = err-not-ok e

-- A successful update found the row with the expected revision, and changed that row alone.
pub replace_plan-eq :
    (expected : ℕ) (next : PlanState) (plans : List PlanState) {after : List PlanState}
    → replace_plan expected next plans ≡ ok after
    → (id : String)
    → find_plan id after ≡ (if next.plan_id =ₛ id then some next else find_plan id plans)
unfolding replace_plan find_plan
replace_plan-eq expected next [] e id = err-not-ok e
replace_plan-eq expected next (row ∷ plans) e id = elim (Bool-cases (row.plan_id =ₛ next.plan_id)) [
  | inl here ↦ ground (arith, here, e, eq_iff row.plan_id next.plan_id)
  | inr there ↦
      let (rest, replaced, same) =
        >>=-eq-ok (replace_plan expected next plans) _ (rw (there, replace_plan) at e) in
      ground (
        arith,
        there,
        ok-inj same,
        replace_plan-eq expected next plans replaced id,
        eq_iff row.plan_id next.plan_id,
        eq_iff row.plan_id id,
        eq_iff next.plan_id id,
      )
]

pub insert_event-plans :
    (state : PlanState) (kind summary : String) (evidence : Option PlanEvidence)
    (operation_id : String) (now : ℕ) (store : Store) {after : Store}
    → insert_event state kind summary evidence operation_id now store ≡ ok after
    → (after.plans ≡ store.plans)
      × (after.operations ≡ store.operations)
      × (after.is_closed ≡ store.is_closed)
unfolding insert_event
insert_event-plans state kind summary evidence operation_id now store e = ground (arith, e)

pub find_plan-append :
    (id : String) (plans : List PlanState) (state : PlanState) {row : PlanState}
    → find_plan id plans ≡ some row
    → find_plan id (plans ++ state ∷ []) ≡ some row
unfolding find_plan
find_plan-append id [] state e = ground (arith, e)
find_plan-append id (x ∷ plans) state e = elim (Bool-cases (x.plan_id =ₛ id)) [
  | inl here ↦ ground (arith, here, e)
  | inr there ↦ ground (arith, there, find_plan-append id plans state (rw (there, find_plan) at e))
]

pub find_plan-append_new :
    (id : String) (plans : List PlanState) (state : PlanState) {row : PlanState}
    → find_plan id plans ≡ none
    → find_plan id (plans ++ state ∷ []) ≡ some row
    → row ≡ state
unfolding find_plan
find_plan-append_new id [] state missing e = ground (arith, e)
find_plan-append_new id (x ∷ plans) state missing e = elim (Bool-cases (x.plan_id =ₛ id)) [
  | inl here ↦ absurd (ground (arith, here, missing))
  | inr there ↦
      find_plan-append_new id plans state (rw (there, find_plan) at missing)
        (rw (there, find_plan) at e)
]

pub some-inj {ℓ} : {A : Type ℓ} {a b : A} → some a ≡ some b → a ≡ b
some-inj h = cc

-- The row of the operation that ends, and no other, is terminal with the digest of its outcome.
pub find-finish_operation :
    (id digest : String) (rows : List OperationRow) {row : OperationRow}
    → find_operation id rows ≡ some row
    → find_operation id (finish_operation id digest rows)
      ≡ some (record row { terminal = true; outcome_digest = digest })
unfolding find_operation finish_operation
find-finish_operation id digest [] e = ground (arith, e)
find-finish_operation id digest (x ∷ rows) e = elim (Bool-cases (x.link.operation_id =ₛ id)) [
  | inl here ↦ ground (arith, here, e)
  | inr there ↦
      ground (arith, there, find-finish_operation id digest rows (rw (there, find_operation) at e))
]
