-- ===== src/Plan/Store/Links.antt =====
-- taskstate/store.go: the links between operations of the control plane and steps of a plan:
-- `LinkOperation` and `ReconcileOperationLink`.
use Prim.Native.Nat.{Ordering}
use rin.Common.{
  String, Bool, true, false, not, ◌&&◌, ◌||◌, List, [], ◌∷◌, ◌++◌, none, some, leb, ◌==◌, ◌=ₛ◌,
  if◌then◌else◌, all, length,
}
use rin.Plan.{
  invalid, conflict, Result, ok, err, ◌>>=◌, ◌>>◌, require, active, operation_outcome, PlanState,
}
use rin.Plan.Codec.{Codec, plan_status_eq}
use rin.Plan.Checks.{max_wire_integer, require_text, validate_text, condition_in_list}
use rin.Plan.Steps.{current_step}
use rin.Plan.Store.{OperationLink, OperationRow, Store, ready, load_plan, find_operation}

-- The order of Go's strings, which is the order of their bytes.
abbrev string_le : String → String → Bool
string_le a b = elim (Prim.Native.String.compare a b) [ Ordering.gt ↦ false | _ ↦ true ]

abbrev insert_sorted : String → List String → List String
insert_sorted x [] = x ∷ []
insert_sorted x (y ∷ ys) = elim (string_le x y) [
  | true ↦ x ∷ y ∷ ys
  | false ↦ y ∷ insert_sorted x ys
]

-- `slices.Sort`
unfoldable pub sort_strings : List String → List String
sort_strings [] = []
sort_strings (x ∷ xs) = insert_sorted x (sort_strings xs)

abbrev pub sorted_link : OperationLink → OperationLink
sorted_link link = record link { condition_ids = sort_strings link.condition_ids }

-- The loop of `validateOperationLink` over the sorted identifiers.
unfoldable pub validate_sorted : List String → Bool
unfolding validate_text
validate_sorted [] = true
validate_sorted (x ∷ []) = validate_text x 128 true
validate_sorted (x ∷ y ∷ ys) =
    validate_text x 128 true && (not (x =ₛ y) && validate_sorted (y ∷ ys))

unfoldable pub validate_operation_link : OperationLink → Result (Unit {0})
unfolding validate_text sort_strings validate_sorted
validate_operation_link link = do
  require_text link.operation_id 256 true
  require_text link.plan_id 256 true
  require_text link.step_id 256 true
  require
      (not (link.plan_revision == 0)
        && (leb link.plan_revision max_wire_integer && leb (length link.condition_ids) 24))
      invalid
  require (validate_sorted (sort_strings link.condition_ids)) invalid

unfoldable pub validate_link_conditions : PlanState → OperationLink → Result (Unit {0})
unfolding current_step condition_in_list
validate_link_conditions state link = elim (current_step state) [
  | none ↦ err conflict
  | some (index, step) ↦
      require
        (all
          (λ (id : String).
            condition_in_list step.success_conditions id operation_outcome
            || condition_in_list state.success_conditions id operation_outcome)
          link.condition_ids)
        invalid
]

-- `slices.Equal`
unfoldable pub strings_equal : List String → List String → Bool
strings_equal [] [] = true
strings_equal [] (y ∷ ys) = false
strings_equal (x ∷ xs) [] = false
strings_equal (x ∷ xs) (y ∷ ys) = (x =ₛ y) && strings_equal xs ys

unfoldable pub operation_links_compatible : OperationLink → OperationLink → Bool
unfolding strings_equal
operation_links_compatible left right =
    (left.operation_id =ₛ right.operation_id)
    && ((left.plan_id =ₛ right.plan_id)
        && ((left.plan_revision == right.plan_revision)
            && ((left.step_id =ₛ right.step_id)
                && ((length left.condition_ids == 0)
                    || ((length right.condition_ids == 0)
                        || strings_equal left.condition_ids right.condition_ids)))))

-- `SELECT COUNT(*) ... WHERE plan_id = ? AND terminal = 0 AND operation_id != ?` is above 0.
unfoldable pub other_unfinished : String → String → List OperationRow → Bool
other_unfinished id operation_id [] = false
other_unfinished id operation_id (row ∷ rows) =
    ((row.link.plan_id =ₛ id) && (not row.terminal && not (row.link.operation_id =ₛ operation_id)))
    || other_unfinished id operation_id rows

-- `INSERT OR IGNORE`, and the comparison with the row that was there.
unfoldable pub insert_link : OperationLink → Store → Result Store
unfolding find_operation operation_links_compatible
insert_link link store = elim (find_operation link.operation_id store.operations) [
  | none ↦ ok (record store {
    operations =
        store.operations ++ record { link = link; terminal = false; outcome_digest = "" } ∷ [];
  })
  | some existing ↦ if operation_links_compatible existing.link link then ok store else err conflict
]

module _ (codec : Codec) where
  unfoldable pub link_operation : OperationLink → Store → Result Store
  unfolding validate_operation_link load_plan validate_link_conditions sort_strings other_unfinished
      insert_link
  link_operation link store = do
    validate_operation_link link
    ready store
    state ← load_plan codec link.plan_id store.plans
    require
        ((state.revision == link.plan_revision)
          && (plan_status_eq state.status active && (state.current_step_id =ₛ link.step_id)))
        conflict
    validate_link_conditions state link
    require (not (other_unfinished link.plan_id link.operation_id store.operations)) conflict
    insert_link (sorted_link link) store

  -- A link that the control plane's own record of the operation restores.
  unfoldable pub reconcile_operation_link : OperationLink → Store → Result Store
  unfolding validate_operation_link load_plan sort_strings insert_link
  reconcile_operation_link link store = do
    validate_operation_link link
    ready store
    state ← load_plan codec link.plan_id store.plans
    require (leb link.plan_revision state.revision) conflict
    insert_link (sorted_link link) store
