-- ===== src/Plan/Store/Evolution/Reached.antt =====
-- taskstate/store.go: the stores that the operations reach from an empty one.
use rin.Common.{ℕ, ◌≡◌, String, Bool, true, [], some, arith, ap, ◌∙◌, inl, inr}
use rin.Plan.{ok, PlanState, PlanEvidence, Draft}
use rin.Plan.Codec.{Codec}
use rin.Plan.Validation.{terminal_plan_status}
use rin.Plan.Progress.Backed.{IsBacked}
use rin.Plan.Progress.Advances.{Advances, Advances-refl, Advances-trans}
use rin.Plan.Store.{Store, OperationLink, find_plan}
use rin.Plan.Store.Plans.{
  ReviseInput, StatusInput, create, revise, set_status, apply_trusted_evidence,
}
use rin.Plan.Store.Links.{link_operation, reconcile_operation_link}
use rin.Plan.Store.Results.{OperationResult, apply_operation_result}
use rin.Plan.Store.Evolution.{Change, Change-Advances, AllBacked, Change-AllBacked}
use rin.Plan.Store.Evolution.Steps.{create-Change}
use rin.Plan.Store.Evolution.Operations.{
  revise-Change, set_status-Change, apply_trusted_evidence-Change,
}
use rin.Plan.Store.Evolution.Outcomes.{
  link_operation-Change, reconcile-Change, apply_operation_result-Change,
}

-- One operation of the store that succeeds.
pub data Step (codec : Codec) (store after : Store) : Type 0 where
  created :
      (draft : Draft) (now : ℕ) (state : PlanState)
      → create codec draft now store ≡ ok (after, state)
      → Step codec store after
  revised_plan :
      (input : ReviseInput) (now : ℕ) (state : PlanState)
      → revise codec input now store ≡ ok (after, state)
      → Step codec store after
  changed_status :
      (input : StatusInput) (now : ℕ) (state : PlanState)
      → set_status codec input now store ≡ ok (after, state)
      → Step codec store after
  proved :
      (id : String) (expected : ℕ) (evidence : PlanEvidence) (summary : String) (now : ℕ)
      (state : PlanState)
      → apply_trusted_evidence codec id expected evidence summary now store ≡ ok (after, state)
      → Step codec store after
  linked :
      (link : OperationLink) → link_operation codec link store ≡ ok after → Step codec store after
  reconciled :
      (link : OperationLink)
      → reconcile_operation_link codec link store ≡ ok after
      → Step codec store after
  resulted :
      (result : OperationResult) (now : ℕ) (state : PlanState) (changed : Bool)
      → apply_operation_result codec result now store ≡ ok (after, (state, changed))
      → Step codec store after

pub data Reach (codec : Codec) (start : Store) : Store → Type 0 where
  here : Reach codec start start
  next :
      {store : Store}
      → Reach codec start store
      → {after : Store} → Step codec store after
      → Reach codec start after

Step-Change :
    (codec : Codec) (store after : Store) → Step codec store after → Change store.plans after.plans
Step-Change codec store after (created draft now state e) = create-Change codec draft now store e
Step-Change codec store after (revised_plan input now state e) =
    revise-Change codec input now store e
Step-Change codec store after (changed_status input now state e) =
    set_status-Change codec input now store e
Step-Change codec store after (proved id expected evidence summary now state e) =
    apply_trusted_evidence-Change codec id expected evidence summary now store e
Step-Change codec store after (linked link e) = link_operation-Change codec link store e
Step-Change codec store after (reconciled link e) = reconcile-Change codec link store e
Step-Change codec store after (resulted result now state changed e) =
    apply_operation_result-Change codec result now store e

Reach-AllBacked :
    (codec : Codec) (start store : Store)
    → start.plans ≡ []
    → Reach codec start store
    → AllBacked store.plans
unfolding find_plan
Reach-AllBacked codec start store e here = λ id state found. absurd (ground (arith, e, found))
Reach-AllBacked codec start after e (next {store} r step) =
    Change-AllBacked store.plans after.plans (Step-Change codec store after step)
      (Reach-AllBacked codec start store e r)

-- In every store that the operations reach from one without plans, each step of a plan that is
-- completed has evidence of all its conditions; and a plan that is completed has only completed and
-- skipped steps, and evidence of all its own conditions.
pub Reach-IsBacked :
    (codec : Codec) (start store : Store) (id : String) (state : PlanState)
    → start.plans ≡ []
    → Reach codec start store
    → find_plan id store.plans ≡ some state
    → IsBacked state
Reach-IsBacked codec start store id state e r = Reach-AllBacked codec start store e r id state

-- Whatever operations follow, a plan of the store stays in it, as it is or at a greater revision; and
-- only a plan that was not at its end ever comes to a greater revision.
pub Reach-Advances :
    (codec : Codec) (store later : Store) (id : String) (state : PlanState)
    → Reach codec store later
    → find_plan id store.plans ≡ some state
    → (then : PlanState) × (find_plan id later.plans ≡ some then) × Advances state then
Reach-Advances codec store later id state here found = (state, found, Advances-refl state)
Reach-Advances codec store later id state (next {store = middle} r step) found =
    let (between, at_middle, first) = Reach-Advances codec store middle id state r found in
    let (last, at_last, second) =
      Change-Advances middle.plans later.plans id (Step-Change codec middle later step) at_middle in
    (last, at_last, Advances-trans state between last first second)

-- A plan at its end never changes again: whatever operations follow, the store holds the same plan.
pub Reach-frozen :
    (codec : Codec) (store later : Store) (id : String) (state : PlanState)
    → Reach codec store later
    → find_plan id store.plans ≡ some state
    → terminal_plan_status state.status ≡ true
    → find_plan id later.plans ≡ some state
Reach-frozen codec store later id state r found ended =
    let (last, at_last, moves) = Reach-Advances codec store later id state r found in
    elim moves.moved [
      | inl same ↦ at_last ∙ ap some same
      | inr (_, unfinished) ↦ absurd (ground (arith, ended, unfinished))
    ]
