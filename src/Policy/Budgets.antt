-- ===== src/Policy/Budgets.antt =====
-- policy/engine.go, `reserveBudgets` and `rollbackDeltas`: the usage table, with the variables of
-- the loops as arguments.
pub mod Usage
pub mod Restore
pub mod Loop
pub mod Limits
pub mod Ledger
use rin.Common.{
  ℕ, ◌+◌, ◌-◌, String, Bool, true, false, ◌&&◌, ◌||◌, List, [], ◌∷◌, ◌++◌, Option, none, some, ltb,
  ◌==◌, if◌then◌else◌,
}
use rin.Common.Maps.{Map, lookup, insert, delete}
use rin.Host.{Effect, BoundAction}
use rin.Policy.{
  Budget, Context, EffectiveLimit, BudgetUsage, BudgetDelta, max_uint64, Error, quantity_overflow,
  usage_overflow, Result, ok, err,
}
use rin.Policy.Matching.{budget_matches}
use rin.Policy.Keys.{make_budget_key}

abbrev pub no_usage : BudgetUsage
no_usage = record { actions = 0; quantity = 0 }

abbrev pub or_zero : Option BudgetUsage → BudgetUsage
or_zero none = no_usage
or_zero (some u) = u

-- `engine.usage[key]`: a missing entry reads as zero.
unfoldable pub used : Map BudgetUsage → String → BudgetUsage
used usage key = or_zero (lookup key usage)

-- The body of the loop of `rollbackDeltas`.
unfoldable pub undo : BudgetDelta → Map BudgetUsage → Map BudgetUsage
undo delta usage =
    let current = used usage delta.key in
    if ltb current.actions delta.actions || ltb current.quantity delta.quantity
    then delete delta.key usage
    else if (current.actions - delta.actions == 0) && (current.quantity - delta.quantity == 0)
    then delete delta.key usage
    else insert delta.key
        (record {
          actions = current.actions - delta.actions;
          quantity = current.quantity - delta.quantity;
        })
        usage

-- The loop runs from the last delta to the first.
unfoldable pub rollback_deltas : List BudgetDelta → Map BudgetUsage → Map BudgetUsage
rollback_deltas [] usage = usage
rollback_deltas (delta ∷ deltas) usage = undo delta (rollback_deltas deltas usage)

-- The loop over the effects: whether one matched, and the sum of their quantities.
unfoldable pub sum_matching :
    Budget → BoundAction → Context → List Effect → Bool → ℕ → Result (Bool × ℕ)
sum_matching budget action context [] matched quantity = ok (matched, quantity)
sum_matching budget action context (effect ∷ effects) matched quantity =
    elim (budget_matches budget effect action context) [
      | false ↦ sum_matching budget action context effects matched quantity
      | true ↦ elim (ltb (max_uint64 - quantity) effect.quantity) [
        | true ↦ err quantity_overflow
        | false ↦ sum_matching budget action context effects true (quantity + effect.quantity)
      ]
    ]

-- What one round of the loop over the budgets comes to. `leave` returns with the usage as it
-- stands, `abort` and `exceed` roll the earlier rounds back, `take` reserves.
pub data Round : Type 0 where
  skip : Round
  leave abort : Error → Round
  exceed : Round
  take : String → BudgetUsage → ℕ → EffectiveLimit → Round

unfoldable pub make_limit : Budget → String → BudgetUsage → EffectiveLimit
make_limit budget public_key next = record {
  budget_id = budget.budget_id;
  usage_key = public_key;
  max_actions = budget.max_actions;
  actions_used = next.actions;
  actions_remaining = if ltb 0 budget.max_actions then budget.max_actions - next.actions else 0;
  max_quantity = budget.max_quantity;
  quantity_used = next.quantity;
  quantity_remaining = if ltb 0 budget.max_quantity then budget.max_quantity - next.quantity else 0;
}

-- From the lookup of the usage on.
unfoldable pub charge : Budget → String → String → ℕ → BudgetUsage → Round
charge budget key public_key quantity current =
    if (current.actions == max_uint64) || ltb (max_uint64 - current.quantity) quantity
    then abort usage_overflow
    else let next : BudgetUsage = record {
      actions = current.actions + 1;
      quantity = current.quantity + quantity;
    } in
      if (ltb 0 budget.max_actions && ltb budget.max_actions next.actions)
        || (ltb 0 budget.max_quantity && ltb budget.max_quantity next.quantity)
      then exceed
      else take key next quantity (make_limit budget public_key next)

module _ (digest : String → String) where
  unfoldable pub budget_round : Budget → BoundAction → Context → Map BudgetUsage → Round
  budget_round budget action context usage =
      elim (sum_matching budget action context action.effects false 0) [
        | err e ↦ leave e
        | ok (matched, quantity) ↦ elim matched [
          | false ↦ skip
          | true ↦ elim (make_budget_key digest budget action context) [
            | err e ↦ abort e
            | ok (key, public_key) ↦ charge budget key public_key quantity (used usage key)
          ]
        ]
      ]

pub data Reservation : Type 0 where
  reserved : List EffectiveLimit → List BudgetDelta → Reservation
  exceeded : String → Reservation
  failed : Error → Reservation

-- The loop over the budgets, with `limits`, `deltas` and the usage so far. A refusal names the
-- budget, from which the caller makes the decision.
module _ (digest : String → String) (action : BoundAction) (context : Context) where
  unfoldable pub reserve_from :
      List Budget
      → List EffectiveLimit
      → List BudgetDelta
      → Map BudgetUsage
      → Reservation × Map BudgetUsage
  reserve_from [] limits deltas usage = (reserved limits deltas, usage)
  reserve_from (budget ∷ budgets) limits deltas usage =
      elim (budget_round digest budget action context usage) [
        | skip ↦ reserve_from budgets limits deltas usage
        | leave e ↦ (failed e, usage)
        | abort e ↦ (failed e, rollback_deltas deltas usage)
        | exceed ↦ (exceeded budget.budget_id, rollback_deltas deltas usage)
        | take key next quantity limit ↦
            reserve_from budgets (limits ++ limit ∷ [])
              (deltas ++ record { key = key; actions = 1; quantity = quantity } ∷ [])
              (insert key next usage)
      ]

  unfoldable pub reserve_budgets : List Budget → Map BudgetUsage → Reservation × Map BudgetUsage
  reserve_budgets budgets usage = reserve_from budgets [] [] usage
