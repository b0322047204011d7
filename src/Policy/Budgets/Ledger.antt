-- ===== src/Policy/Budgets/Ledger.antt =====
-- What a reservation adds to the usage table is just what its deltas say.
use rin.Common.{ℕ, ◌+◌, ◌≡◌, String, List, [], ◌∷◌, ◌++◌, arith, eq_iff}
use rin.Common.Maps.{Map, insert}
use rin.Host.{BoundAction}
use rin.Policy.{Budget, Context, EffectiveLimit, BudgetUsage, BudgetDelta}
use rin.Policy.Budgets.{used, take, budget_round, reserve_budgets}
use rin.Policy.Budgets.Usage.{
  used-insert, actions_at, quantity_at, actions_at-append, quantity_at-append,
}
use rin.Policy.Budgets.Restore.{budget_round-take}
use rin.Policy.Budgets.Loop.{Holds, reserve_from_invariant}

-- Bucket by bucket, `u` is `u₀` and the deltas.
abbrev pub Adds :
    Map BudgetUsage → List EffectiveLimit → List BudgetDelta → Map BudgetUsage → Type 0
Adds u₀ ls ds u =
    (k : String)
    → ((used u k).actions ≡ (used u₀ k).actions + actions_at k ds)
      × ((used u k).quantity ≡ (used u₀ k).quantity + quantity_at k ds)

module _ (digest : String → String) (action : BoundAction) (context : Context) where
  Adds-take :
      (u₀ : Map BudgetUsage) (budget : Budget) (ls : List EffectiveLimit) (ds : List BudgetDelta)
      (u : Map BudgetUsage) (k : String) (next : BudgetUsage) (q : ℕ) (limit : EffectiveLimit)
      → budget_round digest budget action context u ≡ take k next q limit
      → Adds u₀ ls ds u
      → Adds u₀
          (ls ++ limit ∷ [])
          (ds ++ record { key = k; actions = 1; quantity = q } ∷ [])
          (insert k next u)
  Adds-take u₀ budget ls ds u k next q limit e h j =
      let d : BudgetDelta = record { key = k; actions = 1; quantity = q } in
      ground (
        arith,
        used-insert k j next u,
        eq_iff k j,
        budget_round-take digest action context budget u k next q limit e,
        actions_at-append j ds d,
        quantity_at-append j ds d,
        h j,
      )

  pub reserve_budgets-Adds :
      (budgets : List Budget) (u : Map BudgetUsage)
      → Holds (Adds u) (reserve_budgets digest action context budgets u)
  unfolding reserve_budgets
  reserve_budgets-Adds budgets u =
      reserve_from_invariant digest action context (Adds u) (Adds-take u) budgets [] [] u
        (λ k. omega arith)
