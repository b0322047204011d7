-- ===== src/Policy/Budgets/Loop.antt =====
-- The rule for an invariant of the loop over the budgets.
use rin.Common.{ℕ, ◌≡◌, refl, String, List, [], ◌∷◌, ◌++◌}
use rin.Common.Maps.{Map, insert}
use rin.Host.{BoundAction}
use rin.Policy.{Budget, Context, EffectiveLimit, BudgetUsage, BudgetDelta}
use rin.Policy.Budgets.{
  Round, skip, leave, abort, exceed, take, budget_round, Reservation, reserved, exceeded, failed,
  reserve_from,
}

-- `P` of what was reserved; nothing is said of a reservation that did not succeed.
abbrev pub Holds :
    (List EffectiveLimit → List BudgetDelta → Map BudgetUsage → Type 0)
    → Reservation × Map BudgetUsage
    → Type 0
Holds P (reserved ls ds, u) = P ls ds u
Holds P (exceeded id, u) = Unit {0}
Holds P (failed e, u) = Unit {0}

module _ (digest : String → String) (action : BoundAction) (context : Context)
    (P : List EffectiveLimit → List BudgetDelta → Map BudgetUsage → Type 0)
    (keep : (budget : Budget) (ls : List EffectiveLimit) (ds : List BudgetDelta)
        (u : Map BudgetUsage) (k : String) (next : BudgetUsage) (q : ℕ) (limit : EffectiveLimit)
      → budget_round digest budget action context u ≡ take k next q limit
      → P ls ds u
      → P
          (ls ++ limit ∷ [])
          (ds ++ record { key = k; actions = 1; quantity = q } ∷ [])
          (insert k next u)) where
  abbrev Ends : List Budget → List EffectiveLimit → List BudgetDelta → Map BudgetUsage → Type 0
  Ends budgets ls ds u = Holds P (reserve_from digest action context budgets ls ds u)

  after_round :
      (budget : Budget) (budgets : List Budget) (ls : List EffectiveLimit) (ds : List BudgetDelta)
      (u : Map BudgetUsage) (r : Round)
      → budget_round digest budget action context u ≡ r
      → P ls ds u
      → ((ls₁ : List EffectiveLimit) (ds₁ : List BudgetDelta) (u₁ : Map BudgetUsage)
          → P ls₁ ds₁ u₁
          → Ends budgets ls₁ ds₁ u₁)
      → Ends (budget ∷ budgets) ls ds u
  unfolding reserve_from
  after_round budget budgets ls ds u skip e h rest = rw (e, reserve_from) (rest ls ds u h)
  after_round budget budgets ls ds u (leave x) e h rest = rw (e, reserve_from) tt
  after_round budget budgets ls ds u (abort x) e h rest = rw (e, reserve_from) tt
  after_round budget budgets ls ds u exceed e h rest = rw (e, reserve_from) tt
  after_round budget budgets ls ds u (take k next q limit) e h rest =
      rw (e, reserve_from)
        (rest (ls ++ limit ∷ []) (ds ++ record { key = k; actions = 1; quantity = q } ∷ [])
          (insert k next u) (keep budget ls ds u k next q limit e h))

  -- What every reservation keeps holds of a loop that reserves.
  pub reserve_from_invariant :
      (budgets : List Budget) (ls : List EffectiveLimit) (ds : List BudgetDelta)
      (u : Map BudgetUsage)
      → P ls ds u
      → Holds P (reserve_from digest action context budgets ls ds u)
  reserve_from_invariant [] ls ds u h = unfold reserve_from in h
  reserve_from_invariant (budget ∷ budgets) ls ds u h =
      after_round budget budgets ls ds u (budget_round digest budget action context u) refl h
        (reserve_from_invariant budgets)
