-- ===== src/Policy/Budgets/Limits.antt =====
-- The limits that a decision shows agree with the budgets.
use rin.Common.{ℕ, ◌≡◌, String, Bool, not, ◌&&◌, ◌||◌, ◌==◌, List, [], ◌∷◌, arith, All, All-append}
use rin.Common.Maps.{Map}
use rin.Host.{BoundAction}
use rin.Policy.{Budget, Context, EffectiveLimit, BudgetUsage}
use rin.Policy.Budgets.{take, charge, make_limit, budget_round, reserve_budgets}
use rin.Policy.Decisions.{is_json_safe, counters_consistent}
use rin.Policy.Budgets.Loop.{Holds, reserve_from_invariant}

-- The maxima are JSON-safe, and so is what is counted where no maximum bounds it.
abbrev pub is_countable : EffectiveLimit → Bool
is_countable limit =
    is_json_safe limit.max_actions
    && (is_json_safe limit.max_quantity
        && ((not (limit.max_actions == 0) || is_json_safe limit.actions_used)
            && (not (limit.max_quantity == 0) || is_json_safe limit.quantity_used)))

-- The counters pass just when they are small enough to be shown.
abbrev pub Counts : EffectiveLimit → Type 0
Counts limit = counters_consistent limit ≡ is_countable limit

charge-Counts :
    (budget : Budget) (key public_key : String) (q : ℕ) (u : BudgetUsage) (k : String)
    (next : BudgetUsage) (q' : ℕ) (limit : EffectiveLimit)
    → charge budget key public_key q u ≡ take k next q' limit
    → Counts limit
unfolding charge make_limit counters_consistent
charge-Counts budget key public_key q u k next q' limit h = ground arith

module _ (digest : String → String) (action : BoundAction) (context : Context) where
  budget_round-Counts :
      (budget : Budget) (u : Map BudgetUsage) (k : String) (next : BudgetUsage) (q : ℕ)
      (limit : EffectiveLimit)
      → budget_round digest budget action context u ≡ take k next q limit
      → Counts limit
  unfolding budget_round
  budget_round-Counts budget u k next q limit h = grind (arith, charge-Counts)

  -- A limit that a successful reservation shows passes the tests of `ValidateDecision` on its counters
  -- exactly when its maxima are JSON-safe and so is each counter that has no maximum: in particular
  -- what is used is then within each maximum that is set, and what remains is the rest of it.
  pub reserve_budgets-Counts :
      (budgets : List Budget) (u : Map BudgetUsage)
      → Holds (λ ls ds u. All Counts ls) (reserve_budgets digest action context budgets u)
  unfolding reserve_budgets
  reserve_budgets-Counts budgets u =
      reserve_from_invariant digest action context (λ ls ds u. All Counts ls)
        (λ budget ls ds u k next q limit e h.
          All-append Counts ls (limit ∷ []) h (budget_round-Counts budget u k next q limit e, tt))
        budgets [] [] u tt
