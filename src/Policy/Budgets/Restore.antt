-- ===== src/Policy/Budgets/Restore.antt =====
-- A reservation that does not succeed leaves no trace in the usage table.
use rin.Common.{
  ℕ, ◌+◌, ◌*◌, ◌≤◌, ◌≡◌, ◌≢◌, refl, ◌∙◌, String, Bool, true, false, List, [], ◌∷◌, ◌++◌, length,
  arith, All,
}
use rin.Common.Maps.{Map, insert}
use rin.Host.{Effect, BoundAction}
use rin.Policy.{
  Budget, Context, EffectiveLimit, BudgetUsage, BudgetDelta, max_uint64, max_json_safe_integer,
  Error, err,
}
use rin.Policy.Budgets.{
  used, rollback_deltas, sum_matching, Round, skip, leave, abort, exceed, take, charge,
  budget_round, Reservation, reserved, exceeded, failed, reserve_from, reserve_budgets,
}
use rin.Policy.Budgets.Usage.{SameUsage, SameUsage-rollback, rollback-append, undo-insert}

-- What `host.ValidateBoundAction` admits of an effect preview: at most 64 effects, each of a
-- JSON-safe quantity.
pub record IsBounded (action : BoundAction) : Type 0 where
  pub few : length action.effects ≤ 64
  pub safe : All (λ e. e.quantity ≤ max_json_safe_integer) action.effects

-- Under that bound the sum of the quantities fits a uint64, so the loop never leaves early.
sum_matching-ok :
    (budget : Budget) (action : BoundAction) (context : Context) (effects : List Effect)
    (matched : Bool) (quantity : ℕ) (e : Error)
    → All (λ e. e.quantity ≤ max_json_safe_integer) effects
    → quantity + length effects * max_json_safe_integer ≤ max_uint64
    → sum_matching budget action context effects matched quantity ≢ err e
unfolding sum_matching
sum_matching-ok budget action context [] matched quantity e h room = λ eq. cc
sum_matching-ok budget action context (effect ∷ effects) matched quantity e h room = ground (
  arith,
  sum_matching-ok budget action context effects matched quantity e h.1,
  sum_matching-ok budget action context effects true (quantity + effect.quantity) e h.1,
)

charge-ne-leave :
    (budget : Budget) (key public_key : String) (q : ℕ) (u : BudgetUsage) (e : Error)
    → charge budget key public_key q u ≢ leave e
unfolding charge
charge-ne-leave budget key public_key q u e = ground arith

-- A reservation adds one action and the quantity to what the bucket held.
pub charge-take :
    (budget : Budget) (key public_key : String) (q : ℕ) (u : BudgetUsage) (k : String)
    (next : BudgetUsage) (q' : ℕ) (limit : EffectiveLimit)
    → charge budget key public_key q u ≡ take k next q' limit
    → (k ≡ key) × (q' ≡ q) × (next ≡ record { actions = u.actions + 1; quantity = u.quantity + q })
unfolding charge
charge-take budget key public_key q u k next q' limit h = ground arith

-- What the rounds so far have come to, rolled back, is the table at the start.
abbrev pub Restores : Map BudgetUsage → Reservation × Map BudgetUsage → Type 0
Restores u₀ (reserved limits deltas, u) = SameUsage (rollback_deltas deltas u) u₀
Restores u₀ (exceeded id, u) = SameUsage u u₀
Restores u₀ (failed e, u) = SameUsage u u₀

module _ (digest : String → String) (action : BoundAction) (context : Context) where
  budget_round-ne-leave :
      (budget : Budget) (usage : Map BudgetUsage) (e : Error)
      → IsBounded action
      → budget_round digest budget action context usage ≢ leave e
  unfolding budget_round
  budget_round-ne-leave budget usage e h = grind (
    arith,
    sum_matching-ok budget action context action.effects false 0 e h.safe,
    charge-ne-leave,
  )

  pub budget_round-take :
      (budget : Budget) (usage : Map BudgetUsage) (k : String) (next : BudgetUsage) (q : ℕ)
      (limit : EffectiveLimit)
      → budget_round digest budget action context usage ≡ take k next q limit
      → next
        ≡ record { actions = (used usage k).actions + 1; quantity = (used usage k).quantity + q }
  unfolding budget_round
  budget_round-take budget usage k next q limit h = grind (arith, charge-take)

  -- One round and the rest of the loop.
  after_round :
      (budget : Budget) (budgets : List Budget) (limits : List EffectiveLimit)
      (deltas : List BudgetDelta) (usage u₀ : Map BudgetUsage) (r : Round)
      → budget_round digest budget action context usage ≡ r
      → IsBounded action
      → SameUsage (rollback_deltas deltas usage) u₀
      → ((ls : List EffectiveLimit) (ds : List BudgetDelta) (u : Map BudgetUsage)
          → SameUsage (rollback_deltas ds u) u₀
          → Restores u₀ (reserve_from digest action context budgets ls ds u))
      → Restores u₀ (reserve_from digest action context (budget ∷ budgets) limits deltas usage)
  unfolding reserve_from
  after_round budget budgets limits deltas usage u₀ skip e b h rest =
      rw (e, reserve_from) (rest limits deltas usage h)
  after_round budget budgets limits deltas usage u₀ (leave x) e b h rest =
      absurd (budget_round-ne-leave budget usage x b e)
  after_round budget budgets limits deltas usage u₀ (abort x) e b h rest = rw (e, reserve_from) h
  after_round budget budgets limits deltas usage u₀ exceed e b h rest = rw (e, reserve_from) h
  after_round budget budgets limits deltas usage u₀ (take k next q limit) e b h rest =
      rw (e, reserve_from)
        (rest (limits ++ limit ∷ []) (deltas ++ record { key = k; actions = 1; quantity = q } ∷ [])
          (insert k next usage) kept)
    where
      kept :
          SameUsage
            (rollback_deltas
              (deltas ++ record { key = k; actions = 1; quantity = q } ∷ [])
              (insert k next usage))
            u₀
      kept j =
          rw (rollback-append deltas, budget_round-take budget usage k next q limit e)
            (SameUsage-rollback deltas _ usage (undo-insert k q usage) j ∙ h j)

  reserve_from-Restores :
      (budgets : List Budget) (limits : List EffectiveLimit) (deltas : List BudgetDelta)
      (usage u₀ : Map BudgetUsage)
      → IsBounded action
      → SameUsage (rollback_deltas deltas usage) u₀
      → Restores u₀ (reserve_from digest action context budgets limits deltas usage)
  reserve_from-Restores [] limits deltas usage u₀ b h = unfold reserve_from in h
  reserve_from-Restores (budget ∷ budgets) limits deltas usage u₀ b h =
      after_round budget budgets limits deltas usage u₀
        (budget_round digest budget action context usage) refl b h
        λ ls ds u same. reserve_from-Restores budgets ls ds u u₀ b same

  -- For an action that host validation admits: a reservation that is refused or fails leaves every
  -- bucket of the usage table as it was, and the deltas of one that succeeds, rolled back, give
  -- every bucket back.
  pub reserve_budgets-Restores :
      (budgets : List Budget) (usage : Map BudgetUsage)
      → IsBounded action
      → Restores usage (reserve_budgets digest action context budgets usage)
  unfolding reserve_budgets rollback_deltas
  reserve_budgets-Restores budgets usage b =
      reserve_from-Restores budgets [] [] usage usage b (λ k. refl)
