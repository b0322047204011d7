-- ===== src/Policy/Snapshot/Exact.antt =====
-- A checkpoint counts just what it keeps.
use rin.Common.{
  ℕ, ◌+◌, ◌-◌, ◌≤◌, ◌≡◌, String, List, [], ◌∷◌, Option, none, some, arith, eq_iff, eq_refl, ◌=ₛ◌,
  if◌then◌else◌, Bool-cases, inl, inr,
}
use rin.Common.Maps.{Map}
use rin.Policy.{BudgetUsage, BudgetDelta, Engine}
use rin.Policy.Kernel.{str_in}
use rin.Policy.Budgets.{used}
use rin.Policy.Budgets.Usage.{used-insert, used-delete, actions_at, quantity_at}
use rin.Policy.Snapshot.{uint64_sub, withhold_delta, withhold, withhold_others, snapshot_usage}
use rin.Policy.Evaluation.Ledger.{reserved_actions, reserved_quantity}
use rin.Policy.Evaluation.Reachable.{Reachable, Reachable-IsBacked}

-- What the reservations that a checkpoint leaves out hold of a bucket.
abbrev pub withheld_actions : String → Option (List String) → Map (List BudgetDelta) → ℕ
withheld_actions k none m = 0
withheld_actions k (some included) [] = 0
withheld_actions k (some included) ((id, ds) ∷ m) =
    (if str_in included id then 0 else actions_at k ds) + withheld_actions k (some included) m

abbrev pub withheld_quantity : String → Option (List String) → Map (List BudgetDelta) → ℕ
withheld_quantity k none m = 0
withheld_quantity k (some included) [] = 0
withheld_quantity k (some included) ((id, ds) ∷ m) =
    (if str_in included id then 0 else quantity_at k ds) + withheld_quantity k (some included) m

used-withhold_delta :
    (d : BudgetDelta) (u : Map BudgetUsage) (k : String)
    → d.actions ≤ (used u d.key).actions
    → d.quantity ≤ (used u d.key).quantity
    → ((used (withhold_delta d u) k).actions + (if d.key =ₛ k then d.actions else 0)
        ≡ (used u k).actions)
      × ((used (withhold_delta d u) k).quantity + (if d.key =ₛ k then d.quantity else 0)
          ≡ (used u k).quantity)
unfolding withhold_delta uint64_sub
used-withhold_delta d u k ha hq = ground (
  arith,
  used-delete d.key k u,
  used-insert d.key k
      (record {
        actions = (used u d.key).actions - d.actions;
        quantity = (used u d.key).quantity - d.quantity;
      })
      u,
  eq_iff d.key k,
)

withhold-minus :
    (ds : List BudgetDelta) (u : Map BudgetUsage)
    → ((k : String)
        → (actions_at k ds ≤ (used u k).actions) × (quantity_at k ds ≤ (used u k).quantity))
    → (k : String)
    → ((used (withhold ds u) k).actions + actions_at k ds ≡ (used u k).actions)
      × ((used (withhold ds u) k).quantity + quantity_at k ds ≡ (used u k).quantity)
unfolding withhold
withhold-minus [] u h k = omega arith
withhold-minus (d ∷ ds) u h k = omega (arith, step k, withhold-minus ds (withhold_delta d u) rest k)
  where
    step :
        (j : String)
        → ((used (withhold_delta d u) j).actions + (if d.key =ₛ j then d.actions else 0)
            ≡ (used u j).actions)
          × ((used (withhold_delta d u) j).quantity + (if d.key =ₛ j then d.quantity else 0)
              ≡ (used u j).quantity)
    step j =
        used-withhold_delta d u j (ground (arith, h d.key, eq_refl d.key))
          (ground (arith, h d.key, eq_refl d.key))

    rest :
        (j : String)
        → (actions_at j ds ≤ (used (withhold_delta d u) j).actions)
          × (quantity_at j ds ≤ (used (withhold_delta d u) j).quantity)
    rest j = omega (arith, step j, h j)

withhold_others-minus :
    (included : List String) (m : Map (List BudgetDelta)) (u : Map BudgetUsage)
    → ((k : String)
        → (reserved_actions k m ≤ (used u k).actions)
          × (reserved_quantity k m ≤ (used u k).quantity))
    → (k : String)
    → ((used (withhold_others included m u) k).actions + withheld_actions k (some included) m
        ≡ (used u k).actions)
      × ((used (withhold_others included m u) k).quantity + withheld_quantity k (some included) m
          ≡ (used u k).quantity)
unfolding withhold_others
withhold_others-minus included [] u h k = omega arith
withhold_others-minus included ((id, ds) ∷ m) u h k = elim (Bool-cases (str_in included id)) [
  | inl kept ↦ rw kept (
      omega (
        arith,
        withhold_others-minus included m u (λ j. (omega (arith, h j), omega (arith, h j))) k,
      ))
  | inr other ↦
      let gone = withhold-minus ds u (λ j. (omega (arith, h j), omega (arith, h j))) in
      rw other (
        omega (
          arith,
          gone k,
          withhold_others-minus included m (withhold ds u)
              (λ j. (omega (arith, gone j, h j), omega (arith, gone j, h j))) k,
        ))
]

-- In every state that an engine comes to by its calls, the usage of a checkpoint together with what
-- the reservations left out of it hold is the usage of the engine, bucket by bucket: the uint64
-- subtractions of `snapshotState` never wrap around.
pub snapshot_usage-exact :
    (digest : String → String) (e : Engine) (included : Option (List String)) (k : String)
    → Reachable digest e
    → ((used (snapshot_usage included e) k).actions + withheld_actions k included e.reservations
        ≡ (used e.usage k).actions)
      × ((used (snapshot_usage included e) k).quantity + withheld_quantity k included e.reservations
          ≡ (used e.usage k).quantity)
unfolding snapshot_usage
snapshot_usage-exact digest e none k r = omega arith
snapshot_usage-exact digest e (some included) k r =
    withhold_others-minus included e.reservations e.usage (Reachable-IsBacked e r) k
