-- ===== src/Policy/Budgets/Usage.antt =====
-- The usage table as a client reads it: `used`, and what each operation does to it.
use rin.Common.{
  ℕ, ◌+◌, ◌-◌, ◌≤◌, ◌≡◌, refl, ap, String, List, [], ◌∷◌, ◌++◌, ltb, ◌||◌, arith, eq_iff, eq_refl,
  ◌=ₛ◌, if◌then◌else◌,
}
use rin.Common.Maps.{Map, insert, delete, lookup-insert, lookup-delete}
use rin.Policy.{BudgetUsage, BudgetDelta}
use rin.Policy.Budgets.{no_usage, used, undo, rollback_deltas}

-- Two tables that no read of a bucket tells apart.
abbrev pub SameUsage : Map BudgetUsage → Map BudgetUsage → Type 0
SameUsage u v = (k : String) → used u k ≡ used v k

-- What giving a delta back leaves of a bucket.
abbrev pub minus : BudgetUsage → BudgetDelta → BudgetUsage
minus u d =
    if ltb u.actions d.actions || ltb u.quantity d.quantity
    then no_usage
    else record { actions = u.actions - d.actions; quantity = u.quantity - d.quantity }

pub used-insert :
    (k j : String) (u : BudgetUsage) (m : Map BudgetUsage)
    → used (insert k u m) j ≡ (if k =ₛ j then u else used m j)
unfolding used
used-insert k j u m = ground (arith, lookup-insert k j u m)

pub used-delete :
    (k j : String) (m : Map BudgetUsage)
    → used (delete k m) j ≡ (if k =ₛ j then no_usage else used m j)
unfolding used
used-delete k j m = ground (arith, lookup-delete k j m)

pub used-undo :
    (d : BudgetDelta) (m : Map BudgetUsage) (j : String)
    → used (undo d m) j ≡ (if d.key =ₛ j then minus (used m d.key) d else used m j)
unfolding undo
used-undo d m j = ground (
  arith,
  used-delete d.key j m,
  used-insert d.key j
      (record {
        actions = (used m d.key).actions - d.actions;
        quantity = (used m d.key).quantity - d.quantity;
      })
      m,
  eq_iff d.key j,
)

pub SameUsage-undo :
    (d : BudgetDelta) (u v : Map BudgetUsage) → SameUsage u v → SameUsage (undo d u) (undo d v)
SameUsage-undo d u v h j = rw (used-undo d u j, used-undo d v j, h d.key, h j)

pub SameUsage-rollback :
    (ds : List BudgetDelta) (u v : Map BudgetUsage)
    → SameUsage u v
    → SameUsage (rollback_deltas ds u) (rollback_deltas ds v)
unfolding rollback_deltas
SameUsage-rollback [] u v h = h
SameUsage-rollback (d ∷ ds) u v h =
    SameUsage-undo d (rollback_deltas ds u) (rollback_deltas ds v) (SameUsage-rollback ds u v h)

pub rollback-append :
    (ds : List BudgetDelta) (d : BudgetDelta) (u : Map BudgetUsage)
    → rollback_deltas (ds ++ d ∷ []) u ≡ rollback_deltas ds (undo d u)
unfolding rollback_deltas
rollback-append [] d u = refl
rollback-append (x ∷ ds) d u = ap (undo x) (rollback-append ds d u)

-- Giving back a delta that was just added to its bucket.
pub undo-insert :
    (k : String) (q : ℕ) (m : Map BudgetUsage)
    → SameUsage
        (undo
          (record { key = k; actions = 1; quantity = q })
          (insert k
            (record { actions = (used m k).actions + 1; quantity = (used m k).quantity + q })
            m))
        m
undo-insert k q m j =
    let next : BudgetUsage = record {
      actions = (used m k).actions + 1;
      quantity = (used m k).quantity + q;
    } in
    ground (
      arith,
      used-undo (record { key = k; actions = 1; quantity = q }) (insert k next m) j,
      used-insert k j next m,
      used-insert k k next m,
      eq_refl k,
      eq_iff k j,
    )

-- What a list of deltas holds of one bucket.
abbrev pub actions_at : String → List BudgetDelta → ℕ
actions_at k [] = 0
actions_at k (d ∷ ds) = (if d.key =ₛ k then d.actions else 0) + actions_at k ds

abbrev pub quantity_at : String → List BudgetDelta → ℕ
quantity_at k [] = 0
quantity_at k (d ∷ ds) = (if d.key =ₛ k then d.quantity else 0) + quantity_at k ds

pub actions_at-append :
    (k : String) (ds : List BudgetDelta) (d : BudgetDelta)
    → actions_at k (ds ++ d ∷ []) ≡ actions_at k ds + (if d.key =ₛ k then d.actions else 0)
actions_at-append k [] d = omega arith
actions_at-append k (x ∷ ds) d = omega (arith, actions_at-append k ds d)

pub quantity_at-append :
    (k : String) (ds : List BudgetDelta) (d : BudgetDelta)
    → quantity_at k (ds ++ d ∷ []) ≡ quantity_at k ds + (if d.key =ₛ k then d.quantity else 0)
quantity_at-append k [] d = omega arith
quantity_at-append k (x ∷ ds) d = omega (arith, quantity_at-append k ds d)

-- Where the table holds what the deltas hold, rolling them back takes just that away.
pub rollback-minus :
    (ds : List BudgetDelta) (u : Map BudgetUsage)
    → ((k : String)
        → (actions_at k ds ≤ (used u k).actions) × (quantity_at k ds ≤ (used u k).quantity))
    → (k : String)
    → ((used (rollback_deltas ds u) k).actions + actions_at k ds ≡ (used u k).actions)
      × ((used (rollback_deltas ds u) k).quantity + quantity_at k ds ≡ (used u k).quantity)
unfolding rollback_deltas
rollback-minus [] u h k = omega arith
rollback-minus (d ∷ ds) u h k =
    let rest = rollback-minus ds u (λ j. (omega (arith, (h j).0), omega (arith, (h j).1))) in
    ground (
      arith,
      used-undo d (rollback_deltas ds u) k,
      eq_iff d.key k,
      eq_refl d.key,
      rest k,
      rest d.key,
      h k,
      h d.key,
    )
