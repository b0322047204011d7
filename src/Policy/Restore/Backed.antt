-- ===== src/Policy/Restore/Backed.antt =====
-- A checkpoint that is accepted gives an engine whose ledger is in order.
use rin.Common.{
  ◌+◌, ◌≤◌, ◌≡◌, refl, subst, inl, inr, String, Bool, true, false, not, ◌&&◌, List, [], ◌∷◌, Option,
  some, arith, eq_iff, Option-cases, Bool-cases,
}
use rin.Common.Maps.{Map, lookup, insert}
use rin.Policy.{BudgetUsage, BudgetDelta, Engine}
use rin.Policy.Kernel.{str_in}
use rin.Policy.Budgets.{used}
use rin.Policy.Budgets.Usage.{used-insert, actions_at, quantity_at}
use rin.Policy.Evaluation.Ledger.{reserved_actions, reserved_quantity, IsBacked, reserved-delete-le}
use rin.Policy.Restore.{
  UsageCheckpoint, ReservationCheckpoint, State, check_usage, check_delta, check_if, size_valid,
  check_deltas, check_reservations, validate_state, deltas_of, restore_usage, restore_reservations,
  may_restore, restored, restore_state, checkpoint_valid, is_empty,
}

abbrev IsBelow : Map BudgetUsage → Map BudgetUsage → Type 0
IsBelow r u =
    (k : String)
    → ((used r k).actions ≤ (used u k).actions) × ((used r k).quantity ≤ (used u k).quantity)

-- The totals grow by what the deltas hold, and stay within the usage.
abbrev Grows : Map BudgetUsage → List BudgetDelta → Map BudgetUsage → Type 0
Grows r ds r' =
    (k : String)
    → ((used r' k).actions ≡ (used r k).actions + actions_at k ds)
      × ((used r' k).quantity ≡ (used r k).quantity + quantity_at k ds)

check_usage-restore :
    (cs : List UsageCheckpoint) (u u' : Map BudgetUsage)
    → check_usage cs u ≡ some u'
    → restore_usage cs u ≡ u'
unfolding check_usage restore_usage
check_usage-restore [] u u' h = ground (arith, h)
check_usage-restore (c ∷ cs) u u' h =
    check_usage-restore cs (insert c.key (record { actions = c.actions; quantity = c.quantity }) u)
      u' (ground (arith, h))

abbrev total : UsageCheckpoint → Map BudgetUsage → BudgetUsage
total c r = record {
  actions = (used r c.key).actions + c.actions;
  quantity = (used r c.key).quantity + c.quantity;
}

check_delta-insert :
    (u : Map BudgetUsage) (c : UsageCheckpoint) (r r' : Map BudgetUsage)
    → check_delta u c r ≡ some r'
    → (r' ≡ insert c.key (total c r) r)
      × (((total c r).actions ≤ (used u c.key).actions)
          × ((total c r).quantity ≤ (used u c.key).quantity))
unfolding check_delta used
check_delta-insert u c r r' h = ground (arith, h)

check_delta_lem :
    (u : Map BudgetUsage) (c : UsageCheckpoint) (r r' : Map BudgetUsage)
    → check_delta u c r ≡ some r'
    → IsBelow r u
    → IsBelow r' u × Grows r (deltas_of (c ∷ [])) r'
check_delta_lem u c r r' h below = (bounded, grown)
  where
    facts :
        (r' ≡ insert c.key (total c r) r)
        × (((total c r).actions ≤ (used u c.key).actions)
            × ((total c r).quantity ≤ (used u c.key).quantity))
    facts = check_delta-insert u c r r' h

    bounded : IsBelow r' u
    bounded k =
        rw facts.0
          (ground (arith, used-insert c.key k (total c r) r, eq_iff c.key k, below k, facts.1))

    grown : Grows r (deltas_of (c ∷ [])) r'
    grown k = rw facts.0 (ground (arith, used-insert c.key k (total c r) r, eq_iff c.key k))

check_if-some :
    (b : Bool) (o : Option (Map BudgetUsage)) (r : Map BudgetUsage)
    → check_if b o ≡ some r
    → o ≡ some r
check_if-some true o r h = h
check_if-some false o r h = absurd (ground (arith, h))

check_deltas_lem :
    (u : Map BudgetUsage) (cs : List UsageCheckpoint) (keys : List String) (r r' : Map BudgetUsage)
    → check_deltas u cs keys r ≡ some r'
    → IsBelow r u
    → IsBelow r' u × Grows r (deltas_of cs) r'
unfolding check_deltas
check_deltas_lem u [] keys r r' h below =
    let same : r ≡ r' = ground (arith, h) in
    subst (λ x. IsBelow x u × Grows r [] x) same (below, λ k. omega arith)
check_deltas_lem u (c ∷ cs) keys r r' h below =
    let b = checkpoint_valid c && not (str_in keys c.key) in
    elim (Option-cases (check_if b (check_delta u c r))) [
      | inl eq ↦ absurd (ground (arith, h, eq))
      | inr (next, eq) ↦
          let first = check_delta_lem u c r next (check_if-some b _ next eq) below in
          let rest = check_deltas_lem u cs (c.key ∷ keys) next r' (ground (arith, h, eq)) first.0 in
          (rest.0, λ k. omega (arith, first.1 k, rest.1 k))
    ]

check_reservations_lem :
    (u : Map BudgetUsage) (rs : List ReservationCheckpoint) (ids : List String)
    (r r' : Map BudgetUsage) (m : Map (List BudgetDelta))
    → check_reservations u rs ids r ≡ some r'
    → IsBelow r u
    → IsBelow r' u
      × ((k : String)
          → (reserved_actions k (restore_reservations rs m) + (used r k).actions
              ≤ reserved_actions k m + (used r' k).actions)
            × (reserved_quantity k (restore_reservations rs m) + (used r k).quantity
                ≤ reserved_quantity k m + (used r' k).quantity))
unfolding check_reservations restore_reservations insert
check_reservations_lem u [] ids r r' m h below =
    let same : r ≡ r' = ground (arith, h) in
    subst
      (λ x.
        IsBelow x u
        × ((k : String)
            → (reserved_actions k m + (used r k).actions
                ≤ reserved_actions k m + (used x k).actions)
              × (reserved_quantity k m + (used r k).quantity
                  ≤ reserved_quantity k m + (used x k).quantity)))
      same (below, λ k. omega arith)
check_reservations_lem u (x ∷ rs) ids r r' m h below =
    let b = not (str_in ids x.decision_id) && size_valid x.deltas in
    elim (Option-cases (check_if b (check_deltas u x.deltas [] r))) [
      | inl eq ↦ absurd (ground (arith, h, eq))
      | inr (next, eq) ↦
          let first = check_deltas_lem u x.deltas [] r next (check_if-some b _ next eq) below in
          let rest =
            check_reservations_lem u rs (x.decision_id ∷ ids) next r'
              (insert x.decision_id (deltas_of x.deltas) m) (ground (arith, h, eq)) first.0 in
          (rest.0, λ k. omega (arith, first.1 k, rest.1 k, reserved-delete-le k x.decision_id m))
    ]

IsBelow-empty : (u : Map BudgetUsage) → IsBelow [] u
unfolding used lookup
IsBelow-empty u k = omega arith

validate_state-parts :
    (state : State) (totals : Map BudgetUsage)
    → validate_state state ≡ some totals
    → (u : Map BudgetUsage) × ((check_usage state.usage [] ≡ some u)
        × (check_reservations u state.reservations [] [] ≡ some totals))
unfolding validate_state
validate_state-parts state totals h = elim (Option-cases (check_usage state.usage [])) [
  | inl eq ↦ absurd (ground (arith, h, eq))
  | inr (u, eq) ↦ (u, (eq, ground (arith, h, eq)))
]

is_empty_nil : {V : Type 0} (m : Map V) → is_empty m ≡ true → m ≡ []
is_empty_nil [] h = refl
is_empty_nil (x ∷ m) h = absurd (ground (arith, h))

may_restore-empty :
    (state : State) (e : Engine)
    → may_restore state e ≡ true
    → (e.usage ≡ []) × (e.reservations ≡ [])
unfolding may_restore
may_restore-empty state e h =
    (is_empty_nil e.usage (ground (arith, h)), is_empty_nil e.reservations (ground (arith, h)))

restored-IsBacked :
    (state : State) (e : Engine) (totals : Map BudgetUsage)
    → validate_state state ≡ some totals
    → may_restore state e ≡ true
    → IsBacked (restored state e)
restored-IsBacked state e totals valid fits k =
    let (u, parts) = validate_state-parts state totals valid in
    let (no_usage, no_reservations) = may_restore-empty state e fits in
    let (bounded, grown) =
      check_reservations_lem u state.reservations [] [] totals [] parts.1 (IsBelow-empty u) in
    rw (no_usage, no_reservations, check_usage-restore state.usage [] u parts.0)
      (omega (arith, bounded k, grown k))

-- A checkpoint that `RestoreState` accepts gives an engine in which every bucket of the usage table
-- holds at least what the restored reservations hold of it.
pub restore_state-IsBacked :
    (state : State) (e : Engine)
    → (restore_state state e).0 ≡ true
    → IsBacked (restore_state state e).1
unfolding restore_state
restore_state-IsBacked state e h = elim (Option-cases (validate_state state)) [
  | inl eq ↦ absurd (ground (arith, h, eq))
  | inr (totals, eq) ↦ elim (Bool-cases (may_restore state e)) [
    | inl fits ↦ rw (eq, fits, restore_state) (restored-IsBacked state e totals eq fits)
    | inr unfit ↦ absurd (ground (arith, h, eq, unfit))
  ]
]
