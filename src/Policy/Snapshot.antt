-- ===== src/Policy/Snapshot.antt =====
-- policy/state.go, `snapshotState`: the usage of a checkpoint. The sorting and the copying of the
-- tables into lists are left out.
pub mod Exact
use rin.Common.{
  ℕ, ◌+◌, ◌-◌, ◌^◌, String, Bool, true, false, ◌&&◌, List, [], ◌∷◌, Option, none, some, ltb, ◌==◌,
  if◌then◌else◌,
}
use rin.Common.Maps.{Map, lookup, insert, delete}
use rin.Policy.{BudgetUsage, BudgetDelta, Engine}
use rin.Policy.Kernel.{str_in}
use rin.Policy.Budgets.{used}

-- Subtraction of uint64, which wraps around below 0.
unfoldable pub uint64_sub : ℕ → ℕ → ℕ
uint64_sub a b = if ltb a b then (a + 18446744073709551616) - b else a - b

-- The body of the loop over the deltas of a reservation that the checkpoint leaves out.
unfoldable pub withhold_delta : BudgetDelta → Map BudgetUsage → Map BudgetUsage
unfolding uint64_sub
withhold_delta delta usage =
    let current = used usage delta.key in
    let next : BudgetUsage = record {
      actions = uint64_sub current.actions delta.actions;
      quantity = uint64_sub current.quantity delta.quantity;
    } in
    if (next.actions == 0) && (next.quantity == 0)
    then delete delta.key usage
    else insert delta.key next usage

unfoldable pub withhold : List BudgetDelta → Map BudgetUsage → Map BudgetUsage
unfolding withhold_delta
withhold [] usage = usage
withhold (delta ∷ deltas) usage = withhold deltas (withhold_delta delta usage)

-- The loop over the reservations; `included` are the decisions that the caller has registered.
unfoldable pub withhold_others :
    List String → Map (List BudgetDelta) → Map BudgetUsage → Map BudgetUsage
unfolding withhold
withhold_others included [] usage = usage
withhold_others included ((id, deltas) ∷ reservations) usage =
    withhold_others included reservations
      (if str_in included id then usage else withhold deltas usage)

-- The usage of `SnapshotState` (`none`) and of `SnapshotStateFor`.
unfoldable pub snapshot_usage : Option (List String) → Engine → Map BudgetUsage
unfolding withhold_others
snapshot_usage none engine = engine.usage
snapshot_usage (some included) engine = withhold_others included engine.reservations engine.usage
