-- ===== src/Policy/Restore.antt =====
-- policy/state.go: `ValidateState` and `RestoreState`. The version, the form of the digest and of
-- the identifiers, and the length and encoding of a key are left out of the tests.
pub mod Backed
use rin.Common.{
  ℕ, ◌+◌, ◌-◌, String, Bool, true, false, not, ◌&&◌, ◌||◌, List, [], ◌∷◌, Option, none, some, ltb,
  leb, ◌==◌, ◌=ₛ◌, length, nul, ◌⋯◌, if◌then◌else◌,
}
use rin.Common.Maps.{Map, lookup, insert, member}
use rin.Policy.{BudgetUsage, BudgetDelta, Engine, max_json_safe_integer, max_authorizations}
use rin.Policy.Kernel.{str_in}
use rin.Policy.Budgets.{used}

pub record UsageCheckpoint : Type 0 where
  pub key : String
  pub actions : ℕ
  pub quantity : ℕ

pub record ReservationCheckpoint : Type 0 where
  pub decision_id : String
  pub deltas : List UsageCheckpoint

pub record State : Type 0 where
  pub policy_revision : ℕ
  pub config_digest : String
  pub usage : List UsageCheckpoint
  pub reservations : List ReservationCheckpoint

-- `validateCheckpointUsage`
unfoldable pub checkpoint_valid : UsageCheckpoint → Bool
checkpoint_valid c =
    not (c.key =ₛ "")
    && ((leb c.actions max_json_safe_integer && leb c.quantity max_json_safe_integer)
        && not ((c.actions == 0) && (c.quantity == 0)))

-- The loop over the usage; `none` is a refusal.
unfoldable pub check_usage : List UsageCheckpoint → Map BudgetUsage → Option (Map BudgetUsage)
unfolding checkpoint_valid
check_usage [] usage = some usage
check_usage (c ∷ cs) usage = elim (checkpoint_valid c && not (member c.key usage)) [
  | false ↦ none
  | true ↦
      check_usage cs (insert c.key (record { actions = c.actions; quantity = c.quantity }) usage)
]

-- The body of the loop over the deltas of a reservation, from the lookup of the usage on.
unfoldable pub check_delta :
    Map BudgetUsage → UsageCheckpoint → Map BudgetUsage → Option (Map BudgetUsage)
check_delta usage c reserved = elim (lookup c.key usage) [
  | none ↦ none
  | some current ↦
      let total = used reserved c.key in
      if ltb (max_json_safe_integer - total.actions) c.actions
        || ltb (max_json_safe_integer - total.quantity) c.quantity
      then none
      else if ltb current.actions (total.actions + c.actions)
          || ltb current.quantity (total.quantity + c.quantity)
      then none
      else some (
          insert c.key
            (record { actions = total.actions + c.actions; quantity = total.quantity + c.quantity })
            reserved)
]

abbrev check_if : Bool → Option (Map BudgetUsage) → Option (Map BudgetUsage)
check_if true r = r
check_if false r = none

unfoldable pub check_deltas :
    Map BudgetUsage
    → List UsageCheckpoint
    → List String
    → Map BudgetUsage
    → Option (Map BudgetUsage)
unfolding check_delta checkpoint_valid
check_deltas usage [] keys reserved = some reserved
check_deltas usage (c ∷ cs) keys reserved =
    elim (check_if (checkpoint_valid c && not (str_in keys c.key)) (check_delta usage c reserved)) [
      | none ↦ none
      | some next ↦ check_deltas usage cs (c.key ∷ keys) next
    ]

abbrev size_valid : List UsageCheckpoint → Bool
size_valid deltas = ltb 0 (length deltas) && leb (length deltas) 128

unfoldable pub check_reservations :
    Map BudgetUsage
    → List ReservationCheckpoint
    → List String
    → Map BudgetUsage
    → Option (Map BudgetUsage)
unfolding check_deltas
check_reservations usage [] decisions reserved = some reserved
check_reservations usage (r ∷ rs) decisions reserved =
    elim (check_if (not (str_in decisions r.decision_id) && size_valid r.deltas)
      (check_deltas usage r.deltas [] reserved)) [
        | none ↦ none
        | some next ↦ check_reservations usage rs (r.decision_id ∷ decisions) next
      ]

-- `ValidateState`: the totals of the reservations, or a refusal.
unfoldable pub validate_state : State → Option (Map BudgetUsage)
unfolding check_usage check_reservations
validate_state state =
    if not (ltb 0 state.policy_revision && leb state.policy_revision max_json_safe_integer)
      || (ltb 8192 (length state.usage) || ltb max_authorizations (length state.reservations))
    then none
    else elim (check_usage state.usage []) [
      | none ↦ none
      | some usage ↦ check_reservations usage state.reservations [] []
    ]

abbrev pub deltas_of : List UsageCheckpoint → List BudgetDelta
deltas_of [] = []
deltas_of (c ∷ cs) =
    record { key = c.key; actions = c.actions; quantity = c.quantity } ∷ deltas_of cs

unfoldable pub restore_usage : List UsageCheckpoint → Map BudgetUsage → Map BudgetUsage
restore_usage [] usage = usage
restore_usage (c ∷ cs) usage =
    restore_usage cs (insert c.key (record { actions = c.actions; quantity = c.quantity }) usage)

unfoldable pub restore_reservations :
    List ReservationCheckpoint → Map (List BudgetDelta) → Map (List BudgetDelta)
restore_reservations [] m = m
restore_reservations (r ∷ rs) m =
    restore_reservations rs (insert r.decision_id (deltas_of r.deltas) m)

unfoldable pub restore_keys : List ReservationCheckpoint → Map String → Map String
restore_keys [] m = m
restore_keys (r ∷ rs) m =
    restore_keys rs (insert r.decision_id ("restored" ⋯ nul ⋯ r.decision_id) m)

abbrev is_empty {ℓ} : {V : Type ℓ} → Map V → Bool
is_empty [] = true
is_empty (x ∷ m) = false

-- The tests of `RestoreState` against the engine.
unfoldable pub may_restore : State → Engine → Bool
may_restore state engine =
    (state.policy_revision == engine.config.revision)
    && ((state.config_digest =ₛ engine.config_digest)
        && (is_empty engine.usage
            && (is_empty engine.reservations
                && (is_empty engine.challenges
                    && (is_empty engine.authorizations && is_empty engine.decision_keys)))))

abbrev restored : State → Engine → Engine
restored state engine = record engine {
  usage = restore_usage state.usage engine.usage;
  reservations = restore_reservations state.reservations engine.reservations;
  decision_keys = restore_keys state.reservations engine.decision_keys;
}

-- `RestoreState`
unfoldable pub restore_state : State → Engine → Bool × Engine
unfolding may_restore restore_usage restore_reservations restore_keys
restore_state state engine = elim (validate_state state) [
  | none ↦ (false, engine)
  | some totals ↦
      if may_restore state engine then (true, restored state engine) else (false, engine)
]
