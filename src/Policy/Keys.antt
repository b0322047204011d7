-- ===== src/Policy/Keys.antt =====
-- The composed keys of policy/engine.go. SHA-256 is a parameter.
use rin.Common.{
  ℕ, ◌/◌, String, [], ◌∷◌, none, some, ltb, not, join_nul, decimal, ◌⋯◌, if◌then◌else◌,
}
use rin.Host.{ClockMode, BoundAction, clock_eq}
use rin.Policy.{Layer, Budget, Context, window_clock_mismatch, Result, ok, err}

-- Go's text of a `ClockMode`.
abbrev pub clock_name : ClockMode → String
clock_name ClockMode.event = "event"
clock_name ClockMode.step = "step"
clock_name ClockMode.realtime = "realtime"

unfoldable pub make_authorization_key : BoundAction → Context → ℕ → String
make_authorization_key action context revision = join_nul (
    action.binding_id
    ∷ action.request_digest
    ∷ action.effect_digest
    ∷ context.principal.id
    ∷ context.server_id
    ∷ context.owner_id
    ∷ action.expected_epoch.session_id
    ∷ decimal action.expected_epoch.host
    ∷ decimal action.expected_epoch.world
    ∷ decimal action.expected_epoch.timeline
    ∷ decimal revision
    ∷ [])

unfoldable pub make_challenge_key : BoundAction → Context → ℕ → String
make_challenge_key = make_authorization_key

unfoldable pub challenge_clock_scope : BoundAction → Context → String
challenge_clock_scope action context =
    join_nul
      (context.server_id ∷ action.expected_epoch.world_id ∷ clock_name context.now.clock ∷ [])

unfoldable pub budget_scope : Layer → BoundAction → Context → String
budget_scope Layer.server action context = context.server_id
budget_scope Layer.world action context = action.expected_epoch.world_id
budget_scope Layer.owner action context = context.owner_id
budget_scope Layer.actor action context = action.actor_id
budget_scope Layer.task action context = action.task_id

-- The window of a budget that the Host clock stands in; a budget without one has the whole epoch.
unfoldable pub budget_bucket : Budget → Context → Result String
budget_bucket budget context = elim budget.window [
  | none ↦ ok "epoch"
  | some window ↦
      if not (ltb 0 window.value)
      then ok "epoch"
      else if not (clock_eq window.clock context.now.clock)
      then err window_clock_mismatch
      else ok (decimal (context.now.value / window.value))
]

-- `digest` stands for the first eight bytes of SHA-256 in hexadecimal.
module _ (digest : String → String) where
  -- The key of the usage table and the key that is shown to controllers.
  unfoldable pub make_budget_key : Budget → BoundAction → Context → Result (String × String)
  make_budget_key budget action context = elim (budget_bucket budget context) [
    | err e ↦ err e
    | ok bucket ↦
        let key = join_nul (
          budget.budget_id
          ∷ budget_scope budget.layer action context
          ∷ action.expected_epoch.session_id
          ∷ action.expected_epoch.world_id
          ∷ decimal action.expected_epoch.host
          ∷ decimal action.expected_epoch.world
          ∷ decimal action.expected_epoch.timeline
          ∷ bucket
          ∷ []) in
        ok (key, budget.budget_id ⋯ "." ⋯ digest key)
  ]
