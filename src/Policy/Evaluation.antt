-- ===== src/Policy/Evaluation.antt =====
-- policy/engine.go: `Evaluate`, `Finalize`, `New` and `Update`. The arguments are validated: an
-- action and a context as `host.ValidateBoundAction` and `validateContext` admit them, a config as
-- `SealConfig` returns it. A run of `Evaluate` takes its two random draws as arguments; the mutex
-- makes every call one step.
pub mod Kernel
pub mod Ledger
pub mod Reachable
pub mod Confirmed
pub mod Allows
pub mod Keyed
pub mod Outcome
pub mod Replay
pub mod Finalize
pub mod Capacity
use rin.Common.{
  ℕ, ◌-◌, String, Bool, true, false, not, ◌&&◌, ◌||◌, List, [], ◌∷◌, ◌++◌, Option, none, some, leb,
  ltb, ◌==◌, length, ◌=ₛ◌, if◌then◌else◌,
}
use rin.Common.Maps.{Map, lookup, insert, delete, drop_if}
use rin.Host.{BoundAction, clock_eq, epoch_eq}
use rin.Policy.{
  Verdict, allow, deny, require_confirmation, Config, Context, ConfirmationChallenge,
  EffectiveLimit, Decision, BudgetDelta, BudgetUsage, AuthorizationState, Engine,
  max_authorizations, Error, stale_revision, Result, ok, err,
}
use rin.Policy.Gameplay.{Selection, append_unique, evaluate_gameplay}
use rin.Policy.Keys.{make_authorization_key}
use rin.Policy.Budgets.{Reservation, reserved, exceeded, failed, reserve_budgets, rollback_deltas}
use rin.Policy.Decisions.{base_decision, deny_decision}
use rin.Policy.Challenges.{
  Draw, new_id, confirmation_ttl, issue_confirmation, Consumption, unconfirmed, confirmed, rejected,
  consume_confirmation, prune_challenges,
}

-- `New`, with the sealed config and its digest.
unfoldable pub new_engine : Config → String → Engine
new_engine sealed digest = record {
  config = sealed;
  config_digest = digest;
  challenges = [];
  challenge_keys = [];
  usage = [];
  reservations = [];
  authorizations = [];
  decision_keys = [];
}

-- `Update`, with the sealed config and its digest.
unfoldable pub update : Config → String → Engine → Result (Unit {0}) × Engine
update sealed digest engine =
    if leb sealed.revision engine.config.revision then (err stale_revision, engine) else (
      ok tt,
      record engine {
        config = sealed;
        config_digest = digest;
        challenges = [];
        challenge_keys = [];
        authorizations = [];
      },
    )

-- The safety kernel's three denials before any state is read, in their order.
unfoldable pub kernel_denial : Decision → BoundAction → Context → Option Decision
kernel_denial base action context =
    if context.emergency_stopped
    then some (
        deny_decision base "kernel.emergency-stop" "policy.emergency_stop"
          "The emergency stop is active for this Host.")
    else if not (epoch_eq context.current_epoch action.expected_epoch)
    then some (
        deny_decision base "kernel.stale-epoch" "policy.stale_epoch"
          "The action belongs to a stale Host epoch.")
    else if not (clock_eq context.now.clock action.valid_until.clock)
        || leb action.valid_until.value context.now.value
    then some (
        deny_decision base "kernel.expired-binding" "policy.expired_binding"
          "The Host binding is expired or uses a different clock.")
    else none

abbrev pub invalid_confirmation : Decision → String → Decision
invalid_confirmation base summary =
    deny_decision base "kernel.invalid-confirmation" "policy.invalid_confirmation" summary

-- `removeFinalizedAuthorizations`, where the table is full.
unfoldable pub make_room : Map AuthorizationState → Map AuthorizationState
make_room authorizations =
    if leb max_authorizations (length authorizations)
    then drop_if (λ s. s.finalized) authorizations
    else authorizations

abbrev pub add_reservation :
    String → List BudgetDelta → Map (List BudgetDelta) → Map (List BudgetDelta)
add_reservation id [] reservations = reservations
add_reservation id (d ∷ ds) reservations = insert id (d ∷ ds) reservations

-- The end of `Evaluate`, from the effective limits on; the usage holds the reservation already.
unfoldable pub store_authorization :
    String → Context → Decision → List BudgetDelta → Engine → Result Decision × Engine
store_authorization key context decision deltas engine =
    let room = make_room engine.authorizations in
    if leb max_authorizations (length room)
    then (
      ok (
          deny_decision decision "kernel.authorization-capacity" "policy.authorization_capacity"
            "The policy authorization capacity is temporarily exhausted."),
      record engine { usage = rollback_deltas deltas engine.usage; authorizations = room },
    )
    else (
      ok decision,
      record engine {
        authorizations =
            insert key
              (record {
                decision = decision;
                confirmation_id = context.confirmation_id;
                finalized = false;
              })
              room;
        decision_keys = insert decision.decision_id key engine.decision_keys;
        reservations = add_reservation decision.decision_id deltas engine.reservations;
      },
    )

-- The gameplay result on the base decision.
abbrev pub with_gameplay : Decision → Selection → Decision
with_gameplay base selection = record base {
  result = selection.result;
  matched_rule_ids = selection.matched_ids;
  reason_code = selection.reason;
  human_summary = selection.summary;
}

unfoldable pub confirmed_decision : Decision → Decision
unfolding append_unique
confirmed_decision base = record base {
  result = allow;
  matched_rule_ids = append_unique base.matched_rule_ids "confirmation.consumed";
  reason_code = "policy.confirmed";
  human_summary = "The approved single-use confirmation matches this exact effect preview.";
}

-- What `Evaluate` makes of the outcome of `reserveBudgets`.
unfoldable pub grant :
    String → Context → Decision → Engine → Reservation × Map BudgetUsage → Result Decision × Engine
grant key context base engine (failed e, usage) = (err e, record engine { usage = usage })
grant key context base engine (exceeded budget_id, usage) = (
  ok (
      deny_decision base budget_id "policy.budget_exceeded"
        "The action would exceed an active gameplay budget."),
  record engine { usage = usage },
)
grant key context base engine (reserved limits deltas, usage) =
    store_authorization key context (record base { effective_limits = limits }) deltas
      (record engine { usage = usage })

-- What it makes of the outcome of `issueConfirmation`.
unfoldable pub with_challenge :
    Decision → Result ConfirmationChallenge × Engine → Result Decision × Engine
with_challenge base (err e, engine) = (err e, engine)
with_challenge base (ok challenge, engine) =
    (ok (record base { confirmation = some challenge }), engine)

-- No confirmation came: a challenge is issued, if the clock allows it.
unfoldable pub challenge_or_deny :
    Draw → BoundAction → Context → Decision → Engine → Result Decision × Engine
challenge_or_deny draw action context base engine =
    elim (confirmation_ttl engine.config.confirmation_ttl context.now.clock) [
      | none ↦ (
        ok (
            deny_decision base "kernel.confirmation-clock-disabled"
              "policy.confirmation_clock_disabled"
              "Gameplay confirmation is disabled for this Host clock."),
        engine,
      )
      | some ttl ↦ with_challenge base (issue_confirmation draw action context ttl engine)
    ]

module _ (digest : String → String) where
  -- From `reserveBudgets` on.
  unfoldable pub authorize :
      String → BoundAction → Context → Decision → Engine → Result Decision × Engine
  authorize key action context base engine =
      grant key context base engine
        (reserve_budgets digest action context engine.config.budgets engine.usage)

  -- What it makes of the outcome of `consumeConfirmation`; `start` is the decision before the
  -- gameplay result.
  unfoldable pub after_consumption :
      Draw
      → String
      → BoundAction
      → Context
      → Decision
      → Decision
      → Consumption × Engine
      → Result Decision × Engine
  after_consumption draw key action context start base (rejected, engine) = (
    ok (
        invalid_confirmation start
          "The confirmation is missing, unapproved, expired, consumed, or bound to another action."),
    engine,
  )
  after_consumption draw key action context start base (unconfirmed, engine) =
      challenge_or_deny draw action context base engine
  after_consumption draw key action context start base (confirmed, engine) =
      authorize key action context (confirmed_decision base) engine

  -- From the gameplay policy on.
  unfoldable pub decide :
      Draw → String → BoundAction → Context → Decision → Engine → Result Decision × Engine
  decide draw key action context start engine =
      let base = with_gameplay start (evaluate_gameplay engine.config action context) in
      elim base.result [
        | deny ↦ (ok base, engine)
        | require_confirmation ↦
            after_consumption draw key action context start base
              (consume_confirmation action context engine)
        | allow ↦
            if not (context.confirmation_id =ₛ "")
            then (
              ok (
                  deny_decision base "kernel.unexpected-confirmation"
                    "policy.confirmation_not_required"
                    "A confirmation cannot be attached to an action that does not require one."),
              engine,
            )
            else authorize key action context base engine
      ]

  -- `Evaluate` under the lock, with the decision's identifier.
  unfoldable pub evaluate_locked :
      String → Draw → BoundAction → Context → Engine → Result Decision × Engine
  evaluate_locked decision_id draw action context engine₀ =
      let engine = prune_challenges action context engine₀ in
      let base = base_decision decision_id action context engine.config.revision in
      let key = make_authorization_key action context engine.config.revision in
      elim (kernel_denial base action context) [
        | some decision ↦ (ok decision, engine)
        | none ↦ elim (lookup key engine.authorizations) [
          | some existing ↦
              if existing.confirmation_id =ₛ context.confirmation_id
              then (ok existing.decision, engine)
              else (
                ok (
                    invalid_confirmation base
                      "The confirmation does not match the existing authorization for this binding."),
                engine,
              )
          | none ↦ decide draw key action context base engine
        ]
      ]

  unfoldable pub evaluate : Draw → Draw → BoundAction → Context → Engine → Result Decision × Engine
  evaluate decision_draw challenge_draw action context engine =
      elim (new_id "decision" decision_draw) [
        | err e ↦ (err e, engine)
        | ok id ↦ evaluate_locked id challenge_draw action context engine
      ]

-- The reservation of a decision is given back or kept.
unfoldable pub settle_reservation : String → Bool → Engine → Engine
settle_reservation decision_id committed engine = elim (lookup decision_id engine.reservations) [
  | none ↦ engine
  | some deltas ↦ record engine {
    usage = if committed then engine.usage else rollback_deltas deltas engine.usage;
    reservations = delete decision_id engine.reservations;
  }
]

-- The authorization of a decision is marked or dropped.
unfoldable pub settle_authorization :
    String → Bool → Map AuthorizationState → Map AuthorizationState
settle_authorization key committed authorizations = elim (lookup key authorizations) [
  | none ↦ authorizations
  | some state ↦
      if committed
      then insert key (record state { finalized = true }) authorizations
      else delete key authorizations
]

unfoldable pub finalize : String → Bool → Engine → Bool × Engine
unfolding settle_reservation settle_authorization
finalize decision_id committed engine = elim (lookup decision_id engine.decision_keys) [
  | none ↦ (false, engine)
  | some key ↦
      let settled = settle_reservation decision_id committed engine in
      (
        true,
        record settled {
          authorizations = settle_authorization key committed settled.authorizations;
          decision_keys = delete decision_id settled.decision_keys;
        },
      )
]
