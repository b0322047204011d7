-- ===== src/Policy/Evaluation/Ledger.antt =====
-- The ledger of budget reservations: every bucket of the usage table covers what is reserved in it.
use rin.Common.{
  ℕ, ◌+◌, ◌≤◌, ◌≡◌, inl, inr, String, Bool, List, [], ◌∷◌, none, some, arith, Bool-cases,
  Option-cases, leb, length, ◌⋯◌,
}
use rin.Common.Maps.{Map, lookup, insert, delete}
use rin.Host.{BoundAction}
use rin.Policy.{
  ok, err, ConfirmationChallenge, Config, Context, Decision, BudgetDelta, BudgetUsage,
  EffectiveLimit, Engine, Result, max_authorizations,
}
use rin.Policy.Budgets.{used, Reservation, reserved, exceeded, failed, rollback_deltas}
use rin.Policy.Budgets.Usage.{SameUsage, actions_at, quantity_at, rollback-minus}
use rin.Policy.Budgets.Restore.{IsBounded, Restores, reserve_budgets-Restores}
use rin.Policy.Budgets.Loop.{Holds}
use rin.Policy.Budgets.Ledger.{Adds, reserve_budgets-Adds}
use rin.Policy.Challenges.{
  Draw, Consumption, unconfirmed, confirmed, rejected, new_id, issue_confirmation, confirmation_ttl,
  consume_confirmation, prune_challenges,
}
use rin.Policy.Challenges.Frame.{Frames, prune-Frames, issue-Frames, consume-Frames}
use rin.Policy.Gameplay.{evaluate_gameplay}
use rin.Policy.Keys.{make_authorization_key}
use rin.Policy.Decisions.{base_decision}
use rin.Policy.Evaluation.{
  confirmed_decision, with_gameplay, update, add_reservation, make_room, store_authorization, grant,
  authorize, with_challenge, challenge_or_deny, after_consumption, decide, evaluate_locked,
  evaluate, settle_reservation, finalize,
}

abbrev pub reserved_actions : String → Map (List BudgetDelta) → ℕ
reserved_actions k [] = 0
reserved_actions k ((id, ds) ∷ m) = actions_at k ds + reserved_actions k m

abbrev pub reserved_quantity : String → Map (List BudgetDelta) → ℕ
reserved_quantity k [] = 0
reserved_quantity k ((id, ds) ∷ m) = quantity_at k ds + reserved_quantity k m

-- The usage of a bucket is at least what the open reservations hold of it.
abbrev Covers : Map BudgetUsage → Map (List BudgetDelta) → Type 0
Covers usage reservations =
    (k : String)
    → (reserved_actions k reservations ≤ (used usage k).actions)
      × (reserved_quantity k reservations ≤ (used usage k).quantity)

abbrev pub IsBacked : Engine → Type 0
IsBacked engine = Covers engine.usage engine.reservations

pub reserved-delete-le :
    (k id : String) (m : Map (List BudgetDelta))
    → (reserved_actions k (delete id m) ≤ reserved_actions k m)
      × (reserved_quantity k (delete id m) ≤ reserved_quantity k m)
unfolding delete
reserved-delete-le k id [] = omega arith
reserved-delete-le k id ((j, ds) ∷ m) = ground (arith, reserved-delete-le k id m)

-- Dropping a reservation frees at least what it held.
reserved-delete-lookup :
    (k id : String) (m : Map (List BudgetDelta)) (ds : List BudgetDelta)
    → lookup id m ≡ some ds
    → (reserved_actions k (delete id m) + actions_at k ds ≤ reserved_actions k m)
      × (reserved_quantity k (delete id m) + quantity_at k ds ≤ reserved_quantity k m)
unfolding lookup delete
reserved-delete-lookup k id [] ds e = ground arith
reserved-delete-lookup k id ((j, x) ∷ m) ds e =
    ground (arith, reserved-delete-le k id m, reserved-delete-lookup k id m ds)

Covers-SameUsage :
    (u v : Map BudgetUsage) (m : Map (List BudgetDelta)) → SameUsage v u → Covers u m → Covers v m
Covers-SameUsage u v m same h k = rw (same k) (h k)

Covers-add :
    (u v : Map BudgetUsage) (m : Map (List BudgetDelta)) (id : String) (ls : List EffectiveLimit)
    (ds : List BudgetDelta)
    → Adds u ls ds v
    → Covers u m
    → Covers v (add_reservation id ds m)
unfolding insert
Covers-add u v m id ls [] add h k = omega (arith, add k, h k)
Covers-add u v m id ls (d ∷ ds) add h k = omega (arith, add k, h k, reserved-delete-le k id m)

Covers-rollback :
    (u : Map BudgetUsage) (m : Map (List BudgetDelta)) (id : String) (ds : List BudgetDelta)
    → lookup id m ≡ some ds
    → Covers u m
    → Covers (rollback_deltas ds u) (delete id m)
Covers-rollback u m id ds e h k = omega (
  arith,
  rollback-minus ds u (λ j. omega (arith, reserved-delete-lookup j id m ds e, h j)) k,
  reserved-delete-lookup k id m ds e,
  h k,
)

pub Frames-IsBacked : (e e' : Engine) → Frames e e' → IsBacked e → IsBacked e'
Frames-IsBacked e e' f h k = rw (f.usage, f.reservations) (h k)

store-IsBacked :
    (key : String) (context : Context) (decision : Decision) (ls : List EffectiveLimit)
    (ds : List BudgetDelta) (e : Engine) (v : Map BudgetUsage)
    → SameUsage (rollback_deltas ds v) e.usage
    → Adds e.usage ls ds v
    → IsBacked e
    → IsBacked (store_authorization key context decision ds (record e { usage = v })).1
unfolding store_authorization
store-IsBacked key context decision ls ds e v back add h =
    elim (Bool-cases (leb max_authorizations (length (make_room e.authorizations)))) [
      | inl eq ↦
          rw (eq, store_authorization)
            (Covers-SameUsage e.usage (rollback_deltas ds v) e.reservations back h)
      | inr eq ↦
          rw (eq, store_authorization)
            (Covers-add e.usage v e.reservations decision.decision_id ls ds add h)
    ]

grant-IsBacked :
    (key : String) (context : Context) (base : Decision) (e : Engine)
    (out : Reservation × Map BudgetUsage)
    → Restores e.usage out
    → Holds (Adds e.usage) out
    → IsBacked e
    → IsBacked (grant key context base e out).1
unfolding grant
grant-IsBacked key context base e (failed x, v) back add h =
    Covers-SameUsage e.usage v e.reservations back h
grant-IsBacked key context base e (exceeded id, v) back add h =
    Covers-SameUsage e.usage v e.reservations back h
grant-IsBacked key context base e (reserved ls ds, v) back add h =
    store-IsBacked key context (record base { effective_limits = ls }) ls ds e v back add h

with_challenge-IsBacked :
    (base : Decision) (out : Result ConfirmationChallenge × Engine)
    → IsBacked out.1
    → IsBacked (with_challenge base out).1
unfolding with_challenge
with_challenge-IsBacked base (err x, e) h = h
with_challenge-IsBacked base (ok c, e) h = h

module _ (action : BoundAction) (context : Context) (bounded : IsBounded action) where
  challenge_or_deny-IsBacked :
      (draw : Draw) (base : Decision) (e : Engine)
      → IsBacked e
      → IsBacked (challenge_or_deny draw action context base e).1
  unfolding challenge_or_deny
  challenge_or_deny-IsBacked draw base e h =
      elim (Option-cases (confirmation_ttl e.config.confirmation_ttl context.now.clock)) [
        | inl eq ↦ rw (eq, challenge_or_deny) h
        | inr (ttl, eq) ↦
            rw (eq, challenge_or_deny)
              (with_challenge-IsBacked base (issue_confirmation draw action context ttl e)
                (Frames-IsBacked e _ (issue-Frames action context e draw ttl) h))
      ]

  module _ (digest : String → String) where
    authorize-IsBacked :
        (key : String) (base : Decision) (e : Engine)
        → IsBacked e
        → IsBacked (authorize digest key action context base e).1
    unfolding authorize
    authorize-IsBacked key base e h =
        grant-IsBacked key context base e _
          (reserve_budgets-Restores digest action context e.config.budgets e.usage bounded)
          (reserve_budgets-Adds digest action context e.config.budgets e.usage) h

    after_consumption-IsBacked :
        (draw : Draw) (key : String) (start base : Decision) (out : Consumption × Engine)
        → IsBacked out.1
        → IsBacked (after_consumption digest draw key action context start base out).1
    unfolding after_consumption
    after_consumption-IsBacked draw key start base (rejected, e) h = h
    after_consumption-IsBacked draw key start base (unconfirmed, e) h =
        challenge_or_deny-IsBacked draw base e h
    after_consumption-IsBacked draw key start base (confirmed, e) h =
        authorize-IsBacked key (confirmed_decision base) e h

    decide-IsBacked :
        (draw : Draw) (key : String) (start : Decision) (e : Engine)
        → IsBacked e
        → IsBacked (decide digest draw key action context start e).1
    unfolding decide
    decide-IsBacked draw key start e h = ground (
      arith,
      h,
      authorize-IsBacked key (with_gameplay start (evaluate_gameplay e.config action context)) e h,
      after_consumption-IsBacked draw key start
          (with_gameplay start (evaluate_gameplay e.config action context))
          (consume_confirmation action context e)
          (Frames-IsBacked e _ (consume-Frames action context e) h),
    )

    evaluate_locked-IsBacked :
        (id : String) (draw : Draw) (e : Engine)
        → IsBacked e
        → IsBacked (evaluate_locked digest id draw action context e).1
    unfolding evaluate_locked
    evaluate_locked-IsBacked id draw e h =
        let pruned = prune_challenges action context e in
        let kept = Frames-IsBacked e _ (prune-Frames action context e) h in
        ground (
          arith,
          kept,
          decide-IsBacked draw (make_authorization_key action context pruned.config.revision)
              (base_decision id action context pruned.config.revision) pruned kept,
        )

    -- For an action that host validation admits, `Evaluate` keeps every bucket of the usage table
    -- at or above what the open reservations hold of it.
    pub evaluate-IsBacked :
        (decision_draw draw : Draw) (e : Engine)
        → IsBacked e
        → IsBacked (evaluate digest decision_draw draw action context e).1
    unfolding evaluate new_id
    evaluate-IsBacked none draw e h = h
    evaluate-IsBacked (some hex) draw e h =
        evaluate_locked-IsBacked ("decision" ⋯ "." ⋯ hex) draw e h

settle_reservation-IsBacked :
    (id : String) (committed : Bool) (e : Engine)
    → IsBacked e
    → IsBacked (settle_reservation id committed e)
unfolding settle_reservation
settle_reservation-IsBacked id committed e h = elim (Option-cases (lookup id e.reservations)) [
  | inl eq ↦ rw (eq, settle_reservation) h
  | inr (ds, eq) ↦ ground (
    arith,
    λ (k : String). reserved-delete-le k id e.reservations,
    h,
    Covers-rollback e.usage e.reservations id ds eq h,
  )
]

pub finalize-IsBacked :
    (id : String) (committed : Bool) (e : Engine)
    → IsBacked e
    → IsBacked (finalize id committed e).1
unfolding finalize
finalize-IsBacked id committed e h = ground (arith, h, settle_reservation-IsBacked id committed e h)

pub update-IsBacked :
    (config : Config) (digest : String) (e : Engine)
    → IsBacked e
    → IsBacked (update config digest e).1
unfolding update
update-IsBacked config digest e h = ground (arith, h)
