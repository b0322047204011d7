-- ===== src/Policy/Evaluation/Finalize.antt =====
-- A permission that is not used gives its reservation back.
use rin.Common.{
  ◌≡◌, refl, ap, ◌∙◌, inl, inr, String, ◌⋯◌, true, false, List, [], ◌∷◌, some, none, arith, leb,
  length, Bool-cases, subst,
}
use rin.Common.Maps.{Map, lookup, insert, lookup-insert_self}
use rin.Host.{BoundAction}
use rin.Policy.{
  Engine, Context, Decision, BudgetDelta, BudgetUsage, ConfirmationChallenge, allow,
  require_confirmation, max_authorizations, Result, ok, err,
}
use rin.Policy.Keys.{make_authorization_key}
use rin.Policy.Decisions.{deny_decision, base_decision}
use rin.Policy.Budgets.{Reservation, reserved, exceeded, failed, used, rollback_deltas}
use rin.Policy.Budgets.Usage.{SameUsage}
use rin.Policy.Budgets.Restore.{IsBounded, Restores, reserve_budgets-Restores}
use rin.Policy.Challenges.{Draw, prune_challenges}
use rin.Policy.Evaluation.{
  grant, store_authorization, make_room, add_reservation, with_challenge, confirmed_decision,
  finalize, settle_reservation, evaluate,
}
use rin.Policy.Evaluation.Outcome.{
  Outcome, refused, replayed, challenged, allowed, confirmed_by, evaluate-Outcome,
}

-- A decision that allows can be taken back: its roll-back leaves the usage of `u`, bucket by bucket.
abbrev IsUndoable : Map BudgetUsage → Result Decision × Engine → Type 0
IsUndoable u (err x, e) = Unit
IsUndoable u (ok d, e) =
    d.result ≡ allow
    → ((finalize d.decision_id false e).0 ≡ true)
      × SameUsage (finalize d.decision_id false e).1.usage u

settle-added :
    (id : String) (ds : List BudgetDelta) (e : Engine) (m : Map (List BudgetDelta))
    → lookup id m ≡ none
    → e.reservations ≡ add_reservation id ds m
    → (settle_reservation id false e).usage ≡ rollback_deltas ds e.usage
unfolding settle_reservation rollback_deltas
settle-added id [] e m fresh eq = rw (eq, settle_reservation, fresh) refl
settle-added id (d ∷ ds) e m fresh eq = rw (eq, settle_reservation, lookup-insert_self) refl

store-IsUndoable :
    (key : String) (context : Context) (d : Decision) (ds : List BudgetDelta) (e : Engine)
    (u : Map BudgetUsage)
    → lookup d.decision_id e.reservations ≡ none
    → SameUsage (rollback_deltas ds e.usage) u
    → IsUndoable u (store_authorization key context d ds e)
unfolding store_authorization finalize settle_reservation deny_decision
store-IsUndoable key context d ds e u fresh back =
    elim (Bool-cases (leb max_authorizations (length (make_room e.authorizations)))) [
      | inl full ↦ rw (full, store_authorization) (λ a. absurd (ground (arith, a)))
      | inr room ↦
          rw (room, store_authorization, finalize, lookup-insert_self)
            (λ a. (
              refl,
              λ k. ap (λ v. used v k) (settle-added d.decision_id ds stored _ fresh refl) ∙ back k,
            ))
    ]
  where
    stored : Engine
    stored = record e {
      authorizations =
          insert key
            (record { decision = d; confirmation_id = context.confirmation_id; finalized = false })
            (make_room e.authorizations);
      decision_keys = insert d.decision_id key e.decision_keys;
      reservations = add_reservation d.decision_id ds e.reservations;
    }

grant-IsUndoable :
    (key : String) (context : Context) (base : Decision) (e : Engine)
    (out : Reservation × Map BudgetUsage)
    → lookup base.decision_id e.reservations ≡ none
    → Restores e.usage out
    → IsUndoable e.usage (grant key context base e out)
unfolding grant deny_decision
grant-IsUndoable key context base e (reserved ls ds, v) fresh back =
    store-IsUndoable key context (record base { effective_limits = ls }) ds (record e { usage = v })
      e.usage fresh back
grant-IsUndoable key context base e (exceeded id, v) fresh back = λ a. absurd (ground (arith, a))
grant-IsUndoable key context base e (failed x, v) fresh back = tt

with_challenge-IsUndoable :
    (u : Map BudgetUsage) (base : Decision) (out : Result ConfirmationChallenge × Engine)
    → base.result ≡ require_confirmation
    → IsUndoable u (with_challenge base out)
unfolding with_challenge
with_challenge-IsUndoable u base (ok c, e) h = λ a. absurd (ground (arith, a, h))
with_challenge-IsUndoable u base (err x, e) h = tt

module _ (digest : String → String) (action : BoundAction) (context : Context)
    (bounded : IsBounded action) where
  Outcome-IsUndoable :
      (id : String) (draw : Draw) (e : Engine) (out : Result Decision × Engine)
      → Outcome digest action context id draw e out
      → lookup id e.reservations ≡ none
      → lookup (make_authorization_key action context e.config.revision) e.authorizations ≡ none
      → IsUndoable e.usage out
  unfolding base_decision confirmed_decision
  Outcome-IsUndoable id draw e _ (refused d r) fresh new = λ a. absurd (ground (arith, a, r.denied))
  Outcome-IsUndoable id draw e _ (replayed s n there same) fresh new =
      absurd (ground (arith, there, new))
  Outcome-IsUndoable id draw e _ (challenged ttl g c) fresh new =
      with_challenge-IsUndoable e.usage _ _ g
  Outcome-IsUndoable id draw e _ (allowed n g c) fresh new =
      grant-IsUndoable _ context _ e _ fresh
        (reserve_budgets-Restores digest action context e.config.budgets e.usage bounded)
  Outcome-IsUndoable id draw e _ (confirmed_by s n g there fits) fresh new =
      grant-IsUndoable _ context _ _ _ fresh
        (reserve_budgets-Restores digest action context e.config.budgets e.usage bounded)

IsUndoable-at :
    (u : Map BudgetUsage) (out : Result Decision × Engine) (d : Decision)
    → IsUndoable u out
    → out.0 ≡ ok d
    → d.result ≡ allow
    → ((finalize d.decision_id false out.1).0 ≡ true)
      × SameUsage (finalize d.decision_id false out.1).1.usage u
IsUndoable-at u (ok d', e) d h eq a =
    let same : d' ≡ d = cc in
    subst
      (λ x.
        ((finalize x.decision_id false e).0 ≡ true)
        × SameUsage (finalize x.decision_id false e).1.usage u)
      same (h (ap (λ x. x.result) same ∙ a))
IsUndoable-at u (err x, e) d h eq a = absurd (ground (arith, eq))

-- For an action that host validation admits and that is not authorized yet, and a decision
-- identifier that holds no reservation: if `Evaluate` allows the action, `Finalize` of its decision
-- with `committed` false finds it, and every bucket of the usage table is then as it was before.
pub evaluate-finalize :
    (digest : String → String) (action : BoundAction) (context : Context) (hex : String)
    (draw : Draw) (e : Engine) (d : Decision)
    → IsBounded action
    → lookup ("decision" ⋯ "." ⋯ hex) e.reservations ≡ none
    → lookup (make_authorization_key action context e.config.revision) e.authorizations ≡ none
    → (evaluate digest (some hex) draw action context e).0 ≡ ok d
    → d.result ≡ allow
    → ((finalize d.decision_id false (evaluate digest (some hex) draw action context e).1).0 ≡ true)
      × SameUsage
          (finalize d.decision_id false
            (evaluate digest (some hex) draw action context e).1).1.usage
          e.usage
unfolding prune_challenges
evaluate-finalize digest action context hex draw e d bounded fresh new eq a =
    IsUndoable-at e.usage (evaluate digest (some hex) draw action context e) d
      (Outcome-IsUndoable digest action context bounded ("decision" ⋯ "." ⋯ hex) draw
        (prune_challenges action context e) _ (evaluate-Outcome digest action context hex draw e)
        fresh new)
      eq a
