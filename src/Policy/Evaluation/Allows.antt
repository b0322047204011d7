-- ===== src/Policy/Evaluation/Allows.antt =====
-- When `Evaluate` allows an action that it has not allowed yet.
use rin.Common.{
  ◌≡◌, ◌≢◌, ◌↔◌, refl, inl, inr, String, ◌⋯◌, false, some, none, arith, ◌=ₛ◌, eq_iff, leb, List,
  length, Option-cases, Bool-cases,
}
use rin.Common.Maps.{Map, lookup}
use rin.Host.{BoundAction}
use rin.Policy.{
  Engine, Context, Decision, Verdict, allow, deny, require_confirmation, BudgetDelta, BudgetUsage,
  ChallengeState, max_authorizations, Result,
}
use rin.Policy.Gameplay.{evaluate_gameplay}
use rin.Policy.Keys.{make_authorization_key}
use rin.Policy.Decisions.{base_decision, deny_decision}
use rin.Policy.Budgets.{Reservation, reserved, exceeded, failed, reserve_budgets}
use rin.Policy.Challenges.{
  Draw, new_id, prune_challenges, confirmation_ttl, issue_confirmation, challenge_fits,
  consume_confirmation, remove_challenge,
}
use rin.Policy.Evaluation.{
  confirmed_decision, grant, store_authorization, make_room, challenge_or_deny, authorize,
  after_consumption, decide, evaluate_locked, evaluate,
}
use rin.Policy.Evaluation.Kernel.{IsLive, kernel_denial-IsLive}
use rin.Policy.Evaluation.Confirmed.{
  IsAllowed, Confirms, Confirms-challenge_fits, challenge_fits-Confirms, with_challenge-ne-allow,
}
use rin.Policy.Evaluation.Outcome.{gameplay_base, action_key}

-- Every budget that matches has room.
abbrev pub Reserves : Reservation × Map BudgetUsage → Type 0
Reserves (reserved ls ds, u) = Unit
Reserves (exceeded id, u) = ⊥
Reserves (failed x, u) = ⊥

-- The table of authorizations has room once the finalized ones may be dropped.
abbrev pub HasRoom : Engine → Type 0
HasRoom e = leb max_authorizations (length (make_room e.authorizations)) ≡ false

store-IsAllowed :
    (key : String) (context : Context) (d : Decision) (ds : List BudgetDelta) (e : Engine)
    → d.result ≡ allow
    → IsAllowed (store_authorization key context d ds e).0 ↔ HasRoom e
unfolding store_authorization deny_decision
store-IsAllowed key context d ds e h =
    elim (Bool-cases (leb max_authorizations (length (make_room e.authorizations)))) [
      | inl full ↦ rw (full, store_authorization) (ground arith)
      | inr room ↦ rw (room, store_authorization) (ground (arith, h))
    ]

grant-IsAllowed :
    (key : String) (context : Context) (base : Decision) (e : Engine)
    (out : Reservation × Map BudgetUsage)
    → base.result ≡ allow
    → IsAllowed (grant key context base e out).0 ↔ (Reserves out × HasRoom e)
unfolding grant deny_decision
grant-IsAllowed key context base e (reserved ls ds, u) h =
    let stored =
      store-IsAllowed key context (record base { effective_limits = ls }) ds
        (record e { usage = u }) h in
    (λ a. (tt, stored.0 a), λ a. stored.1 a.1)
grant-IsAllowed key context base e (exceeded id, u) h = ground arith
grant-IsAllowed key context base e (failed x, u) h = ground arith

module _ (digest : String → String) (action : BoundAction) (context : Context) where
  -- What the verdict of the gameplay rules asks of the confirmation: none where they allow; where they
  -- require one, an approved and unexpired challenge of this very action.
  abbrev pub Agreed : Verdict → Engine → Type 0
  Agreed allow e = context.confirmation_id ≡ ""
  Agreed deny e = ⊥
  Agreed require_confirmation e =
      (context.confirmation_id ≢ "")
      × ((state : ChallengeState) × (lookup context.confirmation_id e.challenges ≡ some state)
          × Confirms action context e.config.revision state)

  abbrev pub Fits : Engine → Type 0
  Fits e = Reserves (reserve_budgets digest action context e.config.budgets e.usage) × HasRoom e

  -- The answer of the code behind the tests of the safety kernel and of the authorizations.
  abbrev answer : String → Draw → Engine → Result Decision
  answer id draw e =
      (decide digest draw (action_key digest action context e) action context
        (base_decision id action context e.config.revision) e).0

  abbrev consumed : String → Draw → Engine → Result Decision
  consumed id draw e =
      (after_consumption digest draw (action_key digest action context e) action context
        (base_decision id action context e.config.revision)
        (gameplay_base digest action context id e) (consume_confirmation action context e)).0

  challenge_or_deny-ne-allow :
      (draw : Draw) (base : Decision) (e : Engine)
      → base.result ≡ require_confirmation
      → ¬ (IsAllowed (challenge_or_deny draw action context base e).0)
  unfolding challenge_or_deny deny_decision
  challenge_or_deny-ne-allow draw base e h =
      elim (Option-cases (confirmation_ttl e.config.confirmation_ttl context.now.clock)) [
        | inl eq ↦ rw (eq, challenge_or_deny) (λ a. ground (arith, a))
        | inr (ttl, eq) ↦
            rw (eq, challenge_or_deny)
              (with_challenge-ne-allow base (issue_confirmation draw action context ttl e) h)
      ]

  confirmed-IsAllowed :
      (id : String) (draw : Draw) (e : Engine)
      → (gameplay_base digest action context id e).result ≡ require_confirmation
      → IsAllowed (consumed id draw e) ↔ (Agreed require_confirmation e × Fits e)
  unfolding consume_confirmation after_consumption authorize deny_decision confirmed_decision
  confirmed-IsAllowed id draw e h = elim (Bool-cases (context.confirmation_id =ₛ "")) [
    | inl eq ↦
        rw (eq, IsAllowed, after_consumption, consume_confirmation)
          (
            λ a.
                absurd (
                  challenge_or_deny-ne-allow draw (gameplay_base digest action context id e) e h a),
            λ both. absurd (both.0.0 ((eq_iff context.confirmation_id "").0 eq)),
          )
    | inr eq ↦ elim (Option-cases (lookup context.confirmation_id e.challenges)) [
      | inl missing ↦
          rw (eq, missing, IsAllowed, after_consumption, consume_confirmation)
            (
              λ a. absurd (ground (arith, a)),
              λ both. let (_, found, _) = both.0.1 in absurd (ground (arith, found)),
            )
      | inr (state, there) ↦
          elim (Bool-cases (challenge_fits action context e.config.revision state)) [
            | inl fits ↦
                let granted =
                  grant-IsAllowed (action_key digest action context e) context
                    (confirmed_decision (gameplay_base digest action context id e))
                    (remove_challenge state.challenge.challenge_id state.key e)
                    (reserve_budgets digest action context e.config.budgets e.usage) refl in
                rw (eq, there, fits, IsAllowed, after_consumption, consume_confirmation)
                  (
                    λ a. (
                      (
                        λ empty.
                            absurd
                              (ground (arith, eq, (eq_iff context.confirmation_id "").1 empty)),
                        (
                          state,
                          refl,
                          challenge_fits-Confirms action context e.config.revision state fits,
                        ),
                      ),
                      granted.0 a,
                    ),
                    λ both. granted.1 both.1,
                  )
            | inr unfit ↦
                rw (eq, there, unfit, IsAllowed, after_consumption, consume_confirmation)
                  (
                    λ a. absurd (ground (arith, a)),
                    λ both.
                        let (agreed, found, confirms) = both.0.1 in
                        absurd (
                          ground (
                            arith,
                            unfit,
                            found,
                            Confirms-challenge_fits action context e.config.revision agreed
                                confirms,
                          )),
                  )
          ]
    ]
  ]

  answer-IsAllowed :
      (id : String) (draw : Draw) (e : Engine) (v : Verdict)
      → (gameplay_base digest action context id e).result ≡ v
      → IsAllowed (answer id draw e) ↔ (Agreed v e × Fits e)
  unfolding decide authorize deny_decision
  answer-IsAllowed id draw e deny h =
      rw (h, IsAllowed, decide) (λ a. absurd (ground (arith, h, a)), λ both. absurd both.0)
  answer-IsAllowed id draw e require_confirmation h =
      rw (h, IsAllowed, decide) (confirmed-IsAllowed id draw e h)
  answer-IsAllowed id draw e allow h = elim (Bool-cases (context.confirmation_id =ₛ "")) [
    | inl eq ↦
        let granted =
          grant-IsAllowed (action_key digest action context e) context
            (gameplay_base digest action context id e) e
            (reserve_budgets digest action context e.config.budgets e.usage) h in
        rw (h, eq, IsAllowed, decide, authorize)
          (λ a. ((eq_iff context.confirmation_id "").0 eq, granted.0 a), λ both. granted.1 both.1)
    | inr eq ↦
        rw (h, eq, IsAllowed, decide)
          (
            λ a. absurd (ground (arith, a)),
            λ both. absurd (ground (arith, eq, (eq_iff context.confirmation_id "").1 both.0)),
          )
  ]

  -- `Evaluate` of a live action that is not authorized yet allows it exactly when the gameplay rules
  -- allow it and no confirmation came, or they require one and the confirmation that came is an
  -- approved, unexpired challenge of this very action, principal, epoch and revision; and every budget
  -- that matches takes it; and the table of authorizations has room.
  pub evaluate-allows :
      (hex : String) (draw : Draw) (e : Engine)
      → IsLive action context
      → lookup (make_authorization_key action context e.config.revision) e.authorizations ≡ none
      → IsAllowed (evaluate digest (some hex) draw action context e).0 ↔ (
          Agreed
            (evaluate_gameplay e.config action context).result
            (prune_challenges action context e)
          × Fits e)
  unfolding evaluate evaluate_locked new_id prune_challenges
  evaluate-allows hex draw e live new =
      rw (kernel_denial-IsLive _ action context live, new, evaluate_locked)
        (answer-IsAllowed ("decision" ⋯ "." ⋯ hex) draw (prune_challenges action context e) _ refl)
