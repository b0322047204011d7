-- ===== src/Policy/Evaluation/Outcome.antt =====
-- What `Evaluate` comes to: an inductive description of its branches, and that the code has no other.
use rin.Common.{
  ℕ, ◌≡◌, refl, inl, inr, String, ◌⋯◌, true, [], some, none, arith, ◌=ₛ◌, eq_iff, Option-cases,
  Bool-cases,
}
use rin.Common.Maps.{lookup}
use rin.Host.{BoundAction}
use rin.Policy.{
  Engine, Context, Decision, Verdict, allow, deny, require_confirmation, AuthorizationState,
  ChallengeState, Result, ok,
}
use rin.Policy.Gameplay.{evaluate_gameplay}
use rin.Policy.Keys.{make_authorization_key}
use rin.Policy.Decisions.{base_decision, deny_decision}
use rin.Policy.Budgets.{reserve_budgets}
use rin.Policy.Challenges.{
  Draw, new_id, prune_challenges, confirmation_ttl, issue_confirmation, challenge_fits,
  remove_challenge, consume_confirmation,
}
use rin.Policy.Evaluation.{
  invalid_confirmation, kernel_denial, with_gameplay, confirmed_decision, grant, with_challenge,
  challenge_or_deny, authorize, after_consumption, decide, evaluate_locked, evaluate,
}

-- A refusal: no limits and no challenge.
pub record IsRefusal (d : Decision) : Type 0 where
  pub denied : d.result ≡ deny
  pub no_limits : d.effective_limits ≡ []
  pub no_challenge : d.confirmation ≡ none

module _ (digest : String → String) (action : BoundAction) (context : Context) where
  -- The decision that the gameplay rules make.
  abbrev pub gameplay_base : String → Engine → Decision
  gameplay_base id e =
      with_gameplay (base_decision id action context e.config.revision)
        (evaluate_gameplay e.config action context)

  abbrev pub action_key : Engine → String
  action_key e = make_authorization_key action context e.config.revision

  -- A grant of `base`, from the budgets on.
  abbrev pub granted : Decision → String → Engine → Result Decision × Engine
  granted base key e =
      grant key context base e (reserve_budgets digest action context e.config.budgets e.usage)

  -- The branches; the engine is the one whose expired challenges are pruned.
  pub data Outcome (id : String) (draw : Draw) (e : Engine)
      : Result Decision × Engine → Type 0 where
    refused : (d : Decision) → IsRefusal d → Outcome id draw e (ok d, e)
    replayed :
        (state : AuthorizationState)
        → kernel_denial (base_decision id action context e.config.revision) action context ≡ none
        → lookup (action_key e) e.authorizations ≡ some state
        → state.confirmation_id ≡ context.confirmation_id
        → Outcome id draw e (ok state.decision, e)
    challenged :
        (ttl : ℕ)
        → (gameplay_base id e).result ≡ require_confirmation
        → context.confirmation_id ≡ ""
        → Outcome id draw e
            (with_challenge (gameplay_base id e) (issue_confirmation draw action context ttl e))
    allowed :
        kernel_denial (base_decision id action context e.config.revision) action context ≡ none
        → (gameplay_base id e).result ≡ allow
        → context.confirmation_id ≡ ""
        → Outcome id draw e (granted (gameplay_base id e) (action_key e) e)
    confirmed_by :
        (state : ChallengeState)
        → kernel_denial (base_decision id action context e.config.revision) action context ≡ none
        → (gameplay_base id e).result ≡ require_confirmation
        → lookup context.confirmation_id e.challenges ≡ some state
        → challenge_fits action context e.config.revision state ≡ true
        → Outcome id draw e (
            granted
              (confirmed_decision (gameplay_base id e))
              (action_key e)
              (remove_challenge state.challenge.challenge_id state.key e))

  challenge_or_deny-Outcome :
      (id : String) (draw : Draw) (e : Engine)
      → (gameplay_base id e).result ≡ require_confirmation
      → context.confirmation_id ≡ ""
      → Outcome id draw e (challenge_or_deny draw action context (gameplay_base id e) e)
  unfolding challenge_or_deny deny_decision
  challenge_or_deny-Outcome id draw e h c =
      elim (Option-cases (confirmation_ttl e.config.confirmation_ttl context.now.clock)) [
        | inl eq ↦
            rw (eq, challenge_or_deny)
              (refused _ (record { denied = refl; no_limits = refl; no_challenge = refl }))
        | inr (ttl, eq) ↦ rw (eq, challenge_or_deny) (challenged ttl h c)
      ]

  consumed-Outcome :
      (id : String) (draw : Draw) (e : Engine)
      → kernel_denial (base_decision id action context e.config.revision) action context ≡ none
      → (gameplay_base id e).result ≡ require_confirmation
      → Outcome id draw e (
          after_consumption digest draw
            (action_key e)
            action
            context
            (base_decision id action context e.config.revision)
            (gameplay_base id e)
            (consume_confirmation action context e))
  unfolding consume_confirmation after_consumption authorize deny_decision
  consumed-Outcome id draw e n h = elim (Bool-cases (context.confirmation_id =ₛ "")) [
    | inl eq ↦
        rw (eq, consume_confirmation)
          (challenge_or_deny-Outcome id draw e h ((eq_iff context.confirmation_id "").0 eq))
    | inr eq ↦ elim (Option-cases (lookup context.confirmation_id e.challenges)) [
      | inl none_there ↦
          rw (eq, none_there, consume_confirmation)
            (refused _ (record { denied = refl; no_limits = refl; no_challenge = refl }))
      | inr (state, there) ↦
          elim (Bool-cases (challenge_fits action context e.config.revision state)) [
            | inl fits ↦
                rw (eq, there, fits, consume_confirmation) (confirmed_by state n h there fits)
            | inr unfit ↦
                rw (eq, there, unfit, consume_confirmation)
                  (refused _ (record { denied = refl; no_limits = refl; no_challenge = refl }))
          ]
    ]
  ]

  decide-Outcome :
      (id : String) (draw : Draw) (e : Engine) (v : Verdict)
      → kernel_denial (base_decision id action context e.config.revision) action context ≡ none
      → (gameplay_base id e).result ≡ v
      → Outcome id draw e (
          decide digest draw
            (action_key e)
            action
            context
            (base_decision id action context e.config.revision)
            e)
  unfolding decide base_decision authorize deny_decision
  decide-Outcome id draw e deny n h =
      rw (h, decide) (refused _ (record { denied = h; no_limits = refl; no_challenge = refl }))
  decide-Outcome id draw e require_confirmation n h =
      rw (h, decide) (consumed-Outcome id draw e n h)
  decide-Outcome id draw e allow n h = elim (Bool-cases (context.confirmation_id =ₛ "")) [
    | inl eq ↦
        rw (h, eq, decide, authorize) (allowed n h ((eq_iff context.confirmation_id "").0 eq))
    | inr eq ↦
        rw (h, eq, decide)
          (refused _ (record { denied = refl; no_limits = refl; no_challenge = refl }))
  ]

  refused_mismatch : (d : Decision) (s : String) → IsRefusal (invalid_confirmation d s)
  unfolding deny_decision
  refused_mismatch d s = record { denied = refl; no_limits = refl; no_challenge = refl }

  kernel_denial-IsRefusal :
      (base : Decision) (d : Decision) → kernel_denial base action context ≡ some d → IsRefusal d
  unfolding kernel_denial deny_decision
  kernel_denial-IsRefusal base d h = ground (arith, h)

  -- Every run of `Evaluate` that draws an identifier is one of the branches of `Outcome`, on the
  -- engine whose expired challenges are pruned.
  pub evaluate-Outcome :
      (hex : String) (draw : Draw) (e : Engine)
      → Outcome
          ("decision" ⋯ "." ⋯ hex)
          draw
          (prune_challenges action context e)
          (evaluate digest (some hex) draw action context e)
  unfolding evaluate evaluate_locked new_id
  evaluate-Outcome hex draw e₀ =
      let id = "decision" ⋯ "." ⋯ hex in
      let e = prune_challenges action context e₀ in
      let base = base_decision id action context e.config.revision in
      elim (Option-cases (kernel_denial base action context)) [
        | inr (d, eq) ↦ rw (eq, evaluate_locked) (refused d (kernel_denial-IsRefusal base d eq))
        | inl eq ↦ elim (Option-cases (lookup (action_key e) e.authorizations)) [
          | inl new ↦ rw (eq, new, evaluate_locked) (decide-Outcome id draw e _ eq refl)
          | inr (state, there) ↦
              elim (Bool-cases (state.confirmation_id =ₛ context.confirmation_id)) [
                | inl same ↦
                    rw (eq, there, same, evaluate_locked)
                      (replayed state eq there
                        ((eq_iff state.confirmation_id context.confirmation_id).0 same))
                | inr other ↦
                    rw (eq, there, other, evaluate_locked) (refused _ (refused_mismatch base _))
              ]
        ]
      ]
