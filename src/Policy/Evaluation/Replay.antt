-- ===== src/Policy/Evaluation/Replay.antt =====
-- A permission is stored, and the next `Evaluate` of the same binding gives it again.
use rin.Common.{
  ℕ, ◌⋯◌, ◌=ₛ◌, if◌then◌else◌, ◌≡◌, refl, ap, ◌∙◌, String, List, Option, some, none, arith, leb,
  length, inl, inr, Bool-cases, Option-cases, subst,
}
use rin.Common.Maps.{Map, lookup, lookup-insert_self}
use rin.Host.{BoundAction}
use rin.Policy.{
  Engine, Context, Decision, BudgetDelta, BudgetUsage, AuthorizationState, ConfirmationChallenge,
  allow, require_confirmation, max_authorizations, Result, ok, err,
}
use rin.Policy.Keys.{make_authorization_key}
use rin.Policy.Budgets.{Reservation, reserved, exceeded, failed}
use rin.Policy.Decisions.{base_decision, deny_decision}
use rin.Policy.Challenges.{Draw, new_id, prune_challenges}
use rin.Policy.Challenges.Frame.{Frames, prune-Frames, issue-Frames}
use rin.Policy.Evaluation.{
  evaluate_locked, evaluate, grant, store_authorization, make_room, with_challenge,
  invalid_confirmation,
}
use rin.Policy.Evaluation.Kernel.{IsLive, kernel_denial-IsLive}
use rin.Policy.Evaluation.Outcome.{
  Outcome, refused, replayed, challenged, allowed, confirmed_by, evaluate-Outcome,
}

-- A later context of the same principal, server and owner; time and confirmation may differ.
pub record IsSameCaller (context later : Context) : Type 0 where
  pub principal : later.principal.id ≡ context.principal.id
  pub server : later.server_id ≡ context.server_id
  pub owner : later.owner_id ≡ context.owner_id

-- What the next `Evaluate` answers where `d` is filed: `d` itself, or, to another confirmation than the
-- one that came with it, a refusal.
abbrev pub repeated : BoundAction → Context → Decision → String → Context → Engine → Decision
repeated action context d hex later e =
    if context.confirmation_id =ₛ later.confirmation_id
    then d
    else invalid_confirmation
        (base_decision ("decision" ⋯ "." ⋯ hex) action later e.config.revision)
        "The confirmation does not match the existing authorization for this binding."

abbrev Records : Context → Decision → Option AuthorizationState → Type 0
Records context d none = ⊥
Records context d (some state) =
    (state.decision ≡ d) × (state.confirmation_id ≡ context.confirmation_id)

-- A decision that allows is filed under the key, with the confirmation that came.
abbrev IsStored : String → Context → Result Decision × Engine → Type 0
IsStored key context (err x, e) = Unit
IsStored key context (ok d, e) = d.result ≡ allow → Records context d (lookup key e.authorizations)

store-IsStored :
    (key : String) (context : Context) (d : Decision) (ds : List BudgetDelta) (e : Engine)
    → IsStored key context (store_authorization key context d ds e)
unfolding store_authorization deny_decision
store-IsStored key context d ds e =
    elim (Bool-cases (leb max_authorizations (length (make_room e.authorizations)))) [
      | inl full ↦ rw (full, store_authorization) (λ a. ground (arith, a))
      | inr room ↦ rw (room, store_authorization, lookup-insert_self) (λ a. (refl, refl))
    ]

grant-IsStored :
    (key : String) (context : Context) (base : Decision) (e : Engine)
    (out : Reservation × Map BudgetUsage)
    → IsStored key context (grant key context base e out)
unfolding grant deny_decision
grant-IsStored key context base e (reserved ls ds, v) = store-IsStored key context _ ds _
grant-IsStored key context base e (exceeded id, v) = λ a. ground (arith, a)
grant-IsStored key context base e (failed x, v) = tt

with_challenge-IsStored :
    (key : String) (context : Context) (base : Decision)
    (out : Result ConfirmationChallenge × Engine)
    → base.result ≡ require_confirmation
    → IsStored key context (with_challenge base out)
unfolding with_challenge
with_challenge-IsStored key context base (ok c, e) h = λ a. ground (arith, a, h)
with_challenge-IsStored key context base (err x, e) h = tt

with_challenge-config :
    (base : Decision) (out : Result ConfirmationChallenge × Engine)
    → (with_challenge base out).1.config ≡ out.1.config
unfolding with_challenge
with_challenge-config base (ok c, e) = refl
with_challenge-config base (err x, e) = refl

grant-config :
    (key : String) (context : Context) (base : Decision) (e : Engine)
    (out : Reservation × Map BudgetUsage)
    → (grant key context base e out).1.config ≡ e.config
unfolding grant store_authorization
grant-config key context base e (reserved ls ds, v) = ground arith
grant-config key context base e (exceeded id, v) = refl
grant-config key context base e (failed x, v) = refl

IsStored-Records :
    (key : String) (context : Context) (out : Result Decision × Engine) (d : Decision)
    → IsStored key context out
    → out.0 ≡ ok d
    → d.result ≡ allow
    → Records context d (lookup key out.1.authorizations)
IsStored-Records key context (ok d', e) d h eq a =
    let same : d' ≡ d = cc in
    subst (λ x. Records context x (lookup key e.authorizations)) same
      (h (ap (λ x. x.result) same ∙ a))
IsStored-Records key context (err x, e) d h eq a = absurd (ground (arith, eq))

module _ (digest : String → String) (action : BoundAction) (context : Context) where
  Outcome-IsStored :
      (id : String) (draw : Draw) (e : Engine) (out : Result Decision × Engine)
      → Outcome digest action context id draw e out
      → IsStored (make_authorization_key action context e.config.revision) context out
  Outcome-IsStored id draw e _ (refused d r) = λ a. ground (arith, a, r.denied)
  Outcome-IsStored id draw e _ (replayed s n there same) = λ a. rw there (refl, same)
  Outcome-IsStored id draw e _ (challenged ttl g c) = with_challenge-IsStored _ context _ _ g
  Outcome-IsStored id draw e _ (allowed n g c) = grant-IsStored _ context _ e _
  Outcome-IsStored id draw e _ (confirmed_by s n g there fits) = grant-IsStored _ context _ _ _

  same_key :
      (later : Context) (revision : ℕ)
      → IsSameCaller context later
      → make_authorization_key action later revision
        ≡ make_authorization_key action context revision
  unfolding make_authorization_key
  same_key later revision same = rw (same.principal, same.server, same.owner) refl

  replay_found :
      (hex : String) (draw : Draw) (e : Engine) (d : Decision) (later : Context)
      → IsLive action later
      → IsSameCaller context later
      → Records context d
          (lookup (make_authorization_key action context e.config.revision) e.authorizations)
      → ((evaluate digest (some hex) draw action later e).0
          ≡ ok (repeated action context d hex later e))
        × Frames e (evaluate digest (some hex) draw action later e).1
  unfolding evaluate evaluate_locked new_id prune_challenges
  replay_found hex draw e d later live caller h =
      let key = make_authorization_key action context e.config.revision in
      elim (Option-cases (lookup key e.authorizations)) [
        | inl eq ↦ absurd (subst (Records context d) eq h)
        | inr (state, eq) ↦
            let (same_decision, same) = subst (Records context d) eq h in
            elim (Bool-cases (context.confirmation_id =ₛ later.confirmation_id)) [
              | inl agreed ↦
                  rw
                    (
                      kernel_denial-IsLive _ action later live,
                      same_key later e.config.revision caller,
                      eq,
                      same,
                      agreed,
                      same_decision,
                      evaluate_locked,
                    )
                    (refl, prune-Frames action later e)
              | inr differs ↦
                  rw
                    (
                      kernel_denial-IsLive _ action later live,
                      same_key later e.config.revision caller,
                      eq,
                      same,
                      differs,
                      evaluate_locked,
                    )
                    (refl, prune-Frames action later e)
            ]
      ]

  Outcome-config :
      (id : String) (draw : Draw) (e : Engine) (out : Result Decision × Engine)
      → Outcome digest action context id draw e out
      → out.1.config ≡ e.config
  Outcome-config id draw e _ (refused d r) = refl
  Outcome-config id draw e _ (replayed s n there same) = refl
  Outcome-config id draw e _ (challenged ttl g c) =
      with_challenge-config _ _ ∙ (issue-Frames action context e draw ttl).config
  Outcome-config id draw e _ (allowed n g c) = grant-config _ context _ e _
  Outcome-config id draw e _ (confirmed_by s n g there fits) = grant-config _ context _ _ _

  -- Once `Evaluate` has allowed an action, the next `Evaluate` of the same action by the same principal
  -- for the same server and owner, at any later time at which the Host is not stopped, is in the epoch
  -- of the binding, and the binding lasts, charges nothing: with the same confirmation it gives the very
  -- same decision, with another one it refuses, and in both cases it changes neither the configuration,
  -- the usage, the reservations, the authorizations nor the decision keys.
  pub evaluate-replay :
      (hex hex' : String) (draw draw' : Draw) (e : Engine) (d : Decision) (later : Context)
      → IsLive action later
      → IsSameCaller context later
      → (evaluate digest (some hex) draw action context e).0 ≡ ok d
      → d.result ≡ allow
      → ((evaluate digest
            (some hex')
            draw'
            action
            later
            (evaluate digest (some hex) draw action context e).1).0
          ≡ ok (
              repeated action context d hex' later
                (evaluate digest (some hex) draw action context e).1))
        × Frames
            (evaluate digest (some hex) draw action context e).1
            (evaluate digest
              (some hex')
              draw'
              action
              later
              (evaluate digest (some hex) draw action context e).1).1
  unfolding prune_challenges
  evaluate-replay hex hex' draw draw' e d later live caller eq a =
      let out = evaluate digest (some hex) draw action context e in
      let outcome = evaluate-Outcome digest action context hex draw e in
      replay_found hex' draw' out.1 d later live caller (
        rw (Outcome-config _ draw _ out outcome)
          (IsStored-Records _ context out d (Outcome-IsStored _ draw _ out outcome) eq a))
