-- ===== src/Policy/Evaluation/Confirmed.antt =====
-- What a new permission needs where the gameplay rules require a confirmation.
use rin.Common.{ℕ, ◌≡◌, String, ◌⋯◌, true, some, none, arith, eq_iff, ◌<◌}
use rin.Common.Maps.{lookup, lookup-delete_self}
use rin.Host.{BoundAction, clock_eq_iff, epoch_eq_iff}
use rin.Policy.{
  Engine, Context, Decision, allow, require_confirmation, ChallengeState, ConfirmationChallenge,
  Result, ok, err,
}
use rin.Policy.Gameplay.{evaluate_gameplay}
use rin.Policy.Keys.{make_authorization_key, make_challenge_key}
use rin.Policy.Challenges.{remove_challenge, Draw, prune_challenges, challenge_fits}
use rin.Policy.Challenges.Consume.{IsKeyed, AreKeyed-lookup, prune-IsKeyed}
use rin.Policy.Evaluation.Keyed.{grant-challenges, Reachable-IsKeyed}
use rin.Policy.Evaluation.Reachable.{Reachable}
use rin.Policy.Evaluation.{confirmed_decision, with_challenge, evaluate}
use rin.Policy.Evaluation.Outcome.{
  granted, gameplay_base, action_key, Outcome, refused, replayed, challenged, allowed, confirmed_by,
  evaluate-Outcome,
}

abbrev pub IsAllowed : Result Decision → Type 0
IsAllowed (ok d) = d.result ≡ allow
IsAllowed (err e) = ⊥

-- The approved challenge names this very action, principal and revision, and has not expired.
pub record Confirms (action : BoundAction) (context : Context) (revision : ℕ)
    (state : ChallengeState) : Type 0 where
  pub approved : state.approved ≡ true
  pub key : state.key ≡ make_challenge_key action context revision
  pub controller : state.challenge.controller_id ≡ action.controller_id
  pub actor : state.challenge.actor_id ≡ action.actor_id
  pub principal : state.challenge.principal_id ≡ context.principal.id
  pub effects : state.challenge.effect_digest ≡ action.effect_digest
  pub epoch : state.challenge.epoch ≡ action.expected_epoch
  pub policy_revision : state.challenge.policy_revision ≡ revision
  pub clock : state.challenge.expires_at.clock ≡ context.now.clock
  pub live : context.now.value < state.challenge.expires_at.value

pub Confirms-challenge_fits :
    (action : BoundAction) (context : Context) (revision : ℕ) (state : ChallengeState)
    → Confirms action context revision state
    → challenge_fits action context revision state ≡ true
unfolding challenge_fits
Confirms-challenge_fits action context revision state h = ground (
  arith,
  h.approved,
  h.live,
  (eq_iff state.key (make_challenge_key action context revision)).1 h.key,
  (eq_iff state.challenge.controller_id action.controller_id).1 h.controller,
  (eq_iff state.challenge.actor_id action.actor_id).1 h.actor,
  (eq_iff state.challenge.principal_id context.principal.id).1 h.principal,
  (eq_iff state.challenge.effect_digest action.effect_digest).1 h.effects,
  (epoch_eq_iff state.challenge.epoch action.expected_epoch).1 h.epoch,
  h.policy_revision,
  (clock_eq_iff state.challenge.expires_at.clock context.now.clock).1 h.clock,
)

pub challenge_fits-Confirms :
    (action : BoundAction) (context : Context) (revision : ℕ) (state : ChallengeState)
    → challenge_fits action context revision state ≡ true
    → Confirms action context revision state
unfolding challenge_fits
challenge_fits-Confirms action context revision state h = ground (
  arith,
  h,
  eq_iff state.key (make_challenge_key action context revision),
  eq_iff state.challenge.controller_id action.controller_id,
  eq_iff state.challenge.actor_id action.actor_id,
  eq_iff state.challenge.principal_id context.principal.id,
  eq_iff state.challenge.effect_digest action.effect_digest,
  epoch_eq_iff state.challenge.epoch action.expected_epoch,
  clock_eq_iff state.challenge.expires_at.clock context.now.clock,
)

pub with_challenge-ne-allow :
    (base : Decision) (out : Result ConfirmationChallenge × Engine)
    → base.result ≡ require_confirmation
    → ¬ (IsAllowed (with_challenge base out).0)
unfolding with_challenge
with_challenge-ne-allow base (ok c, e) h = λ a. cc
with_challenge-ne-allow base (err x, e) h = λ a. a

abbrev pub ConfirmedBy :
    BoundAction → Context → Engine → ChallengeState → Result Decision × Engine → Type 0
ConfirmedBy action context e state out =
    (lookup context.confirmation_id (prune_challenges action context e).challenges ≡ some state)
    × (Confirms action context e.config.revision state
        × (lookup context.confirmation_id out.1.challenges ≡ none))

module _ (digest : String → String) (action : BoundAction) (context : Context) (id : String)
    (draw : Draw) (e : Engine) where
  Outcome-ConfirmedBy :
      (out : Result Decision × Engine)
      → Outcome digest action context id draw (prune_challenges action context e) out
      → (evaluate_gameplay e.config action context).result ≡ require_confirmation
      → lookup (make_authorization_key action context e.config.revision) e.authorizations ≡ none
      → IsKeyed e
      → IsAllowed out.0
      → (state : ChallengeState) × ConfirmedBy action context e state out
  unfolding prune_challenges
  Outcome-ConfirmedBy _ (refused d r) g new keyed a = absurd (ground (arith, r.denied, a))
  Outcome-ConfirmedBy _ (replayed s n there same) g new keyed a =
      absurd (ground (arith, there, new))
  Outcome-ConfirmedBy _ (challenged ttl h c) g new keyed a =
      absurd (with_challenge-ne-allow _ _ h a)
  Outcome-ConfirmedBy _ (allowed n h c) g new keyed a = absurd (ground (arith, h, g))
  Outcome-ConfirmedBy _ (confirmed_by s n h there fits) g new keyed a =
      (s, (there, (challenge_fits-Confirms action context e.config.revision s fits, used_up)))
    where
      used_up :
          lookup context.confirmation_id
            (granted digest action context
              (confirmed_decision
                (gameplay_base digest action context id (prune_challenges action context e)))
              (action_key digest action context (prune_challenges action context e))
              (remove_challenge s.challenge.challenge_id s.key
                (prune_challenges action context e))).1.challenges
          ≡ none
      used_up =
          rw
            (
              grant-challenges,
              AreKeyed-lookup context.confirmation_id _ s (prune-IsKeyed action context e keyed)
                  there,
            )
            (lookup-delete_self context.confirmation_id
              (prune_challenges action context e).challenges)

module _ (digest : String → String) (action : BoundAction) (context : Context) where
  -- In a state that the engine comes to by its calls, for an action that is not authorized yet and
  -- of which the gameplay rules require a confirmation: if `Evaluate` allows it, the confirmation
  -- that the caller named is an approved, unexpired challenge of this very action, principal,
  -- epoch and policy revision, and it is gone from the engine afterwards.
  pub evaluate-confirmed :
      (hex : String) (draw : Draw) (e : Engine)
      → Reachable digest e
      → (evaluate_gameplay e.config action context).result ≡ require_confirmation
      → lookup (make_authorization_key action context e.config.revision) e.authorizations ≡ none
      → IsAllowed (evaluate digest (some hex) draw action context e).0
      → (state : ChallengeState) × ConfirmedBy action context e state
          (evaluate digest (some hex) draw action context e)
  evaluate-confirmed hex draw e r g new a =
      Outcome-ConfirmedBy digest action context ("decision" ⋯ "." ⋯ hex) draw e
        (evaluate digest (some hex) draw action context e)
        (evaluate-Outcome digest action context hex draw e) g new (Reachable-IsKeyed e r) a
