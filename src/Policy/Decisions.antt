-- ===== src/Policy/Decisions.antt =====
-- Decisions: `denyDecision` and the common fields of policy/engine.go, and the tests of
-- `ValidateDecision` in policy/validate.go that relate the fields to one another.
use rin.Common.{
  ℕ, ◌-◌, String, Bool, true, false, ◌&&◌, List, [], ◌∷◌, Option, none, some, leb, ◌==◌, ◌=ₛ◌, all,
  if◌then◌else◌,
}
use rin.Host.{BoundAction}
use rin.Policy.{
  Verdict, allow, deny, require_confirmation, Context, ConfirmationChallenge, EffectiveLimit,
  Decision,
}
use rin.Policy.Gameplay.{append_unique}

-- The fields that every decision of `Evaluate` starts from; the result is set later.
unfoldable pub base_decision : String → BoundAction → Context → ℕ → Decision
base_decision decision_id action context revision = record {
  decision_id = decision_id;
  result = deny;
  controller_id = action.controller_id;
  actor_id = action.actor_id;
  principal_id = context.principal.id;
  effect_digest = action.effect_digest;
  policy_revision = revision;
  matched_rule_ids = [];
  reason_code = "";
  human_summary = "";
  effective_limits = [];
  confirmation = none;
  evaluated_at = context.now;
}

unfoldable pub deny_decision : Decision → String → String → String → Decision
unfolding append_unique
deny_decision base rule_id reason summary = record base {
  result = deny;
  matched_rule_ids = append_unique base.matched_rule_ids rule_id;
  reason_code = reason;
  human_summary = summary;
  confirmation = none;
  effective_limits = [];
}

-- At most `maxJSONSafeInteger`.
abbrev pub is_json_safe : ℕ → Bool
is_json_safe n = leb n 9007199254740991

-- The tests of `ValidateDecision` on the counters of one limit.
unfoldable pub counters_consistent : EffectiveLimit → Bool
counters_consistent limit =
    (is_json_safe limit.max_actions
      && (is_json_safe limit.actions_used
          && (is_json_safe limit.actions_remaining
              && (is_json_safe limit.max_quantity
                  && (is_json_safe limit.quantity_used && is_json_safe limit.quantity_remaining)))))
    && ((if limit.max_actions == 0
          then limit.actions_remaining == 0
          else leb limit.actions_used limit.max_actions
            && (limit.actions_remaining == limit.max_actions - limit.actions_used))
        && (if limit.max_quantity == 0
            then limit.quantity_remaining == 0
            else leb limit.quantity_used limit.max_quantity
              && (limit.quantity_remaining == limit.max_quantity - limit.quantity_used)))

-- The challenge of a decision names the same controller, actor, principal, effects and revision.
unfoldable pub challenge_matches : ConfirmationChallenge → Decision → Bool
challenge_matches challenge decision =
    (challenge.controller_id =ₛ decision.controller_id)
    && ((challenge.actor_id =ₛ decision.actor_id)
        && ((challenge.principal_id =ₛ decision.principal_id)
            && ((challenge.effect_digest =ₛ decision.effect_digest)
                && (challenge.policy_revision == decision.policy_revision))))

abbrev no_limits : List EffectiveLimit → Bool
no_limits [] = true
no_limits (x ∷ xs) = false

abbrev confirmation_valid : Verdict → Option ConfirmationChallenge → Decision → Bool
confirmation_valid require_confirmation none decision = false
confirmation_valid require_confirmation (some challenge) decision =
    challenge.single_use && challenge_matches challenge decision
confirmation_valid _ none decision = true
confirmation_valid _ (some challenge) decision = false

abbrev limits_valid : Verdict → List EffectiveLimit → Bool
limits_valid allow limits = all counters_consistent limits
limits_valid _ limits = no_limits limits

-- The counters of the limits, limits on `allow` alone, and the challenge just where it is required.
unfoldable pub relations_valid : Decision → Bool
unfolding counters_consistent challenge_matches
relations_valid decision =
    limits_valid decision.result decision.effective_limits
    && confirmation_valid decision.result decision.confirmation decision
