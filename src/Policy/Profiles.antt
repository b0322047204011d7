-- ===== src/Policy/Profiles.antt =====
-- policy/defaults.go: the default of each profile for effects that no rule matches.
use rin.Common.{ℕ, ◌&&◌, ◌||◌, leb, if◌then◌else◌}
use rin.Host.{
  Effect, RiskLevel, OwnershipClass, EffectOperation, operation_eq, ownership_eq, risk_eq,
}
use rin.Policy.{
  allow, deny, require_confirmation, Profile, guarded, survival, open_profile, privileged_custom,
}
use rin.Policy.Kernel.{EffectDecision}

unfoldable pub risk_rank : RiskLevel → ℕ
risk_rank RiskLevel.low = 0
risk_rank RiskLevel.moderate = 1
risk_rank RiskLevel.high = 2
risk_rank RiskLevel.critical = 3

unfoldable pub guarded_decision : Effect → EffectDecision
guarded_decision effect =
    if (operation_eq effect.operation EffectOperation.read
        || operation_eq effect.operation EffectOperation.communicate)
      && leb (risk_rank effect.risk) (risk_rank RiskLevel.moderate)
    then record {
      result = allow;
      rule_id = "profile.guarded.safe-interaction";
      reason_code = "policy.profile_allow";
      summary = "The guarded profile allows this bounded interaction.";
    }
    else if leb (risk_rank RiskLevel.high) (risk_rank effect.risk)
    then record {
      result = deny;
      rule_id = "profile.guarded.high-risk";
      reason_code = "policy.profile_deny";
      summary = "The guarded profile denies high-risk effects by default.";
    }
    else if effect.reversible
        && ((ownership_eq effect.ownership OwnershipClass.actor
              || (ownership_eq effect.ownership OwnershipClass.controller
                  || ownership_eq effect.ownership OwnershipClass.unowned))
            && risk_eq effect.risk RiskLevel.low)
    then record {
      result = allow;
      rule_id = "profile.guarded.low-risk";
      reason_code = "policy.profile_allow";
      summary = "The guarded profile allows this reversible low-risk effect.";
    }
    else record {
      result = require_confirmation;
      rule_id = "profile.guarded.confirm";
      reason_code = "policy.profile_confirmation";
      summary = "The guarded profile requires confirmation for this effect.";
    }

unfoldable pub survival_decision : Effect → EffectDecision
survival_decision effect =
    if risk_eq effect.risk RiskLevel.critical
    then record {
      result = deny;
      rule_id = "profile.survival.critical-risk";
      reason_code = "policy.profile_deny";
      summary = "The survival profile denies critical-risk effects by default.";
    }
    else if risk_eq effect.risk RiskLevel.high
        || (ownership_eq effect.ownership OwnershipClass.player
            || (ownership_eq effect.ownership OwnershipClass.shared
                || ownership_eq effect.ownership OwnershipClass.system))
    then record {
      result = require_confirmation;
      rule_id = "profile.survival.confirm";
      reason_code = "policy.profile_confirmation";
      summary = "The survival profile requires confirmation for protected or high-risk effects.";
    }
    else record {
      result = allow;
      rule_id = "profile.survival.allow";
      reason_code = "policy.profile_allow";
      summary = "The survival profile allows this registered gameplay effect.";
    }

unfoldable pub open_decision : Effect → EffectDecision
open_decision effect =
    if risk_eq effect.risk RiskLevel.critical
    then record {
      result = require_confirmation;
      rule_id = "profile.open.critical-confirm";
      reason_code = "policy.profile_confirmation";
      summary = "The open profile still requires confirmation for critical-risk effects.";
    }
    else record {
      result = allow;
      rule_id = "profile.open.allow";
      reason_code = "policy.profile_allow";
      summary = "The open profile allows this registered effect.";
    }

unfoldable pub profile_decision : Profile → Effect → EffectDecision
unfolding guarded_decision survival_decision open_decision
profile_decision guarded effect = guarded_decision effect
profile_decision survival effect = survival_decision effect
profile_decision open_profile effect = open_decision effect
profile_decision privileged_custom effect = open_decision effect
