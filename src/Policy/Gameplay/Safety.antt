-- ===== src/Policy/Gameplay/Safety.antt =====
-- The safety kernel cannot be overridden: an action is not allowed unless the kernel passes all of
-- its effects.
use rin.Common.{
  ◌≡◌, true, false, List, [], ◌∷◌, none, some, arith, All, ◌∙◌, sym, inl, inr, Option-cases,
}
use rin.Host.{Effect, BoundAction, OwnershipClass, ownership_eq}
use rin.Policy.{Verdict, allow, deny, Config, Context}
use rin.Policy.Kernel.{
  EffectDecision, str_in, kernel_decision, kernel_registration, safety_kernel_reason, forbidden_tag,
}
use rin.Policy.Gameplay.{evaluate_gameplay}
use rin.Policy.Gameplay.Override.{
  stricter, strictest, strictest-append, verdicts, all_verdicts, evaluate_gameplay-strictest,
}

-- What the kernel demands of an effect.
pub record IsPermitted (config : Config) (effect : Effect) : Type 0 where
  pub kind_safe : safety_kernel_reason effect.kind ≡ none
  pub tags_safe : forbidden_tag effect.tags ≡ none
  pub owned : ownership_eq effect.ownership OwnershipClass.unknown ≡ false
  pub kind_known : str_in config.known_effect_kinds effect.kind ≡ true
  pub scope_known : str_in config.known_scopes effect.scope ≡ true

kernel_registration-deny :
    (config : Config) (effect : Effect) (d : EffectDecision)
    → kernel_registration config effect ≡ some d
    → d.result ≡ deny
unfolding kernel_registration
kernel_registration-deny config effect d h = ground arith

kernel_decision-deny :
    (config : Config) (effect : Effect) (d : EffectDecision)
    → kernel_decision config effect ≡ some d
    → d.result ≡ deny
unfolding kernel_decision
kernel_decision-deny config effect d h = ground arith

kernel_decision-none :
    (config : Config) (effect : Effect)
    → kernel_decision config effect ≡ none
    → IsPermitted config effect
unfolding kernel_decision
kernel_decision-none config effect h = ground arith

denied_not_allowed : (d : EffectDecision) → d.result ≡ deny → strictest (d ∷ []) ≡ allow → ⊥
denied_not_allowed d h k = ground arith

stricter-allow : (v w : Verdict) → stricter v w ≡ allow → (v ≡ allow) × (w ≡ allow)
stricter-allow v w h = ground arith

module _ (config : Config) (action : BoundAction) (context : Context) where
  effect-IsPermitted :
      (effect : Effect)
      → strictest (verdicts config action context effect) ≡ allow
      → IsPermitted config effect
  effect-IsPermitted effect h = elim (Option-cases (kernel_decision config effect)) [
    | inl e ↦ kernel_decision-none config effect e
    | inr (d, e) ↦
        absurd (denied_not_allowed d (kernel_decision-deny config effect d e) (rw e at h))
  ]

  effects-IsPermitted :
      (effects : List Effect)
      → strictest (all_verdicts config action context effects) ≡ allow
      → All (IsPermitted config) effects
  effects-IsPermitted [] h = tt
  effects-IsPermitted (effect ∷ effects) h =
      let parts =
        stricter-allow _ _ (sym (strictest-append (verdicts config action context effect) _) ∙ h) in
      (effect-IsPermitted effect parts.0, effects-IsPermitted effects parts.1)

  -- An action whose gameplay result is allow has only effects that the safety kernel permits: no forbidden kind or tag,
  -- a known owner, and a registered kind and scope, whatever the rules and the profile say.
  pub allow-IsPermitted :
      (evaluate_gameplay config action context).result ≡ allow
      → All (IsPermitted config) action.effects
  allow-IsPermitted h =
      effects-IsPermitted action.effects
        (sym (evaluate_gameplay-strictest config action context) ∙ h)
