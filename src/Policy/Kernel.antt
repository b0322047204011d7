-- ===== src/Policy/Kernel.antt =====
-- policy/defaults.go: the safety kernel; policy/validate.go: the rank of results.
use rin.Common.{
  ℕ, String, Bool, not, List, [], ◌∷◌, Option, none, some, contains, ◌=ₛ◌, if◌then◌else◌,
}
use rin.Host.{Effect, OwnershipClass, ownership_eq}
use rin.Policy.{Verdict, allow, deny, require_confirmation, Config}

pub record EffectDecision : Type 0 where
  pub result : Verdict
  pub rule_id : String
  pub reason_code : String
  pub summary : String

abbrev pub str_in : List String → String → Bool
str_in = contains (λ a b. a =ₛ b)

-- `safetyKernelKinds` and `safetyKernelTags`, which hold the same entries.
unfoldable pub safety_kernel_reason : String → Option String
safety_kernel_reason kind =
    if kind =ₛ "system.arbitrary-code"
    then some "policy.arbitrary_code_denied"
    else if kind =ₛ "system.file-access"
    then some "policy.file_access_denied"
    else if kind =ₛ "system.native-call"
    then some "policy.native_call_denied"
    else if kind =ₛ "authority.forge"
    then some "policy.authority_forgery_denied"
    else if kind =ₛ "secret.exposure"
    then some "policy.secret_exposure_denied"
    else none

-- The first forbidden tag gives the reason.
unfoldable pub forbidden_tag : List String → Option String
forbidden_tag [] = none
forbidden_tag (tag ∷ tags) = elim (safety_kernel_reason tag) [
  | some reason ↦ some reason
  | none ↦ forbidden_tag tags
]

abbrev forbidden_effect : String → EffectDecision
forbidden_effect reason = record {
  result = deny;
  rule_id = "kernel.forbidden-effect";
  reason_code = reason;
  summary = "The effect is forbidden by the Rin safety kernel.";
}

-- The kernel's checks after the forbidden kinds and tags.
unfoldable pub kernel_registration : Config → Effect → Option EffectDecision
kernel_registration config effect =
    if ownership_eq effect.ownership OwnershipClass.unknown
    then some (record {
      result = deny;
      rule_id = "kernel.unknown-ownership";
      reason_code = "policy.unknown_ownership";
      summary = "The Host could not establish ownership for this effect.";
    })
    else if not (str_in config.known_effect_kinds effect.kind)
    then some (record {
      result = deny;
      rule_id = "kernel.unknown-effect";
      reason_code = "policy.unknown_effect";
      summary = "The effect kind is not registered in the active gameplay policy.";
    })
    else if not (str_in config.known_scopes effect.scope)
    then some (record {
      result = deny;
      rule_id = "kernel.unknown-scope";
      reason_code = "policy.unknown_scope";
      summary = "The effect scope is not registered in the active gameplay policy.";
    })
    else none

unfoldable pub kernel_decision : Config → Effect → Option EffectDecision
unfolding kernel_registration
kernel_decision config effect = elim (safety_kernel_reason effect.kind) [
  | some reason ↦ some (forbidden_effect reason)
  | none ↦ elim (forbidden_tag effect.tags) [
    | some reason ↦ some (forbidden_effect reason)
    | none ↦ kernel_registration config effect
  ]
]

unfoldable pub result_rank : Verdict → ℕ
result_rank allow = 0
result_rank require_confirmation = 1
result_rank deny = 2
