-- ===== src/Policy/Matching.antt =====
-- policy/defaults.go: which effects a rule or a budget matches.
use rin.Common.{
  Bool, true, false, not, ◌&&◌, List, [], ◌∷◌, Option, none, some, ltb, contains, all, any, ◌=ₛ◌,
}
use rin.Host.{Effect, BoundAction, RiskLevel, operation_eq, ownership_eq}
use rin.Policy.{Layer, Rule, Budget, Context}
use rin.Policy.Kernel.{str_in}
use rin.Policy.Profiles.{risk_rank}

-- An empty list of match values matches everything.
abbrev empty_or {ℓ} : {A : Type ℓ} → List A → Bool → Bool
empty_or [] b = true
empty_or (x ∷ xs) b = b

-- A rule or budget of the owner or task layer applies only where there is an owner or a task.
unfoldable pub layer_applies : Layer → BoundAction → Context → Bool
layer_applies Layer.owner action context = not (context.owner_id =ₛ "")
layer_applies Layer.task action context = not (action.task_id =ₛ "")
layer_applies _ action context = true

abbrev at_least : Option RiskLevel → RiskLevel → Bool
at_least none risk = true
at_least (some bound) risk = not (ltb (risk_rank risk) (risk_rank bound))

abbrev at_most : Option RiskLevel → RiskLevel → Bool
at_most none risk = true
at_most (some bound) risk = not (ltb (risk_rank bound) (risk_rank risk))

abbrev bool_eq : Bool → Bool → Bool
bool_eq true b = b
bool_eq false b = not b

abbrev reversible_is : Option Bool → Bool → Bool
reversible_is none actual = true
reversible_is (some wanted) actual = bool_eq actual wanted

unfoldable pub rule_matches : Rule → Effect → BoundAction → Context → Bool
unfolding layer_applies risk_rank
rule_matches rule effect action context =
    layer_applies rule.layer action context
    && (empty_or rule.effect_kinds (str_in rule.effect_kinds effect.kind)
        && (empty_or rule.operations (contains operation_eq rule.operations effect.operation)
            && (empty_or rule.ownership (contains ownership_eq rule.ownership effect.ownership)
                && (empty_or rule.scopes (str_in rule.scopes effect.scope)
                    && (at_least rule.risk_at_least effect.risk
                        && (at_most rule.risk_at_most effect.risk
                            && (reversible_is rule.reversible effect.reversible
                                && (all (λ tag. str_in effect.tags tag) rule.tags_all
                                    && empty_or rule.tags_any
                                        (any (λ tag. str_in effect.tags tag) rule.tags_any)))))))))

unfoldable pub budget_matches : Budget → Effect → BoundAction → Context → Bool
unfolding layer_applies
budget_matches budget effect action context =
    layer_applies budget.layer action context
    && (empty_or budget.effect_kinds (str_in budget.effect_kinds effect.kind)
        && (empty_or budget.operations (contains operation_eq budget.operations effect.operation)
            && empty_or budget.tags_any (any (λ tag. str_in effect.tags tag) budget.tags_any)))
