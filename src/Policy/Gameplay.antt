-- ===== src/Policy/Gameplay.antt =====
-- policy/engine.go, `evaluateGameplay`: the loops over the effects and the rules, with the loop's
-- variables in a `Selection`.
pub mod Override
pub mod Safety
use rin.Common.{
  String, Bool, true, false, not, ◌||◌, List, [], ◌∷◌, ◌++◌, Option, none, some, ltb, if◌then◌else◌,
}
use rin.Host.{Effect, BoundAction}
use rin.Policy.{Verdict, allow, Rule, Config, Context}
use rin.Policy.Kernel.{EffectDecision, str_in, kernel_decision, result_rank}
use rin.Policy.Profiles.{profile_decision}
use rin.Policy.Matching.{rule_matches}

pub record Selection : Type 0 where
  pub result : Verdict
  pub matched_ids : List String
  pub reason : String
  pub summary : String
  pub selected_reason : Bool

unfoldable pub append_unique : List String → String → List String
append_unique values value = if str_in values value then values else values ++ value ∷ []

-- The three places that note an id and take a decision of a higher rank, or the first.
unfoldable pub consider : Selection → EffectDecision → Selection
unfolding append_unique result_rank
consider s d =
    let noted = record s { matched_ids = append_unique s.matched_ids d.rule_id } in
    if not s.selected_reason || ltb (result_rank s.result) (result_rank d.result)
    then record noted {
      result = d.result;
      reason = d.reason_code;
      summary = d.summary;
      selected_reason = true;
    }
    else noted

abbrev pub rule_decision : Rule → EffectDecision
rule_decision rule = record {
  result = rule.result;
  rule_id = rule.rule_id;
  reason_code = rule.reason_code;
  summary = rule.human_summary;
}

-- The loop over `config.Rules`, with `matchedRule`.
unfoldable pub consider_rules :
    List Rule → Effect → BoundAction → Context → Bool → Selection → Bool × Selection
consider_rules [] effect action context matched_rule s = (matched_rule, s)
consider_rules (rule ∷ rules) effect action context matched_rule s =
    let hit = rule_matches rule effect action context in
    consider_rules rules effect action context (matched_rule || hit)
      (if hit then consider s (rule_decision rule) else s)

unfoldable pub consider_effect : Config → BoundAction → Context → Effect → Selection → Selection
consider_effect config action context effect s = elim (kernel_decision config effect) [
  | some kernel ↦ consider s kernel
  | none ↦
      let (matched_rule, s') = consider_rules config.rules effect action context false s in
      if matched_rule then s' else consider s' (profile_decision config.profile effect)
]

unfoldable pub consider_effects :
    Config → BoundAction → Context → List Effect → Selection → Selection
consider_effects config action context [] s = s
consider_effects config action context (effect ∷ effects) s =
    consider_effects config action context effects (consider_effect config action context effect s)

abbrev pub initial_selection : Selection
initial_selection = record {
  result = allow;
  matched_ids = [];
  reason = "policy.allowed";
  summary = "All Host-bound effects are allowed by the active gameplay policy.";
  selected_reason = false;
}

unfoldable pub evaluate_gameplay : Config → BoundAction → Context → Selection
evaluate_gameplay config action context =
    consider_effects config action context action.effects initial_selection
