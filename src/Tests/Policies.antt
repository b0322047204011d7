-- ===== src/Tests/Policies.antt =====
-- The theorems on the policy engine, at small inputs.
use rin.Common.{
  ◌↔◌, ℕ, ◌≤◌, ◌≡◌, refl, inl, inr, String, Bool, true, false, List, [], ◌∷◌, Option, none, some,
  arith, All, decimal, join_nul,
}
use rin.Common.Maps.{Map, lookup}
use rin.Host.{ClockMode, BoundAction}
use rin.Policy.{
  Verdict, allow, deny, require_confirmation, Decision, Engine, Context, ChallengeState, Result, ok,
  err, max_json_safe_integer, max_challenges, max_authorizations,
}
use rin.Policy.Gameplay.{evaluate_gameplay}
use rin.Policy.Keys.{make_authorization_key}
use rin.Policy.Decisions.{base_decision}
use rin.Policy.Budgets.Usage.{SameUsage}
use rin.Policy.Gameplay.Override.{strictest, all_verdicts, evaluate_gameplay-strictest}
use rin.Policy.Gameplay.Safety.{IsPermitted, allow-IsPermitted}
use rin.Policy.Budgets.{reserve_budgets}
use rin.Policy.Budgets.Restore.{Restores, reserve_budgets-Restores}
use rin.Policy.Budgets.Loop.{Holds}
use rin.Policy.Budgets.Limits.{Counts, reserve_budgets-Counts}
use rin.Policy.Challenges.{approve, prune_challenges}
use rin.Policy.Challenges.Frame.{Frames}
use rin.Policy.Evaluation.{new_engine, evaluate, finalize}
use rin.Policy.Evaluation.Kernel.{IsDenied, IsLive, evaluate-kernel}
use rin.Policy.Evaluation.Ledger.{IsBacked}
use rin.Policy.Evaluation.Reachable.{
  evaluated, approved, Reachable, made, called, Reachable-IsBacked,
}
use rin.Policy.Evaluation.Confirmed.{IsAllowed, ConfirmedBy, evaluate-confirmed}
use rin.Policy.Evaluation.Replay.{repeated, evaluate-replay}
use rin.Policy.Evaluation.Finalize.{evaluate-finalize}
use rin.Policy.Evaluation.Capacity.{IsWithin, Reachable-IsWithin}
use rin.Policy.Evaluation.Allows.{Agreed, Fits, evaluate-allows}
use rin.Tests.{walk-IsBounded, walk, config, context, digest, player, now, move}

walk-IsLive : IsLive walk (context "")
walk-IsLive = (refl, (refl, (refl, omega arith)))

abbrev first : Engine
first = new_engine (config allow) "d"

abbrev strict : Engine
strict = new_engine (config require_confirmation) "d"

test_allowed : (evaluate_gameplay (config allow) walk (context "")).result ≡ allow
unfolding join_nul rin.Host.clock_eq rin.Host.epoch_eq rin.Host.risk_eq rin.Host.ownership_eq
    rin.Host.operation_eq rin.Host.run_status_eq rin.Host.can_transition_action_run rin.Host.run_eq
    rin.Host.outcome_eq decimal lookup rin.Common.Maps.delete rin.Common.Maps.insert
    rin.Common.Maps.drop_if rin.Common.Maps.member rin.Policy.Budgets.used rin.Policy.Budgets.undo
    rin.Policy.Budgets.rollback_deltas rin.Policy.Budgets.sum_matching rin.Policy.Budgets.make_limit
    rin.Policy.Budgets.charge rin.Policy.Budgets.budget_round rin.Policy.Budgets.reserve_from
    reserve_budgets rin.Policy.Challenges.new_id rin.Policy.Challenges.ttl_of
    rin.Policy.Challenges.confirmation_ttl rin.Policy.Challenges.challenge_expiry
    rin.Policy.Challenges.make_challenge rin.Policy.Challenges.create_challenge
    rin.Policy.Challenges.issue_confirmation rin.Policy.Challenges.challenge_fits
    rin.Policy.Challenges.consume_confirmation rin.Policy.Challenges.is_expired prune_challenges
    rin.Policy.Challenges.principal_has_any_scope approve rin.Policy.Challenges.challenge_eq
    rin.Policy.Challenges.discard_confirmation base_decision rin.Policy.Decisions.deny_decision
    rin.Policy.Decisions.counters_consistent rin.Policy.Decisions.challenge_matches
    rin.Policy.Decisions.relations_valid new_engine rin.Policy.Evaluation.update
    rin.Policy.Evaluation.kernel_denial rin.Policy.Evaluation.make_room
    rin.Policy.Evaluation.store_authorization rin.Policy.Evaluation.confirmed_decision
    rin.Policy.Evaluation.grant rin.Policy.Evaluation.with_challenge
    rin.Policy.Evaluation.challenge_or_deny rin.Policy.Evaluation.authorize
    rin.Policy.Evaluation.after_consumption rin.Policy.Evaluation.decide
    rin.Policy.Evaluation.evaluate_locked evaluate rin.Policy.Evaluation.settle_reservation
    rin.Policy.Evaluation.settle_authorization finalize rin.Policy.Gameplay.append_unique
    rin.Policy.Gameplay.consider rin.Policy.Gameplay.consider_rules
    rin.Policy.Gameplay.consider_effect rin.Policy.Gameplay.consider_effects evaluate_gameplay
    rin.Policy.Kernel.safety_kernel_reason rin.Policy.Kernel.forbidden_tag
    rin.Policy.Kernel.kernel_registration rin.Policy.Kernel.kernel_decision
    rin.Policy.Kernel.result_rank make_authorization_key rin.Policy.Keys.make_challenge_key
    rin.Policy.Keys.challenge_clock_scope rin.Policy.Keys.budget_scope rin.Policy.Keys.budget_bucket
    rin.Policy.Keys.make_budget_key rin.Policy.Matching.layer_applies
    rin.Policy.Matching.rule_matches rin.Policy.Matching.budget_matches
    rin.Policy.Profiles.risk_rank rin.Policy.Profiles.guarded_decision
    rin.Policy.Profiles.survival_decision rin.Policy.Profiles.open_decision
    rin.Policy.Profiles.profile_decision
test_allowed = refl

evaluate_gameplay-strictest_example :
    (evaluate_gameplay (config deny) walk (context "")).result
    ≡ strictest (all_verdicts (config deny) walk (context "") (move ∷ []))
evaluate_gameplay-strictest_example = evaluate_gameplay-strictest (config deny) walk (context "")

allow-IsPermitted_example : All (IsPermitted (config allow)) (move ∷ [])
allow-IsPermitted_example = allow-IsPermitted (config allow) walk (context "") test_allowed

reserve_budgets-Restores_example :
    Restores [] (reserve_budgets digest walk (context "") (config allow).budgets [])
reserve_budgets-Restores_example =
    reserve_budgets-Restores digest walk (context "") (config allow).budgets [] walk-IsBounded

reserve_budgets-Counts_example :
    Holds
      (λ ls ds u. All Counts ls)
      (reserve_budgets digest walk (context "") (config allow).budgets [])
reserve_budgets-Counts_example =
    reserve_budgets-Counts digest walk (context "") (config allow).budgets []

-- An engine that has allowed a walk.
abbrev walked : Result Decision × Engine
walked = evaluate digest (some "1") none walk (context "") first

-- An engine that has asked for a confirmation of a walk, which an operator gave.
abbrev asked : Result Decision × Engine
asked = evaluate digest (some "1") (some "2") walk (context "") strict

abbrev given : Engine
given = (approve "confirmation.2" player now asked.1).1

abbrev confirmed : Result Decision × Engine
confirmed = evaluate digest (some "3") none walk (context "confirmation.2") given

reached : Reachable digest walked.1
unfolding join_nul new_engine
reached =
    called (made (config allow) "d") (evaluated walk (context "") (some "1") none walk-IsBounded)

given_reached : Reachable digest given
unfolding join_nul new_engine
given_reached =
    called
      (called (made (config require_confirmation) "d")
        (evaluated walk (context "") (some "1") (some "2") walk-IsBounded))
      (approved "confirmation.2" player now)

Reachable-IsBacked_example : IsBacked walked.1
Reachable-IsBacked_example = Reachable-IsBacked walked.1 reached

Reachable-IsWithin_example : IsWithin walked.1
Reachable-IsWithin_example = Reachable-IsWithin walked.1 reached

abbrev decision_of : Result Decision → Decision
decision_of (ok d) = d
decision_of (err e) = base_decision "" walk (context "") 0

test_walked : walked.0 ≡ ok (decision_of walked.0)
unfolding join_nul rin.Host.clock_eq rin.Host.epoch_eq rin.Host.risk_eq rin.Host.ownership_eq
    rin.Host.operation_eq rin.Host.run_status_eq rin.Host.can_transition_action_run rin.Host.run_eq
    rin.Host.outcome_eq decimal lookup rin.Common.Maps.delete rin.Common.Maps.insert
    rin.Common.Maps.drop_if rin.Common.Maps.member rin.Policy.Budgets.used rin.Policy.Budgets.undo
    rin.Policy.Budgets.rollback_deltas rin.Policy.Budgets.sum_matching rin.Policy.Budgets.make_limit
    rin.Policy.Budgets.charge rin.Policy.Budgets.budget_round rin.Policy.Budgets.reserve_from
    reserve_budgets rin.Policy.Challenges.new_id rin.Policy.Challenges.ttl_of
    rin.Policy.Challenges.confirmation_ttl rin.Policy.Challenges.challenge_expiry
    rin.Policy.Challenges.make_challenge rin.Policy.Challenges.create_challenge
    rin.Policy.Challenges.issue_confirmation rin.Policy.Challenges.challenge_fits
    rin.Policy.Challenges.consume_confirmation rin.Policy.Challenges.is_expired prune_challenges
    rin.Policy.Challenges.principal_has_any_scope approve rin.Policy.Challenges.challenge_eq
    rin.Policy.Challenges.discard_confirmation base_decision rin.Policy.Decisions.deny_decision
    rin.Policy.Decisions.counters_consistent rin.Policy.Decisions.challenge_matches
    rin.Policy.Decisions.relations_valid new_engine rin.Policy.Evaluation.update
    rin.Policy.Evaluation.kernel_denial rin.Policy.Evaluation.make_room
    rin.Policy.Evaluation.store_authorization rin.Policy.Evaluation.confirmed_decision
    rin.Policy.Evaluation.grant rin.Policy.Evaluation.with_challenge
    rin.Policy.Evaluation.challenge_or_deny rin.Policy.Evaluation.authorize
    rin.Policy.Evaluation.after_consumption rin.Policy.Evaluation.decide
    rin.Policy.Evaluation.evaluate_locked evaluate rin.Policy.Evaluation.settle_reservation
    rin.Policy.Evaluation.settle_authorization finalize rin.Policy.Gameplay.append_unique
    rin.Policy.Gameplay.consider rin.Policy.Gameplay.consider_rules
    rin.Policy.Gameplay.consider_effect rin.Policy.Gameplay.consider_effects evaluate_gameplay
    rin.Policy.Kernel.safety_kernel_reason rin.Policy.Kernel.forbidden_tag
    rin.Policy.Kernel.kernel_registration rin.Policy.Kernel.kernel_decision
    rin.Policy.Kernel.result_rank make_authorization_key rin.Policy.Keys.make_challenge_key
    rin.Policy.Keys.challenge_clock_scope rin.Policy.Keys.budget_scope rin.Policy.Keys.budget_bucket
    rin.Policy.Keys.make_budget_key rin.Policy.Matching.layer_applies
    rin.Policy.Matching.rule_matches rin.Policy.Matching.budget_matches
    rin.Policy.Profiles.risk_rank rin.Policy.Profiles.guarded_decision
    rin.Policy.Profiles.survival_decision rin.Policy.Profiles.open_decision
    rin.Policy.Profiles.profile_decision
test_walked = refl

test_walked_allow : (decision_of walked.0).result ≡ allow
unfolding join_nul rin.Host.clock_eq rin.Host.epoch_eq rin.Host.risk_eq rin.Host.ownership_eq
    rin.Host.operation_eq rin.Host.run_status_eq rin.Host.can_transition_action_run rin.Host.run_eq
    rin.Host.outcome_eq decimal lookup rin.Common.Maps.delete rin.Common.Maps.insert
    rin.Common.Maps.drop_if rin.Common.Maps.member rin.Policy.Budgets.used rin.Policy.Budgets.undo
    rin.Policy.Budgets.rollback_deltas rin.Policy.Budgets.sum_matching rin.Policy.Budgets.make_limit
    rin.Policy.Budgets.charge rin.Policy.Budgets.budget_round rin.Policy.Budgets.reserve_from
    reserve_budgets rin.Policy.Challenges.new_id rin.Policy.Challenges.ttl_of
    rin.Policy.Challenges.confirmation_ttl rin.Policy.Challenges.challenge_expiry
    rin.Policy.Challenges.make_challenge rin.Policy.Challenges.create_challenge
    rin.Policy.Challenges.issue_confirmation rin.Policy.Challenges.challenge_fits
    rin.Policy.Challenges.consume_confirmation rin.Policy.Challenges.is_expired prune_challenges
    rin.Policy.Challenges.principal_has_any_scope approve rin.Policy.Challenges.challenge_eq
    rin.Policy.Challenges.discard_confirmation base_decision rin.Policy.Decisions.deny_decision
    rin.Policy.Decisions.counters_consistent rin.Policy.Decisions.challenge_matches
    rin.Policy.Decisions.relations_valid new_engine rin.Policy.Evaluation.update
    rin.Policy.Evaluation.kernel_denial rin.Policy.Evaluation.make_room
    rin.Policy.Evaluation.store_authorization rin.Policy.Evaluation.confirmed_decision
    rin.Policy.Evaluation.grant rin.Policy.Evaluation.with_challenge
    rin.Policy.Evaluation.challenge_or_deny rin.Policy.Evaluation.authorize
    rin.Policy.Evaluation.after_consumption rin.Policy.Evaluation.decide
    rin.Policy.Evaluation.evaluate_locked evaluate rin.Policy.Evaluation.settle_reservation
    rin.Policy.Evaluation.settle_authorization finalize rin.Policy.Gameplay.append_unique
    rin.Policy.Gameplay.consider rin.Policy.Gameplay.consider_rules
    rin.Policy.Gameplay.consider_effect rin.Policy.Gameplay.consider_effects evaluate_gameplay
    rin.Policy.Kernel.safety_kernel_reason rin.Policy.Kernel.forbidden_tag
    rin.Policy.Kernel.kernel_registration rin.Policy.Kernel.kernel_decision
    rin.Policy.Kernel.result_rank make_authorization_key rin.Policy.Keys.make_challenge_key
    rin.Policy.Keys.challenge_clock_scope rin.Policy.Keys.budget_scope rin.Policy.Keys.budget_bucket
    rin.Policy.Keys.make_budget_key rin.Policy.Matching.layer_applies
    rin.Policy.Matching.rule_matches rin.Policy.Matching.budget_matches
    rin.Policy.Profiles.risk_rank rin.Policy.Profiles.guarded_decision
    rin.Policy.Profiles.survival_decision rin.Policy.Profiles.open_decision
    rin.Policy.Profiles.profile_decision
test_walked_allow = refl

-- The same call at a later time.
abbrev afterwards : String → Context
afterwards id = record (context id) { now = record { clock = ClockMode.realtime; value = 20 } }

evaluate-replay_example :
    ((evaluate digest (some "4") none walk (afterwards "") walked.1).0
      ≡ ok (repeated walk (context "") (decision_of walked.0) "4" (afterwards "") walked.1))
    × Frames walked.1 (evaluate digest (some "4") none walk (afterwards "") walked.1).1
evaluate-replay_example =
    evaluate-replay digest walk (context "") "1" "4" none none first (decision_of walked.0)
      (afterwards "") (refl, (refl, (refl, omega arith)))
      (record { principal = refl; server = refl; owner = refl }) test_walked test_walked_allow

test_unreserved : lookup "decision.1" first.reservations ≡ none
unfolding join_nul rin.Host.clock_eq rin.Host.epoch_eq rin.Host.risk_eq rin.Host.ownership_eq
    rin.Host.operation_eq rin.Host.run_status_eq rin.Host.can_transition_action_run rin.Host.run_eq
    rin.Host.outcome_eq decimal lookup rin.Common.Maps.delete rin.Common.Maps.insert
    rin.Common.Maps.drop_if rin.Common.Maps.member rin.Policy.Budgets.used rin.Policy.Budgets.undo
    rin.Policy.Budgets.rollback_deltas rin.Policy.Budgets.sum_matching rin.Policy.Budgets.make_limit
    rin.Policy.Budgets.charge rin.Policy.Budgets.budget_round rin.Policy.Budgets.reserve_from
    reserve_budgets rin.Policy.Challenges.new_id rin.Policy.Challenges.ttl_of
    rin.Policy.Challenges.confirmation_ttl rin.Policy.Challenges.challenge_expiry
    rin.Policy.Challenges.make_challenge rin.Policy.Challenges.create_challenge
    rin.Policy.Challenges.issue_confirmation rin.Policy.Challenges.challenge_fits
    rin.Policy.Challenges.consume_confirmation rin.Policy.Challenges.is_expired prune_challenges
    rin.Policy.Challenges.principal_has_any_scope approve rin.Policy.Challenges.challenge_eq
    rin.Policy.Challenges.discard_confirmation base_decision rin.Policy.Decisions.deny_decision
    rin.Policy.Decisions.counters_consistent rin.Policy.Decisions.challenge_matches
    rin.Policy.Decisions.relations_valid new_engine rin.Policy.Evaluation.update
    rin.Policy.Evaluation.kernel_denial rin.Policy.Evaluation.make_room
    rin.Policy.Evaluation.store_authorization rin.Policy.Evaluation.confirmed_decision
    rin.Policy.Evaluation.grant rin.Policy.Evaluation.with_challenge
    rin.Policy.Evaluation.challenge_or_deny rin.Policy.Evaluation.authorize
    rin.Policy.Evaluation.after_consumption rin.Policy.Evaluation.decide
    rin.Policy.Evaluation.evaluate_locked evaluate rin.Policy.Evaluation.settle_reservation
    rin.Policy.Evaluation.settle_authorization finalize rin.Policy.Gameplay.append_unique
    rin.Policy.Gameplay.consider rin.Policy.Gameplay.consider_rules
    rin.Policy.Gameplay.consider_effect rin.Policy.Gameplay.consider_effects evaluate_gameplay
    rin.Policy.Kernel.safety_kernel_reason rin.Policy.Kernel.forbidden_tag
    rin.Policy.Kernel.kernel_registration rin.Policy.Kernel.kernel_decision
    rin.Policy.Kernel.result_rank make_authorization_key rin.Policy.Keys.make_challenge_key
    rin.Policy.Keys.challenge_clock_scope rin.Policy.Keys.budget_scope rin.Policy.Keys.budget_bucket
    rin.Policy.Keys.make_budget_key rin.Policy.Matching.layer_applies
    rin.Policy.Matching.rule_matches rin.Policy.Matching.budget_matches
    rin.Policy.Profiles.risk_rank rin.Policy.Profiles.guarded_decision
    rin.Policy.Profiles.survival_decision rin.Policy.Profiles.open_decision
    rin.Policy.Profiles.profile_decision
test_unreserved = refl

test_new :
    lookup (make_authorization_key walk (context "") first.config.revision) first.authorizations
    ≡ none
unfolding join_nul rin.Host.clock_eq rin.Host.epoch_eq rin.Host.risk_eq rin.Host.ownership_eq
    rin.Host.operation_eq rin.Host.run_status_eq rin.Host.can_transition_action_run rin.Host.run_eq
    rin.Host.outcome_eq decimal lookup rin.Common.Maps.delete rin.Common.Maps.insert
    rin.Common.Maps.drop_if rin.Common.Maps.member rin.Policy.Budgets.used rin.Policy.Budgets.undo
    rin.Policy.Budgets.rollback_deltas rin.Policy.Budgets.sum_matching rin.Policy.Budgets.make_limit
    rin.Policy.Budgets.charge rin.Policy.Budgets.budget_round rin.Policy.Budgets.reserve_from
    reserve_budgets rin.Policy.Challenges.new_id rin.Policy.Challenges.ttl_of
    rin.Policy.Challenges.confirmation_ttl rin.Policy.Challenges.challenge_expiry
    rin.Policy.Challenges.make_challenge rin.Policy.Challenges.create_challenge
    rin.Policy.Challenges.issue_confirmation rin.Policy.Challenges.challenge_fits
    rin.Policy.Challenges.consume_confirmation rin.Policy.Challenges.is_expired prune_challenges
    rin.Policy.Challenges.principal_has_any_scope approve rin.Policy.Challenges.challenge_eq
    rin.Policy.Challenges.discard_confirmation base_decision rin.Policy.Decisions.deny_decision
    rin.Policy.Decisions.counters_consistent rin.Policy.Decisions.challenge_matches
    rin.Policy.Decisions.relations_valid new_engine rin.Policy.Evaluation.update
    rin.Policy.Evaluation.kernel_denial rin.Policy.Evaluation.make_room
    rin.Policy.Evaluation.store_authorization rin.Policy.Evaluation.confirmed_decision
    rin.Policy.Evaluation.grant rin.Policy.Evaluation.with_challenge
    rin.Policy.Evaluation.challenge_or_deny rin.Policy.Evaluation.authorize
    rin.Policy.Evaluation.after_consumption rin.Policy.Evaluation.decide
    rin.Policy.Evaluation.evaluate_locked evaluate rin.Policy.Evaluation.settle_reservation
    rin.Policy.Evaluation.settle_authorization finalize rin.Policy.Gameplay.append_unique
    rin.Policy.Gameplay.consider rin.Policy.Gameplay.consider_rules
    rin.Policy.Gameplay.consider_effect rin.Policy.Gameplay.consider_effects evaluate_gameplay
    rin.Policy.Kernel.safety_kernel_reason rin.Policy.Kernel.forbidden_tag
    rin.Policy.Kernel.kernel_registration rin.Policy.Kernel.kernel_decision
    rin.Policy.Kernel.result_rank make_authorization_key rin.Policy.Keys.make_challenge_key
    rin.Policy.Keys.challenge_clock_scope rin.Policy.Keys.budget_scope rin.Policy.Keys.budget_bucket
    rin.Policy.Keys.make_budget_key rin.Policy.Matching.layer_applies
    rin.Policy.Matching.rule_matches rin.Policy.Matching.budget_matches
    rin.Policy.Profiles.risk_rank rin.Policy.Profiles.guarded_decision
    rin.Policy.Profiles.survival_decision rin.Policy.Profiles.open_decision
    rin.Policy.Profiles.profile_decision
test_new = refl

evaluate-finalize_example :
    ((finalize (decision_of walked.0).decision_id false walked.1).0 ≡ true)
    × SameUsage (finalize (decision_of walked.0).decision_id false walked.1).1.usage first.usage
evaluate-finalize_example =
    evaluate-finalize digest walk (context "") "1" none first (decision_of walked.0) walk-IsBounded
      test_unreserved test_new test_walked test_walked_allow

test_confirmed : IsAllowed confirmed.0
unfolding join_nul rin.Host.clock_eq rin.Host.epoch_eq rin.Host.risk_eq rin.Host.ownership_eq
    rin.Host.operation_eq rin.Host.run_status_eq rin.Host.can_transition_action_run rin.Host.run_eq
    rin.Host.outcome_eq decimal lookup rin.Common.Maps.delete rin.Common.Maps.insert
    rin.Common.Maps.drop_if rin.Common.Maps.member rin.Policy.Budgets.used rin.Policy.Budgets.undo
    rin.Policy.Budgets.rollback_deltas rin.Policy.Budgets.sum_matching rin.Policy.Budgets.make_limit
    rin.Policy.Budgets.charge rin.Policy.Budgets.budget_round rin.Policy.Budgets.reserve_from
    reserve_budgets rin.Policy.Challenges.new_id rin.Policy.Challenges.ttl_of
    rin.Policy.Challenges.confirmation_ttl rin.Policy.Challenges.challenge_expiry
    rin.Policy.Challenges.make_challenge rin.Policy.Challenges.create_challenge
    rin.Policy.Challenges.issue_confirmation rin.Policy.Challenges.challenge_fits
    rin.Policy.Challenges.consume_confirmation rin.Policy.Challenges.is_expired prune_challenges
    rin.Policy.Challenges.principal_has_any_scope approve rin.Policy.Challenges.challenge_eq
    rin.Policy.Challenges.discard_confirmation base_decision rin.Policy.Decisions.deny_decision
    rin.Policy.Decisions.counters_consistent rin.Policy.Decisions.challenge_matches
    rin.Policy.Decisions.relations_valid new_engine rin.Policy.Evaluation.update
    rin.Policy.Evaluation.kernel_denial rin.Policy.Evaluation.make_room
    rin.Policy.Evaluation.store_authorization rin.Policy.Evaluation.confirmed_decision
    rin.Policy.Evaluation.grant rin.Policy.Evaluation.with_challenge
    rin.Policy.Evaluation.challenge_or_deny rin.Policy.Evaluation.authorize
    rin.Policy.Evaluation.after_consumption rin.Policy.Evaluation.decide
    rin.Policy.Evaluation.evaluate_locked evaluate rin.Policy.Evaluation.settle_reservation
    rin.Policy.Evaluation.settle_authorization finalize rin.Policy.Gameplay.append_unique
    rin.Policy.Gameplay.consider rin.Policy.Gameplay.consider_rules
    rin.Policy.Gameplay.consider_effect rin.Policy.Gameplay.consider_effects evaluate_gameplay
    rin.Policy.Kernel.safety_kernel_reason rin.Policy.Kernel.forbidden_tag
    rin.Policy.Kernel.kernel_registration rin.Policy.Kernel.kernel_decision
    rin.Policy.Kernel.result_rank make_authorization_key rin.Policy.Keys.make_challenge_key
    rin.Policy.Keys.challenge_clock_scope rin.Policy.Keys.budget_scope rin.Policy.Keys.budget_bucket
    rin.Policy.Keys.make_budget_key rin.Policy.Matching.layer_applies
    rin.Policy.Matching.rule_matches rin.Policy.Matching.budget_matches
    rin.Policy.Profiles.risk_rank rin.Policy.Profiles.guarded_decision
    rin.Policy.Profiles.survival_decision rin.Policy.Profiles.open_decision
    rin.Policy.Profiles.profile_decision
test_confirmed = refl

test_required :
    (evaluate_gameplay given.config walk (context "confirmation.2")).result ≡ require_confirmation
unfolding join_nul rin.Host.clock_eq rin.Host.epoch_eq rin.Host.risk_eq rin.Host.ownership_eq
    rin.Host.operation_eq rin.Host.run_status_eq rin.Host.can_transition_action_run rin.Host.run_eq
    rin.Host.outcome_eq decimal lookup rin.Common.Maps.delete rin.Common.Maps.insert
    rin.Common.Maps.drop_if rin.Common.Maps.member rin.Policy.Budgets.used rin.Policy.Budgets.undo
    rin.Policy.Budgets.rollback_deltas rin.Policy.Budgets.sum_matching rin.Policy.Budgets.make_limit
    rin.Policy.Budgets.charge rin.Policy.Budgets.budget_round rin.Policy.Budgets.reserve_from
    reserve_budgets rin.Policy.Challenges.new_id rin.Policy.Challenges.ttl_of
    rin.Policy.Challenges.confirmation_ttl rin.Policy.Challenges.challenge_expiry
    rin.Policy.Challenges.make_challenge rin.Policy.Challenges.create_challenge
    rin.Policy.Challenges.issue_confirmation rin.Policy.Challenges.challenge_fits
    rin.Policy.Challenges.consume_confirmation rin.Policy.Challenges.is_expired prune_challenges
    rin.Policy.Challenges.principal_has_any_scope approve rin.Policy.Challenges.challenge_eq
    rin.Policy.Challenges.discard_confirmation base_decision rin.Policy.Decisions.deny_decision
    rin.Policy.Decisions.counters_consistent rin.Policy.Decisions.challenge_matches
    rin.Policy.Decisions.relations_valid new_engine rin.Policy.Evaluation.update
    rin.Policy.Evaluation.kernel_denial rin.Policy.Evaluation.make_room
    rin.Policy.Evaluation.store_authorization rin.Policy.Evaluation.confirmed_decision
    rin.Policy.Evaluation.grant rin.Policy.Evaluation.with_challenge
    rin.Policy.Evaluation.challenge_or_deny rin.Policy.Evaluation.authorize
    rin.Policy.Evaluation.after_consumption rin.Policy.Evaluation.decide
    rin.Policy.Evaluation.evaluate_locked evaluate rin.Policy.Evaluation.settle_reservation
    rin.Policy.Evaluation.settle_authorization finalize rin.Policy.Gameplay.append_unique
    rin.Policy.Gameplay.consider rin.Policy.Gameplay.consider_rules
    rin.Policy.Gameplay.consider_effect rin.Policy.Gameplay.consider_effects evaluate_gameplay
    rin.Policy.Kernel.safety_kernel_reason rin.Policy.Kernel.forbidden_tag
    rin.Policy.Kernel.kernel_registration rin.Policy.Kernel.kernel_decision
    rin.Policy.Kernel.result_rank make_authorization_key rin.Policy.Keys.make_challenge_key
    rin.Policy.Keys.challenge_clock_scope rin.Policy.Keys.budget_scope rin.Policy.Keys.budget_bucket
    rin.Policy.Keys.make_budget_key rin.Policy.Matching.layer_applies
    rin.Policy.Matching.rule_matches rin.Policy.Matching.budget_matches
    rin.Policy.Profiles.risk_rank rin.Policy.Profiles.guarded_decision
    rin.Policy.Profiles.survival_decision rin.Policy.Profiles.open_decision
    rin.Policy.Profiles.profile_decision
test_required = refl

test_given_new :
    lookup
      (make_authorization_key walk (context "confirmation.2") given.config.revision)
      given.authorizations
    ≡ none
unfolding join_nul rin.Host.clock_eq rin.Host.epoch_eq rin.Host.risk_eq rin.Host.ownership_eq
    rin.Host.operation_eq rin.Host.run_status_eq rin.Host.can_transition_action_run rin.Host.run_eq
    rin.Host.outcome_eq decimal lookup rin.Common.Maps.delete rin.Common.Maps.insert
    rin.Common.Maps.drop_if rin.Common.Maps.member rin.Policy.Budgets.used rin.Policy.Budgets.undo
    rin.Policy.Budgets.rollback_deltas rin.Policy.Budgets.sum_matching rin.Policy.Budgets.make_limit
    rin.Policy.Budgets.charge rin.Policy.Budgets.budget_round rin.Policy.Budgets.reserve_from
    reserve_budgets rin.Policy.Challenges.new_id rin.Policy.Challenges.ttl_of
    rin.Policy.Challenges.confirmation_ttl rin.Policy.Challenges.challenge_expiry
    rin.Policy.Challenges.make_challenge rin.Policy.Challenges.create_challenge
    rin.Policy.Challenges.issue_confirmation rin.Policy.Challenges.challenge_fits
    rin.Policy.Challenges.consume_confirmation rin.Policy.Challenges.is_expired prune_challenges
    rin.Policy.Challenges.principal_has_any_scope approve rin.Policy.Challenges.challenge_eq
    rin.Policy.Challenges.discard_confirmation base_decision rin.Policy.Decisions.deny_decision
    rin.Policy.Decisions.counters_consistent rin.Policy.Decisions.challenge_matches
    rin.Policy.Decisions.relations_valid new_engine rin.Policy.Evaluation.update
    rin.Policy.Evaluation.kernel_denial rin.Policy.Evaluation.make_room
    rin.Policy.Evaluation.store_authorization rin.Policy.Evaluation.confirmed_decision
    rin.Policy.Evaluation.grant rin.Policy.Evaluation.with_challenge
    rin.Policy.Evaluation.challenge_or_deny rin.Policy.Evaluation.authorize
    rin.Policy.Evaluation.after_consumption rin.Policy.Evaluation.decide
    rin.Policy.Evaluation.evaluate_locked evaluate rin.Policy.Evaluation.settle_reservation
    rin.Policy.Evaluation.settle_authorization finalize rin.Policy.Gameplay.append_unique
    rin.Policy.Gameplay.consider rin.Policy.Gameplay.consider_rules
    rin.Policy.Gameplay.consider_effect rin.Policy.Gameplay.consider_effects evaluate_gameplay
    rin.Policy.Kernel.safety_kernel_reason rin.Policy.Kernel.forbidden_tag
    rin.Policy.Kernel.kernel_registration rin.Policy.Kernel.kernel_decision
    rin.Policy.Kernel.result_rank make_authorization_key rin.Policy.Keys.make_challenge_key
    rin.Policy.Keys.challenge_clock_scope rin.Policy.Keys.budget_scope rin.Policy.Keys.budget_bucket
    rin.Policy.Keys.make_budget_key rin.Policy.Matching.layer_applies
    rin.Policy.Matching.rule_matches rin.Policy.Matching.budget_matches
    rin.Policy.Profiles.risk_rank rin.Policy.Profiles.guarded_decision
    rin.Policy.Profiles.survival_decision rin.Policy.Profiles.open_decision
    rin.Policy.Profiles.profile_decision
test_given_new = refl

evaluate-confirmed_example :
    (state : ChallengeState) × ConfirmedBy walk (context "confirmation.2") given state confirmed
evaluate-confirmed_example =
    evaluate-confirmed digest walk (context "confirmation.2") "3" none given given_reached
      test_required test_given_new test_confirmed

abbrev stopped : Context
stopped = record (context "") { emergency_stopped = true }

evaluate-kernel_example :
    IsDenied (evaluate digest (some "1") none walk stopped first).0
    × Frames first (evaluate digest (some "1") none walk stopped first).1
evaluate-kernel_example = evaluate-kernel digest walk stopped "1" none first (inl refl)

evaluate-allows_example : IsAllowed (evaluate digest (some "1") none walk (context "") first).0 ↔ (
    Agreed digest walk
      (context "")
      (evaluate_gameplay (config allow) walk (context "")).result
      (prune_challenges walk (context "") first)
    × Fits digest walk (context "") first)
unfolding lookup new_engine
evaluate-allows_example = evaluate-allows digest walk (context "") "1" none first walk-IsLive refl
