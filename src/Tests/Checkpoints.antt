-- ===== src/Tests/Checkpoints.antt =====
-- The theorems on checkpoints, at small inputs.
use rin.Common.{
  ℕ, ◌+◌, ◌≡◌, refl, String, Bool, true, false, List, [], ◌∷◌, Option, none, some, join_nul,
  decimal,
}
use rin.Common.Maps.{Map}
use rin.Policy.{allow, Engine, BudgetUsage}
use rin.Policy.Budgets.{used}
use rin.Policy.Evaluation.{new_engine, evaluate}
use rin.Policy.Evaluation.Ledger.{IsBacked}
use rin.Policy.Evaluation.Reachable.{Reachable, made, called, evaluated}
use rin.Policy.Snapshot.{snapshot_usage}
use rin.Policy.Snapshot.Exact.{withheld_actions, withheld_quantity, snapshot_usage-exact}
use rin.Policy.Restore.{State, restore_state}
use rin.Policy.Restore.Backed.{restore_state-IsBacked}
use rin.Tests.{walk, config, context, digest, walk-IsBounded}

abbrev start : Engine
start = new_engine (config allow) "d"

abbrev walked : Engine
walked = (evaluate digest (some "1") none walk (context "") start).1

abbrev first_key : Map BudgetUsage → String
first_key [] = ""
first_key ((k, u) ∷ m) = k

-- The bucket that the walk was charged to.
abbrev bucket : String
bucket = first_key walked.usage

walked-Reachable : Reachable digest walked
walked-Reachable =
    called (made (config allow) "d") (evaluated walk (context "") (some "1") none walk-IsBounded)

snapshot_usage-exact_example :
    ((used (snapshot_usage (some []) walked) bucket).actions
        + withheld_actions bucket (some []) walked.reservations
      ≡ (used walked.usage bucket).actions)
    × ((used (snapshot_usage (some []) walked) bucket).quantity
          + withheld_quantity bucket (some []) walked.reservations
        ≡ (used walked.usage bucket).quantity)
snapshot_usage-exact_example = snapshot_usage-exact digest walked (some []) bucket walked-Reachable

abbrev checkpoint : State
checkpoint = record {
  policy_revision = 1;
  config_digest = "d";
  usage = record { key = "k"; actions = 2; quantity = 5 } ∷ [];
  reservations =
      record {
        decision_id = "decision.7";
        deltas = record { key = "k"; actions = 1; quantity = 2 } ∷ [];
      }
      ∷ [];
}

test_restored : (restore_state checkpoint start).0 ≡ true
unfolding rin.Host.clock_eq rin.Host.epoch_eq rin.Host.risk_eq rin.Host.ownership_eq
    rin.Host.operation_eq rin.Host.run_status_eq rin.Host.can_transition_action_run rin.Host.run_eq
    rin.Host.outcome_eq join_nul decimal rin.Common.Maps.lookup rin.Common.Maps.delete
    rin.Common.Maps.insert rin.Common.Maps.drop_if rin.Common.Maps.member used
    rin.Policy.Budgets.undo rin.Policy.Budgets.rollback_deltas rin.Policy.Budgets.sum_matching
    rin.Policy.Budgets.make_limit rin.Policy.Budgets.charge rin.Policy.Budgets.budget_round
    rin.Policy.Budgets.reserve_from rin.Policy.Budgets.reserve_budgets rin.Policy.Challenges.new_id
    rin.Policy.Challenges.ttl_of rin.Policy.Challenges.confirmation_ttl
    rin.Policy.Challenges.challenge_expiry rin.Policy.Challenges.make_challenge
    rin.Policy.Challenges.create_challenge rin.Policy.Challenges.issue_confirmation
    rin.Policy.Challenges.challenge_fits rin.Policy.Challenges.consume_confirmation
    rin.Policy.Challenges.is_expired rin.Policy.Challenges.prune_challenges
    rin.Policy.Challenges.principal_has_any_scope rin.Policy.Challenges.approve
    rin.Policy.Challenges.challenge_eq rin.Policy.Challenges.discard_confirmation
    rin.Policy.Decisions.base_decision rin.Policy.Decisions.deny_decision
    rin.Policy.Decisions.counters_consistent rin.Policy.Decisions.challenge_matches
    rin.Policy.Decisions.relations_valid new_engine rin.Policy.Evaluation.update
    rin.Policy.Evaluation.kernel_denial rin.Policy.Evaluation.make_room
    rin.Policy.Evaluation.store_authorization rin.Policy.Evaluation.confirmed_decision
    rin.Policy.Evaluation.grant rin.Policy.Evaluation.with_challenge
    rin.Policy.Evaluation.challenge_or_deny rin.Policy.Evaluation.authorize
    rin.Policy.Evaluation.after_consumption rin.Policy.Evaluation.decide
    rin.Policy.Evaluation.evaluate_locked evaluate rin.Policy.Evaluation.settle_reservation
    rin.Policy.Evaluation.settle_authorization rin.Policy.Evaluation.finalize
    rin.Policy.Gameplay.append_unique rin.Policy.Gameplay.consider
    rin.Policy.Gameplay.consider_rules rin.Policy.Gameplay.consider_effect
    rin.Policy.Gameplay.consider_effects rin.Policy.Gameplay.evaluate_gameplay
    rin.Policy.Kernel.safety_kernel_reason rin.Policy.Kernel.forbidden_tag
    rin.Policy.Kernel.kernel_registration rin.Policy.Kernel.kernel_decision
    rin.Policy.Kernel.result_rank rin.Policy.Keys.make_authorization_key
    rin.Policy.Keys.make_challenge_key rin.Policy.Keys.challenge_clock_scope
    rin.Policy.Keys.budget_scope rin.Policy.Keys.budget_bucket rin.Policy.Keys.make_budget_key
    rin.Policy.Matching.layer_applies rin.Policy.Matching.rule_matches
    rin.Policy.Matching.budget_matches rin.Policy.Profiles.risk_rank
    rin.Policy.Profiles.guarded_decision rin.Policy.Profiles.survival_decision
    rin.Policy.Profiles.open_decision rin.Policy.Profiles.profile_decision
    rin.Policy.Restore.checkpoint_valid rin.Policy.Restore.check_usage
    rin.Policy.Restore.check_delta rin.Policy.Restore.check_deltas
    rin.Policy.Restore.check_reservations rin.Policy.Restore.validate_state
    rin.Policy.Restore.restore_usage rin.Policy.Restore.restore_reservations
    rin.Policy.Restore.restore_keys rin.Policy.Restore.may_restore restore_state
    rin.Policy.Snapshot.uint64_sub rin.Policy.Snapshot.withhold_delta rin.Policy.Snapshot.withhold
    rin.Policy.Snapshot.withhold_others snapshot_usage
test_restored = refl

restore_state-IsBacked_example : IsBacked (restore_state checkpoint start).1
restore_state-IsBacked_example = restore_state-IsBacked checkpoint start test_restored
