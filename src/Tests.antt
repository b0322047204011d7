-- ===== src/Tests.antt =====
-- Small inputs, and the theorems at them.
pub mod Policies
pub mod Operations
pub mod Checkpoints
pub mod Leases
pub mod Plans
pub mod Tasks
pub mod Signals
use rin.Common.{ℕ, arith, String, Bool, true, false, List, [], ◌∷◌, Option, none, some}
use rin.Host.{
  ClockMode, Timepoint, Epoch, Principal, RiskLevel, OwnershipClass, EffectOperation, Effect,
  BoundAction,
}
use rin.Policy.{Verdict, open_profile, Layer, Rule, Budget, Config, Context, Engine}
use rin.Policy.Budgets.Restore.{IsBounded}

abbrev pub epoch : Epoch
epoch = record { session_id = "s"; world_id = "w"; host = 1; world = 1; timeline = 1 }

abbrev pub now : Timepoint
now = record { clock = ClockMode.realtime; value = 10 }

abbrev pub player : Principal
player = record { id = "player"; granted_scopes = "operator" ∷ [] }

abbrev pub move : Effect
move = record {
  kind = "move";
  operation = EffectOperation.update;
  tags = [];
  ownership = OwnershipClass.actor;
  scope = "world";
  quantity = 2;
  reversible = true;
  risk = RiskLevel.low;
}

abbrev pub walk : BoundAction
walk = record {
  binding_id = "b";
  request_digest = "r";
  controller_id = "c";
  actor_id = "a";
  expected_epoch = epoch;
  task_id = "t";
  effects = move ∷ [];
  effect_digest = "e";
  valid_until = record { clock = ClockMode.realtime; value = 50 };
}

abbrev pub any_effect : Verdict → Rule
any_effect verdict = record {
  rule_id = "rule";
  layer = Layer.server;
  result = verdict;
  effect_kinds = [];
  operations = [];
  ownership = [];
  scopes = [];
  tags_all = [];
  tags_any = [];
  risk_at_least = none;
  risk_at_most = none;
  reversible = none;
  reason_code = "rule.any";
  human_summary = "A rule for every effect.";
}

abbrev pub moves : Budget
moves = record {
  budget_id = "moves";
  layer = Layer.server;
  effect_kinds = "move" ∷ [];
  operations = [];
  tags_any = [];
  max_actions = 3;
  max_quantity = 10;
  window = none;
}

abbrev pub config : Verdict → Config
config verdict = record {
  revision = 1;
  profile = open_profile;
  known_effect_kinds = "move" ∷ [];
  known_scopes = "world" ∷ [];
  rules = any_effect verdict ∷ [];
  budgets = moves ∷ [];
  confirmation_ttl = record { event = 0; step = 0; realtime = 20 };
  confirmation_scopes = "operator" ∷ [];
}

abbrev pub context : String → Context
context confirmation_id = record {
  now = now;
  current_epoch = epoch;
  principal = player;
  server_id = "server";
  owner_id = "owner";
  emergency_stopped = false;
  confirmation_id = confirmation_id;
}

-- The digest is not computed here: any function will do.
abbrev pub digest : String → String
digest key = key

pub walk-IsBounded : IsBounded walk
walk-IsBounded = record { few = omega arith; safe = (omega arith, tt) }
