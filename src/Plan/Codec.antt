-- ===== src/Plan/Codec.antt =====
-- What taskstate/ takes from `crypto/sha256` and `encoding/json`, and the equality tests of its values.
use rin.Common.{◌≡◌, ◌↔◌, String, Bool, true, false, Option, arith}
use rin.Host.{ActionOutcome}
use rin.Plan.{
  PlanStatus, planned, active, blocked, paused, completed, failed, cancelled, StepStatus, pending,
  step_active, step_blocked, step_completed, step_failed, skipped, EvidenceKind, operation_outcome,
  observation_fact,
}

-- `sha256` is the digest in hexadecimal; `is_scalar_json` is whether a decoder reads exactly one null,
-- Boolean, text or number; `compact` is `json.Compact`; `outcome_digest` is the digest of the JSON of
-- an outcome.
pub record Codec : Type 0 where
  pub sha256 : String → String
  pub is_scalar_json : String → Bool
  pub compact : String → Option String
  pub outcome_digest : ActionOutcome → String

unfoldable pub plan_status_eq : PlanStatus → PlanStatus → Bool
plan_status_eq planned planned = true
plan_status_eq active active = true
plan_status_eq blocked blocked = true
plan_status_eq paused paused = true
plan_status_eq completed completed = true
plan_status_eq failed failed = true
plan_status_eq cancelled cancelled = true
plan_status_eq _ _ = false

unfoldable pub step_status_eq : StepStatus → StepStatus → Bool
step_status_eq pending pending = true
step_status_eq step_active step_active = true
step_status_eq step_blocked step_blocked = true
step_status_eq step_completed step_completed = true
step_status_eq step_failed step_failed = true
step_status_eq skipped skipped = true
step_status_eq _ _ = false

unfoldable pub kind_eq : EvidenceKind → EvidenceKind → Bool
kind_eq operation_outcome operation_outcome = true
kind_eq observation_fact observation_fact = true
kind_eq _ _ = false

pub plan_status_eq_iff : (a b : PlanStatus) → (plan_status_eq a b ≡ true) ↔ (a ≡ b)
unfolding plan_status_eq
plan_status_eq_iff a b = ground arith

pub step_status_eq_iff : (a b : StepStatus) → (step_status_eq a b ≡ true) ↔ (a ≡ b)
unfolding step_status_eq
step_status_eq_iff a b = ground arith

pub kind_eq_iff : (a b : EvidenceKind) → (kind_eq a b ≡ true) ↔ (a ≡ b)
unfolding kind_eq
kind_eq_iff a b = ground arith
