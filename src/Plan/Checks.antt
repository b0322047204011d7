-- ===== src/Plan/Checks.antt =====
-- taskstate/plan.go: `ValidatePlan` and the checks that it is made of.
use rin.Common.{
  ℕ, String, Bool, true, false, not, ◌&&◌, ◌||◌, List, [], ◌∷◌, none, some, ltb, leb, ◌==◌, ◌=ₛ◌,
  contains, all, any, length,
}
use rin.Common.Maps.{Map, insert, member}
use rin.Common.Runes.{byte_length, trim_space, contains_rune}
use rin.Host.{CapabilityRef, capability_eq, epoch_eq}
use rin.Host.Checks.{validate_capability, validate_epoch}
use rin.Plan.{
  invalid, host_invalid, Result, ok, err, ◌>>=◌, ◌>>◌, require, step_completed, skipped,
  EvidenceKind, operation_outcome, observation_fact, PlanCondition, PlanEvidence, PlanStep,
  PlanState,
}
use rin.Plan.Codec.{Codec, step_status_eq, kind_eq}

abbrev pub max_wire_integer : ℕ
max_wire_integer = 9007199254740991

-- A text is valid UTF-8, so the first test of `validateText` is left out.
unfoldable pub validate_text : String → ℕ → Bool → Bool
unfolding contains_rune trim_space
validate_text value maximum required =
    not (contains_rune value 0)
    && (leb (byte_length value) maximum && not (required && (trim_space value =ₛ "")))

abbrev pub require_text : String → ℕ → Bool → Result (Unit {0})
require_text value maximum required = require (validate_text value maximum required) invalid

unfoldable pub condition_in_list : List PlanCondition → String → EvidenceKind → Bool
condition_in_list conditions id kind =
    any (λ (c : PlanCondition). (c.condition_id =ₛ id) && kind_eq c.kind kind) conditions

-- The test inside the loop of `conditionsSatisfied`.
unfoldable pub condition_met : List PlanEvidence → PlanCondition → Bool
condition_met evidence condition =
    any
      (λ (item : PlanEvidence).
        (item.condition_id =ₛ condition.condition_id) && kind_eq item.kind condition.kind)
      evidence

unfoldable pub conditions_satisfied : List PlanCondition → List PlanEvidence → Bool
unfolding condition_met
conditions_satisfied conditions evidence = all (condition_met evidence) conditions

abbrev pub is_terminal_success : PlanStep → Bool
is_terminal_success step =
    step_status_eq step.status step_completed || step_status_eq step.status skipped

unfoldable pub all_steps_terminal_success : List PlanStep → Bool
all_steps_terminal_success = all is_terminal_success

unfoldable pub find_evidence : List PlanEvidence → String → Bool
find_evidence items id = any (λ (item : PlanEvidence). item.evidence_id =ₛ id) items

unfoldable pub evidence_in_steps : List PlanStep → String → Bool
unfolding find_evidence
evidence_in_steps steps id = any (λ (step : PlanStep). find_evidence step.evidence id) steps

-- `fmt.Errorf("%w: ...", ErrInvalid, err)` around the error of a check.
abbrev pub wrapped {ℓ} : {A : Type ℓ} → Result A → Result A
wrapped (ok a) = ok a
wrapped (err e) = err invalid

-- The bounds of a step, whose status is supported.
abbrev pub step_bounds : PlanStep → Bool
step_bounds step =
    not (step.max_attempts == 0)
    && (leb step.max_attempts 32
        && (leb step.attempt step.max_attempts
            && (not (length step.success_conditions == 0)
                && (leb (length step.success_conditions) 8
                    && (leb (length step.capability_hints) 32 && leb (length step.evidence) 64)))))

module _ (codec : Codec) where
  unfoldable pub digest_text : String → String
  unfolding trim_space
  digest_text value = codec.sha256 (trim_space value)

  unfoldable pub validate_scalar_json : String → Bool
  validate_scalar_json value =
      not (byte_length value == 0) && (leb (byte_length value) 1024 && codec.is_scalar_json value)

  -- The switch of `validateConditions`: what each kind of condition has to carry.
  unfoldable pub validate_selector : PlanCondition → Result (Unit {0})
  unfolding validate_text validate_scalar_json validate_capability
  validate_selector c = elim c.kind [
    | operation_outcome ↦ elim c.capability [
      | none ↦ err invalid
      | some ref ↦ do
        require ((c.fact_id =ₛ "") && (c.fact_value_json =ₛ "")) invalid
        require (validate_capability ref) host_invalid
    ]
    | observation_fact ↦ elim c.capability [
      | some _ ↦ err invalid
      | none ↦
          require (validate_text c.fact_id 128 true && validate_scalar_json c.fact_value_json)
            invalid
    ]
  ]

  -- The body of the loop of `validateConditions`; it returns the map `all`.
  unfoldable pub validate_condition : PlanCondition → Map EvidenceKind → Result (Map EvidenceKind)
  unfolding validate_text validate_selector member insert
  validate_condition c all_ids = do
    require_text c.condition_id 128 true
    require_text c.summary 500 true
    validate_selector c
    require (not (member c.condition_id all_ids)) invalid
    ok (insert c.condition_id c.kind all_ids)

  unfoldable pub validate_conditions :
      List PlanCondition → Map EvidenceKind → Result (Map EvidenceKind)
  unfolding validate_condition
  validate_conditions [] all_ids = ok all_ids
  validate_conditions (c ∷ cs) all_ids = do
    next ← validate_condition c all_ids
    validate_conditions cs next

  -- The loop over the capability hints, with those that it has seen.
  unfoldable pub validate_hints :
      List CapabilityRef → List CapabilityRef → Result (List CapabilityRef)
  unfolding validate_capability
  validate_hints [] seen = ok seen
  validate_hints (ref ∷ refs) seen = do
    require (validate_capability ref) host_invalid
    require (not (contains capability_eq seen ref)) invalid
    validate_hints refs (ref ∷ seen)

  abbrev pub capability_known : List CapabilityRef → PlanCondition → Bool
  capability_known seen c = elim c.capability [
    | none ↦ true
    | some ref ↦ contains capability_eq seen ref
  ]

  -- The tests of `validateStep` on the texts of the step, which give the same error as its bounds do.
  unfoldable pub validate_step_texts : PlanStep → Result (Unit {0})
  unfolding validate_text
  validate_step_texts step = do
    require_text step.step_id 128 true
    require_text step.title 200 true
    require_text step.objective 1000 true
    require_text step.blocked_reason 500 false

  unfoldable pub validate_step : PlanStep → Map EvidenceKind → Result (Map EvidenceKind)
  unfolding validate_step_texts validate_conditions validate_hints
  validate_step step all_ids = do
    require (step_bounds step) invalid
    validate_step_texts step
    next ← validate_conditions step.success_conditions all_ids
    seen ← validate_hints step.capability_hints []
    require (all (capability_known seen) step.success_conditions) invalid
    ok next

  unfoldable pub validate_evidence : PlanEvidence → PlanState → Result (Unit {0})
  unfolding validate_text validate_epoch
  validate_evidence evidence state = do
    require_text evidence.evidence_id 256 true
    require_text evidence.condition_id 256 true
    require_text evidence.digest 256 true
    require (byte_length evidence.digest == 64) invalid
    require
        (not (evidence.observation_sequence == 0)
          && leb evidence.observation_sequence max_wire_integer)
        invalid
    require (validate_epoch evidence.epoch) invalid
    require
        (epoch_eq evidence.epoch state.based_on_epoch
          && not (ltb evidence.observation_sequence state.based_on_observation_sequence))
        invalid
    elim evidence.kind [
      | operation_outcome ↦ require_text evidence.operation_id 256 true
      | observation_fact ↦ require (evidence.operation_id =ₛ "") invalid
    ]

  unfoldable pub validate_all_evidence : List PlanEvidence → PlanState → Result (Unit {0})
  unfolding validate_evidence
  validate_all_evidence [] state = ok tt
  validate_all_evidence (item ∷ items) state = do
    validate_evidence item state
    validate_all_evidence items state
