-- ===== src/Host/Checks.antt =====
-- host/validate.go: identifiers, exact versions, texts and the small values of the Host contract. The
-- regular expressions are matched by automata over the characters. A check's answer is whether the
-- error is nil; its message is left out.
use rin.Common.{
  ℕ, ◌+◌, ◌*◌, String, Bool, true, false, not, ◌&&◌, ◌||◌, List, [], ◌∷◌, Option, none, some, ltb,
  leb, ◌==◌, ◌=ₛ◌, if◌then◌else◌, contains, all, length, join_nul,
}
use rin.Common.Runes.{
  byte_length, rune_count, codes, is_digit, is_lower, is_upper, trim_space, contains_rune,
}
use rin.Host.{
  Epoch, epoch_eq, Timepoint, RunStatus, ActionOutcome, run_status_eq, CapabilityRef, PlanStepRef,
  HostRef,
}

abbrev pub max_interoperable_integer : ℕ
max_interoperable_integer = 9007199254740991

-- Where the matcher of `^[a-z][a-z0-9]*(?:[._-][a-z0-9]+)*$` stands.
pub data IdState : Type 0 where
  first word separator : IdState

abbrev is_separator : ℕ → Bool
is_separator c = (c == b'.') || ((c == b'_') || (c == b'-'))

abbrev id_step : IdState → ℕ → Option IdState
id_step first c = if is_lower c then some word else none
id_step word c =
    if is_lower c || is_digit c then some word else if is_separator c then some separator else none
id_step separator c = if is_lower c || is_digit c then some word else none

abbrev id_matches_from : IdState → List ℕ → Bool
id_matches_from word [] = true
id_matches_from first [] = false
id_matches_from separator [] = false
id_matches_from state (c ∷ cs) = elim (id_step state c) [
  | none ↦ false
  | some next ↦ id_matches_from next cs
]

-- `hostIDPattern`, and `identifier` of signalbox/signal.go.
unfoldable pub host_id_pattern : String → Bool
host_id_pattern value = id_matches_from first (codes value)

unfoldable pub validate_host_id : String → Bool → Bool
unfolding host_id_pattern contains_rune
validate_host_id value namespaced =
    not (byte_length value == 0)
    && (leb (byte_length value) 96
        && (host_id_pattern value && (not namespaced || contains_rune value b'.')))

unfoldable pub validate_text : String → ℕ → Bool → Bool
unfolding trim_space contains_rune
validate_text value maximum required =
    not (required && (trim_space value =ₛ ""))
    && (not (contains_rune value 0) && leb (rune_count value) maximum)

abbrev skip_digits : List ℕ → List ℕ
skip_digits [] = []
skip_digits (c ∷ cs) = elim (is_digit c) [ true ↦ skip_digits cs | false ↦ c ∷ cs ]

-- `(0|[1-9][0-9]*)` at the front: what stands behind it.
abbrev skip_number : List ℕ → Option (List ℕ)
skip_number [] = none
skip_number (c ∷ cs) =
    if c == b'0' then some cs else if is_digit c then some (skip_digits cs) else none

abbrev skip_rune : ℕ → List ℕ → Option (List ℕ)
skip_rune d [] = none
skip_rune d (c ∷ cs) = if c == d then some cs else none

abbrev then_skip : Option (List ℕ) → (List ℕ → Option (List ℕ)) → Option (List ℕ)
then_skip none f = none
then_skip (some cs) f = f cs

-- The three numbers of `versionCore`.
abbrev skip_core : List ℕ → Option (List ℕ)
skip_core cs = then_skip (skip_number cs) λ a.
    then_skip (skip_rune b'.' a)
      λ b. then_skip (skip_number b) λ c. then_skip (skip_rune b'.' c) λ d. skip_number d

abbrev is_version_rune : ℕ → Bool
is_version_rune c = is_digit c || (is_lower c || (is_upper c || ((c == b'.') || (c == b'-'))))

-- The longest run of `[0-9A-Za-z.-]` at the front, and the rest.
abbrev span_version : List ℕ → List ℕ × List ℕ
span_version [] = ([], [])
span_version (c ∷ cs) =
    let (run, rest) = span_version cs in if is_version_rune c then (c ∷ run, rest) else ([], c ∷ cs)

-- The characters behind `+`, all of which the pattern takes.
abbrev build_part : List ℕ → List ℕ → Option (List ℕ × List ℕ)
build_part pre [] = none
build_part pre (c ∷ cs) = if all is_version_rune (c ∷ cs) then some (pre, c ∷ cs) else none

abbrev after_pre : List ℕ × List ℕ → Option (List ℕ × List ℕ)
after_pre ([], rest) = none
after_pre (p ∷ pre, []) = some (p ∷ pre, [])
after_pre (p ∷ pre, c ∷ cs) = if c == b'+' then build_part (p ∷ pre) cs else none

abbrev version_tail : List ℕ → Option (List ℕ × List ℕ)
version_tail [] = some ([], [])
version_tail (c ∷ cs) =
    if c == b'-' then after_pre (span_version cs) else if c == b'+' then build_part [] cs else none

-- `match[4]` and `match[5]` of `versionCore.FindStringSubmatch`.
unfoldable pub version_core : String → Option (List ℕ × List ℕ)
version_core value = elim (skip_core (codes value)) [ none ↦ none | some rest ↦ version_tail rest ]

abbrev push_rune : ℕ → List (List ℕ) → List (List ℕ)
push_rune c [] = (c ∷ []) ∷ []
push_rune c (part ∷ parts) = (c ∷ part) ∷ parts

-- `strings.Split(value, ".")`
unfoldable pub split_dots : List ℕ → List (List ℕ)
split_dots [] = [] ∷ []
split_dots (c ∷ cs) = if c == b'.' then [] ∷ split_dots cs else push_rune c (split_dots cs)

abbrev number_from : ℕ → List ℕ → ℕ
number_from n [] = n
number_from n (c ∷ cs) = number_from (n * 10 + Prim.Native.Nat.◌-◌ c b'0') cs

-- `strconv.ParseUint(identifier, 10, 64)` gives no error.
unfoldable pub is_uint64 : List ℕ → Bool
is_uint64 [] = false
is_uint64 (c ∷ cs) = all is_digit (c ∷ cs) && ltb (number_from 0 (c ∷ cs)) 18446744073709551616

-- The body of the loop of `validateVersionIdentifiers`.
unfoldable pub version_identifier : Bool → List ℕ → Bool
unfolding is_uint64
version_identifier prerelease [] = false
version_identifier prerelease (c ∷ cs) =
    not (prerelease && (ltb 1 (length (c ∷ cs)) && ((c == b'0') && is_uint64 (c ∷ cs))))

unfoldable pub validate_version_identifiers : List ℕ → Bool → Bool
unfolding split_dots version_identifier
validate_version_identifiers [] prerelease = true
validate_version_identifiers (c ∷ cs) prerelease =
    all (version_identifier prerelease) (split_dots (c ∷ cs))

unfoldable pub validate_exact_version : String → Bool
unfolding version_core validate_version_identifiers
validate_exact_version value = elim (version_core value) [
  | none ↦ false
  | some (pre, build) ↦
      validate_version_identifiers pre true && validate_version_identifiers build false
]

-- `CapabilityRef.Validate`
unfoldable pub validate_capability : CapabilityRef → Bool
unfolding validate_host_id validate_exact_version
validate_capability ref = validate_host_id ref.id true && validate_exact_version ref.version

abbrev pub is_safe_positive : ℕ → Bool
is_safe_positive n = not (n == 0) && leb n max_interoperable_integer

-- `PlanStepRef.Validate`
unfoldable pub validate_plan_step : PlanStepRef → Bool
unfolding validate_host_id
validate_plan_step ref =
    validate_host_id ref.plan_id false
    && (is_safe_positive ref.plan_revision && validate_host_id ref.step_id false)

-- `Epoch.Validate`
unfoldable pub validate_epoch : Epoch → Bool
unfolding validate_host_id
validate_epoch epoch =
    validate_host_id epoch.session_id false
    && (validate_host_id epoch.world_id false
        && (is_safe_positive epoch.host
            && (is_safe_positive epoch.world && is_safe_positive epoch.timeline)))

-- `Timepoint.Validate`, whose clock is supported and whose value is at or above 0.
unfoldable pub validate_timepoint : Timepoint → Bool
validate_timepoint point = leb point.value max_interoperable_integer

-- `HostRef.Validate`
unfoldable pub validate_host_ref : HostRef → Bool
unfolding validate_host_id validate_text validate_epoch
validate_host_ref ref =
    validate_host_id ref.namespace true
    && (validate_host_id ref.kind false
        && (validate_text ref.key 256 true && validate_epoch ref.epoch))

abbrev pub ref_key : HostRef → String
unfolding join_nul
ref_key ref = join_nul (ref.namespace ∷ ref.kind ∷ ref.key ∷ [])

-- The loop of `validateRefs`, with the keys that it has seen.
unfoldable pub validate_refs_from : List String → Epoch → List HostRef → Bool
unfolding validate_host_ref
validate_refs_from seen epoch [] = true
validate_refs_from seen epoch (ref ∷ refs) =
    validate_host_ref ref
    && (epoch_eq ref.epoch epoch
        && (not (contains ◌=ₛ◌ seen (ref_key ref))
            && validate_refs_from (ref_key ref ∷ seen) epoch refs))

unfoldable pub validate_refs : List HostRef → Epoch → Bool
unfolding validate_refs_from
validate_refs refs epoch = leb (length refs) 32 && validate_refs_from [] epoch refs

unfoldable pub is_terminal_run_status : RunStatus → Bool
is_terminal_run_status value =
    run_status_eq value RunStatus.succeeded
    || (run_status_eq value RunStatus.failed
        || (run_status_eq value RunStatus.cancelled
            || (run_status_eq value RunStatus.interrupted
                || (run_status_eq value RunStatus.stale
                    || run_status_eq value RunStatus.outcome_unknown))))

-- `ValidateActionOutcome`
unfoldable pub validate_action_outcome : ActionOutcome → Bool
unfolding validate_host_id validate_text validate_epoch validate_refs validate_timepoint
    is_terminal_run_status
validate_action_outcome outcome =
    validate_host_id outcome.operation_id false
    && (is_terminal_run_status outcome.status
        && ((if run_status_eq outcome.status RunStatus.succeeded
              then outcome.code =ₛ ""
              else validate_host_id outcome.code true)
            && (validate_text outcome.summary 1000 true
                && (validate_epoch outcome.epoch
                    && (validate_refs outcome.evidence outcome.epoch
                        && (is_safe_positive outcome.world_seq
                            && validate_timepoint outcome.occurred_at))))))
