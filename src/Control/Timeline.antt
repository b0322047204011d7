-- ===== src/Control/Timeline.antt =====
-- controlplane/task_timeline.go: the timeline of one operation. The global sequence is a uint64.
pub mod Bounds
use rin.Common.{
  ℕ, ◌+◌, ◌%◌, ◌^◌, String, Bool, true, false, not, ◌&&◌, ◌||◌, List, [], ◌∷◌, ◌++◌, Option, none,
  some, ◌==◌, ◌=ₛ◌, ◌⋯◌, length, if◌then◌else◌,
}
use rin.Host.{RunStatus, BoundAction, ActionRun, ActionOutcome}
use rin.Policy.{Verdict, allow, deny, require_confirmation, Decision}
use rin.Control.{
  OperationStatus, awaiting_confirmation, running, ActionRequest, HostAcknowledgement,
  TimelineEvent, Operation, Desk,
}
use rin.Control.Status.{
  status_eq, status_name, run_status_name, is_complete, is_settled, reconciliation_pending,
  execution_confirmed, is_none,
}

abbrev pub max_timeline_events : ℕ
max_timeline_events = 64

unfoldable pub timeline_kind : Operation → String
timeline_kind o =
    if o.cancel && not (is_complete o)
    then "operation.cancel-requested"
    else if not (is_none o.run) && status_eq o.status running
    then "operation.progress"
    else "operation." ⋯ status_name o.status

abbrev verdict_name : Verdict → String
verdict_name allow = "allow"
verdict_name deny = "deny"
verdict_name require_confirmation = "require_confirmation"

abbrev is_required : Verdict → Bool
is_required require_confirmation = true
is_required _ = false

-- The first part of `operationTimelineSnapshot`: the operation's own fields.
unfoldable pub bare_snapshot : Operation → TimelineEvent
unfolding timeline_kind
bare_snapshot o = record {
  sequence = 0;
  kind = timeline_kind o;
  status = o.status;
  reason_code = "";
  summary = "";
  at = o.updated_at;
  terminal = is_settled o;
  execution_confirmed = execution_confirmed o;
  reconciliation_pending = reconciliation_pending o;
  delivery_attempts = o.attempts;
  progress_sequence = 0;
  progress = 0;
  cancel_requested = o.cancel;
  outcome_code = "";
  policy_disposition = "";
  policy_reason_code = "";
  policy_summary = "";
  matched_rule_ids = [];
  confirmation_pending = false;
  effect_count = 0;
}

unfoldable pub with_run : Option ActionRun → TimelineEvent → TimelineEvent
with_run none item = item
with_run (some run) item = record item {
  progress_sequence = run.progress_seq;
  progress = run.progress;
}

unfoldable pub with_reason : Operation → TimelineEvent → TimelineEvent
with_reason o item = elim o.outcome [
  | some outcome ↦ record item {
    outcome_code = run_status_name outcome.status;
    reason_code = run_status_name outcome.status;
    summary = outcome.summary;
  }
  | none ↦
      if not (o.rejection.code =ₛ "") || not (o.rejection.message =ₛ "")
      then record item { reason_code = o.rejection.code; summary = o.rejection.message }
      else record item { reason_code = status_name o.status }
]

-- The length of the effects is far below 2 ^ 32.
abbrev effects_of : Option BoundAction → ℕ
effects_of none = 0
effects_of (some action) = length action.effects

unfoldable pub with_policy : Operation → TimelineEvent → TimelineEvent
with_policy o item = elim o.request.policy_decision [
  | none ↦ item
  | some decision ↦ record item {
    policy_disposition = verdict_name decision.result;
    policy_reason_code = decision.reason_code;
    policy_summary = decision.human_summary;
    matched_rule_ids = decision.matched_rule_ids;
    confirmation_pending = is_required decision.result && status_eq o.status awaiting_confirmation;
    effect_count = effects_of o.request.bound_action;
    summary = if item.summary =ₛ "" then decision.human_summary else item.summary;
  }
]

-- `operationTimelineSnapshot`
unfoldable pub timeline_snapshot : Operation → TimelineEvent
unfolding bare_snapshot with_run with_reason with_policy
timeline_snapshot o = with_policy o (with_reason o (with_run o.run (bare_snapshot o)))

abbrev same_bool : Bool → Bool → Bool
same_bool true b = b
same_bool false b = not b

abbrev same_strings : List String → List String → Bool
same_strings [] [] = true
same_strings (x ∷ xs) (y ∷ ys) = let rest = same_strings xs ys in (x =ₛ y) && rest
same_strings _ _ = false

-- `operationTimelineEventsEqual`: everything but the sequence.
unfoldable pub events_equal : TimelineEvent → TimelineEvent → Bool
events_equal a b =
    (a.kind =ₛ b.kind)
    && (status_eq a.status b.status
        && ((a.reason_code =ₛ b.reason_code)
            && ((a.summary =ₛ b.summary)
                && ((a.at == b.at)
                    && (same_bool a.terminal b.terminal
                        && (same_bool a.execution_confirmed b.execution_confirmed
                            && (same_bool a.reconciliation_pending b.reconciliation_pending
                                && ((a.delivery_attempts == b.delivery_attempts)
                                    && ((a.progress_sequence == b.progress_sequence)
                                        && ((a.progress == b.progress)
                                            && (same_bool a.cancel_requested b.cancel_requested
                                                && ((a.outcome_code =ₛ b.outcome_code)
                                                    && ((a.policy_disposition
                                                          =ₛ b.policy_disposition)
                                                        && ((a.policy_reason_code
                                                            =ₛ b.policy_reason_code)
                                                            && ((a.policy_summary
                                                            =ₛ b.policy_summary)
                                                            && (same_strings a.matched_rule_ids
                                                            b.matched_rule_ids
                                                            && (same_bool a.confirmation_pending
                                                            b.confirmation_pending
                                                            && (a.effect_count
                                                            == b.effect_count))))))))))))))))))

abbrev last_event : List TimelineEvent → Option TimelineEvent
last_event [] = none
last_event (x ∷ []) = some x
last_event (x ∷ y ∷ xs) = last_event (y ∷ xs)

abbrev repeats_last : List TimelineEvent → TimelineEvent → Bool
repeats_last events item = elim (last_event events) [
  | none ↦ false
  | some last ↦ events_equal last item
]

-- An event joins a timeline; from a full one the first event goes, and its sequence is kept.
unfoldable pub append_event : TimelineEvent → Operation → Operation
append_event item o = elim o.timeline [
  | [] ↦ record o { timeline = item ∷ [] }
  | first ∷ rest ↦
      if length (first ∷ rest) == max_timeline_events
      then record o { timeline_truncated_before = first.sequence; timeline = rest ++ item ∷ [] }
      else record o { timeline = (first ∷ rest) ++ item ∷ [] }
]

unfoldable pub next_sequence : ℕ → ℕ
next_sequence n = (n + 1) % 2 ^ 64

abbrev has_task : Option ActionRequest → Bool
has_task none = false
has_task (some request) = not (request.task_id =ₛ "")

-- `recordOperationTimelineLocked`
unfoldable pub record_timeline : Operation → Desk → Operation × Desk
unfolding timeline_snapshot events_equal append_event next_sequence
record_timeline o desk =
    if not (has_task o.request.action_request) || repeats_last o.timeline (timeline_snapshot o)
    then (o, desk)
    else (
      append_event (record (timeline_snapshot o) { sequence = next_sequence desk.sequence }) o,
      record desk { sequence = next_sequence desk.sequence },
    )
