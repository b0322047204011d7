-- ===== src/Lib.antt =====
-- Verification of Rin's authorization core, its control plane, its task plans and its signals.
--
-- Rin lets an agent act in a game through an authoritative Host. The policy engine (policy/) decides
-- whether a bound effect preview is allowed, denied or needs a confirmation, charges gameplay budgets
-- and keeps confirmation challenges. The control plane (controlplane/) turns a decided action into an
-- operation, hands it to the Host that polls, and records acknowledgement, progress and outcome; when
-- an operation ends it tells the policy engine to keep or to give back the reservation. The task state
-- (taskstate/) keeps the plans that operations are part of: its coordinator lets a caller change a
-- plan under the control plane's lease, and the outcomes of operations and the facts of observations
-- advance the plan. The signal box (signalbox/) keeps what Hosts signal to an actor until it is
-- delivered. The change feed (internal/changefeed) tells readers which objects changed.
--
-- Where things are:
--   Common          shared names, tests on numbers, lists, texts, Go maps as association lists, runes.
--   Host            host/types.go, host/action.go: epochs, timepoints, effects, bound actions, runs.
--     Checks        host/validate.go: identifiers, versions, references, outcomes.
--   Policy          policy/types.go and the engine's state, a record of eight tables.
--     Kernel, Profiles, Matching, Gameplay   policy/defaults.go and `evaluateGameplay`.
--     Keys, Budgets                          `makeBudgetKey`, `reserveBudgets`, `rollbackDeltas`.
--     Challenges                             `issueConfirmation`, `consumeConfirmation`, `Approve`.
--     Decisions, Evaluation                  `Evaluate`, `Finalize`, `Update`, `New`.
--     Snapshot, Restore                      policy/state.go: checkpoints of the usage.
--   Control         controlplane/types.go and the state of an operation and of the service.
--     Status, Timeline, Settle, Reports, Cancel, Expiry, Fence, Delivery, Submit, Confirm
--                   controlplane/operation.go, task_timeline.go, controller.go, service.go and
--                   action_gateway.go, one module per handler family.
--     Controllers   controlplane/controller.go: the leases of controllers.
--     Invariant, Outcome   the state machine of an operation.
--   Plan            taskstate/plan.go: plans, steps, conditions, evidence, the errors.
--     Codec         what the code takes from SHA-256 and JSON.
--     Checks, Validation, Steps, Progress, Failures
--                   `ValidatePlan` and its parts, `NewPlan`, `ApplyEvidence`, `ApplyFailure`.
--     Store         taskstate/store.go: three tables and the operations on them; Store/Evolution
--                   follows a plan through any sequence of operations.
--     Coordinator   taskstate/coordinator.go: the calls of callers and the sink of outcomes.
--   Signal          signalbox/signal.go; Inbox and Store are store.go, Delivery is delivery.go,
--                   Service is service.go.
--   Feed            internal/changefeed/feed.go.
--   Tests           concrete inputs, at which the theorems are applied.
--
-- How the code is read. A method that takes the lock is a function from the engine or the service to
-- a reply and the next state. An error is a value. Go maps are association lists whose order no
-- theorem depends on. A loop that changes tables is a recursion on the list it ranges over, with the
-- variables of the loop as arguments. Only the printing of a number runs on fuel: as many rounds as
-- the number, each of which divides it by ten. An unsigned integer is a natural number with the
-- code's own overflow tests written out; the timeline's sequence keeps its wrap-around. Random
-- identifiers come in as a draw that may fail, and the digest of a budget's public key is a
-- parameter. The arguments of the policy engine and the control plane are those that the validators
-- admit; where a theorem needs one of their bounds it is a hypothesis. The task state and the signal
-- box check theirs as the code does. Calls of one engine or one service are interleaved in any order
-- as steps of a relation.
--
-- In the task state a table is the list of its rows, an SQL statement is the list operation that it
-- describes, with the keys and unique indexes of the schema, and a transaction that fails leaves the
-- store as it was. The counter of failures in a row wraps around at 2 ^ 32, the revision of a feed at
-- 2 ^ 64. Times are milliseconds from 1970 on. What the coordinator and the signal service ask of the
-- control plane, and what is computed by SHA-256 and by the JSON packages, are parameters.
--
-- `ConfirmAction` gives the lock of the service back between its parts, so each part is a step of its
-- own; the errors of the checks on its caller come in as arguments.
--
-- Not modelled: the validators of policy configurations and of bound actions, files, SQLite and HTTP,
-- the waiting loops, the workers that deliver outcomes, the publishing of worlds; and, beside these
-- packages, the merged timeline, cognition, experience, and the interfaces around them.
pub mod Common
pub mod Host
pub mod Policy
pub mod Control
pub mod Plan
pub mod Signal
pub mod Feed
pub mod Tests
