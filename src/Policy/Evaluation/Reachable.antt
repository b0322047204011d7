-- ===== src/Policy/Evaluation/Reachable.antt =====
-- The states that an engine comes to by its calls, and the ledger in all of them.
use rin.Common.{String, Bool, arith}
use rin.Host.{BoundAction, Principal, Timepoint}
use rin.Policy.{ConfirmationChallenge, Config, Context, Engine}
use rin.Policy.Budgets.Restore.{IsBounded}
use rin.Policy.Challenges.{Draw, approve, discard_confirmation}
use rin.Policy.Challenges.Frame.{approve-Frames, discard-Frames}
use rin.Policy.Evaluation.{new_engine, update, evaluate, finalize}
use rin.Policy.Evaluation.Ledger.{
  IsBacked, Frames-IsBacked, evaluate-IsBacked, finalize-IsBacked, update-IsBacked,
}

-- The calls of an engine, each under its lock; an action is one that host validation admits.
pub data Call (digest : String → String) : Engine → Engine → Type 0 where
  evaluated :
      {e : Engine} (action : BoundAction) (context : Context) (decision_draw draw : Draw)
      → IsBounded action
      → Call digest e (evaluate digest decision_draw draw action context e).1
  finalized :
      {e : Engine} (id : String) (committed : Bool) → Call digest e (finalize id committed e).1
  updated : {e : Engine} (config : Config) (d : String) → Call digest e (update config d e).1
  approved :
      {e : Engine} (id : String) (approver : Principal) (now : Timepoint)
      → Call digest e (approve id approver now e).1
  discarded :
      {e : Engine} (challenge : ConfirmationChallenge)
      → Call digest e (discard_confirmation challenge e).1

-- The states of an engine that `New` made.
pub data Reachable (digest : String → String) : Engine → Type 0 where
  made : (config : Config) (d : String) → Reachable digest (new_engine config d)
  called : {e e' : Engine} → Reachable digest e → Call digest e e' → Reachable digest e'

Call-IsBacked :
    {digest : String → String} {e e' : Engine} → Call digest e e' → IsBacked e → IsBacked e'
Call-IsBacked {digest} {e} (evaluated action context dd draw b) h =
    evaluate-IsBacked action context b digest dd draw e h
Call-IsBacked {digest} {e} (finalized id committed) h = finalize-IsBacked id committed e h
Call-IsBacked {digest} {e} (updated config d) h = update-IsBacked config d e h
Call-IsBacked {digest} {e} (approved id approver now) h =
    Frames-IsBacked e _ (approve-Frames id approver now e) h
Call-IsBacked {digest} {e} (discarded challenge) h =
    Frames-IsBacked e _ (discard-Frames challenge e) h

-- In every state that an engine comes to by its calls, each bucket of the usage table holds at
-- least the actions and the quantity that the open reservations hold of it.
pub Reachable-IsBacked : {digest : String → String} (e : Engine) → Reachable digest e → IsBacked e
unfolding new_engine
Reachable-IsBacked e (made config d) = λ k. ground arith
Reachable-IsBacked e (called r c) = Call-IsBacked c (Reachable-IsBacked _ r)
