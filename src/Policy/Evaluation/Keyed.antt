-- ===== src/Policy/Evaluation/Keyed.antt =====
-- The challenges stay filed under their own identifiers through every call of the engine.
use rin.Common.{◌≡◌, refl, String, Bool, some, none, arith}
use rin.Common.Maps.{Map}
use rin.Host.{BoundAction}
use rin.Policy.{
  Engine, Config, Context, Decision, ConfirmationChallenge, BudgetUsage, Result, ok, err,
}
use rin.Policy.Budgets.{Reservation, reserved, exceeded, failed}
use rin.Policy.Challenges.{new_id, Draw}
use rin.Policy.Challenges.Consume.{
  IsKeyed, prune-IsKeyed, issue-IsKeyed, remove_challenge-IsKeyed, approve-IsKeyed, discard-IsKeyed,
}
use rin.Policy.Evaluation.{
  grant, store_authorization, with_challenge, evaluate, finalize, settle_reservation, update,
  new_engine,
}
use rin.Policy.Evaluation.Outcome.{
  Outcome, refused, replayed, challenged, allowed, confirmed_by, evaluate-Outcome,
}
use rin.Policy.Evaluation.Reachable.{
  evaluated, finalized, updated, approved, discarded, Reachable, made, called,
}

pub grant-challenges :
    (key : String) (context : Context) (base : Decision) (e : Engine)
    (out : Reservation × Map BudgetUsage)
    → (grant key context base e out).1.challenges ≡ e.challenges
unfolding grant store_authorization
grant-challenges key context base e (reserved ls ds, v) = ground arith
grant-challenges key context base e (exceeded id, v) = refl
grant-challenges key context base e (failed x, v) = refl

with_challenge-IsKeyed :
    (base : Decision) (out : Result ConfirmationChallenge × Engine)
    → IsKeyed out.1
    → IsKeyed (with_challenge base out).1
unfolding with_challenge
with_challenge-IsKeyed base (ok c, e) h = h
with_challenge-IsKeyed base (err x, e) h = h

module _ (digest : String → String) (action : BoundAction) (context : Context) where
  Outcome-IsKeyed :
      (id : String) (draw : Draw) (e : Engine) (out : Result Decision × Engine)
      → Outcome digest action context id draw e out
      → IsKeyed e
      → IsKeyed out.1
  Outcome-IsKeyed id draw e _ (refused d r) h = h
  Outcome-IsKeyed id draw e _ (replayed s n there same) h = h
  Outcome-IsKeyed id draw e _ (challenged ttl g c) h =
      with_challenge-IsKeyed _ _ (issue-IsKeyed draw action context ttl e h)
  Outcome-IsKeyed id draw e _ (allowed n g c) h = rw grant-challenges h
  Outcome-IsKeyed id draw e _ (confirmed_by s n g there fits) h =
      rw grant-challenges (remove_challenge-IsKeyed s.challenge.challenge_id e h)

  evaluate-IsKeyed :
      (dd draw : Draw) (e : Engine)
      → IsKeyed e
      → IsKeyed (evaluate digest dd draw action context e).1
  unfolding evaluate new_id
  evaluate-IsKeyed none draw e h = h
  evaluate-IsKeyed (some hex) draw e h =
      Outcome-IsKeyed _ draw _ _ (evaluate-Outcome digest action context hex draw e)
        (prune-IsKeyed action context e h)

pub finalize-challenges :
    (id : String) (committed : Bool) (e : Engine)
    → (finalize id committed e).1.challenges ≡ e.challenges
unfolding finalize settle_reservation
finalize-challenges id committed e = ground arith

update-IsKeyed :
    (config : Config) (d : String) (e : Engine) → IsKeyed e → IsKeyed (update config d e).1
unfolding update
update-IsKeyed config d e h = ground (arith, h)

pub Reachable-IsKeyed : {digest : String → String} (e : Engine) → Reachable digest e → IsKeyed e
unfolding new_engine
Reachable-IsKeyed e (made config d) = tt
Reachable-IsKeyed e (called {e = e₀} r (evaluated action context dd draw b)) =
    evaluate-IsKeyed _ action context dd draw e₀ (Reachable-IsKeyed _ r)
Reachable-IsKeyed e (called {e = e₀} r (finalized id committed)) =
    rw (finalize-challenges id committed e₀) (Reachable-IsKeyed _ r)
Reachable-IsKeyed e (called {e = e₀} r (updated config d)) =
    update-IsKeyed config d e₀ (Reachable-IsKeyed _ r)
Reachable-IsKeyed e (called {e = e₀} r (approved id approver now)) =
    approve-IsKeyed id approver now e₀ (Reachable-IsKeyed _ r)
Reachable-IsKeyed e (called {e = e₀} r (discarded challenge)) =
    discard-IsKeyed challenge e₀ (Reachable-IsKeyed _ r)
