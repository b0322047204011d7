-- ===== src/Policy/Evaluation/Capacity.antt =====
-- The tables of challenges and of authorizations stay within their capacities.
use rin.Common.{
  ℕ, ◌≤◌, ◌≡◌, String, ◌⋯◌, Bool, true, false, List, [], ◌∷◌, some, none, arith, length,
  Option-cases, inl, inr,
}
use rin.Common.Maps.{
  Map, lookup, insert, delete, length-delete-le, length-drop_if-le, length-insert-le,
}
use rin.Host.{BoundAction, Principal, Timepoint}
use rin.Policy.{
  Engine, Config, Context, Decision, BudgetDelta, BudgetUsage, AuthorizationState,
  ConfirmationChallenge, max_authorizations, max_challenges, Result, ok, err,
}
use rin.Policy.Keys.{make_challenge_key}
use rin.Policy.Budgets.{Reservation, reserved, exceeded, failed}
use rin.Policy.Challenges.{
  Draw, new_id, issue_confirmation, create_challenge, prune_challenges, approve,
  discard_confirmation, is_expired,
}
use rin.Policy.Evaluation.{
  grant, store_authorization, make_room, with_challenge, evaluate, finalize, settle_reservation,
  settle_authorization, update, new_engine,
}
use rin.Policy.Evaluation.Outcome.{
  Outcome, refused, replayed, challenged, allowed, confirmed_by, evaluate-Outcome,
}
use rin.Policy.Evaluation.Reachable.{
  evaluated, finalized, updated, approved, discarded, Reachable, made, called,
}

abbrev pub IsWithin : Engine → Type 0
IsWithin e = (length e.challenges ≤ max_challenges) × (length e.authorizations ≤ max_authorizations)

-- A write to a key that is there takes no room.
length-replace :
    {V : Type 0} (k : String) (v w : V) (m : Map V)
    → lookup k m ≡ some w
    → length (insert k v m) ≤ length m
unfolding lookup insert delete
length-replace k v w [] h = ground arith
length-replace k v w ((j, x) ∷ m) h = ground (arith, length-delete-le k m, length-replace k v w m)

store-IsWithin :
    (key : String) (context : Context) (d : Decision) (ds : List BudgetDelta) (e : Engine)
    → IsWithin e
    → IsWithin (store_authorization key context d ds e).1
unfolding store_authorization make_room
store-IsWithin key context d ds e h = ground (
  arith,
  h,
  length-drop_if-le (λ s. s.finalized) e.authorizations,
  length-insert-le key
      (record { decision = d; confirmation_id = context.confirmation_id; finalized = false })
      (make_room e.authorizations),
)

grant-IsWithin :
    (key : String) (context : Context) (base : Decision) (e : Engine)
    (out : Reservation × Map BudgetUsage)
    → IsWithin e
    → IsWithin (grant key context base e out).1
unfolding grant
grant-IsWithin key context base e (reserved ls ds, v) h = store-IsWithin key context _ ds _ h
grant-IsWithin key context base e (exceeded id, v) h = h
grant-IsWithin key context base e (failed x, v) h = h

with_challenge-IsWithin :
    (base : Decision) (out : Result ConfirmationChallenge × Engine)
    → IsWithin out.1
    → IsWithin (with_challenge base out).1
unfolding with_challenge
with_challenge-IsWithin base (ok c, e) h = h
with_challenge-IsWithin base (err x, e) h = h

create-IsWithin :
    (draw : Draw) (action : BoundAction) (context : Context) (ttl : ℕ) (e : Engine)
    → IsWithin e
    → IsWithin (create_challenge draw action context ttl e).1
unfolding create_challenge new_id insert
create-IsWithin none action context ttl e h = ground (arith, h)
create-IsWithin (some hex) action context ttl e h =
    ground (arith, h, length-delete-le ("confirmation" ⋯ "." ⋯ hex) e.challenges)

issue-IsWithin :
    (draw : Draw) (action : BoundAction) (context : Context) (ttl : ℕ) (e : Engine)
    → IsWithin e
    → IsWithin (issue_confirmation draw action context ttl e).1
unfolding issue_confirmation
issue-IsWithin draw action context ttl e h = ground (
  arith,
  h,
  create-IsWithin draw action context ttl e h,
  create-IsWithin draw action context ttl
      (record e {
        challenge_keys =
            delete (make_challenge_key action context e.config.revision) e.challenge_keys;
      })
      h,
)

approve-IsWithin :
    (id : String) (approver : Principal) (now : Timepoint) (e : Engine)
    → IsWithin e
    → IsWithin (approve id approver now e).1
unfolding approve
approve-IsWithin id approver now e h = elim (Option-cases (lookup id e.challenges)) [
  | inl eq ↦ rw (eq, approve) h
  | inr (s, eq) ↦ ground (
    arith,
    h,
    eq,
    length-delete-le id e.challenges,
    length-replace id (record s { approved = true }) s e.challenges eq,
  )
]

discard-IsWithin :
    (challenge : ConfirmationChallenge) (e : Engine)
    → IsWithin e
    → IsWithin (discard_confirmation challenge e).1
unfolding discard_confirmation
discard-IsWithin challenge e h =
    ground (arith, h, length-delete-le challenge.challenge_id e.challenges)

settle_authorization-le :
    (key : String) (committed : Bool) (m : Map AuthorizationState)
    → length (settle_authorization key committed m) ≤ length m
unfolding settle_authorization
settle_authorization-le key committed m = elim (Option-cases (lookup key m)) [
  | inl eq ↦ ground (arith, eq)
  | inr (s, eq) ↦
      ground (
        arith,
        eq,
        length-delete-le key m,
        length-replace key (record s { finalized = true }) s m eq,
      )
]

finalize-IsWithin :
    (id : String) (committed : Bool) (e : Engine)
    → IsWithin e
    → IsWithin (finalize id committed e).1
unfolding finalize settle_reservation
finalize-IsWithin id committed e h = elim (Option-cases (lookup id e.decision_keys)) [
  | inl eq ↦ rw (eq, finalize) h
  | inr (key, eq) ↦
      rw (eq, finalize) (ground (arith, h, settle_authorization-le key committed e.authorizations))
]

update-IsWithin :
    (config : Config) (d : String) (e : Engine) → IsWithin e → IsWithin (update config d e).1
unfolding update
update-IsWithin config d e h = ground (arith, h)

module _ (digest : String → String) (action : BoundAction) (context : Context) where
  Outcome-IsWithin :
      (id : String) (draw : Draw) (e : Engine) (out : Result Decision × Engine)
      → Outcome digest action context id draw e out
      → IsWithin e
      → IsWithin out.1
  Outcome-IsWithin id draw e _ (refused d r) h = h
  Outcome-IsWithin id draw e _ (replayed s n there same) h = h
  Outcome-IsWithin id draw e _ (challenged ttl g c) h =
      with_challenge-IsWithin _ _ (issue-IsWithin draw action context ttl e h)
  Outcome-IsWithin id draw e _ (allowed n g c) h = grant-IsWithin _ context _ e _ h
  Outcome-IsWithin id draw e _ (confirmed_by s n g there fits) h =
      grant-IsWithin _ context _ _ _
        (omega (arith, h, length-delete-le s.challenge.challenge_id e.challenges))

  evaluate-IsWithin :
      (dd draw : Draw) (e : Engine)
      → IsWithin e
      → IsWithin (evaluate digest dd draw action context e).1
  unfolding evaluate new_id prune_challenges
  evaluate-IsWithin none draw e h = h
  evaluate-IsWithin (some hex) draw e h =
      Outcome-IsWithin _ draw _ _ (evaluate-Outcome digest action context hex draw e)
        (omega (arith, h, length-drop_if-le (is_expired action context) e.challenges))

-- In every state that an engine comes to by its calls there are at most 1024 challenges and at
-- most 4096 authorizations.
pub Reachable-IsWithin : {digest : String → String} (e : Engine) → Reachable digest e → IsWithin e
unfolding new_engine
Reachable-IsWithin e (made config d) = ground arith
Reachable-IsWithin e (called {e = e₀} r (evaluated action context dd draw b)) =
    evaluate-IsWithin _ action context dd draw e₀ (Reachable-IsWithin _ r)
Reachable-IsWithin e (called {e = e₀} r (finalized id committed)) =
    finalize-IsWithin id committed e₀ (Reachable-IsWithin _ r)
Reachable-IsWithin e (called {e = e₀} r (updated config d)) =
    update-IsWithin config d e₀ (Reachable-IsWithin _ r)
Reachable-IsWithin e (called {e = e₀} r (approved id approver now)) =
    approve-IsWithin id approver now e₀ (Reachable-IsWithin _ r)
Reachable-IsWithin e (called {e = e₀} r (discarded challenge)) =
    discard-IsWithin challenge e₀ (Reachable-IsWithin _ r)
