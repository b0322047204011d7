-- ===== src/Policy/Challenges/Frame.antt =====
-- The operations on challenges touch nothing but the challenges.
use rin.Common.{ℕ, ◌≡◌, String, arith}
use rin.Host.{Timepoint, Principal, BoundAction}
use rin.Policy.{Context, ConfirmationChallenge, Engine}
use rin.Policy.Challenges.{
  Draw, create_challenge, issue_confirmation, consume_confirmation, prune_challenges, approve,
  discard_confirmation,
}

pub record Frames (e e' : Engine) : Type 0 where
  pub config : e'.config ≡ e.config
  pub usage : e'.usage ≡ e.usage
  pub reservations : e'.reservations ≡ e.reservations
  pub authorizations : e'.authorizations ≡ e.authorizations
  pub decision_keys : e'.decision_keys ≡ e.decision_keys

module _ (action : BoundAction) (context : Context) (e : Engine) where
  pub prune-Frames : Frames e (prune_challenges action context e)
  unfolding prune_challenges
  prune-Frames = ground arith

  pub issue-Frames :
      (draw : Draw) (ttl : ℕ) → Frames e (issue_confirmation draw action context ttl e).1
  unfolding issue_confirmation create_challenge
  issue-Frames draw ttl = ground arith

  pub consume-Frames : Frames e (consume_confirmation action context e).1
  unfolding consume_confirmation
  consume-Frames = ground arith

pub approve-Frames :
    (id : String) (approver : Principal) (now : Timepoint) (e : Engine)
    → Frames e (approve id approver now e).1
unfolding approve
approve-Frames id approver now e = ground arith

pub discard-Frames :
    (challenge : ConfirmationChallenge) (e : Engine) → Frames e (discard_confirmation challenge e).1
unfolding discard_confirmation
discard-Frames challenge e = ground arith
