-- ===== src/Policy/Challenges/Consume.antt =====
-- Every challenge is filed under its own identifier, whatever is done to the table.
use rin.Common.{
  ℕ, ◌≡◌, refl, String, Bool, [], ◌∷◌, some, none, arith, eq_iff, length, ◌⋯◌, inl, inr, Bool-cases,
  Option-cases, leb,
}
use rin.Common.Maps.{Map, lookup, insert, delete, drop_if}
use rin.Host.{BoundAction, Principal, Timepoint}
use rin.Policy.{Engine, Context, ChallengeState, ConfirmationChallenge, max_challenges}
use rin.Policy.Keys.{make_challenge_key}
use rin.Policy.Challenges.{
  Draw, new_id, make_challenge, create_challenge, issue_confirmation, prune_challenges, approve,
  discard_confirmation, is_expired,
}

abbrev AreKeyed : Map ChallengeState → Type 0
AreKeyed [] = Unit
AreKeyed ((id, state) ∷ m) = (state.challenge.challenge_id ≡ id) × AreKeyed m

abbrev pub IsKeyed : Engine → Type 0
IsKeyed e = AreKeyed e.challenges

AreKeyed-delete : (id : String) (m : Map ChallengeState) → AreKeyed m → AreKeyed (delete id m)
unfolding delete
AreKeyed-delete id [] h = h
AreKeyed-delete id ((j, s) ∷ m) h = ground (arith, h, AreKeyed-delete id m h.1)

AreKeyed-drop_if :
    (p : ChallengeState → Bool) (m : Map ChallengeState) → AreKeyed m → AreKeyed (drop_if p m)
unfolding drop_if
AreKeyed-drop_if p [] h = h
AreKeyed-drop_if p ((j, s) ∷ m) h = ground (arith, h, AreKeyed-drop_if p m h.1)

pub AreKeyed-lookup :
    (id : String) (m : Map ChallengeState) (s : ChallengeState)
    → AreKeyed m
    → lookup id m ≡ some s
    → s.challenge.challenge_id ≡ id
unfolding lookup
AreKeyed-lookup id [] s h e = ground arith
AreKeyed-lookup id ((j, x) ∷ m) s h e = ground (arith, eq_iff j id, AreKeyed-lookup id m s h.1)

pub remove_challenge-IsKeyed :
    (id : String) (e : Engine) → IsKeyed e → AreKeyed (delete id e.challenges)
remove_challenge-IsKeyed id e h = AreKeyed-delete id e.challenges h

module _ (action : BoundAction) (context : Context) (e : Engine) where
  pub prune-IsKeyed : IsKeyed e → IsKeyed (prune_challenges action context e)
  unfolding prune_challenges
  prune-IsKeyed h = AreKeyed-drop_if (is_expired action context) e.challenges h

create-IsKeyed :
    (draw : Draw) (action : BoundAction) (context : Context) (ttl : ℕ) (e : Engine)
    → IsKeyed e
    → IsKeyed (create_challenge draw action context ttl e).1
unfolding create_challenge new_id insert make_challenge
create-IsKeyed none action context ttl e h = ground (arith, h)
create-IsKeyed (some hex) action context ttl e h =
    elim (Bool-cases (leb max_challenges (length e.challenges))) [
      | inl full ↦ rw (full, create_challenge) h
      | inr room ↦
          rw (room, create_challenge)
            (refl, AreKeyed-delete ("confirmation" ⋯ "." ⋯ hex) e.challenges h)
    ]

pub issue-IsKeyed :
    (draw : Draw) (action : BoundAction) (context : Context) (ttl : ℕ) (e : Engine)
    → IsKeyed e
    → IsKeyed (issue_confirmation draw action context ttl e).1
unfolding issue_confirmation
issue-IsKeyed draw action context ttl e h = ground (
  arith,
  h,
  create-IsKeyed draw action context ttl e h,
  create-IsKeyed draw action context ttl
      (record e {
        challenge_keys =
            delete (make_challenge_key action context e.config.revision) e.challenge_keys;
      })
      h,
)

pub approve-IsKeyed :
    (id : String) (approver : Principal) (now : Timepoint) (e : Engine)
    → IsKeyed e
    → IsKeyed (approve id approver now e).1
unfolding approve insert
approve-IsKeyed id approver now e h = elim (Option-cases (lookup id e.challenges)) [
  | inl eq ↦ rw (eq, approve) h
  | inr (s, eq) ↦
      ground
        (arith, h, eq, AreKeyed-delete id e.challenges h, AreKeyed-lookup id e.challenges s h eq)
]

pub discard-IsKeyed :
    (challenge : ConfirmationChallenge) (e : Engine)
    → IsKeyed e
    → IsKeyed (discard_confirmation challenge e).1
unfolding discard_confirmation
discard-IsKeyed challenge e h =
    ground (arith, h, AreKeyed-delete challenge.challenge_id e.challenges h)
