-- ===== src/Policy/Challenges.antt =====
-- policy/engine.go: the confirmation challenges. An identifier that `newID` makes comes in as a
-- `Draw`: the hexadecimal random part, or `none` where the random source fails.
pub mod Frame
pub mod Consume
use rin.Common.{
  ℕ, ◌+◌, ◌≤◌, String, Bool, true, false, not, ◌&&◌, ◌||◌, List, [], ◌∷◌, Option, none, some, leb,
  ltb, ◌==◌, length, contains, any, ◌=ₛ◌, ◌⋯◌, if◌then◌else◌,
}
use rin.Common.Maps.{Map, lookup, insert, delete, drop_if}
use rin.Host.{ClockMode, Timepoint, Principal, BoundAction, clock_eq, epoch_eq}
use rin.Policy.{
  deny, Config, ConfirmationDurations, Context, ConfirmationChallenge, ChallengeState, Decision,
  Engine, max_json_safe_integer, max_challenges, Error, random_failed, challenge_capacity,
  challenge_missing, challenge_clock, challenge_revision, approver_forbidden, Result, ok, err,
}
use rin.Policy.Kernel.{str_in}
use rin.Policy.Keys.{make_challenge_key, challenge_clock_scope}
use rin.Policy.Decisions.{base_decision, deny_decision}

abbrev pub Draw : Type 0
Draw = Option String

unfoldable pub new_id : String → Draw → Result String
new_id prefix none = err random_failed
new_id prefix (some hex) = ok (prefix ⋯ "." ⋯ hex)

unfoldable pub ttl_of : ConfirmationDurations → ClockMode → ℕ
ttl_of value ClockMode.event = value.event
ttl_of value ClockMode.step = value.step
ttl_of value ClockMode.realtime = value.realtime

-- `none` where confirmation is disabled for the clock.
unfoldable pub confirmation_ttl : ConfirmationDurations → ClockMode → Option ℕ
unfolding ttl_of
confirmation_ttl value clock = if ttl_of value clock == 0 then none else some (ttl_of value clock)

-- The earlier of the binding's end and `now + ttl`; the second counts only if it is JSON-safe.
unfoldable pub challenge_expiry : BoundAction → Context → ℕ → ℕ
challenge_expiry action context ttl =
    if leb (context.now.value + ttl) max_json_safe_integer
      && ltb (context.now.value + ttl) action.valid_until.value
    then context.now.value + ttl
    else action.valid_until.value

unfoldable pub make_challenge : String → BoundAction → Context → ℕ → ℕ → ConfirmationChallenge
unfolding challenge_expiry
make_challenge id action context revision ttl = record {
  challenge_id = id;
  controller_id = action.controller_id;
  actor_id = action.actor_id;
  principal_id = context.principal.id;
  effect_digest = action.effect_digest;
  epoch = action.expected_epoch;
  expires_at = record { clock = context.now.clock; value = challenge_expiry action context ttl };
  policy_revision = revision;
  single_use = true;
}

-- The part of `issueConfirmation` that makes a new challenge.
unfoldable pub create_challenge :
    Draw → BoundAction → Context → ℕ → Engine → Result ConfirmationChallenge × Engine
unfolding new_id
create_challenge draw action context ttl engine =
    if leb max_challenges (length engine.challenges)
    then (err challenge_capacity, engine)
    else elim (new_id "confirmation" draw) [
      | err e ↦ (err e, engine)
      | ok id ↦
          let key = make_challenge_key action context engine.config.revision in
          let challenge = make_challenge id action context engine.config.revision ttl in
          (
            ok challenge,
            record engine {
              challenges =
                  insert id
                    (record {
                      challenge = challenge;
                      approved = false;
                      key = key;
                      clock_scope = challenge_clock_scope action context;
                    })
                    engine.challenges;
              challenge_keys = insert key id engine.challenge_keys;
            },
          )
    ]

unfoldable pub issue_confirmation :
    Draw → BoundAction → Context → ℕ → Engine → Result ConfirmationChallenge × Engine
issue_confirmation draw action context ttl engine =
    let key = make_challenge_key action context engine.config.revision in
    elim (lookup key engine.challenge_keys) [
      | none ↦ create_challenge draw action context ttl engine
      | some existing_id ↦ elim (lookup existing_id engine.challenges) [
        | some existing ↦ (ok existing.challenge, engine)
        | none ↦
            create_challenge draw action context ttl
              (record engine { challenge_keys = delete key engine.challenge_keys })
      ]
    ]

-- `delete(engine.challenges, id); delete(engine.challengeKeys, key)`
abbrev pub remove_challenge : String → String → Engine → Engine
remove_challenge id key engine = record engine {
  challenges = delete id engine.challenges;
  challenge_keys = delete key engine.challenge_keys;
}

-- The tests of `consumeConfirmation` on a challenge that is there.
unfoldable pub challenge_fits : BoundAction → Context → ℕ → ChallengeState → Bool
challenge_fits action context revision state =
    state.approved
    && ((state.key =ₛ make_challenge_key action context revision)
        && ((state.challenge.controller_id =ₛ action.controller_id)
            && ((state.challenge.actor_id =ₛ action.actor_id)
                && ((state.challenge.principal_id =ₛ context.principal.id)
                    && ((state.challenge.effect_digest =ₛ action.effect_digest)
                        && (epoch_eq state.challenge.epoch action.expected_epoch
                            && ((state.challenge.policy_revision == revision)
                                && (clock_eq state.challenge.expires_at.clock context.now.clock
                                    && ltb context.now.value
                                        state.challenge.expires_at.value))))))))

pub data Consumption : Type 0 where
  unconfirmed confirmed rejected : Consumption

unfoldable pub consume_confirmation : BoundAction → Context → Engine → Consumption × Engine
consume_confirmation action context engine =
    if context.confirmation_id =ₛ ""
    then (unconfirmed, engine)
    else elim (lookup context.confirmation_id engine.challenges) [
      | none ↦ (rejected, engine)
      | some state ↦
          if challenge_fits action context engine.config.revision state
          then (confirmed, remove_challenge state.challenge.challenge_id state.key engine)
          else (rejected, engine)
    ]

-- The keys of the challenges that a prune drops.
abbrev drop_keys : (ChallengeState → Bool) → Map ChallengeState → Map String → Map String
drop_keys p [] keys = keys
drop_keys p ((id, state) ∷ m) keys = drop_keys p m (if p state then delete state.key keys else keys)

unfoldable pub is_expired : BoundAction → Context → ChallengeState → Bool
is_expired action context state =
    (state.clock_scope =ₛ challenge_clock_scope action context)
    && leb state.challenge.expires_at.value context.now.value

unfoldable pub prune_challenges : BoundAction → Context → Engine → Engine
prune_challenges action context engine = record engine {
  challenges = drop_if (is_expired action context) engine.challenges;
  challenge_keys = drop_keys (is_expired action context) engine.challenges engine.challenge_keys;
}

unfoldable pub principal_has_any_scope : Principal → List String → Bool
principal_has_any_scope principal scopes = any (λ s. str_in scopes s) principal.granted_scopes

-- `Approve`, once its arguments are validated.
unfoldable pub approve :
    String → Principal → Timepoint → Engine → Result ConfirmationChallenge × Engine
approve challenge_id approver now engine = elim (lookup challenge_id engine.challenges) [
  | none ↦ (err challenge_missing, engine)
  | some state ↦
      if not (clock_eq state.challenge.expires_at.clock now.clock)
      then (err challenge_clock, engine)
      else if leb state.challenge.expires_at.value now.value
      then (err challenge_missing, remove_challenge challenge_id state.key engine)
      else if not (state.challenge.policy_revision == engine.config.revision)
      then (err challenge_revision, engine)
      else if not (principal_has_any_scope approver engine.config.confirmation_scopes)
      then (err approver_forbidden, engine)
      else (
        ok state.challenge,
        record engine {
          challenges = insert challenge_id (record state { approved = true }) engine.challenges;
        },
      )
]

unfoldable pub challenge_eq : ConfirmationChallenge → ConfirmationChallenge → Bool
challenge_eq a b =
    (a.challenge_id =ₛ b.challenge_id)
    && ((a.controller_id =ₛ b.controller_id)
        && ((a.actor_id =ₛ b.actor_id)
            && ((a.principal_id =ₛ b.principal_id)
                && ((a.effect_digest =ₛ b.effect_digest)
                    && (epoch_eq a.epoch b.epoch
                        && (clock_eq a.expires_at.clock b.expires_at.clock
                            && ((a.expires_at.value == b.expires_at.value)
                                && ((a.policy_revision == b.policy_revision)
                                    && (if a.single_use
                                        then b.single_use
                                        else not b.single_use)))))))))

-- `DiscardConfirmation`, once the challenge is validated.
unfoldable pub discard_confirmation : ConfirmationChallenge → Engine → Bool × Engine
discard_confirmation challenge engine = elim (lookup challenge.challenge_id engine.challenges) [
  | none ↦ (false, engine)
  | some state ↦
      if challenge_eq state.challenge challenge
      then (true, remove_challenge challenge.challenge_id state.key engine)
      else (false, engine)
]
