-- ===== src/Signal/Service.antt =====
-- signalbox/service.go: what a Host may leave in an inbox, under its lease at the control plane.
use rin.Common.{
  ℕ, ◌≡◌, refl, String, Bool, true, not, ◌&&◌, ◌||◌, Option, none, some, ◌⊎◌, arith, inl, inr,
  Bool-cases, eq_iff, ◌==◌, ◌=ₛ◌, if◌then◌else◌,
}
use rin.Host.{Epoch, epoch_eq, epoch_eq_iff}
use rin.Signal.{Error, invalid, Result, ok, err, Signal, Settings, Target, validate_target}
use rin.Signal.Inbox.{PublishResult, Page}
use rin.Signal.Store.{Store, configure, publish, list}

-- The snapshot of an actor that `ValidateHostActorSnapshot` gives.
pub record ActorSnapshot : Type 0 where
  pub epoch : Epoch
  pub observation_sequence : ℕ

-- The two answers of the control plane that the service asks for, with its errors normalized:
-- `validate_snapshot` takes the Host, its lease, the world and the actor; `may_read` takes the target.
pub record Control : Type 0 where
  pub validate_snapshot : String → String → String → String → Result ActorSnapshot
  pub may_read : Target → Option Error

unfoldable pub configure_host :
    Control → Target → String → Settings → ℕ → Store → Store × Result Settings
configure_host control target lease_id settings now store =
    elim (control.validate_snapshot target.host_id lease_id target.world_id target.actor_id) [
      | err e ↦ (store, err e)
      | ok _ ↦ configure target settings now store
    ]

abbrev pub is_current : ActorSnapshot → Signal → Bool
is_current snapshot signal =
    epoch_eq snapshot.epoch signal.epoch
    && (snapshot.observation_sequence == signal.observation_sequence)

unfoldable pub publish_host :
    Control → String → String → Signal → ℕ → Store → Store × Result PublishResult
publish_host control host_id lease_id signal now store =
    if not (host_id =ₛ signal.host_id) || not (signal.schema_version =ₛ "rin.signal/v1")
    then (store, err invalid)
    else elim (control.validate_snapshot host_id lease_id signal.world_id signal.actor_id) [
      | err e ↦ (store, err e)
      | ok snapshot ↦
          if is_current snapshot signal then publish signal now store else (store, err invalid)
    ]

unfoldable pub list_target : Control → Target → ℕ → ℕ → ℕ → Store → Store × Result Page
list_target control target after limit now store =
    if not (validate_target target) then (store, err invalid) else elim (control.may_read target) [
      | some e ↦ (store, err e)
      | none ↦ list target after limit now store
    ]

is_current-eq :
    (snapshot : ActorSnapshot) (signal : Signal)
    → is_current snapshot signal ≡ true
    → (snapshot.epoch ≡ signal.epoch)
      × (snapshot.observation_sequence ≡ signal.observation_sequence)
is_current-eq snapshot signal h = ground (arith, h, epoch_eq_iff snapshot.epoch signal.epoch)

Result-cases {ℓ} :
    {A : Type ℓ} (r : Result A) → ((e : Error) × (r ≡ err e)) ⊎ ((a : A) × (r ≡ ok a))
Result-cases (err e) = inl (e, refl)
Result-cases (ok a) = inr (a, refl)

-- A signal of a Host is answered without an error only when it names that Host, the lease of the Host is
-- good for the actor, and the signal is of the epoch and the observation that the actor has now.
pub publish_host-IsCurrent :
    (client : Control) (host_id lease_id : String) (signal : Signal) (now : ℕ) (store : Store)
    (result : PublishResult)
    → (publish_host client host_id lease_id signal now store).1 ≡ ok result
    → (host_id ≡ signal.host_id)
      × ((snapshot : ActorSnapshot) × (client.validate_snapshot host_id lease_id signal.world_id
              signal.actor_id
            ≡ ok snapshot)
          × (snapshot.epoch ≡ signal.epoch)
          × (snapshot.observation_sequence ≡ signal.observation_sequence))
unfolding publish_host
publish_host-IsCurrent client host_id lease_id signal now store result e =
    elim (Bool-cases
      (not (host_id =ₛ signal.host_id) || not (signal.schema_version =ₛ "rin.signal/v1"))) [
        | inl other ↦ absurd (ground (arith, other, e))
        | inr same ↦
            let named : host_id ≡ signal.host_id =
              ground (arith, same, eq_iff host_id signal.host_id) in
            elim (Result-cases
              (client.validate_snapshot host_id lease_id signal.world_id signal.actor_id)) [
                | inl (error, refused) ↦ absurd (ground (arith, same, refused, e))
                | inr (snapshot, found) ↦ elim (Bool-cases (is_current snapshot signal)) [
                  | inl current ↦
                      let (epoch, sequence) = is_current-eq snapshot signal current in
                      (named, (snapshot, found, epoch, sequence))
                  | inr old ↦ absurd (ground (arith, same, found, old, e))
                ]
              ]
      ]
