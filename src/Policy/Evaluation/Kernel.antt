-- ===== src/Policy/Evaluation/Kernel.antt =====
-- What the safety kernel refuses outright.
use rin.Common.{◌≤◌, ◌<◌, ◌≡◌, ◌≢◌, ◌⊎◌, String, ◌⋯◌, true, false, Option, some, none, arith}
use rin.Host.{BoundAction, clock_eq_iff, epoch_eq_iff}
use rin.Policy.{Engine, Context, Decision, deny, Result, ok, err}
use rin.Policy.Decisions.{base_decision, deny_decision}
use rin.Policy.Challenges.{Draw, new_id, prune_challenges}
use rin.Policy.Challenges.Frame.{Frames, prune-Frames}
use rin.Policy.Evaluation.{kernel_denial, evaluate_locked, evaluate}

-- The Host is stopped, the binding is of another epoch, or it is over.
abbrev pub IsBlocked : BoundAction → Context → Type 0
IsBlocked action context =
    (context.emergency_stopped ≡ true)
    ⊎ ((context.current_epoch ≢ action.expected_epoch)
        ⊎ ((context.now.clock ≢ action.valid_until.clock)
            ⊎ (action.valid_until.value ≤ context.now.value)))

-- The Host runs, in the epoch of the binding, and the binding is not over.
abbrev pub IsLive : BoundAction → Context → Type 0
IsLive action context =
    (context.emergency_stopped ≡ false)
    × ((context.current_epoch ≡ action.expected_epoch)
        × ((context.now.clock ≡ action.valid_until.clock)
            × (context.now.value < action.valid_until.value)))

abbrev pub IsDenied : Result Decision → Type 0
IsDenied (ok d) = d.result ≡ deny
IsDenied (err e) = ⊥

abbrev Denies : Option Decision → Type 0
Denies none = ⊥
Denies (some d) = d.result ≡ deny

kernel_denial-Denies :
    (base : Decision) (action : BoundAction) (context : Context)
    → IsBlocked action context
    → Denies (kernel_denial base action context)
unfolding kernel_denial deny_decision
kernel_denial-Denies base action context h = ground (
  arith,
  h,
  clock_eq_iff context.now.clock action.valid_until.clock,
  epoch_eq_iff context.current_epoch action.expected_epoch,
)

pub kernel_denial-IsLive :
    (base : Decision) (action : BoundAction) (context : Context)
    → IsLive action context
    → kernel_denial base action context ≡ none
unfolding kernel_denial
kernel_denial-IsLive base action context h = ground (
  arith,
  h,
  clock_eq_iff context.now.clock action.valid_until.clock,
  epoch_eq_iff context.current_epoch action.expected_epoch,
)

module _ (digest : String → String) (action : BoundAction) (context : Context) where
  -- While the Host is stopped, for a binding of another epoch or clock, and for one that is over,
  -- an `Evaluate` that draws an identifier denies, whatever the rules say, and the configuration,
  -- the usage, the reservations, the authorizations and the decision keys stay as they were.
  pub evaluate-kernel :
      (hex : String) (draw : Draw) (e : Engine)
      → IsBlocked action context
      → IsDenied (evaluate digest (some hex) draw action context e).0
        × Frames e (evaluate digest (some hex) draw action context e).1
  unfolding evaluate evaluate_locked new_id
  evaluate-kernel hex draw e h =
      let pruned = prune_challenges action context e in
      let base = base_decision ("decision" ⋯ "." ⋯ hex) action context pruned.config.revision in
      ground (arith, kernel_denial-Denies base action context h, prune-Frames action context e)
