-- ===== src/Signal/Delivery/Retries.antt =====
-- signalbox/delivery.go: a signal is not retried for ever.
use rin.Common.{
  ℕ, ◌+◌, ◌≤◌, ◌<◌, ◌≡◌, refl, String, List, [], ◌∷◌, arith, inl, inr, Bool-cases, leb, length,
}
use rin.Signal.{Result, ok, err, dropped, retry, undelivered, DeliveryState, delivery_eq}
use rin.Signal.Delivery.{report, next_delivery}

-- The arguments of a report of `retry`.
pub record Retry : Type 0 where
  pub reason : String
  pub task_id : String
  pub at : ℕ

abbrev then_report :
    Result DeliveryState → (DeliveryState → Result DeliveryState) → Result DeliveryState
then_report (err e) f = err e
then_report (ok s) f = f s

-- One report of `retry` after another, each of which is taken.
unfoldable pub report_retries : List Retry → DeliveryState → Result DeliveryState
unfolding report
report_retries [] current = ok current
report_retries (x ∷ xs) current =
    then_report (report retry x.reason x.task_id x.at current) (report_retries xs)

report-retry :
    (reason task_id : String) (now : ℕ) (current : DeliveryState) {next : DeliveryState}
    → report retry reason task_id now current ≡ ok next
    → (next.attempts ≡ current.attempts + 1) × (32 ≤ next.attempts → next.status ≡ dropped)
unfolding report next_delivery delivery_eq
report-retry reason task_id now current e = ground (arith, e)

report-dropped :
    (reason task_id : String) (now : ℕ) (current : DeliveryState)
    → current.status ≡ dropped
    → report retry reason task_id now current ≡ err rin.Signal.invalid
unfolding report delivery_eq
report-dropped reason task_id now current e = rw e refl

then_report-eq :
    (r : Result DeliveryState) (f : DeliveryState → Result DeliveryState) {last : DeliveryState}
    → then_report r f ≡ ok last
    → (s : DeliveryState) × (r ≡ ok s) × (f s ≡ ok last)
then_report-eq (ok s) f h = (s, refl, h)
then_report-eq (err e) f h = absurd cc

report_retries-dropped :
    (retries : List Retry) (current : DeliveryState) {last : DeliveryState}
    → current.status ≡ dropped
    → report_retries retries current ≡ ok last
    → length retries ≤ 0
unfolding report_retries
report_retries-dropped [] current d e = omega arith
report_retries-dropped (x ∷ xs) current d e =
    let (s, first, _) = then_report-eq (report retry x.reason x.task_id x.at current) _ e in
    absurd (ground (arith, first, report-dropped x.reason x.task_id x.at current d))

-- A signal that has fewer than 32 attempts behind it takes reports of a retry only until there are 32:
-- no run of reports that are all taken is longer, so the retries of a signal end.
pub report_retries-le :
    (retries : List Retry) (current last : DeliveryState)
    → current.attempts < 32
    → report_retries retries current ≡ ok last
    → length retries + current.attempts ≤ 32
unfolding report_retries
report_retries-le [] current last h e = omega (arith, h)
report_retries-le (x ∷ xs) current last h e =
    let (s, first, rest) = then_report-eq (report retry x.reason x.task_id x.at current) _ e in
    let (counted, ends) = report-retry x.reason x.task_id x.at current first in
    elim (Bool-cases (leb 32 s.attempts)) [
      | inl full ↦
          omega (arith, h, counted, report_retries-dropped xs s (ends (ground (arith, full))) rest)
      | inr room ↦
          let fewer : s.attempts < 32 = ground (arith, room) in
          omega (arith, counted, report_retries-le xs s last fewer rest)
    ]
