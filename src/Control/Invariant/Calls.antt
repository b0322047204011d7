-- ===== src/Control/Invariant/Calls.antt =====
-- Every call of the service keeps all its operations coherent.
use rin.Common.{
  ℕ, ◌≡◌, subst, inl, inr, String, [], ◌∷◌, some, arith, ◌=ₛ◌, Bool-cases, Option-cases,
}
use rin.Common.Maps.{Map, lookup, insert, delete}
use rin.Host.{Principal}
use rin.Control.{Operation, Desk, Service, Reply}
use rin.Control.Settle.{each}
use rin.Control.Reports.{on_host_operation}
use rin.Control.Cancel.{refresh_operation, get_operation, cancel_requested, cancel_operation}
use rin.Control.Expiry.{expire_host_operation, expire_host_operations, expire_by_ttl}
use rin.Control.Invariant.{IsCoherent}
use rin.Control.Invariant.Steps.{
  cancel_operation-IsCoherent, expire_host_operation-IsCoherent, expire_by_ttl-IsCoherent,
}

abbrev pub Every : Map Operation → Type 0
Every [] = Unit
Every ((id, o) ∷ m) = IsCoherent o × Every m

abbrev pub IsSound : Service → Type 0
IsSound service = Every service.operations

pub Every-delete : (id : String) (m : Map Operation) → Every m → Every (delete id m)
unfolding delete
Every-delete id [] h = h
Every-delete id ((j, o) ∷ m) h = ground (arith, h, Every-delete id m h.1)

pub Every-insert :
    (id : String) (o : Operation) (m : Map Operation)
    → IsCoherent o
    → Every m
    → Every (insert id o m)
unfolding insert
Every-insert id o m c h = (c, Every-delete id m h)

pub Every-lookup :
    (id : String) (m : Map Operation) (o : Operation)
    → Every m
    → lookup id m ≡ some o
    → IsCoherent o
unfolding lookup
Every-lookup id [] o h e = absurd (ground (arith, e))
Every-lookup id ((j, x) ∷ m) o h e = elim (Bool-cases (j =ₛ id)) [
  | inl same ↦ subst IsCoherent (ground (arith, same, e)) h.0
  | inr other ↦ Every-lookup id m o h.1 (ground (arith, other, e))
]

pub Every-each :
    (body : Operation → Desk → Operation × Desk)
    → ((o : Operation) (desk : Desk) → IsCoherent o → IsCoherent (body o desk).0)
    → (m : Map Operation) (desk : Desk) → Every m
    → Every (each body m desk).0
unfolding each
Every-each body keep [] desk h = h
Every-each body keep ((id, o) ∷ m) desk h =
    (keep o desk h.0, Every-each body keep m (body o desk).1 h.1)

pub on_host_operation-IsSound :
    (host_id lease_id id : String) (now : ℕ)
    (handler : Operation → Desk → Reply (Unit {0}) × (Operation × Desk)) (s : Service)
    → ((o : Operation) → IsCoherent o → IsCoherent (handler o s.desk).1.0)
    → IsSound s
    → IsSound (on_host_operation host_id lease_id id now handler s).1
unfolding on_host_operation
on_host_operation-IsSound host_id lease_id id now handler s keep h =
    elim (Option-cases (lookup id s.operations)) [
      | inl eq ↦ ground (arith, eq, h)
      | inr (o, eq) ↦ ground (
        arith,
        eq,
        h,
        Every-insert id (handler o s.desk).1.0 s.operations
            (keep o (Every-lookup id s.operations o h eq)) h,
      )
    ]

pub refresh-IsSound :
    (id : String) (o : Operation) (now : ℕ) (s : Service)
    → IsCoherent o
    → IsSound s
    → IsSound (refresh_operation id o now s)
unfolding refresh_operation expire_host_operations
refresh-IsSound id o now s c h = ground (
  arith,
  h,
  Every-insert id (expire_by_ttl s.operation_ttl now o s.desk).0 s.operations
      (expire_by_ttl-IsCoherent s.operation_ttl now o s.desk c) h,
  Every-each (expire_host_operation o.request.host_id now)
      (expire_host_operation-IsCoherent o.request.host_id now) s.operations s.desk h,
)

pub get-IsSound :
    (principal : Principal) (id : String) (now : ℕ) (s : Service)
    → IsSound s
    → IsSound (get_operation principal id now s).1
unfolding get_operation
get-IsSound principal id now s h = elim (Option-cases (lookup id s.operations)) [
  | inl eq ↦ ground (arith, eq, h)
  | inr (o, eq) ↦
      ground (arith, eq, refresh-IsSound id o now s (Every-lookup id s.operations o h eq) h)
]

pub cancel-IsSound :
    (principal : Principal) (id : String) (now : ℕ) (s : Service)
    → IsSound s
    → IsSound (cancel_requested principal id now s).1
unfolding cancel_requested
cancel-IsSound principal id now s h = elim (Option-cases (lookup id s.operations)) [
  | inl eq ↦ ground (arith, eq, h)
  | inr (before, eq) ↦
      let after = refresh_operation id before now s in
      let sound = refresh-IsSound id before now s (Every-lookup id s.operations before h eq) h in
      elim (Option-cases (lookup id after.operations)) [
        | inl gone ↦ ground (arith, eq, gone, sound)
        | inr (o, there) ↦ ground (
          arith,
          eq,
          there,
          sound,
          Every-insert id (cancel_operation now o after.desk).0 after.operations
              (cancel_operation-IsCoherent now o after.desk
                (Every-lookup id after.operations o sound there))
              sound,
        )
      ]
]
