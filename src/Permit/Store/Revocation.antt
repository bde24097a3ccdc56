-- ===== src/Permit/Store/Revocation.antt =====
-- What MemoryStore.Revoke of internal/permit/store.go leaves of an issued record.
use aegis_router.Base.{◌≡◌, ◌≢◌, refl, false, List, some, inl, inr, arith, Bool-cases, ◌==◌, ◌!=◌}
use aegis_router.Base.Dict.{lookup, lookup-insert, lookup-insert_self}
use aegis_router.Text.{Bytes, bytes_eq}
use aegis_router.Time.{Time}
use aegis_router.Permit.Store.{
  state_eq, issued, revoked, Record, Store, put, revoke, expire_if_needed, consume, succeeded,
}
use aegis_router.Permit.Store.Steps.{Call, run}
use aegis_router.Permit.Store.Lifecycle.{inactive_never_consumed}

-- What Revoke writes over a record that is there
pub revoke_writes :
    (id : Bytes) (at : Time) (s : Store) (r : Record)
    → lookup id s.records ≡ some r
    → (x : Record) × (x.state ≢ issued) × ((revoke id at s).0 ≡ put id x s)
unfolding revoke
revoke_writes id at s r found = elim (Bool-cases ((expire_if_needed r at).state != issued)) [
  | inl settled ↦ (expire_if_needed r at, ground arith, rw (revoke, found, settled) refl)
  | inr active ↦ (
    record (expire_if_needed r at) { state = revoked; revoked_at = some at },
    λ same. absurd (cc same),
    rw (revoke, found, active) refl,
  )
]

-- A record that is still issued after a revocation was there before.
pub revoke_issued :
    (id j : Bytes) (at : Time) (s : Store) (r q : Record)
    → lookup id s.records ≡ some r
    → lookup j (revoke id at s).0.records ≡ some q
    → q.state ≡ issued
    → ((id == j) ≡ false) × (lookup j s.records ≡ some q)
revoke_issued id j at s r q found here active =
    let (x, settled, written) = revoke_writes id at s r found in
    let there = rw written at here in
    elim (Bool-cases (id == j)) [
      | inr other ↦ (other, ground (arith, there, lookup-insert id j x s.records))
      | inl same ↦ absurd (ground (arith, there, settled, active, lookup-insert id j x s.records))
    ]

-- A permit that Revoke was called for is never consumed, whatever its state was.
pub revoke_ends :
    (id : Bytes) (at later : Time) (cs : List Call) (s : Store) (r : Record)
    → lookup id s.records ≡ some r
    → (consume id later (run cs (revoke id at s).0)).1.outcome ≢ succeeded
revoke_ends id at later cs s r found =
    let (x, settled, written) = revoke_writes id at s r found in
    rw written (
      inactive_never_consumed id later cs x (put id x s) (lookup-insert_self id x s.records)
        (ground (arith, settled)))
