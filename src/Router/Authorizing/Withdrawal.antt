-- ===== src/Router/Authorizing/Withdrawal.antt =====
-- An authorization of internal/router/router.go that fails leaves no permit behind.
use aegis_router.Base.{
  ℕ, ◌≡◌, refl, sym, ap, ◌∙◌, none, some, Result, ok, err, inl, inr, arith, Bool-cases,
  Result-cases,
}
use aegis_router.Base.Dict.{lookup, lookup-insert, lookup-insert_self}
use aegis_router.Text.{Bytes, bytes_eq}
use aegis_router.Permit.Claims.{Class}
use aegis_router.Permit.Issuer.{IssuedPermit}
use aegis_router.Permit.Store.{state_eq, issued, Record, Store, put, fresh_record}
use aegis_router.Permit.Store.Revocation.{revoke_issued}
use aegis_router.Models.{Request}
use aegis_router.Runtime.{Envelope}
use aegis_router.Audit.{append}
use aegis_router.Router.Validation.{is_valid_request}
use aegis_router.Intake.{WorkloadBinding}
use aegis_router.Router.{Deployment, RouterState, RouterError, Moment, with_store}
use aegis_router.Router.Authorizing.Refusals.{
  grant_permit_refused, grant_permit-none, granted_store,
}
use aegis_router.Router.Decision.{Course}
use aegis_router.Router.Authorizing.{
  Granted, grant_permit, audit_record, withdraw, settle_audit, conclude, carry_out, named,
  authorize_resolved,
}

-- An issued record of the state of an error was there before.
conclude_refused :
    (d : Deployment) (m : Moment) (r : Request) (course : Course) (text : Bytes) (p : IssuedPermit)
    (e : Envelope) (s t : RouterState) (x : RouterError) (j : Bytes) (q : Record)
    → t.boundary.permits ≡ put p.claims.permit_id (fresh_record p.claims) s.boundary.permits
    → e.permit_id ≡ p.claims.permit_id
    → (conclude d m r course text t (ok (some (p, e)))).1 ≡ err x
    → lookup j (conclude d m r course text t (ok (some (p, e)))).0.boundary.permits.records ≡ some q
    → q.state ≡ issued
    → lookup j s.boundary.permits.records ≡ some q
unfolding conclude settle_audit withdraw
conclude_refused d m r course text p e s t x j q store same h here active =
    let id = p.claims.permit_id in
    let entry = audit_record d m r course text (some e) in
    elim (Result-cases (append m.written entry t.log)) [
      | inl (log, kept) ↦ absurd (ground (arith, rw (conclude, kept) at h))
      | inr (lost, failed) ↦
          let there : lookup e.permit_id t.boundary.permits.records ≡ some (fresh_record p.claims) =
            ap (λ u. lookup e.permit_id u.records) store
            ∙ ap (λ k. lookup k (put id (fresh_record p.claims) s.boundary.permits).records) same
            ∙ lookup-insert_self id (fresh_record p.claims) s.boundary.permits.records in
          let (other, before) =
            revoke_issued e.permit_id j m.withdrawn t.boundary.permits (fresh_record p.claims) q
              there (rw (conclude, failed) at here) active in
          let found = ap (λ u. lookup j u.records) (sym store) ∙ before in
          ground (
            arith,
            found,
            same,
            other,
            lookup-insert id j (fresh_record p.claims) s.boundary.permits.records,
          )
    ]

-- What the store holds beside each answer of the grant.
abbrev IsGrantOf : Store → Store → Result RouterError Granted → Type 0
IsGrantOf s store (err e) = store ≡ s
IsGrantOf s store (ok none) = store ≡ s
IsGrantOf s store (ok (some (p, e))) =
    (store ≡ put p.claims.permit_id (fresh_record p.claims) s) × (e.permit_id ≡ p.claims.permit_id)

grant_permit-IsGrantOf :
    (d : Deployment) (m : Moment) (r : Request) (binding : WorkloadBinding) (class : Class)
    (override epoch : ℕ) (course : Course) (text : Bytes) (s : Store)
    → let answer = grant_permit d m r binding class override epoch course text s in
      IsGrantOf s answer.0 answer.1
grant_permit-IsGrantOf d m r binding class override epoch course text s = go _ refl
  where
    go :
        (answer : Result RouterError Granted)
        → (grant_permit d m r binding class override epoch course text s).1 ≡ answer
        → IsGrantOf s (grant_permit d m r binding class override epoch course text s).0 answer
    go (err e) h = grant_permit_refused d m r binding class override epoch course text s e h
    go (ok none) h = grant_permit-none d m r binding class override epoch course text s h
    go (ok (some (p, e))) h = granted_store d m r binding class override epoch course text s p e h

conclude_keeps :
    (d : Deployment) (m : Moment) (r : Request) (course : Course) (text : Bytes) (s t : RouterState)
    (answer : Result RouterError Granted) (x : RouterError) (j : Bytes) (q : Record)
    → IsGrantOf s.boundary.permits t.boundary.permits answer
    → (conclude d m r course text t answer).1 ≡ err x
    → lookup j (conclude d m r course text t answer).0.boundary.permits.records ≡ some q
    → q.state ≡ issued
    → lookup j s.boundary.permits.records ≡ some q
unfolding conclude settle_audit withdraw
conclude_keeps d m r course text s t (err e) x j q grant h here active =
    ap (λ u. lookup j u.records) (sym grant) ∙ here
conclude_keeps d m r course text s t (ok none) x j q grant h here active =
    elim (Result-cases (append m.written (audit_record d m r course text none) t.log)) [
      | inl (log, kept) ↦ absurd (ground (arith, rw (conclude, kept) at h))
      | inr (lost, failed) ↦
          ap (λ u. lookup j u.records) (sym grant) ∙ (rw (conclude, failed) at here)
    ]
conclude_keeps d m r course text s t (ok (some (p, e))) x j q (store, same) h here active =
    conclude_refused d m r course text p e s t x j q store same h here active

carry_out_keeps :
    (d : Deployment) (m : Moment) (r : Request) (binding : WorkloadBinding) (class : Class)
    (override epoch : ℕ) (course : Course) (s : RouterState) (text : Result RouterError Bytes)
    (x : RouterError) (j : Bytes) (q : Record)
    → (carry_out d m r binding class override epoch course s text).1 ≡ err x
    → lookup j
        (carry_out d m r binding class override epoch course s text).0.boundary.permits.records
      ≡ some q
    → q.state ≡ issued
    → lookup j s.boundary.permits.records ≡ some q
unfolding carry_out
carry_out_keeps d m r binding class override epoch course s (err e) x j q h here active = here
carry_out_keeps d m r binding class override epoch course s (ok text) x j q h here active =
    let answer = grant_permit d m r binding class override epoch course text s.boundary.permits in
    conclude_keeps d m r course text s (with_store s answer.0) answer.1 x j q
      (grant_permit-IsGrantOf d m r binding class override epoch course text s.boundary.permits) h
      here active

-- An authorization that answers an error leaves no new permit that can be used: every record that
-- is issued after it stood, unchanged, before it. A failed write of the audit log is such an
-- error.
pub authorize_refused_withdraws :
    (d : Deployment) (m : Moment) (r : Request) (binding : WorkloadBinding) (class : Class)
    (override : ℕ) (s : RouterState) (x : RouterError) (j : Bytes) (q : Record)
    → (authorize_resolved d m r binding class override s).1 ≡ err x
    → lookup j (authorize_resolved d m r binding class override s).0.boundary.permits.records
      ≡ some q
    → q.state ≡ issued
    → lookup j s.boundary.permits.records ≡ some q
unfolding authorize_resolved
authorize_refused_withdraws d m r binding class override s x j q h here active =
    elim (Bool-cases (is_valid_request d.library r)) [
      | inr invalid ↦ rw (authorize_resolved, invalid) at here
      | inl valid ↦
          carry_out_keeps d m (named m r) binding class override _ _ s _ x j q
            (rw (authorize_resolved, valid) at h) (rw (authorize_resolved, valid) at here) active
    ]
